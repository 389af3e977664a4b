-- ===== src/Tests/Database.antt =====
-- The SQLite repository at concrete inputs, with libraries that know one day and one text of JSON.
use vpp_wl_mobile.Prelude.{
  arith, zero, String, false, suc, ◌-◌, is_empty, str_len, ℕ, is_some, ◌≡◌, refl, ap, not, ◌&&◌,
  none, some, [], ◌∷◌, ◌==◌, if◌then◌else◌,
}
use vpp_wl_mobile.Sqlite.Users
use vpp_wl_mobile.Repository.Commercial
use vpp_wl_mobile.Prelude.Int.{pos}
use vpp_wl_mobile.Sqlite.{Library, Database}
use vpp_wl_mobile.Sqlite.Options.{Payload, options_payload}
use vpp_wl_mobile.Sqlite.Stored.{IsStorable, upsert_node-get_node, stored_result, is_stored}
use vpp_wl_mobile.Sqlite.Nodes.{upsert_node, get_node}
use vpp_wl_mobile.Sqlite.Rows.{node_row}
use vpp_wl_mobile.Models.{VpnNode, NodeOptions, Protocol, NodeStatus, NodeHealth}
use vpp_wl_mobile.Errors.{ok, raised, integrity_error}
use vpp_wl_mobile.Json.{str, object}
use vpp_wl_mobile.Sqlite.Refined.{
  KeepsTimes, Represents, create_commercial_subscription-Refines,
  activate_commercial_subscription-Refines,
}
use vpp_wl_mobile.Repository.{Repo, empty_repo}

abbrev secret_fields : Payload
secret_fields = ("method", str "aes-256-gcm") ∷ ("password", str "secret") ∷ []

abbrev lib : Library
lib = record {
  to_text = λ t. "2026-01-01T00:00:00+00:00";
  from_text = λ s. some 63_902_822_400_000_000;
  dumps = λ v. "{\"method\":\"aes-256-gcm\",\"password\":\"secret\"}";
  dumps_sorted = λ v. "{}";
  loads = λ s. some (object secret_fields);
}

abbrev node : VpnNode
node = record {
  id = "node_1";
  tag = "de-1";
  region = "Frankfurt";
  provider = "hetzner";
  country_code = "DE";
  host = "de.example";
  port = 8388;
  protocol = Protocol.shadowsocks;
  status = NodeStatus.active;
  priority = pos 1;
  weight = 100;
  health_score = 90;
  latency_ms = some 40;
  success_rate = 1;
  last_check_at = some 63_902_822_400_000_000;
  health = NodeHealth.healthy;
  options = NodeOptions.shadowsocks (record { method = "aes-256-gcm"; password = "secret" });
}

abbrev database : Database
database = record {
  users = [];
  subscriptions = [];
  commercial_subscriptions = [];
  nodes = node_row lib (record node { id = "node_2"; tag = "de-2" }) ∷ [];
  node_health_events = [];
  admin_audit_events = [];
}

node-IsStorable : IsStorable lib node
unfolding options_payload is_empty
node-IsStorable = record {
  fits = refl;
  dated = λ t h. (refl, ap (λ o. o) h);
  dumped = λ p h. (refl, ap (λ o. elim o [ none ↦ none | some q ↦ some (object q) ]) h);
}

upsert_node-get_node_example :
    ((upsert_node lib node database).0 ≡ stored_result lib node database)
    × ((get_node lib "node_1" (upsert_node lib node database).1).0 ≡ (
        if is_stored lib node database && (node.id == "node_1")
        then ok (some node)
        else (get_node lib "node_1" database).0))
upsert_node-get_node_example = upsert_node-get_node lib node database "node_1" node-IsStorable

-- A text of each length stands for a time.
unfoldable strokes : ℕ → String
strokes zero = "|"
strokes (suc t) = String.◌∷◌ "|" (strokes t)

str_len-strokes : (t : ℕ) → str_len (strokes t) ≡ suc t
unfolding strokes str_len
str_len-strokes zero = refl
str_len-strokes (suc t) = rw (str_len-strokes t) refl

abbrev tally : Library
tally = record lib { to_text = strokes; from_text = λ s. some (str_len s - 1) }

is_empty-strokes : (t : ℕ) → is_empty (strokes t) ≡ false
unfolding strokes is_empty
is_empty-strokes zero = refl
is_empty-strokes (suc t) = refl

one_less : (t : ℕ) → str_len (strokes t) - 1 ≡ t
one_less t = let len = str_len-strokes t in omega arith

tally-KeepsTimes : KeepsTimes tally
tally-KeepsTimes t = (is_empty-strokes t, ap (λ n. some n) (one_less t))

abbrev blank : Repo
blank = empty_repo []

blank-Represents : Represents tally blank database
unfolding Users.get_commercial_subscription Commercial.get_commercial_subscription
    vpp_wl_mobile.Prelude.Dict.get
blank-Represents token = refl

create_commercial_subscription-Refines_example :
    let taken = is_some (Commercial.get_commercial_subscription "tok_1" blank) in
    let (s, r') = Commercial.create_commercial_subscription "tok_1" "1m" (some "pay_1") 5 blank in
    let (result, db') =
      Users.create_commercial_subscription tally "tok_1" "1m" (some "pay_1") 5 database in
    (result ≡ (if taken then raised integrity_error else ok s))
    × Represents tally (if taken then blank else r') db'
create_commercial_subscription-Refines_example =
    create_commercial_subscription-Refines tally "tok_1" "1m" (some "pay_1") 5 blank database
      tally-KeepsTimes blank-Represents

abbrev sold : Repo
sold = (Commercial.create_commercial_subscription "tok_1" "1m" (some "pay_1") 5 blank).1

abbrev sold_database : Database
sold_database =
    (Users.create_commercial_subscription tally "tok_1" "1m" (some "pay_1") 5 database).1

sold-Represents : Represents tally sold sold_database
unfolding Commercial.get_commercial_subscription Commercial.create_commercial_subscription
    vpp_wl_mobile.Prelude.Dict.get
sold-Represents =
    (create_commercial_subscription-Refines tally "tok_1" "1m" (some "pay_1") 5 blank database
      tally-KeepsTimes blank-Represents).1

activate_commercial_subscription-Refines_example :
    let (expected, r') = Commercial.activate_commercial_subscription "tok_1" 30 none 7 sold in
    let (result, db') =
      Users.activate_commercial_subscription tally "tok_1" 30 none 7 sold_database in
    (result ≡ expected) × Represents tally r' db'
activate_commercial_subscription-Refines_example =
    activate_commercial_subscription-Refines tally "tok_1" 30 none 7 sold sold_database
      tally-KeepsTimes sold-Represents
