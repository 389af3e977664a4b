-- ===== src/Tests.antt =====
-- The theorems at concrete inputs: the repository, the limiter and the health checks.
mod Qr
mod Links
mod Tariffs
mod Environment
mod Tokens
mod Database
mod Server
mod Nodes
mod Service
use vpp_wl_mobile.Prelude.{
  or_text, is_space, concat, decimal, rstrip, lstrip, strip, ℕ, ◌+◌, ◌*◌, ◌≤◌, min, max, String,
  ◌≡◌, refl, ◌≢◌, ◌⊎◌, true, false, Option, none, some, List, [], ◌∷◌, ◌++◌, arith, ltb, or_else,
  length, drop, keep, All, is_empty,
}
use vpp_wl_mobile.Prelude.Dict
use vpp_wl_mobile.Repository.Commercial.Extension
use vpp_wl_mobile.Repository.Users.Subscribing
use vpp_wl_mobile.Prelude.Int.{pos, ℤ}
use vpp_wl_mobile.Prelude.Sort.{IsSorted}
use vpp_wl_mobile.Prelude.Dict.{Distinct}
use vpp_wl_mobile.Repository.Nodes.Seed.{
  node_us_1, demo_nodes, seed_nodes, node_eu_1, new_repository,
}
use vpp_wl_mobile.NodeConfig.{
  env_tag, required, setting, node_at, parse_numbers, parse_nodes_from_env, Env,
}
use vpp_wl_mobile.Service.Sales.Guarded.{yookassa_webhook-Guarded, Confirmed}
use vpp_wl_mobile.Models.{
  NodeOptions, Protocol, VpnNode, NodeStatus, NodeHealth, Platform, NodeHealthEvent, is_usable,
  CommercialSubscription, ReceiptClaim,
}
use vpp_wl_mobile.Json.{str, object, Json}
use vpp_wl_mobile.Service.Sales.{yookassa_webhook}
use vpp_wl_mobile.Service.Payload.{Payload}
use vpp_wl_mobile.Repository.Events.Retention.{
  total, prune_node_health_events-Prunes, Prunes, failures,
}
use vpp_wl_mobile.Nodes.{node_score, before, sort_nodes_by_score, choose_preferred_nodes}
use vpp_wl_mobile.Config.Validation.{validate_config_shape}
use vpp_wl_mobile.Repository.Nodes.Keyed.{
  update_node_health_lem, Updates, new_repository-Holds, last_with, IsKeyed,
}
use vpp_wl_mobile.RateLimit.Window.{allow-exact, accepted-bounded, new_limiter}
use vpp_wl_mobile.RateLimit.Tracking.{live, in_window}
use vpp_wl_mobile.Health.Bounds.{evaluate-Evaluates, Evaluates}
use vpp_wl_mobile.Repository.Users.Subscribing.{
  delete_user_lem, Erased, activate_subscription-Activates,
}
use vpp_wl_mobile.Service.Admin.Audited.{disable, admin_run, Audited}
use vpp_wl_mobile.Errors.{ok, value_error, raised}
use vpp_wl_mobile.Repository.Nodes.{index_nodes, update_node_health, get_node, HealthFields}
use vpp_wl_mobile.Repository.Commercial.Extension.{
  activate_twice, activate_commercial_subscription-Activates,
}
use vpp_wl_mobile.Config.Rules.{default_engine}
use vpp_wl_mobile.Health.{evaluate, ProbeResult}
use vpp_wl_mobile.Health.Worker.Runs.{run_once-Runs, Runs}
use vpp_wl_mobile.Config.Accepted.{DistinctTags, IsServable}
use vpp_wl_mobile.Repository.Users.Invariant.{
  get_or_create_user-Delivers, Known, IsConsistent, IsFresh, Delivers,
}
use vpp_wl_mobile.Health.Worker.{run_once}
use vpp_wl_mobile.Repository.{empty_repo, day, Repo}
use vpp_wl_mobile.Repository.Users.{delete_user, get_or_create_user, activate_subscription}
use vpp_wl_mobile.RateLimit.{accepted, served, allow}
use vpp_wl_mobile.Config.{build_client_config}
use vpp_wl_mobile.Repository.Events.{prune_node_health_events, count_node_health_events_by_result}
use vpp_wl_mobile.Repository.Commercial.{
  get_commercial_subscription, create_commercial_subscription, activate_commercial_subscription,
}
use vpp_wl_mobile.Service.{Python, Settings, World}
use mathlib.Core.List.{Perm}

-- A repository without users, and one with the user of one phone.
abbrev blank : Repo
blank = empty_repo []

abbrev first_user : Repo
first_user = (get_or_create_user "phone" "usr_1" 5 blank).1

blank-IsConsistent : IsConsistent blank
unfolding Dict.get
blank-IsConsistent = record {
  indexed = λ d id h. cc;
  listed = λ id u h. cc;
  subscribed = λ id s h. cc;
}

blank-IsFresh : IsFresh blank "usr_1"
unfolding Dict.get is_empty
blank-IsFresh = record { unused = refl; nonempty = refl }

get_or_create_user-Delivers_example : Delivers "phone" (get_or_create_user "phone" "usr_1" 5 blank)
get_or_create_user-Delivers_example =
    get_or_create_user-Delivers "phone" "usr_1" 5 blank blank-IsConsistent blank-IsFresh

first_user-IsConsistent : IsConsistent first_user
first_user-IsConsistent =
    (get_or_create_user-Delivers "phone" "usr_1" 5 blank blank-IsConsistent blank-IsFresh).0

delete_user_lem_example :
    (Known first_user "usr_1"
      × ((delete_user "usr_1" first_user).0 ≡ true)
      × Erased "usr_1" first_user (delete_user "usr_1" first_user).1)
    ⊎ ((Dict.get "usr_1" first_user.users_by_id ≡ none)
        × (delete_user "usr_1" first_user ≡ (false, first_user)))
delete_user_lem_example = delete_user_lem "usr_1" first_user first_user-IsConsistent

abbrev claim : ReceiptClaim
claim = record {
  platform = Platform.sandbox;
  receipt = "a receipt";
  device_id = "phone";
  product_id = "vpn.monthly";
}

abbrev digest : String → String
digest s = s

activate_subscription-Activates_example :
    Subscribing.Activates claim 7 blank (activate_subscription digest claim "usr_1" 5 7 blank)
activate_subscription-Activates_example =
    activate_subscription-Activates digest claim "usr_1" 5 7 blank blank-IsConsistent blank-IsFresh

-- A subscription that has been ordered and not paid for.
abbrev ordered : Repo
ordered = (create_commercial_subscription "tok" "month" none 5 blank).1

abbrev order : CommercialSubscription
order = (create_commercial_subscription "tok" "month" none 5 blank).0

order-stored : get_commercial_subscription "tok" ordered ≡ some order
unfolding get_commercial_subscription create_commercial_subscription Dict.get Dict.insert
order-stored = refl

order-unpaid : order.expires_at ≡ none
unfolding create_commercial_subscription
order-unpaid = refl

activate_commercial_subscription-Activates_example :
    Extension.Activates "tok" 30 9 ordered
      (activate_commercial_subscription "tok" 30 none 9 ordered)
activate_commercial_subscription-Activates_example =
    activate_commercial_subscription-Activates "tok" 30 9 none ordered

activate_twice_example :
    (u : CommercialSubscription) × (get_commercial_subscription "tok"
        (activate_commercial_subscription "tok" 90 none 20
          (activate_commercial_subscription "tok" 30 none 9 ordered).1).1
      ≡ some u)
    × (u.expires_at ≡ some (max (or_else order.expires_at 9) 9 + 120 * day))
activate_twice_example =
    activate_twice "tok" order 30 90 9 20 none none ordered order-stored (omega arith) (omega arith)
      (rw order-unpaid (omega arith)) (rw order-unpaid (omega arith))

abbrev seeded : Repo
seeded = new_repository none

seeded-IsKeyed : IsKeyed seeded.nodes_by_id
seeded-IsKeyed = (new_repository-Holds [] "node_eu_1").3

new_repository-Holds_example :
    (get_node "node_us_1" (new_repository (some (node_eu_1 ∷ node_us_1 ∷ [])))
      ≡ last_with "node_us_1" (node_eu_1 ∷ node_us_1 ∷ []))
    × (get_node "node_us_1" (new_repository none) ≡ last_with "node_us_1" demo_nodes)
    × IsKeyed (new_repository (some (node_eu_1 ∷ node_us_1 ∷ []))).nodes_by_id
    × IsKeyed (new_repository none).nodes_by_id
new_repository-Holds_example = new_repository-Holds (node_eu_1 ∷ node_us_1 ∷ []) "node_us_1"

abbrev report : HealthFields
report = record {
  health_score = 90;
  status = none;
  latency_ms = some 60;
  success_rate = some 9900;
  health = none;
  last_check_at = some 7;
}

update_node_health_lem_example :
    ((get_node "node_eu_1" seeded ≡ none)
      × (update_node_health "node_eu_1" report seeded ≡ (none, seeded)))
    ⊎ ((n m : VpnNode) × ((update_node_health "node_eu_1" report seeded).0 ≡ some m)
        × Updates "node_eu_1" report n m seeded (update_node_health "node_eu_1" report seeded).1)
update_node_health_lem_example = update_node_health_lem "node_eu_1" report seeded seeded-IsKeyed

abbrev event : ℕ → Option String → NodeHealthEvent
event at error = record {
  id = "nhe_1";
  node_id = "node_eu_1";
  checked_at = at;
  old_health = none;
  new_health = NodeHealth.healthy;
  old_status = none;
  new_status = NodeStatus.active;
  old_success_rate = none;
  new_success_rate = 10_000;
  old_latency_ms = none;
  new_latency_ms = none;
  health_score = 100;
  error = error;
}

abbrev checked : Repo
checked = record blank {
  health_events_by_node_id =
      ("node_eu_1", event 9 none ∷ event 4 (some "timed out") ∷ [])
      ∷ ("node_eu_2", event 3 none ∷ [])
      ∷ [];
}

checked-Distinct : Distinct checked.health_events_by_node_id
unfolding Dict.get
checked-Distinct = (refl, (refl, tt))

prune_node_health_events-Prunes_example :
    Prunes 5 (prune_node_health_events 5 checked).0 checked (prune_node_health_events 5 checked).1
prune_node_health_events-Prunes_example = prune_node_health_events-Prunes 5 checked checked-Distinct

abbrev requests : List (String × ℕ)
requests = ("a", 3) ∷ ("b", 3) ∷ ("a", 4) ∷ ("a", 60_000_003) ∷ []

accepted-bounded_example :
    length (in_window 60_000_003 (accepted "a" (new_limiter 1 "a") requests [])) ≤ 1
accepted-bounded_example =
    accepted-bounded 1 "a" requests (omega arith)
      (omega arith, (omega arith, (omega arith, (omega arith, tt)))) 60_000_003

allow-exact_example :
    (allow "a" 60_000_004 (served (new_limiter 1 "a") requests)).0
    ≡ ltb (length (live 60_000_004 (accepted "a" (new_limiter 1 "a") requests []))) 1
allow-exact_example =
    allow-exact 1 "a" requests 60_000_004 (omega arith)
      (omega arith, (omega arith, (omega arith, (omega arith, tt)))) (omega arith)

abbrev lost : ProbeResult
lost = record { is_ok = false; latency_ms = none; checked_at = 8; error = some "timed out" }

evaluate-Evaluates_example : Evaluates node_eu_1 lost (evaluate 20 node_eu_1 lost)
evaluate-Evaluates_example = evaluate-Evaluates 20 node_eu_1 lost (omega arith) (omega arith)

seeded-Distinct : Distinct seeded.nodes_by_id
unfolding new_repository seed_nodes index_nodes Dict.insert Dict.get
seeded-Distinct = (refl, (refl, (refl, (refl, tt))))

run_once-Runs_example :
    Runs 20
      (λ n. lost)
      (λ n. n.id)
      false
      seeded
      (run_once 20 (λ n. lost) (λ n. n.id) none false seeded)
run_once-Runs_example =
    run_once-Runs 20 (λ n. lost) (λ n. n.id) none false seeded seeded-Distinct seeded-IsKeyed
