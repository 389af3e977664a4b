-- ===== src/Sqlite/Options.antt =====
-- The column `options_json` of backend/app/repositories/sqlite.py.
pub mod RoundTrip
use vpp_wl_mobile.Prelude.{
  ℕ, String, Option, none, some, List, [], ◌∷◌, map, if◌then◌else◌, or_else, is_empty,
}
use vpp_wl_mobile.Prelude.Dict
use vpp_wl_mobile.Prelude.Int.{pos}
use vpp_wl_mobile.Json.{
  Json, null, int, nat, str, arr, obj, object, array, texts, entries, elements,
}
use vpp_wl_mobile.Errors.{Result, ok, raised, key_error, type_error, value_error}
use vpp_wl_mobile.Errors.Chain.{◌>>=◌, or_fail}
use vpp_wl_mobile.Models.{
  Protocol, NodeOptions, VlessOptions, ShadowsocksOptions, WireGuardOptions, Hysteria2Options,
}
use vpp_wl_mobile.Sqlite.{Library}
use vpp_wl_mobile.Service.Views.{or_null}

abbrev pub Payload : Type 0
Payload = Dict.Dict Json

-- `payload[key]` and `payload.get(key)`, read as what `_options_to_json` writes there. A value of
-- another type is outside of the model, and shown as TypeError.
abbrev pub as_text : Json → Result String
as_text (str s) = ok s
as_text v = raised type_error

abbrev pub as_optional_text : Json → Result (Option String)
as_optional_text null = ok none
as_optional_text (str s) = ok (some s)
as_optional_text v = raised type_error

abbrev pub as_optional_dict : Json → Result (Option (Dict.Dict Json))
as_optional_dict null = ok none
as_optional_dict (obj fields) = ok (some (entries fields))
as_optional_dict v = raised type_error

abbrev pub as_number : Json → Result ℕ
as_number (int (pos n)) = ok n
as_number v = raised type_error

unfoldable pub each : {A : Type 0} → (Json → Result A) → List Json → Result (List A)
each read [] = ok []
each read (v ∷ vs) = do a ← read v; rest ← each read vs; ok (a ∷ rest)

unfoldable pub as_texts : Json → Result (List String)
unfolding each elements
as_texts (arr items) = each as_text (elements items)
as_texts v = raised type_error

unfoldable pub as_optional_numbers : Json → Result (Option (List ℕ))
unfolding each elements
as_optional_numbers null = ok none
as_optional_numbers (arr items) = do numbers ← each as_number (elements items); ok (some numbers)
as_optional_numbers v = raised type_error

abbrev pub item : String → Payload → Result Json
item key payload = or_fail (Dict.get key payload) key_error

abbrev pub get_or : String → Json → Payload → Json
get_or key default payload = or_else (Dict.get key payload) default

unfoldable pub vless_payload : VlessOptions → Payload
vless_payload o =
    ("uuid", str o.uuid)
    ∷ ("server_name", str o.server_name)
    ∷ ("flow", or_null str o.flow)
    ∷ ("transport", or_null object o.transport)
    ∷ ("reality", or_null object o.reality)
    ∷ ("security", str o.security)
    ∷ ("public_key", or_null str o.public_key)
    ∷ ("short_id", or_null str o.short_id)
    ∷ ("fingerprint", str o.fingerprint)
    ∷ ("label", or_null str o.label)
    ∷ ("raw_url", or_null str o.raw_url)
    ∷ ("source", str o.source)
    ∷ ("source_panel", or_null str o.source_panel)
    ∷ []

unfoldable pub wireguard_payload : WireGuardOptions → Payload
wireguard_payload o =
    ("private_key", str o.private_key)
    ∷ ("peer_public_key", str o.peer_public_key)
    ∷ ("local_address", texts o.local_address)
    ∷ ("mtu", nat o.mtu)
    ∷ ("reserved", or_null (λ ns. array (map nat ns)) o.reserved)
    ∷ []

-- The dict of `_options_to_json`.
unfoldable pub options_payload : NodeOptions → Option Payload
unfolding vless_payload wireguard_payload
options_payload NodeOptions.empty = none
options_payload (NodeOptions.vless o) = some (vless_payload o)
options_payload (NodeOptions.shadowsocks o) =
    some (("method", str o.method) ∷ ("password", str o.password) ∷ [])
options_payload (NodeOptions.wireguard o) = some (wireguard_payload o)
options_payload (NodeOptions.hysteria2 o) =
    some (("password", str o.password) ∷ ("server_name", str o.server_name) ∷ [])

unfoldable pub vless_from : Payload → Result VlessOptions
vless_from payload = do
  uuid ← item "uuid" payload >>= as_text
  server_name ← item "server_name" payload >>= as_text
  flow ← as_optional_text (get_or "flow" null payload)
  transport ← as_optional_dict (get_or "transport" null payload)
  reality ← as_optional_dict (get_or "reality" null payload)
  security ← as_text (get_or "security" (str "reality") payload)
  public_key ← as_optional_text (get_or "public_key" null payload)
  short_id ← as_optional_text (get_or "short_id" null payload)
  fingerprint ← as_text (get_or "fingerprint" (str "chrome") payload)
  label ← as_optional_text (get_or "label" null payload)
  raw_url ← as_optional_text (get_or "raw_url" null payload)
  source ← as_text (get_or "source" (str "manual") payload)
  source_panel ← as_optional_text (get_or "source_panel" null payload)
  ok (record {
    uuid = uuid;
    server_name = server_name;
    flow = flow;
    transport = transport;
    reality = reality;
    security = security;
    public_key = public_key;
    short_id = short_id;
    fingerprint = fingerprint;
    label = label;
    raw_url = raw_url;
    source = source;
    source_panel = source_panel;
  })

unfoldable pub shadowsocks_from : Payload → Result ShadowsocksOptions
shadowsocks_from payload = do
  method ← item "method" payload >>= as_text
  password ← item "password" payload >>= as_text
  ok (record { method = method; password = password })

unfoldable pub wireguard_from : Payload → Result WireGuardOptions
unfolding as_texts as_optional_numbers
wireguard_from payload = do
  private_key ← item "private_key" payload >>= as_text
  peer_public_key ← item "peer_public_key" payload >>= as_text
  local_address ← item "local_address" payload >>= as_texts
  mtu ← as_number (get_or "mtu" (nat 1420) payload)
  reserved ← as_optional_numbers (get_or "reserved" null payload)
  ok (record {
    private_key = private_key;
    peer_public_key = peer_public_key;
    local_address = local_address;
    mtu = mtu;
    reserved = reserved;
  })

unfoldable pub hysteria2_from : Payload → Result Hysteria2Options
hysteria2_from payload = do
  password ← item "password" payload >>= as_text
  server_name ← item "server_name" payload >>= as_text
  ok (record { password = password; server_name = server_name })

-- The options of a protocol.
unfoldable pub options_from : Protocol → Payload → Result NodeOptions
unfolding vless_from shadowsocks_from wireguard_from hysteria2_from
options_from Protocol.vless payload = do o ← vless_from payload; ok (NodeOptions.vless o)
options_from Protocol.shadowsocks payload = do
  o ← shadowsocks_from payload
  ok (NodeOptions.shadowsocks o)
options_from Protocol.wireguard payload = do
  o ← wireguard_from payload
  ok (NodeOptions.wireguard o)
options_from Protocol.hysteria2 payload = do
  o ← hysteria2_from payload
  ok (NodeOptions.hysteria2 o)

module _ (lib : Library) where
  -- `_options_to_json`
  unfoldable pub options_to_json : NodeOptions → Option String
  unfolding options_payload
  options_to_json options = elim (options_payload options) [
    | none ↦ none
    | some payload ↦ some (lib.dumps (object payload))
  ]

  -- What `json.loads` has read.
  unfoldable pub options_from_value : Protocol → Option Json → Result NodeOptions
  unfolding options_from entries
  options_from_value protocol (some (obj fields)) = options_from protocol (entries fields)
  options_from_value protocol (some v) = raised type_error
  options_from_value protocol none = raised (value_error "Expecting value")

  -- `_options_from_json`
  unfoldable pub options_from_json : Protocol → Option String → Result NodeOptions
  unfolding options_from_value is_empty
  options_from_json protocol none = ok NodeOptions.empty
  options_from_json protocol (some raw) =
      if is_empty raw then ok NodeOptions.empty else options_from_value protocol (lib.loads raw)
