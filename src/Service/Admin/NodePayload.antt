-- ===== src/Service/Admin/NodePayload.antt =====
-- `_node_from_payload` of backend/app/api/service.py.
use vpp_wl_mobile.Prelude.{
  String, not, ◌&&◌, Option, none, some, [], ◌∷◌, if◌then◌else◌, or_else, concat, is_empty, or_text,
}
use vpp_wl_mobile.Prelude.Int.{pos, leb_ℤ, pos_part}
use vpp_wl_mobile.Json.{Json, null, nat, obj, entries}
use vpp_wl_mobile.Errors.{Result, ok, raised, api, bad_request, type_error}
use vpp_wl_mobile.Errors.Chain.{◌>>=◌, ◌>>◌, fail_if, or_fail}
use vpp_wl_mobile.Models.{
  VpnNode, NodeOptions, NodeStatus, NodeHealth, Protocol, parse_status, parse_health,
  parse_protocol,
}
use vpp_wl_mobile.Service.{Python}
use vpp_wl_mobile.Service.Payload.{Payload, value_or, truth, text, stripped, integer, or_bad}

-- `s or None`
abbrev pub or_none : String → Option String
or_none s = if is_empty s then none else some s

-- `payload.get("options") or {}`; `.get` of what is neither false nor a dict is an `AttributeError`,
-- here under the name of the nearest error that is modelled.
abbrev pub options_dict : Json → Result Payload
options_dict (obj fs) = ok (entries fs)
options_dict v = if truth v then raised type_error else ok []

module _ (py : Python) where
  unfoldable pub vless_options : String → Payload → Result NodeOptions
  unfolding stripped is_empty or_text concat
  vless_options node_id opts = do
    let uuid = stripped py "uuid" "" opts
    let sni = stripped py "server_name" "" opts
    let public_key = stripped py "public_key" "" opts
    let short_id = stripped py "short_id" "" opts
    fail_if (is_empty uuid) (api bad_request "options.uuid is required for VLESS")
    fail_if (is_empty public_key) (api bad_request "options.public_key is required for VLESS")
    fail_if (is_empty short_id) (api bad_request "options.short_id is required for VLESS")
    fail_if (is_empty sni) (api bad_request "options.server_name (SNI) is required for VLESS")
    ok (
        NodeOptions.vless (record {
          uuid = uuid;
          server_name = sni;
          flow = or_none (stripped py "flow" "xtls-rprx-vision" opts);
          transport = none;
          reality = none;
          security = "reality";
          public_key = some public_key;
          short_id = some short_id;
          fingerprint = or_text (stripped py "fingerprint" "chrome" opts) "chrome";
          label = or_none (stripped py "label" (concat ("Node " ∷ node_id ∷ [])) opts);
          raw_url = none;
          source = "manual";
          source_panel = none;
        }))

  -- The options are read for VLESS alone; a node of another protocol has none.
  abbrev pub options_for : Protocol → String → Payload → Result NodeOptions
  options_for Protocol.vless node_id payload = do
    opts ← options_dict (value_or "options" null payload)
    vless_options node_id opts
  options_for _ node_id payload = ok NodeOptions.empty

  unfoldable pub node_from_payload : Payload → Result VpnNode
  unfolding stripped is_empty integer text parse_protocol parse_status parse_health vless_options
      truth concat
  node_from_payload payload = do
    let node_id = stripped py "id" "" payload
    fail_if (is_empty node_id) (api bad_request "id is required")
    let host = stripped py "host" "" payload
    fail_if (is_empty host) (api bad_request "host is required")
    port ← or_bad py (integer py (value_or "port" (nat 443) payload)) "port must be an integer"
    fail_if (not (leb_ℤ (pos 1) port && leb_ℤ port (pos 65_535)))
        (api bad_request "port must be between 1 and 65535")
    let protocol_raw = py.lower (stripped py "protocol" "vless" payload)
    protocol ←
        or_fail (parse_protocol protocol_raw)
          (api bad_request (concat ("unknown protocol: " ∷ protocol_raw ∷ [])))
    let status = parse_status (py.lower (stripped py "status" "active" payload))
    let health = parse_health (py.lower (stripped py "health" "healthy" payload))
    priority ← integer py (value_or "priority" (nat 50) payload)
    options ← options_for protocol node_id payload
    ok (record {
      id = node_id;
      tag = stripped py "tag" node_id payload;
      region = stripped py "region" "unknown" payload;
      provider = stripped py "provider" "manual" payload;
      country_code = stripped py "country_code" "XX" payload;
      host = host;
      port = pos_part port;
      protocol = protocol;
      status = or_else status NodeStatus.active;
      priority = priority;
      weight = 100;
      health_score = 100;
      latency_ms = none;
      success_rate = 10_000;
      last_check_at = none;
      health = or_else health NodeHealth.healthy;
      options = options;
    })
