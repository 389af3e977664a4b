-- ===== src/Service/Views.antt =====
-- The dicts that backend/app/api/service.py answers with.
use vpp_wl_mobile.Prelude.{
  ℕ, ◌+◌, ◌-◌, ◌*◌, ◌/◌, ◌%◌, String, not, Option, none, some, [], ◌∷◌, ◌++◌, ltb, leb, eqb,
  if◌then◌else◌, or_else, str_len, take_text, drop_text, concat, or_text,
}
use vpp_wl_mobile.Prelude.Dict
use vpp_wl_mobile.Prelude.Int.{pos}
use vpp_wl_mobile.Json.{Json, null, bool, real, int, nat, str, object}
use vpp_wl_mobile.Models.{
  VpnNode, NodeStatus, NodeHealth, NodeOptions, Subscription, AdminAuditEvent, platform_value,
  status_value, health_value, protocol_value, is_active, is_usable, is_disabled,
}
use vpp_wl_mobile.Nodes.{node_score}
use vpp_wl_mobile.Service.{Python}

abbrev pub or_null : {A : Type 0} → (A → Json) → Option A → Json
or_null f none = null
or_null f (some a) = f a

-- `round(node_score(node), 2)` of two-thousandths, a half to the even hundredth.
unfoldable pub rounded_score : ℕ → ℕ
rounded_score s =
    let q = s / 20 in
    let r = s % 20 in
    if ltb r 10 then q else if ltb 10 r then q + 1 else if eqb (q % 2) 0 then q else q + 1

unfoldable pub public_node : VpnNode → Dict.Dict Json
unfolding rounded_score node_score protocol_value status_value health_value
public_node node =
    ("id", str node.id)
    ∷ ("region", str node.region)
    ∷ ("provider", str node.provider)
    ∷ ("country_code", str node.country_code)
    ∷ ("protocol", str (protocol_value node.protocol))
    ∷ ("status", str (status_value node.status))
    ∷ ("health", str (health_value node.health))
    ∷ ("health_score", nat node.health_score)
    ∷ ("latency_ms", or_null nat node.latency_ms)
    ∷ ("success_rate", real (pos node.success_rate))
    ∷ ("priority", int node.priority)
    ∷ ("score", real (pos (rounded_score (node_score node) * 100)))
    ∷ []

-- `getattr(options, name, None)`: only the VLESS options have a label and a source.
abbrev pub label_of : NodeOptions → Option String
label_of (NodeOptions.vless o) = o.label
label_of _ = none

abbrev pub source_of : NodeOptions → Option String
source_of (NodeOptions.vless o) = some o.source
source_of _ = none

abbrev pub source_panel_of : NodeOptions → Option String
source_panel_of (NodeOptions.vless o) = o.source_panel
source_panel_of _ = none

module _ (py : Python) where
  unfoldable pub public_subscription : Subscription → ℕ → Json
  unfolding is_active platform_value
  public_subscription s now = object (
      ("active", bool (is_active s now))
      ∷ ("platform", str (platform_value s.platform))
      ∷ ("product_id", str s.product_id)
      ∷ ("expires_at", str (py.isoformat s.expires_at))
      ∷ [])

  unfoldable pub admin_node : VpnNode → Json
  unfolding public_node is_usable or_text
  admin_node node = object (
      public_node node
      ++ ("tag", str node.tag)
        ∷ ("label", str (or_text (or_else (label_of node.options) "") node.tag))
        ∷ ("host", str node.host)
        ∷ ("port", nat node.port)
        ∷ ("weight", nat node.weight)
        ∷ ("enabled", bool (not (is_disabled node.status)))
        ∷ ("source", or_null str (source_of node.options))
        ∷ ("source_panel", or_null str (source_panel_of node.options))
        ∷ ("last_check_at", or_null (λ t. str (py.isoformat t)) node.last_check_at)
        ∷ ("usable", bool (is_usable node))
        ∷ [])

  unfoldable pub admin_audit_event : AdminAuditEvent → Json
  admin_audit_event event = object (
      ("id", str event.id)
      ∷ ("occurred_at", str (py.isoformat event.occurred_at))
      ∷ ("action", str event.action)
      ∷ ("target_type", str event.target_type)
      ∷ ("target_id", str event.target_id)
      ∷ ("result", str event.result)
      ∷ ("details", object event.details)
      ∷ [])

-- `if value is not None: details[key] = ...`
abbrev pub detail_if : {A : Type 0} → String → (A → Json) → Option A → Dict.Dict Json
detail_if key f none = []
detail_if key f (some a) = (key, f a) ∷ []

unfoldable pub admin_health_update_details :
    ℕ → Option NodeStatus → Option ℕ → Option ℕ → Option NodeHealth → Dict.Dict Json
unfolding status_value health_value
admin_health_update_details health_score status latency_ms success_rate health =
    ("health_score", nat health_score)
    ∷ (detail_if "status" (λ s. str (status_value s)) status
        ++ (detail_if "latency_ms" nat latency_ms
            ++ (detail_if "success_rate" (λ r. real (pos r)) success_rate
                ++ detail_if "health" (λ h. str (health_value h)) health)))

-- `_mask_token`: the first and the last four characters.
unfoldable pub mask_token : String → String
unfolding str_len take_text drop_text concat
mask_token token =
    if leb (str_len token) 8
    then "***"
    else concat (take_text 4 token ∷ "..." ∷ drop_text (str_len token - 4) token ∷ [])
