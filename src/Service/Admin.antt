-- ===== src/Service/Admin.antt =====
-- The methods of `ApiService` for administrators; Import has the one for a vless:// URL.
pub mod NodePayload
pub mod ImportPayload
pub mod Import
pub mod Unchanged
pub mod Audited
use vpp_wl_mobile.Prelude.{ℕ, String, not, none, some, [], ◌∷◌, ◌++◌, map, if◌then◌else◌, strip}
use vpp_wl_mobile.Prelude.Dict
use vpp_wl_mobile.Prelude.Int.{ℤ, pos, leb_ℤ, pos_part}
use vpp_wl_mobile.Json.{Json, null, bool, int, nat, str, object, array}
use vpp_wl_mobile.Errors.{
  Result, ok, raised, api, bad_request, not_found, Exec, pure, lift, or_raise, raise_if, ◌>>=◌,
  ◌>>◌,
}
use vpp_wl_mobile.Models.{
  VpnNode, VlessOptions, NodeOptions, NodeStatus, NodeHealth, AdminAuditEvent,
  CommercialSubscription, protocol_value,
}
use vpp_wl_mobile.Repository.Commercial.{activate_commercial_subscription}
use vpp_wl_mobile.Repository.Nodes.{
  get_node, list_nodes, upsert_node, update_node_health, HealthFields,
}
use vpp_wl_mobile.Repository.Events.{add_admin_audit_event, list_admin_audit_events}
use vpp_wl_mobile.Service.{
  World, Python, Settings, Action, now, new_id, on_repo, update_repo, modify_repo, read_repo,
}
use vpp_wl_mobile.Service.Payload.{
  Payload, value_or, truth, require_admin, text, integer, or_bad, health_score_from_payload,
  node_status_from_payload, latency_from_payload, success_rate_from_payload, health_from_payload,
}
use vpp_wl_mobile.Service.Views.{
  or_null, admin_node, admin_audit_event, admin_health_update_details, mask_token,
}
use vpp_wl_mobile.Service.Admin.NodePayload.{node_from_payload}

-- `AdminAuditEvent(...)` with the result "success".
abbrev pub success_event : String → String → String → Dict.Dict Json → String → ℕ → AdminAuditEvent
success_event action target_type target_id details id occurred_at = record {
  id = id;
  occurred_at = occurred_at;
  action = action;
  target_type = target_type;
  target_id = target_id;
  result = "success";
  details = details;
}

-- `add_admin_audit_event(AdminAuditEvent(...))`
unfoldable pub audit : String → String → String → Dict.Dict Json → Action Unit
unfolding new_id now add_admin_audit_event
audit action target_type target_id details = do
  id ← new_id "aae"
  occurred_at ← now
  modify_repo
      (add_admin_audit_event (success_event action target_type target_id details id occurred_at))

module _ (py : Python) (cfg : Settings) where
  unfoldable pub admin_activate_commercial_subscription :
      String → String → Payload → Action (Dict.Dict Json)
  admin_activate_commercial_subscription admin_token token payload = do
    lift (require_admin cfg admin_token)
    duration_days ← lift (
        or_bad py (integer py (value_or "duration_days" (nat 30) payload))
          "duration_days must be an integer")
    raise_if (leb_ℤ duration_days (pos 0)) (api bad_request "duration_days must be positive")
    at ← now
    found ← on_repo (activate_commercial_subscription token (pos_part duration_days) none at)
    subscription ← or_raise found (api not_found "subscription not found")
    audit "commercial_subscription.activate" "commercial_subscription" (mask_token token)
        (("duration_days", int duration_days) ∷ [])
    pure (
        ("status", str "activated")
        ∷ ("expires_at", or_null (λ t. str (py.isoformat t)) subscription.expires_at)
        ∷ [])

  unfoldable pub admin_update_node_health : String → String → Payload → Action (Dict.Dict Json)
  admin_update_node_health admin_token node_id payload = do
    lift (require_admin cfg admin_token)
    health_score ← lift (health_score_from_payload py payload)
    status ← lift (node_status_from_payload py payload)
    latency_ms ← lift (latency_from_payload py payload)
    success_rate ← lift (success_rate_from_payload py payload)
    health ← lift (health_from_payload py payload)
    at ← now
    found ← update_repo (
        update_node_health node_id (record {
          health_score = health_score;
          status = status;
          latency_ms = latency_ms;
          success_rate = success_rate;
          health = health;
          last_check_at = some at;
        }))
    node ← or_raise found (api not_found "node not found")
    audit "node.health.update" "node" node_id
        (admin_health_update_details health_score status latency_ms success_rate health)
    pure (("node", admin_node py node) ∷ [])

  unfoldable pub admin_upsert_node : String → Payload → Action (Dict.Dict Json)
  admin_upsert_node admin_token payload = do
    lift (require_admin cfg admin_token)
    node ← lift (node_from_payload py payload)
    modify_repo (upsert_node node)
    audit "node.upsert" "node" node.id (
        ("host", str node.host)
        ∷ ("port", nat node.port)
        ∷ ("protocol", str (protocol_value node.protocol))
        ∷ [])
    pure (("node", admin_node py node) ∷ [])

  unfoldable pub admin_disable_node : String → String → Action (Dict.Dict Json)
  admin_disable_node admin_token node_id = do
    lift (require_admin cfg admin_token)
    found ← read_repo (get_node node_id)
    node ← or_raise found (api not_found "node not found")
    let disabled = record node { status = NodeStatus.disabled; health = NodeHealth.disabled }
    modify_repo (upsert_node disabled)
    audit "node.disable" "node" node_id []
    pure (("node", admin_node py disabled) ∷ [])

  -- The three changes of a patch, each to the node and to the list of changes.
  abbrev pub Patch : Type 0
  Patch = VpnNode × Dict.Dict Json

  unfoldable pub patch_enabled : Payload → Patch → Patch
  patch_enabled payload (node, changes) = elim (Dict.get "enabled" payload) [
    | none ↦ (node, changes)
    | some v ↦ (
      record node {
        status = (if truth v then NodeStatus.active else NodeStatus.disabled);
        health = (if truth v then NodeHealth.healthy else NodeHealth.disabled);
      },
      changes ++ ("enabled", bool (truth v)) ∷ [],
    )
  ]

  unfoldable pub patch_priority : Payload → Patch → Result Patch
  patch_priority payload (node, changes) = elim (Dict.get "priority" payload) [
    | none ↦ ok (node, changes)
    | some v ↦ elim (integer py v) [
      | raised e ↦ raised e
      | ok n ↦ ok (record node { priority = n }, changes ++ ("priority", int n) ∷ [])
    ]
  ]

  abbrev pub labelled : String → NodeOptions → Patch → Patch
  labelled label (NodeOptions.vless o) (node, changes) = (
    record node { tag = label; options = NodeOptions.vless (record o { label = some label }) },
    changes ++ ("label", str label) ∷ [],
  )
  labelled label _ p = p

  unfoldable pub patch_label : Payload → Patch → Patch
  patch_label payload (node, changes) = elim (Dict.get "label" payload) [
    | none ↦ (node, changes)
    | some v ↦ labelled (strip (text py v)) node.options (node, changes)
  ]

  unfoldable pub admin_patch_node : String → String → Payload → Action (Dict.Dict Json)
  admin_patch_node admin_token node_id payload = do
    lift (require_admin cfg admin_token)
    found ← read_repo (get_node node_id)
    node ← or_raise found (api not_found "node not found")
    prioritised ← lift (patch_priority payload (patch_enabled payload (node, [])))
    let patched = patch_label payload prioritised
    modify_repo (upsert_node patched.0)
    audit "node.patch" "node" node_id patched.1
    pure (("node", admin_node py patched.0) ∷ [])

  unfoldable pub admin_nodes : String → Action (Dict.Dict Json)
  admin_nodes admin_token = do
    lift (require_admin cfg admin_token)
    nodes ← read_repo list_nodes
    pure (("nodes", array (map (admin_node py) nodes)) ∷ [])

  unfoldable pub admin_audit_events : String → Action (Dict.Dict Json)
  admin_audit_events admin_token = do
    lift (require_admin cfg admin_token)
    events ← read_repo (list_admin_audit_events 50)
    pure (("events", array (map (admin_audit_event py) events)) ∷ [])
