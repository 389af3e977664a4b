-- ===== src/Sqlite/Rows.antt =====
-- How backend/app/repositories/sqlite.py writes an object as a row, and reads it back.
use vpp_wl_mobile.Prelude.{ℕ, String, Option, none, some, [], if◌then◌else◌, is_empty, or_text}
use vpp_wl_mobile.Prelude.Dict
use vpp_wl_mobile.Json.{Json, obj, object, entries}
use vpp_wl_mobile.Errors.{Result, ok, value_error}
use vpp_wl_mobile.Errors.Chain.{◌>>=◌, or_fail}
use vpp_wl_mobile.Models.{
  User, Subscription, CommercialSubscription, VpnNode, NodeHealthEvent, AdminAuditEvent,
  platform_value, status_value, health_value, protocol_value, parse_platform, parse_status,
  parse_health, parse_protocol,
}
use vpp_wl_mobile.Sqlite.{
  Library, UserRow, SubscriptionRow, CommercialRow, NodeRow, EventRow, AuditRow,
}
use vpp_wl_mobile.Sqlite.Tables.{optional}
use vpp_wl_mobile.Sqlite.Options.{options_to_json, options_from_json}

-- `Platform(text)`, ...
abbrev pub member : {A : Type 0} → Option A → Result A
member found = or_fail found (value_error "not a valid member")

-- `Enum(text) if text else None`
unfoldable pub optional_member :
    {A : Type 0} → (String → Option A) → Option String → Result (Option A)
unfolding is_empty
optional_member parse none = ok none
optional_member parse (some s) =
    let found = (do a ← member (parse s); ok (some a)) in if is_empty s then ok none else found

module _ (lib : Library) where
  -- `_dt_from_text`
  unfoldable pub dt_from_text : String → Result ℕ
  dt_from_text s = or_fail (lib.from_text s) (value_error "Invalid isoformat string")

  -- `_dt_from_text(text) if text else None`
  unfoldable pub optional_dt : Option String → Result (Option ℕ)
  unfolding dt_from_text is_empty
  optional_dt none = ok none
  optional_dt (some s) =
      let read = (do t ← dt_from_text s; ok (some t)) in if is_empty s then ok none else read

  unfoldable pub user_row : User → UserRow
  user_row user = record {
    id = user.id;
    device_id = user.device_id;
    created_at = lib.to_text user.created_at;
  }

  -- `_user_from_row`
  unfoldable pub user_from_row : UserRow → Result User
  unfolding dt_from_text
  user_from_row row = do
    created_at ← dt_from_text row.created_at
    ok (record { id = row.id; device_id = row.device_id; created_at = created_at })

  unfoldable pub subscription_row : Subscription → SubscriptionRow
  unfolding platform_value
  subscription_row s = record {
    user_id = s.user_id;
    platform = platform_value s.platform;
    expires_at = lib.to_text s.expires_at;
    product_id = s.product_id;
    original_transaction_id = s.original_transaction_id;
  }

  -- `_subscription_from_row`
  unfoldable pub subscription_from_row : SubscriptionRow → Result Subscription
  unfolding dt_from_text parse_platform
  subscription_from_row row = do
    platform ← member (parse_platform row.platform)
    expires_at ← dt_from_text row.expires_at
    ok (record {
      user_id = row.user_id;
      platform = platform;
      expires_at = expires_at;
      product_id = row.product_id;
      original_transaction_id = row.original_transaction_id;
    })

  -- `_commercial_subscription_from_row`
  unfoldable pub commercial_from_row : CommercialRow → Result CommercialSubscription
  unfolding dt_from_text optional_dt
  commercial_from_row row = do
    created_at ← dt_from_text row.created_at
    updated_at ← dt_from_text row.updated_at
    expires_at ← optional_dt row.expires_at
    ok (record {
      token = row.token;
      tariff_id = row.tariff_id;
      status = row.status;
      created_at = created_at;
      updated_at = updated_at;
      expires_at = expires_at;
      payment_id = row.payment_id;
    })

  -- The values of `upsert_node`.
  unfoldable pub node_row : VpnNode → NodeRow
  unfolding protocol_value status_value health_value options_to_json
  node_row node = record {
    id = node.id;
    tag = node.tag;
    region = node.region;
    provider = node.provider;
    country_code = node.country_code;
    host = node.host;
    port = node.port;
    protocol = protocol_value node.protocol;
    status = status_value node.status;
    priority = node.priority;
    weight = node.weight;
    health_score = node.health_score;
    latency_ms = node.latency_ms;
    success_rate = node.success_rate;
    last_check_at = optional lib.to_text node.last_check_at;
    health = health_value node.health;
    options_json = options_to_json lib node.options;
  }

  -- `_node_from_row`
  unfoldable pub node_from_row : NodeRow → Result VpnNode
  unfolding parse_protocol parse_status parse_health optional_dt options_from_json
  node_from_row row = do
    protocol ← member (parse_protocol row.protocol)
    status ← member (parse_status row.status)
    last_check_at ← optional_dt row.last_check_at
    health ← member (parse_health row.health)
    options ← options_from_json lib protocol row.options_json
    ok (record {
      id = row.id;
      tag = row.tag;
      region = row.region;
      provider = row.provider;
      country_code = row.country_code;
      host = row.host;
      port = row.port;
      protocol = protocol;
      status = status;
      priority = row.priority;
      weight = row.weight;
      health_score = row.health_score;
      latency_ms = row.latency_ms;
      success_rate = row.success_rate;
      last_check_at = last_check_at;
      health = health;
      options = options;
    })

  -- `_node_from_row(row) if row else None`
  unfoldable pub node_if_found : Option NodeRow → Result (Option VpnNode)
  unfolding node_from_row
  node_if_found none = ok none
  node_if_found (some row) = do node ← node_from_row row; ok (some node)

  unfoldable pub event_row : NodeHealthEvent → EventRow
  unfolding health_value status_value
  event_row event = record {
    id = event.id;
    node_id = event.node_id;
    checked_at = lib.to_text event.checked_at;
    old_health = optional health_value event.old_health;
    new_health = health_value event.new_health;
    old_status = optional status_value event.old_status;
    new_status = status_value event.new_status;
    old_success_rate = event.old_success_rate;
    new_success_rate = event.new_success_rate;
    old_latency_ms = event.old_latency_ms;
    new_latency_ms = event.new_latency_ms;
    health_score = event.health_score;
    error = event.error;
  }

  -- `_health_event_from_row`
  unfoldable pub event_from_row : EventRow → Result NodeHealthEvent
  unfolding dt_from_text optional_member parse_health parse_status
  event_from_row row = do
    checked_at ← dt_from_text row.checked_at
    old_health ← optional_member parse_health row.old_health
    new_health ← member (parse_health row.new_health)
    old_status ← optional_member parse_status row.old_status
    new_status ← member (parse_status row.new_status)
    ok (record {
      id = row.id;
      node_id = row.node_id;
      checked_at = checked_at;
      old_health = old_health;
      new_health = new_health;
      old_status = old_status;
      new_status = new_status;
      old_success_rate = row.old_success_rate;
      new_success_rate = row.new_success_rate;
      old_latency_ms = row.old_latency_ms;
      new_latency_ms = row.new_latency_ms;
      health_score = row.health_score;
      error = row.error;
    })

  unfoldable pub audit_row : AdminAuditEvent → AuditRow
  audit_row event = record {
    id = event.id;
    occurred_at = lib.to_text event.occurred_at;
    action = event.action;
    target_type = event.target_type;
    target_id = event.target_id;
    result = event.result;
    details_json = lib.dumps_sorted (object event.details);
  }

  abbrev pub dict_or_empty : Json → Dict.Dict Json
  dict_or_empty (obj fields) = entries fields
  dict_or_empty v = []

  -- `_admin_audit_event_from_row`
  unfoldable pub audit_from_row : AuditRow → Result AdminAuditEvent
  unfolding dt_from_text or_text entries
  audit_from_row row = do
    details ← or_fail (lib.loads (or_text row.details_json "{}")) (value_error "Expecting value")
    occurred_at ← dt_from_text row.occurred_at
    ok (record {
      id = row.id;
      occurred_at = occurred_at;
      action = row.action;
      target_type = row.target_type;
      target_id = row.target_id;
      result = row.result;
      details = dict_or_empty details;
    })
