-- ===== src/Models.antt =====
-- backend/app/domain/models.py. A `datetime` is the number of microseconds since `datetime.min`; a success rate is a number
-- of ten-thousandths, the precision that the health checker rounds it to.
use vpp_wl_mobile.Prelude.{
  ℕ, String, Bool, true, false, not, ◌&&◌, Option, none, some, List, ◌==◌, ltb, leb, if◌then◌else◌,
}
use vpp_wl_mobile.Prelude.Int.{ℤ}
use vpp_wl_mobile.Prelude.Dict.{Dict}
use vpp_wl_mobile.Json.{Json}

pub data Platform : Type 0 where
  apple google yookassa sandbox : Platform

pub data NodeStatus : Type 0 where
  active draining disabled : NodeStatus

pub data NodeHealth : Type 0 where
  healthy degraded disabled : NodeHealth

pub data Protocol : Type 0 where
  vless shadowsocks wireguard hysteria2 : Protocol

-- The values of the string enums.
unfoldable pub platform_value : Platform → String
platform_value Platform.apple = "apple"
platform_value Platform.google = "google"
platform_value Platform.yookassa = "yookassa"
platform_value Platform.sandbox = "sandbox"

unfoldable pub status_value : NodeStatus → String
status_value NodeStatus.active = "active"
status_value NodeStatus.draining = "draining"
status_value NodeStatus.disabled = "disabled"

unfoldable pub health_value : NodeHealth → String
health_value NodeHealth.healthy = "healthy"
health_value NodeHealth.degraded = "degraded"
health_value NodeHealth.disabled = "disabled"

unfoldable pub protocol_value : Protocol → String
protocol_value Protocol.vless = "vless"
protocol_value Protocol.shadowsocks = "shadowsocks"
protocol_value Protocol.wireguard = "wireguard"
protocol_value Protocol.hysteria2 = "hysteria2"

-- The calls `Platform(text)`, ...; `none` is the `ValueError`.
unfoldable pub parse_platform : String → Option Platform
parse_platform s =
    if s == "apple"
    then some Platform.apple
    else if s == "google"
    then some Platform.google
    else if s == "yookassa"
    then some Platform.yookassa
    else if s == "sandbox"
    then some Platform.sandbox
    else none

unfoldable pub parse_status : String → Option NodeStatus
parse_status s =
    if s == "active"
    then some NodeStatus.active
    else if s == "draining"
    then some NodeStatus.draining
    else if s == "disabled"
    then some NodeStatus.disabled
    else none

unfoldable pub parse_health : String → Option NodeHealth
parse_health s =
    if s == "healthy"
    then some NodeHealth.healthy
    else if s == "degraded"
    then some NodeHealth.degraded
    else if s == "disabled"
    then some NodeHealth.disabled
    else none

unfoldable pub parse_protocol : String → Option Protocol
parse_protocol s =
    if s == "vless"
    then some Protocol.vless
    else if s == "shadowsocks"
    then some Protocol.shadowsocks
    else if s == "wireguard"
    then some Protocol.wireguard
    else if s == "hysteria2"
    then some Protocol.hysteria2
    else none

pub record User : Type 0 where
  pub id : String
  pub device_id : String
  pub created_at : ℕ

pub record Subscription : Type 0 where
  pub user_id : String
  pub platform : Platform
  pub expires_at : ℕ
  pub product_id : String
  pub original_transaction_id : String

-- `Subscription.is_active`
unfoldable pub is_active : Subscription → ℕ → Bool
is_active s now = ltb now s.expires_at

pub record CommercialSubscription : Type 0 where
  pub token : String
  pub tariff_id : String
  pub status : String
  pub created_at : ℕ
  pub updated_at : ℕ
  pub expires_at : Option ℕ
  pub payment_id : Option String

-- `expires_at is not None and expires_at > current`
unfoldable pub expires_after : Option ℕ → ℕ → Bool
expires_after none now = false
expires_after (some t) now = ltb now t

-- `CommercialSubscription.is_active`
unfoldable pub is_paid : CommercialSubscription → ℕ → Bool
unfolding expires_after
is_paid s now = s.status == "active" && expires_after s.expires_at now

pub record VlessOptions : Type 0 where
  pub uuid : String
  pub server_name : String
  pub flow : Option String
  pub transport : Option (Dict Json)
  pub reality : Option (Dict Json)
  pub security : String
  pub public_key : Option String
  pub short_id : Option String
  pub fingerprint : String
  pub label : Option String
  pub raw_url : Option String
  pub source : String
  pub source_panel : Option String

-- The fields that have no default, with the defaults of the others.
unfoldable pub vless_defaults : String → String → VlessOptions
vless_defaults uuid server_name = record {
  uuid = uuid;
  server_name = server_name;
  flow = none;
  transport = none;
  reality = none;
  security = "reality";
  public_key = none;
  short_id = none;
  fingerprint = "chrome";
  label = none;
  raw_url = none;
  source = "manual";
  source_panel = none;
}

pub record ShadowsocksOptions : Type 0 where
  pub method : String
  pub password : String

pub record WireGuardOptions : Type 0 where
  pub private_key : String
  pub peer_public_key : String
  pub local_address : List String
  pub mtu : ℕ
  pub reserved : Option (List ℕ)

pub record Hysteria2Options : Type 0 where
  pub password : String
  pub server_name : String

-- The classes that the field `options` may hold an instance of; `empty` is `None`.
pub data NodeOptions : Type 0 where
  empty : NodeOptions
  vless : VlessOptions → NodeOptions
  shadowsocks : ShadowsocksOptions → NodeOptions
  wireguard : WireGuardOptions → NodeOptions
  hysteria2 : Hysteria2Options → NodeOptions

pub record VpnNode : Type 0 where
  pub id : String
  pub tag : String
  pub region : String
  pub provider : String
  pub country_code : String
  pub host : String
  pub port : ℕ
  pub protocol : Protocol
  pub status : NodeStatus
  pub priority : ℤ
  pub weight : ℕ
  pub health_score : ℕ
  pub latency_ms : Option ℕ
  pub success_rate : ℕ
  pub last_check_at : Option ℕ
  pub health : NodeHealth
  pub options : NodeOptions

abbrev pub is_healthy : NodeHealth → Bool
is_healthy NodeHealth.healthy = true
is_healthy NodeHealth.degraded = false
is_healthy NodeHealth.disabled = false

abbrev pub is_disabled : NodeStatus → Bool
is_disabled NodeStatus.active = false
is_disabled NodeStatus.draining = false
is_disabled NodeStatus.disabled = true

-- `VpnNode.is_usable`; the rate 0.75 is 7500 ten-thousandths.
unfoldable pub is_usable : VpnNode → Bool
is_usable n =
    not (is_disabled n.status)
    && is_healthy n.health
    && leb 40 n.health_score
    && leb 7500 n.success_rate

pub record ReceiptClaim : Type 0 where
  pub platform : Platform
  pub receipt : String
  pub device_id : String
  pub product_id : String

pub record NodeHealthEvent : Type 0 where
  pub id : String
  pub node_id : String
  pub checked_at : ℕ
  pub old_health : Option NodeHealth
  pub new_health : NodeHealth
  pub old_status : Option NodeStatus
  pub new_status : NodeStatus
  pub old_success_rate : Option ℕ
  pub new_success_rate : ℕ
  pub old_latency_ms : Option ℕ
  pub new_latency_ms : Option ℕ
  pub health_score : ℕ
  pub error : Option String

pub record AdminAuditEvent : Type 0 where
  pub id : String
  pub occurred_at : ℕ
  pub action : String
  pub target_type : String
  pub target_id : String
  pub result : String
  pub details : Dict Json
