-- ===== src/Health.antt =====
-- backend/app/domain/health_checker.py. Rates are in ten-thousandths and computed exactly, where the
-- program rounds to binary floats; `smoothing` is in hundredths.
pub mod Bounds
pub mod Worker
use vpp_wl_mobile.Prelude.{
  ℕ, zero, ◌+◌, ◌-◌, ◌*◌, ◌/◌, ◌%◌, min, String, Bool, not, ◌||◌, Option, ltb, eqb, if◌then◌else◌,
  or_else,
}
use vpp_wl_mobile.Models.{VpnNode, NodeStatus, NodeHealth}

pub record ProbeResult : Type 0 where
  pub is_ok : Bool
  pub latency_ms : Option ℕ
  pub checked_at : ℕ
  pub error : Option String

pub record HealthUpdate : Type 0 where
  pub node_id : String
  pub health_score : ℕ
  pub status : NodeStatus
  pub latency_ms : Option ℕ
  pub success_rate : ℕ
  pub health : NodeHealth
  pub last_check_at : ℕ
  pub error : Option String

-- The smoothed success rate, in millionths.
unfoldable pub smoothed : ℕ → ℕ → Bool → ℕ
smoothed smoothing rate ok = rate * (100 - smoothing) + (if ok then 10_000 * smoothing else 0)

-- `round(success_rate, 4)`: to the nearest ten-thousandth, a half to the even one.
unfoldable pub round_rate : ℕ → ℕ
round_rate s =
    let q = s / 100 in
    let r = s % 100 in
    if ltb r 50 then q else if ltb 50 r then q + 1 else if eqb (q % 2) 0 then q else q + 1

-- `latency_ms or 1000`, cut at 1000.
abbrev pub capped_latency : Option ℕ → ℕ
capped_latency latency = let ms = or_else latency 0 in min (if eqb ms 0 then 1000 else ms) 1000

-- `_health_score`, over the common denominator 120000: `int` cuts towards zero, and what is below
-- zero is raised to it.
unfoldable pub health_score : ℕ → Option ℕ → Bool → ℕ
health_score s latency ok =
    min 100 ((12 * s - ((if ok then 0 else 2_400_000) + capped_latency latency * 10_000)) / 120_000)

-- `_health`; 0.35 and 0.75 in millionths.
unfoldable pub health_of : ℕ → ℕ → Bool → NodeHealth
health_of s score ok =
    if ltb s 350_000 || ltb score 20
    then NodeHealth.disabled
    else if not ok || ltb s 750_000 || ltb score 55
    then NodeHealth.degraded
    else NodeHealth.healthy

abbrev pub status_for : NodeHealth → NodeStatus → NodeStatus
status_for NodeHealth.disabled status = NodeStatus.disabled
status_for NodeHealth.healthy status = status
status_for NodeHealth.degraded status = status

-- `NodeHealthEvaluator(smoothing).evaluate`
unfoldable pub evaluate : ℕ → VpnNode → ProbeResult → HealthUpdate
unfolding smoothed round_rate health_score health_of
evaluate smoothing node probe =
    let s = smoothed smoothing node.success_rate probe.is_ok in
    let latency = if probe.is_ok then probe.latency_ms else node.latency_ms in
    let score = health_score s latency probe.is_ok in
    let health = health_of s score probe.is_ok in
    record {
      node_id = node.id;
      health_score = score;
      status = status_for health node.status;
      latency_ms = latency;
      success_rate = round_rate s;
      health = health;
      last_check_at = probe.checked_at;
      error = probe.error;
    }
