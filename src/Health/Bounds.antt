-- ===== src/Health/Bounds.antt =====
-- What one evaluation can make of a node: bounds, and how fast failing and recovering go.
use vpp_wl_mobile.Prelude.{
  refl, ◌≢◌, if◌then◌else◌, ◌≡◌, ℕ, ◌+◌, ◌*◌, ◌≤◌, Bool, true, false, arith,
}
use vpp_wl_mobile.Health.{
  health_score, HealthUpdate, status_for, ProbeResult, evaluate, health_of, smoothed, round_rate,
}
use vpp_wl_mobile.Models.{NodeStatus, VpnNode, NodeHealth}

smoothed-le : (k r : ℕ) (ok : Bool) → k ≤ 100 → r ≤ 10_000 → smoothed k r ok ≤ 1_000_000
unfolding smoothed
smoothed-le k r true h g = grind arith
smoothed-le k r false h g = grind arith

round_rate-le : (s : ℕ) → s ≤ 1_000_000 → round_rate s ≤ 10_000
unfolding round_rate
round_rate-le s h = ground arith

-- A rounded rate is within half a ten-thousandth of the rate.
pub round_rate-near : (s : ℕ) → (s ≤ round_rate s * 100 + 50) × (round_rate s * 100 ≤ s + 50)
unfolding round_rate
round_rate-near s = ground arith

-- What an evaluation guarantees of the node `node`.
pub record Evaluates (node : VpnNode) (probe : ProbeResult) (u : HealthUpdate) : Type 0 where
  pub score_bound : u.health_score ≤ 100
  pub rate_bound : u.success_rate ≤ 10_000
  pub failed : probe.is_ok ≡ false → u.health ≢ NodeHealth.healthy
  pub disabling : u.health ≡ NodeHealth.disabled → u.status ≡ NodeStatus.disabled
  pub keeping : u.health ≢ NodeHealth.disabled → u.status ≡ node.status
  pub healthy :
      u.health ≡ NodeHealth.healthy
      → (probe.is_ok ≡ true) × (55 ≤ u.health_score) × (7500 ≤ u.success_rate)

round_rate_mono : (s b : ℕ) → b * 100 ≤ s → b ≤ round_rate s
unfolding round_rate
round_rate_mono s b h = ground arith

health_of-healthy :
    (s score : ℕ) (ok : Bool)
    → health_of s score ok ≡ NodeHealth.healthy
    → (ok ≡ true) × (55 ≤ score) × (750_000 ≤ s)
unfolding health_of
health_of-healthy s score ok h = ground arith

status_for-disabled :
    (h : NodeHealth) (st : NodeStatus)
    → h ≡ NodeHealth.disabled
    → status_for h st ≡ NodeStatus.disabled
status_for-disabled h st e = rw e

status_for-kept :
    (h : NodeHealth) (st : NodeStatus) → h ≢ NodeHealth.disabled → status_for h st ≡ st
status_for-kept NodeHealth.healthy st e = refl
status_for-kept NodeHealth.degraded st e = refl
status_for-kept NodeHealth.disabled st e = absurd (e refl)

-- For a smoothing of at most 1 and a node whose rate is at most 1: an evaluation gives a score of
-- at most 100 and a rate of at most 1; a failed probe never finds the node healthy; a node found
-- disabled is taken out of service and any other keeps its status; and a node is found healthy only
-- by a good probe, with a score of 55 or more and a rate of 0.75 or more.
pub evaluate-Evaluates :
    (smoothing : ℕ) (node : VpnNode) (probe : ProbeResult)
    → smoothing ≤ 100
    → node.success_rate ≤ 10_000
    → Evaluates node probe (evaluate smoothing node probe)
unfolding evaluate
evaluate-Evaluates smoothing node probe k r =
    let s = smoothed smoothing node.success_rate probe.is_ok in
    let latency = if probe.is_ok then probe.latency_ms else node.latency_ms in
    let score = health_score s latency probe.is_ok in
    record {
      score_bound = unfold health_score in omega arith;
      rate_bound = round_rate-le s (smoothed-le smoothing node.success_rate probe.is_ok k r);
      failed = λ down h. cc (down, (health_of-healthy s score probe.is_ok h).0);
      disabling = status_for-disabled (health_of s score probe.is_ok) node.status;
      keeping = status_for-kept (health_of s score probe.is_ok) node.status;
      healthy = λ h.
          let (up, fit, rate) = health_of-healthy s score probe.is_ok h in
          (up, fit, round_rate_mono s 7500 (omega arith));
    }
