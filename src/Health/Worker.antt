-- ===== src/Health/Worker.antt =====
-- `HealthCheckWorker.run_once` of backend/app/services/health_worker.py. What the network answers and
-- the identifiers of the events are functions of the node, which the loop meets once.
pub mod Loop
pub mod Runs
use vpp_wl_mobile.Prelude.{
  ℕ, zero, suc, ◌+◌, ◌-◌, ◌*◌, max, String, Bool, not, ◌&&◌, Option, none, some, List, [], ◌∷◌,
  ◌++◌, leb, if◌then◌else◌, or_else,
}
use vpp_wl_mobile.Prelude.Int.{ℤ, pos, negsuc}
use vpp_wl_mobile.Models.{VpnNode, NodeHealthEvent, is_disabled}
use vpp_wl_mobile.Errors.{Result, ok, raised, overflow_error, Exec}
use vpp_wl_mobile.Repository.{Repo, day, max_timedelta_days}
use vpp_wl_mobile.Repository.Nodes.{HealthFields, list_nodes, update_node_health}
use vpp_wl_mobile.Repository.Events.{
  add_node_health_event, prune_node_health_events, prune_admin_audit_events,
}
use vpp_wl_mobile.Health.{ProbeResult, HealthUpdate, evaluate}

pub record HealthCheckSummary : Type 0 where
  pub checked : ℕ
  pub updated : ℕ
  pub skipped : ℕ
  pub failures : ℕ
  pub pruned_events : ℕ
  pub pruned_admin_events : ℕ
  pub updates : List HealthUpdate

abbrev pub empty_summary : HealthCheckSummary
empty_summary = record {
  checked = 0;
  updated = 0;
  skipped = 0;
  failures = 0;
  pruned_events = 0;
  pruned_admin_events = 0;
  updates = [];
}

-- The arguments that the worker hands to `update_node_health`.
abbrev pub fields_of : HealthUpdate → HealthFields
fields_of u = record {
  health_score = u.health_score;
  status = some u.status;
  latency_ms = u.latency_ms;
  success_rate = some u.success_rate;
  health = some u.health;
  last_check_at = some u.last_check_at;
}

abbrev pub event_of : String → VpnNode → HealthUpdate → NodeHealthEvent
event_of id node u = record {
  id = id;
  node_id = node.id;
  checked_at = u.last_check_at;
  old_health = some node.health;
  new_health = u.health;
  old_status = some node.status;
  new_status = u.status;
  old_success_rate = some node.success_rate;
  new_success_rate = u.success_rate;
  old_latency_ms = node.latency_ms;
  new_latency_ms = u.latency_ms;
  health_score = u.health_score;
  error = u.error;
}

-- `if saved is not None`
abbrev pub record_saved :
    Option VpnNode → NodeHealthEvent → HealthCheckSummary → Repo → HealthCheckSummary × Repo
record_saved none event sum r = (sum, r)
record_saved (some node) event sum r =
    (record sum { updated = sum.updated + 1 }, add_node_health_event event r)

-- `max(..., default=None)`
unfoldable pub newest_check : List HealthUpdate → Option ℕ
newest_check [] = none
newest_check (u ∷ us) = some (max u.last_check_at (or_else (newest_check us) 0))

-- The retention at the end, for a cutoff that is a `datetime`.
unfoldable pub prune : ℕ → HealthCheckSummary → Repo → HealthCheckSummary × Repo
prune cutoff sum r =
    let (events, r') = prune_node_health_events cutoff r in
    let (admin_events, r'') = prune_admin_audit_events cutoff r' in
    (record sum { pruned_events = events; pruned_admin_events = admin_events }, r'')

unfoldable pub retain : ℕ → Option ℕ → HealthCheckSummary → Exec Repo HealthCheckSummary
unfolding prune
retain days none sum r = (ok sum, r)
retain days (some newest) sum r =
    if leb days max_timedelta_days && leb (days * day) newest
    then (let (sum', r') = prune (newest - days * day) sum r in (ok sum', r'))
    else (raised overflow_error, r)

-- `retention_days is not None and retention_days > 0`
unfoldable pub apply_retention : Option ℤ → HealthCheckSummary → Exec Repo HealthCheckSummary
unfolding retain newest_check
apply_retention none sum r = (ok sum, r)
apply_retention (some (negsuc n)) sum r = (ok sum, r)
apply_retention (some (pos zero)) sum r = (ok sum, r)
apply_retention (some (pos (suc n))) sum r = retain (suc n) (newest_check sum.updates) sum r

abbrev pub is_skipped : Bool → VpnNode → Bool
is_skipped include_disabled node = not include_disabled && is_disabled node.status

module _ (smoothing : ℕ) (probe : VpnNode → ProbeResult) (event_id : VpnNode → String) where
  abbrev pub count_probe : VpnNode → HealthCheckSummary → HealthCheckSummary
  count_probe node sum = record sum {
    checked = sum.checked + 1;
    failures = (if (probe node).is_ok then sum.failures else sum.failures + 1);
    updates = sum.updates ++ evaluate smoothing node (probe node) ∷ [];
  }

  -- The body of the loop for a node that is not skipped.
  unfoldable pub check_node : VpnNode → HealthCheckSummary → Repo → HealthCheckSummary × Repo
  check_node node sum r =
      let u = evaluate smoothing node (probe node) in
      let (saved, r') = update_node_health node.id (fields_of u) r in
      record_saved saved (event_of (event_id node) node u) (count_probe node sum) r'

  unfoldable pub check_nodes :
      Bool → List VpnNode → HealthCheckSummary → Repo → HealthCheckSummary × Repo
  unfolding check_node
  check_nodes include_disabled [] sum r = (sum, r)
  check_nodes include_disabled (node ∷ nodes) sum r =
      let (sum', r') =
        if is_skipped include_disabled node
        then (record sum { skipped = sum.skipped + 1 }, r)
        else check_node node sum r in
      check_nodes include_disabled nodes sum' r'

  unfoldable pub run_once : Option ℤ → Bool → Exec Repo HealthCheckSummary
  unfolding check_nodes apply_retention list_nodes
  run_once retention_days include_disabled r =
      let (sum, r') = check_nodes include_disabled (list_nodes r) empty_summary r in
      apply_retention retention_days sum r'
