-- ===== src/Health/Worker/Runs.antt =====
-- A whole run of the health check worker: the loop, then the retention.
use vpp_wl_mobile.Prelude.{
  ◌*◌, leb, zero, none, suc, Option, subst, ◌&&◌, not, keep, length, sym, refl, inr, inl,
  Bool-cases, arith, Bool, ℕ, ◌+◌, String, ◌≡◌, some, List, All,
}
use vpp_wl_mobile.Prelude.Dict
use vpp_wl_mobile.Prelude.Int.{pos, negsuc, ℤ}
use vpp_wl_mobile.Prelude.Dict.{Distinct, get-insert_self, get-insert_ne}
use vpp_wl_mobile.Health.Worker.Loop.{
  check_nodes-Counted, check_nodes-Settled, outcome, get-All-values, Present, Counted, Settled,
  DistinctIds,
}
use vpp_wl_mobile.Repository.{day, max_timedelta_days, Repo}
use vpp_wl_mobile.Health.Worker.{
  retain, run_once, newest_check, empty_summary, apply_retention, HealthCheckSummary, is_skipped,
  check_nodes,
}
use vpp_wl_mobile.Repository.Nodes.{list_nodes, get_node}
use vpp_wl_mobile.Errors.{ok, overflow_error, raised, Result}
use vpp_wl_mobile.Repository.Events.{prune_admin_audit_events, prune_node_health_events}
use vpp_wl_mobile.Models.{VpnNode}
use vpp_wl_mobile.Repository.Nodes.Keyed.{IsKeyed}
use vpp_wl_mobile.Health.{ProbeResult}

nodes-apply_retention :
    (days : Option ℤ) (sum : HealthCheckSummary) (r : Repo)
    → (apply_retention days sum r).1.nodes_by_id ≡ r.nodes_by_id
unfolding apply_retention prune_node_health_events prune_admin_audit_events
nodes-apply_retention none sum r = refl
nodes-apply_retention (some (negsuc n)) sum r = refl
nodes-apply_retention (some (pos zero)) sum r = refl
nodes-apply_retention (some (pos (suc n))) sum r = ground arith

-- The retention changes the two counters of pruned events alone, or raises `OverflowError`.
abbrev pub SameCounts : HealthCheckSummary → Result HealthCheckSummary → Type 0
SameCounts sum (raised e) = e ≡ overflow_error
SameCounts sum (ok s) =
    (s.checked ≡ sum.checked)
    × (s.updated ≡ sum.updated)
    × (s.skipped ≡ sum.skipped)
    × (s.failures ≡ sum.failures)
    × (s.updates ≡ sum.updates)

counts-retain :
    (n : ℕ) (newest : Option ℕ) (sum : HealthCheckSummary) (r : Repo)
    → SameCounts sum (retain n newest sum r).0
unfolding retain
counts-retain n none sum r = (refl, refl, refl, refl, refl)
counts-retain n (some m) sum r = elim (Bool-cases (leb n max_timedelta_days && leb (n * day) m)) [
  | inl fits ↦ rw fits (refl, refl, refl, refl, refl)
  | inr past ↦ rw past refl
]

counts-apply_retention :
    (days : Option ℤ) (sum : HealthCheckSummary) (r : Repo)
    → SameCounts sum (apply_retention days sum r).0
unfolding apply_retention
counts-apply_retention none sum r = (refl, refl, refl, refl, refl)
counts-apply_retention (some (negsuc n)) sum r = (refl, refl, refl, refl, refl)
counts-apply_retention (some (pos zero)) sum r = (refl, refl, refl, refl, refl)
counts-apply_retention (some (pos (suc n))) sum r =
    counts-retain (suc n) (newest_check sum.updates) sum r

-- The summary of a run over the nodes `ns`.
abbrev pub CountsRun :
    (VpnNode → ProbeResult) → Bool → List VpnNode → Result HealthCheckSummary → Type 0
CountsRun probe incl ns (raised e) = e ≡ overflow_error
CountsRun probe incl ns (ok s) =
    (s.checked + s.skipped ≡ length ns)
    × (s.updated ≡ s.checked)
    × (length s.updates ≡ s.checked)
    × (s.skipped ≡ length (keep (is_skipped incl) ns))
    × (s.failures ≡ length (keep (λ n. not (is_skipped incl n) && not (probe n).is_ok) ns))

module _ (smoothing : ℕ) (probe : VpnNode → ProbeResult) (event_id : VpnNode → String) (incl : Bool)
    (ns : List VpnNode) where
  summary :
      (res : Result HealthCheckSummary) (sum : HealthCheckSummary)
      → Counted smoothing probe event_id incl ns empty_summary sum
      → SameCounts sum res
      → CountsRun probe incl ns res
  summary (raised e) sum c same = same
  summary (ok s) sum c same = ground (arith, c)

-- What a run has done: every node is as the loop leaves it, and a run that returns has counted them.
abbrev pub Runs :
    (smoothing : ℕ) (probe : VpnNode → ProbeResult) (event_id : VpnNode → String)
    → Bool
    → Repo
    → Result HealthCheckSummary × Repo
    → Type 0
Runs smoothing probe event_id incl before (res, after) =
    Settled smoothing probe event_id incl after (list_nodes before)
    × CountsRun probe incl (list_nodes before) res

-- From a repository that holds each node once, under its own identifier: after `run_once` every node
-- that is not skipped stands as its evaluation says, and every skipped one as before; and the run
-- raises `OverflowError` in its retention, or its summary counts each node as checked or skipped,
-- each checked node as updated and reported, and each failed probe as a failure.
pub run_once-Runs :
    (smoothing : ℕ) (probe : VpnNode → ProbeResult) (event_id : VpnNode → String) (days : Option ℤ)
    (incl : Bool) (r : Repo)
    → Distinct r.nodes_by_id
    → IsKeyed r.nodes_by_id
    → Runs smoothing probe event_id incl r (run_once smoothing probe event_id days incl r)
unfolding run_once get_node Dict.get
run_once-Runs smoothing probe event_id days incl r h k =
    let ns = list_nodes r in
    let both : DistinctIds ns × Present r ns =
      unfold list_nodes get_node in get-All-values r.nodes_by_id h k in
    let (sum, r') = check_nodes smoothing probe event_id incl ns empty_summary r in
    (
      subst
          (λ (d : Dict.Dict VpnNode).
            All (λ (n : VpnNode). Dict.get n.id d ≡ some (outcome smoothing probe event_id incl n))
              ns)
          (sym (nodes-apply_retention days sum r'))
          (unfold get_node in
            check_nodes-Settled smoothing probe event_id incl ns empty_summary r both.0 both.1),
      summary smoothing probe event_id incl ns (apply_retention days sum r').0 sum
          (check_nodes-Counted smoothing probe event_id incl ns empty_summary r both.0 both.1)
          (counts-apply_retention days sum r'),
    )
