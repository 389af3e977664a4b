-- ===== src/Health/Worker/Loop.antt =====
-- The loop of the health check worker: what it does to each node, and what it counts.
use vpp_wl_mobile.Prelude.{
  subst, ◌&&◌, not, keep, false, length, true, length-append, sym, refl, inr, All-map, eq_iff, inl,
  Bool-cases, if◌then◌else◌, arith, eq_refl, ◌∙◌, Bool, ℕ, ◌+◌, String, ◌≡◌, ◌≢◌, some, List, [],
  ◌∷◌, All,
}
use vpp_wl_mobile.Prelude.Dict
use vpp_wl_mobile.Prelude.Dict.{Distinct, get-insert_self, get-insert_ne}
use vpp_wl_mobile.Models.{VpnNode}
use vpp_wl_mobile.Repository.{Repo}
use vpp_wl_mobile.Repository.Nodes.{with_health, get_node, update_node_health}
use vpp_wl_mobile.Repository.Nodes.Keyed.{IsKeyed}
use vpp_wl_mobile.Repository.Events.{add_node_health_event}
use vpp_wl_mobile.Health.{ProbeResult, evaluate}
use vpp_wl_mobile.Health.Worker.{
  HealthCheckSummary, fields_of, count_probe, check_node, is_skipped, check_nodes,
}

-- Nodes with different identifiers, each as the repository has it.
abbrev pub DistinctIds : List VpnNode → Type 0
DistinctIds [] = Unit
DistinctIds (n ∷ ns) = All (λ (m : VpnNode). m.id ≢ n.id) ns × DistinctIds ns

abbrev pub Present : Repo → List VpnNode → Type 0
Present r ns = All (λ (n : VpnNode). get_node n.id r ≡ some n) ns

-- The nodes of a dict that holds each under its own identifier.
pub get-All-values :
    (d : Dict.Dict VpnNode)
    → Distinct d
    → IsKeyed d
    → DistinctIds (Dict.values d) × All (λ (n : VpnNode). Dict.get n.id d ≡ some n) (Dict.values d)
unfolding Dict.values Dict.get
get-All-values [] h k = (tt, tt)
get-All-values ((id, n) ∷ d) h k =
    let own : n.id ≡ id = k id n (rw eq_refl refl) in
    let (ids, there) = get-All-values d h.1 (λ j m e. k j m (ground (arith, eq_iff id j, h.0))) in
    (
      (All-map _ _ (Dict.values d) (λ m e same. ground (arith, h.0, own)) there, ids),
      (
        rw own (rw eq_refl refl),
        All-map _ _ (Dict.values d) (λ m e. ground (arith, eq_iff id m.id, h.0)) there,
      ),
    )

module _ (smoothing : ℕ) (probe : VpnNode → ProbeResult) (event_id : VpnNode → String) where
  -- What the worker stores for a node.
  abbrev pub checked_node : VpnNode → VpnNode
  checked_node n = with_health (fields_of (evaluate smoothing n (probe n))) n

  check_node_summary :
      (n : VpnNode) (sum : HealthCheckSummary) (r : Repo)
      → get_node n.id r ≡ some n
      → (check_node smoothing probe event_id n sum r).0 ≡ (
          let c = count_probe smoothing probe event_id n sum in
          record c { updated = c.updated + 1 })
  unfolding check_node update_node_health get_node
  check_node_summary n sum r h = rw (h, update_node_health)

  check_node_self :
      (n : VpnNode) (sum : HealthCheckSummary) (r : Repo)
      → get_node n.id r ≡ some n
      → get_node n.id (check_node smoothing probe event_id n sum r).1 ≡ some (checked_node n)
  unfolding check_node update_node_health get_node add_node_health_event
  check_node_self n sum r h =
      rw (h, update_node_health) (get-insert_self n.id (checked_node n) r.nodes_by_id)

  check_node_other :
      (n : VpnNode) (sum : HealthCheckSummary) (r : Repo) (j : String)
      → get_node n.id r ≡ some n
      → j ≢ n.id
      → get_node j (check_node smoothing probe event_id n sum r).1 ≡ get_node j r
  unfolding check_node update_node_health get_node add_node_health_event
  check_node_other n sum r j h ne =
      rw (h, update_node_health) (get-insert_ne n.id j (checked_node n) r.nodes_by_id ne)

  Present-check_node :
      (n : VpnNode) (ns : List VpnNode) (sum : HealthCheckSummary) (r : Repo)
      → get_node n.id r ≡ some n
      → All (λ (m : VpnNode). m.id ≢ n.id) ns
      → Present r ns
      → Present (check_node smoothing probe event_id n sum r).1 ns
  Present-check_node n [] sum r h ne p = tt
  Present-check_node n (m ∷ ns) sum r h ne p =
      (check_node_other n sum r m.id h ne.0 ∙ p.0, Present-check_node n ns sum r h ne.1 p.1)

  -- What the loop leaves of one node that it is handed.
  abbrev pub outcome : Bool → VpnNode → VpnNode
  outcome include_disabled n = if is_skipped include_disabled n then n else checked_node n

  step_skipped :
      (incl : Bool) (n : VpnNode) (ns : List VpnNode) (sum : HealthCheckSummary) (r : Repo)
      → is_skipped incl n ≡ true
      → check_nodes smoothing probe event_id incl (n ∷ ns) sum r
        ≡ check_nodes smoothing probe event_id incl ns (record sum { skipped = sum.skipped + 1 }) r
  unfolding check_nodes
  step_skipped incl n ns sum r e = rw (e, check_nodes)

  step_checked :
      (incl : Bool) (n : VpnNode) (ns : List VpnNode) (sum : HealthCheckSummary) (r : Repo)
      → is_skipped incl n ≡ false
      → let (sum', r') = check_node smoothing probe event_id n sum r in
        check_nodes smoothing probe event_id incl (n ∷ ns) sum r
        ≡ check_nodes smoothing probe event_id incl ns sum' r'
  unfolding check_nodes
  step_checked incl n ns sum r e = rw (e, check_nodes)

  unchanged :
      (incl : Bool) (ns : List VpnNode) (sum : HealthCheckSummary) (r : Repo) (j : String)
      → DistinctIds ns
      → Present r ns
      → All (λ (m : VpnNode). j ≢ m.id) ns
      → get_node j (check_nodes smoothing probe event_id incl ns sum r).1 ≡ get_node j r
  unchanged incl [] sum r j d p ne = unfold check_nodes in refl
  unchanged incl (n ∷ ns) sum r j d p ne = elim (Bool-cases (is_skipped incl n)) [
    | inl skip ↦
        rw (step_skipped incl n ns sum r skip)
          (unchanged incl ns (record sum { skipped = sum.skipped + 1 }) r j d.1 p.1 ne.1)
    | inr check ↦
        let (sum', r') = check_node smoothing probe event_id n sum r in
        rw (step_checked incl n ns sum r check) (
          unchanged incl ns sum' r' j d.1 (Present-check_node n ns sum r p.0 d.0 p.1) ne.1
          ∙ check_node_other n sum r j p.0 ne.0)
  ]

  -- Each node of the list as the repository `r` has it after the loop.
  abbrev pub Settled : Bool → Repo → List VpnNode → Type 0
  Settled incl r ns = All (λ (n : VpnNode). get_node n.id r ≡ some (outcome incl n)) ns

  pub check_nodes-Settled :
      (incl : Bool) (ns : List VpnNode) (sum : HealthCheckSummary) (r : Repo)
      → DistinctIds ns
      → Present r ns
      → Settled incl (check_nodes smoothing probe event_id incl ns sum r).1 ns
  check_nodes-Settled incl [] sum r d p = tt
  check_nodes-Settled incl (n ∷ ns) sum r d p =
      let away : All (λ (m : VpnNode). n.id ≢ m.id) ns =
        All-map _ _ ns (λ m ne e. ne (sym e)) d.0 in
      elim (Bool-cases (is_skipped incl n)) [
        | inl skip ↦
            let sum' : HealthCheckSummary = record sum { skipped = sum.skipped + 1 } in
            subst (λ x. Settled incl x.1 (n ∷ ns)) (sym (step_skipped incl n ns sum r skip))
              (
                unchanged incl ns sum' r n.id d.1 p.1 away ∙ p.0 ∙ rw skip refl,
                check_nodes-Settled incl ns sum' r d.1 p.1,
              )
        | inr check ↦
            let (sum', r') = check_node smoothing probe event_id n sum r in
            let p' = Present-check_node n ns sum r p.0 d.0 p.1 in
            subst (λ x. Settled incl x.1 (n ∷ ns)) (sym (step_checked incl n ns sum r check))
              (
                unchanged incl ns sum' r' n.id d.1 p' away
                    ∙ check_node_self n sum r p.0
                    ∙ rw check refl,
                check_nodes-Settled incl ns sum' r' d.1 p',
              )
      ]

  -- The counters of the summary.
  pub record Counted (incl : Bool) (ns : List VpnNode) (sum after : HealthCheckSummary)
      : Type 0 where
    pub every : after.checked + after.skipped ≡ sum.checked + sum.skipped + length ns
    pub saved : after.updated + sum.checked ≡ sum.updated + after.checked
    pub reported : length after.updates + sum.checked ≡ length sum.updates + after.checked
    pub skips : after.skipped ≡ sum.skipped + length (keep (is_skipped incl) ns)
    pub fails :
        after.failures
        ≡ sum.failures + length (keep (λ n. not (is_skipped incl n) && not (probe n).is_ok) ns)

  pub check_nodes-Counted :
      (incl : Bool) (ns : List VpnNode) (sum : HealthCheckSummary) (r : Repo)
      → DistinctIds ns
      → Present r ns
      → Counted incl ns sum (check_nodes smoothing probe event_id incl ns sum r).0
  check_nodes-Counted incl [] sum r d p = unfold check_nodes in ground arith
  check_nodes-Counted incl (n ∷ ns) sum r d p = elim (Bool-cases (is_skipped incl n)) [
    | inl skip ↦
        let sum' : HealthCheckSummary = record sum { skipped = sum.skipped + 1 } in
        let c = check_nodes-Counted incl ns sum' r d.1 p.1 in
        rw (step_skipped incl n ns sum r skip) (ground (arith, c))
    | inr check ↦
        let (sum', r') = check_node smoothing probe event_id n sum r in
        let c =
          check_nodes-Counted incl ns sum' r' d.1 (Present-check_node n ns sum r p.0 d.0 p.1) in
        rw (step_checked incl n ns sum r check) (
          ground (
            arith,
            c,
            check_node_summary n sum r p.0,
            length-append sum.updates (evaluate smoothing n (probe n) ∷ []),
          ))
  ]
