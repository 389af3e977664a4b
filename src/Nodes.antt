-- ===== src/Nodes.antt =====
-- backend/app/domain/node_scoring.py and node_selection.py. A score is a number of two-thousandths,
-- in which every weight of the formula is a whole number.
pub mod Preferred
use vpp_wl_mobile.Prelude.{
  ℕ, ◌+◌, ◌-◌, ◌*◌, min, Bool, not, ◌||◌, List, ltb, eqb, if◌then◌else◌, or_else, take, keep,
}
use vpp_wl_mobile.Prelude.Int.{ℤ, pos_part, neg_part, ltb_ℤ}
use vpp_wl_mobile.Prelude.Order.{ltb_text, lex}
use vpp_wl_mobile.Prelude.Sort.{sorted}
use vpp_wl_mobile.Models.{VpnNode, is_usable, is_disabled, is_healthy}

-- `max(0.0, score - latency_penalty - priority_penalty)`; a negative priority is a bonus.
abbrev weighed_score : VpnNode → ℕ
weighed_score n =
    n.health_score * 1100
    + n.success_rate * 7
    + n.weight * 200
    + neg_part n.priority * 400
    - (min (or_else n.latency_ms 0) 1000 * 200 + pos_part n.priority * 400)

unfoldable pub node_score : VpnNode → ℕ
node_score n =
    if is_disabled n.status || not (is_healthy n.health)
    then 0
    else if ltb n.success_rate 7500
    then 0
    else weighed_score n

-- `node.latency_ms or 10_000`
unfoldable pub latency_key : VpnNode → ℕ
latency_key n = let ms = or_else n.latency_ms 0 in if eqb ms 0 then 10_000 else ms

-- The tuple `(-node_score(node), node.priority, node.latency_ms or 10_000, node.tag)` compared.
unfoldable pub before : VpnNode → VpnNode → Bool
unfolding node_score latency_key ltb_text
before =
    lex (λ a b. ltb (node_score b) (node_score a))
      (lex (λ a b. ltb_ℤ a.priority b.priority)
        (lex (λ a b. ltb (latency_key a) (latency_key b)) (λ a b. ltb_text a.tag b.tag)))

unfoldable pub sort_nodes_by_score : List VpnNode → List VpnNode
unfolding before sorted is_usable
sort_nodes_by_score nodes = sorted before (keep is_usable nodes)

unfoldable pub choose_preferred_nodes : List VpnNode → ℕ → List VpnNode
unfolding sort_nodes_by_score
choose_preferred_nodes nodes limit = take limit (sort_nodes_by_score nodes)
