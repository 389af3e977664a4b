-- ===== src/Service/Metrics/Total.antt =====
-- The groups of the metrics count every node once.
use vpp_wl_mobile.Prelude.{
  ℕ, ◌+◌, ◌≡◌, refl, inl, inr, Bool, List, [], ◌∷◌, arith, Bool-cases, length,
}
use vpp_wl_mobile.Prelude.Sort.{sorted, insert_sorted}
use vpp_wl_mobile.Models.{VpnNode}
use vpp_wl_mobile.Repository.{Repo}
use vpp_wl_mobile.Repository.Nodes.{list_nodes}
use vpp_wl_mobile.Service.Metrics.{
  Group, group_of, same_key, add_group, add_nodes, node_groups, group_before, shown_groups,
}

abbrev pub total : List Group → ℕ
total [] = 0
total (g ∷ groups) = g.size + total groups

add_group-total :
    (g : Group) (groups : List Group) → total (add_group g groups) ≡ g.size + total groups
unfolding add_group
add_group-total g [] = refl
add_group-total g (h ∷ groups) = elim (Bool-cases (same_key h g)) [
  | inl e ↦ rw e (omega arith)
  | inr e ↦ rw e (omega (arith, add_group-total g groups))
]

add_nodes-total :
    (nodes : List VpnNode) (groups : List Group)
    → total (add_nodes nodes groups) ≡ length nodes + total groups
unfolding add_nodes
add_nodes-total [] groups = omega arith
add_nodes-total (node ∷ nodes) groups =
    let here : total (add_group (group_of node) groups) ≡ 1 + total groups =
      add_group-total (group_of node) groups in
    omega (arith, here, add_nodes-total nodes (add_group (group_of node) groups))

insert_sorted-total :
    (before : Group → Group → Bool) (g : Group) (groups : List Group)
    → total (insert_sorted before g groups) ≡ g.size + total groups
unfolding insert_sorted
insert_sorted-total before g [] = refl
insert_sorted-total before g (h ∷ groups) = elim (Bool-cases (before h g)) [
  | inl e ↦ rw e (omega (arith, insert_sorted-total before g groups))
  | inr e ↦ rw e refl
]

sorted-total :
    (before : Group → Group → Bool) (groups : List Group)
    → total (sorted before groups) ≡ total groups
unfolding sorted
sorted-total before [] = refl
sorted-total before (g ∷ groups) =
    omega (arith, insert_sorted-total before g (sorted before groups), sorted-total before groups)

-- The sizes of the groups that the metrics show add up to the number of the nodes of the repository.
pub shown_groups-total : (r : Repo) → total (shown_groups r) ≡ length (list_nodes r)
unfolding shown_groups node_groups
shown_groups-total r = omega (
  arith,
  sorted-total group_before (node_groups (list_nodes r)),
  add_nodes-total (list_nodes r) [],
)
