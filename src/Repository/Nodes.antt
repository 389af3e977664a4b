-- ===== src/Repository/Nodes.antt =====
-- The nodes of backend/app/repositories/memory.py.
pub mod Seed
pub mod Keyed
use vpp_wl_mobile.Prelude.{ℕ, String, Option, none, some, List, [], ◌∷◌, or_else, or_option}
use vpp_wl_mobile.Prelude.Dict
use vpp_wl_mobile.Models.{VpnNode, NodeStatus, NodeHealth}
use vpp_wl_mobile.Repository.{Repo}

unfoldable pub list_nodes : Repo → List VpnNode
list_nodes r = Dict.values r.nodes_by_id

unfoldable pub get_node : String → Repo → Option VpnNode
get_node node_id r = Dict.get node_id r.nodes_by_id

unfoldable pub upsert_node : VpnNode → Repo → Repo
upsert_node node r = record r { nodes_by_id = Dict.insert node.id node r.nodes_by_id }

-- The arguments of `update_node_health` after the node's identifier.
pub record HealthFields : Type 0 where
  pub health_score : ℕ
  pub status : Option NodeStatus
  pub latency_ms : Option ℕ
  pub success_rate : Option ℕ
  pub health : Option NodeHealth
  pub last_check_at : Option ℕ

-- The copy that `replace` makes.
unfoldable pub with_health : HealthFields → VpnNode → VpnNode
with_health f node = record node {
  health_score = f.health_score;
  status = or_else f.status node.status;
  latency_ms = or_option f.latency_ms node.latency_ms;
  success_rate = or_else f.success_rate node.success_rate;
  health = or_else f.health node.health;
  last_check_at = or_option f.last_check_at node.last_check_at;
}

unfoldable pub update_node_health : String → HealthFields → Repo → Option VpnNode × Repo
unfolding with_health
update_node_health node_id f r = elim (Dict.get node_id r.nodes_by_id) [
  | none ↦ (none, r)
  | some node ↦ (
    some (with_health f node),
    record r { nodes_by_id = Dict.insert node_id (with_health f node) r.nodes_by_id },
  )
]

-- `{node.id: node for node in nodes}`
unfoldable pub index_nodes : Dict.Dict VpnNode → List VpnNode → Dict.Dict VpnNode
index_nodes d [] = d
index_nodes d (node ∷ nodes) = index_nodes (Dict.insert node.id node d) nodes
