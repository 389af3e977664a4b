-- ===== src/Repository/Nodes/Keyed.antt =====
-- The dict of nodes holds each node under its own identifier, and every method keeps it so.
use vpp_wl_mobile.Prelude.{
  ◌∙◌, Bool-cases, ◌==◌, if◌then◌else◌, String, ◌≡◌, refl, ◌≢◌, ◌⊎◌, inl, inr, Option, none, some,
  List, [], ◌∷◌, arith, eq_iff, Option-cases, or_else,
}
use vpp_wl_mobile.Prelude.Dict
use vpp_wl_mobile.Prelude.Dict.{get-insert, get-insert_self, get-insert_ne}
use vpp_wl_mobile.Models.{VpnNode}
use vpp_wl_mobile.Repository.{Repo}
use vpp_wl_mobile.Repository.Nodes.{
  get_node, HealthFields, with_health, update_node_health, index_nodes,
}
use vpp_wl_mobile.Repository.Nodes.Seed.{seed_nodes, new_repository, demo_nodes}

abbrev pub IsKeyed : Dict.Dict VpnNode → Type 0
IsKeyed d = (id : String) (n : VpnNode) → Dict.get id d ≡ some n → n.id ≡ id

pub insert-IsKeyed :
    (k : String) (m : VpnNode) (d : Dict.Dict VpnNode)
    → m.id ≡ k
    → IsKeyed d
    → IsKeyed (Dict.insert k m d)
insert-IsKeyed k m d e keyed id n h = ground (arith, get-insert k id m d, eq_iff k id, keyed id n)

index_nodes-IsKeyed :
    (nodes : List VpnNode) (d : Dict.Dict VpnNode) → IsKeyed d → IsKeyed (index_nodes d nodes)
unfolding index_nodes
index_nodes-IsKeyed [] d h = h
index_nodes-IsKeyed (n ∷ nodes) d h =
    index_nodes-IsKeyed nodes (Dict.insert n.id n d) (insert-IsKeyed n.id n d refl h)

-- The last node of a list with an identifier, if there is one.
pub last_with : String → List VpnNode → Option VpnNode
last_with id [] = none
last_with id (n ∷ nodes) = elim (last_with id nodes) [
  | none ↦ if n.id == id then some n else none
  | some m ↦ some m
]

-- The node with an identifier after a list of nodes is put into a dict.
get-index_nodes :
    (id : String) (nodes : List VpnNode) (d : Dict.Dict VpnNode)
    → Dict.get id (index_nodes d nodes)
      ≡ (elim (last_with id nodes) [ none ↦ Dict.get id d | some m ↦ some m ])
unfolding index_nodes last_with
get-index_nodes id [] d = refl
get-index_nodes id (n ∷ nodes) d =
    rw (get-index_nodes id nodes (Dict.insert n.id n d)) (elim (Option-cases (last_with id nodes)) [
      | inl e ↦ rw e (
          rw (get-insert n.id id n d) (elim (Bool-cases (n.id == id)) [
            | inl same ↦ rw same refl
            | inr other ↦ rw other refl
          ]))
      | inr (m, e) ↦ rw e refl
    ])

in_empty :
    (id : String) (o : Option VpnNode) → (elim o [ none ↦ Dict.get id [] | some m ↦ some m ]) ≡ o
in_empty id none = Dict.get-empty id
in_empty id (some m) = refl

get-seeded :
    (id : String) (nodes : List VpnNode) → Dict.get id (index_nodes [] nodes) ≡ last_with id nodes
get-seeded id nodes = get-index_nodes id nodes [] ∙ in_empty id (last_with id nodes)

index-IsKeyed : (nodes : List VpnNode) → IsKeyed (index_nodes [] nodes)
index-IsKeyed nodes = index_nodes-IsKeyed nodes [] (λ id n h. cc (Dict.get-empty {V = VpnNode} id))

-- A repository that is made with a list of nodes, even an empty one, holds under each identifier the
-- last of these nodes that has it, and nothing else; one that is made without a list holds the demo
-- nodes in the same way. Either way each node is held under its own identifier.
pub new_repository-Holds :
    (nodes : List VpnNode) (id : String)
    → (get_node id (new_repository (some nodes)) ≡ last_with id nodes)
      × (get_node id (new_repository none) ≡ last_with id demo_nodes)
      × IsKeyed (new_repository (some nodes)).nodes_by_id
      × IsKeyed (new_repository none).nodes_by_id
unfolding new_repository seed_nodes get_node
new_repository-Holds nodes id =
    (get-seeded id nodes, get-seeded id demo_nodes, index-IsKeyed nodes, index-IsKeyed demo_nodes)

-- What `update_node_health` has done to the node `id`.
pub record Updates (id : String) (f : HealthFields) (n m : VpnNode) (before after : Repo)
    : Type 0 where
  pub found : get_node id before ≡ some n
  pub stored : get_node id after ≡ some m
  pub keyed : IsKeyed after.nodes_by_id
  pub score : m.health_score ≡ f.health_score
  pub given : (m.status ≡ or_else f.status n.status) × (m.health ≡ or_else f.health n.health)
  pub identity :
      (m.id ≡ n.id)
      × (m.host ≡ n.host)
      × (m.port ≡ n.port)
      × (m.options ≡ n.options)
      × (m.priority ≡ n.priority)
  pub others : (j : String) → j ≢ id → get_node j after ≡ get_node j before

-- In a repository whose nodes are held under their own identifiers, `update_node_health` of a known
-- node stores the node with the given score, the given status and health where they are given, and
-- its old identity, and changes no other node; of an unknown one it answers `None` and changes
-- nothing. The nodes stay under their own identifiers.
pub update_node_health_lem :
    (id : String) (f : HealthFields) (r : Repo)
    → IsKeyed r.nodes_by_id
    → ((get_node id r ≡ none) × (update_node_health id f r ≡ (none, r)))
      ⊎ ((n m : VpnNode) × ((update_node_health id f r).0 ≡ some m)
          × Updates id f n m r (update_node_health id f r).1)
unfolding update_node_health get_node
update_node_health_lem id f r keyed = elim (Option-cases (Dict.get id r.nodes_by_id)) [
  | inl unknown ↦ inl (unknown, rw (unknown, update_node_health))
  | inr (n, known) ↦ inr (
    n,
    with_health f n,
    rw (known, update_node_health) refl,
    rw (known, update_node_health)
        (record {
          found = known;
          stored = get-insert_self id (with_health f n) r.nodes_by_id;
          keyed = insert-IsKeyed id (with_health f n) r.nodes_by_id (keyed id n known) keyed;
          score = refl;
          given = (refl, refl);
          identity = (refl, refl, refl, refl, refl);
          others = λ j ne. get-insert_ne id j (with_health f n) r.nodes_by_id ne;
        }),
  )
]
