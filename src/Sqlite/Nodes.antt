-- ===== src/Sqlite/Nodes.antt =====
-- The nodes of backend/app/repositories/sqlite.py.
use vpp_wl_mobile.Prelude.{
  String, Bool, false, not, ◌&&◌, ◌||◌, Option, none, some, List, [], ◌∷◌, ◌==◌, ltb, eqb,
  if◌then◌else◌, or_else, or_option, length,
}
use vpp_wl_mobile.Prelude.Order.{ltb_text, lex}
use vpp_wl_mobile.Prelude.Sort.{sorted}
use vpp_wl_mobile.Prelude.Int.{ltb_ℤ, ℤ, pos}
use vpp_wl_mobile.Errors.{ok, raised, integrity_error, overflow_error, pure, ◌>>=◌, ◌>>◌}
use vpp_wl_mobile.Models.{VpnNode, status_value, health_value}
use vpp_wl_mobile.Repository.Nodes.{HealthFields}
use vpp_wl_mobile.Sqlite.{Library, NodeRow, Action}
use vpp_wl_mobile.Sqlite.Tables.{are_bound, given_number, optional}
use vpp_wl_mobile.Sqlite.Rows.{node_row, node_from_row, node_if_found}
use vpp_wl_mobile.Tariffs.{read_all}

-- `WHERE id = ?`
unfoldable pub find_node : String → List NodeRow → Option NodeRow
find_node node_id [] = none
find_node node_id (row ∷ rows) = if row.id == node_id then some row else find_node node_id rows

-- Whether another row has the tag: `tag TEXT NOT NULL UNIQUE`.
unfoldable pub tag_taken : NodeRow → List NodeRow → Bool
tag_taken new [] = false
tag_taken new (row ∷ rows) = (row.tag == new.tag && not (row.id == new.id)) || tag_taken new rows

-- `INSERT ... ON CONFLICT(id) DO UPDATE SET ...`
unfoldable pub put_node : NodeRow → List NodeRow → List NodeRow
put_node new [] = new ∷ []
put_node new (row ∷ rows) = if row.id == new.id then new ∷ rows else row ∷ put_node new rows

-- The integers of the row.
abbrev pub row_integers : NodeRow → List ℤ
row_integers row =
    pos row.port
    ∷ row.priority
    ∷ pos row.weight
    ∷ pos row.health_score
    ∷ given_number row.latency_ms

-- `ORDER BY priority ASC, health_score DESC, tag ASC`
unfoldable pub node_before : NodeRow → NodeRow → Bool
unfolding ltb_text
node_before =
    lex (λ a b. ltb_ℤ a.priority b.priority)
      (lex (λ a b. ltb b.health_score a.health_score) (λ a b. ltb_text a.tag b.tag))

-- The columns that `update_node_health` sets, over those of the node that it has read.
unfoldable pub health_row : Library → HealthFields → VpnNode → NodeRow → NodeRow
unfolding status_value health_value
health_row lib f existing row = record row {
  health_score = f.health_score;
  status = status_value (or_else f.status existing.status);
  latency_ms = or_option f.latency_ms existing.latency_ms;
  success_rate = or_else f.success_rate existing.success_rate;
  last_check_at = optional lib.to_text (or_option f.last_check_at existing.last_check_at);
  health = health_value (or_else f.health existing.health);
}

-- `UPDATE nodes SET ... WHERE id = ?`
unfoldable pub update_rows : String → (NodeRow → NodeRow) → List NodeRow → List NodeRow
update_rows node_id change [] = []
update_rows node_id change (row ∷ rows) =
    let rest = update_rows node_id change rows in
    (if row.id == node_id then change row else row) ∷ rest

module _ (lib : Library) where
  -- The rows as they are returned, in order.
  unfoldable pub list_nodes : Action (List VpnNode)
  unfolding read_all sorted node_from_row node_before
  list_nodes db = (read_all (node_from_row lib) (sorted node_before db.nodes), db)

  unfoldable pub get_node : String → Action (Option VpnNode)
  unfolding find_node node_if_found
  get_node node_id db = (node_if_found lib (find_node node_id db.nodes), db)

  unfoldable pub upsert_node : VpnNode → Action (Unit {0})
  unfolding are_bound tag_taken put_node node_row
  upsert_node node db =
      let row = node_row lib node in
      if not (are_bound (row_integers row))
      then (raised overflow_error, db)
      else if tag_taken row db.nodes
      then (raised integrity_error, db)
      else (ok tt, record db { nodes = put_node row db.nodes })

  abbrev pub set_health : String → HealthFields → VpnNode → Action (Unit {0})
  set_health node_id f existing db =
      if are_bound (pos f.health_score ∷ given_number (or_option f.latency_ms existing.latency_ms))
      then (ok tt, record db { nodes = update_rows node_id (health_row lib f existing) db.nodes })
      else (raised overflow_error, db)

  -- The rest of the method, for the node that was found.
  abbrev pub update_found : String → HealthFields → Option VpnNode → Action (Option VpnNode)
  update_found node_id f none = pure none
  update_found node_id f (some existing) = set_health node_id f existing >> get_node node_id

  unfoldable pub update_node_health : String → HealthFields → Action (Option VpnNode)
  unfolding get_node update_rows health_row are_bound
  update_node_health node_id f = do existing ← get_node node_id; update_found node_id f existing

  unfoldable pub upsert_all : List VpnNode → Action (Unit {0})
  unfolding upsert_node
  upsert_all [] = pure tt
  upsert_all (node ∷ nodes) = upsert_node node >> upsert_all nodes

  -- `seed_nodes_if_empty`, for the nodes that are given or the demo nodes.
  unfoldable pub seed_nodes_if_empty : List VpnNode → Action (Unit {0})
  unfolding upsert_all
  seed_nodes_if_empty seed_source db =
      let seeded = upsert_all seed_source db in
      if eqb (length db.nodes) 0 then seeded else (ok tt, db)
