-- ===== src/Sqlite/Events.antt =====
-- The node health events and the admin audit events of backend/app/repositories/sqlite.py.
use vpp_wl_mobile.Prelude.{
  ◌++◌, ℕ, ◌+◌, String, Bool, not, ◌||◌, List, [], ◌∷◌, ◌==◌, if◌then◌else◌, is_some, length, take,
  keep,
}
use vpp_wl_mobile.Prelude.Sort.{sorted}
use vpp_wl_mobile.Prelude.Order.{ltb_text}
use vpp_wl_mobile.Prelude.Int.{ℤ, pos}
use vpp_wl_mobile.Models.{AdminAuditEvent, NodeHealthEvent}
use vpp_wl_mobile.Sqlite.{Library, EventRow, AuditRow, Action}
use vpp_wl_mobile.Sqlite.Tables.{are_bound, given_number, find_by, put_by}
use vpp_wl_mobile.Sqlite.Rows.{event_row, event_from_row, audit_row, audit_from_row}
use vpp_wl_mobile.Sqlite.Nodes.{find_node}
use vpp_wl_mobile.Repository.Events.{Counts}
use vpp_wl_mobile.Tariffs.{read_all}
use vpp_wl_mobile.Errors.{ok, raised, integrity_error, overflow_error}

abbrev event_id : EventRow → String
event_id row = row.id

abbrev audit_id : AuditRow → String
audit_id row = row.id

-- `ORDER BY checked_at DESC` and `ORDER BY occurred_at DESC`: the index that has the order keeps
-- rows with one text as they were inserted.
abbrev pub later_checked : EventRow → EventRow → Bool
later_checked a b = ltb_text b.checked_at a.checked_at

abbrev pub later_occurred : AuditRow → AuditRow → Bool
later_occurred a b = ltb_text b.occurred_at a.occurred_at

-- `CASE WHEN error IS NULL`
unfoldable pub count_rows : List EventRow → Counts → Counts
count_rows [] c = c
count_rows (row ∷ rows) c = count_rows rows (
    if is_some row.error
    then record c { failure = c.failure + 1 }
    else record c { success = c.success + 1 })

unfoldable pub count_node_health_events_by_result : Action Counts
unfolding count_rows
count_node_health_events_by_result db =
    (ok (count_rows db.node_health_events (record { success = 0; failure = 0 })), db)

unfoldable pub count_admin_audit_events : Action ℕ
count_admin_audit_events db = (ok (length db.admin_audit_events), db)

module _ (lib : Library) where
  abbrev pub event_integers : NodeHealthEvent → List ℤ
  event_integers event =
      given_number event.old_latency_ms
      ++ given_number event.new_latency_ms
      ++ (pos event.health_score ∷ [])

  -- `id` is the primary key, and `node_id` refers to a row of the nodes.
  unfoldable pub add_node_health_event : NodeHealthEvent → Action (Unit {0})
  unfolding are_bound find_by put_by find_node event_row
  add_node_health_event event db =
      if not (are_bound (event_integers event))
      then (raised overflow_error, db)
      else if is_some (find_by event_id event.id db.node_health_events)
          || not (is_some (find_node event.node_id db.nodes))
      then (raised integrity_error, db)
      else (
        ok tt,
        record db {
          node_health_events = put_by event_id (event_row lib event) db.node_health_events;
        },
      )

  unfoldable pub list_node_health_events : String → ℕ → Action (List NodeHealthEvent)
  unfolding are_bound read_all sorted ltb_text event_from_row
  list_node_health_events node_id limit db =
      let rows = keep (λ row. row.node_id == node_id) db.node_health_events in
      if are_bound (pos limit ∷ [])
      then (read_all (event_from_row lib) (take limit (sorted later_checked rows)), db)
      else (raised overflow_error, db)

  unfoldable pub prune_node_health_events : ℕ → Action ℕ
  unfolding ltb_text
  prune_node_health_events cutoff db =
      let before : EventRow → Bool = λ row. ltb_text row.checked_at (lib.to_text cutoff) in
      (
        ok (length (keep before db.node_health_events)),
        record db { node_health_events = keep (λ row. not (before row)) db.node_health_events },
      )

  unfoldable pub add_admin_audit_event : AdminAuditEvent → Action (Unit {0})
  unfolding find_by put_by audit_row
  add_admin_audit_event event db =
      if is_some (find_by audit_id event.id db.admin_audit_events)
      then (raised integrity_error, db)
      else (
        ok tt,
        record db {
          admin_audit_events = put_by audit_id (audit_row lib event) db.admin_audit_events;
        },
      )

  unfoldable pub list_admin_audit_events : ℕ → Action (List AdminAuditEvent)
  unfolding are_bound read_all sorted ltb_text audit_from_row
  list_admin_audit_events limit db =
      (read_all (audit_from_row lib) (take limit (sorted later_occurred db.admin_audit_events)), db)

  unfoldable pub prune_admin_audit_events : ℕ → Action ℕ
  unfolding ltb_text
  prune_admin_audit_events cutoff db =
      let before : AuditRow → Bool = λ row. ltb_text row.occurred_at (lib.to_text cutoff) in
      (
        ok (length (keep before db.admin_audit_events)),
        record db { admin_audit_events = keep (λ row. not (before row)) db.admin_audit_events },
      )
