-- ===== src/Repository/Events.antt =====
-- The node health events and the admin audit events of backend/app/repositories/memory.py.
pub mod Retention
use vpp_wl_mobile.Prelude.{
  ℕ, ◌+◌, ◌-◌, String, Bool, false, not, none, some, List, [], ◌∷◌, leb, if◌then◌else◌, or_else,
  length, take, keep, is_empty,
}
use vpp_wl_mobile.Prelude.Dict
use vpp_wl_mobile.Models.{NodeHealthEvent, AdminAuditEvent}
use vpp_wl_mobile.Repository.{Repo}

abbrev pub bucket_of : String → Repo → List NodeHealthEvent
bucket_of node_id r = or_else (Dict.get node_id r.health_events_by_node_id) []

-- `setdefault(event.node_id, []).insert(0, event)`
unfoldable pub add_node_health_event : NodeHealthEvent → Repo → Repo
add_node_health_event event r = record r {
  health_events_by_node_id =
      Dict.insert event.node_id (event ∷ bucket_of event.node_id r) r.health_events_by_node_id;
}

unfoldable pub list_node_health_events : String → ℕ → Repo → List NodeHealthEvent
list_node_health_events node_id limit r = take limit (bucket_of node_id r)

abbrev pub checked_since : ℕ → NodeHealthEvent → Bool
checked_since cutoff event = leb cutoff event.checked_at

-- One round of the loop of `prune_node_health_events`, on the dict and the count.
abbrev pub prune_bucket :
    String
    → List NodeHealthEvent
    → List NodeHealthEvent
    → ℕ
    → Dict.Dict (List NodeHealthEvent)
    → Dict.Dict (List NodeHealthEvent) × ℕ
prune_bucket node_id events [] deleted d = (Dict.pop node_id d, deleted + length events)
prune_bucket node_id events (e ∷ kept) deleted d =
    (Dict.insert node_id (e ∷ kept) d, deleted + (length events - length (e ∷ kept)))

-- The loop runs over a copy of the items, and writes to the dict.
unfoldable pub prune_buckets :
    ℕ
    → Dict.Dict (List NodeHealthEvent)
    → Dict.Dict (List NodeHealthEvent) × ℕ
    → Dict.Dict (List NodeHealthEvent) × ℕ
prune_buckets cutoff [] (d, deleted) = (d, deleted)
prune_buckets cutoff ((node_id, events) ∷ items) (d, deleted) =
    prune_buckets cutoff items
      (prune_bucket node_id events (keep (checked_since cutoff) events) deleted d)

unfoldable pub prune_node_health_events : ℕ → Repo → ℕ × Repo
unfolding prune_buckets
prune_node_health_events cutoff r =
    let (d, deleted) =
      prune_buckets cutoff r.health_events_by_node_id (r.health_events_by_node_id, 0) in
    (deleted, record r { health_events_by_node_id = d })

-- `if event.error`: a text that is there and not empty.
unfoldable pub has_error : NodeHealthEvent → Bool
unfolding is_empty
has_error event = elim event.error [ none ↦ false | some text ↦ not (is_empty text) ]

pub record Counts : Type 0 where
  pub success : ℕ
  pub failure : ℕ

unfoldable pub count_events : List NodeHealthEvent → Counts → Counts
unfolding has_error
count_events [] c = c
count_events (event ∷ events) c = count_events events (
    if has_error event
    then record c { failure = c.failure + 1 }
    else record c { success = c.success + 1 })

unfoldable pub count_buckets : List (List NodeHealthEvent) → Counts → Counts
unfolding count_events
count_buckets [] c = c
count_buckets (events ∷ rest) c = count_buckets rest (count_events events c)

unfoldable pub count_node_health_events_by_result : Repo → Counts
unfolding count_buckets
count_node_health_events_by_result r =
    count_buckets (Dict.values r.health_events_by_node_id) (record { success = 0; failure = 0 })

unfoldable pub add_admin_audit_event : AdminAuditEvent → Repo → Repo
add_admin_audit_event event r = record r { admin_audit_events = event ∷ r.admin_audit_events }

unfoldable pub list_admin_audit_events : ℕ → Repo → List AdminAuditEvent
list_admin_audit_events limit r = take limit r.admin_audit_events

abbrev pub occurred_since : ℕ → AdminAuditEvent → Bool
occurred_since cutoff event = leb cutoff event.occurred_at

unfoldable pub prune_admin_audit_events : ℕ → Repo → ℕ × Repo
prune_admin_audit_events cutoff r =
    let kept = keep (occurred_since cutoff) r.admin_audit_events in
    (length r.admin_audit_events - length kept, record r { admin_audit_events = kept })

unfoldable pub count_admin_audit_events : Repo → ℕ
count_admin_audit_events r = length r.admin_audit_events
