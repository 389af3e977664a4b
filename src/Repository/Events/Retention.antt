-- ===== src/Repository/Events/Retention.antt =====
-- Pruning keeps exactly the events from the cutoff on, and counts the rest; counting by result
-- counts every event once.
use vpp_wl_mobile.Prelude.{
  ℕ, ◌+◌, ◌-◌, String, ◌≡◌, refl, ◌∙◌, not, Option, none, some, List, [], ◌∷◌, arith, ◌==◌, eq_iff,
  if◌then◌else◌, or_else, length, keep, length-keep-not,
}
use vpp_wl_mobile.Prelude.Dict
use vpp_wl_mobile.Prelude.Dict.{Distinct, get-insert, get-pop, insert-Distinct, pop-Distinct}
use vpp_wl_mobile.Models.{NodeHealthEvent}
use vpp_wl_mobile.Repository.{Repo}
use vpp_wl_mobile.Repository.Events.{
  bucket_of, checked_since, prune_bucket, prune_buckets, prune_node_health_events, has_error,
  Counts, count_events, count_buckets, count_node_health_events_by_result,
}

-- A dict of events as the methods leave it: no node twice.
abbrev Buckets : Type 0
Buckets = Dict.Dict (List NodeHealthEvent)

abbrev pub nonempty : List NodeHealthEvent → Option (List NodeHealthEvent)
nonempty [] = none
nonempty (e ∷ es) = some (e ∷ es)

-- What the loop leaves under a key: that of the items if it is among them.
abbrev pruned :
    ℕ
    → Option (List NodeHealthEvent)
    → Option (List NodeHealthEvent)
    → Option (List NodeHealthEvent)
pruned cutoff none old = old
pruned cutoff (some events) old = nonempty (keep (checked_since cutoff) events)

get-prune_bucket :
    (id j : String) (events kept : List NodeHealthEvent) (n : ℕ) (d : Buckets)
    → Dict.get j (prune_bucket id events kept n d).0
      ≡ (if id == j then nonempty kept else Dict.get j d)
get-prune_bucket id j events [] n d = get-pop id j d
get-prune_bucket id j events (e ∷ kept) n d = get-insert id j (e ∷ kept) d

prune_bucket-Distinct :
    (id : String) (events kept : List NodeHealthEvent) (n : ℕ) (d : Buckets)
    → Distinct d
    → Distinct (prune_bucket id events kept n d).0
prune_bucket-Distinct id events [] n d h = pop-Distinct id d h
prune_bucket-Distinct id events (e ∷ kept) n d h = insert-Distinct id (e ∷ kept) d h

get-prune_buckets :
    (cutoff : ℕ) (j : String) (items : Buckets) (d : Buckets) (n : ℕ)
    → Distinct items
    → Dict.get j (prune_buckets cutoff items (d, n)).0
      ≡ pruned cutoff (Dict.get j items) (Dict.get j d)
unfolding prune_buckets Dict.get
get-prune_buckets cutoff j [] d n h = refl
get-prune_buckets cutoff j ((id, events) ∷ items) d n h =
    let kept = keep (checked_since cutoff) events in
    let (d', n') = prune_bucket id events kept n d in
    ground (
      arith,
      get-prune_buckets cutoff j items d' n' h.1,
      get-prune_bucket id j events kept n d,
      eq_iff id j,
      h.0,
    )

prune_buckets-Distinct :
    (cutoff : ℕ) (items d : Buckets) (n : ℕ)
    → Distinct d
    → Distinct (prune_buckets cutoff items (d, n)).0
unfolding prune_buckets
prune_buckets-Distinct cutoff [] d n h = h
prune_buckets-Distinct cutoff ((id, events) ∷ items) d n h =
    let kept = keep (checked_since cutoff) events in
    let (d', n') = prune_bucket id events kept n d in
    prune_buckets-Distinct cutoff items d' n' (prune_bucket-Distinct id events kept n d h)

-- The events before the cutoff, counted.
abbrev pub stale : ℕ → List (List NodeHealthEvent) → ℕ
stale cutoff [] = 0
stale cutoff (events ∷ rest) =
    length (keep (λ e. not (checked_since cutoff e)) events) + stale cutoff rest

prune_bucket_count :
    (cutoff : ℕ) (id : String) (events kept : List NodeHealthEvent) (n : ℕ) (d : Buckets)
    → (prune_bucket id events kept n d).1 ≡ n + (length events - length kept)
prune_bucket_count cutoff id events [] n d = omega arith
prune_bucket_count cutoff id events (e ∷ kept) n d = refl

prune_buckets_count :
    (cutoff : ℕ) (items d : Buckets) (n : ℕ)
    → (prune_buckets cutoff items (d, n)).1 ≡ n + stale cutoff (Dict.values items)
unfolding prune_buckets Dict.values
prune_buckets_count cutoff [] d n = omega arith
prune_buckets_count cutoff ((id, events) ∷ items) d n =
    let kept = keep (checked_since cutoff) events in
    let (d', n') = prune_bucket id events kept n d in
    omega (
      arith,
      prune_buckets_count cutoff items d' n',
      prune_bucket_count cutoff id events kept n d,
      length-keep-not (checked_since cutoff) events,
    )

-- What `prune_node_health_events` has done.
pub record Prunes (cutoff deleted : ℕ) (before after : Repo) : Type 0 where
  pub kept :
      (id : String)
      → Dict.get id after.health_events_by_node_id
        ≡ nonempty (keep (checked_since cutoff) (bucket_of id before))
  pub distinct : Distinct after.health_events_by_node_id
  pub counted : deleted ≡ stale cutoff (Dict.values before.health_events_by_node_id)

pruned_bucket :
    (cutoff : ℕ) (o : Option (List NodeHealthEvent))
    → pruned cutoff o o ≡ nonempty (keep (checked_since cutoff) (or_else o []))
pruned_bucket cutoff none = refl
pruned_bucket cutoff (some events) = refl

-- Where no node stands twice, `prune_node_health_events` leaves each node exactly its events from
-- the cutoff on, in their order, and no empty list, and returns the number of the others.
pub prune_node_health_events-Prunes :
    (cutoff : ℕ) (r : Repo)
    → Distinct r.health_events_by_node_id
    → Prunes cutoff (prune_node_health_events cutoff r).0 r (prune_node_health_events cutoff r).1
unfolding prune_node_health_events
prune_node_health_events-Prunes cutoff r h =
    let d = r.health_events_by_node_id in
    record {
      kept = λ id. get-prune_buckets cutoff id d d 0 h ∙ pruned_bucket cutoff (Dict.get id d);
      distinct = prune_buckets-Distinct cutoff d d 0 h;
      counted = omega (arith, prune_buckets_count cutoff d d 0);
    }

count_events_lem :
    (events : List NodeHealthEvent) (c : Counts)
    → count_events events c ≡ record {
      success = c.success + length (keep (λ e. not (has_error e)) events);
      failure = c.failure + length (keep has_error events);
    }
unfolding count_events
count_events_lem [] c = ground arith
count_events_lem (e ∷ es) c = ground (
  arith,
  count_events_lem es (record c { failure = c.failure + 1 }),
  count_events_lem es (record c { success = c.success + 1 }),
)

-- The events with and without an error, over all nodes.
abbrev pub failures : List (List NodeHealthEvent) → ℕ
failures [] = 0
failures (events ∷ rest) = length (keep has_error events) + failures rest

abbrev pub total : List (List NodeHealthEvent) → ℕ
total [] = 0
total (events ∷ rest) = length events + total rest

count_buckets_lem :
    (bs : List (List NodeHealthEvent)) (c : Counts)
    → ((count_buckets bs c).failure ≡ c.failure + failures bs)
      × ((count_buckets bs c).success + (count_buckets bs c).failure
          ≡ c.success + c.failure + total bs)
unfolding count_buckets
count_buckets_lem [] c = omega arith
count_buckets_lem (events ∷ bs) c = ground (
  arith,
  count_buckets_lem bs (count_events events c),
  count_events_lem events c,
  length-keep-not has_error events,
)

-- `count_node_health_events_by_result` counts as failures exactly the events that have an error,
-- and every other event as a success.
count_node_health_events_by_result_lem :
    (r : Repo)
    → let c = count_node_health_events_by_result r in
      let events = Dict.values r.health_events_by_node_id in
      (c.failure ≡ failures events) × (c.success + c.failure ≡ total events)
unfolding count_node_health_events_by_result
count_node_health_events_by_result_lem r = omega (
  arith,
  count_buckets_lem (Dict.values r.health_events_by_node_id) (record { success = 0; failure = 0 }),
)
