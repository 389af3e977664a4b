-- ===== src/RateLimit/Window.antt =====
-- The sliding window of `allow`: how many requests it lets through, and which it turns away.
use vpp_wl_mobile.Prelude.{
  ltb, true, eq_refl, eq_iff, ◌⊎◌, inr, ◌==◌, if◌then◌else◌, inl, String, Bool-cases, ℕ, ◌≤◌, ◌<◌,
  ◌≡◌, refl, sym, ◌∙◌, false, ◌&&◌, List, [], ◌∷◌, ◌++◌, arith, length,
}
use vpp_wl_mobile.Prelude.Dict
use vpp_wl_mobile.Prelude.Int.{pos}
use vpp_wl_mobile.Prelude.Dict.{get-insert}
use vpp_wl_mobile.RateLimit.{served, RateLimiter, drop_expired, bucket_of, store, allow, accepted}
use vpp_wl_mobile.RateLimit.Tracking.{
  live, in_window, length-drop_expired, Tracks, Tracks-later, Tracks-other, Tracks-accepted,
}

-- The two ends of `allow` when the limit is positive.
pub allow-cases :
    (limit now : ℕ) (k : String) (l : RateLimiter)
    → l.limit_per_minute ≡ pos limit
    → 0 < limit
    → let b = drop_expired now (bucket_of k l) in
      ((allow k now l ≡ (false, store k b l)) × (limit ≤ length b))
      ⊎ ((allow k now l ≡ (true, store k (b ++ now ∷ []) l)) × (length b < limit))
unfolding allow
allow-cases limit now k l e positive = ground arith

bucket_of-store_self : (k : String) (b : List ℕ) (l : RateLimiter) → bucket_of k (store k b l) ≡ b
bucket_of-store_self k b l = rw (Dict.get-insert_self k b l.buckets)

bucket_of-store_ne :
    (k j : String) (b : List ℕ) (l : RateLimiter)
    → (k == j) ≡ false
    → bucket_of j (store k b l) ≡ bucket_of j l
bucket_of-store_ne k j b l ne = rw get-insert (rw ne)

module _ (limit : ℕ) (key : String) where
  abbrev Follows : ℕ → RateLimiter → List ℕ → Type 0
  Follows last l hist = Tracks limit last (bucket_of key l) hist × (l.limit_per_minute ≡ pos limit)

  -- A request of this key.
  own_step :
      (last now : ℕ) (l : RateLimiter) (hist : List ℕ)
      → 0 < limit
      → last ≤ now
      → Follows last l hist
      → let (ok, l') = allow key now l in Follows now l' (if ok then now ∷ hist else hist)
  own_step last now l hist positive h (tr, e) = elim (allow-cases limit now key l e positive) [
    | inl (run, full) ↦
        rw run
          (rw bucket_of-store_self (Tracks-later limit last now (bucket_of key l) hist tr h), e)
    | inr (run, free) ↦ rw run (
      rw bucket_of-store_self (Tracks-accepted limit last now (bucket_of key l) hist tr h free),
      e,
    )
  ]

  other_step :
      (k : String) (last now : ℕ) (l : RateLimiter) (hist : List ℕ)
      → (k == key) ≡ false
      → 0 < limit
      → last ≤ now
      → Follows last l hist
      → Follows now (allow k now l).1 hist
  other_step k last now l hist ne positive h (tr, e) = elim (allow-cases limit now k l e positive) [
    | inl (run, _) ↦ rw run (
      rw (bucket_of-store_ne k key _ l ne)
          (Tracks-other limit last now (bucket_of key l) hist tr h),
      e,
    )
    | inr (run, _) ↦ rw run (
      rw (bucket_of-store_ne k key _ l ne)
          (Tracks-other limit last now (bucket_of key l) hist tr h),
      e,
    )
  ]

  step :
      (k : String) (last now : ℕ) (l : RateLimiter) (hist : List ℕ)
      → 0 < limit
      → last ≤ now
      → Follows last l hist
      → let (ok, l') = allow k now l in
        Follows now l' (if (k == key) && ok then now ∷ hist else hist)
  step k last now l hist positive h f = elim (Bool-cases (k == key)) [
    | inl same ↦ rw ((eq_iff k key).0 same) (rw eq_refl (own_step last now l hist positive h f))
    | inr ne ↦ rw ne (other_step k last now l hist ne positive h f)
  ]

  -- The clock reads do not go back.
  abbrev pub Monotone : ℕ → List (String × ℕ) → Type 0
  Monotone last [] = Unit
  Monotone last ((k, now) ∷ requests) = (last ≤ now) × Monotone now requests

  -- The last clock read of the requests.
  abbrev pub last_read : ℕ → List (String × ℕ) → ℕ
  last_read last [] = last
  last_read last ((k, now) ∷ requests) = last_read now requests

  run_Follows :
      (requests : List (String × ℕ)) (last : ℕ) (l : RateLimiter) (hist : List ℕ)
      → 0 < limit
      → Monotone last requests
      → Follows last l hist
      → Follows (last_read last requests) (served l requests) (accepted key l requests hist)
  unfolding accepted served
  run_Follows [] last l hist positive mono f = f
  run_Follows ((k, now) ∷ requests) last l hist positive mono f =
      let (ok, l') = allow k now l in
      run_Follows requests now l' (if (k == key) && ok then now ∷ hist else hist) positive mono.1
        (step k last now l hist positive mono.0 f)

  abbrev pub new_limiter : RateLimiter
  new_limiter = record { limit_per_minute = pos limit; buckets = [] }

  start_Follows : Follows 0 new_limiter []
  start_Follows = rw Dict.get-empty (
    record { same = λ t h. refl; ordered = tt; past = tt; old = tt; bounded = λ t. omega arith },
    refl,
  )

  -- From a new limiter with a positive limit, whatever requests of whatever keys come while the
  -- clock does not go back: in no minute are more requests of a key let through than the limit.
  pub accepted-bounded :
      (requests : List (String × ℕ))
      → 0 < limit
      → Monotone 0 requests
      → (t : ℕ) → length (in_window t (accepted key new_limiter requests [])) ≤ limit
  accepted-bounded requests positive mono =
      (run_Follows requests 0 new_limiter [] positive mono start_Follows).0.bounded

  -- After such requests, the next request of a key, at a clock read that does not go back, is let
  -- through exactly if fewer requests of the key than the limit were let through in the minute
  -- before it: no request is turned away too early.
  pub allow-exact :
      (requests : List (String × ℕ)) (now : ℕ)
      → 0 < limit
      → Monotone 0 requests
      → last_read 0 requests ≤ now
      → (allow key now (served new_limiter requests)).0
        ≡ ltb (length (live now (accepted key new_limiter requests []))) limit
  allow-exact requests now positive mono h =
      let l = served new_limiter requests in
      let (tr, e) = run_Follows requests 0 new_limiter [] positive mono start_Follows in
      let count : length (live now (accepted key new_limiter requests []))
          ≡ length (drop_expired now (bucket_of key l)) =
        tr.same now h ∙ sym (length-drop_expired now (bucket_of key l) tr.ordered) in
      elim (allow-cases limit now key l e positive) [
        | inl (run, full) ↦ rw run (ground arith)
        | inr (run, free) ↦ rw run (ground arith)
      ]
