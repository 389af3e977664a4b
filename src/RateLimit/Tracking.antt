-- ===== src/RateLimit/Tracking.antt =====
-- How the bucket of a key in backend/app/api/rate_limit.py stands to the requests that were let
-- through.
use vpp_wl_mobile.Prelude.{
  inr, leb→le, inl, length-keep-le, Bool-cases, ℕ, ◌≤◌, ◌<◌, ◌≡◌, refl, sym, ap, ◌∙◌, false, not,
  ◌&&◌, List, [], ◌∷◌, ◌++◌, arith, leb, length, keep, All, All-append,
}
use vpp_wl_mobile.RateLimit.{is_expired, drop_expired}

-- The entries that are not expired at `t`.
abbrev pub live : ℕ → List ℕ → List ℕ
live t xs = keep (λ a. not (is_expired t a)) xs

-- The entries of the minute that ends at `t`.
abbrev pub in_window : ℕ → List ℕ → List ℕ
in_window t xs = keep (λ a. not (is_expired t a) && leb a t) xs

live-drop_expired : (now t : ℕ) (xs : List ℕ) → now ≤ t → live t (drop_expired now xs) ≡ live t xs
unfolding drop_expired
live-drop_expired now t [] h = refl
live-drop_expired now t (x ∷ xs) h = ground (arith, live-drop_expired now t xs h)

length-live-append :
    (t a : ℕ) (xs : List ℕ) → length (live t (xs ++ a ∷ [])) ≡ length (live t (a ∷ xs))
length-live-append t a [] = refl
length-live-append t a (x ∷ xs) = ground (arith, length-live-append t a xs)

-- The oldest entry stands first.
abbrev pub Ascending : List ℕ → Type 0
Ascending [] = Unit
Ascending (x ∷ xs) = All (λ y. x ≤ y) xs × Ascending xs

All-live :
    (t x : ℕ) (xs : List ℕ)
    → is_expired t x ≡ false
    → All (λ y. x ≤ y) xs
    → length (live t xs) ≡ length xs
All-live t x [] e h = refl
All-live t x (y ∷ xs) e h = ground (arith, All-live t x xs e h.1)

pub length-drop_expired :
    (now : ℕ) (xs : List ℕ) → Ascending xs → length (drop_expired now xs) ≡ length (live now xs)
unfolding drop_expired
length-drop_expired now [] h = refl
length-drop_expired now (x ∷ xs) h =
    ground (arith, length-drop_expired now xs h.1, All-live now x xs)

Ascending-drop_expired : (now : ℕ) (xs : List ℕ) → Ascending xs → Ascending (drop_expired now xs)
unfolding drop_expired
Ascending-drop_expired now [] h = tt
Ascending-drop_expired now (x ∷ xs) h = ground (arith, Ascending-drop_expired now xs h.1)

All-drop_expired :
    (now m : ℕ) (xs : List ℕ) → All (λ a. a ≤ m) xs → All (λ a. a ≤ m) (drop_expired now xs)
unfolding drop_expired
All-drop_expired now m [] h = tt
All-drop_expired now m (x ∷ xs) h = ground (arith, All-drop_expired now m xs h.1)

Ascending-append :
    (now : ℕ) (xs : List ℕ) → Ascending xs → All (λ a. a ≤ now) xs → Ascending (xs ++ now ∷ [])
Ascending-append now [] h k = (tt, tt)
Ascending-append now (x ∷ xs) h k =
    (All-append (λ y. x ≤ y) xs (now ∷ []) h.0 (k.0, tt), Ascending-append now xs h.1 k.1)

All-le_mono : (m n : ℕ) (xs : List ℕ) → m ≤ n → All (λ a. a ≤ m) xs → All (λ a. a ≤ n) xs
All-le_mono m n [] h k = tt
All-le_mono m n (x ∷ xs) h k = (omega arith, All-le_mono m n xs h k.1)

-- How the bucket of a key stands to the requests of the key that were let through, when the clock
-- reads so far are at most `last`.
pub record Tracks (limit last : ℕ) (bucket hist : List ℕ) : Type 0 where
  pub same : (t : ℕ) → last ≤ t → length (live t hist) ≡ length (live t bucket)
  pub ordered : Ascending bucket
  pub past : All (λ a. a ≤ last) bucket
  pub old : All (λ a. a ≤ last) hist
  pub bounded : (t : ℕ) → length (in_window t hist) ≤ limit

in_window-late :
    (t last : ℕ) (xs : List ℕ)
    → last ≤ t
    → All (λ a. a ≤ last) xs
    → length (in_window t xs) ≡ length (live t xs)
in_window-late t last [] h k = refl
in_window-late t last (x ∷ xs) h k = ground (arith, in_window-late t last xs h k.1)

module _ (limit last now : ℕ) (bucket hist : List ℕ) (tr : Tracks limit last bucket hist)
    (h : last ≤ now) where
  -- A request that is turned away, and one of another key.
  pub Tracks-later : Tracks limit now (drop_expired now bucket) hist
  Tracks-later = record {
    same = λ t le. tr.same t (omega arith) ∙ ap length (sym (live-drop_expired now t bucket le));
    ordered = Ascending-drop_expired now bucket tr.ordered;
    past = All-drop_expired now now bucket (All-le_mono last now bucket h tr.past);
    old = All-le_mono last now hist h tr.old;
    bounded = tr.bounded;
  }

  pub Tracks-other : Tracks limit now bucket hist
  Tracks-other = record {
    same = λ t le. tr.same t (omega arith);
    ordered = tr.ordered;
    past = All-le_mono last now bucket h tr.past;
    old = All-le_mono last now hist h tr.old;
    bounded = tr.bounded;
  }

  room :
      (t : ℕ)
      → now ≤ t
      → length (drop_expired now bucket) < limit
      → length (in_window t (now ∷ hist)) ≤ limit
  room t le free = ground (
    arith,
    in_window-late t last hist (omega arith) tr.old,
    tr.same t (omega arith),
    ap length (live-drop_expired now t bucket le),
    length-keep-le (λ a. not (is_expired t a)) (drop_expired now bucket),
  )

  -- A request that is let through.
  pub Tracks-accepted :
      length (drop_expired now bucket) < limit
      → Tracks limit now (drop_expired now bucket ++ now ∷ []) (now ∷ hist)
  Tracks-accepted free = record {
    same = λ t le.
        ground (arith, length-live-append t now (drop_expired now bucket), Tracks-later.same t le);
    ordered = Ascending-append now (drop_expired now bucket) Tracks-later.ordered Tracks-later.past;
    past =
        All-append (λ a. a ≤ now) (drop_expired now bucket) (now ∷ []) Tracks-later.past
          (omega arith, tt);
    old = (omega arith, Tracks-later.old);
    bounded = λ t. elim (Bool-cases (leb now t)) [
      | inl late ↦ room t (omega (arith, leb→le now t late)) free
      | inr early ↦ ground (arith, tr.bounded t)
    ];
  }
