-- ===== src/Prelude/Sort.antt =====
-- Python's `sorted(xs, key=...)`: a stable sort, as insertion from the right. `before a b` says that
-- the key of `a` is strictly below that of `b`.
use vpp_wl_mobile.Prelude.{refl}
use mathlib.Core.List.Perm
use vpp_wl_mobile.Prelude.Tests.{if◌then◌else◌, Bool-cases}
use vpp_wl_mobile.Prelude.Lists.{All, All-drop, length, take, drop}
use vpp_wl_mobile.Prelude.Order.{IsOrder}
use mathlib.Core.Path.{◌≡◌}
use mathlib.Core.Bool.{Bool, false}
use mathlib.Core.List.{List, [], ◌∷◌, Perm}
use native.Mathlib.Omega.{arith}
use Prim.Native.Nat.{ℕ, suc, zero}
use mathlib.Core.Logic.{inl, inr}

module _ {ℓ} {A : Type ℓ} (before : A → A → Bool) where
  -- An element goes before the first one that is not strictly below it.
  unfoldable pub insert_sorted : A → List A → List A
  insert_sorted x [] = x ∷ []
  insert_sorted x (y ∷ ys) = if before y x then y ∷ insert_sorted x ys else x ∷ y ∷ ys

  unfoldable pub sorted : List A → List A
  unfolding insert_sorted
  sorted [] = []
  sorted (x ∷ xs) = insert_sorted x (sorted xs)

  -- No element has a key below that of one that stands before it.
  abbrev pub IsSorted : List A → Type 0
  IsSorted [] = Unit
  IsSorted (x ∷ xs) = All (λ y. before y x ≡ false) xs × IsSorted xs

  pub insert_sorted-All {κ} :
      (P : A → Type κ) (x : A) (ys : List A) → P x → All P ys → All P (insert_sorted x ys)
  unfolding insert_sorted
  insert_sorted-All P x [] p h = (p, tt)
  insert_sorted-All P x (y ∷ ys) p h = elim (Bool-cases (before y x)) [
    | inl e ↦ rw e (h.0, insert_sorted-All P x ys p h.1)
    | inr e ↦ rw e (p, h)
  ]

  pub sorted-All {κ} : (P : A → Type κ) (xs : List A) → All P xs → All P (sorted xs)
  unfolding sorted
  sorted-All P [] h = tt
  sorted-All P (x ∷ xs) h = insert_sorted-All P x (sorted xs) h.0 (sorted-All P xs h.1)

  insert_sorted-Perm : (x : A) (ys : List A) → Perm (insert_sorted x ys) (x ∷ ys)
  unfolding insert_sorted
  insert_sorted-Perm x [] = Perm.refl (x ∷ [])
  insert_sorted-Perm x (y ∷ ys) = elim (Bool-cases (before y x)) [
    | inl e ↦ rw e (Perm.trans (Perm.cons y (insert_sorted-Perm x ys)) (Perm.swap x y ys))
    | inr e ↦ rw e (Perm.refl (x ∷ y ∷ ys))
  ]

  pub sorted-Perm : (xs : List A) → Perm (sorted xs) xs
  unfolding sorted
  sorted-Perm [] = Perm.refl []
  sorted-Perm (x ∷ xs) =
      Perm.trans (insert_sorted-Perm x (sorted xs)) (Perm.cons x (sorted-Perm xs))

  length-insert_sorted : (x : A) (ys : List A) → length (insert_sorted x ys) ≡ suc (length ys)
  unfolding insert_sorted
  length-insert_sorted x [] = refl
  length-insert_sorted x (y ∷ ys) = ground (arith, length-insert_sorted x ys)

  pub length-sorted : (xs : List A) → length (sorted xs) ≡ length xs
  unfolding sorted
  length-sorted [] = refl
  length-sorted (x ∷ xs) = omega (arith, length-insert_sorted x (sorted xs), length-sorted xs)

  -- What stands behind a cut has no key below one before it.
  pub IsSorted-cut :
      (n : ℕ) (xs : List A)
      → IsSorted xs
      → All (λ x. All (λ y. before y x ≡ false) (drop n xs)) (take n xs)
  IsSorted-cut zero xs h = tt
  IsSorted-cut (suc n) [] h = tt
  IsSorted-cut (suc n) (x ∷ xs) h =
      (All-drop (λ y. before y x ≡ false) n xs h.0, IsSorted-cut n xs h.1)

  module _ (order : IsOrder before) where
    weaken :
        (x y : A) (ys : List A)
        → before y x ≡ false
        → All (λ z. before z y ≡ false) ys
        → All (λ z. before z x ≡ false) ys
    weaken x y [] e h = tt
    weaken x y (z ∷ zs) e h = (order.negtrans x y z e h.0, weaken x y zs e h.1)

    insert_sorted-IsSorted : (x : A) (ys : List A) → IsSorted ys → IsSorted (insert_sorted x ys)
    unfolding insert_sorted
    insert_sorted-IsSorted x [] h = (tt, tt)
    insert_sorted-IsSorted x (y ∷ ys) h = elim (Bool-cases (before y x)) [
      | inl e ↦ rw e (
        insert_sorted-All (λ z. before z y ≡ false) x ys (order.asym y x e) h.0,
        insert_sorted-IsSorted x ys h.1,
      )
      | inr e ↦ rw e ((e, weaken x y ys e h.0), h)
    ]

    pub sorted-IsSorted : (xs : List A) → IsSorted (sorted xs)
    unfolding sorted
    sorted-IsSorted [] = tt
    sorted-IsSorted (x ∷ xs) = insert_sorted-IsSorted x (sorted xs) (sorted-IsSorted xs)
