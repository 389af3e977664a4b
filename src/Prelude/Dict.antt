-- ===== src/Prelude/Dict.antt =====
-- A Python dict with text keys: an association list in insertion order.
use vpp_wl_mobile.Prelude.Tests.{if◌then◌else◌}
use Prim.Native.String.{String}
use mathlib.Core.Path.{◌≡◌, refl, sym}
use mathlib.Core.Logic.{◌≢◌}
use mathlib.Core.Bool.{false}
use mathlib.Core.Option.{Option, none, some}
use mathlib.Core.List.{List, [], ◌∷◌}
use native.Mathlib.Omega.{arith}
use text.Mathlib.Text.{◌==◌}
use text.Mathlib.TextEquality.{eq_iff}
use text.Mathlib.TextPositions.{eq_refl}

abbrev pub Dict {ℓ} : Type ℓ → Type ℓ
Dict V = List (String × V)

module _ {ℓ} {V : Type ℓ} where
  -- `d.get(k)`
  unfoldable pub get : String → Dict V → Option V
  get k [] = none
  get k ((j, v) ∷ d) = if j == k then some v else get k d

  -- `d[k] = v`: in place for a key that is there, at the end for a new one.
  unfoldable pub insert : String → V → Dict V → Dict V
  insert k v [] = (k, v) ∷ []
  insert k v ((j, w) ∷ d) = if j == k then (j, v) ∷ d else (j, w) ∷ insert k v d

  -- `d.pop(k, None)`, which leaves this dict; with keys that are not repeated at most one goes.
  unfoldable pub pop : String → Dict V → Dict V
  pop k [] = []
  pop k ((j, w) ∷ d) = if j == k then pop k d else (j, w) ∷ pop k d

  unfoldable pub values : Dict V → List V
  values [] = []
  values ((j, w) ∷ d) = w ∷ values d

  pub get-insert :
      (k j : String) (v : V) (d : Dict V)
      → get j (insert k v d) ≡ (if k == j then some v else get j d)
  unfolding get insert
  get-insert k j v [] = refl
  get-insert k j v ((i, w) ∷ d) =
      ground (arith, eq_iff k j, eq_iff i k, eq_iff i j, get-insert k j v d)

  pub get-pop : (k j : String) (d : Dict V) → get j (pop k d) ≡ (if k == j then none else get j d)
  unfolding get pop
  get-pop k j [] = ground arith
  get-pop k j ((i, w) ∷ d) = ground (arith, eq_iff k j, eq_iff i k, eq_iff i j, get-pop k j d)

  pub get-empty : (k : String) → get k [] ≡ none
  unfolding get
  get-empty k = refl

  pub get-insert_self : (k : String) (v : V) (d : Dict V) → get k (insert k v d) ≡ some v
  get-insert_self k v d = simp (get-insert, eq_refl)

-- Two different texts compare unequal.
pub eq-false : (k j : String) → k ≢ j → (k == j) ≡ false
eq-false k j h = ground (arith, eq_iff k j)

module _ {ℓ} {V : Type ℓ} where
  pub get-insert_ne : (k j : String) (v : V) (d : Dict V) → j ≢ k → get j (insert k v d) ≡ get j d
  get-insert_ne k j v d h = rw get-insert (rw (eq-false k j (λ e. h (sym e))))

  pub get-pop_ne : (k j : String) (d : Dict V) → j ≢ k → get j (pop k d) ≡ get j d
  get-pop_ne k j d h = rw get-pop (rw (eq-false k j (λ e. h (sym e))))

pub ruleset dict_laws = (get-empty, get-insert, get-pop, eq_refl)

module _ {ℓ} {V : Type ℓ} where
  -- No key stands twice, as in every dict.
  abbrev pub Distinct : Dict V → Type ℓ
  Distinct [] = Unit
  Distinct ((k, v) ∷ d) = (get k d ≡ none) × Distinct d

  pub insert-Distinct : (k : String) (v : V) (d : Dict V) → Distinct d → Distinct (insert k v d)
  unfolding insert get
  insert-Distinct k v [] h = (refl, tt)
  insert-Distinct k v ((j, w) ∷ d) h =
      ground (arith, eq_iff j k, eq_iff k j, get-insert k j v d, insert-Distinct k v d h.1)

  pub pop-Distinct : (k : String) (d : Dict V) → Distinct d → Distinct (pop k d)
  unfolding pop
  pop-Distinct k [] h = tt
  pop-Distinct k ((j, w) ∷ d) h = ground (arith, get-pop k j d, eq_iff k j, pop-Distinct k d h.1)
