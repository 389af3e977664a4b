-- ===== src/Qr/Matrix/Cells.antt =====
-- Reading a module after one is written.
use vpp_wl_mobile.Prelude.{
  eqb, Bool-cases, ℕ, zero, suc, ◌<◌, ◌≡◌, refl, ap, ◌∙◌, ◌≢◌, ◌⊎◌, inl, inr, Bool, List, [], ◌∷◌,
  arith, length, All,
}
use vpp_wl_mobile.Qr.Matrix.{Grid, cell, set_cell, set_at, entry, size}

abbrev IsRow : List Bool → Type 0
IsRow row = length row ≡ size

-- A grid of 37 rows of 37 modules.
abbrev pub IsGrid : Grid → Type 0
IsGrid m = (length m ≡ size) × All IsRow m

length-set_at : (x : ℕ) (v : Bool) (row : List Bool) → length (set_at x v row) ≡ length row
unfolding set_at
length-set_at x v [] = refl
length-set_at zero v (a ∷ row) = refl
length-set_at (suc x) v (a ∷ row) = ap suc (length-set_at x v row)

set_cell-rows :
    (x y : ℕ) (v : Bool) (m : Grid)
    → All IsRow m
    → (length (set_cell x y v m) ≡ length m) × All IsRow (set_cell x y v m)
unfolding set_cell
set_cell-rows x y v [] h = (refl, tt)
set_cell-rows x zero v (row ∷ m) h = (refl, (length-set_at x v row ∙ h.0, h.1))
set_cell-rows x (suc y) v (row ∷ m) h =
    let (len, rows) = set_cell-rows x y v m h.1 in (ap suc len, (h.0, rows))

pub set_cell-IsGrid : (x y : ℕ) (v : Bool) (m : Grid) → IsGrid m → IsGrid (set_cell x y v m)
set_cell-IsGrid x y v m h = let (len, rows) = set_cell-rows x y v m h.1 in (len ∙ h.0, rows)

entry-set_at : (x : ℕ) (v : Bool) (row : List Bool) → x < length row → entry x (set_at x v row) ≡ v
unfolding entry set_at
entry-set_at x v [] h = absurd (omega arith)
entry-set_at zero v (a ∷ row) h = refl
entry-set_at (suc x) v (a ∷ row) h = entry-set_at x v row (omega arith)

entry-set_at-other :
    (x x' : ℕ) (v : Bool) (row : List Bool) → x ≢ x' → entry x (set_at x' v row) ≡ entry x row
unfolding entry set_at
entry-set_at-other x x' v [] h = refl
entry-set_at-other zero zero v (a ∷ row) h = absurd (h refl)
entry-set_at-other zero (suc x') v (a ∷ row) h = refl
entry-set_at-other (suc x) zero v (a ∷ row) h = refl
entry-set_at-other (suc x) (suc x') v (a ∷ row) h =
    entry-set_at-other x x' v row (λ e. h (ap suc e))

cell-set_cell-rows :
    (x y : ℕ) (v : Bool) (m : Grid)
    → All IsRow m
    → x < size
    → y < length m
    → cell x y (set_cell x y v m) ≡ v
unfolding cell set_cell
cell-set_cell-rows x y v [] h hx hy = absurd (omega arith)
cell-set_cell-rows x zero v (row ∷ m) h hx hy = entry-set_at x v row (omega arith)
cell-set_cell-rows x (suc y) v (row ∷ m) h hx hy = cell-set_cell-rows x y v m h.1 hx (omega arith)

pub cell-set_cell :
    (x y : ℕ) (v : Bool) (m : Grid)
    → IsGrid m
    → x < size
    → y < size
    → cell x y (set_cell x y v m) ≡ v
cell-set_cell x y v m h hx hy = cell-set_cell-rows x y v m h.1 hx (omega arith)

pub cell-set_cell-other :
    (x y x' y' : ℕ) (v : Bool) (m : Grid)
    → ((x ≢ x') ⊎ (y ≢ y'))
    → cell x y (set_cell x' y' v m) ≡ cell x y m
unfolding cell set_cell
cell-set_cell-other x y x' y' v [] h = refl
cell-set_cell-other x zero x' zero v (row ∷ m) (inl h) = entry-set_at-other x x' v row h
cell-set_cell-other x zero x' zero v (row ∷ m) (inr h) = absurd (h refl)
cell-set_cell-other x zero x' (suc y') v (row ∷ m) h = refl
cell-set_cell-other x (suc y) x' zero v (row ∷ m) h = refl
cell-set_cell-other x (suc y) x' (suc y') v (row ∷ m) (inl h) =
    cell-set_cell-other x y x' y' v m (inl h)
cell-set_cell-other x (suc y) x' (suc y') v (row ∷ m) (inr h) =
    cell-set_cell-other x y x' y' v m (inr (λ e. h (ap suc e)))

-- Two places at which a function differs are different places.
pub differ : {A : Type 0} (f : ℕ → ℕ → A) (x y x' y' : ℕ) → f x y ≢ f x' y' → (x ≢ x') ⊎ (y ≢ y')
differ f x y x' y' h = elim (Bool-cases (eqb x x')) [
  | inr ne ↦ inl (λ e. ground arith)
  | inl e ↦ inr (λ e'. let e0 : x ≡ x' = ground arith in h (λ i. f (e0 i) (e' i)))
]
