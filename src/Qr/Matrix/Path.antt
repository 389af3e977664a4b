-- ===== src/Qr/Matrix/Path.antt =====
-- The order in which `_draw_data` visits the modules, and its writing as one pass over a list.
use vpp_wl_mobile.Prelude.{
  eqb, ◌*◌, ◌+◌, ◌%◌, ◌/◌, ◌<◌, ◌≤◌, ltb, ◌&&◌, arith, ℕ, zero, suc, ◌-◌, ◌≡◌, refl, sym, ap, ◌∙◌,
  Bool, true, false, not, List, [], ◌∷◌, ◌++◌, leb, if◌then◌else◌, drop,
}
use vpp_wl_mobile.Qr.Matrix.{
  size, Grid, Symbol, cell, set_cell, for_each, rows, data_module, draw_column, draw_columns,
  skip_timing, mask_0, mask_if, next_bit,
}

-- The order of the modules in `_draw_data`, written as one list.
unfoldable pub pairs : ℕ → List ℕ → List (ℕ × ℕ)
pairs x [] = []
pairs x (y ∷ ys) = (x, y) ∷ (x - 1, y) ∷ pairs x ys

unfoldable pub path : ℕ → ℕ → Bool → List (ℕ × ℕ)
unfolding pairs skip_timing rows
path zero x upward = []
path (suc fuel) x upward =
    let x' = skip_timing x in
    let rest = path fuel (x' - 2) (not upward) in
    if leb 1 x then pairs x' (rows upward) ++ rest else []

for_each-append :
    {A S : Type 0} (f : A → S → S) (xs ys : List A) (s : S)
    → for_each f (xs ++ ys) s ≡ for_each f ys (for_each f xs s)
unfolding for_each
for_each-append f [] ys s = refl
for_each-append f (x ∷ xs) ys s = for_each-append f xs ys (f x s)

for_each-pairs :
    (x : ℕ) (ys : List ℕ) (s : Symbol × List ℕ)
    → for_each (λ y t. data_module (x - 1, y) (data_module (x, y) t)) ys s
      ≡ for_each data_module (pairs x ys) s
unfolding for_each pairs
for_each-pairs x [] s = refl
for_each-pairs x (y ∷ ys) s = for_each-pairs x ys (data_module (x - 1, y) (data_module (x, y) s))

pub draw_columns-path :
    (fuel x : ℕ) (upward : Bool) (s : Symbol × List ℕ)
    → draw_columns fuel x upward s ≡ for_each data_module (path fuel x upward) s
unfolding draw_columns draw_column path for_each
draw_columns-path zero x upward s = refl
draw_columns-path (suc fuel) x upward s =
    let x' = skip_timing x in
    let here = pairs x' (rows upward) in
    let rest = path fuel (x' - 2) (not upward) in
    elim (leb 1 x)
      as (λ b.
        (if b then draw_columns fuel (x' - 2) (not upward) (draw_column x' upward s) else s)
        ≡ for_each data_module (if b then here ++ rest else []) s) [
          | true ↦
              draw_columns-path fuel (x' - 2) (not upward) (draw_column x' upward s)
              ∙ ap (for_each data_module rest) (for_each-pairs x' (rows upward) s)
              ∙ sym (for_each-append data_module here rest s)
          | false ↦ refl
        ]

-- The same writing, on the grid of the modules alone.
unfoldable pub write : Grid → List (ℕ × ℕ) → Grid → List ℕ → Grid
write reserved [] m bits = m
write reserved ((x, y) ∷ ps) m bits = elim (cell x y reserved) [
  | true ↦ write reserved ps m bits
  | false ↦ write reserved ps (set_cell x y (mask_if (mask_0 x y) (next_bit bits)) m) (drop 1 bits)
]

pub for_each-write :
    (ps : List (ℕ × ℕ)) (s : Symbol) (bits : List ℕ)
    → (for_each data_module ps (s, bits)).0
      ≡ record { matrix = write s.reserved ps s.matrix bits; reserved = s.reserved }
unfolding for_each data_module write
for_each-write [] s bits = refl
for_each-write ((x, y) ∷ ps) s bits =
    let written : Symbol = record {
      matrix = set_cell x y (mask_if (mask_0 x y) (next_bit bits)) s.matrix;
      reserved = s.reserved;
    } in
    elim (cell x y s.reserved)
      as (λ b.
        (for_each data_module ps (if b then (s, bits) else (written, drop 1 bits))).0 ≡ record {
          matrix = elim b [
            | true ↦ write s.reserved ps s.matrix bits
            | false ↦ write s.reserved ps written.matrix (drop 1 bits)
          ];
          reserved = s.reserved;
        }) [ true ↦ for_each-write ps s bits | false ↦ for_each-write ps written (drop 1 bits) ]

-- The place of a module in the order of `_draw_data`.
unfoldable pub rank : ℕ → ℕ → ℕ
rank x y =
    let k = if ltb 6 x then (36 - x) / 2 else (37 - x) / 2 - 1 in
    let left = if ltb 6 x then x % 2 else (x + 1) % 2 in
    k * 74 + (if eqb (k % 2) 0 then 36 - y else y) * 2 + left

-- The modules of a list stand in that order from place `n` on, and inside the grid.
unfoldable pub Above : ℕ → List (ℕ × ℕ) → Type 0
Above n [] = Unit
Above n ((x, y) ∷ ps) = (n ≤ rank x y) × (x < size) × (y < size) × Above (suc (rank x y)) ps

unfoldable pub above : ℕ → List (ℕ × ℕ) → Bool
unfolding rank
above n [] = true
above n ((x, y) ∷ ps) = leb n (rank x y) && ltb x size && ltb y size && above (suc (rank x y)) ps

pub above_sound : (n : ℕ) (ps : List (ℕ × ℕ)) → above n ps ≡ true → Above n ps
unfolding above Above
above_sound n [] h = tt
above_sound n ((x, y) ∷ ps) h =
    (ground arith, ground arith, ground arith, above_sound (suc (rank x y)) ps (ground arith))

abbrev pub full_path : List (ℕ × ℕ)
full_path = path size (size - 1) true

pub full_path-above : above 0 full_path ≡ true
unfolding above path
full_path-above = refl
