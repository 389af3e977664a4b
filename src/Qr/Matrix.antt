-- ===== src/Qr/Matrix.antt =====
-- The drawing of backend/app/domain/qr_svg.py: the modules of the symbol, the places that hold no
-- data, and the order in which the data is written.
pub mod Cells
pub mod Path
pub mod ReadBack
use vpp_wl_mobile.Prelude.{
  ℕ, zero, suc, ◌+◌, ◌-◌, ◌/◌, ◌%◌, max, Bool, true, false, not, ◌&&◌, ◌||◌, List, [], ◌∷◌, ◌++◌,
  map, ltb, leb, eqb, if◌then◌else◌, replicate, drop,
}
use Prim.Native.Nat.{◌^◌}

abbrev pub size : ℕ
size = 37

-- A list of rows, so that the module (x, y) is entry x of row y.
abbrev pub Grid : Type 0
Grid = List (List Bool)

-- The two grids that the drawing functions change.
pub record Symbol : Type 0 where
  pub matrix : Grid
  pub reserved : Grid

-- `cells[x] = value`
unfoldable pub set_at : {A : Type 0} → ℕ → A → List A → List A
set_at x value [] = []
set_at zero value (a ∷ cells) = value ∷ cells
set_at (suc x) value (a ∷ cells) = a ∷ set_at x value cells

-- `grid[y][x] = value`
unfoldable pub set_cell : ℕ → ℕ → Bool → Grid → Grid
unfolding set_at
set_cell x y value [] = []
set_cell x zero value (row ∷ rows) = set_at x value row ∷ rows
set_cell x (suc y) value (row ∷ rows) = row ∷ set_cell x y value rows

-- `cells[x]`; the code never reads outside the grid.
unfoldable pub entry : ℕ → List Bool → Bool
entry x [] = false
entry zero (a ∷ cells) = a
entry (suc x) (a ∷ cells) = entry x cells

-- `grid[y][x]`
unfoldable pub cell : ℕ → ℕ → Grid → Bool
unfolding entry
cell x y [] = false
cell x zero (row ∷ rows) = entry x row
cell x (suc y) (row ∷ rows) = cell x y rows

-- `range(first, first + n)`
unfoldable pub range : ℕ → ℕ → List ℕ
range first zero = []
range first (suc n) = first ∷ range (first + 1) n

-- `range(n - 1, -1, -1)`
unfoldable pub countdown : ℕ → List ℕ
countdown zero = []
countdown (suc n) = n ∷ countdown n

-- `for a in rest: ...`
unfoldable pub for_each : {A S : Type 0} → (A → S → S) → List A → S → S
for_each step [] s = s
for_each step (a ∷ rest) s = for_each step rest (step a s)

-- `_empty_matrix`
unfoldable pub empty_matrix : Symbol
empty_matrix =
    let grid = replicate size (replicate size false) in record { matrix = grid; reserved = grid }

unfoldable pub reserve : ℕ → ℕ → Symbol → Symbol
unfolding set_cell
reserve x y s = record { matrix = s.matrix; reserved = set_cell x y true s.reserved }

-- `_set`
unfoldable pub set_module : ℕ → ℕ → Bool → Symbol → Symbol
unfolding set_cell
set_module x y value s =
    if ltb x size && ltb y size
    then (record { matrix = set_cell x y value s.matrix; reserved = set_cell x y true s.reserved })
    else s

-- The body of the loops of `_draw_finder`, where `ex` is dx + 1 and `ey` is dy + 1.
unfoldable pub finder_value : ℕ → ℕ → Bool
finder_value ex ey =
    leb 1 ex
    && leb ex 7
    && leb 1 ey
    && leb ey 7
    && ((eqb ex 1 || eqb ex 7)
        || (eqb ey 1 || eqb ey 7)
        || (leb 3 ex && leb ex 5 && leb 3 ey && leb ey 5))

unfoldable pub finder_module : ℕ → ℕ → ℕ → ℕ → Symbol → Symbol
unfolding finder_value set_module
finder_module x y ey ex s =
    if leb 1 (x + ex) && ltb (x + ex - 1) size && (leb 1 (y + ey) && ltb (y + ey - 1) size)
    then set_module (x + ex - 1) (y + ey - 1) (finder_value ex ey) s
    else s

-- `_draw_finder`
unfoldable pub draw_finder : ℕ → ℕ → Symbol → Symbol
unfolding for_each finder_module range
draw_finder x y = for_each (λ ey. for_each (finder_module x y ey) (range 0 9)) (range 0 9)

-- `max(abs(dx), abs(dy))`, where `ex` is dx + 2 and `ey` is dy + 2.
unfoldable pub distance : ℕ → ℕ → ℕ
distance ex ey = max (max (ex - 2) (2 - ex)) (max (ey - 2) (2 - ey))

unfoldable pub alignment_module : ℕ → ℕ → ℕ → ℕ → Symbol → Symbol
unfolding distance set_module
alignment_module cx cy ey ex =
    set_module (cx + ex - 2) (cy + ey - 2) (eqb (distance ex ey) 0 || eqb (distance ex ey) 2)

-- `_draw_alignment`
unfoldable pub draw_alignment : ℕ → ℕ → Symbol → Symbol
unfolding for_each alignment_module range
draw_alignment cx cy = for_each (λ ey. for_each (alignment_module cx cy ey) (range 0 5)) (range 0 5)

unfoldable pub timing_modules : ℕ → Symbol → Symbol
unfolding set_module
timing_modules i s = set_module 6 i (eqb (i % 2) 0) (set_module i 6 (eqb (i % 2) 0) s)

unfoldable pub reserve_format : ℕ → Symbol → Symbol
unfolding reserve
reserve_format i s =
    if eqb i 6
    then s
    else reserve 8 (size - 1 - i) (reserve (size - 1 - i) 8 (reserve 8 i (reserve i 8 s)))

-- `_draw_patterns`
unfoldable pub draw_patterns : Symbol → Symbol
unfolding draw_finder for_each timing_modules range draw_alignment set_module reserve_format
draw_patterns s =
    let finders = draw_finder 0 (size - 7) (draw_finder (size - 7) 0 (draw_finder 0 0 s)) in
    let timing = for_each timing_modules (range 8 (size - 8 - 8)) finders in
    for_each reserve_format (range 0 9) (set_module 8 (size - 8) true (draw_alignment 30 30 timing))

-- `_mask_0`
unfoldable pub mask_0 : ℕ → ℕ → Bool
mask_0 x y = eqb ((x + y) % 2) 0

-- `bits[bit_index] == 1 if bit_index < len(bits) else False`, where the bits from `bit_index` on are
-- kept in its place.
unfoldable pub next_bit : List ℕ → Bool
next_bit [] = false
next_bit (b ∷ bits) = eqb b 1

unfoldable pub mask_if : Bool → Bool → Bool
mask_if mask value = if mask then not value else value

-- The body of the innermost loop of `_draw_data`.
unfoldable pub data_module : ℕ × ℕ → Symbol × List ℕ → Symbol × List ℕ
unfolding cell set_cell mask_if mask_0 next_bit
data_module (x, y) (s, bits) = if cell x y s.reserved then (s, bits) else (
  record {
    matrix = set_cell x y (mask_if (mask_0 x y) (next_bit bits)) s.matrix;
    reserved = s.reserved;
  },
  drop 1 bits,
)

-- `range(SIZE - 1, -1, -1) if upward else range(SIZE)`
unfoldable pub rows : Bool → List ℕ
unfolding range countdown
rows upward = if upward then countdown size else range 0 size

unfoldable pub draw_column : ℕ → Bool → Symbol × List ℕ → Symbol × List ℕ
unfolding for_each data_module rows
draw_column x upward = for_each (λ y s. data_module (x - 1, y) (data_module (x, y) s)) (rows upward)

unfoldable pub skip_timing : ℕ → ℕ
skip_timing x = if eqb x 6 then x - 1 else x

-- The while loop of `_draw_data`; `x` falls by two each round, so `x` rounds are enough.
unfoldable pub draw_columns : ℕ → ℕ → Bool → Symbol × List ℕ → Symbol × List ℕ
unfolding draw_column skip_timing
draw_columns zero x upward s = s
draw_columns (suc fuel) x upward s =
    let x' = skip_timing x in
    let rest = draw_columns fuel (x' - 2) (not upward) (draw_column x' upward s) in
    if leb 1 x then rest else s

-- `_draw_data`
unfoldable pub draw_data : Symbol → List ℕ → Symbol
unfolding draw_columns
draw_data s bits = (draw_columns size (size - 1) true (s, bits)).0

unfoldable pub coords_1 : List (ℕ × ℕ)
unfolding range countdown
coords_1 =
    map (λ i. (8, i)) (range 0 6)
    ++ ((8, 7) ∷ (8, 8) ∷ (7, 8) ∷ [])
    ++ map (λ i. (i, 8)) (countdown 6)

unfoldable pub coords_2 : List (ℕ × ℕ)
unfolding range
coords_2 = map (λ i. (size - 1 - i, 8)) (range 0 8) ++ map (λ i. (8, size - 7 + i)) (range 0 7)

unfoldable pub format_bits : List Bool
unfolding countdown
format_bits = map (λ i. eqb (0x77C4 / 2 ^ i % 2) 1) (countdown 15)

-- `for (x, y), value in zip(coords, bits): _set(matrix, reserved, x, y, value)`
unfoldable pub set_modules : List (ℕ × ℕ) → List Bool → Symbol → Symbol
unfolding set_module
set_modules ((x, y) ∷ coords) (value ∷ bits) s = set_modules coords bits (set_module x y value s)
set_modules coords bits s = s

-- `_draw_format_bits`
unfoldable pub draw_format_bits : Symbol → Symbol
unfolding set_modules coords_1 coords_2 format_bits
draw_format_bits s = set_modules coords_2 format_bits (set_modules coords_1 format_bits s)
