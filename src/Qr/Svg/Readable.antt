-- ===== src/Qr/Svg/Readable.antt =====
-- The message can be read from the modules of the symbol.
use vpp_wl_mobile.Prelude.{
  length-append, ◌∙◌, some, ℕ, zero, suc, ◌-◌, ◌≤◌, ◌≡◌, refl, ap, Bool, true, ◌&&◌, List, [], ◌∷◌,
  ◌++◌, map, arith, eqb, if◌then◌else◌, length, replicate, All,
}
use mathlib.Core.List.{append_assoc}
use vpp_wl_mobile.Qr.Codewords.{data_codewords, raw_bits}
use vpp_wl_mobile.Qr.Codewords.RoundTrip.{
  IsBit, raw_bits-append, raw_bits-IsBit, length-raw_bits, read_message,
  read_message-data_codewords,
}
use vpp_wl_mobile.Qr.Field.{reed_solomon_remainder}
use vpp_wl_mobile.Qr.Field.Evaluation.{IsByte}
use vpp_wl_mobile.Qr.Field.Division.{remainder-Fits}
use vpp_wl_mobile.Qr.Matrix.{
  Grid, Symbol, size, empty_matrix, draw_patterns, draw_data, cell, next_bit,
}
use vpp_wl_mobile.Qr.Matrix.Cells.{IsGrid}
use vpp_wl_mobile.Qr.Matrix.Path.{write, full_path, full_path-above, above_sound}
use vpp_wl_mobile.Qr.Matrix.ReadBack.{free, reading, next_bits, draw_data-write, reading-write}
use vpp_wl_mobile.Qr.Svg.{full_codewords, data_symbol}

abbrev bit_number : Bool → ℕ
bit_number b = if b then 1 else 0

-- The bits of the modules that hold data, in the order of `_draw_data`, without the mask.
unfoldable pub read_symbol : Symbol → List ℕ
unfolding free reading
read_symbol s = map (λ p. bit_number (reading s.matrix p)) (free s.reserved full_path)

abbrev blank : Symbol
blank = draw_patterns empty_matrix

are_rows : Grid → Bool
are_rows [] = true
are_rows (row ∷ m) = eqb (length row) size && are_rows m

are_rows_sound : (m : Grid) → are_rows m ≡ true → All (λ row. length row ≡ size) m
unfolding are_rows
are_rows_sound [] h = tt
are_rows_sound (row ∷ m) h = (ground arith, are_rows_sound m (ground arith))

blank-IsGrid : IsGrid blank.matrix
unfolding draw_patterns are_rows empty_matrix
blank-IsGrid = (refl, are_rows_sound blank.matrix refl)

-- There is room for 1,079 bits.
length-free : length (free blank.reserved full_path) ≡ 1_079
unfolding draw_patterns free empty_matrix vpp_wl_mobile.Qr.Matrix.Path.path cell
length-free = refl

next_bits-none : (n : ℕ) → map bit_number (next_bits n []) ≡ replicate n 0
unfolding next_bits next_bit
next_bits-none zero = refl
next_bits-none (suc n) = ap (λ l. 0 ∷ l) (next_bits-none n)

next_bits-bits :
    (n : ℕ) (bits : List ℕ)
    → All IsBit bits
    → length bits ≤ n
    → map bit_number (next_bits n bits) ≡ bits ++ replicate (n - length bits) 0
unfolding next_bits next_bit
next_bits-bits n [] h le =
    let e : n ≡ n - 0 = omega arith in next_bits-none n ∙ ap (λ k. replicate k 0) e
next_bits-bits zero (b ∷ bits) h le = absurd (omega arith)
next_bits-bits (suc n) (b ∷ bits) h le =
    let e : bit_number (eqb b 1) ≡ b = ground arith in
    let k : n - length bits ≡ suc n - suc (length bits) = omega arith in
    let rest : map bit_number (next_bits n bits) ≡ bits ++ replicate (suc n - suc (length bits)) 0 =
      next_bits-bits n bits h.1 (omega arith) ∙ ap (λ i. bits ++ replicate i 0) k in
    λ i. e i ∷ rest i

map-reading :
    (f : ℕ × ℕ → Bool) (ps : List (ℕ × ℕ))
    → map (λ p. bit_number (f p)) ps ≡ map bit_number (map f ps)
map-reading f [] = refl
map-reading f (p ∷ ps) = ap (λ l. bit_number (f p) ∷ l) (map-reading f ps)

-- The modules of the drawn symbol hold the bits they are given, and zeros behind them.
read_symbol-draw_data :
    (bits : List ℕ)
    → All IsBit bits
    → length bits ≤ 1_079
    → read_symbol (draw_data blank bits) ≡ bits ++ replicate (1_079 - length bits) 0
unfolding read_symbol
read_symbol-draw_data bits h le =
    let m = write blank.reserved full_path blank.matrix bits in
    rw (draw_data-write blank bits) (
      map-reading (reading m) (free blank.reserved full_path)
      ∙ ap (map bit_number) (
          reading-write blank.reserved 0 full_path blank.matrix bits blank-IsGrid
            (above_sound 0 full_path full_path-above)
          ∙ ap (λ n. next_bits n bits) length-free)
      ∙ next_bits-bits 1_079 bits h le)

-- Whoever reads the modules that hold no pattern, in the order in which they are written and without
-- the mask, reads the message: for a message of at most 106 bytes, before the format bits are drawn.
pub read_message-data_symbol :
    (raw : List ℕ)
    → length raw ≤ 106
    → All IsByte raw
    → read_message (read_symbol (data_symbol raw)) ≡ some raw
unfolding data_symbol full_codewords
read_message-data_symbol raw short bytes =
    let words = data_codewords raw in
    let ecc = reed_solomon_remainder words 26 in
    let bits = raw_bits (words ++ ecc) in
    let whole : length words ≡ 108 = (read_message-data_codewords raw [] short bytes).0 in
    let room : length bits ≤ 1_079 = omega (
      arith,
      length-raw_bits (words ++ ecc),
      length-append words ecc,
      whole,
      (remainder-Fits words).0,
    ) in
    let padding = replicate (1_079 - length bits) 0 in
    let t = read_message-data_codewords raw (raw_bits ecc ++ padding) short bytes in
    ap read_message (
      read_symbol-draw_data bits (raw_bits-IsBit (words ++ ecc)) room
      ∙ ap (λ l. l ++ padding) (raw_bits-append words ecc)
      ∙ append_assoc (raw_bits words) (raw_bits ecc) padding)
    ∙ t.2
