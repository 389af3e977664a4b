-- ===== src/Qr/Matrix/ReadBack.antt =====
-- What `_draw_data` leaves in the symbol.
use vpp_wl_mobile.Prelude.{
  ℕ, zero, suc, ◌-◌, ◌<◌, ◌≡◌, refl, sym, ap, ◌∙◌, inl, inr, Bool, true, false, not, false≢true,
  List, [], ◌∷◌, map, arith, Bool-cases, length, drop, keep,
}
use vpp_wl_mobile.Qr.Matrix.{
  Grid, Symbol, cell, set_cell, size, draw_data, mask_0, mask_if, next_bit,
}
use vpp_wl_mobile.Qr.Matrix.Cells.{
  IsGrid, set_cell-IsGrid, cell-set_cell, cell-set_cell-other, differ,
}
use vpp_wl_mobile.Qr.Matrix.Path.{write, rank, Above, full_path, draw_columns-path, for_each-write}

-- The modules of a list that hold data, and what they hold.
unfoldable pub free : Grid → List (ℕ × ℕ) → List (ℕ × ℕ)
free reserved ps = keep (λ p. not (cell p.0 p.1 reserved)) ps

unfoldable pub reading : Grid → ℕ × ℕ → Bool
reading m (x, y) = mask_if (mask_0 x y) (cell x y m)

unfoldable pub next_bits : ℕ → List ℕ → List Bool
next_bits zero bits = []
next_bits (suc n) bits = next_bit bits ∷ next_bits n (drop 1 bits)

pub draw_data-write :
    (s : Symbol) (bits : List ℕ)
    → draw_data s bits
      ≡ record { matrix = write s.reserved full_path s.matrix bits; reserved = s.reserved }
unfolding draw_data
draw_data-write s bits =
    ap (λ (t : Symbol × List ℕ). t.0) (draw_columns-path size (size - 1) true (s, bits))
    ∙ for_each-write full_path s bits

-- Modules before the list are kept.
write-before :
    (reserved : Grid) (n x y : ℕ) (ps : List (ℕ × ℕ)) (m : Grid) (bits : List ℕ)
    → Above n ps
    → rank x y < n
    → cell x y (write reserved ps m bits) ≡ cell x y m
unfolding write Above
write-before reserved n x y [] m bits a h = refl
write-before reserved n x y ((x', y') ∷ ps) m bits a h =
    elim (cell x' y' reserved)
      as (λ b.
        cell x y (elim b [
          | true ↦ write reserved ps m bits
          | false ↦
              write reserved ps (set_cell x' y' (mask_if (mask_0 x' y') (next_bit bits)) m)
                (drop 1 bits)
        ])
        ≡ cell x y m) [
          | true ↦ write-before reserved (suc (rank x' y')) x y ps m bits a.3 (omega arith)
          | false ↦
              write-before reserved (suc (rank x' y')) x y ps
                (set_cell x' y' (mask_if (mask_0 x' y') (next_bit bits)) m) (drop 1 bits) a.3
                (omega arith)
              ∙ cell-set_cell-other x y x' y' (mask_if (mask_0 x' y') (next_bit bits)) m
                  (differ rank x y x' y' (λ e. omega arith))
        ]

pub write-reserved :
    (reserved : Grid) (x y : ℕ) (ps : List (ℕ × ℕ)) (m : Grid) (bits : List ℕ)
    → cell x y reserved ≡ true
    → cell x y (write reserved ps m bits) ≡ cell x y m
unfolding write
write-reserved reserved x y [] m bits h = refl
write-reserved reserved x y ((x', y') ∷ ps) m bits h = elim (Bool-cases (cell x' y' reserved)) [
  | inl e ↦ rw (e, write) (write-reserved reserved x y ps m bits h)
  | inr e ↦
      let v = mask_if (mask_0 x' y') (next_bit bits) in
      rw (e, write)
        (write-reserved reserved x y ps (set_cell x' y' v m) (drop 1 bits) h
          ∙ cell-set_cell-other x y x' y' v m
              (differ (λ a b. cell a b reserved) x y x' y' (λ q. false≢true (sym e ∙ sym q ∙ h))))
]

not-not : (v : Bool) → not (not v) ≡ v
not-not true = refl
not-not false = refl

mask_if-twice : (b v : Bool) → mask_if b (mask_if b v) ≡ v
unfolding mask_if
mask_if-twice true v = not-not v
mask_if-twice false v = refl

pub write-IsGrid :
    (reserved : Grid) (ps : List (ℕ × ℕ)) (m : Grid) (bits : List ℕ)
    → IsGrid m
    → IsGrid (write reserved ps m bits)
unfolding write
write-IsGrid reserved [] m bits g = g
write-IsGrid reserved ((x, y) ∷ ps) m bits g = elim (Bool-cases (cell x y reserved)) [
  | inl e ↦ rw (e, write) (write-IsGrid reserved ps m bits g)
  | inr e ↦
      let v = mask_if (mask_0 x y) (next_bit bits) in
      rw (e, write)
        (write-IsGrid reserved ps (set_cell x y v m) (drop 1 bits) (set_cell-IsGrid x y v m g))
]

-- The free modules of the list hold the bits.
pub reading-write :
    (reserved : Grid) (n : ℕ) (ps : List (ℕ × ℕ)) (m : Grid) (bits : List ℕ)
    → IsGrid m
    → Above n ps
    → map (reading (write reserved ps m bits)) (free reserved ps)
      ≡ next_bits (length (free reserved ps)) bits
unfolding write free reading next_bits Above
reading-write reserved n [] m bits g a = refl
reading-write reserved n ((x, y) ∷ ps) m bits g a = elim (Bool-cases (cell x y reserved)) [
  | inl e ↦ rw (e, write) (reading-write reserved (suc (rank x y)) ps m bits g a.3)
  | inr e ↦
      let v = mask_if (mask_0 x y) (next_bit bits) in
      let m' = set_cell x y v m in
      let here : mask_if (mask_0 x y) (cell x y (write reserved ps m' (drop 1 bits)))
          ≡ next_bit bits =
        ap (mask_if (mask_0 x y)) (
          write-before reserved (suc (rank x y)) x y ps m' (drop 1 bits) a.3 (omega arith)
          ∙ cell-set_cell x y v m g a.1 a.2)
        ∙ mask_if-twice (mask_0 x y) (next_bit bits) in
      let rest =
        reading-write reserved (suc (rank x y)) ps m' (drop 1 bits) (set_cell-IsGrid x y v m g)
          a.3 in
      rw (e, write) (λ i. here i ∷ rest i)
]

-- `_draw_data` changes no module that is reserved, and reserves none, whatever the bits are.
draw_data-reserved :
    (s : Symbol) (bits : List ℕ) (x y : ℕ)
    → cell x y s.reserved ≡ true
    → (cell x y (draw_data s bits).matrix ≡ cell x y s.matrix)
      × ((draw_data s bits).reserved ≡ s.reserved)
draw_data-reserved s bits x y h =
    rw (draw_data-write s bits) (write-reserved s.reserved x y full_path s.matrix bits h, refl)
