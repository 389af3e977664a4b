-- ===== src/Qr/Field/Division.antt =====
-- What `_reed_solomon_remainder` of backend/app/domain/qr_svg.py is for: with its remainder behind it, a
-- message is a multiple of the generator, so it vanishes at the generator's roots.
use vpp_wl_mobile.Prelude.{
  true, replicate, ℕ, zero, suc, ◌<◌, ◌≡◌, refl, sym, ap, ◌∙◌, inl, inr, List, [], ◌∷◌, ◌++◌, arith,
  eqb, Bool-cases, length, drop, length-append, All, All-append,
}
use vpp_wl_mobile.Prelude.Bits.{bit_xor-zero, bit_xor_assoc, bit_xor_cancel, bit_xor_lt_256}
use vpp_wl_mobile.Qr.Field.Evaluation.{
  IsByte, evaluate_at, horner, doubled-zero, evaluate_at-horner, horner-append, scaled,
  horner-subtract_terms, horner-scaled, subtract_nothing,
}
use vpp_wl_mobile.Qr.Field.Laws.{
  passes-at, passes, zero-gf_multiply, one-gf_multiply, gf_multiply_lt, doubled,
}
use vpp_wl_mobile.Qr.Field.{
  reed_solomon_remainder, double, divide, generator, gf_pow, divide_step, subtract_terms,
  gf_multiply,
}
use Prim.Native.Nat.{bit_xor}

-- The step with its two branches in one.
divide_step-cons :
    (terms : List ℕ) (r byte : ℕ) (rs : List ℕ)
    → divide_step (1 ∷ terms) (r ∷ rs) byte ≡ subtract_terms (bit_xor byte r) (rs ++ 0 ∷ []) terms
unfolding divide_step
divide_step-cons terms r byte rs = elim (Bool-cases (eqb (bit_xor byte r) 0)) [
  | inl none_left ↦
      let e : bit_xor byte r ≡ 0 = ground arith in
      rw none_left (rw e (sym (subtract_nothing (rs ++ 0 ∷ []) terms)))
  | inr some_left ↦ rw some_left refl
]

length-subtract_terms : (f : ℕ) (rs gs : List ℕ) → length (subtract_terms f rs gs) ≡ length rs
unfolding subtract_terms
length-subtract_terms f [] gs = refl
length-subtract_terms f (r ∷ rs) [] = refl
length-subtract_terms f (r ∷ rs) (g ∷ gs) = ap suc (length-subtract_terms f rs gs)

subtract_terms-IsByte :
    (f : ℕ) (rs gs : List ℕ) → All IsByte rs → All IsByte gs → All IsByte (subtract_terms f rs gs)
unfolding subtract_terms
subtract_terms-IsByte f [] gs h k = tt
subtract_terms-IsByte f (r ∷ rs) [] h k = h
subtract_terms-IsByte f (r ∷ rs) (g ∷ gs) h k = (
  bit_xor_lt_256 r (gf_multiply g f) h.0 (gf_multiply_lt g f k.0),
  subtract_terms-IsByte f rs gs h.1 k.1,
)

module _ (terms : List ℕ) (bytes : All IsByte terms) where
  -- A remainder in the making.
  abbrev Fits : List ℕ → Type 0
  Fits rem = (length rem ≡ length terms) × All IsByte rem

  divide_step-Fits : (rem : List ℕ) (byte : ℕ) → Fits rem → Fits (divide_step (1 ∷ terms) rem byte)
  divide_step-Fits [] byte h = unfold divide_step in h
  divide_step-Fits (r ∷ rs) byte (len, h) = rw (divide_step-cons terms r byte rs) (
    length-subtract_terms (bit_xor byte r) (rs ++ 0 ∷ []) terms
        ∙ length-append rs (0 ∷ [])
        ∙ omega arith,
    subtract_terms-IsByte (bit_xor byte r) (rs ++ 0 ∷ []) terms
        (All-append IsByte rs (0 ∷ []) h.1 (omega arith, tt)) bytes,
  )

  divide-Fits : (rem message : List ℕ) → Fits rem → Fits (divide (1 ∷ terms) rem message)
  unfolding divide
  divide-Fits rem [] h = h
  divide-Fits rem (byte ∷ message) h =
      divide-Fits (divide_step (1 ∷ terms) rem byte) message (divide_step-Fits rem byte h)

  module _ (i : ℕ) (root : horner i 1 terms ≡ 0) (degree : 0 < length terms) where
    divide_step-root :
        (s byte : ℕ) (rem : List ℕ)
        → Fits rem
        → IsByte byte
        → horner i s rem ≡ 0
        → horner i (bit_xor (doubled i s) byte) (divide_step (1 ∷ terms) rem byte) ≡ 0
    unfolding horner
    divide_step-root s byte [] (len, h) k e = absurd (omega arith)
    divide_step-root s byte (r ∷ rs) (len, h) k e =
        let f = bit_xor byte r in
        let split : bit_xor (doubled i s) byte ≡ bit_xor (bit_xor (doubled i s) r) f =
          ap (bit_xor (doubled i s)) (sym (bit_xor_cancel r byte))
          ∙ sym (bit_xor_assoc (doubled i s) r f) in
        let size : length (rs ++ 0 ∷ []) ≡ length terms = length-append rs (0 ∷ []) ∙ omega arith in
        let moved : horner i (bit_xor (doubled i s) r) (rs ++ 0 ∷ []) ≡ 0 =
          horner-append i (bit_xor (doubled i s) r) rs (0 ∷ [])
          ∙ bit_xor-zero (doubled i (horner i (bit_xor (doubled i s) r) rs))
          ∙ ap (doubled i) e
          ∙ doubled-zero i in
        let own : horner i f (scaled f terms) ≡ 0 =
          ap (λ x. horner i x (scaled f terms))
            (sym (one-gf_multiply f (bit_xor_lt_256 byte r k h.0)))
          ∙ horner-scaled i 1 f terms
          ∙ ap (λ x. gf_multiply x f) root
          ∙ zero-gf_multiply f in
        rw (divide_step-cons terms r byte rs) (
          rw split (
            horner-subtract_terms i (bit_xor (doubled i s) r) f f (rs ++ 0 ∷ []) terms size
            ∙ (λ j. bit_xor (moved j) (own j))))

    divide-root :
        (s : ℕ) (rem message : List ℕ)
        → Fits rem
        → All IsByte message
        → horner i s rem ≡ 0
        → horner i (horner i s message) (divide (1 ∷ terms) rem message) ≡ 0
    unfolding horner divide
    divide-root s rem [] fits k e = e
    divide-root s rem (byte ∷ message) fits k e =
        divide-root (bit_xor (doubled i s) byte) (divide_step (1 ∷ terms) rem byte) message
          (divide_step-Fits rem byte fits) k.1 (divide_step-root s byte rem fits k.0 e)

abbrev generator_terms : List ℕ
generator_terms = drop 1 (generator 26)

generator-cons : generator 26 ≡ 1 ∷ generator_terms
unfolding generator
generator-cons = refl

length-generator_terms : length generator_terms ≡ 26
unfolding generator
length-generator_terms = refl

generator_terms-IsByte : All IsByte generator_terms
unfolding generator
generator_terms-IsByte = omega arith

root_table : passes (λ i. eqb (horner i 1 generator_terms) 0) 26 ≡ true
unfolding passes generator horner doubled double
root_table = refl

generator_root : (i : ℕ) → i < 26 → horner i 1 generator_terms ≡ 0
generator_root i h =
    let e : eqb (horner i 1 generator_terms) 0 ≡ true =
      passes-at (λ i. eqb (horner i 1 generator_terms) 0) 26 i h root_table in
    ground arith

horner-zeros : (i n : ℕ) → horner i 0 (replicate n 0) ≡ 0
unfolding horner
horner-zeros i zero = refl
horner-zeros i (suc n) =
    ap (λ x. horner i (bit_xor x 0) (replicate n 0)) (doubled-zero i) ∙ horner-zeros i n

start-Fits : Fits generator_terms generator_terms-IsByte (replicate 26 0)
start-Fits = (sym length-generator_terms, omega arith)

pub remainder-Fits :
    (message : List ℕ)
    → (length (reed_solomon_remainder message 26) ≡ 26)
      × All IsByte (reed_solomon_remainder message 26)
unfolding reed_solomon_remainder
remainder-Fits message = rw generator-cons (
    let (len, bytes) =
      divide-Fits generator_terms generator_terms-IsByte (replicate 26 0) message start-Fits in
    (len ∙ length-generator_terms, bytes))

-- A message of bytes with its remainder of degree 26 behind it, read as a polynomial, is 0 at each
-- of the 26 powers of two that the generator is made of: it is a Reed-Solomon codeword.
pub reed_solomon_remainder-IsCodeword :
    (message : List ℕ) (i : ℕ)
    → All IsByte message
    → i < 26
    → evaluate_at (gf_pow 2 i) 0 (message ++ reed_solomon_remainder message 26) ≡ 0
unfolding reed_solomon_remainder
reed_solomon_remainder-IsCodeword message i bytes h =
    evaluate_at-horner i 0 (message ++ reed_solomon_remainder message 26) h (omega arith) (
      All-append IsByte message (reed_solomon_remainder message 26) bytes
        (remainder-Fits message).1)
    ∙ horner-append i 0 message (reed_solomon_remainder message 26)
    ∙ rw generator-cons (
        divide-root generator_terms generator_terms-IsByte i (generator_root i h)
          (rw length-generator_terms (omega arith)) 0 (replicate 26 0) message start-Fits bytes
          (horner-zeros i 26))
