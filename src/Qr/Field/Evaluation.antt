-- ===== src/Qr/Field/Evaluation.antt =====
-- Values of polynomials over the field of backend/app/domain/qr_svg.py.
use vpp_wl_mobile.Prelude.{
  ℕ, zero, suc, ◌<◌, ◌≡◌, refl, sym, ap, ◌∙◌, List, [], ◌∷◌, ◌++◌, map, arith, length, All,
}
use vpp_wl_mobile.Prelude.Bits.{bit_xor-zero, bit_xor_exchange, bit_xor_lt_256}
use vpp_wl_mobile.Qr.Field.Laws.{
  double_lt, gf_multiply-gf_pow, gf_multiply-double, double-bit_xor, gf_multiply-bit_xor, doubled,
}
use vpp_wl_mobile.Qr.Field.{multiply_rounds, double, gf_pow, subtract_terms, gf_multiply}
use Prim.Native.Nat.{bit_xor}

abbrev pub IsByte : ℕ → Type 0
IsByte b = b < 256

-- The value of a polynomial at `x`, by Horner's rule from `acc` on: the independent definition.
unfoldable pub evaluate_at : ℕ → ℕ → List ℕ → ℕ
unfolding gf_multiply
evaluate_at x acc [] = acc
evaluate_at x acc (c ∷ cs) = evaluate_at x (bit_xor (gf_multiply acc x) c) cs

-- The same at the `i`-th power of two.
unfoldable pub horner : ℕ → ℕ → List ℕ → ℕ
horner i acc [] = acc
horner i acc (c ∷ cs) = horner i (bit_xor (doubled i acc) c) cs

pub doubled_lt : (i x : ℕ) → x < 256 → doubled i x < 256
unfolding doubled
doubled_lt zero x h = h
doubled_lt (suc i) x h = doubled_lt i (double x) (double_lt x)

pub doubled-bit_xor : (i a b : ℕ) → doubled i (bit_xor a b) ≡ bit_xor (doubled i a) (doubled i b)
unfolding doubled
doubled-bit_xor zero a b = refl
doubled-bit_xor (suc i) a b =
    ap (doubled i) (double-bit_xor a b) ∙ doubled-bit_xor i (double a) (double b)

pub doubled-zero : (i : ℕ) → doubled i 0 ≡ 0
unfolding doubled double
doubled-zero zero = refl
doubled-zero (suc i) = doubled-zero i

pub doubled-gf_multiply : (i a f : ℕ) → doubled i (gf_multiply a f) ≡ gf_multiply (doubled i a) f
unfolding doubled
doubled-gf_multiply zero a f = refl
doubled-gf_multiply (suc i) a f =
    ap (doubled i) (sym (gf_multiply-double a f)) ∙ doubled-gf_multiply i (double a) f

pub evaluate_at-horner :
    (i acc : ℕ) (cs : List ℕ)
    → i < 26
    → IsByte acc
    → All IsByte cs
    → evaluate_at (gf_pow 2 i) acc cs ≡ horner i acc cs
unfolding evaluate_at horner
evaluate_at-horner i acc [] h k bytes = refl
evaluate_at-horner i acc (c ∷ cs) h k bytes = rw (gf_multiply-gf_pow i acc h k) (
    evaluate_at-horner i (bit_xor (doubled i acc) c) cs h
      (bit_xor_lt_256 (doubled i acc) c (doubled_lt i acc k) bytes.0) bytes.1)

pub horner-append :
    (i acc : ℕ) (xs ys : List ℕ) → horner i acc (xs ++ ys) ≡ horner i (horner i acc xs) ys
unfolding horner
horner-append i acc [] ys = refl
horner-append i acc (x ∷ xs) ys = horner-append i (bit_xor (doubled i acc) x) xs ys

abbrev pub scaled : ℕ → List ℕ → List ℕ
scaled f cs = map (λ g. gf_multiply g f) cs

pub horner-subtract_terms :
    (i a b f : ℕ) (rs gs : List ℕ)
    → length rs ≡ length gs
    → horner i (bit_xor a b) (subtract_terms f rs gs)
      ≡ bit_xor (horner i a rs) (horner i b (scaled f gs))
unfolding horner subtract_terms
horner-subtract_terms i a b f [] [] h = refl
horner-subtract_terms i a b f [] (g ∷ gs) h = absurd (omega arith)
horner-subtract_terms i a b f (r ∷ rs) [] h = absurd (omega arith)
horner-subtract_terms i a b f (r ∷ rs) (g ∷ gs) h =
    let m = gf_multiply g f in
    ap (λ x. horner i x (subtract_terms f rs gs))
      (ap (λ y. bit_xor y (bit_xor r m)) (doubled-bit_xor i a b)
        ∙ bit_xor_exchange (doubled i a) (doubled i b) r m)
    ∙ horner-subtract_terms i (bit_xor (doubled i a) r) (bit_xor (doubled i b) m) f rs gs
        (omega arith)

pub horner-scaled :
    (i a f : ℕ) (gs : List ℕ)
    → horner i (gf_multiply a f) (scaled f gs) ≡ gf_multiply (horner i a gs) f
unfolding horner
horner-scaled i a f [] = refl
horner-scaled i a f (g ∷ gs) =
    ap (λ x. horner i x (scaled f gs))
      (ap (λ y. bit_xor y (gf_multiply g f)) (doubled-gf_multiply i a f)
        ∙ sym (gf_multiply-bit_xor (doubled i a) g f))
    ∙ horner-scaled i (bit_xor (doubled i a) g) f gs

pub subtract_nothing : (rs gs : List ℕ) → subtract_terms 0 rs gs ≡ rs
unfolding subtract_terms gf_multiply multiply_rounds
subtract_nothing [] gs = refl
subtract_nothing (r ∷ rs) [] = refl
subtract_nothing (r ∷ rs) (g ∷ gs) = λ i. bit_xor-zero r i ∷ subtract_nothing rs gs i
