-- ===== src/Qr/Field/Laws.antt =====
-- Laws of the products of bytes in backend/app/domain/qr_svg.py: `gf_multiply` is linear in its first
-- argument and commutes with doubling.
use vpp_wl_mobile.Prelude.{
  ℕ, zero, suc, ◌+◌, ◌*◌, ◌/◌, ◌%◌, ◌<◌, ◌≡◌, refl, sym, ap, ◌∙◌, inl, inr, Bool, true, ◌&&◌, arith,
  eqb, Bool-cases,
}
use vpp_wl_mobile.Prelude.Bits.{
  bit_xor_lt_256, bit_xor_lt_128, bit_xor_exchange, IsCut-128, bit_xor_step,
}
use vpp_wl_mobile.Qr.Field.{gf_pow, multiply_rounds, double, gf_multiply}
use Prim.Native.Nat.{bit_xor}

double_bit : (x y : ℕ) → x < 2 → y < 2 → (x + y) % 2 * 0x1D ≡ bit_xor (x * 0x1D) (y * 0x1D)
double_bit zero zero p q = refl
double_bit zero (suc zero) p q = refl
double_bit (suc zero) zero p q = refl
double_bit (suc zero) (suc zero) p q = refl
double_bit zero (suc (suc y)) p q = absurd (omega arith)
double_bit (suc zero) (suc (suc y)) p q = absurd (omega arith)
double_bit (suc (suc x)) y p q = absurd (omega arith)

bit_xor_twice : (a b : ℕ) → bit_xor (a * 2) (b * 2) ≡ bit_xor a b * 2
bit_xor_twice a b =
    let p : a * 2 / 2 ≡ a = omega arith in
    let q : b * 2 / 2 ≡ b = omega arith in
    let e : bit_xor (a * 2 / 2) (b * 2 / 2) ≡ bit_xor a b = λ i. bit_xor (p i) (q i) in
    omega (arith, bit_xor_step (a * 2) (b * 2), e)

-- The two parts of `double`, of a sum.
shifted-xor : (a b : ℕ) → bit_xor a b * 2 % 256 ≡ bit_xor (a * 2 % 256) (b * 2 % 256)
shifted-xor a b =
    let p : a * 2 % 256 ≡ a % 128 * 2 = omega arith in
    let q : b * 2 % 256 ≡ b % 128 * 2 = omega arith in
    let e : bit_xor (a * 2 % 256) (b * 2 % 256) ≡ bit_xor (a % 128 * 2) (b % 128 * 2) =
      λ i. bit_xor (p i) (q i) in
    omega (
      arith,
      IsCut-128 a b,
      bit_xor_lt_128 (a % 128) (b % 128) (omega arith) (omega arith),
      bit_xor_twice (a % 128) (b % 128),
      e,
    )

carry-xor : (a b : ℕ) → bit_xor a b / 128 % 2 ≡ (a / 128 % 2 + b / 128 % 2) % 2
carry-xor a b = omega (
  arith,
  IsCut-128 a b,
  bit_xor_lt_128 (a % 128) (b % 128) (omega arith) (omega arith),
  bit_xor_step (a / 128) (b / 128),
)

pub double-bit_xor : (a b : ℕ) → double (bit_xor a b) ≡ bit_xor (double a) (double b)
unfolding double
double-bit_xor a b =
    let carry : bit_xor a b / 128 % 2 * 0x1D ≡ bit_xor (a / 128 % 2 * 0x1D) (b / 128 % 2 * 0x1D) =
      ap (λ x. x * 0x1D) (carry-xor a b)
      ∙ double_bit (a / 128 % 2) (b / 128 % 2) (omega arith) (omega arith) in
    (λ i. bit_xor (shifted-xor a b i) (carry i))
    ∙ bit_xor_exchange (a * 2 % 256) (b * 2 % 256) (a / 128 % 2 * 0x1D) (b / 128 % 2 * 0x1D)

pub double_lt : (a : ℕ) → double a < 256
unfolding double
double_lt a = bit_xor_lt_256 (a * 2 % 256) (a / 128 % 2 * 0x1D) (omega arith) (omega arith)

rounds-bit_xor :
    (n l l' r v v' : ℕ)
    → multiply_rounds n (bit_xor l l') r (bit_xor v v')
      ≡ bit_xor (multiply_rounds n l r v) (multiply_rounds n l' r v')
unfolding multiply_rounds
rounds-bit_xor zero l l' r v v' = refl
rounds-bit_xor (suc n) l l' r v v' = elim (Bool-cases (eqb (r % 2) 1)) [
  | inl odd ↦ rw odd (
      rw (double-bit_xor l l') (
        rw (bit_xor_exchange v v' l l')
          (rounds-bit_xor n (double l) (double l') (r / 2) (bit_xor v l) (bit_xor v' l'))))
  | inr even ↦
      rw even (rw (double-bit_xor l l') (rounds-bit_xor n (double l) (double l') (r / 2) v v'))
]

pub gf_multiply-bit_xor :
    (a b c : ℕ) → gf_multiply (bit_xor a b) c ≡ bit_xor (gf_multiply a c) (gf_multiply b c)
unfolding gf_multiply
gf_multiply-bit_xor a b c = rounds-bit_xor 8 a b c 0 0

rounds-double :
    (n l r v : ℕ) → multiply_rounds n (double l) r (double v) ≡ double (multiply_rounds n l r v)
unfolding multiply_rounds
rounds-double zero l r v = refl
rounds-double (suc n) l r v = elim (Bool-cases (eqb (r % 2) 1)) [
  | inl odd ↦
      rw odd (rw (sym (double-bit_xor v l)) (rounds-double n (double l) (r / 2) (bit_xor v l)))
  | inr even ↦ rw even (rounds-double n (double l) (r / 2) v)
]

pub gf_multiply-double : (a c : ℕ) → gf_multiply (double a) c ≡ double (gf_multiply a c)
unfolding gf_multiply
gf_multiply-double a c = rounds-double 8 a c 0

rounds-zero : (n r : ℕ) → multiply_rounds n 0 r 0 ≡ 0
unfolding multiply_rounds
rounds-zero zero r = refl
rounds-zero (suc n) r = elim (Bool-cases (eqb (r % 2) 1)) [
  | inl odd ↦ rw odd (rounds-zero n (r / 2))
  | inr even ↦ rw even (rounds-zero n (r / 2))
]

pub zero-gf_multiply : (c : ℕ) → gf_multiply 0 c ≡ 0
unfolding gf_multiply
zero-gf_multiply c = rounds-zero 8 c

rounds_lt : (n l r v : ℕ) → l < 256 → v < 256 → multiply_rounds n l r v < 256
unfolding multiply_rounds
rounds_lt zero l r v h k = k
rounds_lt (suc n) l r v h k = elim (Bool-cases (eqb (r % 2) 1)) [
  | inl odd ↦
      rw odd (rounds_lt n (double l) (r / 2) (bit_xor v l) (double_lt l) (bit_xor_lt_256 v l k h))
  | inr even ↦ rw even (rounds_lt n (double l) (r / 2) v (double_lt l) k)
]

pub gf_multiply_lt : (a c : ℕ) → a < 256 → gf_multiply a c < 256
unfolding gf_multiply
gf_multiply_lt a c h = rounds_lt 8 a c 0 h (omega arith)

-- Every value of a small range, by evaluation.
unfoldable pub passes : (ℕ → Bool) → ℕ → Bool
passes test zero = true
passes test (suc bound) = passes test bound && test bound

pub passes-at :
    (test : ℕ → Bool) (bound x : ℕ) → x < bound → passes test bound ≡ true → test x ≡ true
unfolding passes
passes-at test zero x small all = absurd (omega arith)
passes-at test (suc bound) x small all =
    let earlier = passes-at test bound x in
    elim (Bool-cases (eqb x bound)) [
      | inl e ↦ let same : x ≡ bound = ground arith in rw same (ground arith)
      | inr e ↦ earlier (ground arith) (ground arith)
    ]

one_table : passes (λ c. eqb (gf_multiply 1 c) c) 256 ≡ true
unfolding passes gf_multiply
one_table = refl

pub one-gf_multiply : (c : ℕ) → c < 256 → gf_multiply 1 c ≡ c
one-gf_multiply c h =
    let e : eqb (gf_multiply 1 c) c ≡ true =
      passes-at (λ c. eqb (gf_multiply 1 c) c) 256 c h one_table in
    ground arith

-- Multiplying by the `i`-th power of two is doubling `i` times.
unfoldable pub doubled : ℕ → ℕ → ℕ
doubled zero x = x
doubled (suc i) x = doubled i (double x)

power_table :
    passes (λ i. passes (λ x. eqb (gf_multiply x (gf_pow 2 i)) (doubled i x)) 256) 26 ≡ true
unfolding passes gf_multiply gf_pow doubled double
power_table = refl

pub gf_multiply-gf_pow : (i x : ℕ) → i < 26 → x < 256 → gf_multiply x (gf_pow 2 i) ≡ doubled i x
gf_multiply-gf_pow i x h k =
    let e : eqb (gf_multiply x (gf_pow 2 i)) (doubled i x) ≡ true =
      passes-at (λ x. eqb (gf_multiply x (gf_pow 2 i)) (doubled i x)) 256 x k
        (passes-at (λ i. passes (λ x. eqb (gf_multiply x (gf_pow 2 i)) (doubled i x)) 256) 26 i h
          power_table) in
    ground arith
