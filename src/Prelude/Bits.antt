-- ===== src/Prelude/Bits.antt =====
-- Exclusive or of native numbers: its laws at variables, from the recursion on binary digits.
use Prim.Native.Nat.{
  ℕ, zero, suc, ◌+◌, ◌*◌, ◌/◌, ◌%◌, ◌≤◌, ◌<◌, digits, differ, bit_xor, bit_xor-bitwise,
}
use mathlib.Core.Path.{◌≡◌, refl, sym, ap, ◌∙◌}
use native.Mathlib.Omega.{arith}

abbrev xor_digits : ℕ → ℕ → ℕ → ℕ
xor_digits n a b = digits (λ b. b) differ n a b

differ_digit : (x y : ℕ) → x < 2 → y < 2 → differ x y ≡ (x + y) % 2
differ_digit zero y p q = omega arith
differ_digit (suc zero) zero p q = refl
differ_digit (suc zero) (suc zero) p q = refl
differ_digit (suc zero) (suc (suc y)) p q = absurd (omega arith)
differ_digit (suc (suc x)) y p q = absurd (omega arith)

xor_digits_fuel : (n m a b : ℕ) → a ≤ n → a ≤ m → xor_digits n a b ≡ xor_digits m a b
xor_digits_fuel zero zero a b p q = refl
xor_digits_fuel zero (suc m) zero b p q = refl
xor_digits_fuel zero (suc m) (suc a) b p q = absurd (omega arith)
xor_digits_fuel (suc n) zero zero b p q = refl
xor_digits_fuel (suc n) zero (suc a) b p q = absurd (omega arith)
xor_digits_fuel (suc n) (suc m) zero b p q = refl
xor_digits_fuel (suc n) (suc m) (suc a) b p q =
    rw (xor_digits_fuel n m (suc a / 2) (b / 2) (omega arith) (omega arith))

pub zero-bit_xor : (b : ℕ) → bit_xor 0 b ≡ b
zero-bit_xor b = bit_xor-bitwise 0 b

-- The lowest digit, and the rest.
pub bit_xor_step : (a b : ℕ) → bit_xor a b ≡ bit_xor (a / 2) (b / 2) * 2 + (a % 2 + b % 2) % 2
bit_xor_step zero b = omega (arith, zero-bit_xor b, zero-bit_xor (b / 2))
bit_xor_step (suc a) b = omega (
  arith,
  bit_xor-bitwise (suc a) b,
  bit_xor-bitwise (suc a / 2) (b / 2),
  xor_digits_fuel a (suc a / 2) (suc a / 2) (b / 2) (omega arith) (omega arith),
  differ_digit (suc a % 2) (b % 2) (omega arith) (omega arith),
)

-- Induction on the digits of two numbers below `2 ^ n`, which here are at most `n`.
comm_fuel : (n a b : ℕ) → a ≤ n → b ≤ n → bit_xor a b ≡ bit_xor b a
comm_fuel zero a b p q =
    let e : a ≡ 0 = omega arith in let f : b ≡ 0 = omega arith in rw e (rw f refl)
comm_fuel (suc n) a b p q = omega (
  arith,
  bit_xor_step a b,
  bit_xor_step b a,
  comm_fuel n (a / 2) (b / 2) (omega arith) (omega arith),
)

pub bit_xor_comm : (a b : ℕ) → bit_xor a b ≡ bit_xor b a
bit_xor_comm a b = comm_fuel (a + b) a b (omega arith) (omega arith)

pub bit_xor-zero : (a : ℕ) → bit_xor a 0 ≡ a
bit_xor-zero a = bit_xor_comm a 0 ∙ zero-bit_xor a

self_fuel : (n a : ℕ) → a ≤ n → bit_xor a a ≡ 0
self_fuel zero a p = let e : a ≡ 0 = omega arith in rw e refl
self_fuel (suc n) a p = omega (arith, bit_xor_step a a, self_fuel n (a / 2) (omega arith))

pub bit_xor_self : (a : ℕ) → bit_xor a a ≡ 0
bit_xor_self a = self_fuel a a (omega arith)

-- The two parts of a step, as the parts of the result.
bit_xor-half : (a b : ℕ) → bit_xor a b / 2 ≡ bit_xor (a / 2) (b / 2)
bit_xor-half a b = omega (arith, bit_xor_step a b)

assoc_fuel :
    (n a b c : ℕ) → a ≤ n → b ≤ n → c ≤ n → bit_xor (bit_xor a b) c ≡ bit_xor a (bit_xor b c)
assoc_fuel zero a b c p q r =
    let e : a ≡ 0 = omega arith in
    let f : b ≡ 0 = omega arith in let g : c ≡ 0 = omega arith in rw e (rw f (rw g refl))
assoc_fuel (suc n) a b c p q r =
    let ih = assoc_fuel n (a / 2) (b / 2) (c / 2) (omega arith) (omega arith) (omega arith) in
    omega (
      arith,
      bit_xor_step (bit_xor a b) c,
      bit_xor_step a (bit_xor b c),
      ap (λ x. bit_xor x (c / 2)) (bit_xor-half a b),
      ap (λ x. bit_xor (a / 2) x) (bit_xor-half b c),
      ih,
      bit_xor_step a b,
      bit_xor_step b c,
    )

pub bit_xor_assoc : (a b c : ℕ) → bit_xor (bit_xor a b) c ≡ bit_xor a (bit_xor b c)
bit_xor_assoc a b c = assoc_fuel (a + b + c) a b c (omega arith) (omega arith) (omega arith)

-- Pairs of sums swap their middle terms.
pub bit_xor_exchange :
    (a b c d : ℕ) → bit_xor (bit_xor a b) (bit_xor c d) ≡ bit_xor (bit_xor a c) (bit_xor b d)
bit_xor_exchange a b c d =
    bit_xor_assoc a b (bit_xor c d)
    ∙ ap (bit_xor a)
        (sym (bit_xor_assoc b c d) ∙ ap (λ x. bit_xor x d) (bit_xor_comm b c) ∙ bit_xor_assoc c b d)
    ∙ sym (bit_xor_assoc a c (bit_xor b d))

pub bit_xor_cancel : (a b : ℕ) → bit_xor a (bit_xor b a) ≡ b
bit_xor_cancel a b =
    ap (bit_xor a) (bit_xor_comm b a)
    ∙ sym (bit_xor_assoc a a b)
    ∙ ap (λ x. bit_xor x b) (bit_xor_self a)
    ∙ zero-bit_xor b

-- Cutting both numbers at a power of two.
abbrev pub IsCut : ℕ → Type 0
IsCut m = (a b : ℕ) → bit_xor a b ≡ bit_xor (a / m) (b / m) * m + bit_xor (a % m) (b % m)

-- From a cut to the next, for what division says of them.
IsCut-double :
    (m n : ℕ)
    → IsCut m
    → ((a : ℕ) → a / 2 / m ≡ a / n)
    → ((a : ℕ) → a % n / 2 ≡ a / 2 % m)
    → ((a : ℕ) → a % n % 2 ≡ a % 2)
    → ((x : ℕ) → x * n ≡ x * m * 2)
    → IsCut n
IsCut-double m n h quot rest low scale a b =
    let q : bit_xor (a / 2 / m) (b / 2 / m) ≡ bit_xor (a / n) (b / n) =
      λ i. bit_xor (quot a i) (quot b i) in
    let r : bit_xor (a % n / 2) (b % n / 2) ≡ bit_xor (a / 2 % m) (b / 2 % m) =
      λ i. bit_xor (rest a i) (rest b i) in
    let t : bit_xor (a / 2 / m) (b / 2 / m) * m ≡ bit_xor (a / n) (b / n) * m = ap (λ x. x * m) q in
    omega (
      arith,
      bit_xor_step a b,
      h (a / 2) (b / 2),
      bit_xor_step (a % n) (b % n),
      scale (bit_xor (a / n) (b / n)),
      low a,
      low b,
    )

IsCut-two : IsCut 2
IsCut-two a b =
    let p : a % 2 / 2 ≡ 0 = omega arith in
    let q : b % 2 / 2 ≡ 0 = omega arith in
    let gone : bit_xor (a % 2 / 2) (b % 2 / 2) ≡ bit_xor 0 0 = λ i. bit_xor (p i) (q i) in
    omega (arith, bit_xor_step a b, bit_xor_step (a % 2) (b % 2), gone)

IsCut-four : IsCut 4
IsCut-four =
    IsCut-double 2 4 IsCut-two (λ a. omega arith) (λ a. omega arith) (λ a. omega arith)
      (λ x. omega arith)

IsCut-sixteen : IsCut 16
IsCut-sixteen =
    IsCut-double 8 16
      (IsCut-double 4 8 IsCut-four (λ a. omega arith) (λ a. omega arith) (λ a. omega arith)
        (λ x. omega arith))
      (λ a. omega arith) (λ a. omega arith) (λ a. omega arith) (λ x. omega arith)

pub IsCut-128 : IsCut 128
IsCut-128 =
    IsCut-double 64 128
      (IsCut-double 32 64
        (IsCut-double 16 32 IsCut-sixteen (λ a. omega arith) (λ a. omega arith) (λ a. omega arith)
          (λ x. omega arith))
        (λ a. omega arith) (λ a. omega arith) (λ a. omega arith) (λ x. omega arith))
      (λ a. omega arith) (λ a. omega arith) (λ a. omega arith) (λ x. omega arith)

-- Below a power of two.
half_lt :
    (m : ℕ)
    → ((a b : ℕ) → a < m → b < m → bit_xor a b < m)
    → (a b : ℕ) → a < m * 2
    → b < m * 2
    → bit_xor a b < m * 2
half_lt m h a b p q = omega (arith, bit_xor_step a b, h (a / 2) (b / 2) (omega arith) (omega arith))

lt_one : (a b : ℕ) → a < 1 → b < 1 → bit_xor a b < 1
lt_one a b p q =
    let e : a ≡ 0 = omega arith in let f : b ≡ 0 = omega arith in rw e (rw f (omega arith))

pub bit_xor_lt_128 : (a b : ℕ) → a < 128 → b < 128 → bit_xor a b < 128
bit_xor_lt_128 =
    half_lt 64 (half_lt 32 (half_lt 16 (half_lt 8 (half_lt 4 (half_lt 2 (half_lt 1 lt_one))))))

pub bit_xor_lt_256 : (a b : ℕ) → a < 256 → b < 256 → bit_xor a b < 256
bit_xor_lt_256 = half_lt 128 bit_xor_lt_128
