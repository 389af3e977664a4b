-- ===== src/Qr/Field.antt =====
-- The arithmetic of bytes in backend/app/domain/qr_svg.py: products in the field of 256 elements, and
pub mod Laws
pub mod Evaluation
pub mod Division
-- products of polynomials, whose first coefficient is the highest.
use vpp_wl_mobile.Prelude.{
  ℕ, zero, suc, ◌+◌, ◌-◌, ◌*◌, ◌/◌, ◌%◌, List, [], ◌∷◌, ◌++◌, eqb, if◌then◌else◌, length, replicate,
  drop,
}
use Prim.Native.Nat.{bit_xor}

-- The doubling of `left` in the loop of `_gf_multiply`: a shift, reduced by 0x11D if a bit is lost.
unfoldable pub double : ℕ → ℕ
double left = bit_xor (left * 2 % 256) (left / 128 % 2 * 0x1D)

-- The rounds of the loop that are left, and its three variables.
unfoldable pub multiply_rounds : ℕ → ℕ → ℕ → ℕ → ℕ
unfolding double
multiply_rounds zero left right value = value
multiply_rounds (suc n) left right value =
    multiply_rounds n (double left) (right / 2)
      (if eqb (right % 2) 1 then bit_xor value left else value)

-- `_gf_multiply`
unfoldable pub gf_multiply : ℕ → ℕ → ℕ
unfolding multiply_rounds
gf_multiply left right = multiply_rounds 8 left right 0

power_rounds : ℕ → ℕ → ℕ → ℕ
unfolding gf_multiply
power_rounds zero value result = result
power_rounds (suc n) value result = power_rounds n value (gf_multiply result value)

-- `_gf_pow`
unfoldable pub gf_pow : ℕ → ℕ → ℕ
unfolding power_rounds
gf_pow value power = power_rounds power value 1

-- `result[index] ^= value`
unfoldable pub xor_at : ℕ → ℕ → List ℕ → List ℕ
xor_at index value [] = []
xor_at zero value (x ∷ xs) = bit_xor x value ∷ xs
xor_at (suc index) value (x ∷ xs) = x ∷ xor_at index value xs

-- The inner and the outer loop of `_poly_multiply`, with the index that they have reached.
unfoldable pub add_row : ℕ → ℕ → List ℕ → List ℕ → List ℕ
unfolding xor_at gf_multiply
add_row index left [] result = result
add_row index left (right ∷ rest) result =
    add_row (index + 1) left rest (xor_at index (gf_multiply left right) result)

unfoldable pub add_rows : ℕ → List ℕ → List ℕ → List ℕ → List ℕ
unfolding add_row
add_rows index [] right result = result
add_rows index (left ∷ rest) right result =
    add_rows (index + 1) rest right (add_row index left right result)

-- `_poly_multiply`
unfoldable pub poly_multiply : List ℕ → List ℕ → List ℕ
unfolding add_rows
poly_multiply left right = add_rows 0 left right (replicate (length left + length right - 1) 0)

-- The loop that multiplies out the generator, for the rounds that are left.
unfoldable pub generator_rounds : ℕ → ℕ → List ℕ → List ℕ
unfolding poly_multiply gf_pow
generator_rounds zero i generator = generator
generator_rounds (suc n) i generator =
    generator_rounds n (i + 1) (poly_multiply generator (1 ∷ gf_pow 2 i ∷ []))

unfoldable pub generator : ℕ → List ℕ
unfolding generator_rounds
generator degree = generator_rounds degree 0 (1 ∷ [])

-- `remainder[index] ^= _gf_multiply(generator[index + 1], factor)` for each index: `terms` is the
-- generator from its second coefficient on.
unfoldable pub subtract_terms : ℕ → List ℕ → List ℕ → List ℕ
unfolding gf_multiply
subtract_terms factor [] terms = []
subtract_terms factor (r ∷ rs) [] = r ∷ rs
subtract_terms factor (r ∷ rs) (g ∷ gs) =
    bit_xor r (gf_multiply g factor) ∷ subtract_terms factor rs gs

-- One byte of the data. `pop(0)` of an empty list would raise; the degree is never 0.
unfoldable pub divide_step : List ℕ → List ℕ → ℕ → List ℕ
unfolding subtract_terms
divide_step gen [] byte = []
divide_step gen (r ∷ rs) byte =
    let factor = bit_xor byte r in
    if eqb factor 0 then rs ++ 0 ∷ [] else subtract_terms factor (rs ++ 0 ∷ []) (drop 1 gen)

unfoldable pub divide : List ℕ → List ℕ → List ℕ → List ℕ
unfolding divide_step
divide gen remainder [] = remainder
divide gen remainder (byte ∷ message) = divide gen (divide_step gen remainder byte) message

-- `_reed_solomon_remainder`
unfoldable pub reed_solomon_remainder : List ℕ → ℕ → List ℕ
unfolding divide generator
reed_solomon_remainder message degree = divide (generator degree) (replicate degree 0) message
