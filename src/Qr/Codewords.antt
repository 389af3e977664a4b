-- ===== src/Qr/Codewords.antt =====
-- The data codewords of backend/app/domain/qr_svg.py. A bit is 0 or 1.
pub mod RoundTrip
use vpp_wl_mobile.Prelude.{
  ℕ, zero, suc, ◌+◌, ◌-◌, ◌*◌, ◌/◌, ◌%◌, min, List, [], ◌∷◌, ◌++◌, map, eqb, if◌then◌else◌, length,
  replicate,
}
use Prim.Native.Nat.{◌^◌}

abbrev pub data_codewords_count : ℕ
data_codewords_count = 108

-- `range(7, -1, -1)`
abbrev pub shifts : List ℕ
shifts = 7 ∷ 6 ∷ 5 ∷ 4 ∷ 3 ∷ 2 ∷ 1 ∷ 0 ∷ []

-- `(byte >> shift) & 1 for shift in range(7, -1, -1)`
unfoldable pub byte_bits : ℕ → List ℕ
byte_bits byte = map (λ shift. byte / 2 ^ shift % 2) shifts

-- `for byte in raw: bits.extend(...)`
unfoldable pub raw_bits : List ℕ → List ℕ
unfolding byte_bits
raw_bits [] = []
raw_bits (byte ∷ raw) = byte_bits byte ++ raw_bits raw

-- `while len(bits) % 8: bits.append(0)`; less than 8 rounds are enough.
unfoldable pub fill_byte : ℕ → List ℕ → List ℕ
fill_byte zero bits = bits
fill_byte (suc fuel) bits =
    let more = fill_byte fuel (bits ++ 0 ∷ []) in if eqb (length bits % 8) 0 then bits else more

-- `sum(bits[index + shift] << (7 - shift) for shift in range(8))` for each group of eight.
unfoldable pub group_bits : List ℕ → List ℕ
group_bits (a ∷ b ∷ c ∷ d ∷ e ∷ f ∷ g ∷ h ∷ bits) =
    (a * 128 + b * 64 + c * 32 + d * 16 + e * 8 + f * 4 + g * 2 + h) ∷ group_bits bits
group_bits bits = []

-- `pads[pad_index % 2]`
abbrev pub pad_word : ℕ → ℕ
pad_word pad_index = if eqb (pad_index % 2) 0 then 0xEC else 0x11

-- The loop that pads the codewords, for the number that is missing.
unfoldable pub pad_words : ℕ → ℕ → List ℕ
pad_words zero pad_index = []
pad_words (suc missing) pad_index = pad_word pad_index ∷ pad_words missing (pad_index + 1)

-- The bits before they are filled up to a byte: mode 4, the length, the bytes, the end.
unfoldable pub message_bits : List ℕ → List ℕ
unfolding byte_bits raw_bits
message_bits raw =
    let bits = (0 ∷ 1 ∷ 0 ∷ 0 ∷ []) ++ (byte_bits (length raw) ++ raw_bits raw) in
    bits ++ replicate (min 4 (data_codewords_count * 8 - length bits)) 0

-- `_data_codewords`
unfoldable pub data_codewords : List ℕ → List ℕ
unfolding message_bits fill_byte group_bits pad_words
data_codewords raw =
    let codewords = group_bits (fill_byte 8 (message_bits raw)) in
    codewords ++ pad_words (data_codewords_count - length codewords) 0
