-- ===== src/Qr/Codewords/RoundTrip.antt =====
-- The data codewords of a message hold the message.
use vpp_wl_mobile.Prelude.{
  replicate, true, min, subst, length-append, ◌%◌, ◌/◌, sym, ◌-◌, ◌∙◌, All-append, ◌≤◌, ℕ, zero,
  suc, ◌+◌, ◌*◌, ◌<◌, ◌≡◌, refl, ap, Option, none, some, List, [], ◌∷◌, ◌++◌, arith, eqb,
  if◌then◌else◌, length, All,
}
use vpp_wl_mobile.Qr.Codewords.{
  data_codewords, fill_byte, message_bits, group_bits, pad_words, byte_bits, raw_bits,
}
use mathlib.Core.List.{append_assoc}
use vpp_wl_mobile.Qr.Field.Evaluation.{IsByte}

abbrev pub IsBit : ℕ → Type 0
IsBit b = b < 2

-- What a reader of the code does, written for itself: the number that `n` bits stand for, the bytes
-- that follow one another, and the message behind its mode and its length.
unfoldable pub read_number : ℕ → ℕ → List ℕ → Option (ℕ × List ℕ)
read_number zero acc bits = some (acc, bits)
read_number (suc n) acc [] = none
read_number (suc n) acc (b ∷ bits) = read_number n (acc * 2 + b) bits

unfoldable pub read_bytes : ℕ → List ℕ → Option (List ℕ)
unfolding read_number
read_bytes zero bits = some []
read_bytes (suc n) bits = elim (read_number 8 0 bits) [
  | none ↦ none
  | some (b, rest) ↦ elim (read_bytes n rest) [ none ↦ none | some bs ↦ some (b ∷ bs) ]
]

unfoldable pub read_message : List ℕ → Option (List ℕ)
unfolding read_number read_bytes
read_message bits = elim (read_number 4 0 bits) [
  | none ↦ none
  | some (mode, rest) ↦
      if eqb mode 4
      then (elim (read_number 8 0 rest) [ none ↦ none | some (n, rest') ↦ read_bytes n rest' ])
      else none
]

read_number-byte_bits :
    (b : ℕ) (rest : List ℕ) → IsByte b → read_number 8 0 (byte_bits b ++ rest) ≡ some (b, rest)
unfolding read_number byte_bits
read_number-byte_bits b rest h = ap (λ (x : ℕ). some (x, rest)) (omega arith)

read_bytes-raw_bits :
    (raw rest : List ℕ) → All IsByte raw → read_bytes (length raw) (raw_bits raw ++ rest) ≡ some raw
unfolding read_bytes raw_bits
read_bytes-raw_bits [] rest h = refl
read_bytes-raw_bits (b ∷ raw) rest h =
    rw (read_bytes-raw_bits raw rest h.1) (ap (λ (x : ℕ). some (x ∷ raw)) (omega arith))

byte_bits-IsBit : (b : ℕ) → All IsBit (byte_bits b)
unfolding byte_bits
byte_bits-IsBit b = omega arith

pub raw_bits-IsBit : (raw : List ℕ) → All IsBit (raw_bits raw)
unfolding raw_bits
raw_bits-IsBit [] = tt
raw_bits-IsBit (b ∷ raw) =
    All-append IsBit (byte_bits b) (raw_bits raw) (byte_bits-IsBit b) (raw_bits-IsBit raw)

pub length-raw_bits : (raw : List ℕ) → length (raw_bits raw) ≡ 8 * length raw
unfolding raw_bits byte_bits
length-raw_bits [] = refl
length-raw_bits (b ∷ raw) = omega (arith, length-raw_bits raw)

pub raw_bits-append : (xs ys : List ℕ) → raw_bits (xs ++ ys) ≡ raw_bits xs ++ raw_bits ys
unfolding raw_bits
raw_bits-append [] ys = refl
raw_bits-append (x ∷ xs) ys =
    ap (λ l. byte_bits x ++ l) (raw_bits-append xs ys)
    ∙ sym (append_assoc (byte_bits x) (raw_bits xs) (raw_bits ys))

-- Bits in whole groups come back from their bytes.
raw_bits-group_bits :
    (k : ℕ) (bits : List ℕ)
    → length bits ≡ 8 * k
    → All IsBit bits
    → raw_bits (group_bits bits) ≡ bits
unfolding raw_bits group_bits byte_bits
raw_bits-group_bits k [] e h = refl
raw_bits-group_bits k (a ∷ []) e h = absurd (omega arith)
raw_bits-group_bits k (a ∷ b ∷ []) e h = absurd (omega arith)
raw_bits-group_bits k (a ∷ b ∷ c ∷ []) e h = absurd (omega arith)
raw_bits-group_bits k (a ∷ b ∷ c ∷ d ∷ []) e h = absurd (omega arith)
raw_bits-group_bits k (a ∷ b ∷ c ∷ d ∷ x ∷ []) e h = absurd (omega arith)
raw_bits-group_bits k (a ∷ b ∷ c ∷ d ∷ x ∷ f ∷ []) e h = absurd (omega arith)
raw_bits-group_bits k (a ∷ b ∷ c ∷ d ∷ x ∷ f ∷ g ∷ []) e h = absurd (omega arith)
raw_bits-group_bits k (a ∷ b ∷ c ∷ d ∷ x ∷ f ∷ g ∷ y ∷ bits) e
      (ha, (hb, (hc, (hd, (hx, (hf, (hg, (hy, h)))))))) =
    let w = a * 128 + b * 64 + c * 32 + d * 16 + x * 8 + f * 4 + g * 2 + y in
    let p0 : w / 128 % 2 ≡ a = omega arith in
    let p1 : w / 64 % 2 ≡ b = omega arith in
    let p2 : w / 32 % 2 ≡ c = omega arith in
    let p3 : w / 16 % 2 ≡ d = omega arith in
    let p4 : w / 8 % 2 ≡ x = omega arith in
    let p5 : w / 4 % 2 ≡ f = omega arith in
    let p6 : w / 2 % 2 ≡ g = omega arith in
    let p7 : w / 1 % 2 ≡ y = omega arith in
    let rest = raw_bits-group_bits (k - 1) bits (omega arith) h in
    λ i. p0 i ∷ p1 i ∷ p2 i ∷ p3 i ∷ p4 i ∷ p5 i ∷ p6 i ∷ p7 i ∷ rest i

group_bits-IsByte :
    (k : ℕ) (bits : List ℕ)
    → length bits ≡ 8 * k
    → All IsBit bits
    → (length (group_bits bits) ≡ k) × All IsByte (group_bits bits)
unfolding group_bits
group_bits-IsByte k [] e h = (omega arith, tt)
group_bits-IsByte k (a ∷ []) e h = absurd (omega arith)
group_bits-IsByte k (a ∷ b ∷ []) e h = absurd (omega arith)
group_bits-IsByte k (a ∷ b ∷ c ∷ []) e h = absurd (omega arith)
group_bits-IsByte k (a ∷ b ∷ c ∷ d ∷ []) e h = absurd (omega arith)
group_bits-IsByte k (a ∷ b ∷ c ∷ d ∷ x ∷ []) e h = absurd (omega arith)
group_bits-IsByte k (a ∷ b ∷ c ∷ d ∷ x ∷ f ∷ []) e h = absurd (omega arith)
group_bits-IsByte k (a ∷ b ∷ c ∷ d ∷ x ∷ f ∷ g ∷ []) e h = absurd (omega arith)
group_bits-IsByte k (a ∷ b ∷ c ∷ d ∷ x ∷ f ∷ g ∷ y ∷ bits) e
      (ha, (hb, (hc, (hd, (hx, (hf, (hg, (hy, h)))))))) =
    let (len, bytes) = group_bits-IsByte (k - 1) bits (omega arith) h in
    (omega arith, (omega arith, bytes))

pad_words-IsByte : (n i : ℕ) → (length (pad_words n i) ≡ n) × All IsByte (pad_words n i)
unfolding pad_words
pad_words-IsByte zero i = (refl, tt)
pad_words-IsByte (suc n) i =
    let (len, bytes) = pad_words-IsByte n (i + 1) in (omega arith, (ground arith, bytes))

-- The bits of a message that fits.
module _ (raw : List ℕ) (short : length raw ≤ 106) where
  abbrev body : List ℕ
  body = byte_bits (length raw) ++ raw_bits raw

  length-body : length body ≡ 8 + 8 * length raw
  unfolding byte_bits
  length-body = omega (arith, length-raw_bits raw)

  message_bits_lem : message_bits raw ≡ (0 ∷ 1 ∷ 0 ∷ 0 ∷ []) ++ (body ++ (0 ∷ 0 ∷ 0 ∷ 0 ∷ []))
  unfolding message_bits
  message_bits_lem =
      let e : min 4 (864 - length ((0 ∷ 1 ∷ 0 ∷ 0 ∷ []) ++ body)) ≡ 4 =
        omega (arith, length-body) in
      ap (λ n. ((0 ∷ 1 ∷ 0 ∷ 0 ∷ []) ++ body) ++ replicate n 0) e

  length-message_bits : length (message_bits raw) ≡ 8 * (length raw + 2)
  length-message_bits =
      ap length message_bits_lem
      ∙ omega (arith, length-append body (0 ∷ 0 ∷ 0 ∷ 0 ∷ []), length-body)

  message_bits-IsBit : All IsBit (message_bits raw)
  message_bits-IsBit = subst (All IsBit) (sym message_bits_lem) (
    omega arith,
    (
      omega arith,
      (
        omega arith,
        (
          omega arith,
          All-append IsBit body (0 ∷ 0 ∷ 0 ∷ 0 ∷ [])
              (All-append IsBit (byte_bits (length raw)) (raw_bits raw)
                (byte_bits-IsBit (length raw)) (raw_bits-IsBit raw))
              (omega arith),
        ),
      ),
    ),
  )

  fill_byte-whole : fill_byte 8 (message_bits raw) ≡ message_bits raw
  unfolding fill_byte
  fill_byte-whole =
      let e : eqb (length (message_bits raw) % 8) 0 ≡ true = ground (arith, length-message_bits) in
      rw e refl

  read_message-bits :
      (rest : List ℕ) → All IsByte raw → read_message (message_bits raw ++ rest) ≡ some raw
  unfolding read_message read_number
  read_message-bits rest bytes =
      let tail = raw_bits raw ++ ((0 ∷ 0 ∷ 0 ∷ 0 ∷ []) ++ rest) in
      let e : message_bits raw ++ rest ≡ 0 ∷ 1 ∷ 0 ∷ 0 ∷ (byte_bits (length raw) ++ tail) =
        ap (λ l. l ++ rest) message_bits_lem
        ∙ ap (λ l. 0 ∷ 1 ∷ 0 ∷ 0 ∷ l)
            (append_assoc body (0 ∷ 0 ∷ 0 ∷ 0 ∷ []) rest
              ∙ append_assoc (byte_bits (length raw)) (raw_bits raw)
                  ((0 ∷ 0 ∷ 0 ∷ 0 ∷ []) ++ rest)) in
      rw e (
        rw (read_number-byte_bits (length raw) tail (omega arith))
          (read_bytes-raw_bits raw ((0 ∷ 0 ∷ 0 ∷ 0 ∷ []) ++ rest) bytes))

-- A message of at most 106 bytes becomes exactly 108 bytes, and whoever reads their bits, the mode
-- 4, the length and that many bytes, gets the message back, whatever bits follow.
pub read_message-data_codewords :
    (raw rest : List ℕ)
    → length raw ≤ 106
    → All IsByte raw
    → (length (data_codewords raw) ≡ 108)
      × All IsByte (data_codewords raw)
      × (read_message (raw_bits (data_codewords raw) ++ rest) ≡ some raw)
unfolding data_codewords
read_message-data_codewords raw rest short bytes =
    let bits = message_bits raw in
    let whole = length-message_bits raw short in
    let are_bits = message_bits-IsBit raw short in
    let (len, data_bytes) = group_bits-IsByte (length raw + 2) bits whole are_bits in
    let words = group_bits bits in
    let pads = pad_words (108 - length words) 0 in
    let (pads_len, pads_bytes) = pad_words-IsByte (108 - length words) 0 in
    rw (fill_byte-whole raw short) (
      length-append words pads ∙ omega arith,
      All-append IsByte words pads data_bytes pads_bytes,
      ap (λ l. read_message (l ++ rest))
            (raw_bits-append words pads
              ∙ ap (λ l. l ++ raw_bits pads)
                  (raw_bits-group_bits (length raw + 2) bits whole are_bits))
          ∙ ap read_message (append_assoc bits (raw_bits pads) rest)
          ∙ read_message-bits raw short (raw_bits pads ++ rest) bytes,
    )
