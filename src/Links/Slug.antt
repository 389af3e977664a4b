-- ===== src/Links/Slug.antt =====
-- `_slugify` of backend/app/domain/vless_parser.py.
pub mod Squeezed
use vpp_wl_mobile.Prelude.{
  ℕ, zero, suc, String, Bool, true, false, ◌&&◌, ◌||◌, [], eqb, if◌then◌else◌, str_len, is_empty,
  strip,
}
use Prim.Native.Char.{Char, code}

abbrev pub is_dash : Char → Bool
is_dash c = eqb (code c) 45

-- `ch in {" ", "-", "_", ".", "·"}`
abbrev pub is_separator : Char → Bool
is_separator c =
    eqb (code c) 32 || is_dash c || eqb (code c) 95 || eqb (code c) 46 || eqb (code c) 183

-- The loop over the characters; `isalnum` is `str.isalnum` of one character.
unfoldable pub slug_characters : (Char → Bool) → String → String
slug_characters isalnum String.[] = String.[]
slug_characters isalnum (String.◌∷◌ c s) =
    let rest = slug_characters isalnum s in
    if isalnum c then String.◌∷◌ c rest else if is_separator c then String.◌∷◌ "-" rest else rest

-- `s.strip("-")`
unfoldable pub lstrip_dashes : String → String
lstrip_dashes String.[] = String.[]
lstrip_dashes (String.◌∷◌ c s) = if is_dash c then lstrip_dashes s else String.◌∷◌ c s

unfoldable pub rstrip_dashes : String → String
unfolding is_empty
rstrip_dashes String.[] = String.[]
rstrip_dashes (String.◌∷◌ c s) =
    let rest = rstrip_dashes s in
    if is_dash c && is_empty rest then String.[] else String.◌∷◌ c rest

-- `"--" in s`
unfoldable pub has_double : String → Bool
has_double String.[] = false
has_double (String.◌∷◌ c String.[]) = false
has_double (String.◌∷◌ c (String.◌∷◌ d s)) = (is_dash c && is_dash d) || has_double (String.◌∷◌ d s)

-- `s.replace("--", "-")`, from left to right.
unfoldable pub replace_double : String → String
replace_double String.[] = String.[]
replace_double (String.◌∷◌ c String.[]) = String.◌∷◌ c String.[]
replace_double (String.◌∷◌ c (String.◌∷◌ d s)) =
    let after_both = replace_double s in
    let after_one = replace_double (String.◌∷◌ d s) in
    if is_dash c && is_dash d then String.◌∷◌ c after_both else String.◌∷◌ c after_one

-- `while "--" in slug: slug = slug.replace("--", "-")`. A round makes the slug shorter, so as many
-- rounds as it has characters are enough.
unfoldable pub squeeze : ℕ → String → String
unfolding has_double replace_double
squeeze zero slug = slug
squeeze (suc fuel) slug = elim (has_double slug) [
  | true ↦ squeeze fuel (replace_double slug)
  | false ↦ slug
]

-- `_slugify`, for a value in lower case.
unfoldable pub slugify : (Char → Bool) → String → String
unfolding slug_characters lstrip_dashes rstrip_dashes squeeze str_len
slugify isalnum value =
    let slug = rstrip_dashes (lstrip_dashes (slug_characters isalnum value)) in
    squeeze (str_len slug) slug
