-- ===== src/Links/Slug/Squeezed.antt =====
-- The loop of `_slugify` ends, and what a slug looks like.
use vpp_wl_mobile.Prelude.{
  zero, suc, inr, ◌∙◌, inl, ◌&&◌, ℕ, Bool-cases, ◌≤◌, ◌<◌, String, ◌≡◌, refl, Bool, true, false,
  arith, str_len, is_empty,
}
use vpp_wl_mobile.Links.Slug.{
  slug_characters, slugify, rstrip_dashes, squeeze, lstrip_dashes, is_dash, has_double,
  replace_double,
}
use Prim.Native.Char.{Char}

-- The first and the last character is a dash.
unfoldable pub starts_dash : String → Bool
starts_dash String.[] = false
starts_dash (String.◌∷◌ c s) = is_dash c

unfoldable pub ends_dash : String → Bool
ends_dash String.[] = false
ends_dash (String.◌∷◌ c String.[]) = is_dash c
ends_dash (String.◌∷◌ c (String.◌∷◌ d s)) = ends_dash (String.◌∷◌ d s)

length-replace_double : (s : String) → str_len (replace_double s) ≤ str_len s
unfolding replace_double str_len
length-replace_double String.[] = omega arith
length-replace_double (String.◌∷◌ c String.[]) = omega arith
length-replace_double (String.◌∷◌ c (String.◌∷◌ d s)) =
    let both = length-replace_double s in
    let one = length-replace_double (String.◌∷◌ d s) in ground arith

-- A slug with a double dash gets shorter.
replace_double-shorter : (s : String) → has_double s ≡ true → str_len (replace_double s) < str_len s
unfolding replace_double str_len has_double
replace_double-shorter String.[] h = absurd (cc)
replace_double-shorter (String.◌∷◌ c String.[]) h = absurd (cc)
replace_double-shorter (String.◌∷◌ c (String.◌∷◌ d s)) h =
    let both = length-replace_double s in
    let one = replace_double-shorter (String.◌∷◌ d s) in ground arith

starts_dash-replace_double : (s : String) → starts_dash (replace_double s) ≡ starts_dash s
unfolding replace_double starts_dash
starts_dash-replace_double String.[] = refl
starts_dash-replace_double (String.◌∷◌ c String.[]) = refl
starts_dash-replace_double (String.◌∷◌ c (String.◌∷◌ d s)) = ground arith

ends_dash-cons :
    (c : Char) (s t : String)
    → is_empty s ≡ is_empty t
    → ends_dash s ≡ ends_dash t
    → ends_dash (String.◌∷◌ c s) ≡ ends_dash (String.◌∷◌ c t)
unfolding ends_dash is_empty
ends_dash-cons c String.[] String.[] h e = refl
ends_dash-cons c String.[] (String.◌∷◌ d t) h e = absurd (cc)
ends_dash-cons c (String.◌∷◌ d s) String.[] h e = absurd (cc)
ends_dash-cons c (String.◌∷◌ d s) (String.◌∷◌ d' t) h e = e

is_empty-replace_double : (s : String) → is_empty (replace_double s) ≡ is_empty s
unfolding replace_double is_empty
is_empty-replace_double String.[] = refl
is_empty-replace_double (String.◌∷◌ c String.[]) = refl
is_empty-replace_double (String.◌∷◌ c (String.◌∷◌ d s)) = ground arith

ends_dash-swap :
    (c d : Char) (s : String)
    → is_dash c ≡ is_dash d
    → ends_dash (String.◌∷◌ c s) ≡ ends_dash (String.◌∷◌ d s)
unfolding ends_dash
ends_dash-swap c d String.[] h = h
ends_dash-swap c d (String.◌∷◌ x s) h = refl

ends_dash-replace_double : (s : String) → ends_dash (replace_double s) ≡ ends_dash s
unfolding replace_double ends_dash
ends_dash-replace_double String.[] = refl
ends_dash-replace_double (String.◌∷◌ c String.[]) = refl
ends_dash-replace_double (String.◌∷◌ c (String.◌∷◌ d s)) =
    let both =
      ends_dash-cons c (replace_double s) s (is_empty-replace_double s)
        (ends_dash-replace_double s) in
    let one =
      ends_dash-cons c (replace_double (String.◌∷◌ d s)) (String.◌∷◌ d s)
        (is_empty-replace_double (String.◌∷◌ d s)) (ends_dash-replace_double (String.◌∷◌ d s)) in
    elim (Bool-cases (is_dash c && is_dash d)) [
      | inl e ↦ rw e (both ∙ ends_dash-swap c d s (ground arith))
      | inr e ↦ rw e one
    ]

-- The loop, in as many rounds as there are characters, leaves no double dash and keeps both ends.
squeeze_lem :
    (fuel : ℕ) (s : String)
    → str_len s ≤ fuel
    → (has_double (squeeze fuel s) ≡ false)
      × (starts_dash (squeeze fuel s) ≡ starts_dash s)
      × (ends_dash (squeeze fuel s) ≡ ends_dash s)
unfolding squeeze str_len has_double
squeeze_lem zero String.[] h = (refl, refl, refl)
squeeze_lem zero (String.◌∷◌ c s) h = absurd (omega arith)
squeeze_lem (suc fuel) s h = elim (Bool-cases (has_double s)) [
  | inl e ↦
      let shorter = replace_double-shorter s e in
      let t = squeeze_lem fuel (replace_double s) (omega arith) in
      rw (e, squeeze) (t.0, t.1 ∙ starts_dash-replace_double s, t.2 ∙ ends_dash-replace_double s)
  | inr e ↦ rw (e, squeeze) (e, refl, refl)
]

starts_dash-lstrip_dashes : (s : String) → starts_dash (lstrip_dashes s) ≡ false
unfolding lstrip_dashes starts_dash
starts_dash-lstrip_dashes String.[] = refl
starts_dash-lstrip_dashes (String.◌∷◌ c s) = let rest = starts_dash-lstrip_dashes s in ground arith

starts_dash-rstrip_dashes :
    (s : String) → starts_dash s ≡ false → starts_dash (rstrip_dashes s) ≡ false
unfolding rstrip_dashes starts_dash
starts_dash-rstrip_dashes String.[] h = refl
starts_dash-rstrip_dashes (String.◌∷◌ c s) h = ground arith

ends_dash-rest :
    (c : Char) (s : String) → is_empty s ≡ false → ends_dash (String.◌∷◌ c s) ≡ ends_dash s
unfolding ends_dash is_empty
ends_dash-rest c String.[] h = absurd (cc)
ends_dash-rest c (String.◌∷◌ d s) h = refl

ends_dash-alone :
    (c : Char) (s : String) → is_empty s ≡ true → ends_dash (String.◌∷◌ c s) ≡ is_dash c
unfolding ends_dash is_empty
ends_dash-alone c String.[] h = refl
ends_dash-alone c (String.◌∷◌ d s) h = absurd (cc)

ends_dash-rstrip_dashes : (s : String) → ends_dash (rstrip_dashes s) ≡ false
unfolding rstrip_dashes ends_dash
ends_dash-rstrip_dashes String.[] = refl
ends_dash-rstrip_dashes (String.◌∷◌ c s) =
    let rest = ends_dash-rstrip_dashes s in
    elim (Bool-cases (is_dash c && is_empty (rstrip_dashes s))) [
      | inl e ↦ rw e refl
      | inr e ↦ elim (Bool-cases (is_empty (rstrip_dashes s))) [
        | inl n ↦ rw e (ends_dash-alone c (rstrip_dashes s) n ∙ ground arith)
        | inr n ↦ rw e (ends_dash-rest c (rstrip_dashes s) n ∙ rest)
      ]
    ]

-- The loop of `_slugify` ends: the slug has no two dashes beside each other; and it neither begins
-- nor ends with one, whatever the value is.
pub slugify-squeezed :
    (isalnum : Char → Bool) (value : String)
    → (has_double (slugify isalnum value) ≡ false)
      × (starts_dash (slugify isalnum value) ≡ false)
      × (ends_dash (slugify isalnum value) ≡ false)
unfolding slugify
slugify-squeezed isalnum value =
    let front = lstrip_dashes (slug_characters isalnum value) in
    let slug = rstrip_dashes front in
    let t = squeeze_lem (str_len slug) slug (omega arith) in
    (
      t.0,
      t.1
          ∙ starts_dash-rstrip_dashes front
              (starts_dash-lstrip_dashes (slug_characters isalnum value)),
      t.2 ∙ ends_dash-rstrip_dashes front,
    )
