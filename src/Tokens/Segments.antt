-- ===== src/Tokens/Segments.antt =====
-- Segments of a token: the dot between them, and the padding of base64.
use vpp_wl_mobile.Prelude.{
  or_else, true, none, Option-cases, inr, sym, ◌∙◌, inl, ap, is_empty, Bool-cases, ℕ, zero, suc,
  ◌+◌, String, ◌≡◌, refl, Bool, false, ◌||◌, some, arith, eqb, str_len,
}
use Prim.Native.String.append
use Prim.Native.Char.{Char, code}
use Prim.Native.String.{◌++◌}
use text.Mathlib.TextEquality.{codes_equal}
use vpp_wl_mobile.Tokens.{split_dot, prepend, strip_padding, padding}

unfoldable pub has_dot : String → Bool
has_dot String.[] = false
has_dot (String.◌∷◌ c s) = eqb (code c) 46 || has_dot s

some-inj : {A : Type 0} {a b : A} → some a ≡ some b → a ≡ b
some-inj {a} h = ap (λ o. or_else o a) h

-- A text that does not start with the dot is split where the rest of it is.
split_dot-other :
    (c : Char) (s : String)
    → eqb (code c) 46 ≡ false
    → split_dot (String.◌∷◌ c s) ≡ prepend c (split_dot s)
unfolding split_dot
split_dot-other c s e = rw e refl

split_dot-dot :
    (c : Char) (s : String)
    → eqb (code c) 46 ≡ true
    → split_dot (String.◌∷◌ c s) ≡ some (String.[], s)
unfolding split_dot
split_dot-dot c s e = rw e refl

pub split_dot-append :
    (front back : String)
    → has_dot front ≡ false
    → split_dot (front ++ String.◌∷◌ "." back) ≡ some (front, back)
unfolding split_dot has_dot
split_dot-append String.[] back h = ap split_dot (append.nil (String.◌∷◌ "." back))
split_dot-append (String.◌∷◌ c s) back h =
    let e : eqb (code c) 46 ≡ false = ground arith in
    ap split_dot (append.cons c s (String.◌∷◌ "." back))
    ∙ split_dot-other c (s ++ String.◌∷◌ "." back) e
    ∙ rw (split_dot-append s back (ground arith)) refl

-- A token that is split is its two parts and the dot.
pub split_dot-some :
    (token front back : String)
    → split_dot token ≡ some (front, back)
    → token ≡ front ++ String.◌∷◌ "." back
unfolding split_dot
split_dot-some String.[] front back h = absurd (cc)
split_dot-some (String.◌∷◌ c s) front back h = elim (Bool-cases (eqb (code c) 46)) [
  | inl e ↦
      let parts : (String.[], s) ≡ (front, back) = some-inj (sym (split_dot-dot c s e) ∙ h) in
      let is_dot : c ≡ "." = codes_equal c "." (ground arith) in
      sym (append.nil (String.◌∷◌ c s)) ∙ (λ i. (parts i).0 ++ String.◌∷◌ (is_dot i) (parts i).1)
  | inr e ↦ elim (Option-cases (split_dot s)) [
    | inl n ↦
        let nothing : none ≡ some (front, back) =
          ap (prepend c) (sym n) ∙ sym (split_dot-other c s e) ∙ h in
        absurd (cc)
    | inr ((f, b), q) ↦
        let parts : (String.◌∷◌ c f, b) ≡ (front, back) =
          some-inj (ap (prepend c) (sym q) ∙ sym (split_dot-other c s e) ∙ h) in
        ap (String.◌∷◌ c) (split_dot-some s f b q)
        ∙ sym (append.cons c f (String.◌∷◌ "." b))
        ∙ (λ i. (parts i).0 ++ String.◌∷◌ "." (parts i).1)
  ]
]

strip_padding-padding : (k : ℕ) → strip_padding (padding k) ≡ String.[]
unfolding strip_padding padding is_empty
strip_padding-padding zero = refl
strip_padding-padding (suc k) = rw (strip_padding-padding k) refl

pub strip_padding-append :
    (core : String) (k : ℕ) → strip_padding (core ++ padding k) ≡ strip_padding core
unfolding strip_padding padding is_empty
strip_padding-append String.[] k = rw (append.nil (padding k)) (strip_padding-padding k)
strip_padding-append (String.◌∷◌ c s) k =
    rw (append.cons c s (padding k)) (rw (strip_padding-append s k) refl)

pub str_len-append : (s t : String) → str_len (s ++ t) ≡ str_len s + str_len t
unfolding str_len
str_len-append String.[] t = rw (append.nil t) (omega arith)
str_len-append (String.◌∷◌ c s) t = rw (append.cons c s t) (omega (arith, str_len-append s t))
