-- ===== src/Prelude/Order.antt =====
-- Sort keys: tests "strictly below" on numbers and texts, and on tuples of them.
use vpp_wl_mobile.Prelude.Tests.{ltb, eqb}
use vpp_wl_mobile.Prelude.Int.{ltb_ℤ}
use Prim.Native.Nat.{ℕ}
use Prim.Native.Char.{code}
use Prim.Native.String.{String}
use mathlib.Core.Path.{◌≡◌, refl}
use mathlib.Core.Bool.{Bool, true, false, not, ◌&&◌, ◌||◌}
use native.Mathlib.Omega.{arith}

-- A test that orders: never both ways, and with incomparability passed on.
pub record IsOrder {ℓ} {A : Type ℓ} (before : A → A → Bool) : Type ℓ where
  pub asym : (a b : A) → before a b ≡ true → before b a ≡ false
  pub negtrans : (a b c : A) → before b a ≡ false → before c b ≡ false → before c a ≡ false

-- Texts by the numbers of their characters, as Python compares them.
unfoldable pub ltb_text : String → String → Bool
ltb_text String.[] String.[] = false
ltb_text String.[] (String.◌∷◌ d t) = true
ltb_text (String.◌∷◌ c s) String.[] = false
ltb_text (String.◌∷◌ c s) (String.◌∷◌ d t) =
    ltb (code c) (code d) || (eqb (code c) (code d) && ltb_text s t)

text-asym : (s t : String) → ltb_text s t ≡ true → ltb_text t s ≡ false
unfolding ltb_text
text-asym String.[] String.[] h = refl
text-asym String.[] (String.◌∷◌ d t) h = refl
text-asym (String.◌∷◌ c s) String.[] h = cc
text-asym (String.◌∷◌ c s) (String.◌∷◌ d t) h = ground (arith, text-asym s t)

text-negtrans :
    (a b c : String) → ltb_text b a ≡ false → ltb_text c b ≡ false → ltb_text c a ≡ false
unfolding ltb_text
text-negtrans String.[] String.[] String.[] h k = refl
text-negtrans String.[] String.[] (String.◌∷◌ e c) h k = refl
text-negtrans String.[] (String.◌∷◌ d b) String.[] h k = refl
text-negtrans String.[] (String.◌∷◌ d b) (String.◌∷◌ e c) h k = refl
text-negtrans (String.◌∷◌ x a) String.[] String.[] h k = h
text-negtrans (String.◌∷◌ x a) String.[] (String.◌∷◌ e c) h k = ground arith
text-negtrans (String.◌∷◌ x a) (String.◌∷◌ d b) String.[] h k = k
text-negtrans (String.◌∷◌ x a) (String.◌∷◌ d b) (String.◌∷◌ e c) h k =
    ground (arith, text-negtrans a b c)

module _ {ℓ} {A : Type ℓ} where
  -- The order of the key `f`, over the order of the keys.
  pub by_key-IsOrder {κ} :
      {K : Type κ} (before : K → K → Bool) (f : A → K)
      → IsOrder before
      → IsOrder {A = A} (λ a b. before (f a) (f b))
  by_key-IsOrder before f o = record {
    asym = λ a b. o.asym (f a) (f b);
    negtrans = λ a b c. o.negtrans (f a) (f b) (f c);
  }

  -- A pair of keys: the second decides where the first does not.
  abbrev pub lex : (A → A → Bool) → (A → A → Bool) → A → A → Bool
  lex p q a b = p a b || (not (p b a) && q a b)

  pub lex-IsOrder : (p q : A → A → Bool) → IsOrder p → IsOrder q → IsOrder (lex p q)
  lex-IsOrder p q o r = record {
    asym = λ a b h. ground (arith, o.asym a b, r.asym a b);
    negtrans = λ a b c h k.
        ground (arith, o.negtrans a b c, o.negtrans b c a, o.negtrans c a b, r.negtrans a b c);
  }

pub ltb-IsOrder : IsOrder ltb
ltb-IsOrder = record { asym = λ a b h. ground arith; negtrans = λ a b c h k. ground arith }

pub gtb-IsOrder : IsOrder (λ (a b : ℕ). ltb b a)
gtb-IsOrder = record { asym = λ a b h. ground arith; negtrans = λ a b c h k. ground arith }

pub ltb_ℤ-IsOrder : IsOrder ltb_ℤ
ltb_ℤ-IsOrder = record { asym = λ a b h. ground arith; negtrans = λ a b c h k. ground arith }

pub ltb_text-IsOrder : IsOrder ltb_text
ltb_text-IsOrder = record { asym = text-asym; negtrans = text-negtrans }
