-- ===== src/Errors/Chain.antt =====
-- Chains of pure steps that may raise.
use vpp_wl_mobile.Prelude.{ap, refl, ◌≡◌, Bool, true, false, Option, none, some}
use vpp_wl_mobile.Errors.{Result, ok, raised, Error}

infixl 5 ◌>>=◌ ◌>>◌
abbrev pub ◌>>=◌ {ℓ κ} : {A : Type ℓ} {B : Type κ} → Result A → (A → Result B) → Result B
ok a >>= f = f a
raised e >>= f = raised e

abbrev pub ◌>>◌ {ℓ κ} : {A : Type ℓ} {B : Type κ} → Result A → Result B → Result B
m >> k = m >>= λ _. k

-- `if c: raise e`
abbrev pub fail_if : Bool → Error → Result (Unit {0})
fail_if true e = raised e
fail_if false e = ok tt

-- `if o is None: raise e`
abbrev pub or_fail {ℓ} : {A : Type ℓ} → Option A → Error → Result A
or_fail none e = raised e
or_fail (some a) e = ok a

-- What a chain that ends well went through.
module _ {ℓ κ} {A : Type ℓ} {B : Type κ} where
  pub >>=-inv :
      (m : Result A) (f : A → Result B) (b : B)
      → (m >>= f) ≡ ok b
      → (a : A) × (m ≡ ok a) × (f a ≡ ok b)
  >>=-inv (ok a) f b h = (a, refl, h)
  >>=-inv (raised e) f b h = absurd (cc)

pub fail_if-inv {κ} :
    {B : Type κ} (c : Bool) (e : Error) (rest : Result B) (b : B)
    → (fail_if c e >> rest) ≡ ok b
    → (c ≡ false) × (rest ≡ ok b)
fail_if-inv true e rest b h = absurd (cc)
fail_if-inv false e rest b h = (refl, h)

abbrev or_value {ℓ} : {A : Type ℓ} → A → Result A → A
or_value a (ok b) = b
or_value a (raised e) = a

pub ok-inj {ℓ} : {A : Type ℓ} {a b : A} → ok a ≡ ok b → a ≡ b
ok-inj {a} h = ap (or_value a) h
