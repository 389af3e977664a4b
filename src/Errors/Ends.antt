-- ===== src/Errors/Ends.antt =====
-- Chains that end well, in a ValueError or in decimal.InvalidOperation.
use vpp_wl_mobile.Prelude.{
  ◌⊎◌, inl, String, ◌≡◌, refl, subst, Bool, true, false, Option, none, some,
}
use vpp_wl_mobile.Errors.{Result, ok, raised, value_error, invalid_operation, Error}
use vpp_wl_mobile.Errors.Chain.{◌>>=◌, ◌>>◌, fail_if, or_fail}

-- A ValueError with a message, or `decimal.InvalidOperation`.
abbrev pub IsRefusal : Error → Type 0
IsRefusal e = ((m : String) × (e ≡ value_error m)) ⊎ (e ≡ invalid_operation)

-- What is returned satisfies `P`, and what is raised is a refusal.
unfoldable pub Ends : {A : Type 0} → (A → Type 0) → Result A → Type 0
Ends P (ok a) = P a
Ends P (raised e) = IsRefusal e

abbrev pub Anything : {A : Type 0} → A → Type 0
Anything a = Unit

module _ {A B : Type 0} where
  pub bind-Ends :
      (P : A → Type 0) (Q : B → Type 0) (m : Result A) (f : A → Result B)
      → Ends P m
      → ((a : A) → P a → Ends Q (f a))
      → Ends Q (m >>= f)
  unfolding Ends
  bind-Ends P Q (ok a) f p h = h a p
  bind-Ends P Q (raised e) f p h = p

  -- The step only has to end in a ValueError where it raises.
  pub or_fail-Ends :
      (Q : B → Type 0) (o : Option A) (m : String) (f : A → Result B)
      → ((a : A) → Ends Q (f a))
      → Ends Q (or_fail o (value_error m) >>= f)
  unfolding Ends
  or_fail-Ends Q none m f h = inl (m, refl)
  or_fail-Ends Q (some a) m f h = h a

pub fail_if-Ends :
    {B : Type 0} (Q : B → Type 0) (c : Bool) (m : String) (rest : Result B)
    → (c ≡ false → Ends Q rest)
    → Ends Q (fail_if c (value_error m) >> rest)
unfolding Ends
fail_if-Ends Q true m rest h = inl (m, refl)
fail_if-Ends Q false m rest h = h refl

module _ {A : Type 0} (P : A → Type 0) where
  pub Ends-returned : (r : Result A) (a : A) → Ends P r → r ≡ ok a → P a
  unfolding Ends
  Ends-returned r a p h = subst (Ends P) h p

  pub Ends-raised : (r : Result A) (e : Error) → Ends P r → r ≡ raised e → IsRefusal e
  unfolding Ends
  Ends-raised r e p h = subst (Ends P) h p

  pub Ends-ok : (a : A) → P a → Ends P (ok a)
  unfolding Ends
  Ends-ok a p = p

  pub Ends-value_error : (m : String) → Ends P (raised (value_error m))
  unfolding Ends
  Ends-value_error m = inl (m, refl)

  -- A property that holds of all that is returned.
  pub Ends-with : (r : Result A) → Ends Anything r → ((a : A) → r ≡ ok a → P a) → Ends P r
  unfolding Ends
  Ends-with (ok a) e h = h a refl
  Ends-with (raised e) h k = h

  pub Ends-any : (r : Result A) → Ends P r → Ends Anything r
  unfolding Ends
  Ends-any (ok a) p = tt
  Ends-any (raised e) p = p
