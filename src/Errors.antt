-- ===== src/Errors.antt =====
-- What the program raises, and the methods that read and write a state and may raise. What was
-- written before a raise stays written, so the state comes back beside an error too.
pub mod Chain
pub mod Ends
use vpp_wl_mobile.Prelude.{
  ◌∙◌, sym, ap, ◌⊎◌, inl, inr, refl, ◌≡◌, String, Bool, Option, none, some, if◌then◌else◌,
}

-- The members of `http.HTTPStatus` that `ApiError` is raised with.
pub data Status : Type 0 where
  bad_request unauthorized forbidden not_found : Status
  internal_server_error service_unavailable : Status

-- `api` is `ApiError`, whose payload is always `{"error": message}`. `value_error` is `ValueError`
-- and its subclasses (`TokenError`, `YooKassaError`, ...). `integrity_error` is
-- `sqlite3.IntegrityError`, `invalid_operation` is `decimal.InvalidOperation`. The others are Python's own, by name.
pub data Error : Type 0 where
  api : Status → String → Error
  value_error : String → Error
  type_error key_error overflow_error unicode_error integrity_error invalid_operation : Error

pub data Result {ℓ} (A : Type ℓ) : Type ℓ where
  ok : A → Result A
  raised : Error → Result A

abbrev pub Exec : Type 0 → Type 0 → Type 0
Exec S A = S → Result A × S

module _ {S A : Type 0} where
  abbrev pub pure : A → Exec S A
  pure a s = (ok a, s)

  abbrev pub raise : Error → Exec S A
  raise e s = (raised e, s)

  abbrev pub lift : Result A → Exec S A
  lift r s = (r, s)

  abbrev pub gets : (S → A) → Exec S A
  gets f s = (ok (f s), s)

  -- `if o is None: raise e`
  abbrev pub or_raise : Option A → Error → Exec S A
  or_raise none e = raise e
  or_raise (some a) e = pure a

infixl 5 ◌>>=◌ ◌>>◌
abbrev pub ◌>>=◌ : {S A B : Type 0} → Exec S A → (A → Exec S B) → Exec S B
◌>>=◌ m f s = let (r, s') = m s in elim r [ ok a ↦ f a s' | raised e ↦ raise e s' ]

abbrev pub ◌>>◌ : {S A B : Type 0} → Exec S A → Exec S B → Exec S B
m >> k = m >>= λ _. k

abbrev pub raise_if : {S : Type 0} → Bool → Error → Exec S Unit
raise_if c e s = (if c then raised e else ok tt, s)

-- A step that has returned, and one that has raised, under the rest of a block.
pub >>=-ok :
    {S A B : Type 0} (m : Exec S A) (f : A → Exec S B) (s : S) {a : A}
    → (m s).0 ≡ ok a
    → (m >>= f) s ≡ f a (m s).1
>>=-ok m f s h = rw (h, ◌>>=◌) refl

pub >>=-raised :
    {S A B : Type 0} (m : Exec S A) (f : A → Exec S B) (s : S) {e : Error}
    → (m s).0 ≡ raised e
    → (m >>= f) s ≡ (raised e, (m s).1)
>>=-raised m f s h = rw (h, ◌>>=◌) refl

-- How a step that looks for something ends.
pub found-cases :
    {A : Type 0} (r : Result (Option A))
    → ((a : A) × (r ≡ ok (some a))) ⊎ ((r ≡ ok none) ⊎ (e : Error) × (r ≡ raised e))
found-cases (ok (some a)) = inl (a, refl)
found-cases (ok none) = inr (inl refl)
found-cases (raised e) = inr (inr (e, refl))
