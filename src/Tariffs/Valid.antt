-- ===== src/Tariffs/Valid.antt =====
-- What the tariffs that are read are like.
use vpp_wl_mobile.Prelude.{
  eqb, strip, Option-cases, map, ℕ, suc, ◌<◌, String, ◌≡◌, refl, sym, ◌∙◌, subst, inl, inr, false,
  ◌||◌, List, [], ◌∷◌, arith, ltb, Bool-cases, length, All, is_empty,
}
use vpp_wl_mobile.Prelude.Dict
use vpp_wl_mobile.Prelude.Int.{negsuc, ℤ, pos, leb_ℤ, ltb_ℤ, pos_part}
use vpp_wl_mobile.Errors.{Result, ok}
use vpp_wl_mobile.Errors.Chain.{>>=-inv, fail_if-inv, ok-inj, or_fail}
use vpp_wl_mobile.Service.{Python, Tariff}
use vpp_wl_mobile.Tariffs.{
  given_devices, with_price, parse_items, Decimals, default_tariffs, devices_of, tariff_of,
  decimal_price, read_all, with_configured_price, parse_tariffs, csv, split,
}

-- A tariff that can be sold: it has an identifier and a title, and is for a day and a device at
-- least.
pub record IsValid (t : Tariff) : Type 0 where
  pub has_id : is_empty t.id ≡ false
  pub has_title : is_empty t.title ≡ false
  pub has_days : 0 < t.duration_days
  pub has_devices : 0 < t.max_devices

All-anything : {A : Type 0} (xs : List A) → All (λ _. Unit {0}) xs
All-anything [] = tt
All-anything (x ∷ xs) = (tt, All-anything xs)

read_all-All :
    {A B : Type 0} (P : A → Type 0) (Q : B → Type 0) (read : A → Result B)
    (good : (a : A) (b : B) → P a → read a ≡ ok b → Q b) (xs : List A) (ys : List B)
    → All P xs
    → read_all read xs ≡ ok ys
    → All Q ys × (length ys ≡ length xs)
unfolding read_all
read_all-All P Q read good [] ys h e =
    let nothing : [] ≡ ys = ok-inj e in subst (λ l. All Q l × (length l ≡ 0)) nothing (tt, refl)
read_all-All P Q read good (x ∷ xs) ys (p, h) e =
    let (b, e1, h1) = >>=-inv (read x) _ ys e in
    let (bs, e2, h2) = >>=-inv (read_all read xs) _ ys h1 in
    let (rest, len) = read_all-All P Q read good xs bs h e2 in
    subst (λ l. All Q l × (length l ≡ suc (length xs))) (ok-inj h2)
      ((good x b p e1, rest), omega (arith, len))

positive_days : (n : ℤ) → leb_ℤ n (pos 0) ≡ false → 0 < pos_part n
positive_days (pos n) h = ground arith
positive_days (negsuc n) h = ground arith

positive_devices : (n : ℤ) → ltb_ℤ n (pos 1) ≡ false → 0 < pos_part n
positive_devices (pos n) h = ground arith
positive_devices (negsuc n) h = ground arith

given_devices-positive : (py : Python) (raw : String) (n : ℕ) → given_devices py raw ≡ ok n → 0 < n
unfolding given_devices
given_devices-positive py raw n h =
    let (k, e1, h1) = >>=-inv (or_fail (py.int_of raw) _) _ n h in
    let (enough, h2) = fail_if-inv (ltb_ℤ k (pos 1)) _ _ n h1 in
    subst (λ m. 0 < m) (ok-inj h2) (positive_devices k enough)

devices_of-positive :
    (py : Python) (parts : List String) (n : ℕ) → devices_of py parts ≡ ok n → 0 < n
unfolding devices_of
devices_of-positive py [] n h = subst (λ k. 0 < k) (ok-inj h) (omega arith)
devices_of-positive py (badge ∷ []) n h = subst (λ k. 0 < k) (ok-inj h) (omega arith)
devices_of-positive py (badge ∷ raw ∷ rest) n h = elim (Bool-cases (is_empty raw)) [
  | inl e ↦
      let three : devices_of py (badge ∷ raw ∷ rest) ≡ ok 3 = rw (e, devices_of) refl in
      subst (λ k. 0 < k) (ok-inj (sym three ∙ h)) (omega arith)
  | inr e ↦
      let given : devices_of py (badge ∷ raw ∷ rest) ≡ given_devices py raw =
        rw (e, devices_of) refl in
      given_devices-positive py raw n (sym given ∙ h)
]

tariff_of-IsValid :
    (dec : Decimals) (py : Python) (parts : List String) (t : Tariff)
    → tariff_of dec py parts ≡ ok t
    → IsValid t
unfolding tariff_of
tariff_of-IsValid dec py [] t h = absurd (cc)
tariff_of-IsValid dec py (a ∷ []) t h = absurd (cc)
tariff_of-IsValid dec py (a ∷ b ∷ []) t h = absurd (cc)
tariff_of-IsValid dec py (a ∷ b ∷ c ∷ []) t h = absurd (cc)
tariff_of-IsValid dec py (id ∷ title ∷ raw_duration ∷ raw_price ∷ rest) t h =
    let (few, h1) = fail_if-inv (ltb 2 (length rest)) _ _ t h in
    let (devices, e2, h2) = >>=-inv (devices_of py rest) _ t h1 in
    let (named, h3) = fail_if-inv (is_empty id || is_empty title) _ _ t h2 in
    let (days, e4, h4) = >>=-inv (or_fail (py.int_of raw_duration) _) _ t h3 in
    let (some_days, h5) = fail_if-inv (leb_ℤ days (pos 0)) _ _ t h4 in
    let (price, e6, h6) = >>=-inv (decimal_price dec raw_price) _ t h5 in
    subst IsValid (ok-inj h6) (record {
      has_id = ground (arith, named);
      has_title = ground (arith, named);
      has_days = positive_days days some_days;
      has_devices = devices_of-positive py rest devices e2;
    })

with_configured_price-IsValid :
    (dec : Decimals) (prices : Dict.Dict String) (t u : Tariff)
    → IsValid t
    → with_configured_price dec prices t ≡ ok u
    → IsValid u
unfolding with_configured_price
with_configured_price-IsValid dec prices t u v h = elim (Option-cases (Dict.get t.id prices)) [
  | inl n ↦
      let same : with_configured_price dec prices t ≡ ok t = rw (n, with_configured_price) refl in
      subst IsValid (ok-inj (sym same ∙ h)) v
  | inr (raw, e) ↦
      let priced : with_configured_price dec prices t ≡ with_price dec t raw =
        rw (e, with_configured_price) refl in
      let (price, e1, h1) =
        >>=-inv (decimal_price dec raw) _ u (sym (unfold with_price in priced) ∙ h) in
      subst IsValid (ok-inj h1) (record {
        has_id = v.has_id;
        has_title = v.has_title;
        has_days = v.has_days;
        has_devices = v.has_devices;
      })
]

default_tariffs-IsValid : All IsValid default_tariffs
unfolding is_empty
default_tariffs-IsValid = (
  record { has_id = refl; has_title = refl; has_days = omega arith; has_devices = omega arith },
  (
    record { has_id = refl; has_title = refl; has_days = omega arith; has_devices = omega arith },
    (
      record { has_id = refl; has_title = refl; has_days = omega arith; has_devices = omega arith },
      tt,
    ),
  ),
)

parse_items-IsValid :
    (dec : Decimals) (py : Python) (raw_value : String) (tariffs : List Tariff)
    → parse_items dec py raw_value ≡ ok tariffs
    → (0 < length tariffs) × All IsValid tariffs
unfolding parse_items
parse_items-IsValid dec py raw_value tariffs h =
    let item_tariff = λ (item : String). tariff_of dec py (map strip (split 58 item)) in
    let (parsed, e1, h1) = >>=-inv (read_all item_tariff (csv raw_value)) _ tariffs h in
    let (some_tariff, h2) = fail_if-inv (eqb (length parsed) 0) _ _ tariffs h1 in
    let valid =
      read_all-All (λ _. Unit {0}) IsValid item_tariff
        (λ item t _ e. tariff_of-IsValid dec py (map strip (split 58 item)) t e) (csv raw_value)
        parsed (All-anything (csv raw_value)) e1 in
    subst (λ l. (0 < length l) × All IsValid l) (ok-inj h2) (ground (arith, some_tariff), valid.0)

-- Where the setting of the tariffs is read, there is at least one tariff, and every tariff has an
-- identifier and a title, and is for at least one day and at least one device.
pub parse_tariffs-IsValid :
    (dec : Decimals) (py : Python) (raw_value : String) (prices : Dict.Dict String)
    (tariffs : List Tariff)
    → parse_tariffs dec py raw_value prices ≡ ok tariffs
    → (0 < length tariffs) × All IsValid tariffs
unfolding parse_tariffs
parse_tariffs-IsValid dec py raw_value prices tariffs h = elim (Bool-cases (is_empty raw_value)) [
  | inl e ↦
      let defaults : parse_tariffs dec py raw_value prices
          ≡ read_all (with_configured_price dec prices) default_tariffs =
        rw (e, parse_tariffs) refl in
      let valid =
        read_all-All IsValid IsValid (with_configured_price dec prices)
          (with_configured_price-IsValid dec prices) default_tariffs tariffs default_tariffs-IsValid
          (sym defaults ∙ h) in
      (omega (arith, valid.1), valid.0)
  | inr e ↦
      let given : parse_tariffs dec py raw_value prices ≡ parse_items dec py raw_value =
        rw (e, parse_tariffs) refl in
      parse_items-IsValid dec py raw_value tariffs (sym given ∙ h)
]
