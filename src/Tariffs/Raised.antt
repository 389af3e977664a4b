-- ===== src/Tariffs/Raised.antt =====
-- What the reading of the tariffs raises.
use vpp_wl_mobile.Prelude.{
  refl, String, inl, inr, not, ◌||◌, List, [], ◌∷◌, map, ltb, eqb, Bool-cases, Option-cases, length,
  is_empty, strip,
}
use vpp_wl_mobile.Prelude.Dict
use vpp_wl_mobile.Prelude.Int.{pos, leb_ℤ, ltb_ℤ}
use vpp_wl_mobile.Errors.{Result}
use vpp_wl_mobile.Errors.Ends.{
  Ends, Anything, bind-Ends, or_fail-Ends, fail_if-Ends, Ends-ok, Ends-value_error,
}
use vpp_wl_mobile.Service.{Python, Tariff}
use vpp_wl_mobile.Tariffs.{
  Decimals, Amount, positive, not_positive, nan, is_positive, csv, split, decimal_price,
  given_devices, devices_of, tariff_of, read_all, with_price, with_configured_price, parse_items,
  parse_tariffs, default_tariffs,
}

read_all-Ends :
    {A B : Type 0} (read : A → Result B) (xs : List A)
    → ((a : A) → Ends Anything (read a))
    → Ends Anything (read_all read xs)
unfolding read_all
read_all-Ends read [] h = Ends-ok Anything [] tt
read_all-Ends read (x ∷ xs) h = bind-Ends Anything Anything (read x) _ (h x) (λ b _.
    bind-Ends Anything Anything (read_all read xs) _ (read_all-Ends read xs h)
      (λ bs _. Ends-ok Anything (b ∷ bs) tt))

-- A comparison with 0 returns or raises InvalidOperation.
pub is_positive-Ends : (amount : Amount) → Ends Anything (is_positive amount)
unfolding is_positive Ends
is_positive-Ends positive = tt
is_positive-Ends not_positive = tt
is_positive-Ends nan = inr refl

decimal_price-Ends : (dec : Decimals) (raw : String) → Ends Anything (decimal_price dec raw)
unfolding decimal_price
decimal_price-Ends dec raw = or_fail-Ends _ (dec.amount raw) _ _ (λ amount.
    bind-Ends Anything _ (is_positive amount) _ (is_positive-Ends amount)
      (λ above _. fail_if-Ends _ (not above) _ _ (λ _. Ends-ok Anything _ tt)))

given_devices-Ends : (py : Python) (raw : String) → Ends Anything (given_devices py raw)
unfolding given_devices
given_devices-Ends py raw =
    or_fail-Ends _ (py.int_of raw) _ _
      (λ n. fail_if-Ends _ (ltb_ℤ n (pos 1)) _ _ (λ _. Ends-ok Anything _ tt))

devices_of-Ends : (py : Python) (parts : List String) → Ends Anything (devices_of py parts)
unfolding devices_of
devices_of-Ends py [] = Ends-ok Anything 3 tt
devices_of-Ends py (badge ∷ []) = Ends-ok Anything 3 tt
devices_of-Ends py (badge ∷ raw ∷ rest) = elim (Bool-cases (is_empty raw)) [
  | inl e ↦ rw e (Ends-ok Anything 3 tt)
  | inr e ↦ rw e (given_devices-Ends py raw)
]

tariff_of-Ends :
    (dec : Decimals) (py : Python) (parts : List String) → Ends Anything (tariff_of dec py parts)
unfolding tariff_of
tariff_of-Ends dec py [] = Ends-value_error Anything _
tariff_of-Ends dec py (a ∷ []) = Ends-value_error Anything _
tariff_of-Ends dec py (a ∷ b ∷ []) = Ends-value_error Anything _
tariff_of-Ends dec py (a ∷ b ∷ c ∷ []) = Ends-value_error Anything _
tariff_of-Ends dec py (id ∷ title ∷ raw_duration ∷ raw_price ∷ rest) =
    fail_if-Ends _ (ltb 2 (length rest)) _ _ (λ _.
      bind-Ends Anything _ (devices_of py rest) _ (devices_of-Ends py rest) (λ _ _.
        fail_if-Ends _ (is_empty id || is_empty title) _ _ (λ _.
          or_fail-Ends _ (py.int_of raw_duration) _ _ (λ days.
            fail_if-Ends _ (leb_ℤ days (pos 0)) _ _ (λ _.
              bind-Ends Anything _ (decimal_price dec raw_price) _
                (decimal_price-Ends dec raw_price) (λ _ _. Ends-ok Anything _ tt))))))

with_configured_price-Ends :
    (dec : Decimals) (prices : Dict.Dict String) (t : Tariff)
    → Ends Anything (with_configured_price dec prices t)
unfolding with_configured_price with_price
with_configured_price-Ends dec prices t = elim (Option-cases (Dict.get t.id prices)) [
  | inl e ↦ rw (e, with_configured_price) (Ends-ok Anything t tt)
  | inr (raw, e) ↦
      rw (e, with_configured_price)
        (bind-Ends Anything _ (decimal_price dec raw) _ (decimal_price-Ends dec raw)
          (λ _ _. Ends-ok Anything _ tt))
]

pub parse_tariffs-Ends :
    (dec : Decimals) (py : Python) (raw_value : String) (prices : Dict.Dict String)
    → Ends Anything (parse_tariffs dec py raw_value prices)
unfolding parse_tariffs parse_items
parse_tariffs-Ends dec py raw_value prices = elim (Bool-cases (is_empty raw_value)) [
  | inl e ↦ rw e (
      read_all-Ends (with_configured_price dec prices) default_tariffs
        (with_configured_price-Ends dec prices))
  | inr e ↦ rw e (
      bind-Ends Anything _
        (read_all (λ item. tariff_of dec py (map strip (split 58 item))) (csv raw_value)) _
        (read_all-Ends _ (csv raw_value)
          (λ item. tariff_of-Ends dec py (map strip (split 58 item))))
        (λ parsed _. fail_if-Ends _ (eqb (length parsed) 0) _ _ (λ _. Ends-ok Anything parsed tt)))
]
