-- ===== src/Tariffs.antt =====
-- backend/app/domain/tariffs.py: the tariffs, and how they are read from a setting. The record of a
-- tariff stands in Service.
pub mod Valid
pub mod Raised
use vpp_wl_mobile.Prelude.{
  ℕ, String, Bool, true, false, not, ◌||◌, Option, none, some, List, [], ◌∷◌, map, ltb, eqb,
  if◌then◌else◌, length, keep, is_empty, strip,
}
use vpp_wl_mobile.Prelude.Dict
use vpp_wl_mobile.Prelude.Int.{pos, leb_ℤ, ltb_ℤ, pos_part}
use Prim.Native.Char.{Char, code}
use vpp_wl_mobile.Errors.{Result, ok, raised, value_error, invalid_operation}
use vpp_wl_mobile.Errors.Chain.{◌>>=◌, ◌>>◌, fail_if, or_fail}
use vpp_wl_mobile.Service.{Python, Tariff}

-- How the number of a `decimal.Decimal` compares with 0. A NaN does not: `amount <= 0` raises.
pub data Amount : Type 0 where
  positive not_positive nan : Amount

-- `decimal.Decimal`: the number that a text holds, if it holds one, and that number with two digits
-- behind the point.
pub record Decimals : Type 0 where
  pub amount : String → Option Amount
  pub two_digits : String → String

-- `not amount <= 0`
unfoldable pub is_positive : Amount → Result Bool
is_positive positive = ok true
is_positive not_positive = ok false
is_positive nan = raised invalid_operation

abbrev pub tariff : String → String → ℕ → String → Option String → Tariff
tariff id title duration_days price_rub badge = record {
  id = id;
  title = title;
  duration_days = duration_days;
  price_rub = price_rub;
  badge = badge;
  max_devices = 3;
}

-- `DEFAULT_TARIFFS`
abbrev pub default_tariffs : List Tariff
default_tariffs =
    tariff "vpn.1m" "1 месяц" 30 "200.00" none
    ∷ tariff "vpn.3m" "3 месяца" 90 "500.00" (some "выгоднее")
    ∷ tariff "vpn.6m" "6 месяцев" 180 "900.00" (some "лучший выбор")
    ∷ []

-- A character before the first part of a split text.
abbrev pub into_first : Char → List String → List String
into_first c [] = String.◌∷◌ c String.[] ∷ []
into_first c (part ∷ parts) = String.◌∷◌ c part ∷ parts

-- `s.split(separator)` for the character with a code.
unfoldable pub split : ℕ → String → List String
split separator String.[] = String.[] ∷ []
split separator (String.◌∷◌ c s) =
    let rest = split separator s in
    if eqb (code c) separator then String.[] ∷ rest else into_first c rest

-- `_csv`
unfoldable pub csv : String → List String
unfolding split strip is_empty
csv raw_value = keep (λ item. not (is_empty item)) (map strip (split 44 raw_value))

-- `_decimal_price`
unfoldable pub decimal_price : Decimals → String → Result String
unfolding is_positive
decimal_price dec raw_value = do
  amount ← or_fail (dec.amount raw_value) (value_error "tariff price must be a decimal RUB value")
  above ← is_positive amount
  fail_if (not above) (value_error "tariff price must be positive")
  ok (dec.two_digits raw_value)

-- The sixth part, if there is one.
unfoldable pub given_devices : Python → String → Result ℕ
given_devices py raw = do
  max_devices ← or_fail (py.int_of raw) (value_error "tariff max_devices must be an integer")
  fail_if (ltb_ℤ max_devices (pos 1)) (value_error "tariff max_devices must be at least 1")
  ok (pos_part max_devices)

unfoldable pub devices_of : Python → List String → Result ℕ
unfolding is_empty given_devices
devices_of py (badge ∷ raw ∷ rest) = if is_empty raw then ok 3 else given_devices py raw
devices_of py rest = ok 3

-- The fifth part, if there is one.
unfoldable pub badge_of : List String → Option String
unfolding is_empty
badge_of [] = none
badge_of (badge ∷ rest) = if is_empty badge then none else some badge

-- The body of the loop of `parse_tariffs`, for the parts of an item.
unfoldable pub tariff_of : Decimals → Python → List String → Result Tariff
unfolding devices_of badge_of decimal_price is_empty
tariff_of dec py (id ∷ title ∷ raw_duration ∷ raw_price ∷ rest) = do
  fail_if (ltb 2 (length rest))
      (value_error "tariff items must use id:title:duration_days:price_rub[:badge[:max_devices]]")
  max_devices ← devices_of py rest
  fail_if (is_empty id || is_empty title) (value_error "tariff id and title must not be empty")
  duration_days ←
      or_fail (py.int_of raw_duration) (value_error "tariff duration_days must be an integer")
  fail_if (leb_ℤ duration_days (pos 0)) (value_error "tariff duration_days must be positive")
  price ← decimal_price dec raw_price
  ok (record {
    id = id;
    title = title;
    duration_days = pos_part duration_days;
    price_rub = price;
    badge = badge_of rest;
    max_devices = max_devices;
  })
tariff_of dec py parts =
    raised
      (value_error "tariff items must use id:title:duration_days:price_rub[:badge[:max_devices]]")

-- A loop that reads one thing after another and stops at the first that raises.
unfoldable pub read_all : {A B : Type 0} → (A → Result B) → List A → Result (List B)
read_all read [] = ok []
read_all read (a ∷ rest) = do b ← read a; bs ← read_all read rest; ok (b ∷ bs)

unfoldable pub with_price : Decimals → Tariff → String → Result Tariff
unfolding decimal_price
with_price dec t raw = do price ← decimal_price dec raw; ok (record t { price_rub = price })

-- `_with_configured_price`
unfoldable pub with_configured_price : Decimals → Dict.Dict String → Tariff → Result Tariff
unfolding with_price
with_configured_price dec prices t = elim (Dict.get t.id prices) [
  | none ↦ ok t
  | some raw ↦ with_price dec t raw
]

-- `parse_tariffs` for a setting that is given.
unfoldable pub parse_items : Decimals → Python → String → Result (List Tariff)
unfolding read_all tariff_of csv split strip
parse_items dec py raw_value = do
  parsed ← read_all (λ item. tariff_of dec py (map strip (split 58 item))) (csv raw_value)
  fail_if (eqb (length parsed) 0) (value_error "at least one tariff is required")
  ok parsed

-- `parse_tariffs`
unfoldable pub parse_tariffs : Decimals → Python → String → Dict.Dict String → Result (List Tariff)
unfolding is_empty read_all with_configured_price parse_items
parse_tariffs dec py raw_value prices =
    if is_empty raw_value
    then read_all (with_configured_price dec prices) default_tariffs
    else parse_items dec py raw_value
