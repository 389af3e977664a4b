-- ===== src/Rates.antt =====
-- backend/app/services/exchange_rates.py: the rates of the coins, kept for a while. The answer of the
-- network and the readings of the clock are arguments. A `Decimal` stands as its text; `str` of a
-- float and the division are parameters.
use vpp_wl_mobile.Prelude.{
  ℕ, ◌+◌, ◌*◌, String, Bool, true, Option, none, some, List, [], ◌∷◌, ◌==◌, ltb, if◌then◌else◌,
  or_else,
}
use vpp_wl_mobile.Prelude.Dict
use vpp_wl_mobile.Prelude.Int.{pos, negsuc}
use vpp_wl_mobile.Json.{Json, int, real, obj, entries}
use vpp_wl_mobile.Errors.{Result, ok, raised, invalid_operation}
use vpp_wl_mobile.Service.{Python}
use vpp_wl_mobile.Service.Payload.{truth, text}
use vpp_wl_mobile.Service.Wallets.{Coin}
use vpp_wl_mobile.Repository.{minute}

-- `ExchangeRateService`, without its lock.
pub record ExchangeRateService : Type 0 where
  pub provider : String
  pub rates : Dict.Dict String
  pub last_updated : Option ℕ

unfoldable pub new_service : String → ExchangeRateService
new_service provider = record { provider = provider; rates = []; last_updated = none }

-- `_CACHE_TTL`
abbrev pub cache_ttl : ℕ
cache_ttl = 15 * minute

-- `_is_stale` at a time.
unfoldable pub is_stale : ℕ → ExchangeRateService → Bool
is_stale now service = elim service.last_updated [
  | none ↦ true
  | some updated ↦ ltb (updated + cache_ttl) now
]

-- What the body of the loop does with the price of a coin.
pub data Price : Type 0 where
  raises skipped : Price
  rate : String → Price

module _ (py : Python) where
  -- A price that is true and not a number cannot be compared, or is no `Decimal`.
  unfoldable pub positive_price : Json → Price
  unfolding text
  positive_price (int (pos n)) = rate (text py (int (pos n)))
  positive_price (int (negsuc n)) = skipped
  positive_price (real (pos n)) = rate (text py (real (pos n)))
  positive_price (real (negsuc n)) = skipped
  positive_price v = raises

  unfoldable pub price_of : Json → Price
  unfolding positive_price truth entries
  price_of (obj prices) = elim (Dict.get "rub" (entries prices)) [
    | none ↦ skipped
    | some v ↦ if truth v then positive_price v else skipped
  ]
  price_of v = raises

  -- The loop; `none` if it raises.
  unfoldable pub read_rates : List (String × Json) → Dict.Dict String → Option (Dict.Dict String)
  unfolding price_of
  read_rates [] rates = some rates
  read_rates ((coin_id, prices) ∷ items) rates = elim (price_of prices) [
    | raises ↦ none
    | skipped ↦ read_rates items rates
    | rate r ↦ read_rates items (Dict.insert coin_id r rates)
  ]

  -- The rates of an answer of the network, if it comes and can be read.
  unfoldable pub new_rates : Option Json → Dict.Dict String
  unfolding read_rates entries
  new_rates (some (obj fields)) = or_else (read_rates (entries fields) []) []
  new_rates _ = []

  -- The end of `_refresh_locked`.
  abbrev pub keep_rates : Dict.Dict String → ℕ → ExchangeRateService → ExchangeRateService
  keep_rates [] now service = service
  keep_rates (r ∷ rates) now service = record service { rates = r ∷ rates; last_updated = some now }

  -- `_refresh_locked`, with what the network answers.
  unfoldable pub refresh_locked : Option Json → ℕ → ExchangeRateService → ExchangeRateService
  unfolding new_rates
  refresh_locked answer now service =
      if service.provider == "fixed" then service else keep_rates (new_rates answer) now service

  -- The service when `_get_rate` reads the rates.
  unfoldable pub current : ℕ → Option Json → ℕ → ExchangeRateService → ExchangeRateService
  unfolding is_stale refresh_locked
  current at answer now service =
      if is_stale at service then refresh_locked answer now service else service

  -- `_get_rate`
  unfoldable pub get_rate :
      String → ℕ → Option Json → ℕ → ExchangeRateService → Option String × ExchangeRateService
  unfolding current
  get_rate coingecko_id at answer now service =
      let fresh = current at answer now service in (Dict.get coingecko_id fresh.rates, fresh)

  -- `str((rub / rate).quantize(...))`, which raises InvalidOperation where `convert` is `none`.
  abbrev pub converted : Option String → Result (Option String)
  converted none = raised invalid_operation
  converted (some amount) = ok (some amount)

  -- `coin_amount`; `convert` is the price over the rate, rounded up to a number of digits, for a price
  -- and a rate for which `Decimal` can do so: not for an infinite price, nor for more than 28 digits.
  unfoldable pub coin_amount :
      (String → String → ℕ → Option String)
      → String
      → Coin
      → ℕ
      → Option Json
      → ℕ
      → ExchangeRateService
      → Result (Option String) × ExchangeRateService
  unfolding get_rate
  coin_amount convert price_rub coin at answer now service =
      let (found, fresh) = get_rate coin.coingecko_id at answer now service in
      elim found [
        | none ↦ (ok none, fresh)
        | some r ↦ (converted (convert price_rub r coin.decimals), fresh)
      ]
