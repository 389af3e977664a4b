-- ===== src/Settings/Values.antt =====
-- backend/app/core/settings.py: how the value of one variable is read.
use vpp_wl_mobile.Prelude.{
  ℕ, String, Bool, true, false, not, ◌&&◌, ◌||◌, Option, none, some, List, [], ◌∷◌, ltb, eqb,
  if◌then◌else◌, or_else, str_len, concat, is_empty, decimal, strip,
}
use vpp_wl_mobile.Prelude.Dict
use vpp_wl_mobile.Prelude.Int.{pos, leb_ℤ, ltb_ℤ, pos_part}
use Prim.Native.Char.{code}
use vpp_wl_mobile.Config.Validation.{contains}
use vpp_wl_mobile.Errors.{Result, ok, raised, value_error}
use vpp_wl_mobile.Errors.Chain.{◌>>=◌, ◌>>◌, fail_if, or_fail}
use vpp_wl_mobile.Links.Parser.{starts_with}
use vpp_wl_mobile.NodeConfig.{Env}
use vpp_wl_mobile.Service.{Python}
use vpp_wl_mobile.Tariffs.{Decimals, csv, is_positive}

-- `PLACEHOLDER_VALUES`
abbrev pub placeholder_values : List String
placeholder_values =
    "replace-with-random-32-byte-secret" ∷ "replace-with-random-admin-token"
    ∷ "replace-with-yookassa-shop-id" ∷ "replace-with-yookassa-secret-key" ∷ []

-- `source.get(key, default)`
abbrev pub value_of : Env → String → String → String
value_of source key default = or_else (Dict.get key source) default

-- `raise SettingsError(f"{key}{rest}")`
abbrev pub settings_error : {A : Type 0} → String → String → Result A
settings_error key rest = raised (value_error (concat (key ∷ rest ∷ [])))

abbrev pub fails : Bool → String → String → Result (Unit {0})
fails c key rest = fail_if c (value_error (concat (key ∷ rest ∷ [])))

-- What is asked of a secret that is given.
unfoldable pub checked_secret : String → ℕ → String → Result String
unfolding concat str_len
checked_secret key min_length value = do
  fails (contains value placeholder_values) key " must not use placeholder value"
  fails (ltb (str_len value) min_length) key
      (concat (" must be at least " ∷ decimal min_length ∷ " characters" ∷ []))
  ok value

-- `_required_secret`
unfoldable pub required_secret : Env → String → ℕ → Result String
unfolding checked_secret strip is_empty concat
required_secret source key min_length = do
  let value = strip (value_of source key "")
  fails (is_empty value) key " is required"
  checked_secret key min_length value

-- `_optional_secret`
unfoldable pub optional_secret : Env → String → ℕ → Result (Option String)
unfolding checked_secret strip is_empty
optional_secret source key min_length =
    let value = strip (value_of source key "") in
    if is_empty value
    then ok none
    else (do secret ← checked_secret key min_length value; ok (some secret))

-- `_port`
unfoldable pub port_of : Python → String → Result ℕ
port_of py raw_value = do
  port ← or_fail (py.int_of raw_value) (value_error "VPN_ROUTER_PORT must be an integer")
  fail_if (not (leb_ℤ (pos 1) port && leb_ℤ port (pos 65_535)))
      (value_error "VPN_ROUTER_PORT must be between 1 and 65535")
  ok (pos_part port)

-- `value.startswith(("https://", "http://"))`
unfoldable pub is_absolute : String → Bool
unfolding starts_with
is_absolute value = starts_with "https://" value || starts_with "http://" value

-- `_optional_url`
unfoldable pub optional_url : String → Result (Option String)
unfolding strip is_empty is_absolute concat
optional_url raw_value =
    let value = strip raw_value in
    let key : String = "VPN_ROUTER_YOOKASSA_RETURN_URL" in
    if is_empty value then ok none else (do
      fails (contains value placeholder_values) key " must not use placeholder value"
      fails (not (is_absolute value)) key " must be an absolute URL"
      ok (some value))

-- `value.rstrip("/")`
unfoldable pub rstrip_slashes : String → String
unfolding is_empty
rstrip_slashes String.[] = String.[]
rstrip_slashes (String.◌∷◌ c s) =
    let rest = rstrip_slashes s in
    if eqb (code c) 47 && is_empty rest then String.[] else String.◌∷◌ c rest

-- `_required_url`
unfoldable pub required_url : String → String → Result String
unfolding strip rstrip_slashes is_empty is_absolute concat
required_url raw_value key = do
  let value = rstrip_slashes (strip raw_value)
  fails (is_empty value) key " is required"
  fails (not (is_absolute value)) key " must be an absolute URL"
  ok value

-- `item.split(":", 1)` for an item with a colon.
unfoldable pub split_colon : String → Option (String × String)
split_colon String.[] = none
split_colon (String.◌∷◌ c s) =
    let rest = split_colon s in
    if eqb (code c) 58
    then some (String.[], s)
    else elim rest [ none ↦ none | some (before, after) ↦ some (String.◌∷◌ c before, after) ]

-- The body of the loop of `_product_prices`: the key and the value that it sets.
unfoldable pub product_price : Decimals → String → Result (String × String)
unfolding split_colon strip is_empty concat is_positive
product_price dec item = do
  let key : String = "VPN_ROUTER_PRODUCT_PRICES_RUB"
  parts ←
      or_fail (split_colon item)
        (value_error (concat (key ∷ " items must use product_id:amount" ∷ [])))
  let product_id = strip parts.0
  let raw_amount = strip parts.1
  fails (is_empty product_id) key " product_id must not be empty"
  amount ←
      or_fail (dec.amount raw_amount)
        (value_error (concat (key ∷ " amount must be decimal RUB value" ∷ [])))
  above ← is_positive amount
  fails (not above) key " amount must be positive"
  ok (product_id, dec.two_digits raw_amount)

unfoldable pub product_prices_from :
    Decimals → List String → Dict.Dict String → Result (Dict.Dict String)
unfolding product_price
product_prices_from dec [] prices = ok prices
product_prices_from dec (item ∷ items) prices = do
  price ← product_price dec item
  product_prices_from dec items (Dict.insert price.0 price.1 prices)

abbrev pub has_none {ℓ} : {A : Type ℓ} → List A → Bool
has_none [] = true
has_none (a ∷ rest) = false

-- `_product_prices`
unfoldable pub product_prices : Decimals → String → Result (Dict.Dict String)
unfolding product_prices_from csv concat
product_prices dec raw_value = do
  prices ← product_prices_from dec (csv raw_value) []
  fails (has_none prices) "VPN_ROUTER_PRODUCT_PRICES_RUB" " must not be empty"
  ok prices

-- `_non_negative_int`
unfoldable pub non_negative_int : Python → String → String → Result ℕ
unfolding concat
non_negative_int py raw_value key = do
  value ← or_fail (py.int_of raw_value) (value_error (concat (key ∷ " must be an integer" ∷ [])))
  fails (ltb_ℤ value (pos 0)) key " must be non-negative"
  ok (pos_part value)

-- `_bool`
unfoldable pub bool_of : Python → String → String → Result Bool
unfolding strip concat
bool_of py raw_value key =
    let normalized = py.lower (strip raw_value) in
    if contains normalized ("1" ∷ "true" ∷ "yes" ∷ "on" ∷ [])
    then ok true
    else if contains normalized ("0" ∷ "false" ∷ "no" ∷ "off" ∷ [])
    then ok false
    else settings_error key " must be true or false"

-- `_decimal_str`
unfoldable pub decimal_str : Decimals → String → String → Result String
unfolding strip concat is_positive
decimal_str dec raw_value key = do
  amount ←
      or_fail (dec.amount (strip raw_value))
        (value_error (concat (key ∷ " must be a decimal number" ∷ [])))
  above ← is_positive amount
  fails (not above) key " must be positive"
  ok (dec.two_digits (strip raw_value))

-- `_parse_crypto_wallets`: a key is set where its address is given.
unfoldable pub wallets_from : Env → List (String × String) → Dict.Dict String → Dict.Dict String
unfolding strip is_empty
wallets_from source [] wallets = wallets
wallets_from source ((key, variable) ∷ keys) wallets =
    let addr = strip (value_of source variable "") in
    let rest = wallets_from source keys in
    if is_empty addr then rest wallets else rest (Dict.insert key addr wallets)

unfoldable pub parse_crypto_wallets : Env → Dict.Dict String
unfolding wallets_from
parse_crypto_wallets source =
    let keys =
      ("trc20", "CRYPTO_WALLET_TRC20")
      ∷ ("ton", "CRYPTO_WALLET_TON")
      ∷ ("eth", "CRYPTO_WALLET_ETH")
      ∷ ("btc", "CRYPTO_WALLET_BTC")
      ∷ [] in
    wallets_from source keys []
