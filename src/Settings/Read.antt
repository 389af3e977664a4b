-- ===== src/Settings/Read.antt =====
-- What the values of the variables are like that are read.
use vpp_wl_mobile.Prelude.{
  ℕ, ◌*◌, ◌≤◌, String, ◌≡◌, refl, inl, inr, Bool, true, false, not, ◌&&◌, Option, none, some, List,
  [], ◌∷◌, arith, ◌==◌, ltb, Bool-cases, All, str_len, is_empty, strip,
}
use vpp_wl_mobile.Prelude.Dict
use vpp_wl_mobile.Prelude.Int.{ℤ, pos, negsuc, leb_ℤ, ltb_ℤ, pos_part}
use vpp_wl_mobile.Config.Validation.{contains}
use vpp_wl_mobile.Errors.Ends.{Ends, Anything, bind-Ends, or_fail-Ends, fail_if-Ends, Ends-ok}
use vpp_wl_mobile.NodeConfig.{Env}
use vpp_wl_mobile.Service.{Python}
use vpp_wl_mobile.Tariffs.{Decimals, csv, is_positive}
use vpp_wl_mobile.Tariffs.Raised.{is_positive-Ends}
use vpp_wl_mobile.Settings.Values.{
  placeholder_values, value_of, checked_secret, required_secret, optional_secret, port_of,
  is_absolute, optional_url, rstrip_slashes, required_url, split_colon, product_price,
  product_prices_from, has_none, product_prices, non_negative_int, bool_of, decimal_str,
}

-- A secret that is no placeholder and not too short.
pub record IsSecret (min_length : ℕ) (secret : String) : Type 0 where
  pub is_own : contains secret placeholder_values ≡ false
  pub is_long : min_length ≤ str_len secret

-- An optional value that, where it is given, satisfies `P`.
abbrev pub Given : {A : Type 0} → (A → Type 0) → Option A → Type 0
Given P none = Unit
Given P (some a) = P a

pub checked_secret-IsSecret :
    (key : String) (min_length : ℕ) (value : String)
    → Ends (IsSecret min_length) (checked_secret key min_length value)
unfolding checked_secret
checked_secret-IsSecret key min_length value =
    fail_if-Ends _ (contains value placeholder_values) _ _ (λ own.
      fail_if-Ends _ (ltb (str_len value) min_length) _ _ (λ long.
        Ends-ok (IsSecret min_length) value
          (record { is_own = own; is_long = ground (arith, long) })))

pub required_secret-IsSecret :
    (source : Env) (key : String) (min_length : ℕ)
    → Ends (IsSecret min_length) (required_secret source key min_length)
unfolding required_secret
required_secret-IsSecret source key min_length =
    fail_if-Ends _ (is_empty (strip (value_of source key ""))) _ _
      (λ _. checked_secret-IsSecret key min_length (strip (value_of source key "")))

pub optional_secret-IsSecret :
    (source : Env) (key : String) (min_length : ℕ)
    → Ends (Given (IsSecret min_length)) (optional_secret source key min_length)
unfolding optional_secret
optional_secret-IsSecret source key min_length =
    let value = strip (value_of source key "") in
    elim (Bool-cases (is_empty value)) [
      | inl e ↦ rw e (Ends-ok (Given (IsSecret min_length)) none tt)
      | inr e ↦ rw e (
          bind-Ends (IsSecret min_length) (Given (IsSecret min_length))
            (checked_secret key min_length value) _ (checked_secret-IsSecret key min_length value)
            (λ secret h. Ends-ok (Given (IsSecret min_length)) (some secret) h))
    ]

abbrev pub IsPort : ℕ → Type 0
IsPort n = (1 ≤ n) × (n ≤ 65_535)

in_range : (n : ℤ) → not (leb_ℤ (pos 1) n && leb_ℤ n (pos 65_535)) ≡ false → IsPort (pos_part n)
in_range (pos n) h = (ground arith, ground arith)
in_range (negsuc n) h = (ground arith, ground arith)

pub port_of-IsPort : (py : Python) (raw_value : String) → Ends IsPort (port_of py raw_value)
unfolding port_of
port_of-IsPort py raw_value = or_fail-Ends _ (py.int_of raw_value) _ _ (λ port.
    fail_if-Ends _ (not (leb_ℤ (pos 1) port && leb_ℤ port (pos 65_535))) _ _
      (λ h. Ends-ok IsPort _ (in_range port h)))

abbrev pub IsUrl : String → Type 0
IsUrl value = is_absolute value ≡ true

of_not : (b : Bool) → not b ≡ false → b ≡ true
of_not true h = refl
of_not false h = absurd (cc)

pub optional_url-IsUrl : (raw_value : String) → Ends (Given IsUrl) (optional_url raw_value)
unfolding optional_url
optional_url-IsUrl raw_value =
    let value = strip raw_value in
    elim (Bool-cases (is_empty value)) [
      | inl e ↦ rw e (Ends-ok (Given IsUrl) none tt)
      | inr e ↦ rw e (
          fail_if-Ends _ (contains value placeholder_values) _ _ (λ _.
            fail_if-Ends _ (not (is_absolute value)) _ _
              (λ h. Ends-ok (Given IsUrl) (some value) (of_not (is_absolute value) h))))
    ]

pub required_url-IsUrl : (raw_value key : String) → Ends IsUrl (required_url raw_value key)
unfolding required_url
required_url-IsUrl raw_value key =
    let value = rstrip_slashes (strip raw_value) in
    fail_if-Ends _ (is_empty value) _ _ (λ _.
      fail_if-Ends _ (not (is_absolute value)) _ _
        (λ h. Ends-ok IsUrl value (of_not (is_absolute value) h)))

pub non_negative_int-Ends :
    (py : Python) (raw_value key : String) → Ends Anything (non_negative_int py raw_value key)
unfolding non_negative_int
non_negative_int-Ends py raw_value key =
    or_fail-Ends _ (py.int_of raw_value) _ _
      (λ value. fail_if-Ends _ (ltb_ℤ value (pos 0)) _ _ (λ _. Ends-ok Anything _ tt))

pub bool_of-Ends : (py : Python) (raw_value key : String) → Ends Anything (bool_of py raw_value key)
unfolding bool_of Ends
bool_of-Ends py raw_value key = ground arith

pub decimal_str-Ends :
    (dec : Decimals) (raw_value key : String) → Ends Anything (decimal_str dec raw_value key)
unfolding decimal_str
decimal_str-Ends dec raw_value key = or_fail-Ends _ (dec.amount (strip raw_value)) _ _ (λ amount.
    bind-Ends Anything _ (is_positive amount) _ (is_positive-Ends amount)
      (λ above _. fail_if-Ends _ (not above) _ _ (λ _. Ends-ok Anything _ tt)))

-- A price with a product that has a name.
abbrev HasProduct : String × String → Type 0
HasProduct (product_id, amount) = is_empty product_id ≡ false

product_price-HasProduct :
    (dec : Decimals) (item : String) → Ends HasProduct (product_price dec item)
unfolding product_price
product_price-HasProduct dec item = or_fail-Ends _ (split_colon item) _ _ (λ parts.
    fail_if-Ends _ (is_empty (strip parts.0)) _ _ (λ named.
      or_fail-Ends _ (dec.amount (strip parts.1)) _ _ (λ amount.
        bind-Ends Anything HasProduct (is_positive amount) _ (is_positive-Ends amount)
          (λ above _. fail_if-Ends _ (not above) _ _ (λ _. Ends-ok HasProduct _ named)))))

-- Prices of products that have a name.
abbrev pub NamedProducts : Dict.Dict String → Type 0
NamedProducts = All HasProduct

insert-NamedProducts :
    (k v : String) (d : Dict.Dict String)
    → is_empty k ≡ false
    → NamedProducts d
    → NamedProducts (Dict.insert k v d)
unfolding vpp_wl_mobile.Prelude.Dict.insert
insert-NamedProducts k v [] h p = (h, tt)
insert-NamedProducts k v ((j, w) ∷ d) h p = elim (Bool-cases (j == k)) [
  | inl e ↦ rw e (p.0, p.1)
  | inr e ↦ rw e (p.0, insert-NamedProducts k v d h p.1)
]

product_prices_from-NamedProducts :
    (dec : Decimals) (items : List String) (prices : Dict.Dict String)
    → NamedProducts prices
    → Ends NamedProducts (product_prices_from dec items prices)
unfolding product_prices_from
product_prices_from-NamedProducts dec [] prices h = Ends-ok NamedProducts prices h
product_prices_from-NamedProducts dec (item ∷ items) prices h =
    bind-Ends HasProduct NamedProducts (product_price dec item) _
      (product_price-HasProduct dec item)
      (λ price named.
        product_prices_from-NamedProducts dec items (Dict.insert price.0 price.1 prices)
          (insert-NamedProducts price.0 price.1 prices named h))

abbrev pub IsPriceList : Dict.Dict String → Type 0
IsPriceList prices = (has_none prices ≡ false) × NamedProducts prices

pub product_prices-IsPriceList :
    (dec : Decimals) (raw_value : String) → Ends IsPriceList (product_prices dec raw_value)
unfolding product_prices
product_prices-IsPriceList dec raw_value =
    bind-Ends NamedProducts IsPriceList (product_prices_from dec (csv raw_value) []) _
      (product_prices_from-NamedProducts dec (csv raw_value) [] tt)
      (λ prices named.
        fail_if-Ends _ (has_none prices) _ _
          (λ some_price. Ends-ok IsPriceList prices (some_price, named)))
