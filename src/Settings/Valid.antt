-- ===== src/Settings/Valid.antt =====
-- What the settings are like that are loaded, and what is raised where they are not.
use vpp_wl_mobile.Prelude.{
  ◌∙◌, sym, strip, ◌<◌, String, ◌≡◌, refl, inl, inr, Bool, true, false, not, ◌&&◌, Option, none,
  some, List, [], ◌∷◌, arith, ◌==◌, Bool-cases, Option-cases, is_some, or_option, length, All,
}
use vpp_wl_mobile.Prelude.Dict
use vpp_wl_mobile.Tariffs.Valid as Tariff
use vpp_wl_mobile.Config.Validation.{contains}
use vpp_wl_mobile.Errors.{Result, ok, raised, value_error}
use vpp_wl_mobile.Errors.Ends.{
  Ends, Anything, bind-Ends, fail_if-Ends, Ends-ok, Ends-with, Ends-returned,
}
use vpp_wl_mobile.NodeConfig.{Env}
use vpp_wl_mobile.NodeConfig.Raised.{parse_nodes_from_env-Ends}
use vpp_wl_mobile.Service.{Python, Tariff}
use vpp_wl_mobile.Tariffs.{Decimals, csv, parse_tariffs}
use vpp_wl_mobile.Tariffs.Valid.{parse_tariffs-IsValid}
use vpp_wl_mobile.Tariffs.Raised.{parse_tariffs-Ends}
use vpp_wl_mobile.Settings.{
  Settings, load_settings, load_limits, load_yookassa, load_crypto, checkout_modes, rate_providers,
  invalid_tariffs, differ, legacy_address, backfill,
}
use vpp_wl_mobile.Settings.Values.{value_of, has_none, parse_crypto_wallets}
use vpp_wl_mobile.Settings.Read.{
  IsSecret, Given, IsPort, IsUrl, IsPriceList, required_secret-IsSecret, optional_secret-IsSecret,
  port_of-IsPort, optional_url-IsUrl, required_url-IsUrl, product_prices-IsPriceList,
  non_negative_int-Ends, bool_of-Ends, decimal_str-Ends,
}

-- The settings that the server can be run with.
pub record IsValid (s : Settings) : Type 0 where
  pub has_token_secret : IsSecret 16 s.token_secret
  pub has_admin_token : IsSecret 16 s.admin_token
  pub has_port : IsPort s.port
  pub has_products : has_none s.allowed_product_ids ≡ false
  pub has_shop_id : Given (IsSecret 3) s.yookassa_shop_id
  pub has_secret_key : Given (IsSecret 16) s.yookassa_secret_key
  pub has_return_url : Given IsUrl s.yookassa_return_url
  -- The credentials of the shop are all there, with somewhere to return to, or none is.
  pub has_both : is_some s.yookassa_shop_id ≡ is_some s.yookassa_secret_key
  pub returns : is_some s.yookassa_shop_id ≡ true → is_some s.yookassa_return_url ≡ true
  pub has_prices : IsPriceList s.product_prices_rub
  pub has_base_url : IsUrl s.public_base_url
  pub has_mode : contains s.checkout_mode checkout_modes ≡ true
  pub has_tariffs : (0 < length s.tariffs) × All Tariff.IsValid s.tariffs
  -- A payment in coins has a wallet to go to, and the address of the legacy variable is one.
  pub has_wallet : (s.checkout_mode == "crypto_manual") ≡ true → has_none s.crypto_wallets ≡ false
  pub has_trc20 : Dict.get "trc20" s.crypto_wallets ≡ s.crypto_usdt_trc20_address
  pub has_provider : contains s.crypto_rate_provider rate_providers ≡ true

invalid_tariffs-Ends :
    (P : List Tariff → Type 0) (r : Result (List Tariff)) → Ends P r → Ends P (invalid_tariffs r)
unfolding Ends
invalid_tariffs-Ends P (ok tariffs) h = h
invalid_tariffs-Ends P (raised (value_error m)) h = inl (_, refl)
invalid_tariffs-Ends P (raised e) h = h

abbrev AreSold : List Tariff → Type 0
AreSold tariffs = (0 < length tariffs) × All Tariff.IsValid tariffs

tariffs-Ends :
    (dec : Decimals) (py : Python) (raw : String) (prices : Dict.Dict String)
    → Ends AreSold (invalid_tariffs (parse_tariffs dec py raw prices))
tariffs-Ends dec py raw prices = invalid_tariffs-Ends AreSold (parse_tariffs dec py raw prices) (
    Ends-with AreSold (parse_tariffs dec py raw prices) (parse_tariffs-Ends dec py raw prices)
      (parse_tariffs-IsValid dec py raw prices))

same_if_not_differ : (a b : Bool) → differ a b ≡ false → a ≡ b
same_if_not_differ a b h = ground arith

returns_if : (a b : Bool) → (a && not b) ≡ false → a ≡ true → b ≡ true
returns_if a b h k = ground arith

of_not : (b : Bool) → not b ≡ false → b ≡ true
of_not b h = ground arith

insert-has_some : (k v : String) (d : Dict.Dict String) → has_none (Dict.insert k v d) ≡ false
unfolding vpp_wl_mobile.Prelude.Dict.insert
insert-has_some k v [] = refl
insert-has_some k v ((j, w) ∷ d) = elim (Bool-cases (j == k)) [
  | inl e ↦ rw e refl
  | inr e ↦ rw e refl
]

get-has_some : (k v : String) (d : Dict.Dict String) → Dict.get k d ≡ some v → has_none d ≡ false
get-has_some k v [] h = absurd (let n : none ≡ some v = sym (Dict.get-empty k) ∙ h in cc)
get-has_some k v ((j, w) ∷ d) h = refl

backfill-get :
    (wallets : Dict.Dict String) (legacy : Option String)
    → Dict.get "trc20" (backfill (or_option (Dict.get "trc20" wallets) legacy) wallets)
      ≡ or_option (Dict.get "trc20" wallets) legacy
unfolding backfill
backfill-get wallets none = elim (Option-cases (Dict.get "trc20" wallets)) [
  | inl e ↦ rw e e
  | inr (a, e) ↦ rw (e, e) e
]
backfill-get wallets (some b) = elim (Option-cases (Dict.get "trc20" wallets)) [
  | inl e ↦ rw (e, e) (Dict.get-insert_self "trc20" b wallets)
  | inr (a, e) ↦ rw (e, e) e
]

backfill-has_some :
    (wallets : Dict.Dict String) (address : Option String) (crypto : Bool)
    → (crypto && has_none wallets && not (is_some address)) ≡ false
    → crypto ≡ true
    → has_none (backfill address wallets) ≡ false
unfolding backfill
backfill-has_some wallets none crypto h k = ground arith
backfill-has_some wallets (some a) crypto h k = elim (Option-cases (Dict.get "trc20" wallets)) [
  | inl e ↦ rw e (insert-has_some "trc20" a wallets)
  | inr (b, e) ↦ rw e (get-has_some "trc20" b wallets e)
]

load_limits-Ends : (py : Python) (source : Env) → Ends Anything (load_limits py source)
unfolding load_limits
load_limits-Ends py source =
    bind-Ends Anything _ _ _ (non_negative_int-Ends py _ "VPN_ROUTER_RATE_LIMIT_PER_MINUTE") (λ _ _.
      bind-Ends Anything _ _ _ (non_negative_int-Ends py _ "VPN_ROUTER_AUDIT_RETENTION_DAYS")
        (λ _ _.
          bind-Ends Anything _ _ _ (bool_of-Ends py _ "VPN_ROUTER_HSTS_ENABLED")
            (λ _ _. Ends-ok Anything _ tt)))

-- The credentials of the shop are all there, with somewhere to return to, or none is.
abbrev IsShop : Option String × Option String × Option String → Type 0
IsShop (shop_id, secret_key, return_url) =
    Given (IsSecret 3) shop_id
    × Given (IsSecret 16) secret_key
    × Given IsUrl return_url
    × (is_some shop_id ≡ is_some secret_key)
    × (is_some shop_id ≡ true → is_some return_url ≡ true)

load_yookassa-IsShop : (source : Env) → Ends IsShop (load_yookassa source)
unfolding load_yookassa
load_yookassa-IsShop source =
    bind-Ends (Given (IsSecret 3)) _ _ _ (optional_secret-IsSecret source _ 3) (λ shop_id has_id.
      bind-Ends (Given (IsSecret 16)) _ _ _ (optional_secret-IsSecret source _ 16) (λ key has_key.
        bind-Ends (Given IsUrl) _ _ _ (optional_url-IsUrl _) (λ url has_url.
          fail_if-Ends _ (differ (is_some shop_id) (is_some key)) _ _ (λ both.
            fail_if-Ends _ (is_some shop_id && not (is_some url)) _ _ (λ returns.
              Ends-ok IsShop _
                (has_id, has_key, has_url, same_if_not_differ _ _ both, returns_if _ _ returns))))))

-- A payment in coins has a wallet to go to, and the address of the legacy variable is one.
abbrev IsCrypto : String → Option String × String × Dict.Dict String × String × Bool → Type 0
IsCrypto checkout_mode (address, rate, wallets, provider, testnet) =
    ((checkout_mode == "crypto_manual") ≡ true → has_none wallets ≡ false)
    × (Dict.get "trc20" wallets ≡ address)
    × (contains provider rate_providers ≡ true)

load_crypto-IsCrypto :
    (py : Python) (dec : Decimals) (source : Env) (mode : String)
    → Ends (IsCrypto mode) (load_crypto py dec source mode)
unfolding load_crypto
load_crypto-IsCrypto py dec source mode =
    let wallets = parse_crypto_wallets source in
    let address = or_option (Dict.get "trc20" wallets) (legacy_address source) in
    let rates = py.lower (strip (value_of source "CRYPTO_RATE_PROVIDER" "coingecko")) in
    let no_wallet = (mode == "crypto_manual") && has_none wallets && not (is_some address) in
    fail_if-Ends _ no_wallet _ _ (λ wallet.
      bind-Ends Anything _ _ _ (decimal_str-Ends dec _ "CRYPTO_USDT_RATE_RUB") (λ _ _.
        fail_if-Ends _ (not (contains rates rate_providers)) _ _ (λ provider.
          bind-Ends Anything _ _ _ (bool_of-Ends py _ "CRYPTO_ENABLE_TESTNET") (λ _ _.
            Ends-ok (IsCrypto mode) _ (
              backfill-has_some wallets address (mode == "crypto_manual") wallet,
              backfill-get wallets (legacy_address source),
              of_not _ provider,
            )))))

module _ (py : Python) (text_repr : String → String) (dec : Decimals) (source : Env) where
  load_settings-Ends : Ends IsValid (load_settings py text_repr dec source)
  unfolding load_settings
  load_settings-Ends =
      let products = csv (value_of source "VPN_ROUTER_ALLOWED_PRODUCT_IDS" "vpn.monthly") in
      let mode = py.lower (strip (value_of source "CHECKOUT_MODE" "mock")) in
      bind-Ends (IsSecret 16) _ _ _ (required_secret-IsSecret source _ 16) (λ token_secret token.
        bind-Ends (IsSecret 16) _ _ _ (required_secret-IsSecret source _ 16) (λ admin_token admin.
          bind-Ends IsPort _ _ _ (port_of-IsPort py _) (λ port is_port.
            fail_if-Ends _ (has_none products) _ _ (λ some_product.
              bind-Ends Anything _ _ _ (load_limits-Ends py source) (λ _ _.
                bind-Ends IsShop _ _ _ (load_yookassa-IsShop source) (λ shop is_shop.
                  bind-Ends IsPriceList _ _ _ (product_prices-IsPriceList dec _) (λ prices priced.
                    bind-Ends IsUrl _ _ _ (required_url-IsUrl _ _) (λ base_url is_url.
                      fail_if-Ends _ (not (contains mode checkout_modes)) _ _ (λ in_modes.
                        bind-Ends AreSold _ _ _ (tariffs-Ends dec py _ prices) (λ tariffs sold.
                          bind-Ends Anything _ _ _ (parse_nodes_from_env-Ends _ _ text_repr source)
                            (λ _ _.
                              bind-Ends (IsCrypto mode) _ _ _
                                (load_crypto-IsCrypto py dec source mode)
                                (λ crypto is_crypto. Ends-ok IsValid _ (record {
                                  has_token_secret = token;
                                  has_admin_token = admin;
                                  has_port = is_port;
                                  has_products = some_product;
                                  has_shop_id = is_shop.0;
                                  has_secret_key = is_shop.1;
                                  has_return_url = is_shop.2;
                                  has_both = is_shop.3;
                                  returns = is_shop.4;
                                  has_prices = priced;
                                  has_base_url = is_url;
                                  has_mode = of_not _ in_modes;
                                  has_tariffs = sold;
                                  has_wallet = is_crypto.0;
                                  has_trc20 = is_crypto.1;
                                  has_provider = is_crypto.2;
                                })))))))))))))

  -- Settings that are loaded are valid: the two secrets have at least 16 characters and are no
  -- placeholders, the port is one, there is a product, a price and a tariff that can be sold, the
  -- addresses are absolute, the credentials of YooKassa are all given or none is, and with the
  -- payment in coins there is a wallet.
  pub load_settings-IsValid :
      (settings : Settings) → load_settings py text_repr dec source ≡ ok settings → IsValid settings
  load_settings-IsValid settings h =
      Ends-returned IsValid (load_settings py text_repr dec source) settings load_settings-Ends h
