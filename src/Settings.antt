-- ===== src/Settings.antt =====
-- backend/app/core/settings.py: the settings, read from the environment. `int` of a text,
-- `str.lower`, `repr` of a text and Decimal are parameters.
pub mod Values
pub mod Read
pub mod Valid
use vpp_wl_mobile.Prelude.{
  ℕ, String, Bool, not, ◌&&◌, ◌||◌, Option, none, some, List, [], ◌∷◌, ◌==◌, if◌then◌else◌, is_some,
  or_option, concat, is_empty, decimal, strip,
}
use vpp_wl_mobile.Prelude.Dict
use vpp_wl_mobile.Config.Validation.{contains}
use vpp_wl_mobile.Errors.{Result, ok, raised, value_error, Error}
use vpp_wl_mobile.Errors.Chain.{◌>>=◌, ◌>>◌, fail_if, or_fail}
use vpp_wl_mobile.NodeConfig.{Env, parse_nodes_from_env}
use vpp_wl_mobile.Models.{VpnNode}
use vpp_wl_mobile.Service.{Python, Tariff}
use vpp_wl_mobile.Tariffs.{Decimals, csv, parse_tariffs}
use vpp_wl_mobile.Settings.Values.{
  required_secret, optional_secret, port_of, optional_url, required_url, product_prices,
  non_negative_int, bool_of, decimal_str, parse_crypto_wallets, value_of, has_none,
}

pub record Settings : Type 0 where
  pub token_secret : String
  pub admin_token : String
  pub host : String
  pub port : ℕ
  pub cors_origins : List String
  pub allowed_product_ids : List String
  pub rate_limit_per_minute : ℕ
  pub audit_retention_days : ℕ
  pub hsts_enabled : Bool
  pub yookassa_shop_id : Option String
  pub yookassa_secret_key : Option String
  pub yookassa_return_url : Option String
  pub product_prices_rub : Dict.Dict String
  pub public_base_url : String
  pub checkout_mode : String
  pub tariffs : List Tariff
  pub nodes : List VpnNode
  pub crypto_usdt_trc20_address : Option String
  pub crypto_usdt_rate_rub : String
  pub crypto_wallets : Dict.Dict String
  pub crypto_rate_provider : String
  pub crypto_enable_testnet : Bool

abbrev pub checkout_modes : List String
checkout_modes = "mock" ∷ "yookassa" ∷ "crypto_manual" ∷ []

abbrev pub rate_providers : List String
rate_providers = "coingecko" ∷ "fixed" ∷ []

-- `except ValueError as exc`, around the tariffs.
abbrev pub invalid_tariffs : {A : Type 0} → Result A → Result A
invalid_tariffs (ok a) = ok a
invalid_tariffs (raised (value_error m)) =
    raised (value_error (concat ("VPN_ROUTER_TARIFFS invalid: " ∷ m ∷ [])))
invalid_tariffs (raised e) = raised e

-- `bool(yookassa_shop_id) != bool(yookassa_secret_key)`; neither is ever the empty text.
abbrev pub differ : Bool → Bool → Bool
differ a b = (a && not b) || (not a && b)

-- `source.get("CRYPTO_USDT_TRC20_ADDRESS", "").strip() or None`
unfoldable pub legacy_address : Env → Option String
unfolding strip is_empty
legacy_address source =
    let address = strip (value_of source "CRYPTO_USDT_TRC20_ADDRESS" "") in
    if is_empty address then none else some address

-- The wallets, with the address of the legacy variable where only that is given.
unfoldable pub backfill : Option String → Dict.Dict String → Dict.Dict String
backfill none wallets = wallets
backfill (some address) wallets =
    if is_some (Dict.get "trc20" wallets) then wallets else Dict.insert "trc20" address wallets

-- The limits of `load_settings`.
unfoldable pub load_limits : Python → Env → Result (ℕ × ℕ × Bool)
load_limits py source = do
  rate_limit_per_minute ←
      non_negative_int py (value_of source "VPN_ROUTER_RATE_LIMIT_PER_MINUTE" "120")
        "VPN_ROUTER_RATE_LIMIT_PER_MINUTE"
  audit_retention_days ←
      non_negative_int py (value_of source "VPN_ROUTER_AUDIT_RETENTION_DAYS" "30")
        "VPN_ROUTER_AUDIT_RETENTION_DAYS"
  hsts_enabled ←
      bool_of py (value_of source "VPN_ROUTER_HSTS_ENABLED" "false") "VPN_ROUTER_HSTS_ENABLED"
  ok (rate_limit_per_minute, audit_retention_days, hsts_enabled)

-- The credentials of YooKassa of `load_settings`.
unfoldable pub load_yookassa : Env → Result (Option String × Option String × Option String)
load_yookassa source = do
  yookassa_shop_id ← optional_secret source "VPN_ROUTER_YOOKASSA_SHOP_ID" 3
  yookassa_secret_key ← optional_secret source "VPN_ROUTER_YOOKASSA_SECRET_KEY" 16
  yookassa_return_url ← optional_url (value_of source "VPN_ROUTER_YOOKASSA_RETURN_URL" "")
  fail_if (differ (is_some yookassa_shop_id) (is_some yookassa_secret_key)) (
      value_error
        "VPN_ROUTER_YOOKASSA_SHOP_ID and VPN_ROUTER_YOOKASSA_SECRET_KEY must be set together")
  fail_if (is_some yookassa_shop_id && not (is_some yookassa_return_url))
      (value_error "VPN_ROUTER_YOOKASSA_RETURN_URL is required when YooKassa credentials are set")
  ok (yookassa_shop_id, yookassa_secret_key, yookassa_return_url)

-- The payment in coins of `load_settings`: the legacy address, the rate, the wallets, the provider
-- of the rates, and whether coins of test networks are taken.
unfoldable pub load_crypto :
    Python
    → Decimals
    → Env
    → String
    → Result (Option String × String × Dict.Dict String × String × Bool)
unfolding legacy_address backfill strip parse_crypto_wallets
load_crypto py dec source checkout_mode = do
  let wallets = parse_crypto_wallets source
  let crypto_usdt_trc20_address = or_option (Dict.get "trc20" wallets) (legacy_address source)
  fail_if
      ((checkout_mode == "crypto_manual")
        && has_none wallets
        && not (is_some crypto_usdt_trc20_address))
      (value_error
        "At least one crypto wallet required for CHECKOUT_MODE=crypto_manual (set CRYPTO_WALLET_TRC20, CRYPTO_WALLET_TON, CRYPTO_WALLET_ETH or CRYPTO_WALLET_BTC)")
  crypto_usdt_rate_rub ←
      decimal_str dec (value_of source "CRYPTO_USDT_RATE_RUB" "90.00") "CRYPTO_USDT_RATE_RUB"
  let crypto_rate_provider = py.lower (strip (value_of source "CRYPTO_RATE_PROVIDER" "coingecko"))
  fail_if (not (contains crypto_rate_provider rate_providers))
      (value_error "CRYPTO_RATE_PROVIDER must be coingecko or fixed")
  crypto_enable_testnet ←
      bool_of py (value_of source "CRYPTO_ENABLE_TESTNET" "false") "CRYPTO_ENABLE_TESTNET"
  ok (
    crypto_usdt_trc20_address,
    crypto_usdt_rate_rub,
    backfill crypto_usdt_trc20_address wallets,
    crypto_rate_provider,
    crypto_enable_testnet,
  )

unfoldable pub load_settings : Python → (String → String) → Decimals → Env → Result Settings
unfolding load_limits load_yookassa load_crypto strip concat decimal csv
load_settings py text_repr dec source = do
  token_secret ← required_secret source "VPN_ROUTER_TOKEN_SECRET" 16
  admin_token ← required_secret source "VPN_ROUTER_ADMIN_TOKEN" 16
  port ← port_of py (value_of source "VPN_ROUTER_PORT" "8080")
  let allowed_product_ids = csv (value_of source "VPN_ROUTER_ALLOWED_PRODUCT_IDS" "vpn.monthly")
  fail_if (has_none allowed_product_ids)
      (value_error "VPN_ROUTER_ALLOWED_PRODUCT_IDS must not be empty")
  limits ← load_limits py source
  yookassa ← load_yookassa source
  product_prices_rub ← product_prices dec (
      value_of source "VPN_ROUTER_PRODUCT_PRICES_RUB"
        "vpn.monthly:200.00,vpn.1m:200.00,vpn.3m:500.00,vpn.6m:900.00")
  public_base_url ←
      required_url
        (value_of source "PUBLIC_BASE_URL" (concat ("http://127.0.0.1:" ∷ decimal port ∷ [])))
        "PUBLIC_BASE_URL"
  let checkout_mode = py.lower (strip (value_of source "CHECKOUT_MODE" "mock"))
  fail_if (not (contains checkout_mode checkout_modes))
      (value_error "CHECKOUT_MODE must be mock, yookassa, or crypto_manual")
  tariffs ←
      invalid_tariffs
        (parse_tariffs dec py (value_of source "VPN_ROUTER_TARIFFS" "") product_prices_rub)
  nodes ← parse_nodes_from_env py.int_of py.lower text_repr source
  crypto ← load_crypto py dec source checkout_mode
  ok (record {
    token_secret = token_secret;
    admin_token = admin_token;
    host = value_of source "VPN_ROUTER_HOST" "127.0.0.1";
    port = port;
    cors_origins = csv (value_of source "VPN_ROUTER_CORS_ORIGINS" "");
    allowed_product_ids = allowed_product_ids;
    rate_limit_per_minute = limits.0;
    audit_retention_days = limits.1;
    hsts_enabled = limits.2;
    yookassa_shop_id = yookassa.0;
    yookassa_secret_key = yookassa.1;
    yookassa_return_url = yookassa.2;
    product_prices_rub = product_prices_rub;
    public_base_url = public_base_url;
    checkout_mode = checkout_mode;
    tariffs = tariffs;
    nodes = nodes;
    crypto_usdt_trc20_address = crypto.0;
    crypto_usdt_rate_rub = crypto.1;
    crypto_wallets = crypto.2;
    crypto_rate_provider = crypto.3;
    crypto_enable_testnet = crypto.4;
  })
