-- ===== src/Tests/Environment.antt =====
-- The settings at concrete environments.
use vpp_wl_mobile.Prelude.{
  ◌≡◌, refl, true, false, none, some, [], ◌∷◌, ◌==◌, if◌then◌else◌, str_len, concat, is_empty,
  decimal, is_space, lstrip, rstrip, strip,
}
use vpp_wl_mobile.Prelude.Dict
use vpp_wl_mobile.Prelude.Int.{pos}
use vpp_wl_mobile.Errors.{ok, value_error, Error}
use vpp_wl_mobile.NodeConfig.{Env, parse_nodes_from_env, parse_numbers, setting}
use vpp_wl_mobile.Service.{Python}
use vpp_wl_mobile.Tariffs.{
  Decimals, positive, default_tariffs, parse_tariffs, read_all, with_configured_price, csv, split,
}
use vpp_wl_mobile.Settings.{
  Settings, load_settings, load_limits, load_yookassa, load_crypto, backfill, legacy_address,
}
use vpp_wl_mobile.Settings.Valid.{IsValid, load_settings-IsValid}
use vpp_wl_mobile.Settings.Values.{
  required_secret, optional_secret, checked_secret, port_of, optional_url, required_url,
  rstrip_slashes, is_absolute, product_prices, product_prices_from, product_price, split_colon,
  non_negative_int, bool_of, decimal_str, parse_crypto_wallets, wallets_from,
}

abbrev decimals : Decimals
decimals = record { amount = λ s. some positive; two_digits = λ s. s }

abbrev python : Python
python = record {
  repr = λ v. "";
  int_of = λ s. if s == "8080" then some (pos 8080) else some (pos 30);
  float_of = λ s. none;
  lower = λ s. s;
  isoformat = λ t. "";
  sha256_hex = λ s. s;
}

abbrev given : Env
given =
    ("VPN_ROUTER_TOKEN_SECRET", " 0123456789abcdef ")
    ∷ ("VPN_ROUTER_ADMIN_TOKEN", "fedcba9876543210")
    ∷ ("CHECKOUT_MODE", "crypto_manual")
    ∷ ("CRYPTO_USDT_TRC20_ADDRESS", "TXyz")
    ∷ ("CRYPTO_WALLET_TON", "UQab")
    ∷ ("VPN_ROUTER_CORS_ORIGINS", "https://a.example, https://b.example")
    ∷ ("VPN_ROUTER_PRODUCT_PRICES_RUB", "vpn.monthly: 200.00")
    ∷ ("PUBLIC_BASE_URL", "https://vpn.example//")
    ∷ []

abbrev expected : Settings
expected = record {
  token_secret = "0123456789abcdef";
  admin_token = "fedcba9876543210";
  host = "127.0.0.1";
  port = 8080;
  cors_origins = "https://a.example" ∷ "https://b.example" ∷ [];
  allowed_product_ids = "vpn.monthly" ∷ [];
  rate_limit_per_minute = 30;
  audit_retention_days = 30;
  hsts_enabled = false;
  yookassa_shop_id = none;
  yookassa_secret_key = none;
  yookassa_return_url = none;
  product_prices_rub = ("vpn.monthly", "200.00") ∷ [];
  public_base_url = "https://vpn.example";
  checkout_mode = "crypto_manual";
  tariffs = default_tariffs;
  nodes = [];
  crypto_usdt_trc20_address = some "TXyz";
  crypto_usdt_rate_rub = "90.00";
  crypto_wallets = ("ton", "UQab") ∷ ("trc20", "TXyz") ∷ [];
  crypto_rate_provider = "coingecko";
  crypto_enable_testnet = false;
}

given_loaded : load_settings python (λ s. s) decimals given ≡ ok expected
unfolding load_settings load_limits load_yookassa load_crypto backfill legacy_address
    required_secret optional_secret checked_secret port_of optional_url required_url rstrip_slashes
    is_absolute product_prices product_prices_from product_price split_colon non_negative_int
    bool_of decimal_str parse_crypto_wallets wallets_from parse_nodes_from_env parse_numbers setting
    parse_tariffs read_all with_configured_price csv split strip lstrip rstrip is_space is_empty
    concat decimal str_len vpp_wl_mobile.Prelude.Dict.get vpp_wl_mobile.Prelude.Dict.insert
    vpp_wl_mobile.Links.Parser.starts_with
given_loaded = refl

load_settings-IsValid_example : IsValid expected
load_settings-IsValid_example =
    load_settings-IsValid python (λ s. s) decimals given expected given_loaded

abbrev too_short : Error
too_short = value_error "VPN_ROUTER_ADMIN_TOKEN must be at least 16 characters"

abbrev weak : Env
weak = ("VPN_ROUTER_TOKEN_SECRET", "0123456789abcdef") ∷ ("VPN_ROUTER_ADMIN_TOKEN", "secret") ∷ []
