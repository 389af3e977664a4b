-- ===== src/Service/Wallets.antt =====
-- The coins of backend/app/domain/coins.py, and the wallet that backend/app/api/service.py shows to
-- who pays with one.
use vpp_wl_mobile.Prelude.{
  ℕ, String, ◌≡◌, refl, Bool, true, false, Option, none, some, List, [], ◌∷◌, ◌==◌, if◌then◌else◌,
  or_else, is_empty,
}
use vpp_wl_mobile.Prelude.Dict
use vpp_wl_mobile.Errors.{Result, raised, api, service_unavailable, lift, ◌>>=◌}
use vpp_wl_mobile.Service.{Action}
use vpp_wl_mobile.Service.Sales.{commercial_subscription}
use vpp_wl_mobile.Qr.Svg.{qr_svg}

pub record Coin : Type 0 where
  pub id : String
  pub label : String
  pub network_label : String
  pub coingecko_id : String
  pub wallet_key : String
  pub decimals : ℕ
  pub order : ℕ
  pub testnet : Bool
  pub fixed_amount : Option String

abbrev coin : String → String → String → String → String → ℕ → ℕ → Coin
coin id label network_label coingecko_id wallet_key decimals order = record {
  id = id;
  label = label;
  network_label = network_label;
  coingecko_id = coingecko_id;
  wallet_key = wallet_key;
  decimals = decimals;
  order = order;
  testnet = false;
  fixed_amount = none;
}

-- `ALL_COINS`
abbrev pub all_coins : List Coin
all_coins =
    coin "usdt_trc20" "USDT" "TRC20 · Tron" "tether" "trc20" 2 1
    ∷ coin "usdt_erc20" "USDT" "ERC20 · Ethereum" "tether" "eth" 2 2
    ∷ coin "usdt_bep20" "USDT" "BEP20 · BNB" "tether" "eth" 2 3
    ∷ coin "usdc_trc20" "USDC" "TRC20 · Tron" "usd-coin" "trc20" 2 4
    ∷ coin "usdc_erc20" "USDC" "ERC20 · Ethereum" "usd-coin" "eth" 2 5
    ∷ coin "ton" "TON" "TON" "toncoin" "ton" 4 6
    ∷ coin "eth" "ETH" "Ethereum" "ethereum" "eth" 6 7
    ∷ coin "btc" "BTC" "Bitcoin" "bitcoin" "btc" 8 8
    ∷ record (coin "eth_sepolia" "ETH" "Sepolia · testnet" "ethereum" "eth" 6 99) {
      testnet = true;
      fixed_amount = some "0.001";
    }
    ∷ []

-- `COINS_BY_ID.get(coin_id)`; no two coins have one identifier.
unfoldable pub find_coin : String → List Coin → Option Coin
find_coin coin_id [] = none
find_coin coin_id (c ∷ coins) = if c.id == coin_id then some c else find_coin coin_id coins

-- The loop over all coins: the first wallet that is configured.
unfoldable pub first_wallet : Dict.Dict String → List Coin → Option String
unfolding is_empty
first_wallet wallets [] = none
first_wallet wallets (c ∷ coins) =
    let rest = first_wallet wallets coins in
    let address = or_else (Dict.get c.wallet_key wallets) "" in
    if is_empty address then rest else some address

-- `_wallet_address_for_coin`, where no coin and an empty text are the same.
unfoldable pub wallet_address_for_coin : Dict.Dict String → String → Option String
unfolding find_coin first_wallet
wallet_address_for_coin wallets coin_id = elim (find_coin coin_id all_coins) [
  | none ↦ first_wallet wallets all_coins
  | some c ↦ Dict.get c.wallet_key wallets
]

-- `address` of the method, or what it raises if there is none or an empty one.
unfoldable pub wallet_svg : (String → List ℕ) → String → Result String
unfolding is_empty qr_svg
wallet_svg encode address =
    if is_empty address
    then raised (api service_unavailable "crypto payments not configured")
    else qr_svg encode address 8 4

unfoldable pub invoice_wallet_qr_svg :
    (String → List ℕ) → Dict.Dict String → String → String → Action String
unfolding commercial_subscription wallet_address_for_coin wallet_svg
invoice_wallet_qr_svg encode wallets token coin_id = do
  _ ← commercial_subscription token
  lift (wallet_svg encode (or_else (wallet_address_for_coin wallets coin_id) ""))

-- The wallet of a coin is the one of its network.
usdc_wallet :
    wallet_address_for_coin (("eth", "0xA") ∷ ("trc20", "TB") ∷ []) "usdc_erc20" ≡ some "0xA"
unfolding wallet_address_for_coin find_coin Dict.get
usdc_wallet = refl

first_configured : wallet_address_for_coin (("btc", "bc1") ∷ []) "" ≡ some "bc1"
unfolding wallet_address_for_coin find_coin first_wallet Dict.get is_empty
first_configured = refl
