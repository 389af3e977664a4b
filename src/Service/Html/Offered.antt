-- ===== src/Service/Html/Offered.antt =====
-- The coins that an invoice offers.
use vpp_wl_mobile.Prelude.{ℕ, some, ◌⊎◌, false, true, String, ◌≡◌, List, [], ◌∷◌, or_else, is_empty}
use vpp_wl_mobile.Prelude.Dict
use vpp_wl_mobile.Json.{Json}
use vpp_wl_mobile.Errors.{Result, ok}
use vpp_wl_mobile.Pages.Invoice.{CoinOption}
use vpp_wl_mobile.Service.Html.{Library, Crypto}
use vpp_wl_mobile.Service.Wallets.{Coin}

-- What an option says of its coin and its wallet, the amount apart.
abbrev pub Entry : Type 0
Entry = String × String

abbrev pub entry_of : CoinOption → Entry
entry_of o = (o.id, o.address)

-- Which coins are offered, in their order: one of a test network only where those are enabled, and
-- only one whose wallet is configured, with the address of that wallet.
pub data Offered (crypto : Crypto) : List Coin → List Entry → Type 0 where
  no_coins : Offered crypto [] []
  of_test_network :
      (coin : Coin) (coins : List Coin) (entries : List Entry)
      → coin.testnet ≡ true
      → crypto.enable_testnet ≡ false
      → Offered crypto coins entries
      → Offered crypto (coin ∷ coins) entries
  without_wallet :
      (coin : Coin) (coins : List Coin) (entries : List Entry)
      → or_else (Dict.get coin.wallet_key crypto.wallets) "" ≡ ""
      → Offered crypto coins entries
      → Offered crypto (coin ∷ coins) entries
  offered :
      (coin : Coin) (coins : List Coin) (entries : List Entry) (address : String)
      → (coin.testnet ≡ false) ⊎ (crypto.enable_testnet ≡ true)
      → Dict.get coin.wallet_key crypto.wallets ≡ some address
      → is_empty address ≡ false
      → Offered crypto coins entries
      → Offered crypto (coin ∷ coins) ((coin.id, address) ∷ entries)

-- A price that can be divided by every rate, and the quotient rounded to every number of digits.
abbrev pub IsConvertible : Library → String → Type 0
IsConvertible lib price_rub =
    (rate : String) (decimals : ℕ)
    → (amount : String) × (lib.convert price_rub rate decimals ≡ some amount)

abbrev pub Returns : {A : Type 0} → Result A → Type 0
Returns {A} r = (a : A) × (r ≡ ok a)
