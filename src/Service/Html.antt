-- ===== src/Service/Html.antt =====
-- The methods of `ApiService` of backend/app/api/service.py that make a page, and `_build_coin_options`.
-- The rates of the coins are kept beside the repository.
pub mod Offered
use vpp_wl_mobile.Prelude.{
  ℕ, ◌+◌, String, Bool, not, ◌&&◌, Option, none, some, List, [], ◌∷◌, map, ◌==◌, if◌then◌else◌,
  or_else, is_empty, or_text,
}
use vpp_wl_mobile.Prelude.Dict
use vpp_wl_mobile.Json.{Json, str}
use vpp_wl_mobile.Errors.{
  Result, ok, api, internal_server_error, service_unavailable, Exec, pure, lift, or_raise, raise_if,
  ◌>>=◌, ◌>>◌,
}
use vpp_wl_mobile.Models.{VpnNode, NodeOptions, VlessOptions, CommercialSubscription, is_paid}
use vpp_wl_mobile.Links.Subscription.{active_vless_nodes}
use vpp_wl_mobile.Pages.Connect.{PublicConfig, connect_page}
use vpp_wl_mobile.Pages.Invoice.{CoinOption, invoice_page}
use vpp_wl_mobile.Pages.Landing.{landing_page}
use vpp_wl_mobile.Rates.{ExchangeRateService, coin_amount}
use vpp_wl_mobile.Repository.Nodes.{list_nodes}
use vpp_wl_mobile.Service.{World, Python, Settings, Action, find_tariff, now, read_repo}
use vpp_wl_mobile.Service.Payload.{text}
use vpp_wl_mobile.Service.Sales.{commercial_subscription}
use vpp_wl_mobile.Service.Subscriptions.{subscription_url}
use vpp_wl_mobile.Service.Wallets.{Coin, all_coins}
use vpp_wl_mobile.Settings.Values.{has_none}

-- The state of a request, the exchange rates, and the answers of the network that are still to come.
pub record Site : Type 0 where
  pub world : World
  pub service : ExchangeRateService
  pub network : ℕ → Option Json
  pub fetches : ℕ

abbrev pub SiteAction : Type 0 → Type 0
SiteAction A = Exec Site A

abbrev pub on_world : {A : Type 0} → Action A → SiteAction A
on_world m s = let (r, w) = m s.world in (r, record s { world = w })

-- What the pages use of Python that is not spelled out.
pub record Library : Type 0 where
  pub date_text : ℕ → String
  pub text_repr : String → String
  pub upper : String → String
  pub dumps : Json → String
  pub convert : String → String → ℕ → Option String

-- The attributes of `ApiService` for the payment in coins.
pub record Crypto : Type 0 where
  pub wallets : Dict.Dict String
  pub enable_testnet : Bool

-- `landing_html`
unfoldable pub landing_html : Settings → String
unfolding landing_page
landing_html cfg = landing_page cfg.tariffs

-- One amount: the clock is read and the network asked, needed or not.
unfoldable pub amount_now : Library → Python → String → Coin → SiteAction (Option String)
unfolding coin_amount
amount_now lib py price_rub coin s =
    let w = s.world in
    let (amount, service) =
      coin_amount py lib.convert price_rub coin (w.clock w.reads) (s.network s.fetches)
        (w.clock (w.reads + 1)) s.service in
    (
      amount,
      record s {
        world = record w { reads = w.reads + 2 };
        service = service;
        fetches = s.fetches + 1;
      },
    )

-- `amount` of `_build_coin_options`; no amount and an empty one are shown as a dash.
unfoldable pub shown_amount : Option String → String
unfolding or_text
shown_amount amount = or_text (or_else amount "") "—"

unfoldable pub option_amount : Library → Python → String → Coin → SiteAction String
unfolding amount_now shown_amount is_empty
option_amount lib py price_rub coin s =
    let live = (amount_now lib py price_rub coin >>= λ amount. pure (shown_amount amount)) s in
    if coin.testnet && not (is_empty (or_else coin.fixed_amount ""))
    then (ok (or_else coin.fixed_amount ""), s)
    else live

abbrev pub coin_option : Coin → String → String → CoinOption
coin_option coin amount address = record {
  id = coin.id;
  label = coin.label;
  network_label = coin.network_label;
  amount = amount;
  address = address;
  testnet = (if coin.testnet then "1" else "");
}

-- The two tests of the loop that pass a coin over.
unfoldable pub is_offered : Crypto → Coin → Bool
unfolding is_empty
is_offered crypto coin =
    not (coin.testnet && not crypto.enable_testnet)
    && not (is_empty (or_else (Dict.get coin.wallet_key crypto.wallets) ""))

-- The option of a coin before those of the rest of the loop.
abbrev pub with_option :
    Coin → String → String → SiteAction (List CoinOption) → SiteAction (List CoinOption)
with_option coin amount address rest = do
  options ← rest
  pure (coin_option coin amount address ∷ options)

-- `_build_coin_options`, over a list of coins.
unfoldable pub build_coin_options :
    Library → Python → Crypto → String → List Coin → SiteAction (List CoinOption)
unfolding is_offered option_amount
build_coin_options lib py crypto price_rub [] = pure []
build_coin_options lib py crypto price_rub (coin ∷ coins) =
    let rest = build_coin_options lib py crypto price_rub coins in
    if is_offered crypto coin
    then (do
      amount ← option_amount lib py price_rub coin
      with_option coin amount (or_else (Dict.get coin.wallet_key crypto.wallets) "") rest)
    else rest

-- `invoice_html`
unfoldable pub invoice_html : Library → Python → Settings → Crypto → String → SiteAction String
unfolding commercial_subscription find_tariff build_coin_options invoice_page
invoice_html lib py cfg crypto token = do
  subscription ← on_world (commercial_subscription token)
  tariff ←
      or_raise (find_tariff subscription.tariff_id cfg.tariffs)
        (api internal_server_error "tariff not found")
  raise_if (has_none crypto.wallets) (api service_unavailable "crypto payments not configured")
  coin_options ← build_coin_options lib py crypto tariff.price_rub all_coins
  raise_if (has_none coin_options) (api service_unavailable "no configured crypto wallets")
  pure (invoice_page lib.dumps subscription.token tariff coin_options)

-- `security.upper() or "TCP"`, and "Reality" for that one.
unfoldable pub kind_of : Library → Python → String → String
unfolding or_text
kind_of lib py security =
    let lowered = py.lower security in
    if lowered == "reality" then "Reality" else or_text (lib.upper lowered) "TCP"

-- The transport of the options of a node.
unfoldable pub transport_of : Python → Option (Dict.Dict Json) → String
unfolding text
transport_of py none = "tcp"
transport_of py (some transport) = text py (or_else (Dict.get "type" transport) (str "tcp"))

unfoldable pub public_config : Library → Python → VpnNode → NodeOptions → PublicConfig
unfolding kind_of transport_of or_text
public_config lib py node (NodeOptions.vless o) = record {
  label = or_text (or_else o.label "") node.tag;
  kind = kind_of lib py o.security;
  transport = lib.upper (transport_of py o.transport);
}
public_config lib py node _ = record {
  label = node.tag;
  kind = kind_of lib py "";
  transport = lib.upper "tcp";
}

-- `_public_configs`
unfoldable pub public_configs : Library → Python → List VpnNode → List PublicConfig
unfolding active_vless_nodes public_config
public_configs lib py nodes = map (λ n. public_config lib py n n.options) (active_vless_nodes nodes)

-- `connect_html`
unfoldable pub connect_html : Library → Python → Settings → String → Action String
unfolding commercial_subscription is_paid public_configs list_nodes subscription_url connect_page
    now
connect_html lib py cfg token = do
  subscription ← commercial_subscription token
  at ← now
  nodes ← read_repo list_nodes
  later ← now
  pure (
      connect_page lib.date_text lib.text_repr subscription (subscription_url cfg token) cfg.tariffs
        (if is_paid subscription at then public_configs lib py nodes else []) later)
