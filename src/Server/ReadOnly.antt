-- ===== src/Server/ReadOnly.antt =====
-- A GET request reads, and changes nothing that is stored.
use vpp_wl_mobile.Prelude.{
  ◌==◌, or_else, is_empty, not, [], ◌&&◌, Bool-cases, ◌∷◌, List, String, ◌≡◌, refl, ◌∙◌, inl, inr,
  Bool, Option, none, some,
}
use vpp_wl_mobile.Service.Accounts as Accounts
use vpp_wl_mobile.Prelude.Dict
use vpp_wl_mobile.Service.Html.{
  connect_html, Library, Crypto, Site, SiteAction, on_world, invoice_html, build_coin_options,
  option_amount, amount_now, shown_amount, with_option, is_offered, coin_option,
}
use vpp_wl_mobile.Server.Keeps.{
  admin_audit-Keeps, admin_nodes-Keeps, nodes-Keeps, config-Keeps, me-Keeps, export_me-Keeps,
  pure-Keeps, wallet-Keeps, v2ray-Keeps, qr-Keeps, raw-Keeps, as_user-Keeps, Keeps, connect-Keeps,
  result-cases, subscription-Keeps,
}
use vpp_wl_mobile.Service.Wallets.{Coin}
use vpp_wl_mobile.Server.{State, Handler, respond, Request, App}
use vpp_wl_mobile.Server.Paths.{GetRoute, get_route}
use vpp_wl_mobile.Server.Handlers.{
  get, serve_get, serve, limited, handle, is_rate_limited, ask_limiter, for_user,
  send_service_response, send_text_response, send_page, send_wallet_qr, send_metrics, as_user,
}
use vpp_wl_mobile.Json.{Json}
use vpp_wl_mobile.Service.{Settings, Python, Action}
use vpp_wl_mobile.Errors.{Error, pure, or_raise, raise_if, ◌>>=◌}
use vpp_wl_mobile.Service.Accounts.{require_known_user}

-- The same of a method that works on the exchange rates too.
abbrev SiteKeeps : {A : Type 0} → SiteAction A → Type 0
SiteKeeps m = (s : Site) → (m s).1.world.repo ≡ s.world.repo

bind-SiteKeeps :
    {A B : Type 0} (m : SiteAction A) (f : A → SiteAction B)
    → SiteKeeps m
    → ((a : A) → SiteKeeps (f a))
    → SiteKeeps (m >>= f)
bind-SiteKeeps m f h k s = elim (result-cases (m s).0) [
  | inl (a, e) ↦ rw (e, ◌>>=◌) (k a (m s).1 ∙ h s)
  | inr (x, e) ↦ rw (e, ◌>>=◌) (h s)
]

world-SiteKeeps : {A : Type 0} (m : Action A) → Keeps m → SiteKeeps (on_world m)
world-SiteKeeps m h s = h s.world

pure-SiteKeeps : {A : Type 0} (a : A) → SiteKeeps (pure a)
pure-SiteKeeps a s = refl

or_raise-SiteKeeps : {A : Type 0} (o : Option A) (e : Error) → SiteKeeps (or_raise o e)
or_raise-SiteKeeps none e s = refl
or_raise-SiteKeeps (some a) e s = refl

raise_if-SiteKeeps : (c : Bool) (e : Error) → SiteKeeps (raise_if c e)
raise_if-SiteKeeps c e s = refl

amount-SiteKeeps :
    (lib : Library) (py : Python) (price_rub : String) (coin : Coin)
    → SiteKeeps (option_amount lib py price_rub coin)
unfolding option_amount amount_now
amount-SiteKeeps lib py price_rub coin s =
    elim (Bool-cases (coin.testnet && not (is_empty (or_else coin.fixed_amount "")))) [
      | inl e ↦ rw (e, option_amount) refl
      | inr e ↦
          rw (e, option_amount)
            (bind-SiteKeeps (amount_now lib py price_rub coin)
              (λ amount. pure (shown_amount amount)) (λ s. refl) (λ a s. refl) s)
    ]

coins-SiteKeeps :
    (lib : Library) (py : Python) (crypto : Crypto) (price_rub : String) (coins : List Coin)
    → SiteKeeps (build_coin_options lib py crypto price_rub coins)
unfolding build_coin_options
coins-SiteKeeps lib py crypto price_rub [] s = refl
coins-SiteKeeps lib py crypto price_rub (coin ∷ coins) s =
    let rest = coins-SiteKeeps lib py crypto price_rub coins in
    elim (Bool-cases (is_offered crypto coin)) [
      | inl e ↦
          let address = or_else (Dict.get coin.wallet_key crypto.wallets) "" in
          let options_of = build_coin_options lib py crypto price_rub coins in
          rw (e, build_coin_options)
            (bind-SiteKeeps (option_amount lib py price_rub coin)
              (λ amount. with_option coin amount address options_of)
              (amount-SiteKeeps lib py price_rub coin)
              (λ amount.
                bind-SiteKeeps options_of
                  (λ options. pure (coin_option coin amount address ∷ options)) rest
                  (λ options. pure-SiteKeeps (coin_option coin amount address ∷ options)))
              s)
      | inr e ↦ rw (e, build_coin_options) (rest s)
    ]

invoice-SiteKeeps :
    (lib : Library) (py : Python) (cfg : Settings) (crypto : Crypto) (token : String)
    → SiteKeeps (invoice_html lib py cfg crypto token)
unfolding invoice_html
invoice-SiteKeeps lib py cfg crypto token =
    search
      (
        bind-SiteKeeps, world-SiteKeeps, pure-SiteKeeps, or_raise-SiteKeeps, raise_if-SiteKeeps,
        coins-SiteKeeps, subscription-Keeps,
      )
      depth 20

module _ (app : App) (req : Request) where
  abbrev IsReadOnly : Handler → Type 0
  IsReadOnly handler = (s : State) → (handler s).1.site.world.repo ≡ s.site.world.repo

  service-IsReadOnly :
      (action : Action (Dict.Dict Json))
      → Keeps action
      → IsReadOnly (send_service_response app req action)
  unfolding send_service_response respond
  service-IsReadOnly action h s = h s.site.world

  text-IsReadOnly :
      (action : Action String) (content_type : String)
      → Keeps action
      → IsReadOnly (send_text_response app req action content_type)
  unfolding send_text_response respond
  text-IsReadOnly action content_type h s = h s.site.world

  page-IsReadOnly :
      (action : SiteAction String) → SiteKeeps action → IsReadOnly (send_page app req action)
  unfolding send_page respond
  page-IsReadOnly action h s = h s.site

  wallet_qr-IsReadOnly :
      (action : Action String) → Keeps action → IsReadOnly (send_wallet_qr app req action)
  unfolding send_wallet_qr respond
  wallet_qr-IsReadOnly action h s = h s.site.world

  user-IsReadOnly :
      (method : String → Action (Dict.Dict Json))
      → ((user_id : String) → Keeps (method user_id))
      → IsReadOnly (for_user app req method)
  unfolding for_user
  user-IsReadOnly method h =
      service-IsReadOnly (as_user app req method) (as_user-Keeps app req method h)

  get-IsReadOnly : (route : GetRoute) → IsReadOnly (serve_get app req route)
  unfolding serve_get send_metrics
  get-IsReadOnly GetRoute.landing = λ s. refl
  get-IsReadOnly GetRoute.health = λ s. refl
  get-IsReadOnly (GetRoute.connect token) = page-IsReadOnly _ (
      world-SiteKeeps (connect_html app.html app.py app.service token)
        (connect-Keeps app.py app.service app.html token))
  get-IsReadOnly (GetRoute.raw_subscription token) =
      text-IsReadOnly _ _ (raw-Keeps app.links app.py token)
  get-IsReadOnly (GetRoute.subscription_qr token) =
      text-IsReadOnly _ _ (qr-Keeps app.py app.service app.codec.utf8 token)
  get-IsReadOnly (GetRoute.subscription token) =
      text-IsReadOnly _ _ (v2ray-Keeps app.links app.py token)
  get-IsReadOnly (GetRoute.wallet_qr token coin_id) =
      wallet_qr-IsReadOnly _ (wallet-Keeps app.codec.utf8 app.crypto.wallets token coin_id)
  get-IsReadOnly (GetRoute.invoice token) =
      page-IsReadOnly _ (invoice-SiteKeeps app.html app.py app.service app.crypto token)
  get-IsReadOnly GetRoute.version = service-IsReadOnly _ (pure-Keeps Accounts.version)
  get-IsReadOnly GetRoute.metrics = λ s. refl
  get-IsReadOnly GetRoute.nodes = user-IsReadOnly _ (nodes-Keeps app.py app.service)
  get-IsReadOnly GetRoute.config = user-IsReadOnly _ (config-Keeps app.py app.service)
  get-IsReadOnly GetRoute.me = user-IsReadOnly _ (me-Keeps app.py app.service)
  get-IsReadOnly GetRoute.export_me = user-IsReadOnly _ (export_me-Keeps app.py app.service)
  get-IsReadOnly GetRoute.admin_nodes =
      service-IsReadOnly _ (admin_nodes-Keeps app.py app.service _)
  get-IsReadOnly GetRoute.admin_audit =
      service-IsReadOnly _ (admin_audit-Keeps app.py app.service _)
  get-IsReadOnly GetRoute.missing = λ s. refl

  asked-IsReadOnly : (s : State) → (is_rate_limited app req s).1.site.world.repo ≡ s.site.world.repo
  unfolding is_rate_limited ask_limiter
  asked-IsReadOnly s = elim (Bool-cases (req.path == "/health")) [
    | inl e ↦ rw (e, is_rate_limited) refl
    | inr e ↦ rw (e, is_rate_limited) refl
  ]

  -- A GET request leaves everything that is stored as it was, whatever its path is, whether it is
  -- answered or refused, and whatever is raised.
  pub get-unchanged : (s : State) → (handle app req get s).1.site.world.repo ≡ s.site.world.repo
  unfolding handle limited serve
  get-unchanged s = elim (Bool-cases (is_rate_limited app req s).0) [
    | inl e ↦ rw (e, handle, limited) (asked-IsReadOnly s)
    | inr e ↦
        rw (e, handle, limited)
          (get-IsReadOnly (get_route req.path) (is_rate_limited app req s).1 ∙ asked-IsReadOnly s)
  ]
