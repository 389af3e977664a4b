-- ===== src/Server/Keeps.antt =====
-- What the methods that a GET request calls leave as it was.
use vpp_wl_mobile.Prelude.{ℕ, List, String, ◌≡◌, refl, ◌∙◌, ◌⊎◌, inl, inr, Bool, Option, none, some}
use vpp_wl_mobile.Service.Accounts as Accounts
use vpp_wl_mobile.Prelude.Dict
use vpp_wl_mobile.Server.{header_or, Request, App}
use vpp_wl_mobile.Service.Admin.{admin_nodes, admin_audit_events}
use vpp_wl_mobile.Service.Html.{Library, connect_html}
use vpp_wl_mobile.Service.Subscriptions.{
  subscription_qr_svg, raw_v2ray_subscription, v2ray_subscription,
}
use vpp_wl_mobile.Json.{Json}
use vpp_wl_mobile.Service.{Settings, Python, World, Action, now, read_repo}
use vpp_wl_mobile.Service.Authorization.{bearer_user, user_id_from_authorization}
use vpp_wl_mobile.Server.Handlers.{as_user}
use vpp_wl_mobile.Links.Subscription.{LinkLibrary}
use vpp_wl_mobile.Service.Wallets.{invoice_wallet_qr_svg}
use vpp_wl_mobile.Errors.{Result, ok, raised, Error, pure, lift, or_raise, raise_if, ◌>>=◌}
use vpp_wl_mobile.Repository.{Repo}
use vpp_wl_mobile.Service.Accounts.{require_known_user}
use vpp_wl_mobile.Service.Sales.{commercial_subscription, require_active_commercial_subscription}

-- A method that leaves the repository as it was, whatever it returns or raises.
abbrev pub Keeps : {A : Type 0} → Action A → Type 0
Keeps m = (w : World) → (m w).1.repo ≡ w.repo

pub result-cases :
    {A : Type 0} (r : Result A) → ((a : A) × (r ≡ ok a)) ⊎ ((e : Error) × (r ≡ raised e))
result-cases (ok a) = inl (a, refl)
result-cases (raised e) = inr (e, refl)

pub bind-Keeps :
    {A B : Type 0} (m : Action A) (f : A → Action B)
    → Keeps m
    → ((a : A) → Keeps (f a))
    → Keeps (m >>= f)
bind-Keeps m f h k w = elim (result-cases (m w).0) [
  | inl (a, e) ↦ rw (e, ◌>>=◌) (k a (m w).1 ∙ h w)
  | inr (x, e) ↦ rw (e, ◌>>=◌) (h w)
]

pub now-Keeps : Keeps now
unfolding now
now-Keeps w = refl

pub read-Keeps : {A : Type 0} (f : Repo → A) → Keeps (read_repo f)
read-Keeps f w = refl

pub lift-Keeps : {A : Type 0} (r : Result A) → Keeps (lift r)
lift-Keeps r w = refl

pub pure-Keeps : {A : Type 0} (a : A) → Keeps (pure a)
pure-Keeps a w = refl

pub or_raise-Keeps : {A : Type 0} (o : Option A) (e : Error) → Keeps (or_raise o e)
or_raise-Keeps none e w = refl
or_raise-Keeps (some a) e w = refl

pub raise_if-Keeps : (c : Bool) (e : Error) → Keeps (raise_if c e)
raise_if-Keeps c e w = refl

ruleset keeping =
    (bind-Keeps, now-Keeps, read-Keeps, lift-Keeps, pure-Keeps, or_raise-Keeps, raise_if-Keeps)

pub known-Keeps : (user_id : String) → Keeps (require_known_user user_id)
unfolding require_known_user
known-Keeps user_id = search keeping depth 12

pub subscription-Keeps : (token : String) → Keeps (commercial_subscription token)
unfolding commercial_subscription
subscription-Keeps token = search keeping depth 12

pub active-Keeps : (token : String) → Keeps (require_active_commercial_subscription token)
unfolding require_active_commercial_subscription
active-Keeps token = search (keeping, subscription-Keeps) depth 12

module _ (py : Python) (cfg : Settings) where
  pub nodes-Keeps : (user_id : String) → Keeps (Accounts.nodes user_id)
  unfolding vpp_wl_mobile.Service.Accounts.nodes
  nodes-Keeps user_id = search (keeping, known-Keeps) depth 12

  pub config-Keeps : (user_id : String) → Keeps (Accounts.config user_id)
  unfolding vpp_wl_mobile.Service.Accounts.config
  config-Keeps user_id = search (keeping, known-Keeps) depth 16

  pub me-Keeps : (user_id : String) → Keeps (Accounts.me py cfg user_id)
  unfolding vpp_wl_mobile.Service.Accounts.me
  me-Keeps user_id = search (keeping, known-Keeps) depth 16

  pub export_me-Keeps : (user_id : String) → Keeps (Accounts.export_me py cfg user_id)
  unfolding vpp_wl_mobile.Service.Accounts.export_me
  export_me-Keeps user_id = search keeping depth 12

  pub admin_nodes-Keeps : (token : String) → Keeps (admin_nodes py cfg token)
  unfolding admin_nodes
  admin_nodes-Keeps token = search keeping depth 12

  pub admin_audit-Keeps : (token : String) → Keeps (admin_audit_events py cfg token)
  unfolding admin_audit_events
  admin_audit-Keeps token = search keeping depth 12

  pub connect-Keeps : (lib : Library) (token : String) → Keeps (connect_html lib py cfg token)
  unfolding connect_html
  connect-Keeps lib token = search (keeping, subscription-Keeps) depth 16

  pub qr-Keeps :
      (encode : String → List ℕ) (token : String) → Keeps (subscription_qr_svg encode cfg token)
  unfolding subscription_qr_svg
  qr-Keeps encode token = search (keeping, active-Keeps) depth 12

module _ (links : LinkLibrary) (py : Python) where
  pub raw-Keeps : (token : String) → Keeps (raw_v2ray_subscription links py token)
  unfolding raw_v2ray_subscription
  raw-Keeps token = search (keeping, active-Keeps) depth 12

  pub v2ray-Keeps : (token : String) → Keeps (v2ray_subscription links py token)
  unfolding v2ray_subscription
  v2ray-Keeps token = search (keeping, active-Keeps) depth 12

pub wallet-Keeps :
    (encode : String → List ℕ) (wallets : Dict.Dict String) (token coin_id : String)
    → Keeps (invoice_wallet_qr_svg encode wallets token coin_id)
unfolding invoice_wallet_qr_svg
wallet-Keeps encode wallets token coin_id = search (keeping, subscription-Keeps) depth 12

module _ (app : App) (req : Request) where
  pub authorization-Keeps :
      (header : String) → Keeps (user_id_from_authorization app.codec app.py app.tokens header)
  unfolding user_id_from_authorization bearer_user
  authorization-Keeps header = search (keeping, known-Keeps) depth 16

  pub as_user-Keeps :
      (method : String → Action (Dict.Dict Json))
      → ((user_id : String) → Keeps (method user_id))
      → Keeps (as_user app req method)
  unfolding as_user
  as_user-Keeps method h =
      bind-Keeps _ method (authorization-Keeps (header_or req "Authorization" "")) h
