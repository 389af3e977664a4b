-- ===== src/Service/Sales.antt =====
-- The methods of `ApiService` of backend/app/api/service.py that sell access: the checkout, the
-- payments and the calls of the payment provider. What a method of the repository may draw is drawn
-- before the call, needed or not.
pub mod Guarded
pub mod Opening
use vpp_wl_mobile.Prelude.{
  String, not, ◌||◌, none, some, [], ◌∷◌, ◌==◌, if◌then◌else◌, or_else, or_option, concat, is_empty,
  or_text,
}
use vpp_wl_mobile.Prelude.Dict
use vpp_wl_mobile.Service.Receipts.{is_settled, dict_or_empty, or_unavailable}
use vpp_wl_mobile.Service.{
  on_repo, update_repo, read_repo, new_id, find_tariff, Tariff, draw, now, Action, Settings, Python,
}
use vpp_wl_mobile.Service.Views.{or_null}
use vpp_wl_mobile.Json.{bool, str, Json}
use vpp_wl_mobile.Models.{Platform, CommercialSubscription, is_paid}
use vpp_wl_mobile.Errors.{
  forbidden, not_found, internal_server_error, raise_if, or_raise, lift, bad_request, api, pure,
  Result, ◌>>=◌, ◌>>◌,
}
use vpp_wl_mobile.Service.Payload.{value_or, truth, product_id_of, stripped, text, Payload}
use vpp_wl_mobile.Errors.Chain.{or_fail}
use vpp_wl_mobile.Repository.Users.{activate_subscription}
use vpp_wl_mobile.Repository.Commercial.{
  activate_commercial_subscription, create_commercial_subscription, get_commercial_subscription,
}

module _ (py : Python) (cfg : Settings) where
  -- `_tariff_from_payload`
  unfoldable pub tariff_from_payload : Payload → Result Tariff
  unfolding stripped find_tariff
  tariff_from_payload payload =
      or_fail (find_tariff (stripped py "tariff_id" "" payload) cfg.tariffs)
        (api bad_request "unknown tariff_id")

  -- What the page after the checkout is asked for, by `checkout_mode`.
  abbrev pub mock_checkout : Tariff → String → String → Action (Dict.Dict Json)
  mock_checkout tariff token connect_url = do
    at ← now
    found ← on_repo (activate_commercial_subscription token tariff.duration_days none at)
    _ ← or_raise found (api internal_server_error "subscription create failed")
    pure (("redirect_url", str connect_url) ∷ ("token", str token) ∷ ("mode", str "mock") ∷ [])

  abbrev pub paid_checkout : Tariff → String → String → Action (Dict.Dict Json)
  paid_checkout tariff token connect_url = do
    payment ← lift (
        or_unavailable (
          cfg.create_payment token tariff.id
            (some (concat (cfg.public_base_url ∷ connect_url ∷ [])))))
    pure (
        ("redirect_url", str (or_text (or_else payment.confirmation_url "") connect_url))
        ∷ ("token", str token)
        ∷ ("mode", str "yookassa")
        ∷ ("payment_id", str payment.id)
        ∷ [])

  abbrev pub manual_checkout : String → Action (Dict.Dict Json)
  manual_checkout token = pure (
      ("redirect_url", str (concat ("/invoice/" ∷ token ∷ [])))
      ∷ ("token", str token)
      ∷ ("mode", str "crypto_manual")
      ∷ [])

  abbrev pub checkout_in : Tariff → String → String → Action (Dict.Dict Json)
  checkout_in tariff token connect_url =
      if cfg.checkout_mode == "mock"
      then mock_checkout tariff token connect_url
      else if cfg.checkout_mode == "crypto_manual"
      then manual_checkout token
      else paid_checkout tariff token connect_url

  unfoldable pub checkout : Payload → Action (Dict.Dict Json)
  unfolding tariff_from_payload draw now create_commercial_subscription
      activate_commercial_subscription concat or_text
  checkout payload = do
    tariff ← lift (tariff_from_payload payload)
    token ← draw
    at ← now
    _ ← update_repo (create_commercial_subscription token tariff.id none at)
    let connect_url = concat ("/connect/" ∷ token ∷ [])
    checkout_in tariff token connect_url

  unfoldable pub create_yookassa_payment : Payload → Action (Dict.Dict Json)
  unfolding stripped product_id_of is_empty
  create_yookassa_payment payload = do
    let device_id = stripped py "device_id" "" payload
    raise_if (is_empty device_id) (api bad_request "device_id is required")
    payment ← lift (or_unavailable (cfg.create_payment device_id (product_id_of py payload) none))
    pure (
        ("provider", str "yookassa")
        ∷ ("payment_id", str payment.id)
        ∷ ("status", str payment.status)
        ∷ ("paid", bool payment.paid)
        ∷ ("confirmation_url", or_null str payment.confirmation_url)
        ∷ [])

  abbrev pub ignored : Dict.Dict Json
  ignored = ("status", str "ignored") ∷ []

  -- A paid payment whose device is the token of a commercial subscription.
  abbrev pub extend_commercial :
      String → String → String → CommercialSubscription → Action (Dict.Dict Json)
  extend_commercial payment_id device_id product_id subscription = do
    tariff ←
        or_raise
          (or_option (find_tariff product_id cfg.tariffs)
            (find_tariff subscription.tariff_id cfg.tariffs))
          (api bad_request "unknown tariff_id")
    at ← now
    found ←
        on_repo
          (activate_commercial_subscription device_id tariff.duration_days (some payment_id) at)
    updated ← or_raise found (api not_found "subscription not found")
    pure (
        ("status", str "activated")
        ∷ ("connect_url", str (concat (cfg.public_base_url ∷ "/connect/" ∷ device_id ∷ [])))
        ∷ ("expires_at", or_null (λ t. str (py.isoformat t)) updated.expires_at)
        ∷ [])

  -- A paid payment of a device of the mobile application.
  abbrev pub subscribe_device : String → String → String → Action (Dict.Dict Json)
  subscribe_device payment_id device_id product_id = do
    uid ← new_id "usr"
    created_at ← now
    at ← now
    subscription ← on_repo (
        activate_subscription py.sha256_hex
          (record {
            platform = Platform.yookassa;
            receipt = payment_id;
            device_id = device_id;
            product_id = product_id;
          })
          uid created_at at)
    pure (
        ("status", str "activated")
        ∷ ("user_id", str subscription.user_id)
        ∷ ("expires_at", str (py.isoformat subscription.expires_at))
        ∷ [])

  abbrev pub settle : String → Payload → Action (Dict.Dict Json)
  settle payment_id payment = if not (is_settled py cfg payment) then pure ignored else (do
    let metadata = dict_or_empty (Dict.get "metadata" payment)
    let device_id = stripped py "device_id" "" metadata
    raise_if (is_empty device_id) (api bad_request "payment metadata.device_id is required")
    found ← read_repo (get_commercial_subscription device_id)
    elim found [
      | some s ↦ extend_commercial payment_id device_id (product_id_of py metadata) s
      | none ↦ subscribe_device payment_id device_id (product_id_of py metadata)
    ])

  unfoldable pub yookassa_webhook : Payload → Action (Dict.Dict Json)
  unfolding text truth stripped product_id_of is_empty find_tariff get_commercial_subscription
      activate_commercial_subscription activate_subscription new_id now concat
  yookassa_webhook payload =
      let event = text py (value_or "event" (str "") payload) in
      let payment_id = stripped py "id" "" (dict_or_empty (Dict.get "object" payload)) in
      if not (event == "payment.succeeded") || is_empty payment_id then pure ignored else (do
        payment ← lift (or_unavailable (cfg.fetch_payment payment_id))
        settle payment_id payment)

-- `_commercial_subscription`
unfoldable pub commercial_subscription : String → Action CommercialSubscription
unfolding get_commercial_subscription
commercial_subscription token = do
  found ← read_repo (get_commercial_subscription token)
  or_raise found (api not_found "subscription not found")

-- `_require_active_commercial_subscription`
unfoldable pub require_active_commercial_subscription : String → Action (Unit {0})
unfolding commercial_subscription is_paid now
require_active_commercial_subscription token = do
  subscription ← commercial_subscription token
  at ← now
  raise_if (not (is_paid subscription at)) (api forbidden "subscription expired")
