-- ===== src/Service/Sales/Guarded.antt =====
-- What a call of the payment provider's webhook can change, and when.
use vpp_wl_mobile.Prelude.{
  String, ◌≡◌, refl, ◌⊎◌, inl, inr, true, false, not, ◌||◌, arith, ◌==◌, eq_iff, Bool-cases,
  is_empty,
}
use vpp_wl_mobile.Prelude.Dict
use vpp_wl_mobile.Errors.{
  unicode_error, overflow_error, integrity_error, invalid_operation, key_error, type_error,
  value_error, api, lift, Error, ◌>>=◌, Result, ok, raised,
}
use vpp_wl_mobile.Service.Receipts.{is_settled, or_unavailable, dict_or_empty}
use vpp_wl_mobile.Service.Sales.{settle, yookassa_webhook}
use vpp_wl_mobile.Json.{str, Json}
use vpp_wl_mobile.Service.Payload.{value_or, stripped, text, Payload}
use vpp_wl_mobile.Service.{Action, World, Settings, Python}

module _ (py : Python) (cfg : Settings) where
  -- The identifier that a webhook call names.
  abbrev pub named_payment : Payload → String
  named_payment payload = stripped py "id" "" (dict_or_empty (Dict.get "object" payload))

  -- The provider, asked for the payment, says that it is settled.
  abbrev pub Confirmed : Payload → Type 0
  Confirmed payload =
      (text py (value_or "event" (str "") payload) ≡ "payment.succeeded")
      × (is_empty (named_payment payload) ≡ false)
      × (payment : Payload) × (cfg.fetch_payment (named_payment payload) ≡ ok payment)
      × (is_settled py cfg payment ≡ true)

  unavailable-unchanged :
      (e : Error) (f : Payload → Action (Dict.Dict Json)) (w : World)
      → ((lift (or_unavailable (raised e)) >>= f) w).1 ≡ w
  unavailable-unchanged (api s m) f w = refl
  unavailable-unchanged (value_error m) f w = refl
  unavailable-unchanged type_error f w = refl
  unavailable-unchanged key_error f w = refl
  unavailable-unchanged overflow_error f w = refl
  unavailable-unchanged integrity_error f w = refl
  unavailable-unchanged invalid_operation f w = refl
  unavailable-unchanged unicode_error f w = refl

  fetched-Guarded :
      (id : String) (r : Result Payload) (w : World)
      → (((lift (or_unavailable r) >>= settle py cfg id) w).1 ≡ w)
        ⊎ (payment : Payload) × (r ≡ ok payment) × (is_settled py cfg payment ≡ true)
  fetched-Guarded id (raised e) w = inl (unavailable-unchanged e (settle py cfg id) w)
  fetched-Guarded id (ok payment) w = elim (Bool-cases (is_settled py cfg payment)) [
    | inl settled ↦ inr (payment, refl, settled)
    | inr unsettled ↦ inl (rw unsettled refl)
  ]

  -- A call of the webhook changes something only if its event is "payment.succeeded", it names a
  -- payment, and the provider, asked for that payment, answers that it has succeeded and is paid.
  -- What the call itself says of the payment is never believed.
  pub yookassa_webhook-Guarded :
      (payload : Payload) (w : World)
      → ((yookassa_webhook py cfg payload w).1 ≡ w) ⊎ Confirmed payload
  unfolding yookassa_webhook
  yookassa_webhook-Guarded payload w =
      let event = text py (value_or "event" (str "") payload) in
      let id = named_payment payload in
      elim (Bool-cases (not (event == "payment.succeeded") || is_empty id)) [
        | inl other ↦ inl (rw (other, yookassa_webhook) refl)
        | inr meant ↦ elim (fetched-Guarded id (cfg.fetch_payment id) w) [
          | inl same ↦ inl (rw (meant, yookassa_webhook) same)
          | inr (payment, fetched, settled) ↦ inr (
            (eq_iff event "payment.succeeded").0 (ground arith),
            ground arith,
            payment,
            fetched,
            settled,
          )
        ]
      ]
