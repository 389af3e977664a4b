-- ===== src/Service/Receipts.antt =====
-- The checks of backend/app/api/service.py that raise and change nothing: a payment, a receipt and a
-- configuration. `verify` is `MvpReceiptVerifier.verify` of backend/app/services/receipt_verifier.py.
use vpp_wl_mobile.Prelude.{
  String, Bool, false, not, ◌&&◌, Option, some, List, [], ◌∷◌, ◌==◌, concat, is_empty, strip,
}
use vpp_wl_mobile.Prelude.Dict
use vpp_wl_mobile.Errors.{
  bad_request, ok, service_unavailable, api, value_error, raised, Status, Result,
}
use vpp_wl_mobile.Json.{bool, object, str, entries, obj, Json}
use vpp_wl_mobile.Service.Payload.{stripped, value_or, truth, text, Payload}
use vpp_wl_mobile.Config.Validation.{validate_config_shape, contains}
use vpp_wl_mobile.Config.Rules.{default_engine}
use vpp_wl_mobile.Models.{ReceiptClaim, VpnNode, platform_value, Platform}
use vpp_wl_mobile.Config.{build_client_config}
use vpp_wl_mobile.Service.{Settings, Python}
use vpp_wl_mobile.Errors.Chain.{◌>>=◌, ◌>>◌, fail_if}

-- `except YooKassaError as exc: raise ApiError(SERVICE_UNAVAILABLE, ...)`
abbrev pub or_unavailable : {A : Type 0} → Result A → Result A
or_unavailable (raised (value_error message)) = raised (api service_unavailable message)
or_unavailable r = r

-- `except ValueError as exc: raise ApiError(status, ...)`
abbrev pub value_error_as : {A : Type 0} → Status → Result A → Result A
value_error_as status (raised (value_error message)) = raised (api status message)
value_error_as status r = r

-- `value if isinstance(value, dict) else {}`
abbrev pub dict_or_empty : Option Json → Payload
dict_or_empty (some (obj fs)) = entries fs
dict_or_empty _ = []

-- `MvpReceiptVerifier(allowed_product_ids).verify`
unfoldable pub verify : List String → ReceiptClaim → Result (Unit {0})
unfolding is_empty strip platform_value concat
verify allowed claim = do
  fail_if (not (contains claim.product_id allowed)) (value_error "product_id is not allowed")
  elim claim.platform [
    | Platform.sandbox ↦
        fail_if (is_empty (strip claim.receipt)) (value_error "receipt is required")
    | _ ↦ raised (
        value_error
          (concat (platform_value claim.platform ∷ " receipt validation is not configured" ∷ [])))
  ]

module _ (py : Python) (cfg : Settings) where
  -- The status of a payment is "succeeded", and it is paid.
  abbrev pub is_settled : Payload → Bool
  is_settled payment =
      text py (value_or "status" (str "") payment) == "succeeded"
      && truth (value_or "paid" (bool false) payment)

  -- `_verify_yookassa_claim`
  unfoldable pub verify_yookassa_claim : ReceiptClaim → Result (Unit {0})
  unfolding text truth stripped
  verify_yookassa_claim claim = do
    payment ← or_unavailable (cfg.fetch_payment claim.receipt)
    fail_if (not (is_settled payment)) (api bad_request "yookassa payment is not paid")
    let metadata = dict_or_empty (Dict.get "metadata" payment)
    fail_if (not (stripped py "device_id" "" metadata == claim.device_id))
        (api bad_request "yookassa payment device mismatch")
    fail_if (not (stripped py "product_id" "" metadata == claim.product_id))
        (api bad_request "yookassa payment product mismatch")

  abbrev pub verify_claim : ReceiptClaim → Result (Unit {0})
  verify_claim claim = elim claim.platform [
    | Platform.yookassa ↦ verify_yookassa_claim claim
    | _ ↦ verify cfg.allowed_product_ids claim
  ]

-- The configuration, built and checked.
abbrev pub checked_config : List VpnNode → Result (Dict.Dict Json)
checked_config preferred = do
  d ← build_client_config default_engine preferred
  validate_config_shape (object d)
  ok d
