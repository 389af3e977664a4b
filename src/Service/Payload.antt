-- ===== src/Service/Payload.antt =====
-- How backend/app/api/service.py reads the values of a payload: `str`, `int`, `float` and `bool` of
-- a value, and the methods named `_..._from_payload`.
use vpp_wl_mobile.Prelude.{
  ℕ, zero, suc, ◌-◌, ◌*◌, ◌/◌, String, Bool, true, false, not, ◌&&◌, Option, none, some, [], ◌∷◌,
  ◌==◌, ltb, if◌then◌else◌, or_else, concat, is_empty, or_text, decimal, strip,
}
use vpp_wl_mobile.Prelude.Dict
use vpp_wl_mobile.Prelude.Int.{ℤ, pos, negsuc, leb_ℤ, ltb_ℤ, pos_part}
use Prim.Native.Char.{code}
use vpp_wl_mobile.Json.{Json, Items, Fields, null, bool, int, real, str, arr, obj}
use vpp_wl_mobile.Errors.{
  Result, ok, raised, api, bad_request, unauthorized, value_error, type_error,
}
use vpp_wl_mobile.Errors.Chain.{◌>>=◌, ◌>>◌, fail_if, or_fail}
use vpp_wl_mobile.Models.{
  NodeStatus, NodeHealth, ReceiptClaim, parse_platform, parse_status, parse_health,
}
use vpp_wl_mobile.Service.{Python, Settings}

abbrev pub Payload : Type 0
Payload = Dict.Dict Json

abbrev pub value_or : String → Json → Payload → Json
value_or key default payload = or_else (Dict.get key payload) default

-- `bool(value)`
unfoldable pub truth : Json → Bool
truth null = false
truth (bool b) = b
truth (int (pos zero)) = false
truth (int n) = true
truth (real (pos zero)) = false
truth (real x) = true
truth (str String.[]) = false
truth (str s) = true
truth (arr Items.nil) = false
truth (arr xs) = true
truth (obj Fields.end) = false
truth (obj fs) = true

abbrev pub bad : {A : Type 0} → String → Result A
bad message = raised (api bad_request message)

unfoldable pub is_ascii : String → Bool
is_ascii String.[] = true
is_ascii (String.◌∷◌ c s) = ltb (code c) 128 && is_ascii s

-- `hmac.compare_digest` of two texts, which must be ASCII.
unfoldable pub compare_digest : String → String → Result Bool
unfolding is_ascii
compare_digest a b = if is_ascii a && is_ascii b then ok (a == b) else raised type_error

abbrev pub not_admin : {A : Type 0} → Result A
not_admin = raised (api unauthorized "admin token required")

-- `_require_admin`
unfoldable pub require_admin : Settings → String → Result (Unit {0})
unfolding compare_digest is_empty
require_admin cfg admin_token =
    if is_empty cfg.admin_token
    then not_admin
    else (do same ← compare_digest admin_token cfg.admin_token; if same then ok tt else not_admin)

module _ (py : Python) where
  -- `str(value)`
  unfoldable pub text : Json → String
  unfolding decimal concat
  text null = "None"
  text (bool true) = "True"
  text (bool false) = "False"
  text (int (pos n)) = decimal n
  text (int (negsuc n)) = concat ("-" ∷ decimal (suc n) ∷ [])
  text (str s) = s
  text v = py.repr v

  -- `str(payload.get(key, default)).strip()`
  unfoldable pub stripped : String → String → Payload → String
  unfolding text strip
  stripped key default payload = strip (text (value_or key (str default) payload))

  -- `int(value)`, for an integer, a float (cut towards zero), a text or anything else.
  unfoldable pub integer : Json → Result ℤ
  integer (int n) = ok n
  integer (bool true) = ok (pos 1)
  integer (bool false) = ok (pos 0)
  integer (real (pos n)) = ok (pos (n / 10_000))
  integer (real (negsuc n)) = ok (if ltb (suc n) 10_000 then pos 0 else negsuc (suc n / 10_000 - 1))
  integer (str s) = or_fail (py.int_of s) (value_error "invalid literal for int()")
  integer _ = raised type_error

  -- `float(value)`, in ten-thousandths.
  unfoldable pub float : Json → Result ℤ
  float (int (pos n)) = ok (pos (n * 10_000))
  float (int (negsuc n)) = ok (negsuc (suc n * 10_000 - 1))
  float (bool true) = ok (pos 10_000)
  float (bool false) = ok (pos 0)
  float (real x) = ok x
  float (str s) = or_fail (py.float_of s) (value_error "could not convert string to float")
  float _ = raised type_error

  -- `try: ... except (TypeError, ValueError)`
  abbrev pub or_bad : {A : Type 0} → Result A → String → Result A
  or_bad (raised type_error) message = bad message
  or_bad (raised (value_error m)) message = bad message
  or_bad r message = r

  unfoldable pub health_score_from_payload : Payload → Result ℕ
  unfolding integer
  health_score_from_payload payload = do
    score ←
        or_bad (integer (value_or "health_score" null payload)) "health_score must be an integer"
    fail_if (not (leb_ℤ (pos 0) score && leb_ℤ score (pos 100)))
        (api bad_request "health_score must be between 0 and 100")
    ok (pos_part score)

  abbrev pub status_of : Json → Result (Option NodeStatus)
  status_of null = ok none
  status_of v = elim (parse_status (text v)) [
    | none ↦ bad "status must be active, draining, or disabled"
    | some s ↦ ok (some s)
  ]

  unfoldable pub node_status_from_payload : Payload → Result (Option NodeStatus)
  unfolding text parse_status
  node_status_from_payload payload = status_of (value_or "status" null payload)

  abbrev pub latency_of : Json → Result (Option ℕ)
  latency_of null = ok none
  latency_of v = do
    ms ← or_bad (integer v) "latency_ms must be an integer"
    fail_if (ltb_ℤ ms (pos 0)) (api bad_request "latency_ms must be positive")
    ok (some (pos_part ms))

  unfoldable pub latency_from_payload : Payload → Result (Option ℕ)
  unfolding integer
  latency_from_payload payload = latency_of (value_or "latency_ms" null payload)

  abbrev pub success_rate_of : Json → Result (Option ℕ)
  success_rate_of null = ok none
  success_rate_of v = do
    rate ← or_bad (float v) "success_rate must be a number"
    fail_if (not (leb_ℤ (pos 0) rate && leb_ℤ rate (pos 10_000)))
        (api bad_request "success_rate must be between 0 and 1")
    ok (some (pos_part rate))

  unfoldable pub success_rate_from_payload : Payload → Result (Option ℕ)
  unfolding float
  success_rate_from_payload payload = success_rate_of (value_or "success_rate" null payload)

  abbrev pub health_of : Json → Result (Option NodeHealth)
  health_of null = ok none
  health_of v = elim (parse_health (text v)) [
    | none ↦ bad "health must be healthy, degraded, or disabled"
    | some h ↦ ok (some h)
  ]

  unfoldable pub health_from_payload : Payload → Result (Option NodeHealth)
  unfolding text parse_health
  health_from_payload payload = health_of (value_or "health" null payload)

  -- `str(payload.get("product_id", "vpn.monthly")).strip() or "vpn.monthly"`
  unfoldable pub product_id_of : Payload → String
  unfolding stripped or_text
  product_id_of payload = or_text (stripped "product_id" "vpn.monthly" payload) "vpn.monthly"

  unfoldable pub receipt_claim_from_payload : Payload → Result ReceiptClaim
  unfolding text parse_platform stripped product_id_of is_empty
  receipt_claim_from_payload payload = do
    platform ←
        or_fail (parse_platform (py.lower (text (value_or "platform" (str "") payload))))
          (api bad_request "platform must be apple, google, yookassa, or sandbox")
    let receipt = stripped "receipt" "" payload
    let device_id = stripped "device_id" "" payload
    fail_if (is_empty receipt) (api bad_request "receipt is required")
    fail_if (is_empty device_id) (api bad_request "device_id is required")
    ok (record {
      platform = platform;
      receipt = receipt;
      device_id = device_id;
      product_id = product_id_of payload;
    })
