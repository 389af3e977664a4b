-- ===== src/YooKassa.antt =====
-- backend/app/services/yookassa.py: the payment provider. The network, JSON, base64 and the random
-- keys are arguments.
use vpp_wl_mobile.Prelude.{
  String, Bool, true, false, not, ◌&&◌, Option, none, some, List, [], ◌∷◌, ◌++◌, if◌then◌else◌,
  concat, is_empty, or_text, strip,
}
use vpp_wl_mobile.Prelude.Dict
use vpp_wl_mobile.Json.{Json, null, bool, str, obj, object, entries}
use vpp_wl_mobile.Errors.{Result, ok, raised, value_error}
use vpp_wl_mobile.Errors.Chain.{◌>>=◌, ◌>>◌, or_fail, fail_if}
use vpp_wl_mobile.Service.{Python, YooKassaPayment}
use vpp_wl_mobile.Service.Payload.{Payload, value_or, truth, text}

pub record YooKassaConfig : Type 0 where
  pub shop_id : String
  pub secret_key : String
  pub return_url : String
  pub product_prices_rub : Dict.Dict String

unfoldable pub is_configured : YooKassaConfig → Bool
unfolding is_empty
is_configured config =
    not (is_empty config.shop_id)
    && not (is_empty config.secret_key)
    && not (is_empty config.return_url)

-- A `urllib.request.Request`: the method, the URL, the body and the headers.
pub record HttpRequest : Type 0 where
  pub method : String
  pub url : String
  pub body : Option String
  pub headers : List (String × String)

-- `urlopen` sends a request and decodes the body of the response. `dumps` is `json.dumps` with the
-- separators "," and ":", and `b64encode` is of the UTF-8 of a text.
pub record Network : Type 0 where
  pub urlopen : HttpRequest → Result String
  pub dumps : Json → String
  pub loads : String → Option Json
  pub b64encode : String → String

-- `DisabledYooKassaProvider`, of both methods.
abbrev pub disabled : {A : Type 0} → Result A
disabled = raised (value_error "yookassa is not configured")

abbrev pub base_url : String
base_url = "https://api.yookassa.ru/v3"

-- `confirmation.get("confirmation_url") if isinstance(confirmation, dict) else None`
unfoldable pub confirmation_url_of : Json → Json
unfolding entries
confirmation_url_of (obj fields) = value_or "confirmation_url" null (entries fields)
confirmation_url_of v = null

unfoldable pub payment_from_payload : Python → Payload → YooKassaPayment
unfolding truth text confirmation_url_of
payment_from_payload py payload =
    let confirmation_url = confirmation_url_of (value_or "confirmation" null payload) in
    record {
      id = text py (value_or "id" (str "") payload);
      status = text py (value_or "status" (str "") payload);
      paid = truth (value_or "paid" (bool false) payload);
      confirmation_url = if truth confirmation_url then some (text py confirmation_url) else none;
    }

-- What `json.loads` has read.
unfoldable pub decoded : Option Json → Result Payload
unfolding entries
decoded none = raised (value_error "Expecting value")
decoded (some (obj fields)) = ok (entries fields)
decoded (some v) = raised (value_error "unexpected yookassa response")

-- The payload of `create_payment`.
unfoldable pub payment_payload : String → String → String → String → Json
payment_payload amount device_id product_id return_url = object (
    ("amount", object (("value", str amount) ∷ ("currency", str "RUB") ∷ []))
    ∷ ("capture", bool true)
    ∷ ("confirmation", object (("type", str "redirect") ∷ ("return_url", str return_url) ∷ []))
    ∷ ("description", str (concat ("VPN Router subscription " ∷ product_id ∷ [])))
    ∷ ("metadata", object (("device_id", str device_id) ∷ ("product_id", str product_id) ∷ []))
    ∷ [])

-- `return_url or self.config.return_url`
abbrev pub return_url_or : Option String → String → String
return_url_or none url = url
return_url_or (some s) url = or_text s url

abbrev pub with_header : String → Option String → List (String × String)
with_header name none = []
with_header name (some value) = (name, value) ∷ []

module _ (net : Network) (config : YooKassaConfig) where
  unfoldable pub basic_auth : String → String → String
  basic_auth shop_id secret_key =
      concat ("Basic " ∷ net.b64encode (concat (shop_id ∷ ":" ∷ secret_key ∷ [])) ∷ [])

  abbrev pub content_type : Option Json → Option String
  content_type none = none
  content_type (some payload) = some "application/json"

  abbrev pub body_of : Option Json → Option String
  body_of none = none
  body_of (some payload) = some (net.dumps payload)

  -- The request that `_send_json` builds.
  unfoldable pub http_request : String → String → Option Json → Option String → HttpRequest
  unfolding basic_auth
  http_request method path payload idempotence_key = record {
    method = method;
    url = concat (base_url ∷ path ∷ []);
    body = body_of payload;
    headers =
        ("Authorization", basic_auth config.shop_id config.secret_key)
        ∷ ("Accept", "application/json")
        ∷ (with_header "Content-Type" (content_type payload)
            ++ with_header "Idempotence-Key" idempotence_key);
  }

  unfoldable pub send_json : String → String → Option Json → Option String → Result Payload
  unfolding http_request decoded or_text
  send_json method path payload idempotence_key = do
    response_body ← net.urlopen (http_request method path payload idempotence_key)
    decoded (net.loads (or_text response_body "{}"))

  -- `key` is the text of `uuid.uuid4()`.
  unfoldable pub create_payment :
      Python → String → String → String → Option String → Result YooKassaPayment
  unfolding send_json payment_payload payment_from_payload or_text
  create_payment py key device_id product_id return_url = do
    amount ←
        or_fail (Dict.get product_id config.product_prices_rub) (value_error "unknown product_id")
    response ←
        send_json "POST" "/payments"
          (some (
            payment_payload amount device_id product_id
              (return_url_or return_url config.return_url)))
          (some key)
    ok (payment_from_payload py response)

  unfoldable pub fetch_payment : String → Result Payload
  unfolding send_json strip is_empty
  fetch_payment payment_id = do
    fail_if (is_empty (strip payment_id)) (value_error "payment_id is required")
    send_json "GET" (concat ("/payments/" ∷ payment_id ∷ [])) none none
