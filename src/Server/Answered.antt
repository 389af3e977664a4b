-- ===== src/Server/Answered.antt =====
-- What holds of every response that a handler can send holds of its answer; what it fails with is no
-- ApiError, and it leaves the limiter alone.
use vpp_wl_mobile.Prelude.{
  ◌≢◌, arith, ℕ, String, ◌≡◌, refl, inl, inr, false, Option, none, some, List, Bool-cases,
  Option-cases, is_some,
}
use vpp_wl_mobile.Prelude.Dict
use vpp_wl_mobile.Json.{Json}
use vpp_wl_mobile.Errors.{
  bad_request, unauthorized, forbidden, not_found, internal_server_error, service_unavailable,
  Status, Result, ok, raised, api, Error, value_error, type_error, key_error, overflow_error,
  integrity_error, invalid_operation, unicode_error, pure,
}
use vpp_wl_mobile.Errors.Chain.{or_fail, ◌>>=◌}
use vpp_wl_mobile.Service.{Action}
use vpp_wl_mobile.Service.Payload.{Payload}
use vpp_wl_mobile.Service.Html.{SiteAction, on_world}
use vpp_wl_mobile.Server.{
  App, Request, Response, State, Handler, header_or, send_json, send_text, send_html, send_error,
  send_redirect, do_options, status_code, caught, respond,
}
use vpp_wl_mobile.Server.Body.{
  Body, payload, refused, with_payload, read_text, read_json, read_form_or_json, read_bytes,
}
use vpp_wl_mobile.Server.Paths.{split_once}
use vpp_wl_mobile.Server.Handlers.{
  as_user, send_service_response, send_text_response, html_error, send_page, send_wallet_qr,
  for_user, for_payload,
}
use vpp_wl_mobile.Server.Secured.{is_api}

-- What is read is read, or what is raised is no ApiError.
abbrev pub Reads : {A : Type 0} → Result A → Type 0
Reads (ok a) = Unit
Reads (raised e) = is_api e ≡ false

or_fail-Reads :
    {A B : Type 0} (o : Option A) (e : Error) (f : A → Result B)
    → is_api e ≡ false
    → ((a : A) → Reads (f a))
    → Reads (or_fail o e >>= f)
or_fail-Reads none e f h k = h
or_fail-Reads (some a) e f h k = k a

bind-Reads :
    {A B : Type 0} (m : Result A) (f : A → Result B)
    → Reads m
    → ((a : A) → Reads (f a))
    → Reads (m >>= f)
bind-Reads (ok a) f h k = k a
bind-Reads (raised e) f h k = h

status_code-own : (status : Status) → status_code status ≢ 429
unfolding status_code
status_code-own bad_request h = omega arith
status_code-own unauthorized h = omega arith
status_code-own forbidden h = omega arith
status_code-own not_found h = omega arith
status_code-own internal_server_error h = omega arith
status_code-own service_unavailable h = omega arith

-- A property of the responses of every status but 429, which only the limiter answers with.
pub record IsClosed (app : App) (req : Request) (P : Response → Type 0) : Type 0 where
  pub json : (status : ℕ) (d : Dict.Dict Json) → status ≢ 429 → P (send_json app req status d)
  pub text :
      (status : ℕ) (content_type text : String)
      → status ≢ 429
      → P (send_text app req status content_type text)
  pub html : (status : ℕ) (text : String) → status ≢ 429 → P (send_html app req status text)
  pub redirected : (location : String) → P (send_redirect app req location)
  pub preflight : P (do_options app req)

-- What the result of a request is like: a response, or what was raised.
unfoldable pub Answers : (Response → Type 0) → Result Response → Type 0
Answers P (ok r) = P r
Answers P (raised e) = is_api e ≡ false

module _ (app : App) (req : Request) where
  read_text-Reads : Reads (read_text app req)
  unfolding read_text
  read_text-Reads = or_fail-Reads (app.py.int_of _) _ _ refl (λ n. decoded (read_bytes n req.body))
    where
      decoded : (bytes : List ℕ) → Reads (or_fail (app.codec.decode_utf8 bytes) unicode_error)
      decoded bytes = elim (Option-cases (app.codec.decode_utf8 bytes)) [
        | inl e ↦ rw e refl
        | inr (t, e) ↦ rw e tt
      ]

  read_json-Reads : Reads (read_json app req)
  unfolding read_json
  read_json-Reads = bind-Reads (read_text app req) _ read_text-Reads (λ text. tt)

  pub read_form_or_json-Reads : Reads (read_form_or_json app req)
  unfolding read_form_or_json
  read_form_or_json-Reads =
      elim (Bool-cases
        (is_some (split_once "application/json" (header_or req "Content-Type" "")))) [
          | inl e ↦ rw e read_json-Reads
          | inr e ↦ rw e (
              bind-Reads (read_text app req) _ read_text-Reads
                (λ text. or_fail-Reads (app.form text) _ _ refl (λ parsed. tt)))
        ]

module _ (app : App) (req : Request) (P : Response → Type 0) (closed : IsClosed app req P) where
  pub error-closed : (status : Status) (message : String) → P (send_error app req status message)
  unfolding send_error
  error-closed status message = closed.json (status_code status) _ (status_code-own status)

  html_error-closed : (status : Status) (message : String) → P (html_error app req status message)
  unfolding html_error
  html_error-closed not_found message = closed.html 404 _ (λ h. omega arith)
  html_error-closed bad_request message = error-closed bad_request message
  html_error-closed unauthorized message = error-closed unauthorized message
  html_error-closed forbidden message = error-closed forbidden message
  html_error-closed internal_server_error message = error-closed internal_server_error message
  html_error-closed service_unavailable message = error-closed service_unavailable message

  caught-Answers :
      {A : Type 0} (sent : A → Response) (failed : Status → String → Response) (r : Result A)
      → ((a : A) → P (sent a))
      → ((status : Status) (message : String) → P (failed status message))
      → Answers P (caught sent failed r)
  unfolding Answers
  caught-Answers sent failed (ok a) h k = h a
  caught-Answers sent failed (raised (api status message)) h k = k status message
  caught-Answers sent failed (raised (value_error m)) h k = refl
  caught-Answers sent failed (raised type_error) h k = refl
  caught-Answers sent failed (raised key_error) h k = refl
  caught-Answers sent failed (raised overflow_error) h k = refl
  caught-Answers sent failed (raised integrity_error) h k = refl
  caught-Answers sent failed (raised invalid_operation) h k = refl
  caught-Answers sent failed (raised unicode_error) h k = refl

  -- A handler whose every run is answered so.
  abbrev pub IsAnswered : Handler → Type 0
  IsAnswered handler = (s : State) → Answers P (handler s).0 × ((handler s).1.limiter ≡ s.limiter)

  pub respond-IsAnswered :
      {A : Type 0} (sent : A → Response) (failed : Status → String → Response)
      (action : SiteAction A)
      → ((a : A) → P (sent a))
      → ((status : Status) (message : String) → P (failed status message))
      → IsAnswered (respond sent failed action)
  unfolding respond
  respond-IsAnswered sent failed action h k s =
      (caught-Answers sent failed (action s.site).0 h k, refl)

  pub pure-IsAnswered : (r : Response) → P r → IsAnswered (pure r)
  unfolding Answers
  pure-IsAnswered r h s = (h, refl)

  pub service-IsAnswered :
      (action : Action (Dict.Dict Json)) → IsAnswered (send_service_response app req action)
  unfolding send_service_response
  service-IsAnswered action =
      respond-IsAnswered (send_json app req 200) (send_error app req) (on_world action)
        (λ d. closed.json 200 d (λ h. omega arith)) error-closed

  pub text-IsAnswered :
      (action : Action String) (content_type : String)
      → IsAnswered (send_text_response app req action content_type)
  unfolding send_text_response
  text-IsAnswered action content_type =
      respond-IsAnswered _ _ (on_world action)
        (λ t. closed.text 200 content_type t (λ h. omega arith))
        (λ status message.
          closed.text (status_code status) "text/plain" message (status_code-own status))

  pub page-IsAnswered : (action : SiteAction String) → IsAnswered (send_page app req action)
  unfolding send_page
  page-IsAnswered action =
      respond-IsAnswered (send_html app req 200) (html_error app req) action
        (λ t. closed.html 200 t (λ h. omega arith)) html_error-closed

  pub wallet_qr-IsAnswered : (action : Action String) → IsAnswered (send_wallet_qr app req action)
  unfolding send_wallet_qr
  wallet_qr-IsAnswered action =
      respond-IsAnswered (send_text app req 200 "image/svg+xml") (send_error app req)
        (on_world action) (λ t. closed.text 200 "image/svg+xml" t (λ h. omega arith)) error-closed

  pub for_user-IsAnswered :
      (method : String → Action (Dict.Dict Json)) → IsAnswered (for_user app req method)
  unfolding for_user
  for_user-IsAnswered method = service-IsAnswered (as_user app req method)

  pub json-IsAnswered :
      (status : ℕ) (d : Dict.Dict Json)
      → status ≢ 429
      → IsAnswered (pure (send_json app req status d))
  json-IsAnswered status d own = pure-IsAnswered _ (closed.json status d own)

  pub with_payload-IsAnswered :
      (body : Result Body) (k : Payload → Handler)
      → Reads body
      → ((p : Payload) → IsAnswered (k p))
      → IsAnswered (with_payload app req body k)
  unfolding with_payload Answers
  with_payload-IsAnswered (ok (payload p)) k read h = h p
  with_payload-IsAnswered (ok (refused message)) k read h = json-IsAnswered 400 _ (λ h. omega arith)
  with_payload-IsAnswered (raised e) k read h = λ s. (read, refl)

  pub for_payload-IsAnswered :
      (method : Payload → Action (Dict.Dict Json)) → IsAnswered (for_payload app req method)
  unfolding for_payload
  for_payload-IsAnswered method =
      with_payload-IsAnswered (read_json app req) _ (read_json-Reads app req)
        (λ p. service-IsAnswered (method p))
