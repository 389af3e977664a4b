-- ===== src/Server/Secured.antt =====
-- The headers of every response, and what becomes of what a method raises.
use vpp_wl_mobile.Prelude.{
  refl, subst, none, inr, [], ◌∙◌, inl, is_empty, ◌∷◌, sym, Bool-cases, ℕ, String, ◌≡◌, ◌⊎◌, Bool,
  true, false, Option, some, ◌++◌, any,
}
use vpp_wl_mobile.Prelude.Dict
use vpp_wl_mobile.Json.{Json}
use vpp_wl_mobile.Config.Validation.{contains}
use vpp_wl_mobile.Errors.{
  Status, api, Error, not_found, bad_request, unauthorized, forbidden, internal_server_error,
  service_unavailable,
}
use vpp_wl_mobile.Server.{
  App, Request, Response, header_or, allowed_origin, cors_headers, security_headers, last_headers,
  send, send_json, send_text, send_html, send_redirect, send_error, do_options,
}
use vpp_wl_mobile.Server.Handlers.{html_error}

-- No content is sniffed, no page is framed and no address is passed on; and if another origin is let
-- read the response, then the settings name it, or name "*".
pub record IsSecured (app : App) (req : Request) (r : Response) : Type 0 where
  pub no_sniffing : Dict.get "X-Content-Type-Options" r.headers ≡ some "nosniff"
  pub no_referrer : Dict.get "Referrer-Policy" r.headers ≡ some "no-referrer"
  pub no_framing : Dict.get "X-Frame-Options" r.headers ≡ some "DENY"
  pub allows :
      (origin : String)
      → Dict.get "Access-Control-Allow-Origin" r.headers ≡ some origin
      → (contains origin app.cors_origins ≡ true)
        × ((origin ≡ "*") ⊎ (origin ≡ header_or req "Origin" ""))

abbrev pub is_api : Error → Bool
is_api (api status message) = true
is_api e = false

module _ (app : App) (req : Request) where
  -- The origin that may be allowed.
  abbrev May : Option String → Type 0
  May o =
      (origin : String)
      → o ≡ some origin
      → (contains origin app.cors_origins ≡ true)
        × ((origin ≡ "*") ⊎ (origin ≡ header_or req "Origin" ""))

  allowed_origin-May : May (allowed_origin app req)
  unfolding allowed_origin
  allowed_origin-May origin h =
      let from = header_or req "Origin" "" in
      elim (Bool-cases (is_empty from)) [
        | inl e ↦
            let n : allowed_origin app req ≡ none = rw (e, allowed_origin) refl in
            absurd (let c : none ≡ some origin = sym n ∙ h in cc)
        | inr e ↦ elim (Bool-cases (contains "*" app.cors_origins)) [
          | inl any ↦
              let n : allowed_origin app req ≡ some "*" = rw (e, any, allowed_origin) refl in
              let q : some "*" ≡ some origin = sym n ∙ h in
              let same : "*" ≡ origin = cc in
              (subst (λ o. contains o app.cors_origins ≡ true) same any, inl (sym same))
          | inr not_any ↦ elim (Bool-cases (contains from app.cors_origins)) [
            | inl named ↦
                let n : allowed_origin app req ≡ some from =
                  rw (e, not_any, named, allowed_origin) refl in
                let q : some from ≡ some origin = sym n ∙ h in
                let same : from ≡ origin = cc in
                (subst (λ o. contains o app.cors_origins ≡ true) same named, inr (sym same))
            | inr unnamed ↦
                let n : allowed_origin app req ≡ none =
                  rw (e, not_any, unnamed, allowed_origin) refl in
                absurd (let c : none ≡ some origin = sym n ∙ h in cc)
          ]
        ]
      ]

  -- What the headers of a response say.
  abbrev Say : Option String → Dict.Dict String → Type 0
  Say o headers =
      (Dict.get "X-Content-Type-Options" headers ≡ some "nosniff")
      × (Dict.get "Referrer-Policy" headers ≡ some "no-referrer")
      × (Dict.get "X-Frame-Options" headers ≡ some "DENY")
      × (Dict.get "Access-Control-Allow-Origin" headers ≡ o)

  last-Say : (o : Option String) → Say o (cors_headers o ++ security_headers app)
  unfolding cors_headers security_headers vpp_wl_mobile.Prelude.Dict.get
  last-Say none = (
    refl,
    refl,
    refl,
    elim (Bool-cases app.hsts_enabled) [ inl e ↦ rw e refl | inr e ↦ rw e refl ],
  )
  last-Say (some o) = (refl, refl, refl, refl)

  options-Say :
      (o : Option String)
      → Say o ((cors_headers o ++ security_headers app) ++ ("Content-Length", "0") ∷ [])
  unfolding cors_headers security_headers vpp_wl_mobile.Prelude.Dict.get
  options-Say none = (
    refl,
    refl,
    refl,
    elim (Bool-cases app.hsts_enabled) [ inl e ↦ rw e refl | inr e ↦ rw e refl ],
  )
  options-Say (some o) = (refl, refl, refl, refl)

  Say-IsSecured : (r : Response) → Say (allowed_origin app req) r.headers → IsSecured app req r
  Say-IsSecured r h = record {
    no_sniffing = h.0;
    no_referrer = h.1;
    no_framing = h.2;
    allows = λ origin e. allowed_origin-May origin (sym h.3 ∙ e);
  }

  send-IsSecured :
      (status : ℕ) (content_type body : String)
      → IsSecured app req (send app req status content_type body)
  unfolding send last_headers vpp_wl_mobile.Prelude.Dict.get
  send-IsSecured status content_type body =
      Say-IsSecured (send app req status content_type body) (last-Say (allowed_origin app req))

  pub redirect-IsSecured : (location : String) → IsSecured app req (send_redirect app req location)
  unfolding send_redirect last_headers vpp_wl_mobile.Prelude.Dict.get
  redirect-IsSecured location =
      Say-IsSecured (send_redirect app req location) (last-Say (allowed_origin app req))

  pub options-IsSecured : IsSecured app req (do_options app req)
  unfolding do_options last_headers
  options-IsSecured = Say-IsSecured (do_options app req) (options-Say (allowed_origin app req))

  pub send_json-IsSecured :
      (status : ℕ) (d : Dict.Dict Json) → IsSecured app req (send_json app req status d)
  unfolding send_json
  send_json-IsSecured status d = send-IsSecured status _ _

  pub send_text-IsSecured :
      (status : ℕ) (content_type text : String)
      → IsSecured app req (send_text app req status content_type text)
  unfolding send_text
  send_text-IsSecured status content_type text = send-IsSecured status _ _

  pub send_html-IsSecured :
      (status : ℕ) (text : String) → IsSecured app req (send_html app req status text)
  unfolding send_html
  send_html-IsSecured status text = send-IsSecured status _ _

  pub send_error-IsSecured :
      (status : Status) (message : String) → IsSecured app req (send_error app req status message)
  unfolding send_error
  send_error-IsSecured status message = send_json-IsSecured _ _

  pub html_error-IsSecured :
      (status : Status) (message : String) → IsSecured app req (html_error app req status message)
  unfolding html_error
  html_error-IsSecured not_found message = send_html-IsSecured _ _
  html_error-IsSecured bad_request message = send_error-IsSecured bad_request message
  html_error-IsSecured unauthorized message = send_error-IsSecured unauthorized message
  html_error-IsSecured forbidden message = send_error-IsSecured forbidden message
  html_error-IsSecured internal_server_error message =
      send_error-IsSecured internal_server_error message
  html_error-IsSecured service_unavailable message =
      send_error-IsSecured service_unavailable message
