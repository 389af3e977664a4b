-- ===== src/Server.antt =====
-- backend/app/api/server.py: what a request is answered with. The lines that read the request from a
-- socket and write the answer to it are the parameters `Request` and the result `Response`.
pub mod Paths
pub mod Body
pub mod Handlers
pub mod Secured
pub mod Answered
pub mod Handled
pub mod Keeps
pub mod ReadOnly
pub mod Limited
pub mod Users
pub mod Personal
use vpp_wl_mobile.Prelude.{
  ℕ, String, Bool, not, Option, none, some, List, [], ◌∷◌, ◌++◌, if◌then◌else◌, or_else, length,
  concat, is_empty, decimal,
}
use vpp_wl_mobile.Prelude.Dict
use vpp_wl_mobile.Service.Html as Html
use vpp_wl_mobile.Tokens as Tokens
use vpp_wl_mobile.Json.{Json, object, str}
use vpp_wl_mobile.Config.Validation.{contains}
use vpp_wl_mobile.Errors.{
  Status, bad_request, unauthorized, forbidden, not_found, internal_server_error,
  service_unavailable, Result, ok, raised, api, Error, Exec,
}
use vpp_wl_mobile.RateLimit.{RateLimiter}
use vpp_wl_mobile.Service.{Python, Settings as ServiceSettings}
use vpp_wl_mobile.Service.Html.{Site, SiteAction, Crypto}
use vpp_wl_mobile.Links.Parser.{UrlLibrary}
use vpp_wl_mobile.Links.Subscription.{LinkLibrary}
use vpp_wl_mobile.Tokens.{TokenService}

-- The libraries that the handlers reach, and the settings of the server. `form` is
-- `parse_qs(text, keep_blank_values=True)`, `none` where it raises ValueError, and `dumps` is `json.dumps` as `_send_json` calls it.
pub record App : Type 0 where
  pub py : Python
  pub url : UrlLibrary
  pub links : LinkLibrary
  pub codec : Tokens.Library
  pub html : Html.Library
  pub dumps : Json → String
  pub form : String → Option (Dict.Dict (List String))
  pub service : ServiceSettings
  pub tokens : TokenService
  pub crypto : Crypto
  pub cors_origins : List String
  pub hsts_enabled : Bool

-- A request: `urlparse(self.path).path`, `self.headers.get`, the address of the client, and the
-- bytes of the body.
pub record Request : Type 0 where
  pub path : String
  pub header : String → Option String
  pub client_ip : Option String
  pub body : List ℕ

-- A response: the number of the status, the headers in the order in which they are sent, the body.
pub record Response : Type 0 where
  pub status : ℕ
  pub headers : Dict.Dict String
  pub body : String

-- What the handlers share.
pub record State : Type 0 where
  pub site : Site
  pub limiter : RateLimiter

abbrev pub Handler : Type 0
Handler = Exec State Response

unfoldable pub status_code : Status → ℕ
status_code bad_request = 400
status_code unauthorized = 401
status_code forbidden = 403
status_code not_found = 404
status_code internal_server_error = 500
status_code service_unavailable = 503

abbrev pub header_or : Request → String → String → String
header_or req name default = or_else (req.header name) default

-- The origin that `_send_cors_headers` allows, if it allows one.
unfoldable pub allowed_origin : App → Request → Option String
unfolding is_empty
allowed_origin app req =
    let origin = header_or req "Origin" "" in
    if is_empty origin
    then none
    else if contains "*" app.cors_origins
    then some "*"
    else if contains origin app.cors_origins
    then some origin
    else none

unfoldable pub cors_headers : Option String → Dict.Dict String
cors_headers none = []
cors_headers (some allowed_origin) =
    ("Access-Control-Allow-Origin", allowed_origin)
    ∷ ("Access-Control-Allow-Methods", "GET,POST,PATCH,DELETE,OPTIONS")
    ∷ ("Access-Control-Allow-Headers", "Authorization,Content-Type,X-Admin-Token")
    ∷ ("Access-Control-Max-Age", "600")
    ∷ ("Vary", "Origin")
    ∷ []

-- `_send_security_headers`
unfoldable pub security_headers : App → Dict.Dict String
security_headers app =
    ("X-Content-Type-Options", "nosniff")
    ∷ ("Referrer-Policy", "no-referrer")
    ∷ ("X-Frame-Options", "DENY")
    ∷ (if app.hsts_enabled
        then ("Strict-Transport-Security", "max-age=31536000; includeSubDomains") ∷ []
        else [])

module _ (app : App) (req : Request) where
  -- The headers that end every response.
  unfoldable pub last_headers : Dict.Dict String
  unfolding allowed_origin cors_headers security_headers
  last_headers = cors_headers (allowed_origin app req) ++ security_headers app

  -- What `_send_json`, `_send_text` and `_send_html` have in common: a content type and a body.
  unfoldable pub send : ℕ → String → String → Response
  unfolding last_headers decimal
  send status content_type body = record {
    status = status;
    headers =
        ("Content-Type", content_type)
        ∷ ("Content-Length", decimal (length (app.codec.utf8 body)))
        ∷ ("Cache-Control", "no-store")
        ∷ last_headers;
    body = body;
  }

  unfoldable pub send_json : ℕ → Dict.Dict Json → Response
  unfolding send
  send_json status payload =
      send status "application/json; charset=utf-8" (app.dumps (object payload))

  unfoldable pub send_text : ℕ → String → String → Response
  unfolding send concat
  send_text status content_type payload =
      send status (concat (content_type ∷ "; charset=utf-8" ∷ [])) payload

  unfoldable pub send_html : ℕ → String → Response
  unfolding send
  send_html status payload = send status "text/html; charset=utf-8" payload

  unfoldable pub send_redirect : String → Response
  unfolding last_headers
  send_redirect location = record {
    status = 303;
    headers =
        ("Location", location)
        ∷ ("Content-Length", "0")
        ∷ ("Cache-Control", "no-store")
        ∷ last_headers;
    body = "";
  }

  -- `do_OPTIONS`
  unfoldable pub do_options : Response
  unfolding last_headers
  do_options = record {
    status = 204;
    headers = last_headers ++ ("Content-Length", "0") ∷ [];
    body = "";
  }

  -- `_send_json(exc.status, exc.payload)`
  unfoldable pub send_error : Status → String → Response
  unfolding send_json status_code
  send_error status message = send_json (status_code status) (("error", str message) ∷ [])

-- A handler that calls a method: the response to what it returns, and that to an `ApiError`. What
-- else is raised is not caught.
abbrev pub caught :
    {A : Type 0} → (A → Response) → (Status → String → Response) → Result A → Result Response
caught sent failed (ok a) = ok (sent a)
caught sent failed (raised (api status message)) = ok (failed status message)
caught sent failed (raised e) = raised e

unfoldable pub respond :
    {A : Type 0} → (A → Response) → (Status → String → Response) → SiteAction A → Handler
respond sent failed action s =
    let (r, site) = action s.site in (caught sent failed r, record s { site = site })
