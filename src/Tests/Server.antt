-- ===== src/Tests/Server.antt =====
-- The server at concrete requests.
use vpp_wl_mobile.Prelude.{
  String, ◌≡◌, refl, true, false, none, some, [], ◌∷◌, ◌==◌, if◌then◌else◌, is_some, str_len,
  is_empty,
}
use vpp_wl_mobile.Prelude.Dict
use vpp_wl_mobile.Service.Html as Html
use vpp_wl_mobile.Prelude.Int.{pos}
use vpp_wl_mobile.Json.{bool, Json, str}
use vpp_wl_mobile.Server.Handlers.{delete, handle, Method, get, post, limited, for_user}
use vpp_wl_mobile.Server.Limited.{handle-Limits, Limits}
use vpp_wl_mobile.Server.Personal.{handle-Authorized, time_of, user_deletion}
use vpp_wl_mobile.Server.Users.{Authorized}
use vpp_wl_mobile.Errors.{ok}
use vpp_wl_mobile.RateLimit.{RateLimiter, allow}
use vpp_wl_mobile.Repository.Users.{get_user}
use vpp_wl_mobile.Service.{World, Settings, YooKassaPayment}
use vpp_wl_mobile.Service.Authorization.{user_id_from_authorization}
use vpp_wl_mobile.Service.Html.{Site, Crypto}
use vpp_wl_mobile.Service.Html.Offered.{Offered}
use vpp_wl_mobile.Tokens.{TokenClaims, verify}
use vpp_wl_mobile.Server.{App, Request, Response, State, send_json}
use vpp_wl_mobile.Server.Answered.{Answers}
use vpp_wl_mobile.Server.Secured.{IsSecured}
use vpp_wl_mobile.Server.Handled.{handle-Answers}
use vpp_wl_mobile.Server.ReadOnly.{get-unchanged}
use vpp_wl_mobile.Tests.Links.{urls, links}
use vpp_wl_mobile.Tests.Tokens.{python, library, service, header, member_world, epoch}

abbrev settings : Settings
settings = record {
  admin_token = "admin-token-of-the-test";
  public_base_url = "https://vpn.example";
  checkout_mode = "crypto_manual";
  tariffs = [];
  allowed_product_ids = "vpn.monthly" ∷ [];
  create_payment = λ device_id product_id url.
      ok (record { id = "p"; status = "pending"; paid = false; confirmation_url = none });
  fetch_payment = λ id. ok [];
  issue_token = λ user_id at. "token";
}

abbrev pages : Html.Library
pages = record {
  date_text = λ at. "01.01.1970";
  text_repr = λ s. s;
  upper = λ s. s;
  dumps = λ v. "[]";
  convert = λ price rate digits. some price;
}

abbrev coins : Crypto
coins = record { wallets = ("ton", "UQab") ∷ ("eth", "0xA") ∷ []; enable_testnet = false }

abbrev app : App
app = record {
  py = python;
  url = urls;
  links = links;
  codec = library;
  html = pages;
  dumps = λ v. "{}";
  form = λ s. some [];
  service = settings;
  tokens = service;
  crypto = coins;
  cors_origins = "https://a.example" ∷ [];
  hsts_enabled = true;
}

abbrev request : String → Request
request path = record {
  path = path;
  header = λ name.
      if name == "Authorization"
      then some header
      else if name == "Origin"
      then some "https://a.example"
      else none;
  client_ip = some "10.0.0.1";
  body = [];
}

abbrev site : Site
site = record {
  world = member_world;
  service = record { provider = "coingecko"; rates = []; last_updated = none };
  network = λ n. none;
  fetches = 0;
}

-- The client has used up its one request of this minute.
abbrev state : State
state = record {
  site = site;
  limiter = record { limit_per_minute = pos 1; buckets = ("10.0.0.1", epoch ∷ []) ∷ [] };
}

handle-Answers_example :
    Answers
      (IsSecured app (request "/connect/tok"))
      (handle app (request "/connect/tok") get state).0
handle-Answers_example = handle-Answers app (request "/connect/tok") get state

get-unchanged_example :
    (handle app (request "/api/me/export") get state).1.site.world.repo ≡ member_world.repo
get-unchanged_example = get-unchanged app (request "/api/me/export") state

handle-Limits_example :
    Limits app (request "/checkout") true state (handle app (request "/checkout") post state)
handle-Limits_example = handle-Limits app (request "/checkout") post state

-- The limiter lets the first request of a client pass.
abbrev fresh : State
fresh = record state { limiter = record { limit_per_minute = pos 1; buckets = [] } }

abbrev answered : Response
answered = send_json app (request "/api/me") 200 (("deleted", bool true) ∷ [])

deletion_answered : (handle app (request "/api/me") delete fresh).0 ≡ ok answered
unfolding handle vpp_wl_mobile.Server.Handlers.limited vpp_wl_mobile.Server.Handlers.is_rate_limited
    vpp_wl_mobile.Server.Handlers.ask_limiter allow vpp_wl_mobile.Server.Handlers.serve
    vpp_wl_mobile.Server.Handlers.serve_delete vpp_wl_mobile.Server.Paths.delete_route
    vpp_wl_mobile.RateLimit.drop_expired for_user
    vpp_wl_mobile.Server.Handlers.send_service_response vpp_wl_mobile.Server.respond
    vpp_wl_mobile.Server.Handlers.as_user user_id_from_authorization verify
    vpp_wl_mobile.Tokens.verify_parts vpp_wl_mobile.Tokens.split_dot vpp_wl_mobile.Tokens.sign
    vpp_wl_mobile.Tokens.b64encode vpp_wl_mobile.Tokens.strip_padding
    vpp_wl_mobile.Service.Payload.is_ascii is_empty vpp_wl_mobile.Tests.Tokens.codes
    vpp_wl_mobile.Tokens.or_invalid_payload vpp_wl_mobile.Tokens.read_payload
    vpp_wl_mobile.Tokens.b64decode vpp_wl_mobile.Tokens.padding str_len
    vpp_wl_mobile.Tokens.subscript vpp_wl_mobile.Service.Payload.text
    vpp_wl_mobile.Service.Payload.integer vpp_wl_mobile.Service.Payload.compare_digest
    vpp_wl_mobile.Prelude.Dict.get vpp_wl_mobile.Json.entries vpp_wl_mobile.Json.fields get_user
    vpp_wl_mobile.Service.Accounts.delete_me
deletion_answered = refl

handle-Authorized_example :
    Authorized app (request "/api/me") fresh (time_of app (request "/api/me") fresh)
unfolding send_json
handle-Authorized_example =
    handle-Authorized app (request "/api/me") delete "/api/me" fresh answered user_deletion refl
      deletion_answered refl
