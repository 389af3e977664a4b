-- ===== src/Server/Handled.antt =====
-- The handlers of all methods: their answers, and the requests that the limiter refuses.
use vpp_wl_mobile.Prelude.{refl, arith, [], ◌∷◌, inl, inr, Bool-cases}
use vpp_wl_mobile.Json.{str}
use vpp_wl_mobile.Server.Handlers.{
  too_many, Method, get, post, delete, patch, options, redirect, send_metrics, serve_get,
  serve_post, serve_delete, serve_patch, serve, limited, handle, is_rate_limited,
}
use vpp_wl_mobile.Service.Html.{on_world}
use vpp_wl_mobile.Service.Sales.{checkout}
use vpp_wl_mobile.Server.{App, Request, Response, State, send_error}
use vpp_wl_mobile.Server.Body.{read_form_or_json}
use vpp_wl_mobile.Server.Paths.{
  GetRoute, DeleteRoute, PostRoute, PatchRoute, get_route, post_route, delete_route, patch_route,
}
use vpp_wl_mobile.Server.Secured.{
  send_json-IsSecured, send_text-IsSecured, send_html-IsSecured, redirect-IsSecured,
  options-IsSecured, IsSecured,
}
use vpp_wl_mobile.Server.Answered.{
  Answers, IsClosed, error-closed, IsAnswered, respond-IsAnswered, pure-IsAnswered,
  service-IsAnswered, text-IsAnswered, page-IsAnswered, wallet_qr-IsAnswered, for_user-IsAnswered,
  json-IsAnswered, with_payload-IsAnswered, for_payload-IsAnswered, read_form_or_json-Reads,
}

module _ (app : App) (req : Request) (P : Response → Type 0) (closed : IsClosed app req P) where
  metrics-IsAnswered : IsAnswered app req P closed (send_metrics app req)
  unfolding send_metrics Answers
  metrics-IsAnswered s = (closed.text 200 "text/plain; version=0.0.4" _ (λ h. omega arith), refl)

  get-IsAnswered : (route : GetRoute) → IsAnswered app req P closed (serve_get app req route)
  unfolding serve_get
  get-IsAnswered GetRoute.landing =
      pure-IsAnswered app req P closed _ (closed.html 200 _ (λ h. omega arith))
  get-IsAnswered GetRoute.health = json-IsAnswered app req P closed 200 _ (λ h. omega arith)
  get-IsAnswered (GetRoute.connect token) = page-IsAnswered app req P closed _
  get-IsAnswered (GetRoute.raw_subscription token) = text-IsAnswered app req P closed _ _
  get-IsAnswered (GetRoute.subscription_qr token) = text-IsAnswered app req P closed _ _
  get-IsAnswered (GetRoute.subscription token) = text-IsAnswered app req P closed _ _
  get-IsAnswered (GetRoute.wallet_qr token coin_id) = wallet_qr-IsAnswered app req P closed _
  get-IsAnswered (GetRoute.invoice token) = page-IsAnswered app req P closed _
  get-IsAnswered GetRoute.version = service-IsAnswered app req P closed _
  get-IsAnswered GetRoute.metrics = metrics-IsAnswered
  get-IsAnswered GetRoute.nodes = for_user-IsAnswered app req P closed _
  get-IsAnswered GetRoute.config = for_user-IsAnswered app req P closed _
  get-IsAnswered GetRoute.me = for_user-IsAnswered app req P closed _
  get-IsAnswered GetRoute.export_me = for_user-IsAnswered app req P closed _
  get-IsAnswered GetRoute.admin_nodes = service-IsAnswered app req P closed _
  get-IsAnswered GetRoute.admin_audit = service-IsAnswered app req P closed _
  get-IsAnswered GetRoute.missing = json-IsAnswered app req P closed 404 _ (λ h. omega arith)

  delete-IsAnswered :
      (route : DeleteRoute) → IsAnswered app req P closed (serve_delete app req route)
  unfolding serve_delete
  delete-IsAnswered DeleteRoute.delete_me = for_user-IsAnswered app req P closed _
  delete-IsAnswered (DeleteRoute.disable_node node_id) = service-IsAnswered app req P closed _
  delete-IsAnswered DeleteRoute.missing = json-IsAnswered app req P closed 404 _ (λ h. omega arith)

  post-IsAnswered : (route : PostRoute) → IsAnswered app req P closed (serve_post app req route)
  unfolding serve_post redirect
  post-IsAnswered PostRoute.checkout =
      with_payload-IsAnswered app req P closed (read_form_or_json app req) _
        (read_form_or_json-Reads app req)
        (λ p.
          respond-IsAnswered app req P closed (redirect app req) (send_error app req)
            (on_world (checkout app.py app.service p)) (λ d. closed.redirected _)
            (error-closed app req P closed))
  post-IsAnswered PostRoute.auth_init = for_payload-IsAnswered app req P closed _
  post-IsAnswered PostRoute.auth_receipt = for_payload-IsAnswered app req P closed _
  post-IsAnswered PostRoute.payment = for_payload-IsAnswered app req P closed _
  post-IsAnswered PostRoute.webhook = for_payload-IsAnswered app req P closed _
  post-IsAnswered PostRoute.import_vless = for_payload-IsAnswered app req P closed _
  post-IsAnswered PostRoute.upsert_node = for_payload-IsAnswered app req P closed _
  post-IsAnswered (PostRoute.activate token) = for_payload-IsAnswered app req P closed _
  post-IsAnswered PostRoute.accepted = json-IsAnswered app req P closed 202 _ (λ h. omega arith)
  post-IsAnswered PostRoute.missing = json-IsAnswered app req P closed 404 _ (λ h. omega arith)

  patch-IsAnswered : (route : PatchRoute) → IsAnswered app req P closed (serve_patch app req route)
  unfolding serve_patch
  patch-IsAnswered (PatchRoute.node_health node_id) = for_payload-IsAnswered app req P closed _
  patch-IsAnswered (PatchRoute.patch_node node_id) = for_payload-IsAnswered app req P closed _
  patch-IsAnswered PatchRoute.missing = json-IsAnswered app req P closed 404 _ (λ h. omega arith)

  pub serve-IsAnswered : (method : Method) → IsAnswered app req P closed (serve app req method)
  unfolding serve
  serve-IsAnswered get = get-IsAnswered (get_route req.path)
  serve-IsAnswered post = post-IsAnswered (post_route req.path)
  serve-IsAnswered delete = delete-IsAnswered (delete_route req.path)
  serve-IsAnswered patch = patch-IsAnswered (patch_route req.path)
  serve-IsAnswered options = pure-IsAnswered app req P closed _ closed.preflight

module _ (app : App) (req : Request) where
  IsSecured-IsClosed : IsClosed app req (IsSecured app req)
  IsSecured-IsClosed = record {
    json = λ status d own. send_json-IsSecured app req status d;
    text = λ status content_type t own. send_text-IsSecured app req status content_type t;
    html = λ status t own. send_html-IsSecured app req status t;
    redirected = redirect-IsSecured app req;
    preflight = options-IsSecured app req;
  }

  secured : (method : Method) (s : State) → Answers (IsSecured app req) (serve app req method s).0
  secured method s = (serve-IsAnswered app req (IsSecured app req) IsSecured-IsClosed method s).0

  limited-Answers :
      (method : Method) (s : State) → Answers (IsSecured app req) (limited app req method s).0
  unfolding limited too_many Answers
  limited-Answers method s = elim (Bool-cases (is_rate_limited app req s).0) [
    | inl e ↦
        rw (e, limited)
          (send_json-IsSecured app req 429 (("error", str "rate limit exceeded") ∷ []))
    | inr e ↦ rw (e, limited) (secured method (is_rate_limited app req s).1)
  ]

  -- Whatever is requested, in whatever state: a response that is sent forbids to sniff its type, to
  -- frame it and to pass on the address, and lets an origin read it only if the settings name that
  -- origin, which then is the request's own, or name "*"; and where no response is sent, what was
  -- raised is no ApiError.
  pub handle-Answers :
      (method : Method) (s : State) → Answers (IsSecured app req) (handle app req method s).0
  unfolding handle
  handle-Answers options = secured options
  handle-Answers get = limited-Answers get
  handle-Answers post = limited-Answers post
  handle-Answers delete = limited-Answers delete
  handle-Answers patch = limited-Answers patch
