-- ===== src/Server/Handlers.antt =====
-- The handlers of `ApiHandler` of backend/app/api/server.py.
use vpp_wl_mobile.Prelude.{◌+◌, String, Bool, false, not, [], ◌∷◌, ◌==◌, if◌then◌else◌, or_else}
use vpp_wl_mobile.Prelude.Dict
use vpp_wl_mobile.Service.Accounts as Accounts
use vpp_wl_mobile.Server.{
  status_code, App, Request, Response, State, Handler, header_or, send_json, send_text, send_html,
  send_redirect, send_error, do_options, respond,
}
use vpp_wl_mobile.Json.{Json, str}
use vpp_wl_mobile.Errors.{Status, not_found, ok, pure, ◌>>=◌}
use vpp_wl_mobile.RateLimit.{allow}
use vpp_wl_mobile.Service.{Action, now}
use vpp_wl_mobile.Service.Payload.{Payload, text}
use vpp_wl_mobile.Service.Html.{SiteAction, on_world, landing_html, connect_html, invoice_html}
use vpp_wl_mobile.Service.Metrics.{prometheus_metrics}
use vpp_wl_mobile.Service.Admin.{
  admin_nodes, admin_audit_events, admin_disable_node, admin_upsert_node, admin_patch_node,
  admin_update_node_health, admin_activate_commercial_subscription,
}
use vpp_wl_mobile.Service.Admin.Import.{admin_import_vless}
use vpp_wl_mobile.Service.Sales.{checkout, create_yookassa_payment, yookassa_webhook}
use vpp_wl_mobile.Service.Subscriptions.{
  raw_v2ray_subscription, v2ray_subscription, subscription_qr_svg,
}
use vpp_wl_mobile.Service.Wallets.{invoice_wallet_qr_svg}
use vpp_wl_mobile.Service.Authorization.{user_id_from_authorization}
use vpp_wl_mobile.Pages.Landing.{not_found_page}
use vpp_wl_mobile.Server.Body.{with_payload, read_json, read_form_or_json}
use vpp_wl_mobile.Server.Paths.{
  GetRoute, DeleteRoute, PostRoute, PatchRoute, get_route, delete_route, post_route, patch_route,
}

pub data Method : Type 0 where
  get post delete patch options : Method

module _ (app : App) (req : Request) where
  -- `_send_service_response`
  unfoldable pub send_service_response : Action (Dict.Dict Json) → Handler
  unfolding respond send_json send_error
  send_service_response action =
      respond (send_json app req 200) (send_error app req) (on_world action)

  -- `_send_text_response`
  unfoldable pub send_text_response : Action String → String → Handler
  unfolding respond send_text status_code
  send_text_response action content_type =
      respond (send_text app req 200 content_type)
        (λ status message. send_text app req (status_code status) "text/plain" message)
        (on_world action)

  -- A page, with the page for what is not found.
  unfoldable pub html_error : Status → String → Response
  unfolding send_html send_error not_found_page
  html_error not_found message = send_html app req 404 not_found_page
  html_error status message = send_error app req status message

  unfoldable pub send_page : SiteAction String → Handler
  unfolding respond send_html html_error
  send_page action = respond (send_html app req 200) html_error action

  -- The code of a wallet as a picture, with errors as JSON.
  unfoldable pub send_wallet_qr : Action String → Handler
  unfolding respond send_text send_error
  send_wallet_qr action =
      respond (send_text app req 200 "image/svg+xml") (send_error app req) (on_world action)

  -- `_require_user_id`, and the method that is called with the user. Both send their errors alike.
  unfoldable pub as_user : (String → Action (Dict.Dict Json)) → Action (Dict.Dict Json)
  unfolding user_id_from_authorization
  as_user method = do
    user_id ←
        user_id_from_authorization app.codec app.py app.tokens (header_or req "Authorization" "")
    method user_id

  unfoldable pub for_user : (String → Action (Dict.Dict Json)) → Handler
  unfolding send_service_response as_user
  for_user method = send_service_response (as_user method)

  abbrev pub admin_token : String
  admin_token = header_or req "X-Admin-Token" ""

  abbrev pub nothing_here : Response
  nothing_here = send_json app req 404 (("error", str "not found") ∷ [])

  unfoldable pub send_metrics : Handler
  unfolding send_text prometheus_metrics
  send_metrics s = (
    ok (send_text app req 200 "text/plain; version=0.0.4" (prometheus_metrics s.site.world.repo)),
    s,
  )

  unfoldable pub serve_get : GetRoute → Handler
  unfolding send_html send_json send_text landing_html connect_html invoice_html send_metrics
  serve_get GetRoute.landing = pure (send_html app req 200 (landing_html app.service))
  serve_get GetRoute.health = pure (send_json app req 200 (("status", str "ok") ∷ []))
  serve_get (GetRoute.connect token) =
      send_page (on_world (connect_html app.html app.py app.service token))
  serve_get (GetRoute.raw_subscription token) =
      send_text_response (raw_v2ray_subscription app.links app.py token) "text/plain"
  serve_get (GetRoute.subscription_qr token) =
      send_text_response (subscription_qr_svg app.codec.utf8 app.service token) "image/svg+xml"
  serve_get (GetRoute.subscription token) =
      send_text_response (v2ray_subscription app.links app.py token) "text/plain"
  serve_get (GetRoute.wallet_qr token coin_id) =
      send_wallet_qr (invoice_wallet_qr_svg app.codec.utf8 app.crypto.wallets token coin_id)
  serve_get (GetRoute.invoice token) =
      send_page (invoice_html app.html app.py app.service app.crypto token)
  serve_get GetRoute.version = send_service_response (pure Accounts.version)
  serve_get GetRoute.metrics = send_metrics
  serve_get GetRoute.nodes = for_user Accounts.nodes
  serve_get GetRoute.config = for_user Accounts.config
  serve_get GetRoute.me = for_user (Accounts.me app.py app.service)
  serve_get GetRoute.export_me = for_user (Accounts.export_me app.py app.service)
  serve_get GetRoute.admin_nodes =
      send_service_response (admin_nodes app.py app.service admin_token)
  serve_get GetRoute.admin_audit =
      send_service_response (admin_audit_events app.py app.service admin_token)
  serve_get GetRoute.missing = pure nothing_here

  unfoldable pub serve_delete : DeleteRoute → Handler
  serve_delete DeleteRoute.delete_me = for_user Accounts.delete_me
  serve_delete (DeleteRoute.disable_node node_id) =
      send_service_response (admin_disable_node app.py app.service admin_token node_id)
  serve_delete DeleteRoute.missing = pure nothing_here

  -- `str(response["redirect_url"])`
  unfoldable pub redirect : Dict.Dict Json → Response
  unfolding send_redirect text
  redirect response =
      send_redirect app req (text app.py (or_else (Dict.get "redirect_url" response) (str "")))

  -- The payload of the request, and the method that is called with it.
  unfoldable pub for_payload : (Payload → Action (Dict.Dict Json)) → Handler
  unfolding with_payload read_json send_service_response
  for_payload method =
      with_payload app req (read_json app req) (λ payload. send_service_response (method payload))

  unfoldable pub serve_post : PostRoute → Handler
  unfolding with_payload read_form_or_json respond redirect send_error for_payload send_json
  serve_post PostRoute.checkout = with_payload app req (read_form_or_json app req) (λ payload.
      respond redirect (send_error app req) (on_world (checkout app.py app.service payload)))
  serve_post PostRoute.auth_init = for_payload (Accounts.auth_init app.py app.service)
  serve_post PostRoute.auth_receipt = for_payload (Accounts.auth_receipt app.py app.service)
  serve_post PostRoute.payment = for_payload (create_yookassa_payment app.py app.service)
  serve_post PostRoute.webhook = for_payload (yookassa_webhook app.py app.service)
  serve_post PostRoute.import_vless =
      for_payload (admin_import_vless app.url app.py app.service admin_token)
  serve_post PostRoute.upsert_node = for_payload (admin_upsert_node app.py app.service admin_token)
  serve_post (PostRoute.activate token) =
      for_payload (admin_activate_commercial_subscription app.py app.service admin_token token)
  serve_post PostRoute.accepted = pure (send_json app req 202 (("status", str "accepted") ∷ []))
  serve_post PostRoute.missing = pure nothing_here

  unfoldable pub serve_patch : PatchRoute → Handler
  serve_patch (PatchRoute.node_health node_id) =
      for_payload (admin_update_node_health app.py app.service admin_token node_id)
  serve_patch (PatchRoute.patch_node node_id) =
      for_payload (admin_patch_node app.py app.service admin_token node_id)
  serve_patch PatchRoute.missing = pure nothing_here

  -- The handler of a method, behind the limiter.
  unfoldable pub serve : Method → Handler
  unfolding serve_get serve_post serve_delete serve_patch get_route post_route delete_route
      patch_route do_options
  serve get = serve_get (get_route req.path)
  serve post = serve_post (post_route req.path)
  serve delete = serve_delete (delete_route req.path)
  serve patch = serve_patch (patch_route req.path)
  serve options = pure (do_options app req)

  -- The clock is read and the limiter asked.
  unfoldable pub ask_limiter : State → Bool × State
  unfolding allow now
  ask_limiter s =
      let w = s.site.world in
      let (allowed, limiter) =
        allow (or_else req.client_ip "unknown") (w.clock w.reads) s.limiter in
      (
        allowed,
        record s {
          site = record s.site { world = record w { reads = w.reads + 1 } };
          limiter = limiter;
        },
      )

  -- `_is_rate_limited`
  unfoldable pub is_rate_limited : State → Bool × State
  unfolding ask_limiter
  is_rate_limited s =
      let (allowed, after) = ask_limiter s in
      if req.path == "/health" then (false, s) else (not allowed, after)

  unfoldable pub too_many : Response
  unfolding send_json
  too_many = send_json app req 429 (("error", str "rate limit exceeded") ∷ [])

  -- `do_GET`, `do_POST`, `do_DELETE` and `do_PATCH`
  unfoldable pub limited : Method → Handler
  unfolding is_rate_limited serve too_many
  limited method s =
      let (refused, after) = is_rate_limited s in
      if refused then (ok too_many, after) else serve method after

  -- A request of any method; `do_OPTIONS` does not ask the limiter.
  unfoldable pub handle : Method → Handler
  unfolding limited serve
  handle options = serve options
  handle get = limited get
  handle post = limited post
  handle delete = limited delete
  handle patch = limited patch
