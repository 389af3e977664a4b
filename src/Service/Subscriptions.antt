-- ===== src/Service/Subscriptions.antt =====
-- The methods of `ApiService` of backend/app/api/service.py that serve a subscription link.
pub mod Paid
use vpp_wl_mobile.Prelude.{ℕ, String, List, [], ◌∷◌, concat}
use vpp_wl_mobile.Errors.{bad_request, service_unavailable, lift, ◌>>=◌, ◌>>◌}
use vpp_wl_mobile.Repository.Nodes.{list_nodes}
use vpp_wl_mobile.Service.{Python, Settings, Action, read_repo}
use vpp_wl_mobile.Service.Receipts.{value_error_as}
use vpp_wl_mobile.Service.Sales.{require_active_commercial_subscription}
use vpp_wl_mobile.Links.Subscription.{LinkLibrary, raw_subscription, encoded_subscription}
use vpp_wl_mobile.Qr.Svg.{qr_svg}

-- `subscription_url`
unfoldable pub subscription_url : Settings → String → String
unfolding concat
subscription_url cfg token = concat (cfg.public_base_url ∷ "/sub/" ∷ token ∷ [])

module _ (link : LinkLibrary) (py : Python) where
  unfoldable pub v2ray_subscription : String → Action String
  unfolding require_active_commercial_subscription list_nodes encoded_subscription
  v2ray_subscription token = do
    require_active_commercial_subscription token
    nodes ← read_repo list_nodes
    lift (value_error_as service_unavailable (encoded_subscription link py nodes))

  unfoldable pub raw_v2ray_subscription : String → Action String
  unfolding require_active_commercial_subscription list_nodes raw_subscription
  raw_v2ray_subscription token = do
    require_active_commercial_subscription token
    nodes ← read_repo list_nodes
    lift (value_error_as service_unavailable (raw_subscription link py nodes))

-- `encode` is `str.encode("utf-8")`.
unfoldable pub subscription_qr_svg : (String → List ℕ) → Settings → String → Action String
unfolding require_active_commercial_subscription qr_svg subscription_url
subscription_qr_svg encode cfg token = do
  require_active_commercial_subscription token
  lift (value_error_as bad_request (qr_svg encode (subscription_url cfg token) 8 4))
