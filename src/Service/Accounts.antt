-- ===== src/Service/Accounts.antt =====
-- The methods of `ApiService` of backend/app/api/service.py for a user's account. What a method of
-- the repository may draw, an identifier or a reading of the clock, is drawn before the call, needed
-- or not.
pub mod Served
use vpp_wl_mobile.Prelude.{String, true, not, [], ◌∷◌, map, is_empty}
use vpp_wl_mobile.Prelude.Dict
use vpp_wl_mobile.Json.{texts, nat, object, bool, str, array, Json}
use vpp_wl_mobile.Service.{on_repo, new_id, now, update_repo, read_repo, Action, Settings, Python}
use vpp_wl_mobile.Service.Receipts.{
  verify_claim, checked_config, verify, verify_yookassa_claim, value_error_as,
}
use vpp_wl_mobile.Errors.{
  service_unavailable, lift, bad_request, forbidden, raise_if, pure, or_raise, unauthorized, api,
  Error, Status, ◌>>=◌, ◌>>◌,
}
use vpp_wl_mobile.Service.Views.{or_null, public_node, public_subscription}
use vpp_wl_mobile.Repository.Users.{
  activate_subscription, get_or_create_user, export_user_data, delete_user, get_user,
  get_active_subscription,
}
use vpp_wl_mobile.Config.Validation.{validate_config_shape}
use vpp_wl_mobile.Config.{build_client_config}
use vpp_wl_mobile.Service.Payload.{stripped, receipt_claim_from_payload, Payload}
use vpp_wl_mobile.Repository.Nodes.{list_nodes}
use vpp_wl_mobile.Nodes.{choose_preferred_nodes}

abbrev pub catching : {A : Type 0} → Status → Action A → Action A
catching status m w = let (r, after) = m w in (value_error_as status r, after)

abbrev pub unknown_user : Error
unknown_user = api unauthorized "unknown user"

-- `_require_known_user`
unfoldable pub require_known_user : String → Action (Unit {0})
require_known_user user_id = do
  found ← read_repo (get_user user_id)
  _ ← or_raise found unknown_user
  pure tt

module _ (py : Python) (cfg : Settings) where
  unfoldable pub auth_init : Payload → Action (Dict.Dict Json)
  unfolding stripped is_empty get_or_create_user
  auth_init payload = do
    let device_id = stripped py "device_id" "" payload
    raise_if (is_empty device_id) (api bad_request "device_id is required")
    uid ← new_id "usr"
    at ← now
    user ← on_repo (get_or_create_user device_id uid at)
    pure (("user_id", str user.id) ∷ [])

  unfoldable pub auth_receipt : Payload → Action (Dict.Dict Json)
  unfolding receipt_claim_from_payload verify_yookassa_claim verify activate_subscription new_id now
  auth_receipt payload = do
    claim ← lift (receipt_claim_from_payload py payload)
    lift (value_error_as bad_request (verify_claim py cfg claim))
    uid ← new_id "usr"
    created_at ← now
    at ← now
    subscription ←
        catching bad_request (on_repo (activate_subscription py.sha256_hex claim uid created_at at))
    issued_at ← now
    pure (
        ("access_token", str (cfg.issue_token subscription.user_id issued_at))
        ∷ ("token_type", str "Bearer")
        ∷ ("expires_at", str (py.isoformat subscription.expires_at))
        ∷ [])

  unfoldable pub me : String → Action (Dict.Dict Json)
  unfolding require_known_user get_active_subscription public_subscription now
  me user_id = do
    require_known_user user_id
    at ← now
    subscription ← read_repo (get_active_subscription user_id at)
    later ← now
    pure (
        ("user_id", str user_id)
        ∷ ("subscription", or_null (λ s. public_subscription py s later) subscription)
        ∷ [])

  unfoldable pub export_me : String → Action (Dict.Dict Json)
  unfolding export_user_data now
  export_me user_id = do
    at ← now
    found ← read_repo (export_user_data py.isoformat user_id at)
    exported ← or_raise found unknown_user
    pure (("data", exported) ∷ [])

unfoldable pub delete_me : String → Action (Dict.Dict Json)
unfolding delete_user
delete_me user_id = do
  deleted ← update_repo (delete_user user_id)
  raise_if (not deleted) unknown_user
  pure (("deleted", bool true) ∷ [])

unfoldable pub nodes : String → Action (Dict.Dict Json)
unfolding require_known_user choose_preferred_nodes list_nodes public_node
nodes user_id = do
  require_known_user user_id
  all ← read_repo list_nodes
  pure (("nodes", array (map (λ n. object (public_node n)) (choose_preferred_nodes all 8))) ∷ [])

-- The rest of the method `config`, for a user who is known.
abbrev pub serve_config : String → Action (Dict.Dict Json)
serve_config user_id = do
  at ← now
  subscription ← read_repo (get_active_subscription user_id at)
  _ ← or_raise subscription (api forbidden "active subscription required")
  all ← read_repo list_nodes
  lift (value_error_as service_unavailable (checked_config (choose_preferred_nodes all 8)))

unfoldable pub config : String → Action (Dict.Dict Json)
unfolding require_known_user
config user_id = do require_known_user user_id; serve_config user_id

-- The method `version`.
abbrev pub version : Dict.Dict Json
version =
    ("api_version", str "0.1.0")
    ∷ ("config_format", str "sing-box")
    ∷ ("config_version", nat 1)
    ∷ ("min_client_version", str "0.1.0")
    ∷ (
      "features",
      texts (
          "smart-routing" ∷ "node-scoring" ∷ "last-known-good-config" ∷ "expo-native-vpn-boundary"
          ∷ "account-data-export" ∷ "account-deletion" ∷ "admin-audit" ∷ "yookassa-payments"
          ∷ "v2ray-subscription-link-mvp" ∷ []),
    )
    ∷ []
