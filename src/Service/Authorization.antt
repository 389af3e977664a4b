-- ===== src/Service/Authorization.antt =====
-- `user_id_from_authorization` of backend/app/api/service.py.
pub mod Bearer
use vpp_wl_mobile.Prelude.{String, not, ◌||◌, [], ◌==◌, eqb, if◌then◌else◌, is_empty}
use Prim.Native.Char.{Char, code}
use vpp_wl_mobile.Errors.{
  Result, ok, raised, api, unauthorized, Exec, ◌>>=◌, ◌>>◌, lift, raise_if, pure,
}
use vpp_wl_mobile.Service.{Action, Python, World, now}
use vpp_wl_mobile.Service.Accounts.{require_known_user}
use vpp_wl_mobile.Service.Receipts.{value_error_as}
use vpp_wl_mobile.Tokens.{Library, TokenService, TokenClaims, verify}

-- `s.partition(" ")`, without the separator.
unfoldable pub partition : String → String × String
partition String.[] = (String.[], String.[])
partition (String.◌∷◌ c s) =
    let rest = partition s in
    if eqb (code c) 32 then (String.[], s) else (String.◌∷◌ c rest.0, rest.1)

module _ (lib : Library) (py : Python) (service : TokenService) where
  -- The rest of the method, for the two parts of the header.
  unfoldable pub bearer_user : String → String → Action String
  unfolding verify require_known_user is_empty now
  bearer_user scheme token = do
    raise_if (not (py.lower scheme == "bearer") || is_empty token)
        (api unauthorized "bearer token required")
    at ← now
    claims ← lift (value_error_as unauthorized (verify lib py service at token))
    require_known_user claims.subject
    pure claims.subject

  unfoldable pub user_id_from_authorization : String → Action String
  unfolding partition bearer_user
  user_id_from_authorization authorization =
      let parts = partition authorization in bearer_user parts.0 parts.1
