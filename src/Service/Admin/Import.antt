-- ===== src/Service/Admin/Import.antt =====
-- `admin_import_vless` of backend/app/api/service.py.
use vpp_wl_mobile.Prelude.{String, [], ◌∷◌, is_empty}
use vpp_wl_mobile.Prelude.Dict
use vpp_wl_mobile.Models.{VpnNode}
use vpp_wl_mobile.Errors.{Result, api, bad_request, lift, raise_if, pure, ◌>>=◌, ◌>>◌}
use vpp_wl_mobile.Json.{Json, nat, str}
use vpp_wl_mobile.Service.Admin.ImportPayload.{imported_node}
use vpp_wl_mobile.Repository.Nodes.{upsert_node}
use vpp_wl_mobile.Service.{Python, Settings, Action, now, modify_repo}
use vpp_wl_mobile.Service.Payload.{Payload, require_admin, stripped}
use vpp_wl_mobile.Service.Views.{admin_node}
use vpp_wl_mobile.Service.Admin.{audit}
use vpp_wl_mobile.Links.Parser.{UrlLibrary}

module _ (url : UrlLibrary) (py : Python) (cfg : Settings) where
  -- The method from the parsed URL on.
  unfoldable pub store_import : Result VpnNode → Action (Dict.Dict Json)
  unfolding upsert_node audit
  store_import parsed = do
    node ← lift parsed
    modify_repo (upsert_node node)
    audit "node.import_vless" "node" node.id
        (("host", str node.host) ∷ ("port", nat node.port) ∷ ("source", str "3x-ui") ∷ [])
    pure (("node", admin_node py node) ∷ [])

  unfoldable pub admin_import_vless : String → Payload → Action (Dict.Dict Json)
  unfolding stripped is_empty store_import now imported_node
  admin_import_vless admin_token payload = do
    lift (require_admin cfg admin_token)
    raise_if (is_empty (stripped py "vless_url" "" payload))
        (api bad_request "vless_url is required")
    at ← now
    store_import (imported_node url py payload at)
