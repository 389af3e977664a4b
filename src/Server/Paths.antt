-- ===== src/Server/Paths.antt =====
-- The paths that `ApiHandler` of backend/app/api/server.py tells apart, method by method. A path is
-- `urlparse(self.path).path`.
use vpp_wl_mobile.Prelude.{
  ◌-◌, String, ◌≡◌, refl, Bool, not, ◌&&◌, Option, none, some, [], ◌∷◌, ◌==◌, leb, eqb,
  if◌then◌else◌, is_some, or_option, str_len, take_text, drop_text, is_empty,
}
use Prim.Native.Char.{code}
use vpp_wl_mobile.Config.Validation.{contains}
use vpp_wl_mobile.Links.Parser.{starts_with}
use vpp_wl_mobile.Settings.Values.{rstrip_slashes}

pub data GetRoute : Type 0 where
  landing health : GetRoute
  connect raw_subscription subscription_qr subscription invoice : String → GetRoute
  wallet_qr : String → String → GetRoute
  version metrics nodes config me export_me admin_nodes admin_audit missing : GetRoute

pub data DeleteRoute : Type 0 where
  delete_me missing : DeleteRoute
  disable_node : String → DeleteRoute

pub data PostRoute : Type 0 where
  checkout auth_init auth_receipt payment webhook import_vless upsert_node accepted missing :
      PostRoute
  activate : String → PostRoute

pub data PatchRoute : Type 0 where
  node_health patch_node : String → PatchRoute
  missing : PatchRoute

-- `s.endswith(suffix)`
unfoldable pub ends_with : String → String → Bool
unfolding str_len drop_text
ends_with suffix s =
    leb (str_len suffix) (str_len s) && (drop_text (str_len s - str_len suffix) s == suffix)

-- `s[len(prefix):]`, and that of a text without its last characters, as many as `suffix` has.
unfoldable pub after : String → String → String
unfolding str_len drop_text
after prefix s = drop_text (str_len prefix) s

unfoldable pub without_end : String → String → String
unfolding str_len take_text
without_end suffix s = take_text (str_len s - str_len suffix) s

-- `s.strip("/")`
unfoldable pub lstrip_slashes : String → String
lstrip_slashes String.[] = String.[]
lstrip_slashes (String.◌∷◌ c s) =
    let rest = lstrip_slashes s in if eqb (code c) 47 then rest else String.◌∷◌ c s

unfoldable pub strip_slashes : String → String
unfolding lstrip_slashes rstrip_slashes
strip_slashes s = rstrip_slashes (lstrip_slashes s)

-- `s.split(separator, 1)`, if it has two parts.
unfoldable pub split_once : String → String → Option (String × String)
unfolding starts_with after
split_once separator String.[] = none
split_once separator (String.◌∷◌ c s) =
    let later = split_once separator s in
    if starts_with separator (String.◌∷◌ c s)
    then some (String.[], after separator (String.◌∷◌ c s))
    else elim later [ none ↦ none | some (front, back) ↦ some (String.◌∷◌ c front, back) ]

-- The parts of a path below "/invoice/" that holds "/qr/": the second may be missing.
unfoldable pub wallet_parts : String → GetRoute
unfolding split_once strip_slashes
wallet_parts rest = elim (split_once "/qr/" rest) [
  | none ↦ wallet_qr (strip_slashes rest) ""
  | some (token, coin_id) ↦ wallet_qr (strip_slashes token) (strip_slashes coin_id)
]

-- The paths of `do_GET` that are compared as a whole.
unfoldable pub get_exact : String → GetRoute
get_exact path =
    if path == "/api/version"
    then version
    else if path == "/metrics"
    then metrics
    else if path == "/api/nodes"
    then nodes
    else if path == "/api/config"
    then config
    else if path == "/api/me"
    then me
    else if path == "/api/me/export"
    then export_me
    else if contains path ("/api/admin/nodes" ∷ "/admin/nodes" ∷ [])
    then admin_nodes
    else if path == "/api/admin/audit"
    then admin_audit
    else GetRoute.missing

-- `do_GET`
unfoldable pub get_route : String → GetRoute
unfolding starts_with ends_with after without_end strip_slashes split_once wallet_parts get_exact
get_route path =
    if path == "/"
    then landing
    else if path == "/health"
    then health
    else if starts_with "/connect/" path
    then connect (strip_slashes (after "/connect/" path))
    else if starts_with "/sub/" path && ends_with "/raw" path
    then raw_subscription (strip_slashes (without_end "/raw" (after "/sub/" path)))
    else if starts_with "/sub/" path && ends_with "/qr" path
    then subscription_qr (strip_slashes (without_end "/qr" (after "/sub/" path)))
    else if starts_with "/sub/" path
    then subscription (strip_slashes (after "/sub/" path))
    else if starts_with "/invoice/" path && is_some (split_once "/qr/" path)
    then wallet_parts (after "/invoice/" path)
    else if starts_with "/invoice/" path && ends_with "/qr" path
    then wallet_qr (strip_slashes (without_end "/qr" (after "/invoice/" path))) ""
    else if starts_with "/invoice/" path
    then invoice (strip_slashes (after "/invoice/" path))
    else get_exact path

-- `do_DELETE`
unfoldable pub delete_route : String → DeleteRoute
unfolding starts_with after strip_slashes
delete_route path =
    if path == "/api/me"
    then delete_me
    else if starts_with "/api/admin/nodes/" path
    then disable_node (strip_slashes (after "/api/admin/nodes/" path))
    else DeleteRoute.missing

-- `do_POST`
unfoldable pub post_route : String → PostRoute
unfolding starts_with ends_with after without_end
post_route path =
    if path == "/checkout"
    then checkout
    else if path == "/api/auth/init"
    then auth_init
    else if path == "/api/auth/receipt"
    then auth_receipt
    else if path == "/api/payments/yookassa"
    then payment
    else if path == "/api/webhook/yookassa"
    then webhook
    else if contains path ("/api/admin/nodes/import-vless" ∷ "/admin/nodes/import-vless" ∷ [])
    then import_vless
    else if contains path ("/api/admin/nodes" ∷ "/admin/nodes" ∷ [])
    then upsert_node
    else if starts_with "/admin/subscriptions/" path && ends_with "/activate" path
    then activate (after "/admin/subscriptions/" (without_end "/activate" path))
    else if contains path ("/api/webhook/apple" ∷ "/api/webhook/google" ∷ [])
    then accepted
    else PostRoute.missing

-- The identifier below one of the two prefixes, if it is not empty.
unfoldable pub patched_id : String → String → Option String
unfolding starts_with ends_with after strip_slashes is_empty
patched_id prefix path =
    let node_id = strip_slashes (after prefix path) in
    if starts_with prefix path && not (ends_with "/health" path) && not (is_empty node_id)
    then some node_id
    else none

abbrev patch_or_missing : Option String → PatchRoute
patch_or_missing none = PatchRoute.missing
patch_or_missing (some node_id) = patch_node node_id

-- `do_PATCH`
unfoldable pub patch_route : String → PatchRoute
unfolding starts_with ends_with after without_end patched_id
patch_route path =
    if starts_with "/api/admin/nodes/" path && ends_with "/health" path
    then node_health (after "/api/admin/nodes/" (without_end "/health" path))
    else patch_or_missing
        (or_option (patched_id "/api/admin/nodes/" path) (patched_id "/admin/nodes/" path))

-- A token ends at the slashes around it, and the wallet of a coin has two parts.
routes_run :
    (get_route "/sub/tok/raw" ≡ raw_subscription "tok")
    × (get_route "/invoice/tok/qr/ton" ≡ wallet_qr "tok" "ton")
    × (get_route "/invoice/qr/ton" ≡ wallet_qr "qr/ton" "")
    × (post_route "/admin/subscriptions/activate" ≡ activate "")
    × (patch_route "/admin/nodes/n1" ≡ patch_node "n1")
    × (patch_route "/admin/nodes/n1/health" ≡ PatchRoute.missing)
unfolding get_route post_route patch_route patched_id wallet_parts split_once strip_slashes
    lstrip_slashes rstrip_slashes after without_end ends_with starts_with str_len take_text
    drop_text is_empty
routes_run = (refl, refl, refl, refl, refl, refl)
