-- ===== src/Config/Validation.antt =====
-- `validate_config_shape` of backend/app/domain/config_validation.py.
use vpp_wl_mobile.Prelude.{
  ℕ, ◌+◌, String, Bool, true, false, not, ◌||◌, List, [], ◌∷◌, ◌==◌, if◌then◌else◌, or_else, any,
  concat, is_empty, decimal,
}
use vpp_wl_mobile.Prelude.Dict
use vpp_wl_mobile.Json.{Json, null, str, arr, obj, elements, entries}
use vpp_wl_mobile.Errors.{Result, ok, raised, value_error, type_error}
use vpp_wl_mobile.Errors.Chain.{◌>>=◌, ◌>>◌, fail_if}

-- `ConfigValidationError(message)`
abbrev pub invalid {ℓ} : {A : Type ℓ} → List String → Result A
invalid parts = raised (value_error (concat parts))

unfoldable pub require_dict : Json → String → Result (Dict.Dict Json)
require_dict (obj fs) name = ok (entries fs)
require_dict _ name = invalid (name ∷ " must be an object" ∷ [])

-- `container.get(key)`
abbrev pub value_at : String → Dict.Dict Json → Json
value_at key d = or_else (Dict.get key d) null

abbrev pub list_of : Json → String → String → Result (List Json)
list_of (arr xs) container_name key = ok (elements xs)
list_of _ container_name key = invalid (container_name ∷ "." ∷ key ∷ " must be a list" ∷ [])

unfoldable pub require_list : Dict.Dict Json → String → String → Result (List Json)
require_list container key container_name = list_of (value_at key container) container_name key

abbrev pub text_of : Json → String → String → Result String
text_of (str s) container_name key =
    if is_empty s
    then invalid (container_name ∷ "." ∷ key ∷ " must be a non-empty string" ∷ [])
    else ok s
text_of _ container_name key =
    invalid (container_name ∷ "." ∷ key ∷ " must be a non-empty string" ∷ [])

unfoldable pub require_str : Dict.Dict Json → String → String → Result String
require_str container key container_name = text_of (value_at key container) container_name key

abbrev pub contains : String → List String → Bool
contains s [] = false
contains s (t ∷ ts) = (t == s) || contains s ts

abbrev pub outbound_types : List String
outbound_types =
    "urltest" ∷ "vless" ∷ "shadowsocks" ∷ "wireguard" ∷ "hysteria2" ∷ "direct" ∷ "block" ∷ []

abbrev pub indexed : String → ℕ → String
indexed name index = concat (name ∷ "[" ∷ decimal index ∷ "]" ∷ [])

-- The body of the loop over the outbounds: the tag of one outbound.
unfoldable pub outbound_tag : ℕ → List String → Json → Result String
unfolding require_dict require_str
outbound_tag index tags outbound = do
  d ← require_dict outbound (indexed "outbounds" index)
  type ← require_str d "type" (indexed "outbounds" index)
  tag ← require_str d "tag" (indexed "outbounds" index)
  fail_if (not (contains type outbound_types))
      (value_error (concat (indexed "outbounds" index ∷ ".type is unsupported: " ∷ type ∷ [])))
  fail_if (contains tag tags) (value_error (concat ("duplicate outbound tag: " ∷ tag ∷ [])))
  ok tag

-- The loop: the tags that it has collected.
unfoldable pub outbound_tags : ℕ → List String → List Json → Result (List String)
unfolding outbound_tag
outbound_tags index tags [] = ok tags
outbound_tags index tags (outbound ∷ rest) = do
  tag ← outbound_tag index tags outbound
  outbound_tags (index + 1) (tag ∷ tags) rest

-- `outbound is not None and outbound not in outbound_tags`; a list or a dict has no hash.
abbrev pub check_target : ℕ → List String → Json → Result (Unit {0})
check_target index tags null = ok tt
check_target index tags (str s) = fail_if (not (contains s tags)) (
    value_error
      (concat (indexed "route.rules" index ∷ ".outbound must reference an outbound tag" ∷ [])))
check_target index tags (arr xs) = raised type_error
check_target index tags (obj fs) = raised type_error
check_target index tags _ =
    invalid (indexed "route.rules" index ∷ ".outbound must reference an outbound tag" ∷ [])

unfoldable pub check_rules : ℕ → List String → List Json → Result (Unit {0})
unfolding require_dict
check_rules index tags [] = ok tt
check_rules index tags (rule ∷ rest) = do
  d ← require_dict rule (indexed "route.rules" index)
  check_target index tags (value_at "outbound" d)
  check_rules (index + 1) tags rest

-- `rule.get("outbound") == "direct"`
abbrev pub is_direct_target : Json → Bool
is_direct_target (str s) = s == "direct"
is_direct_target _ = false

abbrev pub is_direct_rule : Json → Bool
is_direct_rule (obj fs) = is_direct_target (value_at "outbound" (entries fs))
is_direct_rule _ = false

abbrev pub nonempty_list : List Json → Bool
nonempty_list [] = false
nonempty_list (v ∷ vs) = true

unfoldable pub validate_config_shape : Json → Result (Unit {0})
unfolding require_dict require_list require_str
validate_config_shape config = do
  d ← require_dict config "config"
  inbounds ← require_list d "inbounds" "config"
  outbounds ← require_list d "outbounds" "config"
  route ← require_dict (value_at "route" d) "route"
  fail_if (not (nonempty_list inbounds)) (value_error "inbounds must not be empty")
  fail_if (not (nonempty_list outbounds)) (value_error "outbounds must not be empty")
  tags ← outbound_tags 0 [] outbounds
  fail_if (not (contains "direct" tags)) (value_error "direct outbound is required")
  fail_if (not (contains "auto" tags)) (value_error "auto outbound is required")
  rules ← require_list route "rules" "route"
  final ← require_str route "final" "route"
  fail_if (not (contains final tags)) (value_error "route.final must reference an outbound tag")
  check_rules 0 tags rules
  fail_if (not (any is_direct_rule rules))
      (value_error "at least one direct route rule is required")
