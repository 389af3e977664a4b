-- ===== src/Links/Subscription.antt =====
-- backend/app/domain/v2ray_subscription.py. What urllib.parse and base64 do is a parameter.
pub mod Complete
use vpp_wl_mobile.Prelude.{
  length, eqb, ◌+◌, String, Bool, true, false, not, ◌&&◌, Option, none, some, List, [], ◌∷◌, map,
  ltb, if◌then◌else◌, or_else, keep, concat, is_empty, or_text, decimal, strip,
}
use vpp_wl_mobile.Prelude.Dict
use vpp_wl_mobile.Prelude.Int.{ltb_ℤ}
use vpp_wl_mobile.Prelude.Order.{ltb_text, lex}
use vpp_wl_mobile.Prelude.Sort.{sorted}
use Prim.Native.String.{◌++◌}
use vpp_wl_mobile.Json.{Json, str}
use vpp_wl_mobile.Errors.{type_error, Result, ok, raised, value_error}
use vpp_wl_mobile.Errors.Chain.{◌>>=◌, ◌>>◌, fail_if}
use vpp_wl_mobile.Models.{VpnNode, VlessOptions, NodeOptions, Protocol, is_usable}
use vpp_wl_mobile.Service.{Python}
use vpp_wl_mobile.Service.Payload.{text, truth}

-- `urlsplit` gives the scheme, the netloc, the path, the query and the fragment. `quote_all` is
-- `quote(s, safe="")`.
pub record LinkLibrary : Type 0 where
  pub quote : String → String
  pub quote_all : String → String
  pub urlencode : Dict.Dict String → String
  pub urlsplit : String → Result (String × String × String × String × String)
  pub urlunsplit : String × String × String × String × String → String
  pub b64encode_utf8 : String → String

-- The tuple `(node.priority, -node.health_score, node.tag)` compared.
unfoldable pub link_before : VpnNode → VpnNode → Bool
unfolding ltb_text
link_before =
    lex (λ a b. ltb_ℤ a.priority b.priority)
      (lex (λ a b. ltb b.health_score a.health_score) (λ a b. ltb_text a.tag b.tag))

abbrev pub has_vless_options : NodeOptions → Bool
has_vless_options (NodeOptions.vless o) = true
has_vless_options _ = false

abbrev pub is_vless : Protocol → Bool
is_vless Protocol.vless = true
is_vless _ = false

unfoldable pub is_linked : VpnNode → Bool
unfolding is_usable
is_linked node = is_vless node.protocol && is_usable node && has_vless_options node.options

unfoldable pub active_vless_nodes : List VpnNode → List VpnNode
unfolding is_linked sorted link_before
active_vless_nodes nodes = sorted link_before (keep is_linked nodes)

abbrev optional_text : Option String → Option Json
optional_text none = none
optional_text (some s) = some (str s)

-- `a or b or ...` of values of a dict; the last is `""`.
unfoldable pub first_true : List (Option Json) → Json
unfolding truth
first_true [] = str ""
first_true (none ∷ rest) = first_true rest
first_true (some v ∷ rest) = let later = first_true rest in if truth v then v else later

-- `"\n".join(links) + "\n"`
unfoldable pub lines : List String → String
unfolding concat
lines [] = ""
lines (link ∷ links) = concat (link ∷ "\n" ∷ lines links ∷ [])

module _ (url : LinkLibrary) (py : Python) where
  -- `_relabel`
  unfoldable pub relabel : String → String → Result String
  relabel raw_url label = do
    (scheme, netloc, path, query, _) ← url.urlsplit raw_url
    ok (url.urlunsplit (scheme, netloc, path, query, url.quote label))

  -- `_transport_type`
  unfoldable pub transport_type : Option (Dict.Dict Json) → String
  unfolding first_true text
  transport_type none = "tcp"
  transport_type (some transport) =
      text py (first_true (Dict.get "type" transport ∷ some (str "tcp") ∷ []))

  -- `str(option or reality.get(key) or reality.get(short_key) or "").strip()`
  unfoldable pub reality_text : Option String → String → String → Dict.Dict Json → String
  unfolding first_true text strip
  reality_text option key short_key reality = strip (
      text py (
        first_true (optional_text option ∷ Dict.get key reality ∷ Dict.get short_key reality ∷ [])))

  -- The link of a node that was not imported, for the dict `options.reality or {}`.
  unfoldable pub built_link : VpnNode → VlessOptions → Dict.Dict Json → Result String
  unfolding reality_text transport_type text or_text concat decimal is_empty first_true
  built_link node options reality = do
    let public_key = reality_text options.public_key "public_key" "pbk" reality
    let short_id = reality_text options.short_id "short_id" "sid" reality
    fail_if (is_empty public_key)
        (value_error (concat ("VLESS node " ∷ node.id ∷ " is missing public_key" ∷ [])))
    fail_if (is_empty short_id)
        (value_error (concat ("VLESS node " ∷ node.id ∷ " is missing short_id" ∷ [])))
    let flow = or_else options.flow ""
    let query =
        ("type", transport_type options.transport)
        ∷ (
          "security",
          or_text options.security
              (text py (or_else (Dict.get "security" reality) (str "reality"))),
        )
        ∷ ("pbk", public_key)
        ∷ (
          "fp",
          or_text options.fingerprint
              (text py (or_else (Dict.get "fingerprint" reality) (str "chrome"))),
        )
        ∷ ("sni", options.server_name)
        ∷ ("sid", short_id)
        ∷ (if is_empty flow then [] else ("flow", flow) ∷ [])
    let label =
        or_text (or_else options.label "")
          (text py (first_true (Dict.get "label" reality ∷ some (str node.tag) ∷ [])))
    ok (
        concat (
          "vless://"
          ∷ url.quote_all options.uuid
          ∷ "@"
          ∷ node.host
          ∷ ":"
          ∷ decimal node.port
          ∷ "?"
          ∷ url.urlencode query
          ∷ "#"
          ∷ url.quote label
          ∷ []))

  -- `_vless_link`
  unfoldable pub vless_link : VpnNode → VlessOptions → Result String
  unfolding relabel built_link or_text is_empty
  vless_link node options =
      let raw_url = or_else options.raw_url "" in
      if is_empty raw_url
      then built_link node options (or_else options.reality [])
      else relabel raw_url (or_text (or_else options.label "") node.tag)

  -- The link of a node of `active_vless_nodes`, whose options are those of VLESS; the `assert` that
  -- they are never fails there.
  unfoldable pub link_of : VpnNode → NodeOptions → Result String
  unfolding vless_link
  link_of node (NodeOptions.vless options) = vless_link node options
  link_of node _ = raised type_error

  unfoldable pub links_of : List VpnNode → Result (List String)
  unfolding link_of
  links_of [] = ok []
  links_of (node ∷ nodes) = do
    link ← link_of node node.options
    links ← links_of nodes
    ok (link ∷ links)

  unfoldable pub vless_links : List VpnNode → Result (List String)
  unfolding links_of active_vless_nodes
  vless_links nodes = links_of (active_vless_nodes nodes)

  unfoldable pub raw_subscription : List VpnNode → Result String
  unfolding vless_links lines
  raw_subscription nodes = do
    links ← vless_links nodes
    fail_if (eqb (length links) 0) (value_error "no active VLESS nodes available")
    ok (lines links)

  unfoldable pub encoded_subscription : List VpnNode → Result String
  unfolding raw_subscription
  encoded_subscription nodes = do raw ← raw_subscription nodes; ok (url.b64encode_utf8 raw)
