-- ===== src/Links/Parser.antt =====
-- `parse_vless_url` of backend/app/domain/vless_parser.py. What urllib.parse does is a parameter.
pub mod Imported
use vpp_wl_mobile.Prelude.{
  ℕ, zero, suc, String, Bool, true, false, not, ◌&&◌, Option, none, some, List, [], ◌∷◌, eqb,
  if◌then◌else◌, or_else, take_text, concat, is_empty, or_text, decimal, strip,
}
use vpp_wl_mobile.Prelude.Dict
use vpp_wl_mobile.Prelude.Int.{ℤ}
use Prim.Native.Char.{Char, code}
use vpp_wl_mobile.Json.{str}
use vpp_wl_mobile.Errors.{Result, ok, raised, value_error}
use vpp_wl_mobile.Errors.Chain.{◌>>=◌, ◌>>◌, fail_if}
use vpp_wl_mobile.Models.{VpnNode, VlessOptions, NodeOptions, NodeStatus, NodeHealth, Protocol}
use vpp_wl_mobile.Service.{Python}
use vpp_wl_mobile.Service.Admin.NodePayload.{or_none}
use vpp_wl_mobile.Links.Slug.{slugify}

-- What `urlparse` finds in a URL. Reading the port raises ValueError if it is not a number up to
-- 65535.
pub record ParsedUrl : Type 0 where
  pub username : Option String
  pub hostname : Option String
  pub port : Result (Option ℕ)
  pub query : String
  pub fragment : String

-- `urllib.parse`, and the methods of `str` for letters. `parse_qs` keeps blank values.
pub record UrlLibrary : Type 0 where
  pub urlparse : String → Result ParsedUrl
  pub unquote : String → String
  pub parse_qs : String → Result (Dict.Dict (List String))
  pub upper : String → String
  pub isalnum : Char → Bool

-- The arguments of `parse_vless_url` behind the URL, and the time.
pub record Arguments : Type 0 where
  pub node_id : Option String
  pub label : Option String
  pub priority : ℤ
  pub enabled : Bool
  pub country_code : String
  pub region : String
  pub provider : String
  pub source : String
  pub source_panel : String
  pub now : ℕ

-- `s.startswith(prefix)`
unfoldable pub starts_with : String → String → Bool
starts_with String.[] s = true
starts_with (String.◌∷◌ c prefix) String.[] = false
starts_with (String.◌∷◌ c prefix) (String.◌∷◌ d s) = eqb (code c) (code d) && starts_with prefix s

-- `v[0] if v else ""`
abbrev pub first_value : List String → String
first_value [] = ""
first_value (v ∷ vs) = v

-- `query.get(key, default).strip()`
unfoldable pub parameter : String → String → Dict.Dict (List String) → String
unfolding strip
parameter key default query =
    strip (elim (Dict.get key query) [ none ↦ default | some values ↦ first_value values ])

-- `port = parsed.port; if not port: raise`
abbrev pub checked_port : Option ℕ → Result ℕ
checked_port none = raised (value_error "vless URL is missing port")
checked_port (some zero) = raised (value_error "vless URL is missing port")
checked_port (some (suc n)) = ok (suc n)

module _ (url : UrlLibrary) (py : Python) (args : Arguments) where
  -- `(label or fragment_label or host).strip()`
  unfoldable pub display_label : String → String → String
  unfolding or_text strip
  display_label fragment host =
      strip (or_text (or_else args.label "") (or_text (strip (url.unquote fragment)) host))

  unfoldable pub vless_options :
      String → String → String → String → Dict.Dict (List String) → VlessOptions
  unfolding parameter or_text is_empty
  vless_options raw uuid host label query = record {
    uuid = uuid;
    server_name = or_text (parameter "sni" "" query) host;
    flow = or_none (parameter "flow" "" query);
    transport = some (("type", str (or_text (parameter "type" "tcp" query) "tcp")) ∷ []);
    reality = none;
    security = or_text (parameter "security" "reality" query) "reality";
    public_key = or_none (parameter "pbk" "" query);
    short_id = or_none (parameter "sid" "" query);
    fingerprint = or_text (parameter "fp" "" query) "chrome";
    label = some label;
    raw_url = some raw;
    source = args.source;
    source_panel = some args.source_panel;
  }

  -- `node_id or _slugify(display_label) or f"{host}-{port}"`
  unfoldable pub generated_id : String → String → ℕ → String
  unfolding slugify or_text concat decimal
  generated_id label host port =
      or_text (or_else args.node_id "")
        (or_text (slugify url.isalnum (py.lower label)) (concat (host ∷ "-" ∷ decimal port ∷ [])))

  unfoldable pub vless_node :
      String → String → String → String → ℕ → Dict.Dict (List String) → VpnNode
  unfolding generated_id vless_options take_text is_empty
  vless_node raw uuid host label port query = record {
    id = generated_id label host port;
    tag = label;
    region = args.region;
    provider = args.provider;
    country_code =
        if is_empty args.country_code then "XX" else take_text 2 (url.upper args.country_code);
    host = host;
    port = port;
    protocol = Protocol.vless;
    status = if args.enabled then NodeStatus.active else NodeStatus.disabled;
    priority = args.priority;
    weight = 100;
    health_score = 100;
    latency_ms = none;
    success_rate = 10_000;
    last_check_at = some args.now;
    health = if args.enabled then NodeHealth.healthy else NodeHealth.disabled;
    options = NodeOptions.vless (vless_options raw uuid host label query);
  }

  -- `parse_vless_url`
  unfoldable pub parse_vless_url : String → Result VpnNode
  unfolding starts_with strip is_empty display_label vless_node
  parse_vless_url vless_url = do
    let raw = strip vless_url
    fail_if (not (starts_with "vless://" (py.lower raw)))
        (value_error "URL must start with vless://")
    parsed ← url.urlparse raw
    let uuid = strip (url.unquote (or_else parsed.username ""))
    let host = strip (or_else parsed.hostname "")
    port ← parsed.port
    fail_if (is_empty uuid) (value_error "vless URL is missing UUID")
    fail_if (is_empty host) (value_error "vless URL is missing host")
    port' ← checked_port port
    query ← url.parse_qs parsed.query
    ok (vless_node raw uuid host (display_label parsed.fragment host) port' query)
