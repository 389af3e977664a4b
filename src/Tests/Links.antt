-- ===== src/Tests/Links.antt =====
-- vless:// links at concrete inputs, with libraries that know one URL.
use vpp_wl_mobile.Prelude.{
  ◌+◌, map, arith, length, keep, List, All, ◌<◌, String, ◌≡◌, refl, Bool, true, false, not, none,
  some, [], ◌∷◌, str_len, concat, is_empty, or_text, is_space, lstrip, rstrip, strip,
}
use vpp_wl_mobile.Prelude.Sort.{sorted, insert_sorted, IsSorted}
use vpp_wl_mobile.Prelude.Int.{pos}
use vpp_wl_mobile.Links.Subscription.{
  links_of, vless_links, encoded_subscription, link_before, active_vless_nodes, lines,
  raw_subscription, LinkLibrary, is_linked, link_of, vless_link, relabel,
}
use vpp_wl_mobile.Service.{now, World, Python}
use vpp_wl_mobile.Service.Subscriptions.Paid.{v2ray_subscription-Paid}
use vpp_wl_mobile.Repository.Nodes.{list_nodes}
use vpp_wl_mobile.Models.{expires_after, is_paid, CommercialSubscription, is_usable, VpnNode}
use vpp_wl_mobile.Service.Sales.{commercial_subscription, require_active_commercial_subscription}
use vpp_wl_mobile.Repository.Commercial.{get_commercial_subscription}
use vpp_wl_mobile.Repository.{empty_repo}
use vpp_wl_mobile.Service.Subscriptions.{v2ray_subscription}
use vpp_wl_mobile.Links.Parser.{
  vless_options, UrlLibrary, Arguments, parse_vless_url, vless_node, starts_with, display_label,
}
use vpp_wl_mobile.Links.Subscription.Complete.{raw_subscription-Complete, HasLink}
use mathlib.Core.List.{Perm}
use Prim.Native.Char.{Char}
use vpp_wl_mobile.Errors.{ok}
use vpp_wl_mobile.Links.Slug.{
  is_separator, slugify, has_double, slug_characters, lstrip_dashes, rstrip_dashes, squeeze,
  replace_double,
}
use vpp_wl_mobile.Links.Slug.Squeezed.{starts_dash, ends_dash, slugify-squeezed}
use vpp_wl_mobile.Links.Parser.Imported.{parse_vless_url-linked}

abbrev not_separator : Char → Bool
not_separator c = not (is_separator c)

berlin_slug : slugify not_separator " berlin --- 1 " ≡ "berlin-1"
unfolding slugify slug_characters lstrip_dashes rstrip_dashes squeeze has_double replace_double
    str_len is_empty
berlin_slug = refl

slugify-squeezed_example :
    (has_double (slugify not_separator " berlin --- 1 ") ≡ false)
    × (starts_dash (slugify not_separator " berlin --- 1 ") ≡ false)
    × (ends_dash (slugify not_separator " berlin --- 1 ") ≡ false)
slugify-squeezed_example = slugify-squeezed not_separator " berlin --- 1 "

abbrev python : Python
python = record {
  repr = λ v. "";
  int_of = λ s. none;
  float_of = λ s. none;
  lower = λ s. s;
  isoformat = λ t. "";
  sha256_hex = λ s. s;
}

abbrev vless_text : String
vless_text = "vless://u1@host.example:443?security=tls#Berlin"

abbrev pub urls : UrlLibrary
urls = record {
  urlparse = λ s. ok (record {
    username = some "u1";
    hostname = some "host.example";
    port = ok (some 443);
    query = "security=tls";
    fragment = "Berlin";
  });
  unquote = λ s. s;
  parse_qs = λ s. ok (("security", "tls" ∷ []) ∷ []);
  upper = λ s. s;
  isalnum = not_separator;
}

abbrev pub links : LinkLibrary
links = record {
  quote = λ s. s;
  quote_all = λ s. s;
  urlencode = λ d. "";
  urlsplit = λ s. ok ("vless", "u1@host.example:443", "", "security=tls", "Berlin");
  urlunsplit =
      λ parts. concat (parts.0 ∷ "://" ∷ parts.1 ∷ parts.2 ∷ "?" ∷ parts.3 ∷ "#" ∷ parts.4 ∷ []);
  b64encode_utf8 = λ s. s;
}

abbrev arguments : Arguments
arguments = record {
  node_id = none;
  label = some "Berlin 1";
  priority = pos 10;
  enabled = true;
  country_code = "DE";
  region = "eu";
  provider = "3x-ui";
  source = "3x-ui";
  source_panel = "local-3x-ui";
  now = 7;
}

abbrev imported : VpnNode
imported =
    vless_node urls python arguments vless_text "u1" "host.example" "Berlin 1" 443
      (("security", "tls" ∷ []) ∷ [])

vless_text-parsed : parse_vless_url urls python arguments vless_text ≡ ok imported
unfolding parse_vless_url starts_with strip lstrip rstrip is_space is_empty display_label or_text
vless_text-parsed = refl

parse_vless_url-linked_example :
    (is_linked imported ≡ true)
    × (link_of links python imported imported.options
        ≡ ok (
            links.urlunsplit
              ("vless", "u1@host.example:443", "", "security=tls", links.quote imported.tag)))
parse_vless_url-linked_example =
    parse_vless_url-linked urls python arguments links vless_text imported "vless"
      "u1@host.example:443" "" "security=tls" "Berlin" refl vless_text-parsed refl refl

imported-linked : is_linked imported ≡ true
unfolding is_linked is_usable vless_node
imported-linked = refl

imported-HasLink : HasLink links python imported
unfolding vless_node link_of vless_link relabel is_empty or_text
imported-HasLink = ("vless://u1@host.example:443?security=tls#Berlin 1", refl)

imported-counted : 0 < length (keep is_linked (imported ∷ []))
imported-counted = rw imported-linked (omega arith)

imported-AllHasLink : All (HasLink links python) (keep is_linked (imported ∷ []))
imported-AllHasLink = rw imported-linked (imported-HasLink, tt)

raw_subscription-Complete_example :
    (served : List String) × (raw_subscription links python (imported ∷ []) ≡ ok (lines served))
    × (map (λ node. link_of links python node node.options) (active_vless_nodes (imported ∷ []))
        ≡ map ok served)
    × Perm (active_vless_nodes (imported ∷ [])) (keep is_linked (imported ∷ []))
    × IsSorted link_before (active_vless_nodes (imported ∷ []))
raw_subscription-Complete_example =
    raw_subscription-Complete links python (imported ∷ []) imported-counted imported-AllHasLink

abbrev paid : CommercialSubscription
paid = record {
  token = "tok";
  tariff_id = "m";
  status = "active";
  created_at = 1;
  updated_at = 1;
  expires_at = some 100;
  payment_id = none;
}

abbrev world : World
world = record {
  repo = record (empty_repo (("n1", imported) ∷ [])) {
    commercial_subscriptions_by_token = ("tok", paid) ∷ [];
  };
  clock = λ n. n + 9;
  reads = 0;
  random = λ n. "r";
  draws = 0;
}

abbrev answer : String
answer = "vless://u1@host.example:443?security=tls#Berlin 1\n"

world-answered : (v2ray_subscription links python "tok" world).0 ≡ ok answer
unfolding v2ray_subscription require_active_commercial_subscription commercial_subscription
    get_commercial_subscription vpp_wl_mobile.Prelude.Dict.get vpp_wl_mobile.Prelude.Dict.values
    is_paid expires_after now list_nodes encoded_subscription raw_subscription vless_links links_of
    link_of vless_link relabel active_vless_nodes sorted insert_sorted is_linked is_usable
    vless_node vless_options or_text is_empty lines concat
world-answered = refl

v2ray_subscription-Paid_example :
    (s : CommercialSubscription) × (get_commercial_subscription "tok" world.repo ≡ some s)
    × (is_paid s 9 ≡ true)
    × (encoded_subscription links python (list_nodes world.repo) ≡ ok answer)
v2ray_subscription-Paid_example =
    v2ray_subscription-Paid links python "tok" answer world world-answered
