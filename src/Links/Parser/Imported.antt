-- ===== src/Links/Parser/Imported.antt =====
-- What becomes of a URL that is imported.
use vpp_wl_mobile.Prelude.{
  subst, ◌∙◌, ap, or_text, refl, sym, is_empty, false, or_else, Bool, List, ℕ, String, ◌≡◌, true,
  not, strip,
}
use vpp_wl_mobile.Prelude.Dict
use vpp_wl_mobile.Links.Subscription.{vless_link, relabel, link_of, is_linked, LinkLibrary}
use vpp_wl_mobile.Models.{is_usable, VpnNode}
use vpp_wl_mobile.Links.Parser.{
  vless_options, display_label, UrlLibrary, Arguments, parse_vless_url, vless_node, starts_with,
  checked_port,
}
use vpp_wl_mobile.Errors.Chain.{ok-inj, >>=-inv, fail_if-inv}
use vpp_wl_mobile.Errors.{ok}
use vpp_wl_mobile.Service.{Python}

is_true : (b : Bool) → not b ≡ false → b ≡ true
is_true true h = refl
is_true false h = sym h

module _ (url : UrlLibrary) (py : Python) (args : Arguments) where
  -- The parts that a node is made of, where the parsing succeeds.
  parse_vless_url-ok :
      (vless_url : String) (node : VpnNode)
      → parse_vless_url url py args vless_url ≡ ok node
      → (starts_with "vless://" (py.lower (strip vless_url)) ≡ true)
        × (uuid : String) × (host : String) × (label : String) × (port : ℕ) × (query : Dict.Dict
            (List String))
        × (vless_node url py args (strip vless_url) uuid host label port query ≡ node)
  unfolding parse_vless_url
  parse_vless_url-ok vless_url node h =
      let raw = strip vless_url in
      let (starts, h1) = fail_if-inv (not (starts_with "vless://" (py.lower raw))) _ _ node h in
      let (parsed, e2, h2) = >>=-inv (url.urlparse raw) _ node h1 in
      let (port, e3, h3) = >>=-inv parsed.port _ node h2 in
      let uuid = strip (url.unquote (or_else parsed.username "")) in
      let host = strip (or_else parsed.hostname "") in
      let (has_uuid, h4) = fail_if-inv (is_empty uuid) _ _ node h3 in
      let (has_host, h5) = fail_if-inv (is_empty host) _ _ node h4 in
      let (port', e6, h6) = >>=-inv (checked_port port) _ node h5 in
      let (query, e7, h7) = >>=-inv (url.parse_qs parsed.query) _ node h6 in
      (
        is_true (starts_with "vless://" (py.lower raw)) starts,
        uuid,
        host,
        display_label url py args parsed.fragment host,
        port',
        query,
        ok-inj h7,
      )

  or_text_self : (s : String) → or_text s s ≡ s
  unfolding or_text
  or_text_self String.[] = refl
  or_text_self (String.◌∷◌ c s) = refl

  vless_node-linked :
      (link : LinkLibrary) (raw uuid host label : String) (port : ℕ)
      (query : Dict.Dict (List String))
      → is_empty raw ≡ false
      → args.enabled ≡ true
      → let node = vless_node url py args raw uuid host label port query in
        (is_linked node ≡ true) × (link_of link py node node.options ≡ relabel link py raw node.tag)
  unfolding vless_node vless_options is_linked is_usable link_of vless_link
  vless_node-linked link raw uuid host label port query h enabled =
      (rw enabled refl, rw h (ap (relabel link py raw) (or_text_self label)))

  starts_with-empty :
      (s : String)
      → py.lower "" ≡ ""
      → starts_with "vless://" (py.lower s) ≡ true
      → is_empty s ≡ false
  unfolding starts_with is_empty
  starts_with-empty String.[] lower h =
      let wrong : false ≡ true = ap (starts_with "vless://") (sym lower) ∙ h in absurd (cc)
  starts_with-empty (String.◌∷◌ c s) lower h = refl

  -- A node that is parsed from a URL and enabled is served by the subscription, and its link is made:
  -- it is put together from the scheme, the location, the path and the query that `urlsplit` finds in
  -- the URL, with the quoted tag of the node as the fragment. `str.lower` is taken to keep the empty
  -- text, and `urlsplit` to split the URL, as it does where `urlparse` has parsed it.
  pub parse_vless_url-linked :
      (link : LinkLibrary) (vless_url : String) (node : VpnNode)
      (scheme netloc path query fragment : String)
      → py.lower "" ≡ ""
      → parse_vless_url url py args vless_url ≡ ok node
      → link.urlsplit (strip vless_url) ≡ ok (scheme, netloc, path, query, fragment)
      → args.enabled ≡ true
      → (is_linked node ≡ true)
        × (link_of link py node node.options
            ≡ ok (link.urlunsplit (scheme, netloc, path, query, link.quote node.tag)))
  unfolding relabel
  parse_vless_url-linked link vless_url node scheme netloc path query fragment lower h split
        enabled =
      let (starts, uuid, host, label, port, options, e) = parse_vless_url-ok vless_url node h in
      let (linked, made) =
        vless_node-linked link (strip vless_url) uuid host label port options
          (starts_with-empty (strip vless_url) lower starts) enabled in
      subst
        (λ (n : VpnNode).
          (is_linked n ≡ true)
          × (link_of link py n n.options
              ≡ ok (link.urlunsplit (scheme, netloc, path, query, link.quote n.tag))))
        e (linked, made ∙ rw split refl)
