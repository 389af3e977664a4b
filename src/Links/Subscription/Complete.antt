-- ===== src/Links/Subscription/Complete.antt =====
-- Every usable VLESS node has its line in the subscription.
use vpp_wl_mobile.Prelude.{
  false, eqb, ltb, ℕ, keep, map, ◌<◌, String, ◌≡◌, refl, List, [], ◌∷◌, arith, length, All,
}
use vpp_wl_mobile.Prelude.Order.{
  ltb_text, IsOrder, by_key-IsOrder, lex-IsOrder, gtb-IsOrder, ltb_ℤ-IsOrder, ltb_text-IsOrder,
}
use vpp_wl_mobile.Prelude.Int.{ltb_ℤ}
use vpp_wl_mobile.Prelude.Sort.{IsSorted, sorted-All, sorted-Perm, sorted-IsSorted, length-sorted}
use mathlib.Core.List.{Perm}
use vpp_wl_mobile.Errors.{ok}
use vpp_wl_mobile.Models.{VpnNode}
use vpp_wl_mobile.Service.{Python}
use vpp_wl_mobile.Links.Subscription.{
  LinkLibrary, link_before, is_linked, active_vless_nodes, link_of, links_of, vless_links, lines,
  raw_subscription,
}

link_before-IsOrder : IsOrder link_before
unfolding link_before
link_before-IsOrder =
    lex-IsOrder _ _ (by_key-IsOrder ltb_ℤ (λ (n : VpnNode). n.priority) ltb_ℤ-IsOrder) (
      lex-IsOrder _ _
        (by_key-IsOrder (λ (a b : ℕ). ltb b a) (λ (n : VpnNode). n.health_score) gtb-IsOrder)
        (by_key-IsOrder ltb_text (λ (n : VpnNode). n.tag) ltb_text-IsOrder))

module _ (url : LinkLibrary) (py : Python) where
  -- A node whose link can be made.
  abbrev pub HasLink : VpnNode → Type 0
  HasLink node = (link : String) × (link_of url py node node.options ≡ ok link)

  links_of-links :
      (nodes : List VpnNode)
      → All HasLink nodes
      → (links : List String) × (links_of url py nodes ≡ ok links)
        × (length links ≡ length nodes)
        × (map (λ node. link_of url py node node.options) nodes ≡ map ok links)
  unfolding links_of
  links_of-links [] h = ([], refl, refl, refl)
  links_of-links (node ∷ nodes) ((link, e), h) =
      let t = links_of-links nodes h in
      (link ∷ t.0, rw e (rw (t.1) refl), omega (arith, t.2), λ i. e i ∷ t.3 i)

  -- Where some node is usable and has the options of VLESS, and each such node has a link, the
  -- subscription is made, and of exactly one line for each of these nodes, in the order of their
  -- priority, their health score downward and their tag.
  pub raw_subscription-Complete :
      (nodes : List VpnNode)
      → 0 < length (keep is_linked nodes)
      → All HasLink (keep is_linked nodes)
      → (links : List String) × (raw_subscription url py nodes ≡ ok (lines links))
        × (map (λ node. link_of url py node node.options) (active_vless_nodes nodes) ≡ map ok links)
        × Perm (active_vless_nodes nodes) (keep is_linked nodes)
        × IsSorted link_before (active_vless_nodes nodes)
  unfolding raw_subscription vless_links active_vless_nodes
  raw_subscription-Complete nodes some_node h =
      let kept = keep is_linked nodes in
      let t = links_of-links (active_vless_nodes nodes) (sorted-All link_before HasLink kept h) in
      let many : eqb (length t.0) 0 ≡ false = ground (arith, t.2, length-sorted link_before kept) in
      (
        t.0,
        rw (t.1) (rw many refl),
        t.3,
        sorted-Perm link_before kept,
        sorted-IsSorted link_before link_before-IsOrder kept,
      )
