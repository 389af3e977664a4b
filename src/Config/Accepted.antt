-- ===== src/Config/Accepted.antt =====
-- What `build_client_config` builds passes `validate_config_shape`.
use vpp_wl_mobile.Prelude.{
  ◌∙◌, ap, length, eq_iff, ◌+◌, ◌++◌, arith, ℕ, String, ◌≡◌, refl, Bool, true, false, List, [], ◌∷◌,
  map, All, is_empty,
}
use vpp_wl_mobile.Prelude.Dict
use vpp_wl_mobile.Json.{Json, str, object, entries-fields}
use vpp_wl_mobile.Errors.{ok}
use vpp_wl_mobile.Models.{VpnNode, Protocol, NodeOptions}
use vpp_wl_mobile.Config.{node_to_outbound, proxy_outbounds, outbound_for, tag_of}
use vpp_wl_mobile.Config.Validation.{
  contains, value_at, outbound_types, outbound_tag, outbound_tags,
}

-- The node has the options of its protocol, as every node has that the program makes.
abbrev pub matches : Protocol → NodeOptions → Bool
matches Protocol.vless (NodeOptions.vless o) = true
matches Protocol.shadowsocks (NodeOptions.shadowsocks o) = true
matches Protocol.wireguard (NodeOptions.wireguard o) = true
matches Protocol.hysteria2 (NodeOptions.hysteria2 o) = true
matches _ _ = false

-- The tags that the configuration takes for itself.
abbrev pub reserved : List String
reserved = "auto" ∷ "direct" ∷ "block" ∷ []

-- What a node needs for its outbound to be accepted.
abbrev pub IsServable : VpnNode → Type 0
IsServable n =
    (matches n.protocol n.options ≡ true)
    × (is_empty n.tag ≡ false)
    × (contains n.tag reserved ≡ false)

-- No two nodes have one tag.
abbrev pub DistinctTags : List VpnNode → Type 0
DistinctTags [] = Unit
DistinctTags (n ∷ ns) = (contains n.tag (map tag_of ns) ≡ false) × DistinctTags ns

-- The outbound of a node, as the validation sees it.
abbrev pub IsOutboundOf : VpnNode → Dict.Dict Json → Type 0
IsOutboundOf n d =
    (value_at "tag" d ≡ str n.tag)
    × ((type : String) × (value_at "type" d ≡ str type)
        × (is_empty type ≡ false)
        × (contains type outbound_types ≡ true))

node_outbound :
    (n : VpnNode) (p : Protocol) (o : NodeOptions)
    → matches p o ≡ true
    → (d : Dict.Dict Json) × (outbound_for p o n ≡ ok d) × IsOutboundOf n d
unfolding outbound_for Dict.get is_empty
node_outbound n Protocol.vless (NodeOptions.vless o) h =
    (_, refl, (refl, ("vless", refl, refl, refl)))
node_outbound n Protocol.shadowsocks (NodeOptions.shadowsocks o) h =
    (_, refl, (refl, ("shadowsocks", refl, refl, refl)))
node_outbound n Protocol.wireguard (NodeOptions.wireguard o) h =
    (_, refl, (refl, ("wireguard", refl, refl, refl)))
node_outbound n Protocol.hysteria2 (NodeOptions.hysteria2 o) h =
    (_, refl, (refl, ("hysteria2", refl, refl, refl)))
node_outbound n _ _ h = cc

-- The outbounds of nodes, one by one.
abbrev pub AreOutboundsOf : List VpnNode → List (Dict.Dict Json) → Type 0
AreOutboundsOf [] [] = Unit
AreOutboundsOf (n ∷ ns) (d ∷ ds) = IsOutboundOf n d × AreOutboundsOf ns ds
AreOutboundsOf _ _ = ⊥

pub All-built :
    (ns : List VpnNode)
    → All IsServable ns
    → (ds : List (Dict.Dict Json)) × (proxy_outbounds ns ≡ ok ds) × AreOutboundsOf ns ds
unfolding proxy_outbounds node_to_outbound
All-built [] h = ([], refl, tt)
All-built (n ∷ ns) h =
    let (d, made, fits) = node_outbound n n.protocol n.options h.0.0 in
    let (ds, rest, all_fit) = All-built ns h.1 in (d ∷ ds, rw (made, rest) refl, (fits, all_fit))

tag_accepted :
    (i : ℕ) (tags : List String) (n : VpnNode) (d : Dict.Dict Json)
    → IsOutboundOf n d
    → is_empty n.tag ≡ false
    → contains n.tag tags ≡ false
    → outbound_tag i tags (object d) ≡ ok n.tag
unfolding outbound_tag
tag_accepted i tags n d (t, (type, ty, full, known)) nonempty fresh =
    rw entries-fields (rw ty (rw full (rw t (rw nonempty (rw known (rw fresh refl))))))

-- The tags of nodes, the last one first, in front of those before.
abbrev pub onto : List VpnNode → List String → List String
onto [] tags = tags
onto (n ∷ ns) tags = onto ns (n.tag ∷ tags)

pub contains-onto :
    (s : String) (ns : List VpnNode) (tags : List String)
    → contains s tags ≡ true
    → contains s (onto ns tags) ≡ true
contains-onto s [] tags h = h
contains-onto s (n ∷ ns) tags h = contains-onto s ns (n.tag ∷ tags) (ground arith)

-- None of the nodes has a tag of the list.
abbrev pub Avoids : List VpnNode → List String → Type 0
Avoids [] tags = Unit
Avoids (n ∷ ns) tags = (contains n.tag tags ≡ false) × Avoids ns tags

Avoids-cons :
    (n : VpnNode) (ns : List VpnNode) (tags : List String)
    → contains n.tag (map tag_of ns) ≡ false
    → Avoids ns tags
    → Avoids ns (n.tag ∷ tags)
Avoids-cons n [] tags h k = tt
Avoids-cons n (m ∷ ns) tags h k = (
  ground (arith, eq_iff n.tag m.tag, eq_iff m.tag n.tag),
  Avoids-cons n ns tags (ground arith) k.1,
)

-- The loop over the outbounds of nodes, with more behind them.
pub tags_accepted :
    (i : ℕ) (tags : List String) (ns : List VpnNode) (ds more : List (Dict.Dict Json))
    → AreOutboundsOf ns ds
    → All IsServable ns
    → DistinctTags ns
    → Avoids ns tags
    → outbound_tags i tags (map object (ds ++ more))
      ≡ outbound_tags (i + length ns) (onto ns tags) (map object more)
unfolding outbound_tags
tags_accepted i tags [] [] more fit h d a =
    ap (λ k. outbound_tags k tags (map object more)) (omega arith)
tags_accepted i tags [] (x ∷ ds) more fit h d a = absurd fit
tags_accepted i tags (n ∷ ns) [] more fit h d a = absurd fit
tags_accepted i tags (n ∷ ns) (x ∷ ds) more fit h d a =
    rw (tag_accepted i tags n x fit.0 h.0.1 a.0) (
      tags_accepted (i + 1) (n.tag ∷ tags) ns ds more fit.1 h.1 d.1 (Avoids-cons n ns tags d.0 a.1)
      ∙ ap (λ k. outbound_tags k (onto ns (n.tag ∷ tags)) (map object more)) (omega arith))

pub Avoids-auto : (ns : List VpnNode) → All IsServable ns → Avoids ns ("auto" ∷ [])
Avoids-auto [] h = tt
Avoids-auto (n ∷ ns) h = (ground (arith, h.0.2), Avoids-auto ns h.1)

pub fresh_in_onto :
    (s : String) (ns : List VpnNode) (tags : List String)
    → contains s (map tag_of ns) ≡ false
    → contains s tags ≡ false
    → contains s (onto ns tags) ≡ false
fresh_in_onto s [] tags h k = k
fresh_in_onto s (n ∷ ns) tags h k = fresh_in_onto s ns (n.tag ∷ tags) (ground arith) (ground arith)

pub plain_fresh :
    (s : String) (ns : List VpnNode)
    → contains s reserved ≡ true
    → All IsServable ns
    → contains s (map tag_of ns) ≡ false
plain_fresh s [] r h = refl
plain_fresh s (n ∷ ns) r h = ground (arith, h.0.2, plain_fresh s ns r h.1, eq_iff n.tag s)
