-- ===== src/Config/Shape.antt =====
-- A configuration for servable nodes with different tags is built, and is of the valid shape.
use vpp_wl_mobile.Prelude.{
  inr, eq_iff, arith, inl, Bool-cases, ◌≢◌, String, ◌≡◌, refl, ◌∙◌, false, List, [], ◌∷◌, map,
}
use vpp_wl_mobile.Prelude.Dict
use vpp_wl_mobile.Prelude.Sort.{sorted, insert_sorted}
use vpp_wl_mobile.Json.{Json}
use vpp_wl_mobile.Models.{VpnNode}
use vpp_wl_mobile.Nodes.{before}
use vpp_wl_mobile.Config.{tag_of}
use vpp_wl_mobile.Config.Validation.{contains}
use vpp_wl_mobile.Config.Accepted.{DistinctTags, onto}

abbrev final_tags : List VpnNode → List String
final_tags ns = "block" ∷ "direct" ∷ onto ns ("auto" ∷ [])

contains-insert_sorted :
    (s : String) (x : VpnNode) (ns : List VpnNode)
    → contains s (map tag_of (insert_sorted before x ns)) ≡ contains s (map tag_of (x ∷ ns))
unfolding insert_sorted
contains-insert_sorted s x [] = refl
contains-insert_sorted s x (n ∷ ns) = elim (Bool-cases (before n x)) [
  | inl e ↦ rw e (ground (arith, contains-insert_sorted s x ns))
  | inr e ↦ rw e refl
]

insert_sorted-DistinctTags :
    (x : VpnNode) (ns : List VpnNode)
    → contains x.tag (map tag_of ns) ≡ false
    → DistinctTags ns
    → DistinctTags (insert_sorted before x ns)
unfolding insert_sorted
insert_sorted-DistinctTags x [] h d = (refl, tt)
insert_sorted-DistinctTags x (n ∷ ns) h d = elim (Bool-cases (before n x)) [
  | inl e ↦ rw e (
    contains-insert_sorted n.tag x ns ∙ ground (arith, eq_iff x.tag n.tag, eq_iff n.tag x.tag, d.0),
    insert_sorted-DistinctTags x ns (ground arith) d.1,
  )
  | inr e ↦ rw e (h, d)
]

contains-sorted :
    (s : String) (ns : List VpnNode)
    → contains s (map tag_of (sorted before ns)) ≡ contains s (map tag_of ns)
unfolding sorted
contains-sorted s [] = refl
contains-sorted s (n ∷ ns) =
    contains-insert_sorted s n (sorted before ns) ∙ rw (contains-sorted s ns) refl

pub sorted-DistinctTags : (ns : List VpnNode) → DistinctTags ns → DistinctTags (sorted before ns)
unfolding sorted
sorted-DistinctTags [] d = tt
sorted-DistinctTags (n ∷ ns) d =
    insert_sorted-DistinctTags n (sorted before ns) (contains-sorted n.tag ns ∙ d.0)
      (sorted-DistinctTags ns d.1)

insert_sorted-ne : (x : VpnNode) (ns : List VpnNode) → insert_sorted before x ns ≢ []
unfolding insert_sorted
insert_sorted-ne x [] e = cc
insert_sorted-ne x (n ∷ ns) e = ground arith

pub sorted-empty : (ns : List VpnNode) → sorted before ns ≡ [] → ns ≡ []
unfolding sorted
sorted-empty [] e = refl
sorted-empty (n ∷ ns) e = absurd (insert_sorted-ne n (sorted before ns) e)
