-- ===== src/NodeConfig/Servable.antt =====
-- The nodes of the environment are nodes that a client configuration accepts.
use vpp_wl_mobile.Prelude.{
  inr, inl, Bool-cases, keep, Bool, arith, ℕ, String, ◌≡◌, refl, false, List, [], ◌∷◌, map, All,
  is_empty,
}
use vpp_wl_mobile.Prelude.Dict
use vpp_wl_mobile.Json.{Json}
use vpp_wl_mobile.Config.Validation.{contains}
use vpp_wl_mobile.Config.{tag_of}
use vpp_wl_mobile.Models.{VpnNode}
use vpp_wl_mobile.NodeConfig.{env_tag}
use vpp_wl_mobile.Config.Accepted.{DistinctTags, IsServable, reserved}
use vpp_wl_mobile.Errors.{Result, ok, raised}

-- What is returned, if anything is.
unfoldable pub Returns : {A : Type 0} → (A → Type 0) → Result A → Type 0
Returns P (ok a) = P a
Returns P (raised e) = Unit

-- What the tag of a number must be for its node to be accepted.
abbrev pub FitsTag : ℕ → Type 0
FitsTag n = (is_empty (env_tag n) ≡ false) × (contains (env_tag n) reserved ≡ false)

-- No two numbers have one tag.
abbrev pub SeparateTags : List ℕ → Type 0
SeparateTags [] = Unit
SeparateTags (n ∷ ns) = (contains (env_tag n) (map env_tag ns) ≡ false) × SeparateTags ns

-- Nodes that are fit for a configuration, with tags of the numbers only.
abbrev pub FitNodes : List ℕ → List VpnNode → Type 0
FitNodes ns nodes =
    All IsServable nodes
    × DistinctTags nodes
    × ((s : String) → contains s (map env_tag ns) ≡ false → contains s (map tag_of nodes) ≡ false)

abbrev AtNumber : ℕ → VpnNode → Type 0
AtNumber n m = (m.tag ≡ env_tag n) × IsServable m

-- A test leaves a fit list fit.
contains-keep :
    (s : String) (p : VpnNode → Bool) (ms : List VpnNode)
    → contains s (map tag_of ms) ≡ false
    → contains s (map tag_of (keep p ms)) ≡ false
contains-keep s p [] h = refl
contains-keep s p (m ∷ ms) h = ground (arith, contains-keep s p ms)

pub keep-All :
    (p : VpnNode → Bool) (ms : List VpnNode) → All IsServable ms → All IsServable (keep p ms)
keep-All p [] h = tt
keep-All p (m ∷ ms) h = elim (Bool-cases (p m)) [
  | inl e ↦ rw e (h.0, keep-All p ms h.1)
  | inr e ↦ rw e (keep-All p ms h.1)
]

pub keep-DistinctTags :
    (p : VpnNode → Bool) (ms : List VpnNode) → DistinctTags ms → DistinctTags (keep p ms)
keep-DistinctTags p [] h = tt
keep-DistinctTags p (m ∷ ms) h = elim (Bool-cases (p m)) [
  | inl e ↦ rw e (contains-keep m.tag p ms h.0, keep-DistinctTags p ms h.1)
  | inr e ↦ rw e (keep-DistinctTags p ms h.1)
]
