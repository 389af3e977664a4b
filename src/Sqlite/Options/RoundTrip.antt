-- ===== src/Sqlite/Options/RoundTrip.antt =====
-- Options that are written are read back.
use vpp_wl_mobile.Prelude.{ℕ, String, ◌≡◌, refl, ap, Option, none, some, List, [], ◌∷◌, map}
use vpp_wl_mobile.Prelude.Dict
use vpp_wl_mobile.Json.{Json, nat, str, object, array, texts, entries-fields, elements-items}
use vpp_wl_mobile.Errors.{ok}
use vpp_wl_mobile.Models.{VlessOptions, WireGuardOptions}
use vpp_wl_mobile.Service.Views.{or_null}
use vpp_wl_mobile.Sqlite.Options.{
  as_text, as_optional_text, as_optional_dict, as_number, each, as_texts, as_optional_numbers,
  vless_payload, wireguard_payload, vless_from, wireguard_from,
}

optional_text_lem : (o : Option String) → as_optional_text (or_null str o) ≡ ok o
optional_text_lem none = refl
optional_text_lem (some s) = refl

optional_dict_lem : (o : Option (Dict.Dict Json)) → as_optional_dict (or_null object o) ≡ ok o
optional_dict_lem none = refl
optional_dict_lem (some d) = ap (λ x. ok (some x)) (entries-fields d)

each-texts : (ss : List String) → each as_text (map str ss) ≡ ok ss
unfolding each
each-texts [] = refl
each-texts (s ∷ ss) = rw (each-texts ss) refl

each-numbers : (ns : List ℕ) → each as_number (map nat ns) ≡ ok ns
unfolding each
each-numbers [] = refl
each-numbers (n ∷ ns) = rw (each-numbers ns) refl

texts_lem : (ss : List String) → as_texts (texts ss) ≡ ok ss
unfolding as_texts
texts_lem ss = rw (elements-items (map str ss)) (each-texts ss)

optional_numbers_lem :
    (o : Option (List ℕ)) → as_optional_numbers (or_null (λ ns. array (map nat ns)) o) ≡ ok o
unfolding as_optional_numbers
optional_numbers_lem none = refl
optional_numbers_lem (some ns) = rw (elements-items (map nat ns)) (rw (each-numbers ns) refl)

pub vless_from_lem : (o : VlessOptions) → vless_from (vless_payload o) ≡ ok o
unfolding vless_from vless_payload vpp_wl_mobile.Prelude.Dict.get
vless_from_lem o =
    rw
      (
        optional_text_lem o.flow,
        optional_dict_lem o.transport,
        optional_dict_lem o.reality,
        optional_text_lem o.public_key,
        optional_text_lem o.short_id,
        optional_text_lem o.label,
        optional_text_lem o.raw_url,
        optional_text_lem o.source_panel,
      )
      refl

pub wireguard_from_lem : (o : WireGuardOptions) → wireguard_from (wireguard_payload o) ≡ ok o
unfolding wireguard_from wireguard_payload vpp_wl_mobile.Prelude.Dict.get
wireguard_from_lem o = rw (texts_lem o.local_address, optional_numbers_lem o.reserved) refl
