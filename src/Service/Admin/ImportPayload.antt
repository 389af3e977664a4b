-- ===== src/Service/Admin/ImportPayload.antt =====
-- What `admin_import_vless` of backend/app/api/service.py makes of its payload.
use vpp_wl_mobile.Prelude.{ℕ, String, true, Option, none, [], ◌∷◌, if◌then◌else◌, concat, strip}
use vpp_wl_mobile.Service.Payload.{stripped, Payload, value_or, truth, text, integer}
use vpp_wl_mobile.Json.{null, nat, str, bool}
use vpp_wl_mobile.Errors.{Result, ok, raised, api, bad_request, value_error}
use vpp_wl_mobile.Errors.Chain.{◌>>=◌}
use vpp_wl_mobile.Models.{VpnNode}
use vpp_wl_mobile.Service.{Python}
use vpp_wl_mobile.Service.Admin.NodePayload.{or_none}
use vpp_wl_mobile.Links.Parser.{UrlLibrary, Arguments, parse_vless_url}

-- `except (VlessParseError, ValueError) as exc`
abbrev pub invalid_url : {A : Type 0} → Result A → Result A
invalid_url (raised (value_error message)) =
    raised (api bad_request (concat ("invalid vless_url: " ∷ message ∷ [])))
invalid_url r = r

module _ (url : UrlLibrary) (py : Python) where
  -- `_opt_str(payload.get(key))`
  unfoldable pub opt_str : String → Payload → Option String
  unfolding text strip
  opt_str key payload = elim (value_or key null payload) [
    | null ↦ none
    | v ↦ or_none (strip (text py v))
  ]

  -- `str(payload.get(key, default) or default)`
  unfoldable pub text_or_default : String → String → Payload → String
  unfolding truth text
  text_or_default key default payload =
      let v = value_or key (str default) payload in if truth v then text py v else default

  unfoldable pub import_arguments : Payload → ℕ → Result Arguments
  unfolding opt_str text_or_default integer truth
  import_arguments payload at = do
    priority ← integer py (value_or "priority" (nat 100) payload)
    ok (record {
      node_id = opt_str "id" payload;
      label = opt_str "label" payload;
      priority = priority;
      enabled = truth (value_or "enabled" (bool true) payload);
      country_code = text_or_default "country_code" "XX" payload;
      region = text_or_default "region" "unknown" payload;
      provider = "3x-ui";
      source = text_or_default "source" "3x-ui" payload;
      source_panel = text_or_default "source_panel" "local-3x-ui" payload;
      now = at;
    })

  -- The `try` of the method, for `str(payload.get("vless_url", "")).strip()`.
  unfoldable pub imported_node : Payload → ℕ → Result VpnNode
  unfolding import_arguments parse_vless_url stripped
  imported_node payload at = invalid_url (do
    args ← import_arguments payload at
    parse_vless_url url py args (stripped py "vless_url" "" payload))
