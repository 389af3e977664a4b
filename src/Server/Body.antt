-- ===== src/Server/Body.antt =====
-- How backend/app/api/server.py reads the body of a request.
use vpp_wl_mobile.Prelude.{
  ℕ, String, Option, none, some, List, [], ◌∷◌, if◌then◌else◌, is_some, take, or_text,
}
use vpp_wl_mobile.Prelude.Dict
use vpp_wl_mobile.Prelude.Int.{ℤ, pos, negsuc}
use vpp_wl_mobile.Json.{Json, obj, entries, str}
use vpp_wl_mobile.Errors.{Result, ok, raised, value_error, unicode_error, pure, raise}
use vpp_wl_mobile.Errors.Chain.{◌>>=◌, or_fail}
use vpp_wl_mobile.Service.Payload.{Payload}
use vpp_wl_mobile.Server.{App, Request, Handler, header_or, send_json}
use vpp_wl_mobile.Server.Paths.{split_once}

-- A payload, or the message that the request is refused with.
pub data Body : Type 0 where
  payload : Payload → Body
  refused : String → Body

-- `self.rfile.read(n)`: a negative number reads to the end.
abbrev pub read_bytes : ℤ → List ℕ → List ℕ
read_bytes (pos n) body = take n body
read_bytes (negsuc n) body = body

module _ (app : App) (req : Request) where
  -- `self.rfile.read(content_length).decode("utf-8")`
  unfoldable pub read_text : Result String
  unfolding or_text
  read_text = do
    content_length ←
        or_fail (app.py.int_of (or_text (header_or req "Content-Length" "0") "0"))
          (value_error "invalid literal for int()")
    or_fail (app.codec.decode_utf8 (read_bytes content_length req.body)) unicode_error

  -- The value of a body that is JSON, if it is.
  unfoldable pub json_body : Option Json → Body
  unfolding entries
  json_body none = refused "invalid JSON"
  json_body (some (obj fields)) = payload (entries fields)
  json_body (some v) = refused "JSON object expected"

  -- `_read_json`
  unfoldable pub read_json : Result Body
  unfolding read_text json_body or_text
  read_json = do text ← read_text; ok (json_body (app.codec.loads (or_text text "{}")))

  -- `values[-1] if values else ""`
  abbrev pub last_value : List String → String
  last_value [] = ""
  last_value (v ∷ []) = v
  last_value (v ∷ w ∷ values) = last_value (w ∷ values)

  unfoldable pub form_payload : Dict.Dict (List String) → Payload
  form_payload [] = []
  form_payload ((key, values) ∷ rest) = (key, str (last_value values)) ∷ form_payload rest

  -- `_read_form_or_json`
  unfoldable pub read_form_or_json : Result Body
  unfolding read_json read_text form_payload split_once
  read_form_or_json =
      let form = (do
        text ← read_text
        parsed ← or_fail (app.form text) (value_error "Max number of fields exceeded")
        ok (payload (form_payload parsed))) in
      if is_some (split_once "application/json" (header_or req "Content-Type" ""))
      then read_json
      else form

  -- `if payload is None: return`, before what is done with the payload.
  unfoldable pub with_payload : Result Body → (Payload → Handler) → Handler
  unfolding send_json
  with_payload (ok (payload p)) handle = handle p
  with_payload (ok (refused message)) handle =
      pure (send_json app req 400 (("error", str message) ∷ []))
  with_payload (raised e) handle = raise e
