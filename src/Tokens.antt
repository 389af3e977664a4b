-- ===== src/Tokens.antt =====
-- backend/app/security/tokens.py: access tokens that are signed with HMAC.
pub mod Segments
pub mod Verified
pub mod RoundTrip
use vpp_wl_mobile.Prelude.{
  ℕ, zero, suc, ◌+◌, ◌-◌, ◌%◌, String, not, ◌&&◌, Option, none, some, List, [], ◌∷◌, ◌==◌, ltb, leb,
  eqb, if◌then◌else◌, str_len, concat, is_empty,
}
use vpp_wl_mobile.Prelude.Dict
use vpp_wl_mobile.Prelude.Int.{ℤ}
use vpp_wl_mobile.Errors.{
  unicode_error, Result, ok, raised, value_error, type_error, key_error, overflow_error,
}
use Prim.Native.Char.{Char, code}
use Prim.Native.String.{◌++◌}
use vpp_wl_mobile.Json.{Json, object, entries, obj, str, int}
use vpp_wl_mobile.Errors.Chain.{◌>>=◌, ◌>>◌, fail_if, or_fail}
use vpp_wl_mobile.Repository.{max_datetime}
use vpp_wl_mobile.Service.{Python}
use vpp_wl_mobile.Service.Payload.{text, integer, compare_digest}

-- What the tokens use of Python's libraries; a value of `bytes` is a list of numbers. `none` is a
-- `ValueError` (`JSONDecodeError`, `UnicodeError` and `binascii.Error` are such).
-- `timestamp` is `int(t.timestamp())`, `fromtimestamp` is `datetime.fromtimestamp(n, tz=utc)`.
pub record Library : Type 0 where
  pub utf8 : String → List ℕ
  pub decode_utf8 : List ℕ → Option String
  pub ascii : String → Option (List ℕ)
  pub urlsafe_b64encode : List ℕ → String
  pub urlsafe_b64decode : List ℕ → Option (List ℕ)
  pub hmac_sha256 : List ℕ → List ℕ → List ℕ
  pub dumps : Json → String
  pub loads : String → Option Json
  pub timestamp : ℕ → ℤ
  pub fromtimestamp : ℤ → Result ℕ

pub record TokenClaims : Type 0 where
  pub subject : String
  pub expires_at : ℕ

-- The attributes of `TokenService`.
pub record TokenService : Type 0 where
  pub secret : List ℕ
  pub issuer : String

abbrev pub prepend : Char → Option (String × String) → Option (String × String)
prepend c none = none
prepend c (some (front, back)) = some (String.◌∷◌ c front, back)

-- `token.split(".", 1)`, if it has two parts.
unfoldable pub split_dot : String → Option (String × String)
split_dot String.[] = none
split_dot (String.◌∷◌ c s) =
    let rest = split_dot s in if eqb (code c) 46 then some (String.[], s) else prepend c rest

-- `segment.rstrip("=")`
unfoldable pub strip_padding : String → String
strip_padding String.[] = String.[]
strip_padding (String.◌∷◌ c s) =
    let rest = strip_padding s in
    if eqb (code c) 61 && is_empty rest then String.[] else String.◌∷◌ c rest

-- `"=" * n`
unfoldable pub padding : ℕ → String
padding zero = ""
padding (suc n) = String.◌∷◌ "=" (padding n)

abbrev pub token_error : {A : Type 0} → String → Result A
token_error message = raised (value_error message)

-- `payload[key]`
unfoldable pub subscript : String → Json → Result Json
subscript key (obj fs) = or_fail (Dict.get key (entries fs)) key_error
subscript key _ = raised type_error

-- `except (KeyError, TypeError, ValueError, json.JSONDecodeError)`
unfoldable pub or_invalid_payload : {A : Type 0} → Result A → Result A
or_invalid_payload (raised key_error) = token_error "invalid token payload"
or_invalid_payload (raised type_error) = token_error "invalid token payload"
or_invalid_payload (raised (value_error m)) = token_error "invalid token payload"
or_invalid_payload (raised unicode_error) = token_error "invalid token payload"
or_invalid_payload r = r

module _ (lib : Library) where
  -- `_b64encode`
  unfoldable pub b64encode : List ℕ → String
  unfolding strip_padding
  b64encode raw = strip_padding (lib.urlsafe_b64encode raw)

  -- `_b64decode`
  unfoldable pub b64decode : String → Result String
  unfolding padding str_len
  b64decode segment = do
    ascii ← or_fail (lib.ascii (segment ++ padding ((4 - str_len segment % 4) % 4))) unicode_error
    raw ← or_fail (lib.urlsafe_b64decode ascii) (value_error "Incorrect padding")
    or_fail (lib.decode_utf8 raw) unicode_error

  -- `_sign`
  unfoldable pub sign : TokenService → String → Result String
  unfolding b64encode
  sign service payload_segment = do
    ascii ← or_fail (lib.ascii payload_segment) unicode_error
    ok (b64encode (lib.hmac_sha256 service.secret ascii))

  abbrev pub claims_payload : TokenService → String → ℕ → Json
  claims_payload service subject expires_at = object (
      ("iss", str service.issuer)
      ∷ ("sub", str subject)
      ∷ ("exp", int (lib.timestamp expires_at))
      ∷ [])

  -- `issue`, at the time `now`.
  unfoldable pub issue : TokenService → String → ℕ → ℕ → Result String
  unfolding b64encode sign
  issue service subject ttl now = do
    fail_if (ltb max_datetime (now + ttl)) overflow_error
    let payload_segment =
        b64encode (lib.utf8 (lib.dumps (claims_payload service subject (now + ttl))))
    signature ← sign service payload_segment
    ok (payload_segment ++ String.◌∷◌ "." signature)

  -- What the second `try` of `verify` computes: the subject, the issuer and the time of expiry.
  unfoldable pub read_payload : Python → String → Result (String × String × ℕ)
  unfolding b64decode subscript text integer
  read_payload py payload_segment = do
    document ← b64decode payload_segment
    payload ← or_fail (lib.loads document) (value_error "Expecting value")
    sub ← subscript "sub" payload
    iss ← subscript "iss" payload
    exp ← subscript "exp" payload
    seconds ← integer py exp
    expires_at ← lib.fromtimestamp seconds
    ok (text py sub, text py iss, expires_at)

  unfoldable pub verify_parts : Python → TokenService → ℕ → String → String → Result TokenClaims
  unfolding sign compare_digest or_invalid_payload read_payload
  verify_parts py service now payload_segment signature = do
    expected ← sign service payload_segment
    same ← compare_digest signature expected
    fail_if (not same) (value_error "invalid token signature")
    (subject, issuer, expires_at) ← or_invalid_payload (read_payload py payload_segment)
    fail_if (not (issuer == service.issuer)) (value_error "invalid token issuer")
    fail_if (leb expires_at now) (value_error "expired token")
    ok (record { subject = subject; expires_at = expires_at })

  -- `verify`, at the time `now`.
  unfoldable pub verify : Python → TokenService → ℕ → String → Result TokenClaims
  unfolding split_dot verify_parts
  verify py service now token = elim (split_dot token) [
    | none ↦ token_error "malformed token"
    | some (payload_segment, signature) ↦ verify_parts py service now payload_segment signature
  ]

-- `TokenService.__init__`
unfoldable pub new_token_service : Library → String → String → Result TokenService
unfolding str_len
new_token_service lib secret issuer = do
  fail_if (ltb (str_len secret) 16) (value_error "token secret must be at least 16 characters")
  ok (record { secret = lib.utf8 secret; issuer = issuer })
