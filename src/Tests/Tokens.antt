-- ===== src/Tests/Tokens.antt =====
-- Access tokens at a concrete payload, with libraries that know this payload.
use vpp_wl_mobile.Prelude.{
  true, is_some, ◌<◌, ℕ, ◌+◌, ◌-◌, ◌*◌, ◌/◌, String, ◌≡◌, refl, none, some, List, [], ◌∷◌, arith,
  leb, eqb, if◌then◌else◌, length, take, str_len, is_empty,
}
use vpp_wl_mobile.Prelude.Int.{pos_part, pos}
use vpp_wl_mobile.Service.Authorization.Bearer.{user_id_from_authorization-Known}
use vpp_wl_mobile.Repository.Users.{get_user}
use vpp_wl_mobile.Repository.{empty_repo}
use vpp_wl_mobile.Service.Authorization.{partition, user_id_from_authorization}
use vpp_wl_mobile.Service.{World, Python}
use vpp_wl_mobile.Tokens.{
  TokenClaims, subscript, b64decode, or_invalid_payload, b64encode, read_payload, split_dot, sign,
  verify_parts, Library, TokenService, issue, verify, strip_padding, padding,
}
use vpp_wl_mobile.Service.Payload.{compare_digest, integer, text, is_ascii}
use vpp_wl_mobile.Tokens.Verified.{verify-Authentic}
use mathlib.Core.List.{◌++◌ as ◌⧺◌}
use Prim.Native.String.{◌++◌}
use vpp_wl_mobile.Json.{int, str, object, Json}
use Prim.Native.Char.{code}
use vpp_wl_mobile.Errors.{ok, raised, value_error}
use vpp_wl_mobile.Errors.Chain.{◌>>=◌}
use vpp_wl_mobile.Tokens.Segments.{has_dot}
use vpp_wl_mobile.Tokens.RoundTrip.{IsBase64, Documented, issue-verify}

unfoldable pub codes : String → List ℕ
codes String.[] = []
codes (String.◌∷◌ c s) = code c ∷ codes s

-- 1970-01-01 as a number of microseconds since datetime.min, and 12 hours.
abbrev pub epoch : ℕ
epoch = 62_135_596_800_000_000

abbrev half_day : ℕ
half_day = 43_200_000_000

abbrev json_text : String
json_text = "{\"iss\":\"vpn-router\",\"sub\":\"usr_1\",\"exp\":43200}"

abbrev json_encoded : String
json_encoded = "eyJpc3MiOiJ2cG4tcm91dGVyIiwic3ViIjoidXNyXzEiLCJleHAiOjQzMjAwfQ=="

abbrev digest_encoded : String
digest_encoded = "dGVzdC1zZWNyZXQtd2l0aC1sZW5ndGhleUpwYzNNaU8="

abbrev json_base64 : String
json_base64 = "eyJpc3MiOiJ2cG4tcm91dGVyIiwic3ViIjoidXNyXzEiLCJleHAiOjQzMjAwfQ"

abbrev digest_base64 : String
digest_base64 = "dGVzdC1zZWNyZXQtd2l0aC1sZW5ndGhleUpwYzNNaU8"

abbrev pub python : Python
python = record {
  repr = λ v. "";
  int_of = λ s. none;
  float_of = λ s. none;
  lower = λ s. s;
  isoformat = λ t. "";
  sha256_hex = λ s. s;
}

-- The payload whose text is `json_text`.
abbrev json_value : Json
json_value =
    object (("iss", str "vpn-router") ∷ ("sub", str "usr_1") ∷ ("exp", int (pos 43_200)) ∷ [])

abbrev pub library : Library
library = record {
  utf8 = codes;
  decode_utf8 = λ bytes. some json_text;
  ascii = λ s. if is_ascii s then some (codes s) else none;
  urlsafe_b64encode = λ bytes. if eqb (length bytes) 32 then digest_encoded else json_encoded;
  urlsafe_b64decode = λ bytes. some (codes json_text);
  hmac_sha256 = λ key message. take 32 (key ⧺ message);
  dumps = λ v. json_text;
  loads = λ s. some json_value;
  timestamp = λ t. pos ((t - epoch) / 1_000_000);
  fromtimestamp = λ n. ok (epoch + pos_part n * 1_000_000);
}

abbrev pub service : TokenService
service = record { secret = codes "test-secret-with-length"; issuer = "vpn-router" }

json_base64-IsBase64 : IsBase64 (json_encoded) json_base64 2
unfolding strip_padding has_dot is_ascii str_len is_empty padding
json_base64-IsBase64 = record {
  whole = refl;
  short = omega arith;
  fours = refl;
  bare = refl;
  plain = refl;
  in_ascii = refl;
}

digest_base64-IsBase64 : IsBase64 (digest_encoded) digest_base64 1
unfolding strip_padding has_dot is_ascii str_len is_empty padding
digest_base64-IsBase64 = record {
  whole = refl;
  short = omega arith;
  fours = refl;
  bare = refl;
  plain = refl;
  in_ascii = refl;
}

library-Documented :
    Documented library python service "usr_1" half_day epoch
      (epoch + half_day)
      json_base64
      digest_base64
      2
      1
      (codes json_base64)
      (codes (json_encoded))
unfolding codes is_ascii padding
library-Documented = record {
  encoded = json_base64-IsBase64;
  core_ascii = refl;
  encoded_ascii = refl;
  decoded = refl;
  utf8_decoded = refl;
  loaded = refl;
  signed = digest_base64-IsBase64;
  expiry = refl;
}

-- One second before it expires.
issue-verify_example :
    (issue library service "usr_1" half_day epoch
      >>= verify library python service (epoch + half_day - 1_000_000))
    ≡ (if leb (epoch + half_day) (epoch + half_day - 1_000_000)
        then raised (value_error "expired token")
        else ok (record { subject = "usr_1"; expires_at = epoch + half_day }))
issue-verify_example =
    issue-verify library python service "usr_1" half_day epoch (epoch + half_day) json_base64
      digest_base64 2 1 (codes json_base64) (codes (json_encoded)) library-Documented
      (epoch + half_day - 1_000_000) (omega arith)

abbrev token : String
token =
    "eyJpc3MiOiJ2cG4tcm91dGVyIiwic3ViIjoidXNyXzEiLCJleHAiOjQzMjAwfQ.dGVzdC1zZWNyZXQtd2l0aC1sZW5ndGhleUpwYzNNaU8"

token_accepted :
    verify library python service epoch token
    ≡ ok (record { subject = "usr_1"; expires_at = epoch + half_day })
unfolding verify verify_parts split_dot sign b64encode strip_padding is_ascii is_empty codes
    or_invalid_payload read_payload b64decode padding str_len subscript text integer compare_digest
    vpp_wl_mobile.Prelude.Dict.get vpp_wl_mobile.Json.entries vpp_wl_mobile.Json.fields
token_accepted = refl

verify-Authentic_example :
    (payload_segment : String) × (signature : String) × (token
      ≡ payload_segment ++ String.◌∷◌ "." signature)
    × (sign library service payload_segment ≡ ok signature)
    × (read_payload library python payload_segment ≡ ok ("usr_1", "vpn-router", epoch + half_day))
    × (epoch < epoch + half_day)
verify-Authentic_example =
    verify-Authentic library python service epoch token
      (record { subject = "usr_1"; expires_at = epoch + half_day }) token_accepted

abbrev pub member_world : World
member_world = record {
  repo = record (empty_repo []) {
    users_by_id = ("usr_1", record { id = "usr_1"; device_id = "phone"; created_at = epoch }) ∷ [];
  };
  clock = λ n. epoch + n;
  reads = 0;
  random = λ n. "r";
  draws = 0;
}

abbrev pub header : String
header =
    "bearer eyJpc3MiOiJ2cG4tcm91dGVyIiwic3ViIjoidXNyXzEiLCJleHAiOjQzMjAwfQ.dGVzdC1zZWNyZXQtd2l0aC1sZW5ndGhleUpwYzNNaU8"

header_accepted :
    (user_id_from_authorization library python service header member_world).0 ≡ ok "usr_1"
unfolding user_id_from_authorization verify verify_parts split_dot sign b64encode strip_padding
    is_ascii is_empty codes or_invalid_payload read_payload b64decode padding str_len subscript text
    integer compare_digest vpp_wl_mobile.Prelude.Dict.get vpp_wl_mobile.Json.entries
    vpp_wl_mobile.Json.fields get_user
header_accepted = refl

user_id_from_authorization-Known_example :
    (claims : TokenClaims) × (python.lower (partition header).0 ≡ "bearer")
    × (verify library python service epoch (partition header).1 ≡ ok claims)
    × (claims.subject ≡ "usr_1")
    × (is_some (get_user "usr_1" member_world.repo) ≡ true)
user_id_from_authorization-Known_example =
    user_id_from_authorization-Known library python service header "usr_1" member_world
      header_accepted
