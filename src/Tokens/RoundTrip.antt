-- ===== src/Tokens/RoundTrip.antt =====
-- A token that is issued and then verified.
use vpp_wl_mobile.Prelude.{
  leb, if◌then◌else◌, Bool, ltb, ◌≤◌, some, List, ℕ, ◌+◌, ◌-◌, ◌%◌, ◌<◌, String, ◌≡◌, refl, sym, ap,
  ◌∙◌, true, false, arith, eq_refl, str_len,
}
use vpp_wl_mobile.Tokens.Segments.{split_dot-append, has_dot, strip_padding-append}
use vpp_wl_mobile.Tokens.{
  split_dot, TokenClaims, verify_parts, verify, or_invalid_payload, subscript, b64encode,
  claims_payload, sign, read_payload, issue, b64decode, TokenService, Library, strip_padding,
  padding,
}
use vpp_wl_mobile.Errors.{raised, value_error, ok}
use vpp_wl_mobile.Errors.Chain.{◌>>=◌, ◌>>◌, fail_if}
use vpp_wl_mobile.Repository.{max_datetime}
use vpp_wl_mobile.Service.Payload.{integer, text, compare_digest, is_ascii}
use vpp_wl_mobile.Json.{Json}
use vpp_wl_mobile.Service.{Python}
use Prim.Native.String.{◌++◌}

-- A text of base64: a part in ASCII without a dot and without padding, and the padding that makes
-- the length a multiple of four.
pub record IsBase64 (encoded core : String) (k : ℕ) : Type 0 where
  pub whole : encoded ≡ core ++ padding k
  pub short : k < 4
  pub fours : (str_len core + k) % 4 ≡ 0
  pub bare : strip_padding core ≡ core
  pub plain : has_dot core ≡ false
  pub in_ascii : is_ascii core ≡ true

stripped : {encoded core : String} {k : ℕ} → IsBase64 encoded core k → strip_padding encoded ≡ core
stripped {core} {k} h = ap strip_padding h.whole ∙ strip_padding-append core k ∙ h.bare

padded :
    {encoded core : String} {k : ℕ}
    → IsBase64 encoded core k
    → core ++ padding ((4 - str_len core % 4) % 4) ≡ encoded
padded {core} {k} h =
    let short = h.short in
    let fours = h.fours in
    let e : (4 - str_len core % 4) % 4 ≡ k = omega arith in
    ap (λ n. core ++ padding n) e ∙ sym h.whole

compare_digest_self : (s : String) → is_ascii s ≡ true → compare_digest s s ≡ ok true
unfolding compare_digest
compare_digest_self s h = rw (h, eq_refl) refl

module _ (lib : Library) (py : Python) (service : TokenService) (subject : String)
    (ttl now expires_at : ℕ) (core signature : String) (k k' : ℕ) (core_bytes bytes : List ℕ) where
  -- The payload of the token, and its JSON text.
  abbrev payload : Json
  payload = claims_payload lib service subject (now + ttl)

  abbrev document : String
  document = lib.dumps payload

  abbrev claims : TokenClaims
  claims = record { subject = subject; expires_at = expires_at }

  -- What the libraries do with this payload: each decoder undoes its encoder, base64 is as its
  -- definition says, and the time of expiry is read back as `expires_at`.
  pub record Documented : Type 0 where
    pub encoded : IsBase64 (lib.urlsafe_b64encode (lib.utf8 document)) core k
    pub core_ascii : lib.ascii core ≡ some core_bytes
    pub encoded_ascii : lib.ascii (lib.urlsafe_b64encode (lib.utf8 document)) ≡ some bytes
    pub decoded : lib.urlsafe_b64decode bytes ≡ some (lib.utf8 document)
    pub utf8_decoded : lib.decode_utf8 (lib.utf8 document) ≡ some document
    pub loaded : lib.loads document ≡ some payload
    pub signed :
        IsBase64 (lib.urlsafe_b64encode (lib.hmac_sha256 service.secret core_bytes)) signature k'
    pub expiry : lib.fromtimestamp (lib.timestamp (now + ttl)) ≡ ok expires_at

  module _ (d : Documented) where
    sign-core : sign lib service core ≡ ok signature
    unfolding sign b64encode
    sign-core = rw (d.core_ascii) (ap ok (stripped (d.signed)))

    issue_lem :
        now + ttl ≤ max_datetime
        → issue lib service subject ttl now ≡ ok (core ++ String.◌∷◌ "." signature)
    unfolding issue b64encode
    issue_lem h =
        let e : ltb max_datetime (now + ttl) ≡ false = ground arith in
        rw e (rw (stripped (d.encoded)) (rw sign-core refl))

    b64decode-core : b64decode lib core ≡ ok document
    unfolding b64decode
    b64decode-core =
        rw (padded (d.encoded)) (rw (d.encoded_ascii) (rw (d.decoded) (rw (d.utf8_decoded) refl)))

    read_payload-core : read_payload lib py core ≡ ok (subject, service.issuer, expires_at)
    unfolding read_payload subscript text integer vpp_wl_mobile.Prelude.Dict.get
        vpp_wl_mobile.Json.entries vpp_wl_mobile.Json.fields
    read_payload-core = rw b64decode-core (rw (d.loaded) (rw (d.expiry) refl))

    unless_expired :
        (b : Bool)
        → (fail_if b (value_error "expired token") >> ok claims)
          ≡ (if b then raised (value_error "expired token") else ok claims)
    unless_expired true = refl
    unless_expired false = refl

    -- A token that the service issues is accepted by it, as claims of its subject, until the time
    -- of expiry that it was issued for, cut to what the payload holds of it; from then on it is
    -- refused as expired.
    pub issue-verify :
        (later : ℕ)
        → now + ttl ≤ max_datetime
        → (issue lib service subject ttl now >>= verify lib py service later) ≡ (
            if leb expires_at later
            then raised (value_error "expired token")
            else ok (record { subject = subject; expires_at = expires_at }))
    unfolding verify verify_parts or_invalid_payload
    issue-verify later h =
        let same : compare_digest signature signature ≡ ok true =
          compare_digest_self signature (d.signed).in_ascii in
        let e : split_dot (core ++ String.◌∷◌ "." signature) ≡ some (core, signature) =
          split_dot-append core signature (d.encoded).plain in
        rw (issue_lem h) (
          rw (e, verify)
            (rw sign-core (
              rw same (rw read_payload-core (rw eq_refl (unless_expired (leb expires_at later)))))))
