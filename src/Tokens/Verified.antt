-- ===== src/Tokens/Verified.antt =====
-- What a token that is accepted must be.
use vpp_wl_mobile.Prelude.{
  subst, arith, ap, eq_iff, inr, ◌∙◌, ◌&&◌, leb, inl, Option-cases, Bool-cases, ◌==◌, ℕ, ◌<◌,
  String, ◌≡◌, refl, sym, Bool, true, false, not,
}
use vpp_wl_mobile.Errors.Chain.{ok-inj, >>=-inv, fail_if-inv}
use vpp_wl_mobile.Errors.{
  unicode_error, overflow_error, integrity_error, invalid_operation, key_error, type_error, api,
  Result, ok, raised, value_error,
}
use Prim.Native.String.{◌++◌}
use vpp_wl_mobile.Service.{Python}
use vpp_wl_mobile.Service.Payload.{compare_digest, is_ascii}
use vpp_wl_mobile.Tokens.{
  Library, TokenClaims, TokenService, split_dot, sign, verify, verify_parts, read_payload,
  or_invalid_payload,
}
use vpp_wl_mobile.Tokens.Segments.{split_dot-some}

or_invalid_payload-ok : {A : Type 0} (r : Result A) (a : A) → or_invalid_payload r ≡ ok a → r ≡ ok a
unfolding or_invalid_payload
or_invalid_payload-ok (ok x) a h = h
or_invalid_payload-ok (raised (api status m)) a h = absurd (cc)
or_invalid_payload-ok (raised (value_error m)) a h = absurd (cc)
or_invalid_payload-ok (raised type_error) a h = absurd (cc)
or_invalid_payload-ok (raised key_error) a h = absurd (cc)
or_invalid_payload-ok (raised overflow_error) a h = absurd (cc)
or_invalid_payload-ok (raised integrity_error) a h = absurd (cc)
or_invalid_payload-ok (raised invalid_operation) a h = absurd (cc)
or_invalid_payload-ok (raised unicode_error) a h = absurd (cc)

compare_digest-ok : (a b : String) → compare_digest a b ≡ ok true → a ≡ b
unfolding compare_digest
compare_digest-ok a b h = elim (Bool-cases (is_ascii a && is_ascii b)) [
  | inl e ↦ let same : ok (a == b) ≡ ok true = sym (rw e refl) ∙ h in (eq_iff a b).0 (ok-inj same)
  | inr e ↦ let wrong : raised type_error ≡ ok true = sym (rw e refl) ∙ h in absurd (cc)
]

not-false : (b : Bool) → not b ≡ false → b ≡ true
not-false true h = refl
not-false false h = sym h

verify_parts-ok :
    (lib : Library) (py : Python) (service : TokenService) (now : ℕ)
    (payload_segment signature : String) (claims : TokenClaims)
    → verify_parts lib py service now payload_segment signature ≡ ok claims
    → (sign lib service payload_segment ≡ ok signature)
      × (read_payload lib py payload_segment
          ≡ ok (claims.subject, service.issuer, claims.expires_at))
      × (now < claims.expires_at)
unfolding verify_parts
verify_parts-ok lib py service now payload_segment signature claims h =
    let (expected, signed, h1) = >>=-inv (sign lib service payload_segment) _ claims h in
    let (same, compared, h2) = >>=-inv (compare_digest signature expected) _ claims h1 in
    let (is_same, h3) = fail_if-inv (not same) _ _ claims h2 in
    let ((subject, issuer, expires_at), read, h4) =
      >>=-inv (or_invalid_payload (read_payload lib py payload_segment)) _ claims h3 in
    let (is_issuer, h5) = fail_if-inv (not (issuer == service.issuer)) _ _ claims h4 in
    let (is_later, h6) = fail_if-inv (leb expires_at now) _ _ claims h5 in
    let same_signature : signature ≡ expected =
      compare_digest-ok signature expected (compared ∙ ap ok (not-false same is_same)) in
    let same_issuer : issuer ≡ service.issuer =
      (eq_iff issuer service.issuer).0 (not-false _ is_issuer) in
    let same_claims : record { subject = subject; expires_at = expires_at } ≡ claims = ok-inj h6 in
    let later : now < expires_at = ground (arith, is_later) in
    (
      signed ∙ ap ok (sym same_signature),
      or_invalid_payload-ok (read_payload lib py payload_segment) (subject, issuer, expires_at) read
          ∙ (λ i. ok ((same_claims i).subject, same_issuer i, (same_claims i).expires_at)),
      subst (λ (c : TokenClaims). now < c.expires_at) same_claims later,
    )

-- A token that `verify` accepts is a payload and its signature under the service's own secret; the
-- payload names the service's issuer, and the subject and the time of expiry of the claims, and that
-- time has not come.
pub verify-Authentic :
    (lib : Library) (py : Python) (service : TokenService) (now : ℕ) (token : String)
    (claims : TokenClaims)
    → verify lib py service now token ≡ ok claims
    → (payload_segment : String) × (signature : String) × (token
        ≡ payload_segment ++ String.◌∷◌ "." signature)
      × (sign lib service payload_segment ≡ ok signature)
      × (read_payload lib py payload_segment
          ≡ ok (claims.subject, service.issuer, claims.expires_at))
      × (now < claims.expires_at)
unfolding verify verify_parts
verify-Authentic lib py service now token claims h = elim (Option-cases (split_dot token)) [
  | inl n ↦
      let wrong : raised (value_error "malformed token") ≡ ok claims =
        sym (rw (n, verify) refl) ∙ h in
      absurd (cc)
  | inr ((segment, signature), e) ↦
      let parts : verify_parts lib py service now segment signature ≡ ok claims =
        sym (rw (e, verify) refl) ∙ h in
      let t = verify_parts-ok lib py service now segment signature claims parts in
      (segment, signature, split_dot-some token segment signature e, t.0, t.1, t.2)
]
