-- ===== src/Service/Authorization/Bearer.antt =====
-- Whose requests are let through.
use vpp_wl_mobile.Prelude.{
  refl, subst, ◌+◌, ap, inr, eq_iff, arith, Option-cases, ◌∙◌, sym, inl, if◌then◌else◌, Bool-cases,
  is_empty, false, ◌||◌, ◌==◌, not, Bool, String, ◌≡◌, true, is_some,
}
use vpp_wl_mobile.Errors.Chain.{ok-inj}
use vpp_wl_mobile.Errors.{
  unicode_error, overflow_error, integrity_error, invalid_operation, key_error, type_error, lift,
  pure, ◌>>=◌, ◌>>◌, value_error, unauthorized, api, Result, ok, raised,
}
use vpp_wl_mobile.Repository.{Repo}
use vpp_wl_mobile.Service.Accounts.{unknown_user, require_known_user}
use vpp_wl_mobile.Service.{Python, World, now}
use vpp_wl_mobile.Service.Authorization.{partition, bearer_user, user_id_from_authorization}
use vpp_wl_mobile.Repository.Users.{get_user}
use vpp_wl_mobile.Service.Receipts.{value_error_as}
use vpp_wl_mobile.Tokens.{Library, TokenService, TokenClaims, verify}

-- The answer of the method, by the three things that it looks at.
answer : Bool → Result TokenClaims → Repo → Result String
answer true verified repo = raised (api unauthorized "bearer token required")
answer false (ok claims) repo =
    if is_some (get_user claims.subject repo) then ok claims.subject else raised unknown_user
answer false (raised (value_error message)) repo = raised (api unauthorized message)
answer false (raised e) repo = raised e

answer-ok :
    (refused : Bool) (verified : Result TokenClaims) (repo : Repo) (user_id : String)
    → answer refused verified repo ≡ ok user_id
    → (claims : TokenClaims) × (refused ≡ false)
      × (verified ≡ ok claims)
      × (claims.subject ≡ user_id)
      × (is_some (get_user user_id repo) ≡ true)
unfolding answer
answer-ok true verified repo user_id h = absurd (cc)
answer-ok false (ok claims) repo user_id h =
    elim (Bool-cases (is_some (get_user claims.subject repo))) [
      | inl e ↦
          let found : answer false (ok claims) repo ≡ ok claims.subject = rw e refl in
          let same : claims.subject ≡ user_id = ok-inj (sym found ∙ h) in
          (claims, refl, refl, same, subst (λ u. is_some (get_user u repo) ≡ true) same e)
      | inr e ↦ let wrong : raised unknown_user ≡ ok user_id = sym (rw e refl) ∙ h in absurd (cc)
    ]
answer-ok false (raised (api s m)) repo user_id h = absurd (cc)
answer-ok false (raised (value_error m)) repo user_id h = absurd (cc)
answer-ok false (raised type_error) repo user_id h = absurd (cc)
answer-ok false (raised key_error) repo user_id h = absurd (cc)
answer-ok false (raised overflow_error) repo user_id h = absurd (cc)
answer-ok false (raised integrity_error) repo user_id h = absurd (cc)
answer-ok false (raised invalid_operation) repo user_id h = absurd (cc)
answer-ok false (raised unicode_error) repo user_id h = absurd (cc)

rest-answer :
    (verified : Result TokenClaims) (w : World)
    → ((lift (value_error_as unauthorized verified) >>= λ (claims : TokenClaims).
          require_known_user claims.subject >> pure claims.subject)
        w).0
      ≡ answer false verified w.repo
unfolding answer require_known_user get_user vpp_wl_mobile.Prelude.Dict.get
rest-answer (ok claims) w = elim (Option-cases (get_user claims.subject w.repo)) [
  | inl n ↦ rw (n, require_known_user) refl
  | inr (u, e) ↦ rw (e, require_known_user) refl
]
rest-answer (raised (api s m)) w = refl
rest-answer (raised (value_error m)) w = refl
rest-answer (raised type_error) w = refl
rest-answer (raised key_error) w = refl
rest-answer (raised overflow_error) w = refl
rest-answer (raised integrity_error) w = refl
rest-answer (raised invalid_operation) w = refl
rest-answer (raised unicode_error) w = refl

bearer_user-answer :
    (lib : Library) (py : Python) (service : TokenService) (scheme token : String) (w : World)
    → (bearer_user lib py service scheme token w).0
      ≡ answer
          (not (py.lower scheme == "bearer") || is_empty token)
          (verify lib py service (w.clock w.reads) token)
          w.repo
unfolding bearer_user answer now
bearer_user-answer lib py service scheme token w =
    let verified = verify lib py service (w.clock w.reads) token in
    elim (Bool-cases (not (py.lower scheme == "bearer") || is_empty token)) [
      | inl e ↦ rw e refl
      | inr e ↦ rw e (rest-answer verified (record w { reads = w.reads + 1 }))
    ]

-- A request is let through as a user only if its header names the scheme "bearer", in whatever
-- letters, and holds a token that is accepted at the time of the request for that very user, who is
-- known to the repository.
pub user_id_from_authorization-Known :
    (lib : Library) (py : Python) (service : TokenService) (authorization user_id : String)
    (w : World)
    → (user_id_from_authorization lib py service authorization w).0 ≡ ok user_id
    → (claims : TokenClaims) × (py.lower (partition authorization).0 ≡ "bearer")
      × (verify lib py service (w.clock w.reads) (partition authorization).1 ≡ ok claims)
      × (claims.subject ≡ user_id)
      × (is_some (get_user user_id w.repo) ≡ true)
unfolding user_id_from_authorization
user_id_from_authorization-Known lib py service authorization user_id w h =
    let scheme = (partition authorization).0 in
    let token = (partition authorization).1 in
    let verified = verify lib py service (w.clock w.reads) token in
    let t =
      answer-ok (not (py.lower scheme == "bearer") || is_empty token) verified w.repo user_id
        (sym (bearer_user-answer lib py service scheme token w) ∙ h) in
    (t.0, (eq_iff (py.lower scheme) "bearer").0 (ground (arith, t.1)), t.2, t.3, t.4)
