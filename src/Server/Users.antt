-- ===== src/Server/Users.antt =====
-- Who is served as a user.
use vpp_wl_mobile.Prelude.{ℕ, String, ◌≡◌, sym, ap, ◌∙◌, ◌≢◌, inl, inr, true, arith, is_some}
use vpp_wl_mobile.Prelude.Dict
use vpp_wl_mobile.Errors.Chain.{ok-inj}
use vpp_wl_mobile.Json.{Json}
use vpp_wl_mobile.Errors.{
  Status, bad_request, unauthorized, forbidden, not_found, internal_server_error,
  service_unavailable, ok, raised, api, Error, value_error, type_error, key_error, overflow_error,
  integrity_error, invalid_operation, unicode_error, >>=-raised,
}
use vpp_wl_mobile.Repository.Users.{get_user}
use vpp_wl_mobile.Service.{Action}
use vpp_wl_mobile.Service.Authorization.{partition, user_id_from_authorization}
use vpp_wl_mobile.Service.Authorization.Bearer.{user_id_from_authorization-Known}
use vpp_wl_mobile.Tokens.{TokenClaims, verify}
use vpp_wl_mobile.Server.{
  App, Request, Response, State, header_or, send_json, send, send_error, respond, caught,
  status_code,
}
use vpp_wl_mobile.Server.Handlers.{as_user, for_user, send_service_response}
use vpp_wl_mobile.Server.Keeps.{result-cases}

error_code : (status : Status) → status_code status ≢ 200
unfolding status_code
error_code bad_request h = omega arith
error_code unauthorized h = omega arith
error_code forbidden h = omega arith
error_code not_found h = omega arith
error_code internal_server_error h = omega arith
error_code service_unavailable h = omega arith

module _ (app : App) (req : Request) where
  -- An error is not answered with the status 200.
  caught_error :
      (e : Error) (r : Response)
      → caught (send_json app req 200) (send_error app req) (raised e) ≡ ok r
      → r.status ≢ 200
  unfolding send_error send_json send
  caught_error (api status message) r h k =
      error_code status
        (let same : send_error app req status message ≡ r = ok-inj h in ap (λ x. x.status) same ∙ k)
  caught_error (value_error m) r h k = absurd (cc)
  caught_error type_error r h k = absurd (cc)
  caught_error key_error r h k = absurd (cc)
  caught_error overflow_error r h k = absurd (cc)
  caught_error integrity_error r h k = absurd (cc)
  caught_error invalid_operation r h k = absurd (cc)
  caught_error unicode_error r h k = absurd (cc)

  -- The header that names a user.
  abbrev pub authorization : String
  authorization = header_or req "Authorization" ""

  -- Who is known from a header at a time in a state: the header names the scheme "bearer", in whatever
  -- letters, and holds a token that is accepted at that time for a user known to the repository.
  abbrev pub Authorized : State → ℕ → Type 0
  Authorized s at =
      (user_id : String) × (claims : TokenClaims) × (app.py.lower (partition authorization).0
        ≡ "bearer")
      × (verify app.codec app.py app.tokens at (partition authorization).1 ≡ ok claims)
      × (claims.subject ≡ user_id)
      × (is_some (get_user user_id s.site.world.repo) ≡ true)

  -- The guard of one route.
  pub for_user-Authorized :
      (method : String → Action (Dict.Dict Json)) (s : State) (r : Response)
      → (for_user app req method s).0 ≡ ok r
      → r.status ≡ 200
      → Authorized s (s.site.world.clock s.site.world.reads)
  unfolding for_user send_service_response respond as_user
  for_user-Authorized method s r h k =
      let w = s.site.world in
      let check = user_id_from_authorization app.codec app.py app.tokens authorization in
      elim (result-cases (check w).0) [
        | inl (user_id, e) ↦
            let (claims, scheme, accepted, same, known) =
              user_id_from_authorization-Known app.codec app.py app.tokens authorization user_id w
                e in
            (user_id, claims, scheme, accepted, same, known)
        | inr (e, fails) ↦
            let stopped : caught (send_json app req 200) (send_error app req) (raised e) ≡ ok r =
              ap (λ x. caught (send_json app req 200) (send_error app req) x.0)
                (sym (>>=-raised check method w fails))
              ∙ h in
            absurd (caught_error e r stopped k)
      ]
