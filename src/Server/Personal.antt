-- ===== src/Server/Personal.antt =====
-- The requests for the things of a user.
use vpp_wl_mobile.Prelude.{
  ℕ, ◌+◌, String, ◌≡◌, refl, sym, ap, ◌∙◌, subst, inl, inr, true, false, arith, ◌==◌, Bool-cases,
  is_some,
}
use vpp_wl_mobile.Prelude.Dict
use vpp_wl_mobile.Service.Accounts as Accounts
use vpp_wl_mobile.Server.Users.{authorization, Authorized, for_user-Authorized}
use vpp_wl_mobile.Service.Authorization.{partition}
use vpp_wl_mobile.Errors.{ok}
use vpp_wl_mobile.Errors.Chain.{ok-inj}
use vpp_wl_mobile.Tokens.{verify}
use vpp_wl_mobile.Repository.Users.{get_user}
use vpp_wl_mobile.Json.{Json}
use vpp_wl_mobile.Service.{Action}
use vpp_wl_mobile.Server.{App, Request, Response, State, send_json, send}
use vpp_wl_mobile.Server.Paths.{get_route, get_exact, delete_route}
use vpp_wl_mobile.Server.Handlers.{
  Method, get, delete, handle, serve, serve_get, serve_delete, limited, is_rate_limited,
  ask_limiter, too_many, for_user,
}

-- The methods and paths of the things of a user.
pub data Personal : Method → String → Type 0 where
  user_nodes : Personal get "/api/nodes"
  user_config : Personal get "/api/config"
  user_me : Personal get "/api/me"
  user_export : Personal get "/api/me/export"
  user_deletion : Personal delete "/api/me"

module _ (app : App) (req : Request) where
  -- The time at which the header of a request is looked at, after the limiter has read the clock.
  abbrev pub time_of : State → ℕ
  time_of s = s.site.world.clock (s.site.world.reads + 1)

  -- What the limiter has left of the state, where the path is not "/health".
  passed :
      (s : State)
      → (req.path == "/health") ≡ false
      → let after = (is_rate_limited app req s).1 in
        (after.site.world.repo ≡ s.site.world.repo)
        × (after.site.world.clock after.site.world.reads ≡ time_of s)
  unfolding is_rate_limited ask_limiter
  passed s path = rw (path, is_rate_limited) (refl, refl)

  -- A guarded route behind the limiter.
  limited-Authorized :
      (method : Method) (m : String → Action (Dict.Dict Json)) (s : State) (r : Response)
      → (req.path == "/health") ≡ false
      → ((t : State) → serve app req method t ≡ for_user app req m t)
      → (limited app req method s).0 ≡ ok r
      → r.status ≡ 200
      → Authorized app req s (time_of s)
  unfolding limited too_many send_json send
  limited-Authorized method m s r path serves h k =
      let after = (is_rate_limited app req s).1 in
      let (repo, time) = passed s path in
      elim (Bool-cases (is_rate_limited app req s).0) [
        | inl e ↦
            let refused : (limited app req method s).0 ≡ ok (too_many app req) =
              rw (e, limited) refl in
            let same : too_many app req ≡ r = ok-inj (sym refused ∙ h) in
            absurd (omega (arith, ap (λ x. x.status) same, k))
        | inr e ↦
            let passes : (limited app req method s).0 ≡ (serve app req method after).0 =
              rw (e, limited) refl in
            let served : (for_user app req m after).0 ≡ ok r =
              ap (λ x. x.0) (sym (serves after)) ∙ sym passes ∙ h in
            let (user_id, claims, scheme, accepted, same, known) =
              for_user-Authorized app req m after r served k in
            (
              user_id,
              claims,
              scheme,
              subst
                  (λ at.
                    verify app.codec app.py app.tokens at (partition (authorization app req)).1
                    ≡ ok claims)
                  time accepted,
              same,
              subst (λ stored. is_some (get_user user_id stored) ≡ true) repo known,
            )
      ]

  -- A request for the nodes, the configuration, the account or the export of a user, or for the
  -- deletion of the account, that is answered with the status 200 has a header that names the scheme
  -- "bearer", in whatever letters, and holds a token that is accepted at the time of the request for a
  -- user who is known to the repository.
  pub handle-Authorized :
      (method : Method) (path : String) (s : State) (r : Response)
      → Personal method path
      → req.path ≡ path
      → (handle app req method s).0 ≡ ok r
      → r.status ≡ 200
      → Authorized app req s (time_of s)
  unfolding handle serve serve_get serve_delete get_route get_exact delete_route
  handle-Authorized _ _ s r user_me e h k =
      limited-Authorized get (Accounts.me app.py app.service) s r (rw e refl) (λ t. rw e refl) h k
  handle-Authorized _ _ s r user_nodes e h k =
      limited-Authorized get Accounts.nodes s r (rw e refl) (λ t. rw e refl) h k
  handle-Authorized _ _ s r user_config e h k =
      limited-Authorized get Accounts.config s r (rw e refl) (λ t. rw e refl) h k
  handle-Authorized _ _ s r user_export e h k =
      limited-Authorized get (Accounts.export_me app.py app.service) s r (rw e refl)
        (λ t. rw e refl) h k
  handle-Authorized _ _ s r user_deletion e h k =
      limited-Authorized delete Accounts.delete_me s r (rw e refl) (λ t. rw e refl) h k
