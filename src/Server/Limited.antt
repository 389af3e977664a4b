-- ===== src/Server/Limited.antt =====
-- Which requests the limiter refuses.
use vpp_wl_mobile.Prelude.{
  ◌≢◌, ◌∙◌, sym, ℕ, ◌≡◌, refl, ◌⊎◌, inl, inr, Bool, false, not, ◌&&◌, arith, ◌==◌, eqb,
  if◌then◌else◌, Bool-cases, or_else,
}
use vpp_wl_mobile.RateLimit.{RateLimiter, allow}
use vpp_wl_mobile.Errors.{Result, ok, raised}
use vpp_wl_mobile.Server.{
  App, Request, Response, State, send_json, send_text, send_html, send_redirect, do_options, send,
}
use vpp_wl_mobile.Server.Answered.{Answers, IsClosed}
use vpp_wl_mobile.Server.Handled.{serve-IsAnswered}
use vpp_wl_mobile.Server.Handlers.{
  Method, get, post, delete, patch, options, handle, serve, limited, is_rate_limited, ask_limiter,
  too_many,
}

-- Whether a request was answered with the status 429.
abbrev pub is_refusal : Result Response → Bool
is_refusal (ok r) = eqb r.status 429
is_refusal (raised e) = false

own_status : (status : ℕ) → status ≢ 429 → eqb status 429 ≡ false
own_status status own = ground (arith, own)

module _ (app : App) (req : Request) where
  -- What the limiter says to a request.
  abbrev pub asked : State → Bool × RateLimiter
  asked s =
      let w = s.site.world in allow (or_else req.client_ip "unknown") (w.clock w.reads) s.limiter

  -- Whether a request of a method goes through the limiter.
  abbrev pub is_counted : Method → Bool
  is_counted options = false
  is_counted method = not (req.path == "/health")

  abbrev IsOwn : Response → Type 0
  IsOwn r = eqb r.status 429 ≡ false

  IsOwn-IsClosed : IsClosed app req IsOwn
  unfolding send_json send_text send_html send send_redirect do_options
  IsOwn-IsClosed = record {
    json = λ status d own. own_status status own;
    text = λ status content_type t own. own_status status own;
    html = λ status t own. own_status status own;
    redirected = λ location. refl;
    preflight = refl;
  }

  own_refusal : (r : Result Response) → Answers IsOwn r → is_refusal r ≡ false
  unfolding Answers
  own_refusal (ok r) h = h
  own_refusal (raised e) h = refl

  -- No handler answers with 429 itself, and none touches the limiter.
  served :
      (method : Method) (s : State)
      → (is_refusal (serve app req method s).0 ≡ false)
        × ((serve app req method s).1.limiter ≡ s.limiter)
  served method s =
      let (answers, kept) = serve-IsAnswered app req IsOwn IsOwn-IsClosed method s in
      (own_refusal (serve app req method s).0 answers, kept)

  -- What a refused request leaves as it was.
  abbrev pub Untouched : State → State → Type 0
  Untouched s t = (t.site.world.repo ≡ s.site.world.repo) × (t.site.service ≡ s.site.service)

  -- What becomes of a request and of the state, with the limiter asked or not.
  abbrev pub Limits : Bool → State → Result Response × State → Type 0
  Limits counted s (r, t) =
      (is_refusal r ≡ (counted && not (asked s).0))
      × (t.limiter ≡ (if counted then (asked s).1 else s.limiter))
      × ((is_refusal r ≡ false) ⊎ Untouched s t)

  -- What `_is_rate_limited` answers and leaves.
  asks :
      (s : State)
      → let counted = not (req.path == "/health") in
        let (refused, after) = is_rate_limited app req s in
        (refused ≡ (counted && not (asked s).0))
        × (after.limiter ≡ (if counted then (asked s).1 else s.limiter))
        × Untouched s after
  unfolding is_rate_limited ask_limiter
  asks s = elim (Bool-cases (req.path == "/health")) [
    | inl k ↦ rw (k, is_rate_limited) (refl, refl, (refl, refl))
    | inr k ↦ rw (k, is_rate_limited) (refl, refl, (refl, refl))
  ]

  limited-Limits :
      (method : Method) (s : State)
      → Limits (not (req.path == "/health")) s (limited app req method s)
  unfolding limited too_many send_json send
  limited-Limits method s =
      let (refused, limiter, untouched) = asks s in
      elim (Bool-cases (is_rate_limited app req s).0) [
        | inl e ↦ rw (e, limited) (sym e ∙ refused, limiter, inr untouched)
        | inr e ↦
            let (own, kept) = served method (is_rate_limited app req s).1 in
            rw (e, limited) (own ∙ sym e ∙ refused, kept ∙ limiter, inl own)
      ]

  -- A request is answered with the status 429 exactly where it is no OPTIONS request, its path is not
  -- "/health", and the limiter refuses the address of its client at the time of the request; nothing
  -- that is stored and no rate is touched then. The limiter counts such requests, served or refused,
  -- and no other, and nothing else touches it.
  pub handle-Limits :
      (method : Method) (s : State) → Limits (is_counted method) s (handle app req method s)
  unfolding handle
  handle-Limits options s = let (own, kept) = served options s in (own, kept, inl own)
  handle-Limits get s = limited-Limits get s
  handle-Limits post s = limited-Limits post s
  handle-Limits delete s = limited-Limits delete s
  handle-Limits patch s = limited-Limits patch s
