-- ===== src/Service/Sales/Opening.antt =====
-- What a checkout leaves under the token that it draws.
use vpp_wl_mobile.Prelude.{
  eq_iff, [], ◌∷◌, concat, Bool-cases, or_else, ◌==◌, max, arith, ℕ, ◌+◌, ◌*◌, ◌<◌, String, ◌≡◌,
  refl, sym, ap, ◌∙◌, subst, ◌≢◌, ◌⊎◌, inl, inr, true, false, Option, none, some,
}
use vpp_wl_mobile.Prelude.Dict
use vpp_wl_mobile.Prelude.Dict.{get-insert_ne}
use vpp_wl_mobile.Repository.Commercial.Extension.{
  activate_commercial_subscription-Activates, Activates,
}
use vpp_wl_mobile.Repository.Commercial.{
  activate_commercial_subscription, get_commercial_subscription, create_commercial_subscription,
}
use vpp_wl_mobile.Errors.{found-cases, pure, or_raise, Error, Exec, ◌>>=◌, Result, ok, raised}
use vpp_wl_mobile.Service.Receipts.{or_unavailable}
use vpp_wl_mobile.Service.Sales.{tariff_from_payload, checkout_in, checkout}
use vpp_wl_mobile.Service.{on_repo, now, draw, Python, World, Settings, Tariff}
use vpp_wl_mobile.Json.{Json}
use vpp_wl_mobile.Repository.{max_datetime, day, Repo, max_timedelta_days}
use vpp_wl_mobile.Models.{expires_after, is_paid, CommercialSubscription}
use vpp_wl_mobile.Service.Payload.{Payload}

-- The subscription of a checkout, before anything is paid.
abbrev new_order : String → Tariff → ℕ → CommercialSubscription
new_order tok tariff at = record {
  token = tok;
  tariff_id = tariff.id;
  status = "pending";
  created_at = at;
  updated_at = at;
  expires_at = none;
  payment_id = none;
}

abbrev ordered : String → Tariff → ℕ → Repo → Repo
ordered tok tariff at r = (create_commercial_subscription tok tariff.id none at r).1

ordered-stored :
    (tok : String) (tariff : Tariff) (at : ℕ) (r : Repo)
    → get_commercial_subscription tok (ordered tok tariff at r) ≡ some (new_order tok tariff at)
unfolding create_commercial_subscription get_commercial_subscription
ordered-stored tok tariff at r = Dict.get-insert_self tok _ r.commercial_subscriptions_by_token

ordered-others :
    (tok : String) (tariff : Tariff) (at : ℕ) (r : Repo) (j : String)
    → j ≢ tok
    → get_commercial_subscription j (ordered tok tariff at r) ≡ get_commercial_subscription j r
unfolding create_commercial_subscription get_commercial_subscription
ordered-others tok tariff at r j ne = get-insert_ne tok j _ r.commercial_subscriptions_by_token ne

new_order-unpaid :
    (tok : String) (tariff : Tariff) (at t : ℕ) → is_paid (new_order tok tariff at) t ≡ false
unfolding is_paid expires_after
new_order-unpaid tok tariff at t = refl

-- The subscription is paid for the days of the tariff from `at` on, or it is not paid at all.
abbrev pub IsPaidFor : ℕ → ℕ → CommercialSubscription → Type 0
IsPaidFor days at s =
    (s.expires_at ≡ some (at + days * day)) × ((t : ℕ) → t < at + days * day → is_paid s t ≡ true)

abbrev pub TooLong : ℕ → ℕ → Type 0
TooLong days at = (max_timedelta_days < days) ⊎ (max_datetime < at + days * day)

abbrev pub Opens : Settings → Tariff → String → ℕ → Repo → Repo → Type 0
Opens cfg tariff tok at before after =
    (s : CommercialSubscription) × (get_commercial_subscription tok after ≡ some s)
    × (s.tariff_id ≡ tariff.id)
    × ((j : String)
        → j ≢ tok
        → get_commercial_subscription j after ≡ get_commercial_subscription j before)
    × (((cfg.checkout_mode ≡ "mock") × IsPaidFor tariff.duration_days at s)
        ⊎ (((cfg.checkout_mode ≢ "mock") ⊎ TooLong tariff.duration_days at)
            × ((t : ℕ) → is_paid s t ≡ false)))

result-cases : {A : Type 0} (r : Result A) → ((a : A) × (r ≡ ok a)) ⊎ ((e : Error) × (r ≡ raised e))
result-cases (ok a) = inl (a, refl)
result-cases (raised e) = inr (e, refl)

module _ (cfg : Settings) (tariff : Tariff) (tok : String) (at0 at : ℕ) (before : Repo) where
  unpaid-Opens :
      ((cfg.checkout_mode ≢ "mock") ⊎ TooLong tariff.duration_days at)
      → Opens cfg tariff tok at before (ordered tok tariff at0 before)
  unpaid-Opens why = (
    new_order tok tariff at0,
    ordered-stored tok tariff at0 before,
    refl,
    ordered-others tok tariff at0 before,
    inr (why, new_order-unpaid tok tariff at0),
  )

  base :
      (s : CommercialSubscription)
      → s ≡ new_order tok tariff at0
      → max (or_else s.expires_at at) at ≡ at
  base s same =
      ap (λ (x : CommercialSubscription). max (or_else x.expires_at at) at) same ∙ omega arith

  activated-Opens :
      (run : Result (Option CommercialSubscription) × Repo)
      → cfg.checkout_mode ≡ "mock"
      → Activates tok tariff.duration_days at (ordered tok tariff at0 before) run
      → Opens cfg tariff tok at before run.1
  activated-Opens (ok none, r) mock (unknown, _) =
      absurd (cc (ordered-stored tok tariff at0 before))
  activated-Opens (ok (some u), r) mock (s, found, ext) =
      let same : s ≡ new_order tok tariff at0 = cc (ordered-stored tok tariff at0 before) in
      (
        u,
        ext.stored,
        ext.same.1 ∙ ap (λ (x : CommercialSubscription). x.tariff_id) same,
        λ j ne. ext.others j ne ∙ ordered-others tok tariff at0 before j ne,
        inl (
          mock,
          (
            ext.expiry ∙ ap (λ b. some (b + tariff.duration_days * day)) (base s same),
            λ t h. ext.paid t (omega (arith, base s same)),
          ),
        ),
      )
  activated-Opens (raised e, r) mock (s, found, _, kept, why) =
      let same : s ≡ new_order tok tariff at0 = cc (ordered-stored tok tariff at0 before) in
      let long : TooLong tariff.duration_days at =
        subst
          (λ b.
            (max_timedelta_days < tariff.duration_days)
            ⊎ (max_datetime < b + tariff.duration_days * day))
          (base s same) why in
      subst (λ x. Opens cfg tariff tok at before x) (sym kept) (unpaid-Opens (inr long))

mock-repo :
    (m : Exec Repo (Option CommercialSubscription)) (e : Error) (d : Dict.Dict Json) (w : World)
    → ((on_repo m >>= λ found. or_raise found e >>= λ _. pure d) w).1.repo ≡ (m w.repo).1
mock-repo m e d w = elim (found-cases (m w.repo).0) [
  | inl (u, found) ↦ rw (found, ◌>>=◌) refl
  | inr (inl missing) ↦ rw (missing, ◌>>=◌) refl
  | inr (inr (E, fails)) ↦ rw (fails, ◌>>=◌) refl
]

module _ (py : Python) (cfg : Settings) where
  unpaid-repo :
      (tariff : Tariff) (tok connect_url : String) (w : World)
      → (cfg.checkout_mode == "mock") ≡ false
      → (checkout_in py cfg tariff tok connect_url w).1 ≡ w
  unpaid-repo tariff tok connect_url w other =
      rw other (elim (Bool-cases (cfg.checkout_mode == "crypto_manual")) [
        | inl manual ↦ rw manual refl
        | inr paid ↦
            elim (result-cases (
              or_unavailable (
                cfg.create_payment tok tariff.id
                  (some (concat (cfg.public_base_url ∷ connect_url ∷ [])))))) [
                    | inl (payment, made) ↦ rw paid (rw (made, ◌>>=◌) refl)
                    | inr (e, failed) ↦ rw paid (rw (failed, ◌>>=◌) refl)
                  ]
      ])

  -- The world once the order stands in the repository.
  abbrev ordered_world : Tariff → World → World
  ordered_world tariff w = record w {
    repo = ordered (w.random w.draws) tariff (w.clock w.reads) w.repo;
    reads = w.reads + 1;
    draws = w.draws + 1;
  }

  checkout-run :
      (payload : Payload) (tariff : Tariff) (w : World)
      → tariff_from_payload py cfg payload ≡ ok tariff
      → checkout py cfg payload w
        ≡ checkout_in py cfg tariff
            (w.random w.draws)
            (concat ("/connect/" ∷ w.random w.draws ∷ []))
            (ordered_world tariff w)
  unfolding checkout draw now create_commercial_subscription
  checkout-run payload tariff w known = rw (known, checkout) refl

  mock_run :
      (tariff : Tariff) (tok url : String) (w : World)
      → (cfg.checkout_mode == "mock") ≡ true
      → (checkout_in py cfg tariff tok url w).1.repo
        ≡ (activate_commercial_subscription tok tariff.duration_days none
            (w.clock w.reads)
            w.repo).1
  unfolding now
  mock_run tariff tok url w mock = rw mock (
      mock-repo (activate_commercial_subscription tok tariff.duration_days none (w.clock w.reads)) _
        _ (record w { reads = w.reads + 1 }))

  -- A checkout of a known tariff stores a subscription to the tariff under the token that it draws,
  -- and leaves the subscriptions of all other tokens. In the mode "mock" it is paid for the days of
  -- the tariff from the second clock read on, or these are out of range; in that case, and in every
  -- other mode whatever the payment provider answers, it is not paid.
  pub checkout-Opens :
      (payload : Payload) (tariff : Tariff) (w : World)
      → tariff_from_payload py cfg payload ≡ ok tariff
      → Opens cfg tariff
          (w.random w.draws)
          (w.clock (w.reads + 1))
          w.repo
          (checkout py cfg payload w).1.repo
  checkout-Opens payload tariff w known =
      let tok = w.random w.draws in
      let at0 = w.clock w.reads in
      let at = w.clock (w.reads + 1) in
      let url = concat ("/connect/" ∷ tok ∷ []) in
      let w1 : World = ordered_world tariff w in
      rw (checkout-run payload tariff w known) (elim (Bool-cases (cfg.checkout_mode == "mock")) [
        | inl mock ↦
            subst (Opens cfg tariff tok at w.repo) (sym (mock_run tariff tok url w1 mock)) (
              activated-Opens cfg tariff tok at0 at w.repo _
                ((eq_iff cfg.checkout_mode "mock").0 mock)
                (activate_commercial_subscription-Activates tok tariff.duration_days at none
                  w1.repo))
        | inr other ↦
            subst (Opens cfg tariff tok at w.repo)
              (sym (ap (λ (x : World). x.repo) (unpaid-repo tariff tok url w1 other)))
              (unpaid-Opens cfg tariff tok at0 at w.repo
                (inl (λ e. ground (arith, eq_iff cfg.checkout_mode "mock"))))
      ])
