-- ===== src/Repository/Commercial/Extension.antt =====
-- Activating a commercial subscription extends it: no paid time is lost, and none is given twice.
use vpp_wl_mobile.Prelude.{
  inr, inl, ap, ◌∙◌, ◌≤◌, Option-cases, refl, lt→ltb, or_else, max, ◌⊎◌, Option, ℕ, ◌+◌, ◌*◌, ◌<◌,
  String, ◌≡◌, ◌≢◌, true, none, some, arith,
}
use vpp_wl_mobile.Prelude.Dict
use vpp_wl_mobile.Prelude.Dict.{get-insert_ne, get-insert}
use vpp_wl_mobile.Models.{CommercialSubscription, is_paid, expires_after}
use vpp_wl_mobile.Errors.{Result, ok, raised, overflow_error}
use vpp_wl_mobile.Repository.{Repo, day, max_datetime, max_timedelta_days}
use vpp_wl_mobile.Repository.Commercial.{
  add_days, extension_base, activate_commercial_subscription, store_activated, activated,
  get_commercial_subscription,
}

-- What a finished `activate_commercial_subscription` has done for a token that holds `s`.
pub record Extends (token : String) (s : CommercialSubscription) (days now : ℕ)
    (before after : Repo) (u : CommercialSubscription) : Type 0 where
  pub stored : get_commercial_subscription token after ≡ some u
  pub expiry : u.expires_at ≡ some (max (or_else s.expires_at now) now + days * day)
  pub paid : (t : ℕ) → t < max (or_else s.expires_at now) now + days * day → is_paid u t ≡ true
  pub same : (u.token ≡ s.token) × (u.tariff_id ≡ s.tariff_id) × (u.created_at ≡ s.created_at)
  pub others :
      (j : String)
      → j ≢ token
      → get_commercial_subscription j after ≡ get_commercial_subscription j before

abbrev pub Activates :
    String → ℕ → ℕ → Repo → Result (Option CommercialSubscription) × Repo → Type 0
Activates token days now before (ok none, r) =
    (get_commercial_subscription token before ≡ none) × (r ≡ before)
Activates token days now before (ok (some u), r) =
    (s : CommercialSubscription) × (get_commercial_subscription token before ≡ some s)
    × Extends token s days now before r u
Activates token days now before (raised e, r) =
    (s : CommercialSubscription) × (get_commercial_subscription token before ≡ some s)
    × (e ≡ overflow_error)
    × (r ≡ before)
    × ((max_timedelta_days < days)
        ⊎ (max_datetime < max (or_else s.expires_at now) now + days * day))

extension_base-max : (o : Option ℕ) (now : ℕ) → extension_base o now ≡ max (or_else o now) now
unfolding extension_base
extension_base-max none now = ground arith
extension_base-max (some t) now = ground arith

add_days-cases :
    (base n : ℕ)
    → (add_days base n ≡ some (base + n * day))
      ⊎ ((add_days base n ≡ none) × ((max_timedelta_days < n) ⊎ (max_datetime < base + n * day)))
unfolding add_days
add_days-cases base n = ground arith

add_days_fits :
    (base n : ℕ)
    → n ≤ max_timedelta_days
    → base + n * day ≤ max_datetime
    → add_days base n ≡ some (base + n * day)
unfolding add_days
add_days_fits base n h k = ground arith

activated-Extends :
    (token : String) (s : CommercialSubscription) (days now : ℕ) (pid : Option String) (r : Repo)
    → let t = max (or_else s.expires_at now) now + days * day in
      Extends token s days now r
        (store_activated token s (some t) pid now r).1
        (activated s t pid now)
unfolding get_commercial_subscription
activated-Extends token s days now pid r = record {
  stored = Dict.get-insert_self token _ r.commercial_subscriptions_by_token;
  expiry = refl;
  paid = λ t h. unfold is_paid expires_after in lt→ltb t _ h;
  same = (refl, refl, refl);
  others = λ j ne. get-insert_ne token j _ r.commercial_subscriptions_by_token ne;
}

-- `activate_commercial_subscription` of an unknown token changes nothing and returns `None`. Of a
-- known one it makes the subscription paid for `days` days more, counted from its expiry if that
-- lies ahead and from now otherwise, and changes no other token's; or the sum is past the last
-- `datetime`, or the days past the longest `timedelta`, and it raises `OverflowError` and changes
-- nothing.
pub activate_commercial_subscription-Activates :
    (token : String) (days now : ℕ) (pid : Option String) (r : Repo)
    → Activates token days now r (activate_commercial_subscription token days pid now r)
unfolding activate_commercial_subscription
activate_commercial_subscription-Activates token days now pid r =
    elim (Option-cases (Dict.get token r.commercial_subscriptions_by_token)) [
      | inl unknown ↦
          rw (unknown, activate_commercial_subscription)
            (unfold get_commercial_subscription in (unknown, refl))
      | inr (s, known) ↦
          rw (known, activate_commercial_subscription)
            (rw extension_base-max
              (elim (add_days-cases (max (or_else s.expires_at now) now) days) [
                | inl fits ↦ rw fits (
                  s,
                  unfold get_commercial_subscription in known,
                  activated-Extends token s days now pid r,
                )
                | inr (fails, why) ↦
                    rw fails (s, unfold get_commercial_subscription in known, refl, refl, why)
              ]))
    ]

-- An activation of a known token whose days and expiry are in range.
activation_runs :
    (token : String) (s : CommercialSubscription) (days now : ℕ) (pid : Option String) (r : Repo)
    → get_commercial_subscription token r ≡ some s
    → days ≤ max_timedelta_days
    → max (or_else s.expires_at now) now + days * day ≤ max_datetime
    → (u : CommercialSubscription) × ((activate_commercial_subscription token days pid now r).0
        ≡ ok (some u))
      × Extends token s days now r (activate_commercial_subscription token days pid now r).1 u
unfolding activate_commercial_subscription get_commercial_subscription
activation_runs token s days now pid r known short fits =
    let t = max (or_else s.expires_at now) now + days * day in
    rw (known, activate_commercial_subscription)
      (rw extension_base-max (
        rw (add_days_fits (max (or_else s.expires_at now) now) days short fits)
          (activated s t pid now, refl, activated-Extends token s days now pid r)))

-- Two activations, the second before the time of the first has run out, give the days of both: in
-- range they end at the expiry that one activation of all the days gives.
pub activate_twice :
    (token : String) (s : CommercialSubscription) (d1 d2 now later : ℕ) (p1 p2 : Option String)
    (r : Repo)
    → get_commercial_subscription token r ≡ some s
    → d1 ≤ max_timedelta_days
    → d2 ≤ max_timedelta_days
    → max (or_else s.expires_at now) now + (d1 + d2) * day ≤ max_datetime
    → later ≤ max (or_else s.expires_at now) now + d1 * day
    → (u : CommercialSubscription) × (get_commercial_subscription token
          (activate_commercial_subscription token d2 p2 later
            (activate_commercial_subscription token d1 p1 now r).1).1
        ≡ some u)
      × (u.expires_at ≡ some (max (or_else s.expires_at now) now + (d1 + d2) * day))
activate_twice token s d1 d2 now later p1 p2 r known h1 h2 fits early =
    let (u, _, first) = activation_runs token s d1 now p1 r known h1 (omega arith) in
    let base = max (or_else u.expires_at later) later in
    let e : base ≡ max (or_else s.expires_at now) now + d1 * day = rw first.expiry (omega arith) in
    let (v, _, second) = activation_runs token u d2 later p2 _ first.stored h2 (omega arith) in
    (v, second.stored, second.expiry ∙ ap some (omega arith))
