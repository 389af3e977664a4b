-- ===== src/Service/Subscriptions/Paid.antt =====
-- Who is served a subscription.
use vpp_wl_mobile.Prelude.{
  ◌⊎◌, ◌+◌, ap, not, String, ◌≡◌, refl, sym, ◌∙◌, inl, inr, true, some, Bool-cases, Option-cases,
}
use vpp_wl_mobile.Service.{Action, Python, World, now}
use vpp_wl_mobile.Errors.{
  or_raise, raise_if, ◌>>=◌, unicode_error, overflow_error, integrity_error, invalid_operation,
  key_error, type_error, Result, ok, raised, api, Error, Status, not_found, forbidden,
  service_unavailable, value_error,
}
use vpp_wl_mobile.Models.{CommercialSubscription, is_paid}
use vpp_wl_mobile.Repository.Commercial.{get_commercial_subscription}
use vpp_wl_mobile.Repository.Nodes.{list_nodes}
use vpp_wl_mobile.Service.Receipts.{value_error_as}
use vpp_wl_mobile.Service.Sales.{commercial_subscription, require_active_commercial_subscription}
use vpp_wl_mobile.Service.Subscriptions.{v2ray_subscription}
use vpp_wl_mobile.Links.Subscription.{LinkLibrary, encoded_subscription}

value_error_as-ok :
    {A : Type 0} (status : Status) (r : Result A) (a : A)
    → value_error_as status r ≡ ok a
    → r ≡ ok a
value_error_as-ok status (ok x) a h = h
value_error_as-ok status (raised (api s m)) a h = h
value_error_as-ok status (raised (value_error m)) a h = absurd (cc)
value_error_as-ok status (raised type_error) a h = h
value_error_as-ok status (raised key_error) a h = h
value_error_as-ok status (raised overflow_error) a h = h
value_error_as-ok status (raised integrity_error) a h = h
value_error_as-ok status (raised invalid_operation) a h = h
value_error_as-ok status (raised unicode_error) a h = h

abbrev missing : Error
missing = api not_found "subscription not found"

abbrev expired : Error
expired = api forbidden "subscription expired"

-- The rest of the check for a subscription that is found, and of the method behind the check.
abbrev unless_expired : CommercialSubscription → Action (Unit {0})
unless_expired s w =
    raise_if (not (is_paid s (w.clock w.reads))) expired (record w { reads = w.reads + 1 })

abbrev serve : LinkLibrary → Python → Unit {0} → Action String
serve link py _ w =
    (value_error_as service_unavailable (encoded_subscription link py (list_nodes w.repo)), w)

-- What the check of a subscription finds.
required-cases :
    (token : String) (w : World)
    → ((s : CommercialSubscription) × (get_commercial_subscription token w.repo ≡ some s)
        × (is_paid s (w.clock w.reads) ≡ true)
        × (require_active_commercial_subscription token w
            ≡ (ok tt, record w { reads = w.reads + 1 })))
      ⊎ ((e : Error) × (v : World) × (require_active_commercial_subscription token w
            ≡ (raised e, v)))
unfolding require_active_commercial_subscription commercial_subscription now
required-cases token w = elim (Option-cases (get_commercial_subscription token w.repo)) [
  | inl n ↦ inr (missing, w, ap (λ o. (or_raise o missing >>= unless_expired) w) n)
  | inr (s, e) ↦
      let checked = ap (λ o. (or_raise o missing >>= unless_expired) w) e in
      elim (Bool-cases (is_paid s (w.clock w.reads))) [
        | inl p ↦ inl (s, e, p, checked ∙ rw p refl)
        | inr f ↦ inr (expired, record w { reads = w.reads + 1 }, checked ∙ rw f refl)
      ]
]

-- A subscription is answered only to a token of the repository whose subscription is paid at the
-- time of the call, and it is the one that is made of all nodes of the repository.
pub v2ray_subscription-Paid :
    (link : LinkLibrary) (py : Python) (token text : String) (w : World)
    → (v2ray_subscription link py token w).0 ≡ ok text
    → (s : CommercialSubscription) × (get_commercial_subscription token w.repo ≡ some s)
      × (is_paid s (w.clock w.reads) ≡ true)
      × (encoded_subscription link py (list_nodes w.repo) ≡ ok text)
unfolding v2ray_subscription
v2ray_subscription-Paid link py token text w h =
    let rest : Result (Unit {0}) × World → Result String =
      λ m. (((λ _. m) >>= serve link py) w).0 in
    elim (required-cases token w) [
      | inl (s, e, p, k) ↦
          (s, e, p, value_error_as-ok service_unavailable _ text (sym (ap rest k) ∙ h))
      | inr (e, v, k) ↦ let wrong : raised e ≡ ok text = sym (ap rest k) ∙ h in absurd (cc)
    ]
