-- ===== src/Service/Admin/Unchanged.antt =====
-- What the methods of the repository leave as it was.
use vpp_wl_mobile.Prelude.{ℕ, String, ◌≡◌, refl, ◌⊎◌, inl, inr, Option, none, some, Option-cases}
use vpp_wl_mobile.Prelude.Dict
use vpp_wl_mobile.Errors.{raised, ok, Error, Result}
use vpp_wl_mobile.Repository.Commercial.Extension.{
  activate_commercial_subscription-Activates, Activates,
}
use vpp_wl_mobile.Repository.Commercial.{extension_base, add_days, activate_commercial_subscription}
use vpp_wl_mobile.Models.{CommercialSubscription}
use vpp_wl_mobile.Repository.Nodes.{HealthFields, update_node_health}
use vpp_wl_mobile.Repository.{Repo}

pub update_node_health-none :
    (id : String) (f : HealthFields) (r : Repo)
    → (update_node_health id f r).0 ≡ none
    → (update_node_health id f r).1 ≡ r
unfolding update_node_health
update_node_health-none id f r = elim (Option-cases (Dict.get id r.nodes_by_id)) [
  | inl e ↦ rw (e, update_node_health) (λ _. refl)
  | inr (n, e) ↦ rw (e, update_node_health) (λ h. cc)
]

pub update_node_health-events :
    (id : String) (f : HealthFields) (r : Repo)
    → (update_node_health id f r).1.admin_audit_events ≡ r.admin_audit_events
unfolding update_node_health
update_node_health-events id f r = elim (Option-cases (Dict.get id r.nodes_by_id)) [
  | inl e ↦ rw (e, update_node_health) refl
  | inr (n, e) ↦ rw (e, update_node_health) refl
]

pub activation-unchanged :
    (token : String) (days at : ℕ) (pid : Option String) (r : Repo)
    → (((activate_commercial_subscription token days pid at r).0 ≡ ok none)
        ⊎ (e : Error) × ((activate_commercial_subscription token days pid at r).0 ≡ raised e))
    → (activate_commercial_subscription token days pid at r).1 ≡ r
activation-unchanged token days at pid r fails =
    unchanged (activate_commercial_subscription token days pid at r)
      (activate_commercial_subscription-Activates token days at pid r) fails
  where
    unchanged :
        (run : Result (Option CommercialSubscription) × Repo)
        → Activates token days at r run
        → ((run.0 ≡ ok none) ⊎ (e : Error) × (run.0 ≡ raised e))
        → run.1 ≡ r
    unchanged (ok none, r') a fails = a.1
    unchanged (ok (some u), r') a (inl h) = cc
    unchanged (ok (some u), r') a (inr (e, h)) = cc
    unchanged (raised e, r') a fails = a.3

pub activation-events :
    (token : String) (days at : ℕ) (pid : Option String) (r : Repo)
    → (activate_commercial_subscription token days pid at r).1.admin_audit_events
      ≡ r.admin_audit_events
unfolding activate_commercial_subscription
activation-events token days at pid r =
    elim (Option-cases (Dict.get token r.commercial_subscriptions_by_token)) [
      | inl e ↦ rw (e, activate_commercial_subscription) refl
      | inr (s, e) ↦ elim (Option-cases (add_days (extension_base s.expires_at at) days)) [
        | inl f ↦ rw (e, activate_commercial_subscription) (rw f refl)
        | inr (t, f) ↦ rw (e, activate_commercial_subscription) (rw f refl)
      ]
    ]
