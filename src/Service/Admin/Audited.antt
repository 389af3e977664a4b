-- ===== src/Service/Admin/Audited.antt =====
-- The log of what administrators do: the calls of backend/app/api/service.py that change something.
use vpp_wl_mobile.Prelude.{
  ◌⊎◌, inr, inl, Option-cases, [], concat, String, ◌≡◌, refl, ap, Bool, true, false, Option, none,
  some, ◌∷◌,
}
use vpp_wl_mobile.Prelude.Dict
use vpp_wl_mobile.Json.{Json}
use vpp_wl_mobile.Models.{AdminAuditEvent}
use vpp_wl_mobile.Service.Admin.Unchanged.{
  activation-unchanged, activation-events, update_node_health-none, update_node_health-events,
}
use vpp_wl_mobile.Errors.{
  found-cases, Exec, pure, raised, lift, raise_if, ok, or_raise, Error, Result, ◌>>=◌, ◌>>◌,
}
use vpp_wl_mobile.Service.{on_repo, update_repo, now, new_id, World, Action, Settings, Python}
use vpp_wl_mobile.Service.Admin.{
  success_event, admin_disable_node, admin_patch_node, admin_update_node_health,
  admin_activate_commercial_subscription, admin_upsert_node, audit,
}
use vpp_wl_mobile.Repository.Events.{add_admin_audit_event}
use vpp_wl_mobile.Links.Parser.{UrlLibrary}
use vpp_wl_mobile.Service.Admin.Import.{admin_import_vless}
use vpp_wl_mobile.Repository.{Repo}
use vpp_wl_mobile.Service.Payload.{Payload, require_admin}

pub data AdminCall : Type 0 where
  activate update_health patch : String → Payload → AdminCall
  upsert import_vless : Payload → AdminCall
  disable : String → AdminCall

-- The name that the log gives a call.
abbrev pub action_of : AdminCall → String
action_of (activate _ _) = "commercial_subscription.activate"
action_of (update_health _ _) = "node.health.update"
action_of (patch _ _) = "node.patch"
action_of (upsert _) = "node.upsert"
action_of (import_vless _) = "node.import_vless"
action_of (disable _) = "node.disable"

abbrev pub admin_run : UrlLibrary → Python → Settings → String → AdminCall → Action (Dict.Dict Json)
admin_run url py cfg tok (activate token payload) =
    admin_activate_commercial_subscription py cfg tok token payload
admin_run url py cfg tok (update_health id payload) = admin_update_node_health py cfg tok id payload
admin_run url py cfg tok (patch id payload) = admin_patch_node py cfg tok id payload
admin_run url py cfg tok (upsert payload) = admin_upsert_node py cfg tok payload
admin_run url py cfg tok (import_vless payload) = admin_import_vless url py cfg tok payload
admin_run url py cfg tok (disable id) = admin_disable_node py cfg tok id

module _ (cfg : Settings) (tok action : String) (before : Repo) where
  -- A call that returns had the administrator's token and has logged one event; one that raises has
  -- left the repository as it was.
  unfoldable pub Audited : Result (Dict.Dict Json) × World → Type 0
  Audited (ok d, w) =
      (require_admin cfg tok ≡ ok tt)
      × (e : AdminAuditEvent) × (w.repo.admin_audit_events ≡ e ∷ before.admin_audit_events)
      × (e.action ≡ action)
      × (e.result ≡ "success")
  Audited (raised e, w) = w.repo ≡ before

  lift-Audited :
      {A : Type 0} (r : Result A) (f : A → Action (Dict.Dict Json)) (w : World)
      → w.repo ≡ before
      → ((a : A) → r ≡ ok a → Audited (f a w))
      → Audited ((lift r >>= f) w)
  unfolding Audited
  lift-Audited (ok a) f w same h = h a refl
  lift-Audited (raised e) f w same h = same

  or_raise-Audited :
      {A : Type 0} (o : Option A) (e : Error) (f : A → Action (Dict.Dict Json)) (w : World)
      → w.repo ≡ before
      → ((a : A) → o ≡ some a → Audited (f a w))
      → Audited ((or_raise o e >>= f) w)
  unfolding Audited
  or_raise-Audited (some a) e f w same h = h a refl
  or_raise-Audited none e f w same h = same

  raise_if-Audited :
      (c : Bool) (e : Error) (f : Unit → Action (Dict.Dict Json)) (w : World)
      → w.repo ≡ before
      → Audited (f tt w)
      → Audited ((raise_if c e >>= f) w)
  unfolding Audited
  raise_if-Audited true e f w same h = same
  raise_if-Audited false e f w same h = h

  audit-Audited :
      (target_type target : String) (details d : Dict.Dict Json) (w : World)
      → require_admin cfg tok ≡ ok tt
      → w.repo.admin_audit_events ≡ before.admin_audit_events
      → Audited ((audit action target_type target details >> pure d) w)
  unfolding Audited audit new_id now add_admin_audit_event
  audit-Audited target_type target details d w admin same =
      let e : AdminAuditEvent =
        success_event action target_type target details
          (concat ("aae" ∷ "_" ∷ w.random w.draws ∷ [])) (w.clock w.reads) in
      (admin, e, ap (λ l. e ∷ l) same, refl, refl)

  -- A method of the repository that finds a thing and changes it, or changes nothing.
  update-Audited :
      {A : Type 0} (g : Repo → Option A × Repo) (e : Error) (f : A → Action (Dict.Dict Json))
      (w : World)
      → ((g w.repo).0 ≡ none → (g w.repo).1 ≡ before)
      → ((a : A) → Audited (f a (record w { repo = (g w.repo).1 })))
      → Audited ((update_repo g >>= λ found. or_raise found e >>= f) w)
  unfolding Audited
  update-Audited g e f w same h = elim (Option-cases (g w.repo).0) [
    | inl missing ↦ rw missing (same missing)
    | inr (a, found) ↦ rw found (h a)
  ]

  -- The same of a method that may raise, and then has changed nothing too.
  exec-Audited :
      {A : Type 0} (m : Exec Repo (Option A)) (e : Error) (f : A → Action (Dict.Dict Json))
      (w : World)
      → (((m w.repo).0 ≡ ok none) ⊎ (E : Error) × ((m w.repo).0 ≡ raised E) → (m w.repo).1 ≡ before)
      → ((a : A) → Audited (f a (record w { repo = (m w.repo).1 })))
      → Audited ((on_repo m >>= λ found. or_raise found e >>= f) w)
  unfolding Audited
  exec-Audited m e f w same h = elim (found-cases (m w.repo).0) [
    | inl (a, found) ↦ rw (found, Audited, ◌>>=◌) (h a)
    | inr (inl missing) ↦ rw (missing, Audited, ◌>>=◌) (same (inl missing))
    | inr (inr (E, fails)) ↦ rw (fails, Audited, ◌>>=◌) (same (inr (E, fails)))
  ]

ruleset auditing = (
  lift-Audited, or_raise-Audited, raise_if-Audited, update-Audited, exec-Audited, audit-Audited,
  activation-unchanged, activation-events, update_node_health-none, update_node_health-events, refl,
)
