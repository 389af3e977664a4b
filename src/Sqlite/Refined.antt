-- ===== src/Sqlite/Refined.antt =====
-- The commercial subscriptions of backend/app/repositories/sqlite.py against those of
-- backend/app/repositories/memory.py.
use vpp_wl_mobile.Prelude.{
  ap, inr, ◌∙◌, inl, Bool-cases, if◌then◌else◌, ℕ, String, ◌≡◌, refl, subst, false, Option, none,
  some, is_some, is_empty,
}
use vpp_wl_mobile.Prelude.Dict
use vpp_wl_mobile.Sqlite.Users
use vpp_wl_mobile.Repository.Commercial
use vpp_wl_mobile.Sqlite.Reads.{if_found-is_some, put_by-Reads, update_by-Reads}
use vpp_wl_mobile.Models.{CommercialSubscription}
use vpp_wl_mobile.Sqlite.{Library, Database, CommercialRow}
use vpp_wl_mobile.Sqlite.Rows.{commercial_from_row, dt_from_text, optional_dt}
use vpp_wl_mobile.Sqlite.Tables.{find_by}
use vpp_wl_mobile.Sqlite.Users.{pending, pending_row, if_found, commercial_token, activated_row}
use vpp_wl_mobile.Repository.Commercial.{activated}
use vpp_wl_mobile.Repository.{Repo}
use vpp_wl_mobile.Errors.Chain.{>>=-inv, ok-inj, or_fail}
use vpp_wl_mobile.Errors.{pure, >>=-ok, value_error, Result, ok, raised, integrity_error}

module _ (lib : Library) where
  -- `fromisoformat` undoes `isoformat`, and no such text is empty.
  abbrev pub KeepsTimes : Type 0
  KeepsTimes =
      (t : ℕ) → (is_empty (lib.to_text t) ≡ false) × (lib.from_text (lib.to_text t) ≡ some t)

  -- The table holds the subscriptions of the dict.
  abbrev pub Represents : Repo → Database → Type 0
  Represents r db =
      (token : String)
      → (Users.get_commercial_subscription lib token db).0
        ≡ ok (Commercial.get_commercial_subscription token r)

  -- A row that is activated is read as the subscription that is activated.
  activated_row_lem :
      (row : CommercialRow) (s : CommercialSubscription) (expires_at : ℕ)
      (payment_id : Option String) (now : ℕ)
      → KeepsTimes
      → commercial_from_row lib row ≡ ok s
      → commercial_from_row lib
          (activated_row lib expires_at (Commercial.text_or payment_id s.payment_id) now row)
        ≡ ok (activated s expires_at payment_id now)
  unfolding commercial_from_row dt_from_text optional_dt
  activated_row_lem row s expires_at payment_id now times h =
      let (created_at, e1, h1) = >>=-inv (dt_from_text lib row.created_at) _ s h in
      let (updated_at, e2, h2) = >>=-inv (dt_from_text lib row.updated_at) _ s h1 in
      let (expires_at', e3, h3) = >>=-inv (optional_dt lib row.expires_at) _ s h2 in
      let same = ok-inj h3 in
      let created : or_fail (lib.from_text row.created_at) (value_error "Invalid isoformat string")
          ≡ ok created_at =
        e1 in
      subst
        (λ q.
          commercial_from_row lib
            (activated_row lib expires_at (Commercial.text_or payment_id q.payment_id) now row)
          ≡ ok (activated q expires_at payment_id now))
        same
        (rw created (rw (times now).1 (rw (times expires_at).0 (rw (times expires_at).1 refl))))

  new_row_lem :
      (token tariff_id : String) (payment_id : Option String) (now : ℕ)
      → KeepsTimes
      → commercial_from_row lib (pending_row lib token tariff_id payment_id now)
        ≡ ok (pending token tariff_id payment_id now)
  unfolding commercial_from_row dt_from_text optional_dt
  new_row_lem token tariff_id payment_id now times = rw (times now).1 refl

  -- Where the table holds the subscriptions of the dict and `fromisoformat` undoes `isoformat`,
  -- creating a subscription with a token that the table has is refused and changes nothing, and with
  -- another token the same subscription is created in the table and in the dict.
  pub create_commercial_subscription-Refines :
      (token tariff_id : String) (payment_id : Option String) (now : ℕ) (r : Repo) (db : Database)
      → KeepsTimes
      → Represents r db
      → let taken = is_some (Commercial.get_commercial_subscription token r) in
        let (s, r') = Commercial.create_commercial_subscription token tariff_id payment_id now r in
        let (result, db') =
          Users.create_commercial_subscription lib token tariff_id payment_id now db in
        (result ≡ (if taken then raised integrity_error else ok s))
        × Represents (if taken then r else r') db'
  unfolding Users.create_commercial_subscription Users.get_commercial_subscription
      Commercial.create_commercial_subscription Commercial.get_commercial_subscription
  create_commercial_subscription-Refines token tariff_id payment_id now r db times h =
      let same =
        if_found-is_some (commercial_from_row lib)
          (find_by commercial_token token db.commercial_subscriptions)
          (Commercial.get_commercial_subscription token r) (h token) in
      elim (Bool-cases (is_some (Commercial.get_commercial_subscription token r))) [
        | inl e ↦
            let e' = same ∙ e in
            rw (e', Users.create_commercial_subscription)
              (rw (e, Commercial.get_commercial_subscription) (refl, h))
        | inr e ↦
            let e' = same ∙ e in
            rw (e', Users.create_commercial_subscription)
              (rw (e, Commercial.get_commercial_subscription)
                (
                  refl,
                  put_by-Reads commercial_token (commercial_from_row lib)
                      (pending_row lib token tariff_id payment_id now)
                      (pending token tariff_id payment_id now) db.commercial_subscriptions
                      r.commercial_subscriptions_by_token
                      (new_row_lem token tariff_id payment_id now times) h,
                ))
      ]

  store_activated-Refines :
      (token : String) (payment_id : Option String) (now : ℕ) (r : Repo) (db : Database)
      (s : CommercialSubscription) (sum : Option ℕ)
      → KeepsTimes
      → Represents r db
      → Commercial.get_commercial_subscription token r ≡ some s
      → let (expected, r') = Commercial.store_activated token s sum payment_id now r in
        let (result, db') =
          Users.store_activated lib token sum (Commercial.text_or payment_id s.payment_id) now db in
        (result ≡ expected) × Represents r' db'
  unfolding Users.get_commercial_subscription Commercial.get_commercial_subscription
  store_activated-Refines token payment_id now r db s none times h e = (refl, h)
  store_activated-Refines token payment_id now r db s (some t) times h e =
      let rows = db.commercial_subscriptions in
      let d = r.commercial_subscriptions_by_token in
      let updated = activated s t payment_id now in
      let reads =
        update_by-Reads commercial_token (commercial_from_row lib) token
          (activated_row lib t (Commercial.text_or payment_id s.payment_id) now) s updated rows d
          (λ row. refl) (λ row read. activated_row_lem row s t payment_id now times read) e h in
      (reads token ∙ ap (λ o. ok o) (Dict.get-insert_self token updated d), reads)

  found-Refines :
      (token : String) (duration_days : ℕ) (payment_id : Option String) (now : ℕ) (r : Repo)
      (db : Database)
      → KeepsTimes
      → Represents r db
      → (o : Option CommercialSubscription) → Commercial.get_commercial_subscription token r ≡ o
      → let (expected, r') : Result (Option CommercialSubscription) × Repo = elim o [
        | none ↦ pure none r
        | some s ↦
            Commercial.store_activated token s
              (Commercial.add_days (Commercial.extension_base s.expires_at now) duration_days)
              payment_id
              now
              r
      ] in
        let (result, db') = Users.activate_found lib token duration_days payment_id now o db in
        (result ≡ expected) × Represents r' db'
  found-Refines token duration_days payment_id now r db times h none e = (refl, h)
  found-Refines token duration_days payment_id now r db times h (some s) e =
      store_activated-Refines token payment_id now r db s
        (Commercial.add_days (Commercial.extension_base s.expires_at now) duration_days) times h e

  -- Where the table holds the subscriptions of the dict and `fromisoformat` undoes `isoformat`,
  -- activating a subscription has the same result on the table and on the dict, whatever it is, and
  -- the table then holds the subscriptions of the dict.
  pub activate_commercial_subscription-Refines :
      (token : String) (duration_days : ℕ) (payment_id : Option String) (now : ℕ) (r : Repo)
      (db : Database)
      → KeepsTimes
      → Represents r db
      → let (expected, r') =
          Commercial.activate_commercial_subscription token duration_days payment_id now r in
        let (result, db') =
          Users.activate_commercial_subscription lib token duration_days payment_id now db in
        (result ≡ expected) × Represents r' db'
  unfolding Users.activate_commercial_subscription Users.get_commercial_subscription
      Commercial.activate_commercial_subscription Commercial.get_commercial_subscription
  activate_commercial_subscription-Refines token duration_days payment_id now r db times h =
      rw
        (
          >>=-ok (Users.get_commercial_subscription lib token)
              (Users.activate_found lib token duration_days payment_id now) db (h token),
          Users.activate_commercial_subscription,
        )
        (found-Refines token duration_days payment_id now r db times h
          (Dict.get token r.commercial_subscriptions_by_token) refl)
