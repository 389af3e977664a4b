-- ===== src/Repository/Users/Invariant.antt =====
-- The three dicts of users and subscriptions agree, and every method keeps them so.
use vpp_wl_mobile.Prelude.{
  sym, ◌∙◌, ◌≢◌, refl, Option-cases, ℕ, String, ◌≡◌, inl, inr, false, none, some, arith, ◌==◌,
  eq_iff, eq_refl, Bool-cases, is_empty,
}
use vpp_wl_mobile.Prelude.Dict
use vpp_wl_mobile.Prelude.Dict.{dict_laws, get-insert, get-pop}
use vpp_wl_mobile.Repository.Users.{
  without_user, existing_user, get_or_create_user, new_user, create_user,
}
use vpp_wl_mobile.Errors.{ok, Result}
use vpp_wl_mobile.Models.{User, Subscription}
use vpp_wl_mobile.Repository.{Repo}

-- The user that an identifier stands for.
abbrev pub Known : Repo → String → Type 0
Known r id = (u : User) × (Dict.get id r.users_by_id ≡ some u)

pub record IsConsistent (r : Repo) : Type 0 where
  pub indexed :
      (d id : String)
      → Dict.get d r.users_by_device_id ≡ some id
      → (u : User) × (Dict.get id r.users_by_id ≡ some u) × (u.device_id ≡ d)
  pub listed :
      (id : String) (u : User)
      → Dict.get id r.users_by_id ≡ some u
      → (u.id ≡ id) × (Dict.get u.device_id r.users_by_device_id ≡ some id) × (is_empty id ≡ false)
  pub subscribed :
      (id : String) (s : Subscription)
      → Dict.get id r.subscriptions_by_user_id ≡ some s
      → (s.user_id ≡ id) × Known r id

-- An identifier that `new_id` may return: it is not empty, and no user has it.
pub record IsFresh (r : Repo) (uid : String) : Type 0 where
  pub unused : Dict.get uid r.users_by_id ≡ none
  pub nonempty : is_empty uid ≡ false

module _ (uid d : String) (now : ℕ) (r : Repo) (inv : IsConsistent r) (fresh : IsFresh r uid)
    (absent : Dict.get d r.users_by_device_id ≡ none) where
  abbrev r' : Repo
  r' = (create_user uid d now r).1

  still_known :
      (id : String) (u : User)
      → Dict.get id r.users_by_id ≡ some u
      → Dict.get id r'.users_by_id ≡ some u
  unfolding create_user
  still_known id u h = simp get-insert (ground (arith, eq_iff uid id, fresh.unused))

  create-indexed :
      (e id : String)
      → Dict.get e r'.users_by_device_id ≡ some id
      → (u : User) × (Dict.get id r'.users_by_id ≡ some u) × (u.device_id ≡ e)
  unfolding create_user
  create-indexed e id h = elim (Bool-cases (d == e)) [
    | inl same ↦
        let k : uid ≡ id = ground (arith, get-insert d e uid r.users_by_device_id) in
        (new_user uid d now, rw get-insert (ground (arith, eq_iff uid id)), (eq_iff d e).0 same)
    | inr other ↦
        let k : Dict.get e r.users_by_device_id ≡ some id =
          ground (arith, get-insert d e uid r.users_by_device_id) in
        let (u, known, dev) = inv.indexed e id k in (u, still_known id u known, dev)
  ]

  create-listed :
      (id : String) (u : User)
      → Dict.get id r'.users_by_id ≡ some u
      → (u.id ≡ id) × (Dict.get u.device_id r'.users_by_device_id ≡ some id) × (is_empty id ≡ false)
  unfolding create_user
  create-listed id u h = ground (
    arith,
    get-insert uid id (new_user uid d now) r.users_by_id,
    eq_iff uid id,
    fresh.nonempty,
    inv.listed id u,
    get-insert d u.device_id uid r.users_by_device_id,
    eq_iff d u.device_id,
    eq_refl d,
    absent,
  )

  create-subscribed :
      (id : String) (s : Subscription)
      → Dict.get id r'.subscriptions_by_user_id ≡ some s
      → (s.user_id ≡ id) × Known r' id
  unfolding create_user
  create-subscribed id s h =
      let (own, (u, known)) = inv.subscribed id s h in (own, (u, still_known id u known))

  create_user-IsConsistent : IsConsistent r'
  create_user-IsConsistent = record {
    indexed = create-indexed;
    listed = create-listed;
    subscribed = create-subscribed;
  }

-- A device that is listed already gets its user back, and nothing changes.
existing_run :
    (d uid id : String) (now : ℕ) (u : User) (r : Repo)
    → Dict.get d r.users_by_device_id ≡ some id
    → Dict.get id r.users_by_id ≡ some u
    → is_empty id ≡ false
    → get_or_create_user d uid now r ≡ (ok u, r)
unfolding get_or_create_user
existing_run d uid id now u r h known nonempty =
    rw (h, get_or_create_user) (rw nonempty (rw (known, existing_user)))

-- What the caller of `get_or_create_user` relies on.
abbrev pub Delivers : String → Result User × Repo → Type 0
Delivers d (res, r) =
    IsConsistent r
    × ((u : User) × (res ≡ ok u)
        × (u.device_id ≡ d)
        × (Dict.get u.id r.users_by_id ≡ some u)
        × (Dict.get d r.users_by_device_id ≡ some u.id))

create-Delivers :
    (d uid : String) (now : ℕ) (r : Repo)
    → IsConsistent r
    → IsFresh r uid
    → Dict.get d r.users_by_device_id ≡ none
    → Delivers d (create_user uid d now r)
create-Delivers d uid now r inv fresh absent = (
  create_user-IsConsistent uid d now r inv fresh absent,
  (
    new_user uid d now,
    (unfold create_user in refl),
    refl,
    (unfold create_user in Dict.get-insert_self uid (new_user uid d now) r.users_by_id),
    (unfold create_user in Dict.get-insert_self d uid r.users_by_device_id),
  ),
)

create_branch :
    (d uid : String) (now : ℕ) (r : Repo)
    → Dict.get d r.users_by_device_id ≡ none
    → get_or_create_user d uid now r ≡ create_user uid d now r
unfolding get_or_create_user
create_branch d uid now r h = rw (h, get_or_create_user)

-- From a consistent repository and a fresh identifier, `get_or_create_user` raises nothing: it
-- returns a user of the device, listed under both keys, in a consistent repository.
pub get_or_create_user-Delivers :
    (d uid : String) (now : ℕ) (r : Repo)
    → IsConsistent r
    → IsFresh r uid
    → Delivers d (get_or_create_user d uid now r)
get_or_create_user-Delivers d uid now r inv fresh =
    elim (Option-cases (Dict.get d r.users_by_device_id)) [
      | inl absent ↦
          rw (create_branch d uid now r absent) (create-Delivers d uid now r inv fresh absent)
      | inr (id, h) ↦
          let (u, known, dev) = inv.indexed d id h in
          let (own, _, nonempty) = inv.listed id u known in
          rw (existing_run d uid id now u r h known nonempty) (inv, (u, refl, dev, cc, cc))
    ]

-- A second call for the same device, whatever identifier it draws, returns the same user and changes
-- nothing.
get_or_create_user_twice :
    (d uid uid' : String) (now now' : ℕ) (r : Repo)
    → IsConsistent r
    → IsFresh r uid
    → get_or_create_user d uid' now' (get_or_create_user d uid now r).1
      ≡ get_or_create_user d uid now r
get_or_create_user_twice d uid uid' now now' r inv fresh =
    let (inv', (u, res, dev, known, at_device)) =
      get_or_create_user-Delivers d uid now r inv fresh in
    let s : Repo = (get_or_create_user d uid now r).1 in
    let (_, _, nonempty) = inv'.listed u.id u known in
    existing_run d uid' u.id now' u s at_device known nonempty ∙ (λ i. (sym res i, s))

module _ (id : String) (u : User) (r : Repo) (inv : IsConsistent r)
    (known : Dict.get id r.users_by_id ≡ some u) where
  abbrev left : Repo
  left = without_user id u r

  delete-indexed :
      (e j : String)
      → Dict.get e left.users_by_device_id ≡ some j
      → (v : User) × (Dict.get j left.users_by_id ≡ some v) × (v.device_id ≡ e)
  unfolding without_user
  delete-indexed e j h =
      let at : Dict.get e r.users_by_device_id ≡ some j =
        ground (arith, get-pop u.device_id e r.users_by_device_id) in
      let (v, there, dev) = inv.indexed e j at in
      (
        v,
        ground (
          arith,
          get-pop id j r.users_by_id,
          get-pop u.device_id e r.users_by_device_id,
          eq_iff id j,
          eq_iff u.device_id e,
        ),
        dev,
      )

  delete-listed :
      (j : String) (v : User)
      → Dict.get j left.users_by_id ≡ some v
      → (v.id ≡ j) × (Dict.get v.device_id left.users_by_device_id ≡ some j) × (is_empty j ≡ false)
  unfolding without_user
  delete-listed j v h = ground (
    arith,
    get-pop id j r.users_by_id,
    get-pop u.device_id v.device_id r.users_by_device_id,
    eq_iff id j,
    eq_iff u.device_id v.device_id,
    inv.listed j v,
    inv.listed id u,
  )

  delete-subscribed :
      (j : String) (s : Subscription)
      → Dict.get j left.subscriptions_by_user_id ≡ some s
      → (s.user_id ≡ j) × Known left j
  unfolding without_user
  delete-subscribed j s h =
      let at : Dict.get j r.subscriptions_by_user_id ≡ some s =
        ground (arith, get-pop id j r.subscriptions_by_user_id) in
      let (own, (v, there)) = inv.subscribed j s at in
      (
        own,
        (v, ground (arith, get-pop id j r.users_by_id, get-pop id j r.subscriptions_by_user_id)),
      )

  pub unlisted : (e : String) → Dict.get e left.users_by_device_id ≢ some id
  unfolding without_user
  unlisted e h = let (v, there, _) = delete-indexed e id h in gone v there
    where
      gone : (v : User) → Dict.get id left.users_by_id ≢ some v
      gone v there = ground (arith, get-pop id id r.users_by_id, eq_refl id)

  pub without_user-IsConsistent : IsConsistent left
  without_user-IsConsistent = record {
    indexed = delete-indexed;
    listed = delete-listed;
    subscribed = delete-subscribed;
  }
