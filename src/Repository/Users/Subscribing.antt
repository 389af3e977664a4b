-- ===== src/Repository/Users/Subscribing.antt =====
-- What `delete_user` and `activate_subscription` do to a consistent repository.
use vpp_wl_mobile.Prelude.{
  ltb, ◌&&◌, ◌==◌, lt→ltb, Bool-cases, ℕ, ◌+◌, ◌*◌, ◌<◌, String, ◌≡◌, refl, ◌≢◌, ◌⊎◌, inl, inr,
  true, false, none, some, arith, eq_iff, eq_refl, Option-cases, str_len, strip,
}
use vpp_wl_mobile.Prelude.Dict
use vpp_wl_mobile.Prelude.Dict.{get-insert, get-pop}
use vpp_wl_mobile.Repository.Users.{
  subscribe, delete_user, without_user, activate_subscription, get_or_create_user,
  get_active_subscription, save_subscription, subscription_for, is_store,
}
use vpp_wl_mobile.Errors.{>>=-ok, Result, ok, raised}
use vpp_wl_mobile.Models.{User, Subscription, ReceiptClaim}
use vpp_wl_mobile.Repository.{Repo, day}
use vpp_wl_mobile.Repository.Users.Invariant.{
  Known, IsConsistent, IsFresh, get_or_create_user-Delivers, without_user-IsConsistent, unlisted,
}

-- What `delete_user` has done to the user `id`, and to no other user.
pub record Erased (id : String) (before after : Repo) : Type 0 where
  pub consistent : IsConsistent after
  pub no_user : Dict.get id after.users_by_id ≡ none
  pub no_subscription : Dict.get id after.subscriptions_by_user_id ≡ none
  pub no_device : (d : String) → Dict.get d after.users_by_device_id ≢ some id
  pub others :
      (j : String)
      → j ≢ id
      → (Dict.get j after.users_by_id ≡ Dict.get j before.users_by_id)
        × (Dict.get j after.subscriptions_by_user_id ≡ Dict.get j before.subscriptions_by_user_id)

without_user-Erased :
    (id : String) (u : User) (r : Repo)
    → IsConsistent r
    → Dict.get id r.users_by_id ≡ some u
    → Erased id r (without_user id u r)
unfolding without_user
without_user-Erased id u r inv known = record {
  consistent = without_user-IsConsistent id u r inv known;
  no_user = simp (get-pop, eq_refl);
  no_subscription = simp (get-pop, eq_refl);
  no_device = unlisted id u r inv known;
  others = λ j h. (
    ground (arith, get-pop id j r.users_by_id, eq_iff id j),
    ground (arith, get-pop id j r.subscriptions_by_user_id, eq_iff id j),
  );
}

-- In a consistent repository `delete_user` of a known user answers `True` and erases the user, the
-- subscription and the device entry, no other user's; of an unknown one it answers `False` and
-- changes nothing.
pub delete_user_lem :
    (id : String) (r : Repo)
    → IsConsistent r
    → (Known r id × ((delete_user id r).0 ≡ true) × Erased id r (delete_user id r).1)
      ⊎ ((Dict.get id r.users_by_id ≡ none) × (delete_user id r ≡ (false, r)))
unfolding delete_user
delete_user_lem id r inv = elim (Option-cases (Dict.get id r.users_by_id)) [
  | inl gone ↦ inr (gone, rw (gone, delete_user) refl)
  | inr (u, known) ↦ inl (
    (u, known),
    rw (known, delete_user) refl,
    rw (known, delete_user) (without_user-Erased id u r inv known),
  )
]

-- What a finished `activate_subscription` leaves, by how it ended.
abbrev pub Activates : ReceiptClaim → ℕ → Repo → Result Subscription × Repo → Type 0
Activates claim later before (ok s, r) =
    IsConsistent r
    × (Dict.get s.user_id r.subscriptions_by_user_id ≡ some s)
    × ((u : User) × (Dict.get s.user_id r.users_by_id ≡ some u) × (u.device_id ≡ claim.device_id))
    × (s.platform ≡ claim.platform)
    × (s.product_id ≡ claim.product_id)
    × (s.expires_at ≡ later + 30 * day)
    × ((now : ℕ) → now < later + 30 * day → get_active_subscription s.user_id now r ≡ some s)
Activates claim later before (raised e, r) =
    IsConsistent r
    × (is_store claim.platform ≡ true)
    × (str_len (strip claim.receipt) < 24)
    × (r.subscriptions_by_user_id ≡ before.subscriptions_by_user_id)

subscriptions-get_or_create_user :
    (d uid : String) (now : ℕ) (r : Repo)
    → (get_or_create_user d uid now r).1.subscriptions_by_user_id ≡ r.subscriptions_by_user_id
unfolding get_or_create_user
subscriptions-get_or_create_user d uid now r = ground arith

module _ (sha256_hex : String → String) where
  saved-IsConsistent :
      (s : Subscription) (u : User) (r : Repo)
      → IsConsistent r
      → Dict.get s.user_id r.users_by_id ≡ some u
      → IsConsistent (save_subscription sha256_hex s r).1
  saved-IsConsistent s u r inv known = record {
    indexed = inv.indexed;
    listed = inv.listed;
    subscribed = λ id t h. elim (Bool-cases (s.user_id == id)) [
      | inl same ↦
          let e : s.user_id ≡ id = (eq_iff s.user_id id).0 same in
          (ground (arith, get-insert s.user_id id s r.subscriptions_by_user_id), (u, cc))
      | inr other ↦
          inv.subscribed id t (ground (arith, get-insert s.user_id id s r.subscriptions_by_user_id))
    ];
  }

  saved-Activates :
      (claim : ReceiptClaim) (later : ℕ) (u : User) (before r : Repo)
      → Dict.get u.id r.users_by_id ≡ some u
      → u.device_id ≡ claim.device_id
      → IsConsistent r
      → Activates claim later before
          (save_subscription sha256_hex (subscription_for sha256_hex claim u later) r)
  unfolding get_active_subscription
  saved-Activates claim later u before r known dev inv =
      let s : Subscription = subscription_for sha256_hex claim u later in
      let stored : Dict.get u.id (Dict.insert u.id s r.subscriptions_by_user_id) ≡ some s =
        Dict.get-insert_self u.id s r.subscriptions_by_user_id in
      (
        saved-IsConsistent s u r inv known,
        stored,
        (u, known, dev),
        refl,
        refl,
        refl,
        λ now h. rw (stored, get_active_subscription) (rw (lt→ltb now (later + 30 * day) h)),
      )

  -- From a consistent repository and a fresh identifier: `activate_subscription` stores a
  -- subscription of the claimed device's user, for the claim's platform and product, which is active
  -- until 30 days after the clock read; or it raises, and only for a store receipt of fewer than 24
  -- characters, and leaves the subscriptions as they were. Either way the dicts agree afterwards.
  pub activate_subscription-Activates :
      (claim : ReceiptClaim) (uid : String) (now later : ℕ) (r : Repo)
      → IsConsistent r
      → IsFresh r uid
      → Activates claim later r (activate_subscription sha256_hex claim uid now later r)
  unfolding activate_subscription
  activate_subscription-Activates claim uid now later r inv fresh =
      let (inv', (u, res, dev, known, _)) =
        get_or_create_user-Delivers claim.device_id uid now r inv fresh in
      let s : Repo = (get_or_create_user claim.device_id uid now r).1 in
      rw
        (>>=-ok (get_or_create_user claim.device_id uid now) (subscribe sha256_hex claim later) r
          res)
        (elim (Bool-cases (is_store claim.platform && ltb (str_len (strip claim.receipt)) 24)) [
          | inl short ↦
              unfold subscribe in
              rw short (
                inv',
                ground arith,
                ground arith,
                subscriptions-get_or_create_user claim.device_id uid now r,
              )
          | inr long ↦
              unfold subscribe in rw long (saved-Activates claim later u r s known dev inv')
        ])
