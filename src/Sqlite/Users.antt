-- ===== src/Sqlite/Users.antt =====
-- The users, their store subscriptions and the commercial subscriptions of
-- backend/app/repositories/sqlite.py. The clock and the random identifiers are arguments.
use vpp_wl_mobile.Prelude.{
  ℕ, String, Bool, ◌&&◌, Option, none, some, [], ◌∷◌, ltb, if◌then◌else◌, is_some, str_len, strip,
}
use vpp_wl_mobile.Json.{str, object, Json}
use vpp_wl_mobile.Models.{CommercialSubscription, User, ReceiptClaim, Subscription}
use vpp_wl_mobile.Sqlite.{Library, UserRow, SubscriptionRow, CommercialRow, Action}
use vpp_wl_mobile.Sqlite.Tables.{find_by, put_by, update_by, delete_by}
use vpp_wl_mobile.Sqlite.Rows.{
  user_row, user_from_row, subscription_row, subscription_from_row, commercial_from_row,
}
use vpp_wl_mobile.Repository.Users.{
  new_user, subscription_for, is_store, active_only, export_or_null,
}
use vpp_wl_mobile.Repository.Commercial.{add_days, text_or, extension_base}
use vpp_wl_mobile.Errors.{
  Result, ok, raised, value_error, overflow_error, integrity_error, pure, raise, ◌>>=◌,
}

abbrev pub user_id : UserRow → String
user_id row = row.id

abbrev device_id : UserRow → String
device_id row = row.device_id

abbrev pub subscriber : SubscriptionRow → String
subscriber row = row.user_id

abbrev pub commercial_token : CommercialRow → String
commercial_token row = row.token

-- `_user_from_row(row) if row else None`, and the same for the other rows.
abbrev pub if_found : {R A : Type 0} → (R → Result A) → Option R → Result (Option A)
if_found read none = ok none
if_found read (some row) = elim (read row) [ ok a ↦ ok (some a) | raised e ↦ raised e ]

-- The subscription that `create_commercial_subscription` returns.
abbrev pub pending : String → String → Option String → ℕ → CommercialSubscription
pending token tariff_id payment_id now = record {
  token = token;
  tariff_id = tariff_id;
  status = "pending";
  created_at = now;
  updated_at = now;
  expires_at = none;
  payment_id = payment_id;
}

module _ (lib : Library) where
  -- The identifier is the primary key of the table, and the device has no row.
  abbrev pub insert_user : User → Action User
  insert_user user db =
      if is_some (find_by user_id user.id db.users)
      then (raised integrity_error, db)
      else (ok user, record db { users = put_by user_id (user_row lib user) db.users })

  unfoldable pub get_or_create_user : String → String → ℕ → Action User
  unfolding find_by put_by user_row user_from_row
  get_or_create_user device uid now db = elim (find_by device_id device db.users) [
    | none ↦ insert_user (new_user uid device now) db
    | some row ↦ (user_from_row lib row, db)
  ]

  unfoldable pub get_user : String → Action (Option User)
  unfolding find_by user_from_row
  get_user id db = (if_found (user_from_row lib) (find_by user_id id db.users), db)

  unfoldable pub find_subscription : String → Action (Option Subscription)
  unfolding find_by subscription_from_row
  find_subscription id db =
      (if_found (subscription_from_row lib) (find_by subscriber id db.subscriptions), db)

  abbrev pub user_data : User → Option Subscription → ℕ → Json
  user_data user subscription now = object (
      (
        "user",
        object (
            ("id", str user.id)
            ∷ ("device_id", str user.device_id)
            ∷ ("created_at", str (lib.to_text user.created_at))
            ∷ []),
      )
      ∷ ("subscription", export_or_null lib.to_text subscription now)
      ∷ [])

  abbrev pub export_found : String → ℕ → Option User → Action (Option Json)
  export_found id now none = pure none
  export_found id now (some user) = do
    subscription ← find_subscription id
    pure (some (user_data user subscription now))

  unfoldable pub export_user_data : String → ℕ → Action (Option Json)
  unfolding get_user find_subscription
  export_user_data id now = do user ← get_user id; export_found id now user

  -- `ON DELETE CASCADE` takes the subscription of the user as well.
  unfoldable pub delete_user : String → Action Bool
  unfolding find_by delete_by
  delete_user id db = (
    ok (is_some (find_by user_id id db.users)),
    record db {
      users = delete_by user_id id db.users;
      subscriptions = delete_by subscriber id db.subscriptions;
    },
  )

  -- `user_id` refers to a row of the users.
  unfoldable pub put_subscription : Subscription → Action Subscription
  unfolding find_by put_by subscription_row
  put_subscription s db =
      if is_some (find_by user_id s.user_id db.users)
      then (
        ok s,
        record db { subscriptions = put_by subscriber (subscription_row lib s) db.subscriptions },
      )
      else (raised integrity_error, db)

  unfoldable pub get_active_subscription : String → ℕ → Action (Option Subscription)
  unfolding find_subscription
  get_active_subscription id now = do found ← find_subscription id; pure (active_only found now)

  -- The values of the INSERT statement.
  abbrev pub pending_row : String → String → Option String → ℕ → CommercialRow
  pending_row token tariff_id payment_id now = record {
    token = token;
    tariff_id = tariff_id;
    status = "pending";
    created_at = lib.to_text now;
    updated_at = lib.to_text now;
    expires_at = none;
    payment_id = payment_id;
  }

  -- The identifier is the primary key here too.
  unfoldable pub create_commercial_subscription :
      String → String → Option String → ℕ → Action CommercialSubscription
  unfolding find_by put_by
  create_commercial_subscription token tariff_id payment_id now db =
      if is_some (find_by commercial_token token db.commercial_subscriptions)
      then (raised integrity_error, db)
      else (
        ok (pending token tariff_id payment_id now),
        record db {
          commercial_subscriptions =
              put_by commercial_token (pending_row token tariff_id payment_id now)
                db.commercial_subscriptions;
        },
      )

  unfoldable pub get_commercial_subscription : String → Action (Option CommercialSubscription)
  unfolding find_by commercial_from_row
  get_commercial_subscription token db = (
    if_found (commercial_from_row lib) (find_by commercial_token token db.commercial_subscriptions),
    db,
  )

  abbrev pub activated_row : ℕ → Option String → ℕ → CommercialRow → CommercialRow
  activated_row expires_at payment_id now row = record row {
    status = "active";
    expires_at = some (lib.to_text expires_at);
    payment_id = payment_id;
    updated_at = lib.to_text now;
  }

  abbrev pub store_activated :
      String → Option ℕ → Option String → ℕ → Action (Option CommercialSubscription)
  store_activated token none payment_id now db = raise overflow_error db
  store_activated token (some expires_at) payment_id now db =
      get_commercial_subscription token (record db {
        commercial_subscriptions =
            update_by commercial_token token (activated_row expires_at payment_id now)
              db.commercial_subscriptions;
      })

  abbrev pub activate_found :
      String
      → ℕ
      → Option String
      → ℕ
      → Option CommercialSubscription
      → Action (Option CommercialSubscription)
  activate_found token duration_days payment_id now none = pure none
  activate_found token duration_days payment_id now (some s) =
      store_activated token (add_days (extension_base s.expires_at now) duration_days)
        (text_or payment_id s.payment_id) now

  unfoldable pub activate_commercial_subscription :
      String → ℕ → Option String → ℕ → Action (Option CommercialSubscription)
  unfolding get_commercial_subscription update_by add_days extension_base text_or
  activate_commercial_subscription token duration_days payment_id now = do
    s ← get_commercial_subscription token
    activate_found token duration_days payment_id now s

module _ (lib : Library) (sha256_hex : String → String) where
  unfoldable pub subscribe : ReceiptClaim → ℕ → User → Action Subscription
  unfolding put_subscription
  subscribe claim later user =
      if is_store claim.platform && ltb (str_len (strip claim.receipt)) 24
      then raise (value_error "receipt is too short for non-sandbox validation")
      else put_subscription lib (subscription_for sha256_hex claim user later)

  unfoldable pub activate_subscription : ReceiptClaim → String → ℕ → ℕ → Action Subscription
  unfolding get_or_create_user subscribe
  activate_subscription claim uid now later = do
    user ← get_or_create_user lib claim.device_id uid now
    subscribe claim later user
