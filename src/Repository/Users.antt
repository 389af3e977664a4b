-- ===== src/Repository/Users.antt =====
-- The users and the store subscriptions of backend/app/repositories/memory.py.
pub mod Invariant
pub mod Subscribing
use vpp_wl_mobile.Prelude.{
  ℕ, ◌+◌, ◌*◌, String, Bool, true, false, ◌&&◌, Option, none, some, [], ◌∷◌, ltb, if◌then◌else◌,
  str_len, concat, is_empty, strip,
}
use vpp_wl_mobile.Prelude.Dict
use vpp_wl_mobile.Json.{Json, null, str, bool, object}
use vpp_wl_mobile.Models.{Platform, platform_value, User, Subscription, ReceiptClaim, is_active}
use vpp_wl_mobile.Errors.{
  Result, ok, raised, value_error, key_error, Exec, pure, raise, ◌>>=◌, ◌>>◌,
}
use vpp_wl_mobile.Repository.{Repo, day}

-- The branch of `get_or_create_user` for a device that has a user already.
unfoldable pub existing_user : String → Exec Repo User
existing_user user_id r = elim (Dict.get user_id r.users_by_id) [
  | none ↦ raise key_error r
  | some user ↦ pure user r
]

abbrev pub new_user : String → String → ℕ → User
new_user uid device_id now = record { id = uid; device_id = device_id; created_at = now }

unfoldable pub create_user : String → String → ℕ → Exec Repo User
create_user uid device_id now r = (
  ok (new_user uid device_id now),
  record r {
    users_by_id = Dict.insert uid (new_user uid device_id now) r.users_by_id;
    users_by_device_id = Dict.insert device_id uid r.users_by_device_id;
  },
)

-- `uid` and `now` are what `new_id("usr")` and `datetime.now` return if a user is created.
unfoldable pub get_or_create_user : String → String → ℕ → Exec Repo User
unfolding existing_user create_user is_empty
get_or_create_user device_id uid now r = elim (Dict.get device_id r.users_by_device_id) [
  | none ↦ create_user uid device_id now r
  | some user_id ↦
      if is_empty user_id then create_user uid device_id now r else existing_user user_id r
]

unfoldable pub get_user : String → Repo → Option User
get_user user_id r = Dict.get user_id r.users_by_id

-- The three `pop` calls of `delete_user`.
unfoldable pub without_user : String → User → Repo → Repo
without_user user_id user r = record r {
  users_by_id = Dict.pop user_id r.users_by_id;
  users_by_device_id = Dict.pop user.device_id r.users_by_device_id;
  subscriptions_by_user_id = Dict.pop user_id r.subscriptions_by_user_id;
}

unfoldable pub delete_user : String → Repo → Bool × Repo
delete_user user_id r = elim (Dict.get user_id r.users_by_id) [
  | none ↦ (false, r)
  | some user ↦ (true, without_user user_id user r)
]

abbrev pub is_store : Platform → Bool
is_store Platform.apple = true
is_store Platform.google = true
is_store Platform.yookassa = false
is_store Platform.sandbox = false

module _ (sha256_hex : String → String) where
  -- `receipt_transaction_id` of backend/app/domain/receipt_fingerprint.py
  unfoldable pub receipt_transaction_id : Platform → String → String
  receipt_transaction_id platform receipt =
      concat (platform_value platform ∷ ":sha256:" ∷ sha256_hex (strip receipt) ∷ [])

  abbrev pub subscription_for : ReceiptClaim → User → ℕ → Subscription
  subscription_for claim user now = record {
    user_id = user.id;
    platform = claim.platform;
    expires_at = now + 30 * day;
    product_id = claim.product_id;
    original_transaction_id = receipt_transaction_id claim.platform claim.receipt;
  }

  abbrev pub save_subscription : Subscription → Exec Repo Subscription
  save_subscription s r = (
    ok s,
    record r { subscriptions_by_user_id = Dict.insert s.user_id s r.subscriptions_by_user_id },
  )

  -- What `activate_subscription` does once it has the user.
  unfoldable pub subscribe : ReceiptClaim → ℕ → User → Exec Repo Subscription
  unfolding receipt_transaction_id str_len strip
  subscribe claim later user =
      if is_store claim.platform && ltb (str_len (strip claim.receipt)) 24
      then raise (value_error "receipt is too short for non-sandbox validation")
      else save_subscription (subscription_for claim user later)

  -- The user is created before the receipt is looked at. `now` and `later` are the two clock reads.
  unfoldable pub activate_subscription : ReceiptClaim → String → ℕ → ℕ → Exec Repo Subscription
  activate_subscription claim uid now later = do
    user ← get_or_create_user claim.device_id uid now
    subscribe claim later user

abbrev pub active_only : Option Subscription → ℕ → Option Subscription
active_only none now = none
active_only (some s) now = if is_active s now then some s else none

unfoldable pub get_active_subscription : String → ℕ → Repo → Option Subscription
unfolding is_active
get_active_subscription user_id now r =
    active_only (Dict.get user_id r.subscriptions_by_user_id) now

-- `isoformat` is the method of `datetime`.
module _ (isoformat : ℕ → String) where
  unfoldable pub subscription_export : Subscription → ℕ → Json
  unfolding is_active
  subscription_export s now = object (
      ("platform", str (platform_value s.platform))
      ∷ ("expires_at", str (isoformat s.expires_at))
      ∷ ("product_id", str s.product_id)
      ∷ ("original_transaction_id", str s.original_transaction_id)
      ∷ ("active", bool (is_active s now))
      ∷ [])

  abbrev pub export_or_null : Option Subscription → ℕ → Json
  export_or_null none now = null
  export_or_null (some s) now = subscription_export s now

  unfoldable pub export_user_data : String → ℕ → Repo → Option Json
  unfolding get_user subscription_export
  export_user_data user_id now r = elim (get_user user_id r) [
    | none ↦ none
    | some user ↦ some (
        object (
          (
            "user",
            object (
                ("id", str user.id)
                ∷ ("device_id", str user.device_id)
                ∷ ("created_at", str (isoformat user.created_at))
                ∷ []),
          )
          ∷ ("subscription", export_or_null (Dict.get user_id r.subscriptions_by_user_id) now)
          ∷ []))
  ]
