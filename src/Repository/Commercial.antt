-- ===== src/Repository/Commercial.antt =====
-- The commercial subscriptions of backend/app/repositories/memory.py.
pub mod Extension
use vpp_wl_mobile.Prelude.{
  ℕ, ◌+◌, ◌*◌, String, ◌&&◌, Option, none, some, ltb, leb, if◌then◌else◌, is_empty,
}
use vpp_wl_mobile.Prelude.Dict
use vpp_wl_mobile.Models.{CommercialSubscription}
use vpp_wl_mobile.Errors.{Result, ok, raised, overflow_error, Exec, pure, raise, ◌>>=◌}
use vpp_wl_mobile.Repository.{Repo, day, max_datetime, max_timedelta_days}

-- `base + timedelta(days=n)`; `none` is the `OverflowError` of either operation.
unfoldable pub add_days : ℕ → ℕ → Option ℕ
add_days base n =
    if leb n max_timedelta_days && leb (base + n * day) max_datetime
    then some (base + n * day)
    else none

-- `payment_id or subscription.payment_id`
unfoldable pub text_or : Option String → Option String → Option String
unfolding is_empty
text_or none b = b
text_or (some s) b = if is_empty s then b else some s

-- `expires_at if expires_at and expires_at > now else now`
unfoldable pub extension_base : Option ℕ → ℕ → ℕ
extension_base none now = now
extension_base (some t) now = if ltb now t then t else now

unfoldable pub create_commercial_subscription :
    String → String → Option String → ℕ → Repo → CommercialSubscription × Repo
create_commercial_subscription token tariff_id payment_id now r =
    let s : CommercialSubscription = record {
      token = token;
      tariff_id = tariff_id;
      status = "pending";
      created_at = now;
      updated_at = now;
      expires_at = none;
      payment_id = payment_id;
    } in
    (
      s,
      record r {
        commercial_subscriptions_by_token = Dict.insert token s r.commercial_subscriptions_by_token;
      },
    )

unfoldable pub get_commercial_subscription : String → Repo → Option CommercialSubscription
get_commercial_subscription token r = Dict.get token r.commercial_subscriptions_by_token

-- The copy that `replace` makes.
abbrev pub activated : CommercialSubscription → ℕ → Option String → ℕ → CommercialSubscription
activated s expires_at payment_id now = record s {
  status = "active";
  expires_at = some expires_at;
  payment_id = text_or payment_id s.payment_id;
  updated_at = now;
}

-- The end of the method, for the sum that `add_days` has returned.
abbrev pub store_activated :
    String
    → CommercialSubscription
    → Option ℕ
    → Option String
    → ℕ
    → Exec Repo (Option CommercialSubscription)
store_activated token s none payment_id now r = raise overflow_error r
store_activated token s (some expires_at) payment_id now r =
    let updated = activated s expires_at payment_id now in
    (
      ok (some updated),
      record r {
        commercial_subscriptions_by_token =
            Dict.insert token updated r.commercial_subscriptions_by_token;
      },
    )

unfoldable pub activate_commercial_subscription :
    String → ℕ → Option String → ℕ → Exec Repo (Option CommercialSubscription)
unfolding add_days text_or extension_base
activate_commercial_subscription token duration_days payment_id now r =
    elim (Dict.get token r.commercial_subscriptions_by_token) [
      | none ↦ pure none r
      | some s ↦
          store_activated token s (add_days (extension_base s.expires_at now) duration_days)
            payment_id now r
    ]
