-- ===== src/RateLimit.antt =====
-- backend/app/api/rate_limit.py
pub mod Tracking
pub mod Window
use vpp_wl_mobile.Prelude.{
  ℕ, ◌+◌, String, Bool, true, false, ◌&&◌, List, [], ◌∷◌, ◌++◌, ◌==◌, leb, if◌then◌else◌, or_else,
  length,
}
use vpp_wl_mobile.Prelude.Dict
use vpp_wl_mobile.Prelude.Int.{ℤ, pos, leb_ℤ}
use vpp_wl_mobile.Repository.{minute}

-- A deque is a list, its left end first.
pub record RateLimiter : Type 0 where
  pub limit_per_minute : ℤ
  pub buckets : Dict.Dict (List ℕ)

-- `bucket[0] <= window_start`, with the minute on the other side.
abbrev pub is_expired : ℕ → ℕ → Bool
is_expired now t = leb (t + minute) now

-- The `while` loop over `popleft`.
unfoldable pub drop_expired : ℕ → List ℕ → List ℕ
drop_expired now [] = []
drop_expired now (t ∷ bucket) = if is_expired now t then drop_expired now bucket else t ∷ bucket

abbrev pub bucket_of : String → RateLimiter → List ℕ
bucket_of key l = or_else (Dict.get key l.buckets) []

abbrev pub store : String → List ℕ → RateLimiter → RateLimiter
store key bucket l = record l { buckets = Dict.insert key bucket l.buckets }

-- The end of the method, for the bucket without its expired entries.
abbrev pub decide_on : String → List ℕ → ℕ → RateLimiter → Bool × RateLimiter
decide_on key bucket now l =
    if leb_ℤ l.limit_per_minute (pos (length bucket))
    then (false, store key bucket l)
    else (true, store key (bucket ++ now ∷ []) l)

unfoldable pub allow : String → ℕ → RateLimiter → Bool × RateLimiter
unfolding drop_expired
allow key now l =
    if leb_ℤ l.limit_per_minute (pos 0)
    then (true, l)
    else decide_on key (drop_expired now (bucket_of key l)) now l

-- The times at which requests of `key` are let through, newest first, when requests (a key and a
-- clock read each) come one after another.
unfoldable pub accepted : String → RateLimiter → List (String × ℕ) → List ℕ → List ℕ
accepted key l [] hist = hist
accepted key l ((k, now) ∷ requests) hist =
    let (ok, l') = allow k now l in
    accepted key l' requests (if (k == key) && ok then now ∷ hist else hist)

-- The limiter after the requests.
unfoldable pub served : RateLimiter → List (String × ℕ) → RateLimiter
served l [] = l
served l ((k, now) ∷ requests) = served (allow k now l).1 requests
