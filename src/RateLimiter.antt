-- ===== src/RateLimiter.antt =====
-- src/services/rate-limiter.service.ts: the sliding window in memory, and the Lua script over the
-- sorted sets of Redis. Times are milliseconds, the window is in seconds; `now` is `Date.now()`.
pub mod Window
pub mod Memory
pub mod Redis
pub mod Script
pub mod Reset
pub mod Fallback
pub mod Middleware
pub mod RetryAfter
use activity_tracker_api.Base.{
  ℕ, suc, ◌+◌, ◌-◌, ◌*◌, ◌/◌, ◌==◌, ◌≡◌, ◌≢◌, refl, String, Bool, true, false, not, ◌&&◌, Option,
  none, some, List, [], ◌∷◌, ◌++◌, ltb, leb, if◌then◌else◌, length, filter, head?,
}
use activity_tracker_api.Base.Int.{ℤ, pos, sub_ℕ, leb_ℤ}
use activity_tracker_api.Base.Maps.{lookup, insert, erase}

pub record Decision : Type 0 where
  pub allowed : Bool
  pub remaining : ℕ
  pub reset_at : ℕ
  pub current : ℕ

-- The store maps a client to the `timestamps` of its `InMemoryRateLimit`.
pub record RateLimiterService : Type 0 where
  pub window_size : ℕ
  pub max_requests : ℕ
  pub in_memory_store : List (String × List ℕ)
  pub cleanup_interval : Bool

unfoldable pub new_service : ℕ → ℕ → RateLimiterService
new_service max_requests window_size_seconds = record {
  window_size = window_size_seconds;
  max_requests = max_requests;
  in_memory_store = [];
  cleanup_interval = true;
}

-- `ts > windowStart`, where `windowStart = now - windowSize * 1000` may be negative.
abbrev pub is_live : (window_size now ts : ℕ) → Bool
is_live window_size now ts = ltb now (ts + window_size * 1000)

-- `n || d` on a number that may be missing: zero counts as missing.
abbrev pub or_default : Option ℕ → ℕ → ℕ
or_default none d = d
or_default (some n) d = if n == 0 then d else n

-- The loop of `cleanupInMemoryStore` over the entries.
abbrev pub cleanup_entries : (window_size now : ℕ) → List (String × List ℕ) → List (String × List ℕ)
cleanup_entries w now [] = []
cleanup_entries w now ((client_id, timestamps) ∷ m) =
    let live = filter (is_live w now) timestamps in
    let rest = cleanup_entries w now m in
    if length live == 0 then rest else (client_id, live) ∷ rest

unfoldable pub cleanup_in_memory_store : ℕ → RateLimiterService → RateLimiterService
cleanup_in_memory_store now s = record s {
  in_memory_store = cleanup_entries s.window_size now s.in_memory_store;
}

-- What is stored for a client; a new client has no timestamps.
abbrev pub timestamps_of : String → List (String × List ℕ) → List ℕ
timestamps_of client_id m = elim (lookup client_id m) [ none ↦ [] | some ts ↦ ts ]

-- The answer to a request that finds these timestamps in the window.
unfoldable pub decide : (window_size max_requests now : ℕ) → List ℕ → Decision
decide w max_requests now live =
    let current_count = length live in
    if leb max_requests current_count
    then record {
      allowed = false;
      remaining = 0;
      reset_at = or_default (head? live) now + w * 1000;
      current = current_count;
    }
    else record {
      allowed = true;
      remaining = max_requests - current_count - 1;
      reset_at = now + w * 1000;
      current = current_count + 1;
    }

unfoldable pub check_rate_limit_in_memory :
    ℕ → String → RateLimiterService → Decision × RateLimiterService
unfolding decide
check_rate_limit_in_memory now client_id s =
    let live = filter (is_live s.window_size now) (timestamps_of client_id s.in_memory_store) in
    let decision = decide s.window_size s.max_requests now live in
    (
      decision,
      record s {
        in_memory_store =
            insert client_id (if decision.allowed then live ++ now ∷ [] else live)
              s.in_memory_store;
      },
    )
