-- ===== src/RateLimiter/Middleware.antt =====
-- src/middleware/rate-limit.middleware.ts: the limiter in front of a route.
use activity_tracker_api.Base.{
  ℕ, ◌+◌, ◌-◌, ◌*◌, ◌/◌, ◌==◌, ◌≤◌, ◌<◌, ◌≡◌, String, Option, none, some, arith, leb, str_eq,
  if◌then◌else◌,
}
use activity_tracker_api.Base.Int.{ℤ, pos, negsuc}
use activity_tracker_api.Http.{AuthClient, Request, Verdict, next, respond}
use activity_tracker_api.RateLimiter.{RateLimiterService, or_default}
use activity_tracker_api.RateLimiter.Redis.{SortedSets, check_rate_limit, get_config}

-- The `X-RateLimit-*` headers and `Retry-After`, in seconds.
pub record RateLimitHeaders : Type 0 where
  pub limit : ℕ
  pub remaining : ℕ
  pub reset : ℕ
  pub window : ℕ
  pub retry_after : Option ℤ

pub record Answer (S : Type 0) : Type 0 where
  pub headers : Option RateLimitHeaders
  pub verdict : Verdict
  pub state : S

-- `Math.ceil((resetAt - now) / 1000)`, of a difference that may be negative.
unfoldable pub ceil_seconds : (reset_at now : ℕ) → ℤ
ceil_seconds reset_at now =
    if leb now reset_at
    then pos ((reset_at - now + 999) / 1000)
    else if (now - reset_at) / 1000 == 0
    then pos 0
    else negsuc ((now - reset_at) / 1000 - 1)

module _ (r : SortedSets) where
  open r use {Store}

  -- The `try` block; `now` is the clock in `checkRateLimit`, and `later` that of `Retry-After`.
  unfoldable pub limit_client :
      (now later : ℕ) (random : String)
      → AuthClient
      → Request
      → RateLimiterService × Store
      → Answer (RateLimiterService × Store)
  unfolding ceil_seconds get_config check_rate_limit
  limit_client now later random client req state =
      let client_rate_limit = or_default client.rate_limit (get_config state.0).0 in
      let checked = check_rate_limit r client.client_id (some client_rate_limit) now random state in
      let headers : Option ℤ → RateLimitHeaders = λ retry_after. record {
        limit = client_rate_limit;
        remaining = checked.0.remaining;
        reset = checked.0.reset_at;
        window = (get_config state.0).1;
        retry_after = retry_after;
      } in
      if checked.0.allowed
      then record {
        headers = some (headers none);
        verdict = next req;
        state = (checked.1, checked.2);
      }
      else record {
        headers = some (headers (some (ceil_seconds checked.0.reset_at later)));
        verdict = respond 429 "Rate limit exceeded. Please try again later.";
        state = (checked.1, checked.2);
      }

  -- Without an authenticated client the request passes.
  unfoldable pub rate_limit_middleware :
      (now later : ℕ) (random : String)
      → Request
      → RateLimiterService × Store
      → Answer (RateLimiterService × Store)
  unfolding limit_client
  rate_limit_middleware now later random req state =
      let pass : Answer (RateLimiterService × Store) = record {
        headers = none;
        verdict = next req;
        state = state;
      } in
      elim req.client [
        | none ↦ pass
        | some client ↦
            if str_eq client.client_id ""
            then pass
            else limit_client now later random client req state
      ]

-- Rounding up to seconds: the least number of them that reaches the reset time.
pub ceil_seconds-le :
    (reset_at now : ℕ)
    → now < reset_at
    → (n : ℕ) × (ceil_seconds reset_at now ≡ pos n)
      × (1 ≤ n)
      × (reset_at ≤ now + n * 1000)
      × (now + (n - 1) * 1000 < reset_at)
unfolding ceil_seconds
ceil_seconds-le reset_at now h =
    ((reset_at - now + 999) / 1000, ground arith, omega arith, omega arith, omega arith)
