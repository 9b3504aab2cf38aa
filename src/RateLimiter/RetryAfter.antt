-- ===== src/RateLimiter/RetryAfter.antt =====
-- The `Retry-After` header of src/middleware/rate-limit.middleware.ts.
use activity_tracker_api.Base.{
  ℕ, ◌+◌, ◌*◌, ◌≤◌, ◌<◌, ◌≡◌, ap, ◌∙◌, String, true, false, Option, none, some, arith, str_eq,
  filter, length,
}
use activity_tracker_api.Base.Int.{ℤ, pos}
use activity_tracker_api.Http.{AuthClient, Request, next, respond}
use activity_tracker_api.RateLimiter.{
  RateLimiterService, is_live, timestamps_of, check_rate_limit_in_memory,
}
use activity_tracker_api.RateLimiter.Redis.{SortedSets}
use activity_tracker_api.RateLimiter.Script.{AreTimes}
use activity_tracker_api.RateLimiter.Reset.{allowed_after_reset}
use activity_tracker_api.RateLimiter.Middleware.{
  Answer, limit_client, rate_limit_middleware, ceil_seconds, ceil_seconds-le,
}

-- The `Retry-After` of an answer, if it has one.
abbrev pub retry_after_of : {S : Type 0} → Answer S → Option ℤ
retry_after_of a = elim a.headers [ none ↦ none | some h ↦ h.retry_after ]

module _ (r : SortedSets) (client : AuthClient) (req : Request) (s : SortedSets.Store r)
    (known : req.client ≡ some client) (named : str_eq client.client_id "" ≡ false)
    (down : r.reachable s ≡ false) where
  refused :
      (now later : ℕ) (random : String) (service : RateLimiterService)
      → (check_rate_limit_in_memory now client.client_id service).0.allowed ≡ false
      → (let a = rate_limit_middleware r now later random req (service, s) in
          (a.verdict ≡ respond 429 "Rate limit exceeded. Please try again later.")
          × (retry_after_of a
              ≡ some (
                  ceil_seconds
                    (check_rate_limit_in_memory now client.client_id service).0.reset_at
                    later))
          × (a.state ≡ ((check_rate_limit_in_memory now client.client_id service).1, s)))
  unfolding rate_limit_middleware limit_client
  refused now later random service denied = (
    rw (known, named, down, denied, rate_limit_middleware),
    rw (known, named, down, denied, rate_limit_middleware),
    rw (known, named, down, denied, rate_limit_middleware),
  )

  admitted :
      (now later : ℕ) (random : String) (service : RateLimiterService)
      → (check_rate_limit_in_memory now client.client_id service).0.allowed ≡ true
      → (rate_limit_middleware r now later random req (service, s)).verdict ≡ next req
  unfolding rate_limit_middleware limit_client
  admitted now later random service fine = ground arith

  -- While Redis cannot be reached: a client that the middleware refuses is answered 429 with a
  -- `Retry-After` of `n` seconds, at least one; and after exactly that many seconds, with no request
  -- of its own in between, its next request passes. The limit is above 0, the times stored for the
  -- client lie between 1 and now, and no more than the limit are in the window; the header is
  -- computed before the reset time.
  pub retry_after_suffices :
      (now later : ℕ) (random : String) (service : RateLimiterService)
      → 0 < service.max_requests
      → AreTimes now (timestamps_of client.client_id service.in_memory_store)
      → length (
          filter
            (is_live service.window_size now)
            (timestamps_of client.client_id service.in_memory_store))
        ≤ service.max_requests
      → (check_rate_limit_in_memory now client.client_id service).0.allowed ≡ false
      → later < (check_rate_limit_in_memory now client.client_id service).0.reset_at
      → (let a = rate_limit_middleware r now later random req (service, s) in
          (n : ℕ) × (a.verdict ≡ respond 429 "Rate limit exceeded. Please try again later.")
          × (retry_after_of a ≡ some (pos n))
          × (1 ≤ n)
          × ((rate_limit_middleware r
                (later + n * 1000)
                (later + n * 1000)
                random
                req
                a.state).verdict
              ≡ next req))
  retry_after_suffices now later random service p a few denied early =
      let (n, header, least, reach, tight) = ceil_seconds-le _ later early in
      let (answer, retry, left) = refused now later random service denied in
      (
        n,
        answer,
        retry ∙ ap some header,
        least,
        ap
              (λ st.
                (rate_limit_middleware r (later + n * 1000) (later + n * 1000) random req
                  st).verdict)
              left
            ∙ admitted (later + n * 1000) (later + n * 1000) random
                (check_rate_limit_in_memory now client.client_id service).1
                (allowed_after_reset now (later + n * 1000) client.client_id service p a few denied
                  reach),
      )
