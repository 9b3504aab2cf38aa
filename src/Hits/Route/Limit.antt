-- ===== src/Hits/Route/Limit.antt =====
-- When the limiter of src/middleware/rate-limit.middleware.ts lets a request pass on.
use activity_tracker_api.Base.{
  ℕ, ◌≡◌, refl, String, true, false, Option, some, ◌⊎◌, inl, inr, arith, str_eq, Bool-cases,
}
use activity_tracker_api.Http.{AuthClient, Request, Verdict, next, respond, is_truthy}
use activity_tracker_api.Auth.Clients.{Client}
use activity_tracker_api.RateLimiter.{RateLimiterService, or_default}
use activity_tracker_api.RateLimiter.Redis.{SortedSets, check_rate_limit, get_config}
use activity_tracker_api.RateLimiter.Middleware.{rate_limit_middleware, limit_client}

pub Verdict-cases :
    (v : Verdict)
    → ((req : Request) × (v ≡ next req))
      ⊎ ((status : ℕ) × (message : String) × (v ≡ respond status message))
Verdict-cases (next req) = inl (req, refl)
Verdict-cases (respond status message) = inr (status, message, refl)

-- What is attached to the request of a client.
abbrev pub attached : Client → Option String → AuthClient
attached client api_key = record {
  client_id = client.client_id;
  email = client.email;
  name = client.name;
  api_key = api_key;
  rate_limit = some client.rate_limit;
}

module _ (sets : SortedSets) where
  -- A request of a client that passes the limiter is one that it allows.
  passed_limit :
      (now later : ℕ) (random : String) (client : AuthClient) (req req' : Request)
      (state : RateLimiterService × SortedSets.Store sets)
      → (limit_client sets now later random client req state).verdict ≡ next req'
      → (req ≡ req')
        × ((check_rate_limit sets client.client_id
              (some (or_default client.rate_limit (get_config state.0).0))
              now
              random
              state).0.allowed
            ≡ true)
  unfolding limit_client
  passed_limit now later random client req req' state e =
      elim (Bool-cases
        (check_rate_limit sets client.client_id
          (some (or_default client.rate_limit (get_config state.0).0)) now random
          state).0.allowed) [
            | inl allowed ↦
                let passed : next req ≡ next req' = rw (allowed, limit_client) at e in (cc, allowed)
            | inr denied ↦
                let answered : ◌≡◌ {A = Verdict}
                    (respond 429 "Rate limit exceeded. Please try again later.") (next req') =
                  rw (denied, limit_client) at e in
                absurd (cc)
          ]

  pub passed_middleware :
      (now later : ℕ) (random : String) (client : AuthClient) (req req' : Request)
      (state : RateLimiterService × SortedSets.Store sets)
      → req.client ≡ some client
      → is_truthy (some client.client_id) ≡ true
      → (rate_limit_middleware sets now later random req state).verdict ≡ next req'
      → (req ≡ req')
        × ((check_rate_limit sets client.client_id
              (some (or_default client.rate_limit (get_config state.0).0))
              now
              random
              state).0.allowed
            ≡ true)
  unfolding rate_limit_middleware
  passed_middleware now later random client req req' state known named e =
      let not_empty : str_eq client.client_id "" ≡ false = ground arith in
      passed_limit now later random client req req' state
        (rw (known, rate_limit_middleware, not_empty) at e)

  pub middleware_same :
      (now later : ℕ) (random : String) (client : AuthClient) (req req' : Request)
      (state : RateLimiterService × SortedSets.Store sets)
      → req.client ≡ some client
      → (rate_limit_middleware sets now later random req state).verdict ≡ next req'
      → req ≡ req'
  unfolding rate_limit_middleware
  middleware_same now later random client req req' state known e =
      elim (Bool-cases (str_eq client.client_id "")) [
        | inl empty ↦
            let passed : next req ≡ next req' = rw (known, rate_limit_middleware, empty) at e in cc
        | inr named ↦
            (passed_limit now later random client req req' state
              (rw (known, rate_limit_middleware, named) at e)).0
      ]
