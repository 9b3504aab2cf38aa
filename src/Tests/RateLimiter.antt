-- ===== src/Tests/RateLimiter.antt =====
-- Runs of src/services/rate-limiter.service.ts and src/middleware/rate-limit.middleware.ts.
use activity_tracker_api.Base.{
  ℕ, ◌+◌, ◌*◌, ◌≤◌, ◌≡◌, refl, true, false, String, some, none, List, [], ◌∷◌, arith,
}
use activity_tracker_api.Base.Int.{pos}
use activity_tracker_api.Http.{AuthClient, Request, next, respond}
use activity_tracker_api.RateLimiter.{
  RateLimiterService, new_service, decide, check_rate_limit_in_memory,
}
use activity_tracker_api.RateLimiter.Window.{IsLimited}
use activity_tracker_api.RateLimiter.Memory.{
  Event, request, cleanup, run, spec_run, allowed_times, run-eq-spec_run, run-IsLimited,
}
use activity_tracker_api.RateLimiter.Redis.{check_rate_limit, check_rate_limit_for_endpoint}
use activity_tracker_api.RateLimiter.Script.{run_script, spec_answers, run_script-eq-spec_answers}
use activity_tracker_api.RateLimiter.Fallback.{
  Call, of_client, of_endpoint, as_request, run_calls, run_calls-IsLimited,
}
use activity_tracker_api.Base.{map}
use activity_tracker_api.RateLimiter.Middleware.{rate_limit_middleware}
use activity_tracker_api.RateLimiter.RetryAfter.{retry_after_of, retry_after_suffices}
use activity_tracker_api.Tests.Worlds.{Sets, sorted_sets}

-- Three requests of one client in one window, and one after it.
abbrev events : List Event
events =
    request "CL-1" 1000
    ∷ request "CL-1" 2000
    ∷ request "CL-1" 3000
    ∷ cleanup 60000
    ∷ request "CL-1" 61000
    ∷ []

run-IsLimited_example : IsLimited 60 2 (allowed_times "CL-1" events (run (new_service 2 60) events))
run-IsLimited_example = run-IsLimited 60 2 "CL-1" events (ground arith)

run-eq-spec_run_example : run (new_service 2 60) events ≡ spec_run 60 2 (λ _. []) events
run-eq-spec_run_example = run-eq-spec_run 60 2 events (ground arith)

abbrev no_sets : Sets
no_sets = record { up = true; sets = λ _. [] }

abbrev requests : List (ℕ × String)
requests = (1000, "0.1") ∷ (2000, "0.2") ∷ (3000, "0.3") ∷ []

run_script-eq-spec_answers_example :
    run_script sorted_sets "rate_limit:CL-1" 60 2 no_sets requests ≡ spec_answers 60 2 [] requests
run_script-eq-spec_answers_example =
    run_script-eq-spec_answers sorted_sets "rate_limit:CL-1" 60 2 1 no_sets requests (omega arith)
      (omega arith) refl (ground arith) (tt, (tt, (tt, tt)))

-- A client that has used up its limit of two.
abbrev used_up : RateLimiterService
used_up = record {
  window_size = 60;
  max_requests = 2;
  in_memory_store = ("CL-1", 1000 ∷ 2000 ∷ []) ∷ [];
  cleanup_interval = true;
}

denied : (check_rate_limit_in_memory 3000 "CL-1" used_up).0.allowed ≡ false
unfolding check_rate_limit_in_memory decide
denied = refl

due : (check_rate_limit_in_memory 3000 "CL-1" used_up).0.reset_at ≡ 61000
unfolding check_rate_limit_in_memory decide
due = refl

abbrev unreachable : Sets
unreachable = record { up = false; sets = λ _. [] }

-- Three checks in one window, with a limit of fifty; the third one is refused.
abbrev calls : List Call
calls =
    of_client "CL-1" (some 50) 1000 "0.1"
    ∷ of_endpoint "CL-1" "/logs" (some 50) 2000 "0.2"
    ∷ of_client "CL-1" (some 50) 3000 "0.3"
    ∷ []

run_calls-IsLimited_example : IsLimited 60 2 (
    allowed_times "CL-1"
      (map as_request calls)
      (run_calls sorted_sets (new_service 2 60, unreachable) calls))
run_calls-IsLimited_example =
    run_calls-IsLimited sorted_sets 60 2 "CL-1" calls unreachable refl (ground arith)

two_are_allowed :
    allowed_times "CL-1"
      (map as_request calls)
      (run_calls sorted_sets (new_service 2 60, unreachable) calls)
    ≡ 1000 ∷ 2000 ∷ []
unfolding allowed_times run_calls check_rate_limit check_rate_limit_for_endpoint
    check_rate_limit_in_memory decide new_service
two_are_allowed = refl

abbrev known_client : AuthClient
known_client = record {
  client_id = "CL-1";
  email = "a@example.com";
  name = "A";
  api_key = none;
  rate_limit = some 50;
}

abbrev known_request : Request
known_request = record {
  authorization = none;
  x_api_key = none;
  query_token = none;
  query_api_key = none;
  client = some known_client;
}

retry_after_suffices_example :
    let a =
      rate_limit_middleware sorted_sets 3000 3001 "0.3" known_request (used_up, unreachable) in
    (n : ℕ) × (a.verdict ≡ respond 429 "Rate limit exceeded. Please try again later.")
    × (retry_after_of a ≡ some (pos n))
    × (1 ≤ n)
    × ((rate_limit_middleware sorted_sets
          (3001 + n * 1000)
          (3001 + n * 1000)
          "0.3"
          known_request
          a.state).verdict
        ≡ next known_request)
retry_after_suffices_example =
    retry_after_suffices sorted_sets known_client known_request unreachable refl refl refl 3000 3001
      "0.3" used_up (omega arith) (ground arith) (omega arith) denied (omega (arith, due))
