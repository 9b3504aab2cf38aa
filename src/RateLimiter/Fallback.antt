-- ===== src/RateLimiter/Fallback.antt =====
-- What src/services/rate-limiter.service.ts allows while Redis cannot be reached.
use activity_tracker_api.Base.{
  ℕ, ◌≡◌, refl, subst, sym, ap, ◌∙◌, false, String, Option, List, [], ◌∷◌, map,
}
use activity_tracker_api.RateLimiter.{
  Decision, RateLimiterService, new_service, check_rate_limit_in_memory,
}
use activity_tracker_api.RateLimiter.Window.{IsLimited}
use activity_tracker_api.RateLimiter.Memory.{
  Event, request, IsOrdered, run, allowed_times, run-IsLimited,
}
use activity_tracker_api.RateLimiter.Redis.{
  SortedSets, check_with_key, check_rate_limit, check_rate_limit_for_endpoint,
}

-- A check of a client, or of one of its endpoints, with the limit that the caller passes.
pub data Call : Type 0 where
  of_client : (client_id : String) (max_requests : Option ℕ) (now : ℕ) (random : String) → Call
  of_endpoint :
      (client_id endpoint : String) (max_requests : Option ℕ) (now : ℕ) (random : String) → Call

-- The client and the time of a call.
abbrev pub as_request : Call → Event
as_request (of_client client_id max_requests now random) = request client_id now
as_request (of_endpoint client_id endpoint max_requests now random) = request client_id now

module _ (r : SortedSets) where
  open r use {Store}

  abbrev pub check : Call → RateLimiterService × Store → Decision × RateLimiterService × Store
  check (of_client client_id max_requests now random) state =
      check_rate_limit r client_id max_requests now random state
  check (of_endpoint client_id endpoint max_requests now random) state =
      check_rate_limit_for_endpoint r client_id endpoint max_requests now random state

  -- The decisions on a sequence of calls.
  unfoldable pub run_calls : RateLimiterService × Store → List Call → List Decision
  run_calls state [] = []
  run_calls state (call ∷ calls) =
      let answer = check call state in answer.0 ∷ run_calls (answer.1, answer.2) calls

  check_with_key-down :
      (key client_id : String) (max_requests : Option ℕ) (now : ℕ) (random : String)
      (service : RateLimiterService) (s : Store)
      → r.reachable s ≡ false
      → check_with_key r key client_id max_requests now random (service, s) ≡ (
        (check_rate_limit_in_memory now client_id service).0,
        (check_rate_limit_in_memory now client_id service).1,
        s,
      )
  unfolding check_with_key
  check_with_key-down key client_id max_requests now random service s down = rw down

  run_calls-down :
      (calls : List Call) (service : RateLimiterService) (s : Store)
      → r.reachable s ≡ false
      → run_calls (service, s) calls ≡ run service (map as_request calls)
  unfolding run_calls run check_rate_limit check_rate_limit_for_endpoint
  run_calls-down [] service s down = refl
  run_calls-down (of_client client_id max_requests now random ∷ calls) service s down =
      ap (λ answer. answer.0 ∷ run_calls (answer.1, answer.2) calls)
        (check_with_key-down _ client_id max_requests now random service s down)
      ∙ ap (λ ds. (check_rate_limit_in_memory now client_id service).0 ∷ ds)
          (run_calls-down calls (check_rate_limit_in_memory now client_id service).1 s down)
  run_calls-down (of_endpoint client_id endpoint max_requests now random ∷ calls) service s down =
      ap (λ answer. answer.0 ∷ run_calls (answer.1, answer.2) calls)
        (check_with_key-down _ client_id max_requests now random service s down)
      ∙ ap (λ ds. (check_rate_limit_in_memory now client_id service).0 ∷ ds)
          (run_calls-down calls (check_rate_limit_in_memory now client_id service).1 s down)

  -- While Redis cannot be reached, however the checks of clients and of endpoints are mixed, and
  -- whatever limits they pass: from an empty store on, with a clock that does not go back, no window
  -- has more allowed checks of one client, all its endpoints together, than the service's own maximum.
  pub run_calls-IsLimited :
      (window limit : ℕ) (client_id : String) (calls : List Call) (s : Store)
      → r.reachable s ≡ false
      → IsOrdered 0 (map as_request calls)
      → IsLimited window limit (
          allowed_times client_id
            (map as_request calls)
            (run_calls (new_service limit window, s) calls))
  run_calls-IsLimited window limit client_id calls s down ordered =
      subst (λ ds. IsLimited window limit (allowed_times client_id (map as_request calls) ds))
        (sym (run_calls-down calls (new_service limit window) s down))
        (run-IsLimited window limit client_id (map as_request calls) ordered)
