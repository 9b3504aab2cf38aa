-- ===== src/Tests/UsageRoute.antt =====
-- A run of `GET /api/usage/daily` of src/api/client/clientRouter.ts.
use activity_tracker_api.Base.{
  ◌≡◌, refl, String, Bool, true, false, Option, none, some, List, [], ◌∷◌, ◌⊎◌, inl, inr,
}
use activity_tracker_api.Base.Numbers.{parse_int}
use activity_tracker_api.Http.{Request, success}
use activity_tracker_api.RateLimiter.{new_service, check_rate_limit_in_memory}
use activity_tracker_api.RateLimiter.Middleware.{rate_limit_middleware}
use activity_tracker_api.Redis.{Redis, get_json, get, ensure_connected}
use activity_tracker_api.Reports.{
  Queries, DailyUsageResult, TopClientResult, fresh_daily_usage, find_all_active, query_daily_usage,
  collect, sort,
}
use activity_tracker_api.Retry.{with_database_retry, with_retry, retry_from}
use activity_tracker_api.Auth.Routes.{usage_guard}
use activity_tracker_api.Auth.Tokens.{verify_jwt}
use activity_tracker_api.Auth.Clients.{find_matching}
use activity_tracker_api.Auth.Middleware.{authenticate, authenticate_api_key}
use activity_tracker_api.Clients.Handlers.{handle_daily_usage}
use activity_tracker_api.Usage.{Env, get_daily_usage}
use activity_tracker_api.Hits.Route.{Issue, validate_request}
use activity_tracker_api.Usage.Route.{Backing, daily_controller, get_usage, get_usage_daily}
use activity_tracker_api.Usage.Route.Admitted.{IsDenied, Entitled, get_usage-Entitled}
use activity_tracker_api.Tests.Worlds.{sorted_sets}
use activity_tracker_api.Tests.Stores.{
  plain_tokens, plain_compare, client_list, client, value_store, Values, two_days, day, only,
}

abbrev queries : Queries
queries = two_days 1000

abbrev env : Env
env = record {
  cache_hit_tracking_enabled = true;
  cache_ttl_usage_daily = 300;
  cache_ttl_usage_top = 60;
}

abbrev redis : Redis Values
redis = record {
  service = record {
    write_client = none;
    read_client = none;
    is_connected = false;
    reconnect_attempts = 0;
  };
  store = record { ended = []; values = [] };
}

abbrev Back : Type 0
Back = Backing plain_tokens plain_compare client_list sorted_sets value_store queries env

abbrev backing : Back
backing = record {
  clients = client "CL-1" true ∷ [];
  limiter = (new_service 2 60, record { sets = λ key. []; up = false });
  reports = record { redis = redis; world = 0 };
}

abbrev usage_request : Request
usage_request = record {
  authorization = none;
  x_api_key = some "CL-1";
  query_token = none;
  query_api_key = none;
  client = none;
}

-- A query that is not a text is refused.
abbrev schema : Bool → List Issue ⊎ Option String
schema true = inr (some "7")
schema false = inl (record { path = "query" ∷ "days" ∷ []; message = "Expected string" } ∷ [])

abbrev days : List DailyUsageResult
days = day 1001 5 ∷ []

abbrev tops : List TopClientResult
tops = []

get_usage-Entitled_example :
    let controller =
      daily_controller plain_tokens plain_compare client_list sorted_sets value_store queries env
        (only days)
        (only tops) in
    let served =
      get_usage plain_tokens plain_compare client_list sorted_sets value_store queries env schema
        controller 3000 3000 "0.5" usage_request true backing in
    IsDenied plain_tokens plain_compare client_list sorted_sets value_store queries env schema
      controller backing served
    ⊎ Entitled plain_tokens plain_compare client_list sorted_sets value_store queries env schema
        controller 3000 "0.5" usage_request true backing served
get_usage-Entitled_example =
    get_usage-Entitled plain_tokens plain_compare client_list sorted_sets value_store queries env
      schema
      (daily_controller plain_tokens plain_compare client_list sorted_sets value_store queries env
        (only days) (only tops))
      3000 3000 "0.5" usage_request true backing

-- Without Redis, and within the limit: two days, the later one first.
answered_from_database :
    let served =
      get_usage_daily plain_tokens plain_compare client_list sorted_sets value_store queries env
        (only days)
        (only tops)
        schema
        3000
        3000
        "0.5"
        usage_request
        true
        backing in
    (served.status ≡ 200) × (served.rows ≡ some (day 1001 5 ∷ day 1000 3 ∷ []))
unfolding get_usage_daily get_usage usage_guard authenticate authenticate_api_key verify_jwt
    find_matching rate_limit_middleware validate_request handle_daily_usage get_daily_usage
    fresh_daily_usage find_all_active query_daily_usage collect sort with_database_retry with_retry
    retry_from parse_int check_rate_limit_in_memory new_service get_json get ensure_connected
    success
answered_from_database = (refl, refl)
