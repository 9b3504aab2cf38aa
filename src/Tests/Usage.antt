-- ===== src/Tests/Usage.antt =====
-- Runs of src/api/client/clientService.ts.
use activity_tracker_api.Base.{◌≡◌, refl, true, false, Bool, some, List, [], ◌∷◌, arith, ok, count}
use activity_tracker_api.Base.Numbers.{whole, to_text}
use activity_tracker_api.Http.{success}
use activity_tracker_api.Auth.Clients.{Client}
use activity_tracker_api.Retry.{with_database_retry, with_retry, retry_from}
use activity_tracker_api.Redis.{Redis, set_json, set, ensure_connected}
use activity_tracker_api.Reports.{
  DailyUsageResult, TopClientResult, Queries, fresh_daily_usage, fresh_top_clients, find_all_active,
  query_daily_usage, query_top_clients, collect, sort,
}
use activity_tracker_api.Usage.{
  Env, Backend, get_daily_usage, prewarm_daily_usage, prewarm_top_clients, daily_key, top_key,
}
use activity_tracker_api.Reports.Counts.{HasCount}
use activity_tracker_api.Base.{All}
use activity_tracker_api.Base.Numbers.{parse_int}
use activity_tracker_api.Reports.Sort.{IsSorted, Collected, fresh_daily_usage-IsSorted}
use activity_tracker_api.Usage.Cache.{
  caught_up, plain_answer, get_daily_usage-down, prewarm-get_daily_usage,
}
use activity_tracker_api.Tests.Stores.{value_store, Values, two_days, day, only}

daily_key-7 : daily_key (whole 7) ≡ "usage:daily:7"
unfolding daily_key to_text
daily_key-7 = refl

top_key-168 : top_key (whole 168) (whole 10) ≡ "usage:top:168:10"
unfolding top_key to_text
top_key-168 = refl

abbrev queries : Queries
queries = two_days 1000

abbrev env : Env
env = record {
  cache_hit_tracking_enabled = true;
  cache_ttl_usage_daily = 300;
  cache_ttl_usage_top = 60;
}

abbrev redis : Bool → Redis Values
redis is_connected = record {
  service = record {
    write_client = some 1;
    read_client = some 2;
    is_connected = is_connected;
    reconnect_attempts = 0;
  };
  store = record { ended = []; values = [] };
}

abbrev backend : Bool → Backend value_store queries env
backend is_connected = record { redis = redis is_connected; world = 0 }

abbrev later_day : DailyUsageResult
later_day = day 1001 5

abbrev earlier : List DailyUsageResult
earlier = day 1000 3 ∷ []

fresh : (fresh_daily_usage queries (whole 7) 0).0 ≡ ok (later_day ∷ earlier)
unfolding fresh_daily_usage find_all_active query_daily_usage collect sort with_database_retry
    with_retry retry_from parse_int
fresh = refl

fresh_daily_usage-IsSorted_example :
    IsSorted (later_day ∷ earlier)
    × All HasCount (later_day ∷ earlier)
    × (clients : List Client) × (all : List DailyUsageResult) × ((find_all_active queries 0).outcome
        ≡ ok clients)
    × Collected queries
        (whole 7)
        clients
        all
        (find_all_active queries 0).state
        (fresh_daily_usage queries (whole 7) 0).1
    × ((p : DailyUsageResult → Bool) → count p (later_day ∷ earlier) ≡ count p all)
fresh_daily_usage-IsSorted_example =
    fresh_daily_usage-IsSorted queries (whole 7) 0 (later_day ∷ earlier) fresh

get_daily_usage-down_example :
    get_daily_usage value_store queries env (only earlier) (whole 7) (backend false) ≡ (
      plain_answer "Daily usage retrieved successfully"
          "An error occurred while retrieving daily usage."
          (fresh_daily_usage queries (whole 7) 0).0,
      record { redis = redis false; world = (fresh_daily_usage queries (whole 7) 0).1 },
    )
get_daily_usage-down_example =
    get_daily_usage-down value_store queries env (only earlier) (whole 7) (backend false) refl

daily_is_warm :
    (prewarm_daily_usage value_store queries env
      (only (later_day ∷ earlier))
      (whole 7)
      (backend true)).0
    ≡ ok tt
unfolding prewarm_daily_usage fresh_daily_usage find_all_active query_daily_usage collect sort
    with_database_retry with_retry retry_from set_json set ensure_connected parse_int
daily_is_warm = refl

prewarm-get_daily_usage_example :
    let json = only (later_day ∷ earlier) in
    let warm = (prewarm_daily_usage value_store queries env json (whole 7) (backend true)).1 in
    let again =
      get_daily_usage value_store queries env json
        (whole 7)
        (record warm { redis = caught_up value_store warm.redis }) in
    (again.0 ≡ success "Daily usage retrieved from cache" (later_day ∷ earlier) 200)
    × (again.1.world ≡ warm.world)
prewarm-get_daily_usage_example =
    prewarm-get_daily_usage value_store queries env (only (later_day ∷ earlier)) (whole 7)
      (backend true) later_day earlier (omega arith) (record { written = refl; parsed = refl })
      fresh daily_is_warm

abbrev top : TopClientResult
top = record {
  client_id = "CL-1";
  request_count = whole 8;
  avg_response_time = "12.5";
  error_count = whole 0;
  last_access = 1000;
}

fresh_top : (fresh_top_clients queries (whole 24) (whole 3) 0).0 ≡ ok (top ∷ [])
unfolding query_top_clients with_database_retry with_retry retry_from parse_int
fresh_top = refl

top_is_warm :
    (prewarm_top_clients value_store queries env
      (only (top ∷ []))
      (whole 24)
      (whole 3)
      (backend true)).0
    ≡ ok tt
unfolding prewarm_top_clients query_top_clients with_database_retry with_retry retry_from set_json
    set ensure_connected parse_int
top_is_warm = refl
