-- ===== src/Tests/Tracker.antt =====
-- Runs of src/services/cache-hit-tracker.service.ts and src/services/cache-prewarm.service.ts.
use activity_tracker_api.Base.{
  ◌+◌, ◌≡◌, refl, String, Bool, true, false, ◌&&◌, some, List, [], ◌∷◌, map, ltb, if◌then◌else◌,
}
use activity_tracker_api.Base.Numbers.{whole, to_text, parse_int}
use activity_tracker_api.Redis.{Redis, ensure_connected, get, keys}
use activity_tracker_api.Reports.{Queries, DailyUsageResult, TopClientResult}
use activity_tracker_api.Usage.{
  Env, Backend, daily_key, top_key, prewarm_daily_usage, prewarm_top_clients,
}
use activity_tracker_api.Tracker.{
  contains, cache_key_of, needs_prewarming, get_hot_cache_keys, get_threshold, collect_hot,
  get_cache_stats,
}
use activity_tracker_api.Tracker.Hot.{occurrences, occurrences-get_hot_cache_keys}
use activity_tracker_api.Tracker.Counts.{needs_prewarming-counts}
use activity_tracker_api.Prewarm.{prewarm_by_cache_key}
use activity_tracker_api.Prewarm.Dispatch.{tracking_key, prewarm_by_cache_key-tracking_key}
use activity_tracker_api.Tests.Stores.{value_store, Values, two_days, day, only}

-- The daily usage of seven days was asked for 150 times, and was cached 30 times.
abbrev counted : Bool → Redis Values
counted is_connected = record {
  service = record {
    write_client = some 1;
    read_client = some 2;
    is_connected = is_connected;
    reconnect_attempts = 0;
  };
  store = record {
    ended = [];
    values =
        ("cache:hits:usage:daily:7", "30")
        ∷ ("cache:hits:usage:daily:7:miss", "120")
        ∷ ("cache:threshold:usage:daily:7", "100")
        ∷ [];
  };
}

needs_prewarming-counts_example :
    needs_prewarming value_store "usage:daily:7" (counted true) ≡ (ltb 30 120 && ltb 100 (30 + 120))
unfolding get ensure_connected to_text
needs_prewarming-counts_example =
    needs_prewarming-counts value_store "usage:daily:7" 30 120 100 (counted true) refl refl refl

abbrev tracked : List String
tracked =
    "cache:hits:usage:daily:7" ∷ "cache:hits:usage:daily:7:miss" ∷ "cache:threshold:usage:daily:7"
    ∷ []

occurrences-get_hot_cache_keys_example :
    occurrences "usage:daily:7" (get_hot_cache_keys value_store (counted true)) ≡ (
      if contains value_store (map (cache_key_of value_store) tracked) "usage:daily:7"
        && needs_prewarming value_store "usage:daily:7" (counted true)
      then 1
      else 0)
unfolding keys ensure_connected
occurrences-get_hot_cache_keys_example =
    occurrences-get_hot_cache_keys value_store (counted true) tracked "usage:daily:7" refl

one_hot_key : get_hot_cache_keys value_store (counted true) ≡ "usage:daily:7" ∷ []
unfolding get_hot_cache_keys collect_hot keys ensure_connected needs_prewarming get_cache_stats
    get_threshold get parse_int
one_hot_key = refl

abbrev queries : Queries
queries = two_days 1000

abbrev env : Env
env = record {
  cache_hit_tracking_enabled = true;
  cache_ttl_usage_daily = 300;
  cache_ttl_usage_top = 60;
}

abbrev backend : Bool → Backend value_store queries env
backend is_connected = record { redis = counted is_connected; world = 0 }

abbrev days : List DailyUsageResult
days = day 1001 5 ∷ []

abbrev tops : List TopClientResult
tops = []

prewarm_by_cache_key-tracking_key_example :
    let prewarm : String → Backend value_store queries env = λ key.
      prewarm_by_cache_key value_store queries env
        (only days)
        (only tops)
        (cache_key_of value_store (tracking_key value_store false key))
        (backend true) in
    (prewarm (daily_key (whole 7))
      ≡ (prewarm_daily_usage value_store queries env (only days) (whole 7) (backend true)).1)
    × (prewarm (top_key (whole 24) (whole 3))
        ≡ (prewarm_top_clients value_store queries env
            (only tops)
            (whole 24)
            (whole 3)
            (backend true)).1)
prewarm_by_cache_key-tracking_key_example =
    prewarm_by_cache_key-tracking_key value_store queries env (only days) (only tops) false
      (whole 7) (whole 24) (whole 3) (backend true) refl refl refl
