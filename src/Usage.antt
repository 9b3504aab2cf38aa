-- ===== src/Usage.antt =====
-- The usage statistics of src/api/client/clientService.ts, cached in Redis, and the counting of
-- src/services/cache-hit-tracker.service.ts.
pub mod Cache
pub mod Route
use Prim.Native.String
use activity_tracker_api.Base.{
  ℕ, zero, suc, ◌+◌, ◌/◌, ◌%◌, ◌==◌, ◌≡◌, String, Bool, true, false, Option, none, some, List, [],
  ◌∷◌, ◌++◌, map, ltb, leb, if◌then◌else◌, Error, Result, ok, thrown, ◌>>=◌,
}
use activity_tracker_api.Base.Int.{pos}
use activity_tracker_api.Base.Numbers.{Number, to_text}
use activity_tracker_api.Reports.{
  DailyUsageResult, TopClientResult, Queries, fresh_daily_usage, fresh_top_clients,
}
use activity_tracker_api.Http.{ServiceResponse, success, failure}
use activity_tracker_api.Retry.{Run, with_database_retry}
use activity_tracker_api.Auth.Clients.{Client}
use activity_tracker_api.Redis.{Ioredis, Redis, JsonCodec, get_json, set_json, incr_by, expire}

-- The settings that the service reads.
pub record Env : Type 0 where
  pub cache_hit_tracking_enabled : Bool
  pub cache_ttl_usage_daily : ℕ
  pub cache_ttl_usage_top : ℕ

unfoldable pub daily_key : (days : Number) → String
daily_key days = String.◌++◌ "usage:daily:" (to_text days)

unfoldable pub top_key : (hours limit : Number) → String
top_key hours limit =
    String.◌++◌ "usage:top:" (String.◌++◌ (to_text hours) (String.◌++◌ ":" (to_text limit)))

module _ (io : Ioredis) where
  open io use {Store}

  abbrev pub hit_key : String → String
  hit_key cache_key = String.◌++◌ "cache:hits:" cache_key

  abbrev pub miss_key : String → String
  miss_key cache_key = String.◌++◌ (hit_key cache_key) ":miss"

  abbrev pub window_seconds : ℕ
  window_seconds = 300

  abbrev pub count_access : String → Redis Store → Redis Store
  count_access counted r =
      let (outcome, r') = incr_by io counted 1 r in
      elim outcome [ thrown e ↦ r' | ok n ↦ (expire io counted window_seconds r').1 ]

  -- Its `catch` swallows every error.
  unfoldable pub track_access : String → Bool → Redis Store → Redis Store
  track_access cache_key is_hit r =
      count_access (if is_hit then hit_key cache_key else miss_key cache_key) r

  -- Nobody waits for the tracking, which stands here where it starts.
  abbrev pub track : Env → String → Bool → Redis Store → Redis Store
  track env cache_key is_hit r =
      if env.cache_hit_tracking_enabled then track_access cache_key is_hit r else r

-- The test `cached && cached.length > 0`, behind the `catch` of the cache's read.
abbrev pub cached_rows : {A : Type 0} → Result (Option (List A)) → Option (List A)
cached_rows (thrown e) = none
cached_rows (ok none) = none
cached_rows (ok (some [])) = none
cached_rows (ok (some (x ∷ xs))) = some (x ∷ xs)

module _ (io : Ioredis) (db : Queries) (env : Env) where
  -- What the service changes: Redis, and the world of the database.
  pub record Backend : Type 0 where
    pub redis : Redis (Ioredis.Store io)
    pub world : Queries.World db

  -- The write after a miss, whose errors are caught.
  abbrev pub write_back :
      {A : Type 0}
      → JsonCodec (List A)
      → String
      → ℕ
      → List A
      → Redis (Ioredis.Store io)
      → Redis (Ioredis.Store io)
  write_back json cache_key ttl [] r = r
  write_back json cache_key ttl (x ∷ xs) r = (set_json io json cache_key (x ∷ xs) (pos ttl) r).1

  -- The write of the prewarming, whose errors are thrown again.
  abbrev pub prewarm_rows :
      {A : Type 0}
      → JsonCodec (List A)
      → String
      → ℕ
      → Result (List A) × Queries.World db
      → Redis (Ioredis.Store io)
      → Result (Unit {0}) × Backend
  prewarm_rows json cache_key ttl (thrown e, w) r = (thrown e, record { redis = r; world = w })
  prewarm_rows json cache_key ttl (ok [], w) r = (ok tt, record { redis = r; world = w })
  prewarm_rows json cache_key ttl (ok (x ∷ xs), w) r =
      let (outcome, r') = set_json io json cache_key (x ∷ xs) (pos ttl) r in
      (outcome, record { redis = r'; world = w })

  module _ (json : JsonCodec (List DailyUsageResult)) where
    abbrev pub answer_daily :
        String
        → Redis (Ioredis.Store io)
        → Result (List DailyUsageResult) × Queries.World db
        → ServiceResponse (List DailyUsageResult) × Backend
    answer_daily cache_key r (thrown e, w) = (
      failure "An error occurred while retrieving daily usage." [] 500,
      record { redis = r; world = w },
    )
    answer_daily cache_key r (ok rows, w) = (
      success "Daily usage retrieved successfully" rows 200,
      record { redis = write_back json cache_key env.cache_ttl_usage_daily rows r; world = w },
    )

    unfoldable pub get_daily_usage :
        Number → Backend → ServiceResponse (List DailyUsageResult) × Backend
    get_daily_usage days s =
        let key = daily_key days in
        elim (cached_rows (get_json io json key s.redis)) [
          | some rows ↦ (
            success "Daily usage retrieved from cache" rows 200,
            record s { redis = track io env key true s.redis },
          )
          | none ↦
              answer_daily key (track io env key false s.redis) (fresh_daily_usage db days s.world)
        ]

    unfoldable pub prewarm_daily_usage : Number → Backend → Result (Unit {0}) × Backend
    prewarm_daily_usage days s =
        prewarm_rows json (daily_key days) env.cache_ttl_usage_daily
          (fresh_daily_usage db days s.world) s.redis

  module _ (json : JsonCodec (List TopClientResult)) where
    abbrev pub answer_top :
        String
        → Redis (Ioredis.Store io)
        → Result (List TopClientResult) × Queries.World db
        → ServiceResponse (List TopClientResult) × Backend
    answer_top cache_key r (thrown e, w) = (
      failure "An error occurred while retrieving top clients." [] 500,
      record { redis = r; world = w },
    )
    answer_top cache_key r (ok rows, w) = (
      success "Top clients retrieved successfully" rows 200,
      record { redis = write_back json cache_key env.cache_ttl_usage_top rows r; world = w },
    )

    unfoldable pub get_top_clients :
        (hours limit : Number) → Backend → ServiceResponse (List TopClientResult) × Backend
    get_top_clients hours limit s =
        let key = top_key hours limit in
        elim (cached_rows (get_json io json key s.redis)) [
          | some rows ↦ (
            success "Top clients retrieved from cache" rows 200,
            record s { redis = track io env key true s.redis },
          )
          | none ↦
              answer_top key (track io env key false s.redis)
                (fresh_top_clients db hours limit s.world)
        ]

    unfoldable pub prewarm_top_clients :
        (hours limit : Number) → Backend → Result (Unit {0}) × Backend
    prewarm_top_clients hours limit s =
        prewarm_rows json (top_key hours limit) env.cache_ttl_usage_top
          (fresh_top_clients db hours limit s.world) s.redis
