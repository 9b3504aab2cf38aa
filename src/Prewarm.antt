-- ===== src/Prewarm.antt =====
-- src/services/cache-prewarm.service.ts: the cron flag, the pre-warming of common queries, and that of the
-- keys that are found hot.
pub mod Dispatch
pub mod Keeps
use Prim.Native.String
use activity_tracker_api.Base.{
  ℕ, suc, ◌-◌, ◌==◌, String, Bool, true, false, not, ◌&&◌, List, [], ◌∷◌, if◌then◌else◌,
}
use activity_tracker_api.Base.Strings.{begins_with, remove, split}
use activity_tracker_api.Base.Numbers.{Number, whole, is_nan, parse_int}
use activity_tracker_api.Redis.{Ioredis, Redis, JsonCodec}
use activity_tracker_api.Reports.{DailyUsageResult, TopClientResult, Queries}
use activity_tracker_api.Usage.{Env, Backend, prewarm_daily_usage, prewarm_top_clients}
use activity_tracker_api.Tracker.{get_hot_cache_keys}

-- The task of `node-cron`, if it is there, and how many scheduled tasks run.
pub record CachePrewarmService : Type 0 where
  pub cron_job : Bool
  pub scheduled : ℕ

unfoldable pub start_cron_job : CachePrewarmService → CachePrewarmService
start_cron_job c = if c.cron_job then c else record { cron_job = true; scheduled = suc c.scheduled }

unfoldable pub stop_cron_job : CachePrewarmService → CachePrewarmService
stop_cron_job c = if c.cron_job then record { cron_job = false; scheduled = c.scheduled - 1 } else c

abbrev pub common_days : List Number
common_days = whole 7 ∷ whole 30 ∷ []

-- Hours and limits.
abbrev pub common_queries : List (Number × Number)
common_queries = (whole 24, whole 3) ∷ (whole 24, whole 10) ∷ (whole 168, whole 10) ∷ []

module _ (io : Ioredis) (db : Queries) (env : Env) (json_daily : JsonCodec (List DailyUsageResult))
    (json_top : JsonCodec (List TopClientResult)) where
  abbrev pub prewarm_daily : Number → Backend io db env → Backend io db env
  prewarm_daily days s = (prewarm_daily_usage io db env json_daily days s).1

  abbrev pub prewarm_top : Number × Number → Backend io db env → Backend io db env
  prewarm_top (hours, limit) s = (prewarm_top_clients io db env json_top hours limit s).1

  -- The two loops, whose errors are caught at each call. They run at the same time: the schedule says
  -- which loop makes the next call, the first one where it is true; one call is one piece. At the
  -- schedule's end each loop runs to its own end.
  unfoldable pub prewarm_both :
      (schedule : List Bool)
      → List Number
      → List (Number × Number)
      → Backend io db env
      → Backend io db env
  prewarm_both [] [] [] s = s
  prewarm_both [] [] (query ∷ queries) s = prewarm_both [] [] queries (prewarm_top query s)
  prewarm_both [] (days ∷ more) queries s = prewarm_both [] more queries (prewarm_daily days s)
  prewarm_both (true ∷ schedule) [] queries s = prewarm_both schedule [] queries s
  prewarm_both (true ∷ schedule) (days ∷ more) queries s =
      prewarm_both schedule more queries (prewarm_daily days s)
  prewarm_both (false ∷ schedule) days [] s = prewarm_both schedule days [] s
  prewarm_both (false ∷ schedule) days (query ∷ queries) s =
      prewarm_both schedule days queries (prewarm_top query s)

  abbrev pub prewarm_all : (schedule : List Bool) → Backend io db env → Backend io db env
  prewarm_all schedule s = prewarm_both schedule common_days common_queries s

  -- Two parts that are both numbers; everything else is left alone.
  abbrev pub prewarm_parts : List String → Backend io db env → Backend io db env
  prewarm_parts [] s = s
  prewarm_parts (a ∷ []) s = s
  prewarm_parts (a ∷ b ∷ []) s =
      let hours : Number = parse_int a in
      let limit : Number = parse_int b in
      if not (is_nan hours) && not (is_nan limit) then prewarm_top (hours, limit) s else s
  prewarm_parts (a ∷ b ∷ c ∷ parts) s = s

  unfoldable pub prewarm_by_cache_key : String → Backend io db env → Backend io db env
  prewarm_by_cache_key cache_key s =
      if begins_with "usage:daily:" cache_key
      then (let days : Number = parse_int (remove "usage:daily:" cache_key) in
          if not (is_nan days) then prewarm_daily days s else s)
      else if begins_with "usage:top:" cache_key
      then prewarm_parts (split b':' (remove "usage:top:" cache_key)) s
      else s

  abbrev pub prewarm_each : List String → Backend io db env → Backend io db env
  prewarm_each [] s = s
  prewarm_each (cache_key ∷ rest) s = prewarm_each rest (prewarm_by_cache_key cache_key s)

  -- What the cron job calls.
  unfoldable pub prewarm_hot_keys : (schedule : List Bool) → Backend io db env → Backend io db env
  prewarm_hot_keys schedule s =
      prewarm_all schedule (prewarm_each (get_hot_cache_keys io s.redis) s)
