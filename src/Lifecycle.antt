-- ===== src/Lifecycle.antt =====
-- src/index.ts: the startup, the messages that it listens for, and the shutdown on a signal.
pub mod Ready
pub mod Closed
use activity_tracker_api.Base.{
  ℕ, String, Bool, true, false, Option, none, some, List, [], ◌∷◌, if◌then◌else◌, Error, Result, ok,
  thrown,
}
use activity_tracker_api.Redis.{Ioredis, Redis, JsonCodec, disconnect}
use activity_tracker_api.Redis.Connecting.{RedisEnv, connect}
use activity_tracker_api.Redis.Commands.{subscribe}
use activity_tracker_api.Reports.{DailyUsageResult, TopClientResult, Queries}
use activity_tracker_api.Usage.{Env, Backend}
use activity_tracker_api.Prewarm.{CachePrewarmService, start_cron_job, stop_cron_job, prewarm_all}
use activity_tracker_api.Sockets.{WebSocketService, broadcast_new_log, close}
use activity_tracker_api.Database.{DataSource, Opened, initialize_database, close_database}

-- The settings that the startup reads.
pub record Settings : Type 0 where
  pub cache_prewarm_enabled : Bool
  pub cache_prewarm_cron_enabled : Bool
  pub redis : RedisEnv

-- The handler of the channel `api:log:new`. `client_id_of` is `JSON.parse` with the field that the
-- broadcast reads; an error is caught.
unfoldable pub on_log_message :
    (client_id_of : String → Result String)
    → (message : String) → WebSocketService
    → WebSocketService
on_log_message client_id_of message sockets = elim (client_id_of message) [
  | thrown e ↦ sockets
  | ok client_id ↦ broadcast_new_log client_id message sockets
]

module _ (io : Ioredis) (source : DataSource) (db : Queries) (env : Env)
    (json_daily : JsonCodec (List DailyUsageResult))
    (json_top : JsonCodec (List TopClientResult)) where
  -- The process: its parts, and the code that it has exited with.
  pub record Server : Type 0 where
    pub database : Opened source
    pub backend : Backend io db env
    pub prewarming : CachePrewarmService
    pub sockets : WebSocketService
    pub listening : Bool
    pub subscriber : Option ℕ
    pub catches_signals : Bool
    pub exited : Option ℕ

  -- A step of the startup returns or throws, and what it changed stays.
  abbrev pub then_run :
      (Server → Result (Unit {0}) × Server)
      → Result (Unit {0}) × Server
      → Result (Unit {0}) × Server
  then_run next (thrown e, s) = (thrown e, s)
  then_run next (ok _, s) = next s

  abbrev pub open_database : Server → Result (Unit {0}) × Server
  open_database s =
      let (outcome, d) = initialize_database source s.database in
      (outcome, record s { database = d })

  abbrev pub with_redis : Redis (Ioredis.Store io) → Server → Server
  with_redis r s = record s { backend = record s.backend { redis = r } }

  abbrev pub open_redis : Settings → Server → Result (Unit {0}) × Server
  open_redis settings s =
      let (outcome, r) = connect io settings.redis s.backend.redis in (outcome, with_redis r s)

  -- The pre-warming catches its own errors.
  abbrev pub prewarm : Settings → (schedule : List Bool) → Server → Result (Unit {0}) × Server
  prewarm settings schedule s =
      let warm : Server = record s {
        backend = prewarm_all io db env json_daily json_top schedule s.backend;
      } in
      (
        ok tt,
        if settings.cache_prewarm_enabled
            then (if settings.cache_prewarm_cron_enabled
                then record warm { prewarming = start_cron_job warm.prewarming }
                else warm)
            else s,
      )

  abbrev pub listen : Server → Result (Unit {0}) × Server
  listen s = (ok tt, record s { listening = true; sockets = record { io = some [] } })

  abbrev pub subscribed : Server → Result ℕ × Redis (Ioredis.Store io) → Result (Unit {0}) × Server
  subscribed s (thrown e, r) = (thrown e, with_redis r s)
  subscribed s (ok subscriber, r) =
      (ok tt, record (with_redis r s) { subscriber = some subscriber })

  abbrev pub subscribe_to_logs : Server → Result (Unit {0}) × Server
  subscribe_to_logs s = subscribed s (subscribe io "api:log:new" s.backend.redis)

  abbrev pub started : Result (Unit {0}) × Server → Server
  started (thrown e, s) = record s { exited = some 1 }
  started (ok _, s) = record s { catches_signals = true }

  -- The startup. The schedule is that of the two pre-warming loops.
  unfoldable pub start_server : Settings → (schedule : List Bool) → Server → Server
  start_server settings schedule s = started (
      then_run subscribe_to_logs (
        then_run listen (
          then_run (prewarm settings schedule) (then_run (open_redis settings) (open_database s)))))

  abbrev pub stop_cron : Settings → Server → Server
  stop_cron settings s =
      if settings.cache_prewarm_cron_enabled
      then record s { prewarming = stop_cron_job s.prewarming }
      else s

  -- The callback of `server.close`; its errors are caught one by one.
  abbrev pub close_connections : Server → Server
  close_connections s =
      let (_, d) = close_database source s.database in
      let (_, r) = disconnect io s.backend.redis in
      record (with_redis r s) { database = d; exited = some 0 }

  -- The handler of the signals. The HTTP server closes within ten seconds, or the process is forced to
  -- exit.
  unfoldable pub on_close_signal : Settings → (http_closes : Bool) → Server → Server
  on_close_signal settings http_closes s =
      let stopped : Server = record (stop_cron settings s) {
        sockets = close s.sockets;
        listening = false;
      } in
      if http_closes then close_connections stopped else record stopped { exited = some 1 }
