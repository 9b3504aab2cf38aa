-- ===== src/Lifecycle/Closed.antt =====
-- What the shutdown of src/index.ts closes.
use activity_tracker_api.Base.{
  ◌≡◌, ◌∙◌, refl, ap, Bool, true, false, ◌&&◌, none, some, List, if◌then◌else◌, Result, ok, thrown,
  Bool-cases, Option-cases, inl, inr,
}
use activity_tracker_api.Redis.{
  Ioredis, Redis, JsonCodec, disconnect, quit_client, quit_reader, reader_gone, writer_gone,
  same_client,
}
use activity_tracker_api.Reports.{DailyUsageResult, TopClientResult, Queries}
use activity_tracker_api.Usage.{Env}
use activity_tracker_api.Prewarm.{CachePrewarmService, stop_cron_job}
use activity_tracker_api.Sockets.{close}
use activity_tracker_api.Database.{DataSource, Opened, after, close_database}
use activity_tracker_api.Lifecycle.{Settings, Server, stop_cron, on_close_signal}
use activity_tracker_api.Lifecycle.Ready.{CronIs, IsReady}

-- A `disconnect` that returned has marked the service as disconnected.
Down : (io : Ioredis) → Result (Unit {0}) × Redis (Ioredis.Store io) → Type 0
Down io (thrown e, r) = Unit
Down io (ok _, r) = r.service.is_connected ≡ false

module _ (io : Ioredis) where
  open io use {Store}

  reader_gone-Down : (p : Result (Unit {0}) × Redis Store) → Down io (reader_gone io p)
  unfolding Down
  reader_gone-Down (thrown e, r) = tt
  reader_gone-Down (ok _, r) = refl

  quit_reader-Down : (r : Redis Store) → Down io (quit_reader io r)
  unfolding Down
  quit_reader-Down r = elim (Option-cases r.service.read_client) [
    | inl gone ↦ rw (gone, quit_reader) refl
    | inr (c, there) ↦ elim (Bool-cases (same_client (some c) r.service.write_client)) [
      | inl same ↦ rw (there, quit_reader, same) refl
      | inr other ↦ rw (there, quit_reader, other) (reader_gone-Down (quit_client io c r))
    ]
  ]

  writer_gone-Down : (p : Result (Unit {0}) × Redis Store) → Down io (writer_gone io p)
  unfolding Down
  writer_gone-Down (thrown e, r) = tt
  writer_gone-Down (ok _, r) =
      quit_reader-Down (record r { service = record r.service { write_client = none } })

  disconnect-Down : (r : Redis Store) → Down io (disconnect io r)
  unfolding Down disconnect
  disconnect-Down r = elim (Option-cases r.service.write_client) [
    | inl gone ↦ rw (gone, disconnect) (quit_reader-Down r)
    | inr (c, there) ↦ rw (there, disconnect) (writer_gone-Down (quit_client io c r))
  ]

  ends_disconnected :
      (p : Result (Unit {0}) × Redis Store)
      → Down io p
      → p.0 ≡ ok tt
      → p.1.service.is_connected ≡ false
  unfolding Down
  ends_disconnected (thrown e, r) h done = absurd (cc)
  ends_disconnected (ok _, r) h done = h

after-closed :
    (source : DataSource) (p : Result (Unit {0}) × DataSource.World source)
    → (after source true false p).0 ≡ ok tt
    → (after source true false p).1.is_initialized ≡ false
after-closed source (thrown e, w) done = absurd (cc)
after-closed source (ok _, w) done = refl

close_if :
    (source : DataSource) (b : Bool) (d : Opened source)
    → d.is_initialized ≡ b
    → (if b then after source true false (source.destroy d.world) else (ok tt, d)).0 ≡ ok tt
    → (if b then after source true false (source.destroy d.world) else (ok tt, d)).1.is_initialized
      ≡ false
close_if source false d h done = h
close_if source true d h done = after-closed source (source.destroy d.world) done

close_database-closed :
    (source : DataSource) (d : Opened source)
    → (close_database source d).0 ≡ ok tt
    → (close_database source d).1.is_initialized ≡ false
unfolding close_database
close_database-closed source d done = close_if source d.is_initialized d refl done

stop_cron_job-idle : (c : CachePrewarmService) → CronIs true c → CronIs false (stop_cron_job c)
unfolding stop_cron_job
stop_cron_job-idle c (on, one) = rw (on, one, stop_cron_job) (refl, refl)

stop_cron_job-stays : (c : CachePrewarmService) → CronIs false c → CronIs false (stop_cron_job c)
unfolding stop_cron_job
stop_cron_job-stays c (off, zero_tasks) = rw (off, stop_cron_job) (refl, zero_tasks)

module _ (io : Ioredis) (source : DataSource) (db : Queries) (env : Env)
    (json_daily : JsonCodec (List DailyUsageResult))
    (json_top : JsonCodec (List TopClientResult)) where
  stopped_cron :
      (enabled cron : Bool) (s : Server io source db env json_daily json_top)
      → CronIs (enabled && cron) s.prewarming
      → CronIs false
          (if cron then record s { prewarming = stop_cron_job s.prewarming } else s).prewarming
  stopped_cron true true s h = stop_cron_job-idle s.prewarming h
  stopped_cron true false s h = h
  stopped_cron false true s h = stop_cron_job-stays s.prewarming h
  stopped_cron false false s h = h

  stop_cron-rest :
      (settings : Settings) (s : Server io source db env json_daily json_top)
      → ((stop_cron io source db env json_daily json_top settings s).database ≡ s.database)
        × ((stop_cron io source db env json_daily json_top settings s).backend ≡ s.backend)
  stop_cron-rest settings s = elim (Bool-cases settings.cache_prewarm_cron_enabled) [
    | inl on ↦ rw (on, stop_cron) (refl, refl)
    | inr off ↦ rw (off, stop_cron) (refl, refl)
  ]

  -- After a startup that is complete, a signal whose HTTP server closes in time ends with exit code 0,
  -- without a scheduled task, without sockets, with the database closed and Redis disconnected. The
  -- closing of the database and the disconnection of Redis do not throw.
  pub on_close_signal-closed :
      (settings : Settings) (s : Server io source db env json_daily json_top)
      → IsReady io source db env json_daily json_top settings s
      → (close_database source s.database).0 ≡ ok tt
      → (disconnect io s.backend.redis).0 ≡ ok tt
      → let s' = on_close_signal io source db env json_daily json_top settings true s in
        (s'.exited ≡ some 0)
        × CronIs false s'.prewarming
        × (s'.sockets.io ≡ none)
        × (s'.listening ≡ false)
        × (s'.database.is_initialized ≡ false)
        × (s'.backend.redis.service.is_connected ≡ false)
  unfolding on_close_signal close
  on_close_signal-closed settings s ready closes quits =
      let (same_database, same_backend) = stop_cron-rest settings s in
      (
        refl,
        stopped_cron settings.cache_prewarm_enabled settings.cache_prewarm_cron_enabled s
            ready.cron,
        refl,
        refl,
        ap (λ d. (close_database source d).1.is_initialized) same_database
            ∙ close_database-closed source s.database closes,
        ap (λ b. (disconnect io b.redis).1.service.is_connected) same_backend
            ∙ ends_disconnected io (disconnect io s.backend.redis)
                (disconnect-Down io s.backend.redis) quits,
      )
