-- ===== src/Lifecycle/Ready.antt =====
-- What the startup of src/index.ts leads to.
use activity_tracker_api.Base.{
  ℕ, ◌≡◌, ◌∙◌, refl, ap, String, Bool, true, false, not, ◌&&◌, some, List, [], ◌∷◌, if◌then◌else◌,
  ◌⊎◌, inl, inr, Result, ok, thrown, Result-cases,
}
use activity_tracker_api.Base.Int.{ℤ, pos}
use activity_tracker_api.Redis.{Ioredis, Redis, JsonCodec, write, set, set_json, ensure_connected}
use activity_tracker_api.Redis.Connecting.{connect, connected}
use activity_tracker_api.Redis.Commands.{subscribe}
use activity_tracker_api.Reports.{
  DailyUsageResult, TopClientResult, Queries, fresh_daily_usage, fresh_top_clients,
}
use activity_tracker_api.Usage.{
  Env, Backend, prewarm_rows, prewarm_daily_usage, prewarm_top_clients, daily_key, top_key,
}
use activity_tracker_api.Prewarm.{
  CachePrewarmService, start_cron_job, prewarm_all, common_days, common_queries,
}
use activity_tracker_api.Prewarm.Keeps.{prewarm_both_keeps}
use activity_tracker_api.Database.{DataSource, Opened, after, initialize_database}
use activity_tracker_api.Lifecycle.{
  Settings, Server, then_run, with_redis, open_redis, prewarm, listen, subscribed, started,
  start_server,
}

-- A cron job that is there is one scheduled task, and otherwise there is none.
abbrev pub CronIs : Bool → CachePrewarmService → Type 0
CronIs on c = (c.cron_job ≡ on) × (c.scheduled ≡ (if on then 1 else 0))

-- A step that returned has what it promises.
abbrev IfReturned : {S : Type 0} → (S → Type 0) → Result (Unit {0}) × S → Type 0
IfReturned P (thrown e, s) = Unit
IfReturned P (ok _, s) = P s

module _ (source : DataSource) where
  Initialized : Opened source → Type 0
  Initialized d = d.is_initialized ≡ true

  after-Initialized :
      (p : Result (Unit {0}) × DataSource.World source)
      → IfReturned Initialized (after source false true p)
  unfolding Initialized
  after-Initialized (thrown e, w) = tt
  after-Initialized (ok _, w) = refl

  initialize_if :
      (b : Bool) (d : Opened source)
      → d.is_initialized ≡ b
      → IfReturned Initialized
          (if not b then after source false true (source.initialize d.world) else (ok tt, d))
  unfolding Initialized
  initialize_if true d h = h
  initialize_if false d h = after-Initialized (source.initialize d.world)

  initialize_database-Initialized :
      (d : Opened source) → IfReturned Initialized (initialize_database source d)
  unfolding initialize_database
  initialize_database-Initialized d = initialize_if d.is_initialized d refl

module _ (io : Ioredis) where
  Up : Redis (Ioredis.Store io) → Type 0
  Up r = r.service.is_connected ≡ true

  connected-Up : (p : Result (Unit {0}) × Redis (Ioredis.Store io)) → IfReturned Up (connected io p)
  unfolding Up
  connected-Up (thrown e, r) = tt
  connected-Up (ok _, r) = refl

  subscribe-service :
      (channel : String) (r : Redis (Ioredis.Store io))
      → (subscribe io channel r).1.service ≡ r.service
  unfolding subscribe
  subscribe-service channel r = elim (Result-cases (ensure_connected r.service)) [
    | inl (c, on) ↦ rw (on, subscribe) refl
    | inr (e, off) ↦ rw (off, subscribe) refl
  ]

module _ (io : Ioredis) (db : Queries) (env : Env) where
  -- A write and a pre-warming change what Redis stores, and not the service.
  set_json-service :
      {A : Type 0} (json : JsonCodec A) (key : String) (value : A) (ttl : ℤ)
      (r : Redis (Ioredis.Store io))
      → (set_json io json key value ttl r).1.service ≡ r.service
  unfolding set_json set
  set_json-service json key value ttl r = elim (Result-cases (ensure_connected r.service)) [
    | inl (c, on) ↦ rw (on, set_json, set, write) refl
    | inr (e, off) ↦ rw (off, set_json, set, write) refl
  ]

  prewarm_rows-service :
      {A : Type 0} (json : JsonCodec (List A)) (key : String) (ttl : ℕ)
      (fresh : Result (List A) × Queries.World db) (r : Redis (Ioredis.Store io))
      → (prewarm_rows io db env json key ttl fresh r).1.redis.service ≡ r.service
  prewarm_rows-service json key ttl (thrown e, w) r = refl
  prewarm_rows-service json key ttl (ok [], w) r = refl
  prewarm_rows-service json key ttl (ok (x ∷ xs), w) r =
      set_json-service json key (x ∷ xs) (pos ttl) r

  module _ (json_daily : JsonCodec (List DailyUsageResult))
      (json_top : JsonCodec (List TopClientResult)) where
    prewarm_all-service :
        (schedule : List Bool) (s : Backend io db env)
        → (prewarm_all io db env json_daily json_top schedule s).redis.service ≡ s.redis.service
    unfolding prewarm_daily_usage prewarm_top_clients
    prewarm_all-service schedule s =
        let Same : Backend io db env → Type 0 = λ s'. s'.redis.service ≡ s.redis.service in
        prewarm_both_keeps io db env json_daily json_top Same
          (λ days s' e.
            prewarm_rows-service json_daily (daily_key days) env.cache_ttl_usage_daily
              (fresh_daily_usage db days s'.world) s'.redis
            ∙ e)
          (λ query s' e.
            prewarm_rows-service json_top (top_key query.0 query.1) env.cache_ttl_usage_top
              (fresh_top_clients db query.0 query.1 s'.world) s'.redis
            ∙ e)
          schedule common_days common_queries s refl

module _ (io : Ioredis) (source : DataSource) (db : Queries) (env : Env)
    (json_daily : JsonCodec (List DailyUsageResult)) (json_top : JsonCodec (List TopClientResult))
    (settings : Settings) where
  abbrev Process : Type 0
  Process = Server io source db env json_daily json_top

  -- Everything is there for requests, log messages and signals.
  pub record IsReady (s : Process) : Type 0 where
    pub opened : s.database.is_initialized ≡ true
    pub on : s.backend.redis.service.is_connected ≡ true
    pub cron :
        CronIs (settings.cache_prewarm_enabled && settings.cache_prewarm_cron_enabled) s.prewarming
    pub sockets : s.sockets.io ≡ some []
    pub listening : s.listening ≡ true
    pub subscribed : (c : ℕ) × (s.subscriber ≡ some c)
    pub catches_signals : s.catches_signals ≡ true

  then_run-IfReturned :
      (P Q : Process → Type 0) (next : Process → Result (Unit {0}) × Process)
      (before : Result (Unit {0}) × Process)
      → ((s : Process) → P s → IfReturned Q (next s))
      → IfReturned P before
      → IfReturned Q (then_run io source db env json_daily json_top next before)
  then_run-IfReturned P Q next (thrown e, s) promise h = tt
  then_run-IfReturned P Q next (ok _, s) promise h = promise s h

  IsOpen : Process → Type 0
  IsOpen s = (s.database.is_initialized ≡ true) × CronIs false s.prewarming

  IsOn : Bool → Process → Type 0
  IsOn cron s =
      (s.backend.redis.service.is_connected ≡ true)
      × (s.database.is_initialized ≡ true)
      × CronIs cron s.prewarming

  IsListening : Bool → Process → Type 0
  IsListening cron s = (s.sockets.io ≡ some []) × (s.listening ≡ true) × IsOn cron s

  IsSubscribed : Bool → Process → Type 0
  IsSubscribed cron s = ((c : ℕ) × (s.subscriber ≡ some c)) × IsListening cron s

  cron_is_wanted : Bool
  cron_is_wanted = settings.cache_prewarm_enabled && settings.cache_prewarm_cron_enabled

  database_opened :
      (s : Process) (p : Result (Unit {0}) × Opened source)
      → CronIs false s.prewarming
      → IfReturned (Initialized source) p
      → IfReturned IsOpen (p.0, record s { database = p.1 })
  unfolding IsOpen Initialized
  database_opened s (thrown e, d) idle h = tt
  database_opened s (ok _, d) idle h = (h, idle)

  redis_opened :
      (s : Process) (p : Result (Unit {0}) × Redis (Ioredis.Store io))
      → IsOpen s
      → IfReturned (Up io) p
      → IfReturned (IsOn false) (p.0, with_redis io source db env json_daily json_top p.1 s)
  unfolding IsOpen IsOn Up
  redis_opened s (thrown e, r) h up = tt
  redis_opened s (ok _, r) (there, idle) up = (up, there, idle)

  open_redis-IsOn :
      (s : Process)
      → IsOpen s
      → IfReturned (IsOn false) (open_redis io source db env json_daily json_top settings s)
  unfolding connect
  open_redis-IsOn s h =
      redis_opened s (connect io settings.redis s.backend.redis) h (connected-Up io _)

  prewarmed :
      (enabled cron : Bool) (warm s : Process)
      → IsOn false warm
      → IsOn false s
      → IsOn (enabled && cron) (
          if enabled
          then (if cron then record warm { prewarming = start_cron_job warm.prewarming } else warm)
          else s)
  unfolding IsOn start_cron_job
  prewarmed true true warm s (on, there, (idle, none_yet)) h =
      (on, there, rw (idle, none_yet, start_cron_job) (refl, refl))
  prewarmed true false warm s h h' = h
  prewarmed false true warm s h h' = h'
  prewarmed false false warm s h h' = h'

  prewarm-IsOn :
      (schedule : List Bool) (s : Process)
      → IsOn false s
      → IfReturned
          (IsOn cron_is_wanted)
          (prewarm io source db env json_daily json_top settings schedule s)
  unfolding IsOn cron_is_wanted
  prewarm-IsOn schedule s (on, there, idle) =
      let same = prewarm_all-service io db env json_daily json_top schedule s.backend in
      prewarmed settings.cache_prewarm_enabled settings.cache_prewarm_cron_enabled
        (record s { backend = prewarm_all io db env json_daily json_top schedule s.backend }) s
        (ap (λ f. f.is_connected) same ∙ on, there, idle) (on, there, idle)

  listen-IsListening :
      (cron : Bool) (s : Process)
      → IsOn cron s
      → IfReturned (IsListening cron) (listen io source db env json_daily json_top s)
  unfolding IsListening IsOn
  listen-IsListening cron s h = (refl, refl, h)

  subscribed-IsSubscribed :
      (cron : Bool) (s : Process) (p : Result ℕ × Redis (Ioredis.Store io))
      → IsListening cron s
      → p.1.service ≡ s.backend.redis.service
      → IfReturned (IsSubscribed cron) (subscribed io source db env json_daily json_top s p)
  unfolding IsListening IsSubscribed IsOn
  subscribed-IsSubscribed cron s (thrown e, r) h same = tt
  subscribed-IsSubscribed cron s (ok c, r) (sockets, listens, (on, there, crons)) same =
      ((c, refl), (sockets, listens, (ap (λ f. f.is_connected) same ∙ on, there, crons)))

  started-IsReady :
      (p : Result (Unit {0}) × Process)
      → IfReturned (IsSubscribed cron_is_wanted) p
      → ((started io source db env json_daily json_top p).exited ≡ some 1)
        ⊎ IsReady (started io source db env json_daily json_top p)
  unfolding IsListening IsSubscribed IsOn cron_is_wanted
  started-IsReady (thrown e, s) h = inl refl
  started-IsReady (ok _, s) (heard, (sockets, listens, (on, there, crons))) = inr (record {
    opened = there;
    on = on;
    cron = crons;
    sockets = sockets;
    listening = listens;
    subscribed = heard;
    catches_signals = refl;
  })

  -- The startup either exits with code 1, or ends with the database open, Redis connected, one cron task
  -- exactly if the settings want it, the sockets and the HTTP server there, and the log channel and
  -- the signals listened to. Before it, no cron job is there.
  pub start_server-IsReady :
      (schedule : List Bool) (s : Process)
      → CronIs false s.prewarming
      → ((start_server io source db env json_daily json_top settings schedule s).exited ≡ some 1)
        ⊎ IsReady (start_server io source db env json_daily json_top settings schedule s)
  unfolding start_server
  start_server-IsReady schedule s idle =
      let opened =
        database_opened s (initialize_database source s.database) idle
          (initialize_database-Initialized source s.database) in
      let on = then_run-IfReturned _ _ _ _ open_redis-IsOn opened in
      let warm = then_run-IfReturned _ _ _ _ (prewarm-IsOn schedule) on in
      let listens = then_run-IfReturned _ _ _ _ (listen-IsListening cron_is_wanted) warm in
      started-IsReady _ (
        then_run-IfReturned _ _ _ _
          (λ s' h.
            subscribed-IsSubscribed cron_is_wanted s' _ h
              (subscribe-service io "api:log:new" s'.backend.redis))
          listens)
