-- ===== src/Usage/Cache.antt =====
-- How the cache of src/api/client/clientService.ts and the database behind it work together.
use activity_tracker_api.Base.{
  true, ℕ, ◌≤◌, ◌==◌, ◌≡◌, ◌∙◌, ap, refl, sym, subst, String, Bool, false, Bool-cases, inl, inr,
  some, List, [], ◌∷◌, if◌then◌else◌, arith, Result, ok, thrown, ◌>>=◌, Result-cases,
}
use activity_tracker_api.Base.Int.{pos}
use activity_tracker_api.Base.Numbers.{Number}
use activity_tracker_api.Http.{ServiceResponse, success, failure, is_truthy}
use activity_tracker_api.Redis.{
  Ioredis, Redis, Clients, JsonCodec, get_json, set_json, get, set, write, ensure_connected,
  not_connected, parse_value,
}
use activity_tracker_api.Redis.Connection.{operations-down}
use activity_tracker_api.Reports.{
  DailyUsageResult, TopClientResult, Queries, fresh_daily_usage, fresh_top_clients,
}
use activity_tracker_api.Usage.{
  Env, Backend, track, track_access, count_access, hit_key, miss_key, write_back, answer_daily,
  get_daily_usage, prewarm_daily_usage, daily_key, get_top_clients, prewarm_top_clients, top_key,
  prewarm_rows,
}

-- Redis once the replica has caught up.
abbrev pub caught_up : (io : Ioredis) → Redis (Ioredis.Store io) → Redis (Ioredis.Store io)
caught_up io r = record r { store = io.replicated r.store }

-- A value is written as text that is not empty, and reads back as it was.
pub record ReadsBack {A : Type 0} (json : JsonCodec A) (a : A) : Type 0 where
  pub written : is_truthy (some (json.stringify a)) ≡ true
  pub parsed : json.parse (json.stringify a) ≡ ok a

module _ (io : Ioredis) where
  open io use {Store}

  set-timed :
      (key value : String) (ttl : ℕ) (r : Redis Store) (c : Clients)
      → 1 ≤ ttl
      → ensure_connected r.service ≡ ok c
      → set io key value (pos ttl) r ≡ (
        (io.setex c.writer key (pos ttl) value r.store).0,
        record r { store = (io.setex c.writer key (pos ttl) value r.store).1 },
      )
  unfolding set
  set-timed key value ttl r c lasting on =
      let timed : (ttl == 0) ≡ false = ground arith in rw (on, set, write, timed) refl

  pub get-set :
      (key value : String) (ttl : ℕ) (r : Redis Store)
      → 1 ≤ ttl
      → (set io key value (pos ttl) r).0 ≡ ok tt
      → get io key (caught_up io (set io key value (pos ttl) r).1) ≡ ok (some value)
  unfolding set get
  get-set key value ttl r lasting e = elim (Result-cases (ensure_connected r.service)) [
    | inr (err, off) ↦ let h : thrown err ≡ ok tt = rw (off, set, write) at e in absurd (cc)
    | inl (c, on) ↦
        let sent = set-timed key value ttl r c lasting on in
        let h : (io.setex c.writer key (pos ttl) value r.store).0 ≡ ok tt =
          ap (λ x. x.0) (sym sent) ∙ e in
        subst (λ x. get io key (caught_up io x.1) ≡ ok (some value)) (sym sent)
          (rw (on, get) (io.get_setex c.writer c.reader key (pos ttl) value r.store h))
  ]

  module _ {A : Type 0} (json : JsonCodec A) where
    get_json-set_json :
        (key : String) (a : A) (ttl : ℕ) (r : Redis Store)
        → 1 ≤ ttl
        → ReadsBack json a
        → (set_json io json key a (pos ttl) r).0 ≡ ok tt
        → get_json io json key (caught_up io (set_json io json key a (pos ttl) r).1) ≡ ok (some a)
    unfolding set_json get_json
    get_json-set_json key a ttl r lasting back e =
        let stored = get-set key (json.stringify a) ttl r lasting e in
        ap (λ v. v >>= parse_value io json) stored ∙ rw (back.written, back.parsed) refl

  count_access-down :
      (counted : String) (r : Redis Store)
      → r.service.is_connected ≡ false
      → count_access io counted r ≡ r
  count_access-down counted r h =
      let (_, _, sent, _, _) = operations-down io r counted "" (pos 0) 300 1 h in
      rw (sent, count_access) (ap (λ p. p.1) sent)

  track-down :
      (env : Env) (key : String) (is_hit : Bool) (r : Redis Store)
      → r.service.is_connected ≡ false
      → track io env key is_hit r ≡ r
  unfolding track_access
  track-down env key is_hit r h = elim (Bool-cases env.cache_hit_tracking_enabled) [
    | inr off ↦ rw off refl
    | inl on ↦ rw on (count_access-down (if is_hit then hit_key io key else miss_key io key) r h)
  ]

  get_json-down :
      {A : Type 0} (json : JsonCodec A) (key : String) (r : Redis Store)
      → r.service.is_connected ≡ false
      → get_json io json key r ≡ thrown not_connected
  unfolding get_json
  get_json-down json key r h = rw ((operations-down io r key "" (pos 0) 0 0 h).0) refl

-- What the database alone leads to.
abbrev pub plain_answer :
    {A : Type 0} → (succeeded failed : String) → Result (List A) → ServiceResponse (List A)
plain_answer succeeded failed (ok rows) = success succeeded rows 200
plain_answer succeeded failed (thrown e) = failure failed [] 500

module _ (io : Ioredis) (db : Queries) (env : Env) where
  write_back-down :
      {A : Type 0} (json : JsonCodec (List A)) (key : String) (ttl : ℕ) (rows : List A)
      (r : Redis (Ioredis.Store io))
      → r.service.is_connected ≡ false
      → write_back io db env json key ttl rows r ≡ r
  unfolding set_json
  write_back-down json key ttl [] r h = refl
  write_back-down json key ttl (x ∷ xs) r h =
      ap (λ p. p.1) ((operations-down io r key (json.stringify (x ∷ xs)) (pos ttl) 0 0 h).1)

  prewarm_rows-cached :
      {A : Type 0} (json : JsonCodec (List A)) (key : String) (ttl : ℕ)
      (fresh : Result (List A) × Queries.World db) (r : Redis (Ioredis.Store io)) (x : A)
      (xs : List A)
      → 1 ≤ ttl
      → ReadsBack json (x ∷ xs)
      → fresh.0 ≡ ok (x ∷ xs)
      → (prewarm_rows io db env json key ttl fresh r).0 ≡ ok tt
      → get_json io json key (caught_up io (prewarm_rows io db env json key ttl fresh r).1.redis)
        ≡ ok (some (x ∷ xs))
  prewarm_rows-cached json key ttl (thrown e, w) r x xs lasting back found done = absurd (cc)
  prewarm_rows-cached json key ttl (ok [], w) r x xs lasting back found done = absurd (cc)
  prewarm_rows-cached json key ttl (ok (y ∷ ys), w) r x xs lasting back found done =
      get_json-set_json io json key (y ∷ ys) ttl r lasting (subst (ReadsBack json) (cc) back) done
      ∙ ap (λ f. f >>= λ rows. ok (some rows)) found

  module _ (json : JsonCodec (List DailyUsageResult)) where
    answer_daily-plain :
        (key : String) (r : Redis (Ioredis.Store io))
        (fresh : Result (List DailyUsageResult) × Queries.World db)
        → r.service.is_connected ≡ false
        → answer_daily io db env json key r fresh ≡ (
          plain_answer "Daily usage retrieved successfully"
              "An error occurred while retrieving daily usage." fresh.0,
          record { redis = r; world = fresh.1 },
        )
    answer_daily-plain key r (thrown e, w) h = refl
    answer_daily-plain key r (ok rows, w) h =
        ap
          (λ x. (
            success "Daily usage retrieved successfully" rows 200,
            record { redis = x; world = w },
          ))
          (write_back-down json key env.cache_ttl_usage_daily rows r h)

    -- While Redis is not connected, the daily usage is answered from the database alone, failures
    -- included, and nothing is sent to Redis.
    pub get_daily_usage-down :
        (days : Number) (s : Backend io db env)
        → s.redis.service.is_connected ≡ false
        → get_daily_usage io db env json days s ≡ (
          plain_answer "Daily usage retrieved successfully"
              "An error occurred while retrieving daily usage."
              (fresh_daily_usage db days s.world).0,
          record { redis = s.redis; world = (fresh_daily_usage db days s.world).1 },
        )
    unfolding get_daily_usage
    get_daily_usage-down days s h =
        rw
          (
            get_json-down io json (daily_key days) s.redis h,
            get_daily_usage,
            track-down io env (daily_key days) false s.redis h,
          )
          (answer_daily-plain (daily_key days) s.redis (fresh_daily_usage db days s.world) h)

    -- After a prewarming that found rows and was not refused, once the replica has caught up, the
    -- same days are answered from the cache with these rows, and the database is not asked. The time
    -- to live is above 0, and JSON gives the rows back as they were.
    pub prewarm-get_daily_usage :
        (days : Number) (s : Backend io db env) (x : DailyUsageResult) (xs : List DailyUsageResult)
        → 1 ≤ env.cache_ttl_usage_daily
        → ReadsBack json (x ∷ xs)
        → (fresh_daily_usage db days s.world).0 ≡ ok (x ∷ xs)
        → (prewarm_daily_usage io db env json days s).0 ≡ ok tt
        → let warm = (prewarm_daily_usage io db env json days s).1 in
          let again =
            get_daily_usage io db env json days (record warm { redis = caught_up io warm.redis }) in
          (again.0 ≡ success "Daily usage retrieved from cache" (x ∷ xs) 200)
          × (again.1.world ≡ warm.world)
    unfolding get_daily_usage prewarm_daily_usage
    prewarm-get_daily_usage days s x xs lasting back fresh done =
        let cached =
          prewarm_rows-cached json (daily_key days) env.cache_ttl_usage_daily
            (fresh_daily_usage db days s.world) s.redis x xs lasting back fresh done in
        (rw (cached, get_daily_usage) refl, rw (cached, get_daily_usage) refl)

  module _ (json : JsonCodec (List TopClientResult)) where
    -- After a prewarming of the top clients that found rows and was not refused, once the replica has
    -- caught up, the same query is answered from the cache with these rows, and the database is not
    -- asked. The time to live is above 0, and JSON gives the rows back as they were.
    prewarm-get_top_clients :
        (hours limit : Number) (s : Backend io db env) (x : TopClientResult)
        (xs : List TopClientResult)
        → 1 ≤ env.cache_ttl_usage_top
        → ReadsBack json (x ∷ xs)
        → (fresh_top_clients db hours limit s.world).0 ≡ ok (x ∷ xs)
        → (prewarm_top_clients io db env json hours limit s).0 ≡ ok tt
        → let warm = (prewarm_top_clients io db env json hours limit s).1 in
          let again =
            get_top_clients io db env json hours limit
              (record warm { redis = caught_up io warm.redis }) in
          (again.0 ≡ success "Top clients retrieved from cache" (x ∷ xs) 200)
          × (again.1.world ≡ warm.world)
    unfolding get_top_clients prewarm_top_clients
    prewarm-get_top_clients hours limit s x xs lasting back fresh done =
        let cached =
          prewarm_rows-cached json (top_key hours limit) env.cache_ttl_usage_top
            (fresh_top_clients db hours limit s.world) s.redis x xs lasting back fresh done in
        (rw (cached, get_top_clients) refl, rw (cached, get_top_clients) refl)
