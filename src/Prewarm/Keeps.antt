-- ===== src/Prewarm/Keeps.antt =====
-- What a scheduled pre-warming of src/services/cache-prewarm.service.ts leaves as it was.
use activity_tracker_api.Base.{
  ℕ, ◌≡◌, ◌∙◌, refl, ap, String, Bool, true, false, List, [], ◌∷◌, if◌then◌else◌, Result, ok,
  thrown,
}
use activity_tracker_api.Base.Strings.{begins_with, remove, split}
use activity_tracker_api.Base.Numbers.{Number}
use activity_tracker_api.Base.Int.{pos}
use activity_tracker_api.Redis.{Ioredis, Redis, JsonCodec, set_json}
use activity_tracker_api.Redis.Connection.{operations-down}
use activity_tracker_api.Reports.{
  DailyUsageResult, TopClientResult, Queries, fresh_daily_usage, fresh_top_clients,
}
use activity_tracker_api.Usage.{
  Env, Backend, prewarm_rows, prewarm_daily_usage, prewarm_top_clients, daily_key, top_key,
}
use activity_tracker_api.Tracker.{get_hot_cache_keys}
use activity_tracker_api.Prewarm.{
  prewarm_daily, prewarm_top, prewarm_both, prewarm_parts, prewarm_by_cache_key, prewarm_each,
  prewarm_hot_keys, common_days, common_queries,
}

module _ (io : Ioredis) (db : Queries) (env : Env) (json_daily : JsonCodec (List DailyUsageResult))
    (json_top : JsonCodec (List TopClientResult)) where
  -- What the pre-warming of one query keeps, all of it keeps.
  module _ (P : Backend io db env → Type 0)
      (keeps_daily : (days : Number) (s : Backend io db env)
        → P s
        → P (prewarm_daily io db env json_daily json_top days s))
      (keeps_top : (query : Number × Number) (s : Backend io db env)
        → P s
        → P (prewarm_top io db env json_daily json_top query s)) where
    pub prewarm_both_keeps :
        (schedule : List Bool) (days : List Number) (queries : List (Number × Number))
        (s : Backend io db env)
        → P s
        → P (prewarm_both io db env json_daily json_top schedule days queries s)
    unfolding prewarm_both
    prewarm_both_keeps [] [] [] s h = h
    prewarm_both_keeps [] [] (q ∷ qs) s h = prewarm_both_keeps [] [] qs _ (keeps_top q s h)
    prewarm_both_keeps [] (d ∷ ds) qs s h = prewarm_both_keeps [] ds qs _ (keeps_daily d s h)
    prewarm_both_keeps (true ∷ w) [] qs s h = prewarm_both_keeps w [] qs s h
    prewarm_both_keeps (true ∷ w) (d ∷ ds) qs s h = prewarm_both_keeps w ds qs _ (keeps_daily d s h)
    prewarm_both_keeps (false ∷ w) ds [] s h = prewarm_both_keeps w ds [] s h
    prewarm_both_keeps (false ∷ w) ds (q ∷ qs) s h = prewarm_both_keeps w ds qs _ (keeps_top q s h)

    if_keeps : (test : Bool) (s s' : Backend io db env) → P s → P s' → P (if test then s else s')
    if_keeps true s s' h h' = h
    if_keeps false s s' h h' = h'

    prewarm_parts_keeps :
        (parts : List String) (s : Backend io db env)
        → P s
        → P (prewarm_parts io db env json_daily json_top parts s)
    prewarm_parts_keeps [] s h = h
    prewarm_parts_keeps (a ∷ []) s h = h
    prewarm_parts_keeps (a ∷ b ∷ []) s h = if_keeps _ _ s (keeps_top _ s h) h
    prewarm_parts_keeps (a ∷ b ∷ c ∷ parts) s h = h

    prewarm_by_cache_key_keeps :
        (key : String) (s : Backend io db env)
        → P s
        → P (prewarm_by_cache_key io db env json_daily json_top key s)
    unfolding prewarm_by_cache_key
    prewarm_by_cache_key_keeps key s h =
        if_keeps (begins_with "usage:daily:" key) _ _ (if_keeps _ _ s (keeps_daily _ s h) h) (
          if_keeps (begins_with "usage:top:" key) _ s
            (prewarm_parts_keeps (split b':' (remove "usage:top:" key)) s h) h)

    prewarm_each_keeps :
        (keys : List String) (s : Backend io db env)
        → P s
        → P (prewarm_each io db env json_daily json_top keys s)
    prewarm_each_keeps [] s h = h
    prewarm_each_keeps (key ∷ keys) s h =
        prewarm_each_keeps keys _ (prewarm_by_cache_key_keeps key s h)

    prewarm_hot_keys_keeps :
        (schedule : List Bool) (s : Backend io db env)
        → P s
        → P (prewarm_hot_keys io db env json_daily json_top schedule s)
    unfolding prewarm_hot_keys
    prewarm_hot_keys_keeps schedule s h =
        prewarm_both_keeps schedule common_days common_queries _
          (prewarm_each_keeps (get_hot_cache_keys io s.redis) s h)

  prewarm_rows-down :
      {A : Type 0} (json : JsonCodec (List A)) (key : String) (ttl : ℕ)
      (fresh : Result (List A) × Queries.World db) (r : Redis (Ioredis.Store io))
      → r.service.is_connected ≡ false
      → (prewarm_rows io db env json key ttl fresh r).1.redis ≡ r
  unfolding set_json
  prewarm_rows-down json key ttl (thrown e, w) r h = refl
  prewarm_rows-down json key ttl (ok [], w) r h = refl
  prewarm_rows-down json key ttl (ok (x ∷ xs), w) r h =
      let (_, sent, _, _, _) = operations-down io r key (json.stringify (x ∷ xs)) (pos ttl) 0 0 h in
      ap (λ p. p.1) sent

  -- While Redis is not connected, the scheduled pre-warming runs to its end, in whatever order its two
  -- loops make their calls, and Redis is left as it was.
  prewarm_hot_keys-down :
      (schedule : List Bool) (s : Backend io db env)
      → s.redis.service.is_connected ≡ false
      → (prewarm_hot_keys io db env json_daily json_top schedule s).redis ≡ s.redis
  unfolding prewarm_daily_usage prewarm_top_clients
  prewarm_hot_keys-down schedule s h =
      let Same : Backend io db env → Type 0 = λ s'. s'.redis ≡ s.redis in
      let down : (s' : Backend io db env) → Same s' → s'.redis.service.is_connected ≡ false =
        λ s' e. ap (λ r. r.service.is_connected) e ∙ h in
      prewarm_hot_keys_keeps Same
        (λ days s' e.
          prewarm_rows-down json_daily (daily_key days) env.cache_ttl_usage_daily
            (fresh_daily_usage db days s'.world) s'.redis (down s' e)
          ∙ e)
        (λ query s' e.
          prewarm_rows-down json_top (top_key query.0 query.1) env.cache_ttl_usage_top
            (fresh_top_clients db query.0 query.1 s'.world) s'.redis (down s' e)
          ∙ e)
        schedule s refl
