-- ===== src/Prewarm/Dispatch.antt =====
-- The keys that src/api/client/clientService.ts counts are the keys that
-- src/services/cache-prewarm.service.ts understands.
use Prim.Native.String
use Prim.Native.String.append
use text.Mathlib.TextLemmas.{append_assoc}
use activity_tracker_api.Base.{
  ◌≡◌, ◌∙◌, refl, ap, String, Bool, true, false, none, some, List, [], ◌∷◌, if◌then◌else◌,
}
use activity_tracker_api.Base.Strings.{
  strip, begins_with, remove, split, Lacks, lacks-Lacks, append-Lacks, strip-append, strip-common,
  remove-append, remove-absent, remove-suffix, split-joined, split-whole,
}
use activity_tracker_api.Base.Numbers.{Number, is_nan, parse_int, to_text}
use activity_tracker_api.Base.Numbers.RoundTrip.{parse_int-to_text, Lacks-to_text}
use activity_tracker_api.Redis.{Ioredis, JsonCodec}
use activity_tracker_api.Reports.{DailyUsageResult, TopClientResult, Queries}
use activity_tracker_api.Usage.{
  Env, Backend, hit_key, miss_key, daily_key, top_key, prewarm_daily_usage, prewarm_top_clients,
}
use activity_tracker_api.Tracker.{cache_key_of}
use activity_tracker_api.Prewarm.{prewarm_daily, prewarm_top, prewarm_parts, prewarm_by_cache_key}

Lacks-number : (x : Number) → Lacks b'm' (to_text x)
Lacks-number x = Lacks-to_text b'm' x refl refl

Lacks-daily_key : (days : Number) → Lacks b'm' (daily_key days)
unfolding daily_key
Lacks-daily_key days =
    append-Lacks b'm' "usage:daily:" (to_text days) (lacks-Lacks b'm' "usage:daily:" refl)
      (Lacks-number days)

Lacks-top_key : (hours limit : Number) → Lacks b'm' (top_key hours limit)
unfolding top_key
Lacks-top_key hours limit = append-Lacks b'm' "usage:top:" _ (lacks-Lacks b'm' "usage:top:" refl) (
    append-Lacks b'm' (to_text hours) _ (Lacks-number hours)
      (append-Lacks b'm' ":" (to_text limit) (lacks-Lacks b'm' ":" refl) (Lacks-number limit)))

module _ (io : Ioredis) where
  -- The key that is counted, on a hit and on a miss.
  abbrev pub tracking_key : (is_hit : Bool) → String → String
  tracking_key is_hit key = if is_hit then hit_key io key else miss_key io key

  cache_key_of-tracking_key :
      (is_hit : Bool) (key : String)
      → Lacks b'm' key
      → cache_key_of io (tracking_key is_hit key) ≡ key
  cache_key_of-tracking_key true key h =
      ap (remove ":miss") (remove-append "cache:hits:" key) ∙ remove-absent b'm' ":miss" key tt h
  cache_key_of-tracking_key false key h =
      ap (λ s. remove ":miss" (remove "cache:hits:" s)) (append_assoc "cache:hits:" key ":miss")
      ∙ ap (remove ":miss") (remove-append "cache:hits:" (String.◌++◌ key ":miss"))
      ∙ remove-suffix b'm' ":" "m" "iss" key refl refl h

begins_with-stripped : (p s t : String) → strip p s ≡ some t → begins_with p s ≡ true
begins_with-stripped p s t h = rw (h, begins_with) refl

strip-top_key :
    (hours limit : Number)
    → strip "usage:top:" (top_key hours limit)
      ≡ some (String.◌++◌ (to_text hours) (String.◌++◌ ":" (to_text limit)))
unfolding top_key
strip-top_key hours limit = strip-append "usage:top:" _

split-top_key :
    (hours limit : Number)
    → split b':' (remove "usage:top:" (top_key hours limit)) ≡ to_text hours ∷ to_text limit ∷ []
unfolding top_key
split-top_key hours limit =
    ap (split b':') (remove-append "usage:top:" _)
    ∙ split-joined b':' ":" (to_text hours) (to_text limit) refl
        (Lacks-to_text b':' hours refl refl)
    ∙ ap (λ l. to_text hours ∷ l)
        (split-whole b':' (to_text limit) (Lacks-to_text b':' limit refl refl))

top_key_is_not_daily :
    (hours limit : Number) → begins_with "usage:daily:" (top_key hours limit) ≡ false
unfolding top_key
top_key_is_not_daily hours limit =
    let rest : String = String.◌++◌ (to_text hours) (String.◌++◌ ":" (to_text limit)) in
    let fails : strip "daily:" (String.◌++◌ "top:" rest) ≡ none =
      ap (strip "daily:") (append.cons "t" "op:" rest) in
    let h : strip "usage:daily:" (String.◌++◌ "usage:top:" rest) ≡ none =
      ap (strip "usage:daily:") (append_assoc "usage:" "top:" rest)
      ∙ strip-common "usage:" "daily:" (String.◌++◌ "top:" rest)
      ∙ fails in
    rw (h, begins_with) refl

module _ (io : Ioredis) (db : Queries) (env : Env) (json_daily : JsonCodec (List DailyUsageResult))
    (json_top : JsonCodec (List TopClientResult)) where
  prewarm_daily_key :
      (days : Number) (s : Backend io db env)
      → is_nan days ≡ false
      → prewarm_by_cache_key io db env json_daily json_top (daily_key days) s
        ≡ prewarm_daily io db env json_daily json_top days s
  unfolding prewarm_by_cache_key daily_key
  prewarm_daily_key days s known =
      let begins =
        begins_with-stripped "usage:daily:" (daily_key days) (to_text days)
          (strip-append "usage:daily:" (to_text days)) in
      let read : parse_int (remove "usage:daily:" (daily_key days)) ≡ days =
        ap parse_int (remove-append "usage:daily:" (to_text days)) ∙ parse_int-to_text days in
      rw (begins, prewarm_by_cache_key, read, known) refl

  prewarm_top_key :
      (hours limit : Number) (s : Backend io db env)
      → is_nan hours ≡ false
      → is_nan limit ≡ false
      → prewarm_by_cache_key io db env json_daily json_top (top_key hours limit) s
        ≡ prewarm_top io db env json_daily json_top (hours, limit) s
  unfolding prewarm_by_cache_key
  prewarm_top_key hours limit s h l =
      let begins : begins_with "usage:top:" (top_key hours limit) ≡ true =
        begins_with-stripped "usage:top:" (top_key hours limit) _ (strip-top_key hours limit) in
      rw
        (
          top_key_is_not_daily hours limit,
          begins,
          prewarm_by_cache_key,
          split-top_key hours limit,
          prewarm_parts,
          parse_int-to_text hours,
          parse_int-to_text limit,
          h,
          l,
        )
        refl

  -- The key of a usage query, as it is counted on a hit or on a miss, leads the scheduled pre-warming to
  -- that query, for every number of days, hours and limit but NaN.
  pub prewarm_by_cache_key-tracking_key :
      (is_hit : Bool) (days hours limit : Number) (s : Backend io db env)
      → is_nan days ≡ false
      → is_nan hours ≡ false
      → is_nan limit ≡ false
      → let prewarm : String → Backend io db env = λ key.
        prewarm_by_cache_key io db env json_daily json_top
          (cache_key_of io (tracking_key io is_hit key))
          s in
        (prewarm (daily_key days) ≡ (prewarm_daily_usage io db env json_daily days s).1)
        × (prewarm (top_key hours limit) ≡ (prewarm_top_clients io db env json_top hours limit s).1)
  prewarm_by_cache_key-tracking_key is_hit days hours limit s d h l =
      let by_key : String → Backend io db env =
        λ key. prewarm_by_cache_key io db env json_daily json_top key s in
      (
        ap by_key (cache_key_of-tracking_key io is_hit (daily_key days) (Lacks-daily_key days))
            ∙ prewarm_daily_key days s d,
        ap by_key (
              cache_key_of-tracking_key io is_hit (top_key hours limit) (Lacks-top_key hours limit))
            ∙ prewarm_top_key hours limit s h l,
      )
