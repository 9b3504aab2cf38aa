-- ===== src/Tracker/Counts.antt =====
-- What src/services/cache-hit-tracker.service.ts makes of the counts and the threshold in Redis.
use activity_tracker_api.Base.{
  ℕ, ◌+◌, ◌≡◌, ◌∙◌, ap, String, Bool, ◌&&◌, some, ltb, if◌then◌else◌, arith, ok, Bool-cases, inl,
  inr,
}
use activity_tracker_api.Base.Int.{pos}
use activity_tracker_api.Base.Numbers.{Number, int, whole, add, less, to_text}
use activity_tracker_api.Base.Numbers.RoundTrip.{parse_int-to_text}
use activity_tracker_api.Http.Truthy.{to_text-is_truthy}
use activity_tracker_api.Redis.{Ioredis, Redis, get, set}
use activity_tracker_api.Usage.{hit_key, miss_key}
use activity_tracker_api.Usage.Cache.{caught_up, get-set}
use activity_tracker_api.Tracker.{
  below_half, parsed_or, get_cache_stats, get_threshold, set_threshold, needs_prewarming,
  threshold_key, default_threshold, percent_of, no_rate,
}

parsed_or-to_text : (otherwise x : Number) → parsed_or otherwise (some (to_text x)) ≡ x
parsed_or-to_text otherwise x = rw (to_text-is_truthy x) (parse_int-to_text x)

add-whole : (a b : ℕ) → add (whole a) (whole b) ≡ whole (a + b)
add-whole a b = ap int (ground arith)

less-whole : (a b : ℕ) → less (whole a) (whole b) ≡ ltb a b
less-whole a b = ground arith

-- The two tests that a key must pass.
abbrev passes : (hits threshold total : Number) → Bool
passes hits threshold total =
    below_half (if less (whole 0) total then percent_of hits total else no_rate)
    && less threshold total

passes-whole : (h m t : ℕ) → passes (whole h) (whole t) (whole (h + m)) ≡ (ltb h m && ltb t (h + m))
passes-whole h m t = elim (Bool-cases (less (whole 0) (whole (h + m)))) [
  | inl some_access ↦
      rw (some_access, passes)
        (ap (λ x. less x (whole (h + m)) && less (whole t) (whole (h + m))) (add-whole h h)
          ∙ ground arith)
  | inr no_access ↦ rw (no_access, passes) (ground (arith, no_access))
]

passes-counts :
    (h m t : ℕ) → passes (whole h) (whole t) (add (whole h) (whole m)) ≡ (ltb h m && ltb t (h + m))
passes-counts h m t = ap (passes (whole h) (whole t)) (add-whole h m) ∙ passes-whole h m t

module _ (io : Ioredis) where
  open io use {Store}

  -- Hits and misses that are counted, and a threshold that is set: a key needs pre-warming exactly
  -- when it has fewer hits than misses and more accesses than the threshold.
  pub needs_prewarming-counts :
      (key : String) (hits misses threshold : ℕ) (r : Redis Store)
      → get io (hit_key io key) r ≡ ok (some (to_text (whole hits)))
      → get io (miss_key io key) r ≡ ok (some (to_text (whole misses)))
      → get io (threshold_key io key) r ≡ ok (some (to_text (whole threshold)))
      → needs_prewarming io key r ≡ (ltb hits misses && ltb threshold (hits + misses))
  unfolding needs_prewarming get_cache_stats get_threshold
  needs_prewarming-counts key hits misses threshold r h m t =
      rw
        (
          h,
          needs_prewarming,
          m,
          t,
          parsed_or-to_text (whole 0) (whole hits),
          parsed_or-to_text (whole 0) (whole misses),
          parsed_or-to_text (whole default_threshold) (whole threshold),
        )
        (passes-counts hits misses threshold)

  -- A threshold that was set, whatever number it is, is the one that is read once the replica has
  -- caught up. The write is not refused.
  get_threshold-set_threshold :
      (key : String) (threshold : Number) (r : Redis Store)
      → (set io (threshold_key io key) (to_text threshold) (pos 86400) r).0 ≡ ok tt
      → get_threshold io key (caught_up io (set_threshold io key threshold r)) ≡ threshold
  unfolding get_threshold set_threshold
  get_threshold-set_threshold key threshold r done =
      let stored =
        get-set io (threshold_key io key) (to_text threshold) 86400 r (omega arith) done in
      rw (stored, get_threshold) (parsed_or-to_text (whole 100) threshold)
