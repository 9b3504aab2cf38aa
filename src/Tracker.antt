-- ===== src/Tracker.antt =====
-- src/services/cache-hit-tracker.service.ts past trackAccess: the statistics of a key, its threshold, and
-- which keys are to be pre-warmed.
pub mod Hot
pub mod Counts
use Prim.Native.String
use activity_tracker_api.Base.{
  ℕ, ◌+◌, ◌*◌, ◌≡◌, String, Bool, true, false, not, ◌&&◌, ◌||◌, Option, none, some, List, [], ◌∷◌,
  ◌++◌, any, str_eq, if◌then◌else◌, Result, ok, thrown, ◌>>=◌, catch,
}
use activity_tracker_api.Base.Int.{ℤ, pos, pos_part, neg_part, ltb_ℤ}
use activity_tracker_api.Base.Strings.{remove}
use activity_tracker_api.Base.Numbers.{Number, nan, int, whole, add, less, parse_int, to_text}
use activity_tracker_api.Http.{is_truthy}
use activity_tracker_api.Redis.{Ioredis, Redis, get, set, del, keys}
use activity_tracker_api.Usage.{hit_key, miss_key}

-- A percentage that stays a fraction: `(hits / total) * 100` for a positive total, and 0 otherwise.
pub data Rate : Type 0 where
  no_rate : Rate
  percent_of : (part total : Number) → Rate

pub record CacheStats : Type 0 where
  pub hits : Number
  pub misses : Number
  pub hit_rate : Rate

abbrev pub stats_of : Number → Number → CacheStats
stats_of hits misses =
    let total = add hits misses in
    record {
      hits = hits;
      misses = misses;
      hit_rate = if less (whole 0) total then percent_of hits total else no_rate;
    }

-- `hitRate < 50`, with the division by a positive total taken to the other side.
abbrev pub below_half : Rate → Bool
below_half no_rate = true
below_half (percent_of hits total) = less (add hits hits) total

-- `value ? Number.parseInt(value, 10) : otherwise`.
abbrev pub parsed_or : Number → Option String → Number
parsed_or otherwise none = otherwise
parsed_or otherwise (some value) = if is_truthy (some value) then parse_int value else otherwise

abbrev pub total_access : CacheStats → Number
total_access stats = add stats.hits stats.misses

abbrev pub default_threshold : ℕ
default_threshold = 100

module _ (io : Ioredis) where
  open io use {Store}

  abbrev pub threshold_key : String → String
  threshold_key cache_key = String.◌++◌ "cache:threshold:" cache_key

  unfoldable pub get_cache_stats : String → Redis Store → CacheStats
  get_cache_stats cache_key r =
      catch
        (get io (hit_key io cache_key) r >>= λ hits. get io (miss_key io cache_key) r >>= λ misses.
          ok (stats_of (parsed_or (whole 0) hits) (parsed_or (whole 0) misses)))
        (λ e. record { hits = whole 0; misses = whole 0; hit_rate = no_rate })

  unfoldable pub get_threshold : String → Redis Store → Number
  get_threshold cache_key r =
      catch
        (get io (threshold_key cache_key) r >>= λ value.
          ok (parsed_or (whole default_threshold) value))
        (λ e. whole default_threshold)

  unfoldable pub set_threshold : String → Number → Redis Store → Redis Store
  set_threshold cache_key threshold r =
      (set io (threshold_key cache_key) (to_text threshold) (pos 86400) r).1

  unfoldable pub needs_prewarming : String → Redis Store → Bool
  needs_prewarming cache_key r =
      let stats = get_cache_stats cache_key r in
      let threshold = get_threshold cache_key r in
      below_half stats.hit_rate && less threshold (total_access stats)

  -- The cache key that a tracking key counts for.
  abbrev pub cache_key_of : String → String
  cache_key_of key = remove ":miss" (remove "cache:hits:" key)

  abbrev pub contains : List String → String → Bool
  contains keys key = any (λ other. str_eq other key) keys

  -- The loop over the tracking keys.
  unfoldable pub collect_hot : List String → (hot_keys : List String) → Redis Store → List String
  collect_hot [] hot_keys r = hot_keys
  collect_hot (key ∷ rest) hot_keys r =
      let cache_key = cache_key_of key in
      collect_hot rest
        (if contains hot_keys cache_key
          then hot_keys
          else if needs_prewarming cache_key r
          then hot_keys ++ cache_key ∷ []
          else hot_keys)
        r

  unfoldable pub get_hot_cache_keys : Redis Store → List String
  get_hot_cache_keys r =
      catch (keys io "cache:hits:*" r >>= λ tracked. ok (collect_hot tracked [] r)) (λ e. [])

  -- The second deletion is only tried if the first did not throw.
  unfoldable pub reset_stats : String → Redis Store → Redis Store
  reset_stats cache_key r =
      let (outcome, r') = del io (hit_key io cache_key) r in
      elim outcome [ thrown e ↦ r' | ok _ ↦ (del io (miss_key io cache_key) r').1 ]

  pub record DashboardRow : Type 0 where
    pub cache_key : String
    pub stats : CacheStats
    pub needs_prewarm : Bool

  -- `new Set`, which keeps the first occurrences in order.
  abbrev pub unique_keys : List String → (seen : List String) → List String
  unique_keys [] seen = seen
  unique_keys (key ∷ rest) seen =
      unique_keys rest
        (if contains seen (cache_key_of key) then seen else seen ++ cache_key_of key ∷ [])

  -- The comparison is not positive, or is NaN, which counts as 0.
  abbrev pub row_stays : DashboardRow → DashboardRow → Bool
  row_stays a b = not (less (total_access a.stats) (total_access b.stats))

  abbrev pub insert_row : DashboardRow → List DashboardRow → List DashboardRow
  insert_row x [] = x ∷ []
  insert_row x (y ∷ ys) =
      let rest = insert_row x ys in if row_stays x y then x ∷ y ∷ ys else y ∷ rest

  abbrev pub rows_of : List String → Redis Store → List DashboardRow
  rows_of [] r = []
  rows_of (key ∷ rest) r =
      let row : DashboardRow = record {
        cache_key = key;
        stats = get_cache_stats key r;
        needs_prewarm = needs_prewarming key r;
      } in
      insert_row row (rows_of rest r)

  unfoldable pub get_dashboard_stats : Redis Store → List DashboardRow
  get_dashboard_stats r =
      catch (keys io "cache:hits:*" r >>= λ tracked. ok (rows_of (unique_keys tracked []) r))
        (λ e. [])
