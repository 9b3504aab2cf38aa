-- ===== src/RateLimiter/Redis.antt =====
-- The Redis half of src/services/rate-limiter.service.ts: the Lua script, the operations that call
-- Redis, and the fall-back to memory. The sorted sets of Redis are a parameter, `SortedSets`.
use Prim.Native.String
use activity_tracker_api.Base.{
  ℕ, ◌+◌, ◌-◌, ◌*◌, ◌==◌, ◌≡◌, ◌≢◌, String, Bool, true, false, not, ◌&&◌, Option, none, some, List,
  [], ◌∷◌, leb, if◌then◌else◌, length, filter, head?,
}
use activity_tracker_api.Base.Int.{ℤ, pos, sub_ℕ, leb_ℤ}
use activity_tracker_api.Base.Maps.{erase}
use activity_tracker_api.Base.Numbers.{whole, to_text}
use activity_tracker_api.RateLimiter.{
  Decision, RateLimiterService, or_default, check_rate_limit_in_memory,
}

-- Where a score goes in a set that is kept in ascending order.
abbrev pub insert_score : ℕ → List ℕ → List ℕ
insert_score x [] = x ∷ []
insert_score x (y ∷ ys) = if leb y x then y ∷ insert_score x ys else x ∷ y ∷ ys

-- Redis, as the limiter uses it: commands on the primary, what a replica holds, and whether a
-- command gets through. `scores` is what a set holds, in ascending order. A new member is added at
-- its score; `IsFresh` says that the set has no such member yet.
pub record SortedSets : Type 1 where
  pub Store : Type 0
  pub reachable : Store → Bool
  pub scores : String → Store → List ℕ
  pub replica : Store → Store
  pub zremrangebyscore : String → ℤ → ℤ → Store → Store
  pub zcard : String → Store → ℕ
  pub zrange_first : String → Store → Option ℕ
  pub zadd : String → ℕ → String → Store → Store
  pub expire : String → ℕ → Store → Store
  pub del : String → Store → Store
  pub IsFresh : String → String → Store → Type 0
  pub zremrangebyscore_scores :
      (k : String) (lo hi : ℤ) (s : Store)
      → scores k (zremrangebyscore k lo hi s)
        ≡ filter (λ x. not (leb_ℤ lo (pos x) && leb_ℤ (pos x) hi)) (scores k s)
  pub zcard_scores : (k : String) (s : Store) → zcard k s ≡ length (scores k s)
  pub zrange_first_scores : (k : String) (s : Store) → zrange_first k s ≡ head? (scores k s)
  pub zadd_scores :
      (k : String) (x : ℕ) (m : String) (s : Store)
      → IsFresh k m s
      → scores k (zadd k x m s) ≡ insert_score x (scores k s)
  pub expire_scores :
      (k : String) (seconds : ℕ) (s : Store) → scores k (expire k seconds s) ≡ scores k s
  pub zremrangebyscore_other :
      (k j : String) (lo hi : ℤ) (s : Store)
      → k ≢ j
      → scores j (zremrangebyscore k lo hi s) ≡ scores j s
  pub zadd_other :
      (k j : String) (x : ℕ) (m : String) (s : Store) → k ≢ j → scores j (zadd k x m s) ≡ scores j s
  pub expire_other :
      (k j : String) (seconds : ℕ) (s : Store) → k ≢ j → scores j (expire k seconds s) ≡ scores j s

-- Backquoted texts.
abbrev pub key_of : String → String
key_of client_id = String.◌++◌ "rate_limit:" client_id

abbrev pub endpoint_key : String → String → String
endpoint_key client_id endpoint = String.◌++◌ (key_of client_id) (String.◌++◌ ":" endpoint)

-- `now .. '-' .. math.random()`.
abbrev pub member_of : (now : ℕ) (random : String) → String
member_of now random = String.◌++◌ (to_text (whole now)) (String.◌++◌ "-" random)

module _ (r : SortedSets) where
  open r use {Store, reachable, replica, zremrangebyscore, zcard, zrange_first, zadd, expire, del}

  -- `luaScript`: whether the request is allowed, the count, and the reset time. `random` is the text
  -- of `math.random()`.
  unfoldable pub lua_script :
      (key : String) (now window limit : ℕ) (random : String) → Store → (ℕ × ℕ × ℕ) × Store
  lua_script key now window limit random s =
      let window_start = sub_ℕ now (window * 1000) in
      let s₁ = zremrangebyscore key (pos 0) window_start s in
      let current = zcard key s₁ in
      let reset_time : ℕ = elim (zrange_first key s₁) [
        | none ↦ now
        | some oldest ↦ oldest + window * 1000
      ] in
      if leb limit current then ((0, current, reset_time), s₁) else (
        (1, current + 1, now + window * 1000),
        expire key (window + 60) (zadd key now (member_of now random) s₁),
      )

  -- What `checkRateLimit` makes of the script's answer.
  unfoldable pub read_answer : ℕ → ℕ × ℕ × ℕ → Decision
  read_answer limit (allowed, current, reset_time) =
      if allowed == 0
      then record { allowed = false; remaining = 0; reset_at = reset_time; current = current }
      else record {
        allowed = true;
        remaining = limit - current;
        reset_at = reset_time;
        current = current;
      }

  -- The common body of `checkRateLimit` and `checkRateLimitForEndpoint`.
  unfoldable pub check_with_key :
      (key client_id : String) (max_requests : Option ℕ) (now : ℕ) (random : String)
      → RateLimiterService × Store
      → Decision × RateLimiterService × Store
  unfolding lua_script read_answer
  check_with_key key client_id max_requests now random (service, s) =
      let limit = or_default max_requests service.max_requests in
      let answer = lua_script key now service.window_size limit random s in
      let fallback = check_rate_limit_in_memory now client_id service in
      if reachable s
      then (read_answer limit answer.0, service, answer.1)
      else (fallback.0, fallback.1, s)

  unfoldable pub check_rate_limit :
      (client_id : String) (max_requests : Option ℕ) (now : ℕ) (random : String)
      → RateLimiterService × Store
      → Decision × RateLimiterService × Store
  unfolding check_with_key
  check_rate_limit client_id = check_with_key (key_of client_id) client_id

  unfoldable pub check_rate_limit_for_endpoint :
      (client_id endpoint : String) (max_requests : Option ℕ) (now : ℕ) (random : String)
      → RateLimiterService × Store
      → Decision × RateLimiterService × Store
  unfolding check_with_key
  check_rate_limit_for_endpoint client_id endpoint =
      check_with_key (endpoint_key client_id endpoint) client_id

  -- The count and the reset time; the old entries are removed on the primary, and the others are
  -- counted on the replica.
  unfoldable pub get_current_usage :
      (client_id : String) (now : ℕ) → RateLimiterService × Store → (ℕ × ℕ) × Store
  get_current_usage client_id now (service, s) =
      let key = key_of client_id in
      let s₁ = zremrangebyscore key (pos 0) (sub_ℕ now (service.window_size * 1000)) s in
      let oldest : ℕ = elim (zrange_first key (replica s₁)) [ none ↦ now | some x ↦ x ] in
      if reachable s
      then ((zcard key (replica s₁), oldest + service.window_size * 1000), s₁)
      else ((0, now + service.window_size * 1000), s)

  unfoldable pub reset_rate_limit : String → RateLimiterService × Store → RateLimiterService × Store
  reset_rate_limit client_id (service, s) =
      let cleared : RateLimiterService = record service {
        in_memory_store = erase client_id service.in_memory_store;
      } in
      if reachable s then (cleared, del (key_of client_id) s) else (cleared, s)

  pub record Statistics : Type 0 where
    pub current : ℕ
    pub limit : ℕ
    pub remaining : ℕ
    pub reset_at : ℕ

  -- `getStatistics`, without the percentage, which is a floating-point number.
  unfoldable pub get_statistics :
      (client_id : String) (now : ℕ) → RateLimiterService × Store → Statistics
  unfolding get_current_usage
  get_statistics client_id now (service, s) =
      let usage = (get_current_usage client_id now (service, s)).0 in
      record {
        current = usage.0;
        limit = service.max_requests;
        remaining = service.max_requests - usage.0;
        reset_at = usage.1;
      }

-- `getConfig`: the maximum and the window.
unfoldable pub get_config : RateLimiterService → ℕ × ℕ
get_config s = (s.max_requests, s.window_size)

unfoldable pub stop : RateLimiterService → RateLimiterService
stop s = if s.cleanup_interval then record s { cleanup_interval = false } else s
