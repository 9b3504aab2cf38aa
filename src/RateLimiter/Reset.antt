-- ===== src/RateLimiter/Reset.antt =====
-- The reset time that src/services/rate-limiter.service.ts reports.
use activity_tracker_api.Base.{
  ℕ, ◌+◌, ◌*◌, ◌≤◌, ◌<◌, ◌≡◌, refl, ap, ◌∙◌, String, true, false, List, [], ◌∷◌, arith, length,
  length-filter, filter, head?, ◌⊎◌, inl, inr, ltb→lt, Bool-cases, eq_refl,
}
use activity_tracker_api.RateLimiter.{
  RateLimiterService, is_live, or_default, decide, timestamps_of, check_rate_limit_in_memory,
}
use activity_tracker_api.RateLimiter.Memory.{timestamps_of-insert}
use activity_tracker_api.RateLimiter.Script.{AreTimes}

head-live :
    (w now : ℕ) (xs : List ℕ)
    → AreTimes now xs
    → (filter (is_live w now) xs ≡ [])
      ⊎ ((x : ℕ) × (rest : List ℕ) × (filter (is_live w now) xs ≡ x ∷ rest)
          × (0 < x)
          × (x ≤ now)
          × (now < x + w * 1000))
head-live w now [] a = inl refl
head-live w now (x ∷ xs) a = elim (Bool-cases (is_live w now x)) [
  | inl live ↦ inr (x, filter (is_live w now) xs, rw live, a.0.0, a.0.1, ltb→lt _ _ live)
  | inr gone ↦ rw gone (head-live w now xs a.1)
]

filter-due :
    (w later now : ℕ) (x : ℕ) (rest : List ℕ)
    → x + w * 1000 ≤ later
    → length (filter (is_live w later) (x ∷ rest)) ≤ length rest
filter-due w later now x rest due = ground (arith, length-filter (is_live w later) rest)

decide-allowed :
    (w limit now : ℕ) (live : List ℕ)
    → length live < limit
    → (decide w limit now live).allowed ≡ true
unfolding decide
decide-allowed w limit now live h = ground arith

decide-denied :
    (w limit now : ℕ) (live : List ℕ)
    → (decide w limit now live).allowed ≡ false
    → limit ≤ length live
unfolding decide
decide-denied w limit now live h = ground arith

decide-reset :
    (w limit now : ℕ) (live : List ℕ)
    → limit ≤ length live
    → (decide w limit now live).reset_at ≡ or_default (head? live) now + w * 1000
unfolding decide
decide-reset w limit now live h = ground arith

-- What a refused request leaves, seen at its reset time or later, is below the limit.
decide_after_reset :
    (w limit now later : ℕ) (xs : List ℕ)
    → 0 < limit
    → AreTimes now xs
    → length (filter (is_live w now) xs) ≤ limit
    → (decide w limit now (filter (is_live w now) xs)).allowed ≡ false
    → (decide w limit now (filter (is_live w now) xs)).reset_at ≤ later
    → (decide w limit later (filter (is_live w later) (filter (is_live w now) xs))).allowed ≡ true
decide_after_reset w limit now later xs p a few denied due =
    let full = decide-denied w limit now (filter (is_live w now) xs) denied in
    elim (head-live w now xs a) [
      | inl nil ↦ absurd (omega (arith, full, ap length nil))
      | inr (x, rest, e, lo, hi, live) ↦
          let oldest : or_default (head? (filter (is_live w now) xs)) now ≡ x =
            rw e (ground arith) in
          let reset = decide-reset w limit now (filter (is_live w now) xs) full in
          let fewer : length (filter (is_live w later) (filter (is_live w now) xs)) ≤ length rest =
            rw e (filter-due w later now x rest (omega (arith, reset, oldest, due))) in
          decide-allowed w limit later (filter (is_live w later) (filter (is_live w now) xs))
            (omega (arith, fewer, few, ap length e))
    ]

-- A client that is refused, and whose next request comes at the reset time or later, is then
-- allowed, if no more than the limit were stored for it in the window.
pub allowed_after_reset :
    (now later : ℕ) (c : String) (s : RateLimiterService)
    → 0 < s.max_requests
    → AreTimes now (timestamps_of c s.in_memory_store)
    → length (filter (is_live s.window_size now) (timestamps_of c s.in_memory_store))
      ≤ s.max_requests
    → (check_rate_limit_in_memory now c s).0.allowed ≡ false
    → (check_rate_limit_in_memory now c s).0.reset_at ≤ later
    → (check_rate_limit_in_memory later c (check_rate_limit_in_memory now c s).1).0.allowed ≡ true
unfolding check_rate_limit_in_memory
allowed_after_reset now later c s p a few denied due =
    let left : timestamps_of c (check_rate_limit_in_memory now c s).1.in_memory_store
        ≡ filter (is_live s.window_size now) (timestamps_of c s.in_memory_store) =
      timestamps_of-insert c c _ s.in_memory_store ∙ rw (eq_refl c, denied) refl in
    ap
      (λ l.
        (decide s.window_size s.max_requests later
          (filter (is_live s.window_size later) l)).allowed)
      left
    ∙ decide_after_reset s.window_size s.max_requests now later (timestamps_of c s.in_memory_store)
        p a few denied due
