-- ===== src/RateLimiter/Memory.antt =====
-- The in-memory limiter of src/services/rate-limiter.service.ts implements the sliding window over
-- the whole history, for every client, although it forgets what has left the window.
use mathlib.Core.Path.{ap₂}
use activity_tracker_api.Base.{
  empty_of_length, ℕ, ◌≤◌, ◌≡◌, refl, sym, ap, subst, ◌∙◌, String, none, List, [], ◌∷◌, ◌++◌, arith,
  str_eq, if◌then◌else◌, filter, append-nil, append_assoc, ◌&&◌, eq_iff, inl, inr, Bool-cases,
}
use activity_tracker_api.Base.Maps.{lookup, insert, IsMap, lookup-insert, insert-IsMap}
use activity_tracker_api.RateLimiter.{
  Decision, RateLimiterService, new_service, is_live, cleanup_entries, cleanup_in_memory_store,
  timestamps_of, decide, check_rate_limit_in_memory,
}
use activity_tracker_api.RateLimiter.Window.{
  spec_check, decide-eq-spec_check, record_allowed, IsLimited, record_allowed-IsLimited,
  filter-later, live_again, filter-if,
}

-- A call of the limiter: a request of a client, or the timer's cleanup.
pub data Event : Type 0 where
  request : (client_id : String) (now : ℕ) → Event
  cleanup : (now : ℕ) → Event

abbrev pub time : Event → ℕ
time (request client_id now) = now
time (cleanup now) = now

-- The clock does not go back.
abbrev pub IsOrdered : ℕ → List Event → Type 0
IsOrdered t [] = Unit
IsOrdered t (e ∷ es) = (t ≤ time e) × IsOrdered (time e) es

-- The decisions of the service on a sequence of events, and of the specification, which keeps a
-- history for each client.
unfoldable pub run : RateLimiterService → List Event → List Decision
run s [] = []
run s (request c now ∷ es) = let r = check_rate_limit_in_memory now c s in r.0 ∷ run r.1 es
run s (cleanup now ∷ es) = run (cleanup_in_memory_store now s) es

abbrev History : Type 0
History = String → List ℕ

abbrev pub remember : ℕ → ℕ → String → ℕ → History → History
remember w limit c now hist j = if str_eq c j then record_allowed w limit now (hist c) else hist j

pub spec_run : ℕ → ℕ → History → List Event → List Decision
spec_run w limit hist [] = []
spec_run w limit hist (request c now ∷ es) =
    spec_check w limit now (hist c) ∷ spec_run w limit (remember w limit c now hist) es
spec_run w limit hist (cleanup now ∷ es) = spec_run w limit hist es

-- Filters of a window.
module _ (w : ℕ) where
  timestamps_of-cleanup :
      (now : ℕ) (c : String) (m : List (String × List ℕ))
      → IsMap m
      → timestamps_of c (cleanup_entries w now m) ≡ filter (is_live w now) (timestamps_of c m)
  timestamps_of-cleanup now c [] h = refl
  timestamps_of-cleanup now c ((k, ts) ∷ m) h = ground (
    arith,
    eq_iff k c,
    timestamps_of-cleanup now c m h.1,
    empty_of_length (filter (is_live w now) ts),
  )

  lookup-cleanup :
      (now : ℕ) (c : String) (m : List (String × List ℕ))
      → lookup c m ≡ none
      → lookup c (cleanup_entries w now m) ≡ none
  lookup-cleanup now c [] h = refl
  lookup-cleanup now c ((k, ts) ∷ m) h = ground (arith, lookup-cleanup now c m)

  cleanup-IsMap : (now : ℕ) (m : List (String × List ℕ)) → IsMap m → IsMap (cleanup_entries w now m)
  cleanup-IsMap now [] h = tt
  cleanup-IsMap now ((k, ts) ∷ m) h =
      ground (arith, lookup-cleanup now k m h.0, cleanup-IsMap now m h.1)

-- The store and the history agree on what is in the window at time `t`.
pub record Agrees (w t : ℕ) (m : List (String × List ℕ)) (hist : History) : Type 0 where
  pub is_map : IsMap m
  pub same : (c : String) → filter (is_live w t) (timestamps_of c m) ≡ filter (is_live w t) (hist c)

cleanup-Agrees :
    (w t now : ℕ) (m : List (String × List ℕ)) (hist : History)
    → t ≤ now
    → Agrees w t m hist
    → Agrees w now (cleanup_entries w now m) hist
cleanup-Agrees w t now m hist h a = record {
  is_map = cleanup-IsMap w now m a.is_map;
  same = λ c.
      ap (filter (is_live w now)) (timestamps_of-cleanup w now c m a.is_map)
      ∙ filter-later w now now (timestamps_of c m) (omega arith)
      ∙ live_again w t now (timestamps_of c m) (hist c) h (a.same c);
}

pub timestamps_of-insert :
    (c j : String) (ts : List ℕ) (m : List (String × List ℕ))
    → timestamps_of j (insert c ts m) ≡ (if str_eq c j then ts else timestamps_of j m)
timestamps_of-insert c j ts m = ground (arith, lookup-insert c j ts m)

module _ (t now : ℕ) (c : String) (s : RateLimiterService) (hist : History) (h : t ≤ now)
    (a : Agrees s.window_size t s.in_memory_store hist) where
  live-eq :
      filter (is_live s.window_size now) (timestamps_of c s.in_memory_store)
      ≡ filter (is_live s.window_size now) (hist c)
  live-eq = live_again s.window_size t now _ _ h (a.same c)

  check-decision :
      (check_rate_limit_in_memory now c s).0 ≡ spec_check s.window_size s.max_requests now (hist c)
  unfolding check_rate_limit_in_memory
  check-decision =
      ap (decide s.window_size s.max_requests now) live-eq
      ∙ decide-eq-spec_check s.window_size s.max_requests now (hist c)

  new-eq :
      (let live = filter (is_live s.window_size now) (timestamps_of c s.in_memory_store) in
        filter (is_live s.window_size now) (
          if (decide s.window_size s.max_requests now live).allowed
          then live ++ now ∷ []
          else live))
      ≡ filter
          (is_live s.window_size now)
          (record_allowed s.window_size s.max_requests now (hist c))
  new-eq =
      let p = is_live s.window_size now in
      let live = filter p (timestamps_of c s.in_memory_store) in
      filter-if p (decide s.window_size s.max_requests now live).allowed now live (hist c) (
        filter-later s.window_size now now (timestamps_of c s.in_memory_store) (omega arith)
        ∙ live-eq)
      ∙ ap
          (λ l. filter p (
            if (decide s.window_size s.max_requests now l).allowed
            then hist c ++ now ∷ []
            else hist c))
          live-eq
      ∙ ap (λ d. filter p (if d.allowed then hist c ++ now ∷ [] else hist c))
          (decide-eq-spec_check s.window_size s.max_requests now (hist c))

  other-eq :
      (j : String)
      → filter (is_live s.window_size now) (timestamps_of j s.in_memory_store)
        ≡ filter (is_live s.window_size now) (hist j)
  other-eq j = live_again s.window_size t now _ _ h (a.same j)

  check-Agrees :
      Agrees s.window_size now
        (check_rate_limit_in_memory now c s).1.in_memory_store
        (remember s.window_size s.max_requests c now hist)
  unfolding check_rate_limit_in_memory
  check-Agrees = record {
    is_map = insert-IsMap c _ s.in_memory_store a.is_map;
    same = λ j.
        ap (filter (is_live s.window_size now)) (timestamps_of-insert c j _ s.in_memory_store)
        ∙ elim (Bool-cases (str_eq c j)) [ inl e ↦ rw e new-eq | inr e ↦ rw e (other-eq j) ];
  }

run-Agrees :
    (t : ℕ) (s : RateLimiterService) (hist : History) (es : List Event)
    → Agrees s.window_size t s.in_memory_store hist
    → IsOrdered t es
    → run s es ≡ spec_run s.window_size s.max_requests hist es
unfolding run spec_run check_rate_limit_in_memory cleanup_in_memory_store
run-Agrees t s hist [] a o = refl
run-Agrees t s hist (request c now ∷ es) a o = ap₂ ◌∷◌ (check-decision t now c s hist o.0 a) (
    run-Agrees now (check_rate_limit_in_memory now c s).1 _ es (check-Agrees t now c s hist o.0 a)
      o.1)
run-Agrees t s hist (cleanup now ∷ es) a o =
    run-Agrees now (cleanup_in_memory_store now s) hist es
      (cleanup-Agrees s.window_size t now s.in_memory_store hist o.0 a) o.1

-- From an empty store on, with a clock that does not go back, the decisions of the in-memory
-- limiter, with cleanups in between, are those of a sliding window over each client's whole
-- history: the answer, what remains, the reset time and the count.
pub run-eq-spec_run :
    (window limit : ℕ) (es : List Event)
    → IsOrdered 0 es
    → run (new_service limit window) es ≡ spec_run window limit (λ _. []) es
unfolding new_service
run-eq-spec_run window limit es o =
    run-Agrees 0 (new_service limit window) (λ _. []) es (record { is_map = tt; same = λ c. refl })
      o

-- The times at which a client's requests were allowed.
unfoldable pub allowed_times : String → List Event → List Decision → List ℕ
allowed_times c (request k now ∷ es) (d ∷ ds) =
    (if d.allowed && str_eq k c then now ∷ [] else []) ++ allowed_times c es ds
allowed_times c (request k now ∷ es) [] = []
allowed_times c (cleanup now ∷ es) ds = allowed_times c es ds
allowed_times c [] ds = []

remember-append :
    (w limit now : ℕ) (k c : String) (hist : History)
    → remember w limit k now hist c
      ≡ hist c ++ (if (spec_check w limit now (hist k)).allowed && str_eq k c then now ∷ [] else [])
remember-append w limit now k c hist = elim (Bool-cases (str_eq k c)) [
  | inl same ↦ rw same (ground (arith, append-nil (hist c), ap hist ((eq_iff k c).0 same)))
  | inr other ↦ rw other (ground (arith, append-nil (hist c)))
]

remember-IsLimited :
    (w limit now : ℕ) (k c : String) (hist : History)
    → IsLimited w limit (hist c)
    → IsLimited w limit (remember w limit k now hist c)
remember-IsLimited w limit now k c hist h = elim (Bool-cases (str_eq k c)) [
  | inl same ↦
      let e : hist c ≡ hist k = sym (ap hist ((eq_iff k c).0 same)) in
      rw same (record_allowed-IsLimited w limit now (hist k) (subst (IsLimited w limit) e h))
  | inr other ↦ rw other h
]

spec_run-IsLimited :
    (w limit : ℕ) (c : String) (hist : History) (es : List Event)
    → IsLimited w limit (hist c)
    → IsLimited w limit (hist c ++ allowed_times c es (spec_run w limit hist es))
unfolding spec_run allowed_times
spec_run-IsLimited w limit c hist [] h = rw append-nil h
spec_run-IsLimited w limit c hist (cleanup now ∷ es) h = spec_run-IsLimited w limit c hist es h
spec_run-IsLimited w limit c hist (request k now ∷ es) h =
    let hist' = remember w limit k now hist in
    let added : List ℕ =
      if (spec_check w limit now (hist k)).allowed && str_eq k c then now ∷ [] else [] in
    let rest = allowed_times c es (spec_run w limit hist' es) in
    let e : hist' c ++ rest ≡ hist c ++ (added ++ rest) =
      ap (λ l. l ++ rest) (remember-append w limit now k c hist)
      ∙ append_assoc (hist c) added rest in
    subst (IsLimited w limit) e
      (spec_run-IsLimited w limit c hist' es (remember-IsLimited w limit now k c hist h))

-- In no window of the configured length, wherever it ends, are more than `maxRequests` requests of
-- one client allowed by the in-memory limiter.
pub run-IsLimited :
    (window limit : ℕ) (c : String) (es : List Event)
    → IsOrdered 0 es
    → IsLimited window limit (allowed_times c es (run (new_service limit window) es))
run-IsLimited window limit c es o =
    rw (run-eq-spec_run window limit es o)
      (spec_run-IsLimited window limit c (λ _. []) es (λ t. omega arith))
