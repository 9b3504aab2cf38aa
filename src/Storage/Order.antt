-- ===== src/Storage/Order.antt =====
-- Which entries src/services/in-memory-storage.service.ts keeps, and in which order.
use activity_tracker_api.Base.{
  ℕ, zero, suc, ◌+◌, ◌-◌, ◌<◌, ◌≤◌, ◌≡◌, refl, sym, ap, ◌∙◌, Bool, true, List, [], ◌∷◌, ◌++◌, map,
  append_assoc, arith, ltb, length, last_of, last_of-append, length-append, drop-cong,
  last_of-short, filter, All, ltb→ge, ltb→lt, drop, lt→ltb, append-nil, Bool-cases, inl, inr,
}
use activity_tracker_api.Logs.{ApiLogData}
use activity_tracker_api.Storage.{
  InMemoryLogStorage, stamp, evict, add, add_all, flush, is_fresh, cleanup_old_logs,
}
use activity_tracker_api.Storage.Bounds.{IsBounded, add-IsBounded}

evict-last_of :
    (n : ℕ) (xs : List ApiLogData) (x : ApiLogData)
    → length xs ≤ n
    → evict n (xs ++ x ∷ []) ≡ last_of n (xs ++ x ∷ [])
evict-last_of n xs x h = elim (Bool-cases (ltb n (length (xs ++ x ∷ [])))) [
  | inl over ↦ rw over (
      drop-cong {i = 1} {j = length (xs ++ x ∷ []) - n} (xs ++ x ∷ [])
        (omega (arith, ltb→lt _ _ over, length-append xs (x ∷ []))))
  | inr within ↦ rw within (sym (last_of-short n (xs ++ x ∷ []) (ltb→ge _ _ within)))
]

-- Adding entries to a storage within its bound keeps the newest `maxSize` of the old and the new
-- entries together, in the order of their arrival, the new ones stamped with the time.
pub add_all-eq-last_of :
    (now : ℕ) (logs : List ApiLogData) (s : InMemoryLogStorage)
    → IsBounded s
    → (add_all now logs s).logs ≡ last_of s.max_size (s.logs ++ map (stamp now) logs)
unfolding add_all
add_all-eq-last_of now [] s h =
    sym (last_of-short s.max_size s.logs h) ∙ ap (last_of s.max_size) (sym (append-nil s.logs))
add_all-eq-last_of now (log ∷ logs) s h =
    let y = stamp now log ∷ [] in
    add_all-eq-last_of now logs (add now log s) (add-IsBounded now log s h)
    ∙ ap (λ l. last_of s.max_size (l ++ map (stamp now) logs))
        (evict-last_of s.max_size s.logs (stamp now log) h)
    ∙ last_of-append s.max_size (s.logs ++ y) (map (stamp now) logs)
    ∙ ap (last_of s.max_size) (append_assoc s.logs y (map (stamp now) logs))

filter-All :
    (p : ApiLogData → Bool) (xs : List ApiLogData) → All (λ x. p x ≡ true) xs → filter p xs ≡ xs
filter-All p [] h = refl
filter-All p (x ∷ xs) h = ground (arith, filter-All p xs h.1)

All-map-stamp :
    (now later max_age : ℕ) (xs : List ApiLogData)
    → later < now + max_age
    → All (λ x. is_fresh later max_age x ≡ true) (map (stamp now) xs)
unfolding is_fresh stamp
All-map-stamp now later max_age [] h = tt
All-map-stamp now later max_age (x ∷ xs) h = (lt→ltb _ _ h, All-map-stamp now later max_age xs h)

All-drop : (P : ApiLogData → Type 0) (n : ℕ) (xs : List ApiLogData) → All P xs → All P (drop n xs)
All-drop P zero xs h = h
All-drop P (suc n) [] h = tt
All-drop P (suc n) (x ∷ xs) h = All-drop P n xs h.1

pub add_all-max_age_ms :
    (now : ℕ) (logs : List ApiLogData) (s : InMemoryLogStorage)
    → (add_all now logs s).max_age_ms ≡ s.max_age_ms
unfolding add_all add
add_all-max_age_ms now [] s = refl
add_all-max_age_ms now (log ∷ logs) s = add_all-max_age_ms now logs (add now log s)

-- What a failed flush puts back at time `now` counts as new, whatever its age was: a cleanup before
-- `now + maxAgeMs` removes nothing of it.
cleanup-add_all-flush :
    (now later : ℕ) (s : InMemoryLogStorage)
    → later < now + s.max_age_ms
    → (let back = add_all now (flush s).0 (flush s).1 in
        (cleanup_old_logs later back).logs ≡ back.logs)
unfolding cleanup_old_logs flush
cleanup-add_all-flush now later s h =
    let emptied : InMemoryLogStorage = record s { logs = [] } in
    let back : InMemoryLogStorage = add_all now s.logs emptied in
    let age : back.max_age_ms ≡ s.max_age_ms = add_all-max_age_ms now s.logs emptied in
    let held : back.logs ≡ last_of s.max_size (map (stamp now) s.logs) =
      add_all-eq-last_of now s.logs emptied (omega arith) in
    filter-All (is_fresh later back.max_age_ms) back.logs (
      rw (held, age)
        (All-drop _ (length (map (stamp now) s.logs) - s.max_size) (map (stamp now) s.logs)
          (All-map-stamp now later s.max_age_ms s.logs h)))
