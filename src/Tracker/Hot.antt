-- ===== src/Tracker/Hot.antt =====
-- Which keys src/services/cache-hit-tracker.service.ts finds hot, and how its settings come back.
use activity_tracker_api.Base.{
  ℕ, ◌≡◌, ◌∙◌, refl, ap, subst, String, Bool, true, false, ◌&&◌, ◌||◌, List, [], ◌∷◌, ◌++◌, map,
  count, count-append, str_eq, eq_iff, eq_refl, if◌then◌else◌, arith, ok, Bool-cases, inl, inr,
}
use activity_tracker_api.Redis.{Ioredis, Redis, keys}
use activity_tracker_api.Tracker.{
  contains, cache_key_of, needs_prewarming, collect_hot, get_hot_cache_keys,
}

-- How often a key stands in a list.
abbrev pub occurrences : String → List String → ℕ
occurrences key listed = count (λ other. str_eq other key) listed

module _ (io : Ioredis) where
  open io use {Store}

  contains-append :
      (hot : List String) (c k : String)
      → contains io (hot ++ c ∷ []) k ≡ (contains io hot k || str_eq c k)
  contains-append [] c k = ground arith
  contains-append (x ∷ hot) c k = ground (arith, contains-append hot c k)

  occurrences-absent :
      (hot : List String) (k : String) → contains io hot k ≡ false → occurrences k hot ≡ 0
  occurrences-absent [] k h = refl
  occurrences-absent (x ∷ hot) k h = ground (arith, occurrences-absent hot k, h)

  differs :
      (hot : List String) (c k : String)
      → contains io hot c ≡ false
      → contains io hot k ≡ true
      → str_eq c k ≡ false
  differs hot c k out in_it = elim (Bool-cases (str_eq c k)) [
    | inr other ↦ other
    | inl same ↦
        let e : c ≡ k = ground (arith, eq_iff c k, same) in
        let h : contains io hot k ≡ false = subst (λ x. contains io hot x ≡ false) e out in
        absurd (cc)
  ]

  -- A key that is in the list already is not added again.
  collect_hot-found :
      (tracked hot : List String) (r : Redis Store) (k : String)
      → contains io hot k ≡ true
      → occurrences k (collect_hot io tracked hot r) ≡ occurrences k hot
  unfolding collect_hot
  collect_hot-found [] hot r k h = refl
  collect_hot-found (key ∷ tracked) hot r k h =
      let c : String = cache_key_of io key in
      elim (Bool-cases (contains io hot c)) [
        | inl there ↦ rw (there, collect_hot) (collect_hot-found tracked hot r k h)
        | inr fresh ↦ elim (Bool-cases (needs_prewarming io c r)) [
          | inr cold ↦ rw (fresh, cold, collect_hot) (collect_hot-found tracked hot r k h)
          | inl warm ↦
              let other = differs hot c k fresh h in
              let still : contains io (hot ++ c ∷ []) k ≡ true =
                contains-append hot c k ∙ rw h refl in
              rw (fresh, warm, collect_hot)
                (collect_hot-found tracked (hot ++ c ∷ []) r k still
                  ∙ count-append (λ o. str_eq o k) hot (c ∷ [])
                  ∙ rw other (omega arith))
        ]
      ]

  once_if : Bool → ℕ
  once_if b = if b then 1 else 0

  -- Which list the loop goes on with, after one key.
  step : List String → String → Redis Store → List String
  step hot c r =
      if contains io hot c then hot else if needs_prewarming io c r then hot ++ c ∷ [] else hot

  step-other :
      (hot : List String) (c k : String) (r : Redis Store)
      → str_eq c k ≡ false
      → contains io hot k ≡ false
      → contains io (step hot c r) k ≡ false
  unfolding step
  step-other hot c k r other out = ground (arith, contains-append hot c k, other, out)

  occurrences-step :
      (hot : List String) (k : String) (r : Redis Store)
      → contains io hot k ≡ false
      → needs_prewarming io k r ≡ true
      → (contains io (step hot k r) k ≡ true) × (occurrences k (step hot k r) ≡ 1)
  unfolding step
  occurrences-step hot k r out warm =
      let once : occurrences k (hot ++ k ∷ []) ≡ 1 =
        count-append (λ o. str_eq o k) hot (k ∷ [])
        ∙ rw (eq_refl k) (omega (arith, occurrences-absent hot k out)) in
      let there : contains io (hot ++ k ∷ []) k ≡ true =
        contains-append hot k k ∙ rw (out, eq_refl k) refl in
      (rw (out, warm, step) there, rw (out, warm, step) once)

  collect_hot-new :
      (tracked hot : List String) (r : Redis Store) (k : String)
      → contains io hot k ≡ false
      → occurrences k (collect_hot io tracked hot r) ≡ (
          if contains io (map (cache_key_of io) tracked) k && needs_prewarming io k r then 1 else 0)
  unfolding collect_hot step
  collect_hot-new [] hot r k out = occurrences-absent hot k out
  collect_hot-new (key ∷ tracked) hot r k out =
      let c : String = cache_key_of io key in
      elim (Bool-cases (str_eq c k)) [
        | inr other ↦
            rw other (collect_hot-new tracked (step hot c r) r k (step-other hot c k r other out))
        | inl same ↦
            let e : c ≡ k = ground (arith, eq_iff c k, same) in
            elim (Bool-cases (needs_prewarming io k r)) [
              | inl warm ↦
                  let (there, once) = occurrences-step hot k r out warm in
                  rw (same, warm)
                    (ap (λ x. occurrences k (collect_hot io tracked (step hot x r) r)) e
                      ∙ collect_hot-found tracked (step hot k r) r k there
                      ∙ once)
              | inr cold ↦
                  let unchanged : step hot k r ≡ hot = rw (out, cold, step) refl in
                  ap (λ x. occurrences k (collect_hot io tracked (step hot x r) r)) e
                  ∙ ap (λ x. occurrences k (collect_hot io tracked x r)) unchanged
                  ∙ collect_hot-new tracked hot r k out
                  ∙ ground (arith, cold)
            ]
      ]

  -- Where Redis lists the tracking keys, a cache key is hot, and is named once, if one of the tracking
  -- keys counts for it and it needs pre-warming, and otherwise it is not named.
  pub occurrences-get_hot_cache_keys :
      (r : Redis Store) (tracked : List String) (k : String)
      → keys io "cache:hits:*" r ≡ ok tracked
      → occurrences k (get_hot_cache_keys io r) ≡ (
          if contains io (map (cache_key_of io) tracked) k && needs_prewarming io k r then 1 else 0)
  unfolding get_hot_cache_keys
  occurrences-get_hot_cache_keys r tracked k listed =
      rw (listed, get_hot_cache_keys) (collect_hot-new tracked [] r k refl)
