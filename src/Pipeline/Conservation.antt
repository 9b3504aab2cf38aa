-- ===== src/Pipeline/Conservation.antt =====
-- Where the entries of src/repositories/api-log.repository.ts are: each operation moves them
-- between the queue, the waiting flushes, the in-memory storage, the table and those given up.
use activity_tracker_api.Base.{
  ℕ, ◌+◌, ◌≡◌, refl, Bool, ◌⊎◌, inl, inr, none, List, [], ◌∷◌, ◌++◌, map, not, arith, ltb,
  if◌then◌else◌, length, length-append, count, Error, count-append, filter, Bool-cases, ok, thrown,
}
use activity_tracker_api.Logs.{ApiLogData, ApiLog, to_entity}
use activity_tracker_api.Storage.{InMemoryLogStorage, evict, stamp, add, add_all, flush}
use activity_tracker_api.Pipeline.{
  Database, State, evicted_by_add, evicted, store_in_memory, begin_flush_memory,
  finish_flush_memory, requeue, finish_flush, retry_save,
}
use activity_tracker_api.Pipeline.Saves.{Saved, inserted, refused, retry_save-Saved}
use activity_tracker_api.Retry.{Run, is_transient_database_error}

-- An entry without the time that the in-memory storage gave it.
abbrev pub payload : ApiLogData → ApiLogData
payload log = record log { stored_at = none }

-- The entry that a row of the table came from.
abbrev pub of_row : ApiLog → ApiLogData
of_row row = record {
  client_id = row.client_id;
  api_key = row.api_key;
  endpoint = row.endpoint;
  method = row.method;
  status_code = row.status_code;
  response_time = row.response_time;
  ip_address = row.ip_address;
  user_agent = row.user_agent;
  request_headers = row.request_headers;
  request_body = row.request_body;
  response_body = row.response_body;
  error_message = row.error_message;
  metadata = row.metadata;
  stored_at = none;
}

module _ (p : ApiLogData → Bool) where
  -- How many entries, or rows, have a content that passes the test `p`.
  abbrev pub tally : List ApiLogData → ℕ
  tally = count (λ log. p (payload log))

  abbrev pub tally_rows : List ApiLog → ℕ
  tally_rows = count (λ row. p (of_row row))

  tally_rows-map :
      (t : ℕ) (logs : List ApiLogData) → tally_rows (map (to_entity t) logs) ≡ tally logs
  unfolding to_entity
  tally_rows-map t [] = refl
  tally_rows-map t (log ∷ logs) = ground (arith, tally_rows-map t logs)

  tally-evict :
      (n : ℕ) (logs : List ApiLogData) (log : ApiLogData) (now : ℕ)
      → tally (evict n (logs ++ stamp now log ∷ []))
          + tally (
              if ltb n (length logs + 1)
              then (elim logs [ [] ↦ log ∷ [] | x ∷ _ ↦ x ∷ [] ])
              else [])
        ≡ tally logs + tally (log ∷ [])
  unfolding stamp
  tally-evict n [] log now = ground arith
  tally-evict n (x ∷ logs) log now = ground (
    arith,
    length-append logs (stamp now log ∷ []),
    count-append (λ y. p (payload y)) logs (stamp now log ∷ []),
  )

  tally-add :
      (now : ℕ) (log : ApiLogData) (s : InMemoryLogStorage)
      → tally (add now log s).logs + tally (evicted_by_add s log) ≡ tally s.logs + tally (log ∷ [])
  unfolding add
  tally-add now log s = tally-evict s.max_size s.logs log now

  tally-add_all :
      (now : ℕ) (logs : List ApiLogData) (s : InMemoryLogStorage)
      → tally (add_all now logs s).logs + tally (evicted now logs s) ≡ tally s.logs + tally logs
  unfolding add_all evicted
  tally-add_all now [] s = omega arith
  tally-add_all now (log ∷ logs) s = ground (
    arith,
    tally-add now log s,
    tally-add_all now logs (add now log s),
    count-append (λ x. p (payload x)) (evicted_by_add s log) (evicted now logs (add now log s)),
  )

  pub tally-filter :
      (f : ApiLogData → Bool) (logs : List ApiLogData)
      → tally (filter f logs) + tally (filter (λ x. not (f x)) logs) ≡ tally logs
  tally-filter f [] = omega arith
  tally-filter f (log ∷ logs) = ground (arith, tally-filter f logs)

  module _ (d : Database) where
    open d use {World, now, rows}

    Saved-tally :
        (logs : List ApiLogData) (w : World) (r : Run World (Unit {0}))
        → Saved d logs w r
        → ((r.outcome ≡ ok tt) × (tally_rows (rows r.state) ≡ tally_rows (rows w) + tally logs))
          ⊎ ((e : Error) × (r.outcome ≡ thrown e)
              × (tally_rows (rows r.state) ≡ tally_rows (rows w)))
    Saved-tally logs w r (inserted _ t e h) = inl (
      e,
      rw h (
          omega (
            arith,
            count-append (λ row. p (of_row row)) (rows w) (map (to_entity t) logs),
            tally_rows-map t logs,
          )),
    )
    Saved-tally logs w r (refused _ x e h) = inr (x, e, rw h)

    -- The entries that are queued, in memory, in the table or given up.
    abbrev pub weight : State World → ℕ
    weight s = tally s.batch_queue + tally s.memory.logs + tally s.lost + tally_rows (rows s.world)

    pub weight-store_in_memory :
        (logs : List ApiLogData) (s : State World)
        → weight (store_in_memory d logs s) ≡ weight s + tally logs
    unfolding store_in_memory
    weight-store_in_memory logs s = omega (
      arith,
      tally-add_all (now s.world) logs s.memory,
      count-append (λ x. p (payload x)) s.lost (evicted (now s.world) logs s.memory),
    )

    pub weight-begin_flush_memory :
        (s : State World)
        → weight (begin_flush_memory d s).1 + tally (begin_flush_memory d s).0 ≡ weight s
    unfolding begin_flush_memory flush
    weight-begin_flush_memory s = omega arith

    pub weight-requeue :
        (batch : List ApiLogData) (s : State World)
        → weight (requeue d batch s) ≡ weight s + tally batch
    unfolding requeue
    weight-requeue batch s = ground (
      arith,
      count-append (λ x. p (payload x)) batch s.batch_queue,
      count-append (λ x. p (payload x)) s.lost batch,
    )

    retry_save-tally :
        (logs : List ApiLogData) (w : World)
        → (let r = retry_save d logs w in
            ((r.outcome ≡ ok tt) × (tally_rows (rows r.state) ≡ tally_rows (rows w) + tally logs))
            ⊎ ((e : Error) × (r.outcome ≡ thrown e)
                × (tally_rows (rows r.state) ≡ tally_rows (rows w))))
    retry_save-tally logs w = Saved-tally logs w _ (retry_save-Saved d logs w)

    pub weight-finish_flush :
        (batch : List ApiLogData) (s : State World)
        → weight (finish_flush d batch s) ≡ weight s + tally batch
    unfolding finish_flush
    weight-finish_flush batch s = elim (retry_save-tally batch s.world) [
      | inl (done, inserts) ↦ rw (done, finish_flush) (omega arith)
      | inr (e, threw, keeps) ↦ elim (Bool-cases (is_transient_database_error e)) [
        | inl transient ↦
            rw (threw, transient, finish_flush)
              (omega (
                arith,
                weight-store_in_memory batch
                    (record s { world = (retry_save d batch s.world).state }),
              ))
        | inr other ↦
            rw (threw, other, finish_flush)
              (omega (
                arith,
                weight-requeue batch (record s { world = (retry_save d batch s.world).state }),
              ))
      ]
    ]

    pub weight-finish_flush_memory :
        (logs : List ApiLogData) (s : State World)
        → weight (finish_flush_memory d logs s) ≡ weight s + tally logs
    unfolding finish_flush_memory
    weight-finish_flush_memory [] s = omega arith
    weight-finish_flush_memory (log ∷ logs) s = elim (retry_save-tally (log ∷ logs) s.world) [
      | inl (done, inserts) ↦ rw (done, finish_flush_memory) (omega arith)
      | inr (e, threw, keeps) ↦
          rw (threw, finish_flush_memory)
            (omega (
              arith,
              weight-store_in_memory (log ∷ logs)
                  (record s { world = (retry_save d (log ∷ logs) s.world).state }),
            ))
    ]
