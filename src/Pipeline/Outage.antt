-- ===== src/Pipeline/Outage.antt =====
-- How the flushes of src/repositories/api-log.repository.ts behave while the database is down.
use activity_tracker_api.Base.{
  empty_of_length, ℕ, ◌==◌, ◌≡◌, refl, ◌∙◌, sym, ap, true, false, inl, inr, List, [], ◌∷◌, ◌++◌,
  map, arith, length, last_of, last_of-append, Bool-cases, Error, thrown, ◌<◌,
}
use activity_tracker_api.Logs.{ApiLogData, ApiLog}
use activity_tracker_api.Retry.{is_transient_database_error}
use activity_tracker_api.Storage.{is_empty, stamp}
use activity_tracker_api.Storage.Bounds.{IsBounded, length-add_all, add_all-max_size}
use activity_tracker_api.Storage.Order.{add_all-eq-last_of}
use activity_tracker_api.Pipeline.{
  Database, State, store_in_memory, retry_save, finish_flush_memory, finish_flush,
}
use activity_tracker_api.Pipeline.Machine.{flush_batch}
use activity_tracker_api.Pipeline.Flush.{flush_batch-no_logs, flush_batch-some_logs}
use activity_tracker_api.Pipeline.Saves.{retry_save-outcome}

module _ (d : Database) where
  open d use {World, now, rows, save}

  store_in_memory-logs :
      (logs : List ApiLogData) (s : State World)
      → IsBounded s.memory
      → (store_in_memory d logs s).memory.logs
        ≡ last_of s.memory.max_size (s.memory.logs ++ map (stamp (now s.world)) logs)
  unfolding store_in_memory
  store_in_memory-logs logs s b = add_all-eq-last_of (now s.world) logs s.memory b

  store_in_memory-IsBounded :
      (logs : List ApiLogData) (s : State World)
      → IsBounded s.memory
      → IsBounded (store_in_memory d logs s).memory
  unfolding store_in_memory
  store_in_memory-IsBounded logs s b = (length-add_all (now s.world) logs s.memory b).0

  store_in_memory-max_size :
      (logs : List ApiLogData) (s : State World)
      → (store_in_memory d logs s).memory.max_size ≡ s.memory.max_size
  unfolding store_in_memory
  store_in_memory-max_size logs s = add_all-max_size (now s.world) logs s.memory

  store_in_memory-queue :
      (logs : List ApiLogData) (s : State World)
      → (store_in_memory d logs s).batch_queue ≡ s.batch_queue
  unfolding store_in_memory
  store_in_memory-queue logs s = refl

  module _ (e : Error) (down : (es : List ApiLog) (w : World) → (save es w).0 ≡ thrown e)
      (transient : is_transient_database_error e ≡ true) where
    -- A flush of a batch, while the database is down, stores it in memory.
    finish_flush-down :
        (batch : List ApiLogData) (s : State World)
        → finish_flush d batch s
          ≡ store_in_memory d batch (record s { world = (retry_save d batch s.world).state })
    unfolding finish_flush
    finish_flush-down batch s =
        rw (retry_save-outcome d batch s.world (thrown e) down, transient, finish_flush)

    finish_flush_memory-down :
        (logs : List ApiLogData) (s : State World)
        → (length logs == 0) ≡ false
        → finish_flush_memory d logs s
          ≡ store_in_memory d logs (record s { world = (retry_save d logs s.world).state })
    unfolding finish_flush_memory
    finish_flush_memory-down [] s h = ground arith
    finish_flush_memory-down (log ∷ logs) s h =
        rw (retry_save-outcome d (log ∷ logs) s.world (thrown e) down, finish_flush_memory)

    -- While the database is down with a transient error, a flush of a queue that is not empty
    -- empties the queue and loses nothing but what does not fit: the storage then holds the newest
    -- `maxSize` of its old entries followed by the queue, stamped anew.
    pub flush_batch-down :
        (s : State World)
        → 0 < length s.batch_queue
        → IsBounded s.memory
        → (t u : ℕ) × ((flush_batch d s).memory.logs
            ≡ last_of s.memory.max_size
                (map (stamp t) s.memory.logs ++ map (stamp u) s.batch_queue))
          × ((flush_batch d s).batch_queue ≡ [])
    unfolding is_empty
    flush_batch-down s q b = elim (Bool-cases (is_empty s.memory)) [
      | inl no_logs ↦
          let s₀ : State World = record s { batch_queue = [] } in
          let s₁ : State World = record s₀ { world = (retry_save d s.batch_queue s.world).state } in
          let same : flush_batch d s ≡ store_in_memory d s.batch_queue s₁ =
            flush_batch-no_logs d s q no_logs ∙ finish_flush-down s.batch_queue s₀ in
          let nil : s.memory.logs ≡ [] = empty_of_length s.memory.logs no_logs in
          (
            0,
            now s₁.world,
            ap (λ x. x.memory.logs) same
                ∙ store_in_memory-logs s.batch_queue s₁ b
                ∙ ap
                    (λ l. last_of s.memory.max_size (l ++ map (stamp (now s₁.world)) s.batch_queue))
                    (nil ∙ sym (ap (map (stamp 0)) nil)),
            ap (λ x. x.batch_queue) same ∙ store_in_memory-queue s.batch_queue s₁,
          )
      | inr some_logs ↦
          let s₀ : State World = record s {
            batch_queue = [];
            memory = record s.memory { logs = [] };
          } in
          let s₁ : State World = record s₀ { world = (retry_save d s.memory.logs s.world).state } in
          let s₂ = store_in_memory d s.memory.logs s₁ in
          let s₃ : State World = record s₂ {
            world = (retry_save d s.batch_queue s₂.world).state;
          } in
          let same : flush_batch d s ≡ store_in_memory d s.batch_queue s₃ =
            flush_batch-some_logs d s q some_logs
            ∙ ap (finish_flush d s.batch_queue)
                (finish_flush_memory-down s.memory.logs s₀ some_logs)
            ∙ finish_flush-down s.batch_queue s₂ in
          let size : s₂.memory.max_size ≡ s.memory.max_size =
            store_in_memory-max_size s.memory.logs s₁ in
          (
            now s₁.world,
            now s₃.world,
            ap (λ x. x.memory.logs) same
                ∙ store_in_memory-logs s.batch_queue s₃
                    (store_in_memory-IsBounded s.memory.logs s₁ (omega arith))
                ∙ ap (λ n. last_of n (s₂.memory.logs ++ map (stamp (now s₃.world)) s.batch_queue))
                    size
                ∙ ap
                    (λ l. last_of s.memory.max_size (l ++ map (stamp (now s₃.world)) s.batch_queue))
                    (store_in_memory-logs s.memory.logs s₁ (omega arith))
                ∙ last_of-append s.memory.max_size (map (stamp (now s₁.world)) s.memory.logs)
                    (map (stamp (now s₃.world)) s.batch_queue),
            ap (λ x. x.batch_queue) same
                ∙ store_in_memory-queue s.batch_queue s₃
                ∙ store_in_memory-queue s.memory.logs s₁,
          )
    ]
