-- ===== src/Pipeline.antt =====
-- The batching half of src/repositories/api-log.repository.ts: the queue of log entries, its flush
-- to the database, and the fall-back to the in-memory storage of
-- src/services/in-memory-storage.service.ts. The database is a parameter, `Database`.
pub mod Machine
pub mod Saves
pub mod Conservation
pub mod Reach
pub mod Flush
pub mod Outage
pub mod Drain
use activity_tracker_api.Base.{
  ℕ, ◌+◌, ◌==◌, Bool, true, false, Option, none, some, List, [], ◌∷◌, ◌++◌, map, ltb, leb,
  if◌then◌else◌, length, Error, Result, ok, thrown, ◌≡◌, head?, filter, not,
}
use activity_tracker_api.Logs.{ApiLogData, ApiLog, to_entity}
use activity_tracker_api.Retry.{Run, with_database_retry, is_transient_database_error}
use activity_tracker_api.Storage.{
  InMemoryLogStorage, add, add_all, flush, is_empty, stop, is_fresh, cleanup_old_logs,
}

-- The database that TypeORM reaches, with the clock. `save` of a list of entities is one
-- transaction: it inserts all of them, or it throws and inserts none. Sleeping inserts nothing.
pub record Database : Type 1 where
  pub World : Type 0
  pub now : World → ℕ
  pub rows : World → List ApiLog
  pub save : List ApiLog → World → Result (Unit {0}) × World
  pub sleep : ℕ → World → World
  pub save_ok :
      (es : List ApiLog) (w : World) → (save es w).0 ≡ ok tt → rows (save es w).1 ≡ rows w ++ es
  pub save_thrown :
      (es : List ApiLog) (w : World) (e : Error)
      → (save es w).0 ≡ thrown e
      → rows (save es w).1 ≡ rows w
  pub sleep_rows : (ms : ℕ) (w : World) → rows (sleep ms w) ≡ rows w

-- The fields of `ApiLogRepository`, the in-memory storage, and the world. `lost` are the entries
-- that the code has given up, as it tells the logger: evicted from a full storage, expired there,
-- or dropped because the queue is full.
pub record State (World : Type 0) : Type 0 where
  pub batch_queue : List ApiLogData
  pub batch_size : ℕ
  pub batch_timer : Bool
  pub memory : InMemoryLogStorage
  pub world : World
  pub lost : List ApiLogData

-- What `add` shifts out of the storage.
abbrev pub evicted_by_add : InMemoryLogStorage → ApiLogData → List ApiLogData
evicted_by_add s log =
    if ltb s.max_size (length s.logs + 1)
    then (elim s.logs [ [] ↦ log ∷ [] | x ∷ _ ↦ x ∷ [] ])
    else []

unfoldable pub evicted : ℕ → List ApiLogData → InMemoryLogStorage → List ApiLogData
evicted now [] s = []
evicted now (log ∷ logs) s = evicted_by_add s log ++ evicted now logs (add now log s)

module _ (d : Database) where
  open d use {World, now, save, sleep}

  -- The function that is retried: the entities are made anew, with the current time, each time.
  unfoldable pub save_logs : List ApiLogData → World → Result (Unit {0}) × World
  unfolding to_entity
  save_logs logs w = save (map (to_entity (now w)) logs) w

  unfoldable pub retry_save : List ApiLogData → World → Run World (Unit {0})
  unfolding save_logs with_database_retry
  retry_save logs w = with_database_retry (save_logs logs) sleep w

  -- `logs.forEach((log) => inMemoryLogStorage.add(log))`.
  unfoldable pub store_in_memory : List ApiLogData → State World → State World
  unfolding add_all evicted
  store_in_memory logs s = record s {
    memory = add_all (now s.world) logs s.memory;
    lost = s.lost ++ evicted (now s.world) logs s.memory;
  }

  -- `flushInMemoryLogs` up to its wait: what it took out of the storage.
  unfoldable pub begin_flush_memory : State World → List ApiLogData × State World
  unfolding flush
  begin_flush_memory s = let (logs, memory) = flush s.memory in (logs, record s { memory = memory })

  -- The rest of `flushInMemoryLogs`: the retried save, and the `catch` that stores again.
  unfoldable pub finish_flush_memory : List ApiLogData → State World → State World
  unfolding retry_save store_in_memory
  finish_flush_memory [] s = s
  finish_flush_memory (log ∷ logs) s =
      let r = retry_save (log ∷ logs) s.world in
      let s' : State World = record s { world = r.state } in
      elim r.outcome [ ok _ ↦ s' | thrown _ ↦ store_in_memory (log ∷ logs) s' ]

  -- The last branch of the `catch` of `flushBatch`: a queue of 1000 entries takes no more back.
  unfoldable pub requeue : List ApiLogData → State World → State World
  requeue batch s =
      if ltb (length s.batch_queue) 1000
      then record s { batch_queue = batch ++ s.batch_queue }
      else record s { lost = s.lost ++ batch }

  -- The rest of `flushBatch` behind the in-memory logs: the retried save, and the `catch`.
  unfoldable pub finish_flush : List ApiLogData → State World → State World
  unfolding retry_save store_in_memory requeue is_transient_database_error
  finish_flush batch s =
      let r = retry_save batch s.world in
      let s' : State World = record s { world = r.state } in
      elim r.outcome [
        | ok _ ↦ s'
        | thrown e ↦
            if is_transient_database_error e then store_in_memory batch s' else requeue batch s'
      ]
