-- ===== src/Pipeline/Flush.antt =====
-- `flushBatch` of src/repositories/api-log.repository.ts by whether the in-memory storage is empty.
use activity_tracker_api.Base.{◌==◌, ◌≡◌, true, false, [], arith, length, ◌<◌}
use activity_tracker_api.Storage.{is_empty}
use activity_tracker_api.Pipeline.{Database, State, finish_flush_memory, finish_flush}
use activity_tracker_api.Pipeline.Machine.{begin_flush, flush_batch}

module _ (d : Database) where
  open d use {World}

  -- The flush, by whether the storage holds entries.
  pub flush_batch-no_logs :
      (s : State World)
      → 0 < length s.batch_queue
      → is_empty s.memory ≡ true
      → flush_batch d s ≡ finish_flush d s.batch_queue (record s { batch_queue = [] })
  unfolding flush_batch
  flush_batch-no_logs s q e =
      let queued : (length s.batch_queue == 0) ≡ false = ground arith in rw (queued, e, begin_flush)

  pub flush_batch-some_logs :
      (s : State World)
      → 0 < length s.batch_queue
      → is_empty s.memory ≡ false
      → flush_batch d s
        ≡ finish_flush d s.batch_queue (
            finish_flush_memory d s.memory.logs
              (record s { batch_queue = []; memory = record s.memory { logs = [] } }))
  unfolding flush_batch
  flush_batch-some_logs s q e =
      let queued : (length s.batch_queue == 0) ≡ false = ground arith in rw (queued, e, begin_flush)
