-- ===== src/Pipeline/Machine.antt =====
-- The control flow of src/repositories/api-log.repository.ts: `addToBatch`, the timer, `flushBatch`
-- and `stopBatchProcessor`, run to the end or in pieces between the waits for the database, where
-- other calls may come in.
use activity_tracker_api.Base.{
  ◌==◌, true, false, Option, none, some, List, [], ◌∷◌, ◌++◌, ltb, leb, if◌then◌else◌, length,
  filter, not, ◌≡◌,
}
use activity_tracker_api.Logs.{ApiLogData}
use activity_tracker_api.Storage.{is_empty, stop, is_fresh, cleanup_old_logs}
use activity_tracker_api.Pipeline.{
  Database, State, begin_flush_memory, finish_flush_memory, finish_flush,
}

-- A flush that waits for the database: for the in-memory logs, with its batch to follow, or for
-- its batch.
pub data Flight : Type 0 where
  memory_then_batch : List ApiLogData → List ApiLogData → Flight
  batch_only : List ApiLogData → Flight

-- A flush that still waits comes behind the others.
abbrev pub fly : Option Flight → List Flight → List Flight
fly none fs = fs
fly (some f) fs = fs ++ f ∷ []

module _ (d : Database) where
  open d use {World, now}

  -- `flushBatch` up to its first wait.
  unfoldable pub begin_flush : State World → Option Flight × State World
  unfolding begin_flush_memory is_empty
  begin_flush s =
      let batch = s.batch_queue in
      let s' : State World = record s { batch_queue = [] } in
      if length batch == 0
      then (none, s)
      else if is_empty s.memory
      then (some (batch_only batch), s')
      else (some (memory_then_batch (begin_flush_memory d s').0 batch), (begin_flush_memory d s').1)

  -- From one wait to the next: what is still to be waited for, and the new state.
  unfoldable pub resume : Flight → State World → Option Flight × State World
  unfolding finish_flush_memory finish_flush
  resume (memory_then_batch logs batch) s = (some (batch_only batch), finish_flush_memory d logs s)
  resume (batch_only batch) s = (none, finish_flush d batch s)

  -- A flush during which no other call comes in.
  unfoldable pub finish : Flight → State World → State World
  unfolding resume
  finish (memory_then_batch logs batch) s =
      (resume (batch_only batch) (resume (memory_then_batch logs batch) s).1).1
  finish (batch_only batch) s = (resume (batch_only batch) s).1

  abbrev pub finish_any : Option Flight → State World → State World
  finish_any none s = s
  finish_any (some f) s = finish f s

  unfoldable pub flush_batch : State World → State World
  unfolding begin_flush finish
  flush_batch s = finish_any (begin_flush s).0 (begin_flush s).1

  unfoldable pub add_to_batch : ApiLogData → State World → State World
  unfolding flush_batch
  add_to_batch log s =
      let s' : State World = record s { batch_queue = s.batch_queue ++ log ∷ [] } in
      if leb s'.batch_size (length s'.batch_queue) then flush_batch s' else s'

  -- The steps of `stopBatchProcessor`: the timer, the queue, the in-memory logs, their timer.
  unfoldable pub clear_batch_timer : State World → State World
  clear_batch_timer s = record s { batch_timer = false }

  unfoldable pub flush_remaining : State World → State World
  unfolding flush_batch
  flush_remaining s = if ltb 0 (length s.batch_queue) then flush_batch s else s

  unfoldable pub flush_memory : State World → State World
  unfolding begin_flush_memory finish_flush_memory is_empty
  flush_memory s =
      if is_empty s.memory
      then s
      else finish_flush_memory d (begin_flush_memory d s).0 (begin_flush_memory d s).1

  unfoldable pub stop_batch_processor : State World → State World
  stop_batch_processor s =
      let s' = flush_memory (flush_remaining (clear_batch_timer s)) in
      record s' { memory = stop s'.memory }

  -- The calls that are waiting, oldest first, beside the state.
  pub record Machine : Type 0 where
    pub state : State World
    pub flights : List Flight

  abbrev pub launch : State World → List Flight → Machine
  launch s fs = record { state = (begin_flush s).1; flights = fly (begin_flush s).0 fs }

  -- `addToBatch`, up to its wait.
  unfoldable pub arrive : ApiLogData → Machine → Machine
  unfolding begin_flush
  arrive log m =
      let s : State World = record m.state { batch_queue = m.state.batch_queue ++ log ∷ [] } in
      if leb s.batch_size (length s.batch_queue)
      then launch s m.flights
      else record { state = s; flights = m.flights }

  -- The callback of `startBatchProcessor`, up to its wait.
  unfoldable pub tick : Machine → Machine
  unfolding begin_flush
  tick m = if ltb 0 (length m.state.batch_queue) then launch m.state m.flights else m

  -- The timer of the in-memory storage; what it removes has expired.
  unfoldable pub expire : State World → State World
  unfolding cleanup_old_logs
  expire s = record s {
    memory = cleanup_old_logs (now s.world) s.memory;
    lost =
        s.lost
        ++ filter (λ log. not (is_fresh (now s.world) s.memory.max_age_ms log)) s.memory.logs;
  }

  -- What may happen next, and the entry that it accepts, if any.
  pub data Step : Machine → List ApiLogData → Machine → Type 0 where
    arrives : (m : Machine) (log : ApiLogData) → Step m (log ∷ []) (arrive log m)
    ticks : (m : Machine) → m.state.batch_timer ≡ true → Step m [] (tick m)
    resumes :
        (s : State World) (before : List Flight) (f : Flight) (after : List Flight)
        → Step
            (record { state = s; flights = before ++ f ∷ after })
            []
            (record { state = (resume f s).1; flights = fly (resume f s).0 (before ++ after) })
    expires : (m : Machine) → Step m [] (record m { state = expire m.state })

  -- Machines that follow one another, with the entries that were accepted on the way.
  pub data Reach (start : Machine) : List ApiLogData → Machine → Type 0 where
    here : Reach start [] start
    next :
        {logs more : List ApiLogData} {m m' : Machine}
        → Reach start logs m
        → Step m more m'
        → Reach start (logs ++ more) m'
