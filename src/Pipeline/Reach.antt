-- ===== src/Pipeline/Reach.antt =====
-- Every interleaving of the calls of src/repositories/api-log.repository.ts keeps account of each
-- log entry.
use activity_tracker_api.Base.{
  ℕ, ◌+◌, ◌==◌, ◌≡◌, ap, Bool, false, inl, inr, none, some, Option, List, [], ◌∷◌, ◌++◌, arith, ltb,
  leb, length, count-append, Bool-cases, filter, not,
}
use activity_tracker_api.Logs.{ApiLogData}
use activity_tracker_api.Storage.{InMemoryLogStorage, stop, is_fresh, is_empty}
use activity_tracker_api.Pipeline.{Database, State, begin_flush_memory}
use activity_tracker_api.Pipeline.Machine.{
  Flight, memory_then_batch, batch_only, Machine, begin_flush, resume, finish, flush_batch, fly,
  finish_any, flush_remaining, flush_memory, clear_batch_timer, stop_batch_processor, launch,
  arrive, tick, expire, Step, arrives, ticks, resumes, expires, Reach, here, next,
}
use activity_tracker_api.Pipeline.Conservation.{
  payload, tally, tally-filter, weight, weight-begin_flush_memory, weight-finish_flush,
  weight-finish_flush_memory,
}

pub stop-logs : (s : InMemoryLogStorage) → (stop s).logs ≡ s.logs
unfolding stop
stop-logs s = ground arith

module _ (p : ApiLogData → Bool) where
  -- The entries that a waiting flush holds.
  abbrev pub tally_flight : Flight → ℕ
  tally_flight (memory_then_batch logs batch) = tally p logs + tally p batch
  tally_flight (batch_only batch) = tally p batch

  abbrev pub tally_flights : List Flight → ℕ
  tally_flights [] = 0
  tally_flights (f ∷ fs) = tally_flight f + tally_flights fs

  tally_flights-append :
      (fs gs : List Flight) → tally_flights (fs ++ gs) ≡ tally_flights fs + tally_flights gs
  tally_flights-append [] gs = omega arith
  tally_flights-append (f ∷ fs) gs = omega (arith, tally_flights-append fs gs)

  tally_flights-fly :
      (o : Option Flight) (fs : List Flight)
      → tally_flights (fly o fs) ≡ tally_flights fs + tally_flights (fly o [])
  tally_flights-fly none fs = omega arith
  tally_flights-fly (some f) fs = omega (arith, tally_flights-append fs (f ∷ []))

  module _ (d : Database) where
    open d use {World, now}

    -- All entries: those of the state, and those that waiting flushes hold.
    abbrev pub total : Machine d → ℕ
    total m = weight p d m.state + tally_flights m.flights

    weight-begin_flush :
        (s : State World)
        → weight p d (begin_flush d s).1 + tally_flights (fly (begin_flush d s).0 []) ≡ weight p d s
    unfolding begin_flush
    weight-begin_flush s = elim (Bool-cases (length s.batch_queue == 0)) [
      | inl empty ↦ rw (empty, begin_flush) (omega arith)
      | inr queued ↦
          let s' : State World = record s { batch_queue = [] } in
          elim (Bool-cases (is_empty s.memory)) [
            | inl none_stored ↦ rw (queued, none_stored, begin_flush) (omega arith)
            | inr stored ↦
                rw (queued, stored, begin_flush) (omega (arith, weight-begin_flush_memory p d s'))
          ]
    ]

    weight-resume :
        (f : Flight) (s : State World)
        → weight p d (resume d f s).1 + tally_flights (fly (resume d f s).0 [])
          ≡ weight p d s + tally_flight f
    unfolding resume
    weight-resume (memory_then_batch logs batch) s =
        omega (arith, weight-finish_flush_memory p d logs s)
    weight-resume (batch_only batch) s = omega (arith, weight-finish_flush p d batch s)

    total-launch :
        (s : State World) (fs : List Flight)
        → total (launch d s fs) ≡ weight p d s + tally_flights fs
    total-launch s fs =
        omega (arith, weight-begin_flush s, tally_flights-fly (begin_flush d s).0 fs)

    total-Step :
        {m m' : Machine d} {logs : List ApiLogData}
        → Step d m logs m'
        → total m' ≡ total m + tally p logs
    unfolding arrive tick expire
    total-Step (arrives m log) =
        let s : State World = record m.state { batch_queue = m.state.batch_queue ++ log ∷ [] } in
        let more : tally p s.batch_queue ≡ tally p m.state.batch_queue + tally p (log ∷ []) =
          count-append (λ x. p (payload x)) m.state.batch_queue (log ∷ []) in
        elim (Bool-cases (leb s.batch_size (length s.batch_queue))) [
          | inl full ↦ rw (full, arrive) (omega (arith, more, total-launch s m.flights))
          | inr below ↦ rw (below, arrive) (omega (arith, more))
        ]
    total-Step (ticks m on) = elim (Bool-cases (ltb 0 (length m.state.batch_queue))) [
      | inl some_queued ↦ rw (some_queued, tick) (omega (arith, total-launch m.state m.flights))
      | inr none_queued ↦ rw (none_queued, tick) (omega arith)
    ]
    total-Step (resumes s before f after) = omega (
      arith,
      weight-resume f s,
      tally_flights-fly (resume d f s).0 (before ++ after),
      tally_flights-append before after,
      tally_flights-append before (f ∷ after),
    )
    total-Step (expires m) =
        let fresh = is_fresh (now m.state.world) m.state.memory.max_age_ms in
        omega (
          arith,
          tally-filter p fresh m.state.memory.logs,
          count-append (λ x. p (payload x)) m.state.lost
              (filter (λ log. not (fresh log)) m.state.memory.logs),
        )

    -- However the calls interleave, and whatever the database answers: the number of entries whose
    -- content passes a test `p` that are queued, held by a waiting flush, in memory, in the table or
    -- given up is that at the start and those accepted since. So no entry is doubled, and none
    -- disappears without being counted as given up.
    pub total-Reach :
        {start m : Machine d} {logs : List ApiLogData}
        → Reach d start logs m
        → total m ≡ total start + tally p logs
    total-Reach here = omega arith
    total-Reach (next {logs = logs} {more = more} r s) =
        omega (arith, total-Reach r, total-Step s, count-append (λ x. p (payload x)) logs more)

    weight-finish :
        (f : Flight) (s : State World) → weight p d (finish d f s) ≡ weight p d s + tally_flight f
    unfolding finish
    weight-finish (memory_then_batch logs batch) s = omega (
      arith,
      weight-resume (memory_then_batch logs batch) s,
      weight-resume (batch_only batch) (resume d (memory_then_batch logs batch) s).1,
    )
    weight-finish (batch_only batch) s = omega (arith, weight-resume (batch_only batch) s)

    weight-finish_any :
        (o : Option Flight) (s : State World)
        → weight p d (finish_any d o s) ≡ weight p d s + tally_flights (fly o [])
    weight-finish_any none s = omega arith
    weight-finish_any (some f) s = omega (arith, weight-finish f s)

    pub weight-flush_batch : (s : State World) → weight p d (flush_batch d s) ≡ weight p d s
    unfolding flush_batch
    weight-flush_batch s =
        omega
          (arith, weight-begin_flush s, weight-finish_any (begin_flush d s).0 (begin_flush d s).1)

    weight-flush_remaining : (s : State World) → weight p d (flush_remaining d s) ≡ weight p d s
    unfolding flush_remaining
    weight-flush_remaining s = ground (arith, weight-flush_batch s)

    weight-flush_memory : (s : State World) → weight p d (flush_memory d s) ≡ weight p d s
    unfolding flush_memory
    weight-flush_memory s = ground (
      arith,
      weight-begin_flush_memory p d s,
      weight-finish_flush_memory p d (begin_flush_memory d s).0 (begin_flush_memory d s).1,
    )

    -- `stopBatchProcessor`, if no other call comes in while it waits, moves entries between the
    -- queue, the in-memory storage and the table, or gives them up, and accounts for each.
    weight-stop_batch_processor :
        (s : State World) → weight p d (stop_batch_processor d s) ≡ weight p d s
    unfolding stop_batch_processor clear_batch_timer
    weight-stop_batch_processor s =
        let s' : State World = record s { batch_timer = false } in
        omega (
          arith,
          ap (tally p) (stop-logs (flush_memory d (flush_remaining d s')).memory),
          weight-flush_memory (flush_remaining d s'),
          weight-flush_remaining s',
        )
