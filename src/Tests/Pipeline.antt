-- ===== src/Tests/Pipeline.antt =====
-- Runs of src/repositories/api-log.repository.ts and src/services/in-memory-storage.service.ts.
use activity_tracker_api.Base.{
  ℕ, ◌+◌, ◌≡◌, refl, true, false, Bool, [], ◌∷◌, ◌++◌, map, arith, last_of, str_eq,
}
use activity_tracker_api.Logs.{ApiLogData}
use activity_tracker_api.Retry.{is_transient_database_error, mentions_lower}
use activity_tracker_api.Storage.{InMemoryLogStorage, stamp, add_all}
use activity_tracker_api.Storage.Order.{add_all-eq-last_of}
use activity_tracker_api.Pipeline.{State, Database}
use activity_tracker_api.Pipeline.Machine.{
  Machine, Reach, here, next, arrives, ticks, flush_batch, stop_batch_processor, arrive, tick,
}
use activity_tracker_api.Pipeline.Reach.{total, total-Reach}
use activity_tracker_api.Pipeline.Outage.{flush_batch-down}
use activity_tracker_api.Pipeline.Drain.{IsDrained, stop_batch_processor-IsDrained}
use activity_tracker_api.Tests.Worlds.{Table, list_database, log_entry, refused}

abbrev up : Database
up = list_database true

abbrev down : Database
down = list_database false

abbrev storage : InMemoryLogStorage
storage = record {
  logs = log_entry "/old" ∷ [];
  max_size = 2;
  max_age_ms = 3600000;
  cleanup_timer = true;
}

abbrev queued : State Table
queued = record {
  batch_queue = log_entry "/a" ∷ log_entry "/b" ∷ [];
  batch_size = 100;
  batch_timer = true;
  memory = storage;
  world = record { clock = 5000; table = [] };
  lost = [];
}

abbrev is_a : ApiLogData → Bool
is_a log = str_eq log.endpoint "/a"

abbrev start : Machine down
start = record { state = queued; flights = [] }

-- An entry arrives, the timer fires, and another entry arrives while the flush waits.
abbrev busy : Machine down
busy = arrive down (log_entry "/a") (tick down (arrive down (log_entry "/a") start))

timer_runs : (arrive down (log_entry "/a") start).state.batch_timer ≡ true
unfolding arrive
timer_runs = refl

busy-Reach : Reach down start (([] ++ log_entry "/a" ∷ []) ++ [] ++ log_entry "/a" ∷ []) busy
busy-Reach =
    next
      (next (next here (arrives start (log_entry "/a")))
        (ticks (arrive down (log_entry "/a") start) timer_runs))
      (arrives (tick down (arrive down (log_entry "/a") start)) (log_entry "/a"))

total-Reach_example : total is_a down busy ≡ total is_a down start + 2
total-Reach_example = total-Reach is_a down busy-Reach

stop_batch_processor-IsDrained_example :
    IsDrained up (λ es w. refl) queued (stop_batch_processor up queued)
    × ((stop_batch_processor up queued).batch_timer ≡ false)
    × ((stop_batch_processor up queued).memory.cleanup_timer ≡ false)
stop_batch_processor-IsDrained_example = stop_batch_processor-IsDrained up (λ es w. refl) queued

refused_is_transient : is_transient_database_error refused ≡ true
unfolding is_transient_database_error mentions_lower
refused_is_transient = refl

flush_batch-down_example :
    (t u : ℕ) × ((flush_batch down queued).memory.logs
      ≡ last_of 2 (map (stamp t) storage.logs ++ map (stamp u) queued.batch_queue))
    × ((flush_batch down queued).batch_queue ≡ [])
flush_batch-down_example =
    flush_batch-down down refused (λ es w. refl) refused_is_transient queued (omega arith)
      (omega arith)

add_all-eq-last_of_example :
    (add_all 7 queued.batch_queue storage).logs
    ≡ last_of 2 (storage.logs ++ map (stamp 7) queued.batch_queue)
add_all-eq-last_of_example = add_all-eq-last_of 7 queued.batch_queue storage (omega arith)
