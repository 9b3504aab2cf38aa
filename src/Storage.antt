-- ===== src/Storage.antt =====
-- src/services/in-memory-storage.service.ts: the log entries that are kept in memory while the
-- database is unavailable. The timer is the flag `cleanup_timer`; its callback is `cleanup_old_logs`.
pub mod Bounds
pub mod Order
use activity_tracker_api.Base.{
  ℕ, suc, ◌+◌, ◌-◌, ◌==◌, Bool, true, false, Option, none, some, List, [], ◌∷◌, ◌++◌, ltb,
  if◌then◌else◌, length, filter, drop,
}
use activity_tracker_api.Logs.{ApiLogData}

pub record InMemoryLogStorage : Type 0 where
  pub logs : List ApiLogData
  pub max_size : ℕ
  pub max_age_ms : ℕ
  pub cleanup_timer : Bool

-- The constructor, which starts the timer.
unfoldable pub new_storage : ℕ → ℕ → InMemoryLogStorage
new_storage max_size max_age_ms = record {
  logs = [];
  max_size = max_size;
  max_age_ms = max_age_ms;
  cleanup_timer = true;
}

-- `{ ...log, _storedAt: Date.now() }`.
unfoldable pub stamp : ℕ → ApiLogData → ApiLogData
stamp now log = record log { stored_at = some now }

-- `logs.shift()` when there are more than `maxSize`.
abbrev pub evict : ℕ → List ApiLogData → List ApiLogData
evict max_size logs = if ltb max_size (length logs) then drop 1 logs else logs

unfoldable pub add : ℕ → ApiLogData → InMemoryLogStorage → InMemoryLogStorage
unfolding stamp
add now log s = record s { logs = evict s.max_size (s.logs ++ stamp now log ∷ []) }

-- `logs.forEach((log) => storage.add(log))`.
unfoldable pub add_all : ℕ → List ApiLogData → InMemoryLogStorage → InMemoryLogStorage
unfolding add
add_all now [] s = s
add_all now (log ∷ logs) s = add_all now logs (add now log s)

unfoldable pub flush : InMemoryLogStorage → List ApiLogData × InMemoryLogStorage
flush s = (s.logs, record s { logs = [] })

unfoldable pub size : InMemoryLogStorage → ℕ
size s = length s.logs

unfoldable pub is_empty : InMemoryLogStorage → Bool
is_empty s = length s.logs == 0

unfoldable pub clear : InMemoryLogStorage → InMemoryLogStorage
clear s = record s { logs = [] }

-- `log._storedAt || 0`.
abbrev pub stored_at_or_zero : ApiLogData → ℕ
stored_at_or_zero log = elim log.stored_at [ none ↦ 0 | some t ↦ t ]

-- `now - (log._storedAt || 0) < maxAgeMs`, where the difference may be negative.
unfoldable pub is_fresh : ℕ → ℕ → ApiLogData → Bool
is_fresh now max_age_ms log = ltb now (stored_at_or_zero log + max_age_ms)

unfoldable pub cleanup_old_logs : ℕ → InMemoryLogStorage → InMemoryLogStorage
unfolding is_fresh
cleanup_old_logs now s = record s { logs = filter (is_fresh now s.max_age_ms) s.logs }

unfoldable pub stop : InMemoryLogStorage → InMemoryLogStorage
stop s = if s.cleanup_timer then record s { cleanup_timer = false } else s
