-- ===== src/Storage/Bounds.antt =====
-- The bound on the entries of src/services/in-memory-storage.service.ts.
use activity_tracker_api.Base.{
  ℕ, ◌+◌, ◌≤◌, ◌≡◌, refl, List, [], ◌∷◌, ◌++◌, arith, length, length-append, length-drop, min,
}
use activity_tracker_api.Logs.{ApiLogData}
use activity_tracker_api.Storage.{InMemoryLogStorage, stamp, add, add_all, size}

-- There are never more entries than the storage may hold.
abbrev pub IsBounded : InMemoryLogStorage → Type 0
IsBounded s = length s.logs ≤ s.max_size

length-add :
    (now : ℕ) (log : ApiLogData) (s : InMemoryLogStorage)
    → IsBounded s
    → length (add now log s).logs ≡ min (length s.logs + 1) s.max_size
unfolding add
length-add now log s h =
    ground (
      arith,
      length-append s.logs (stamp now log ∷ []),
      length-drop 1 (s.logs ++ stamp now log ∷ []),
    )

pub add-max_size :
    (now : ℕ) (log : ApiLogData) (s : InMemoryLogStorage) → (add now log s).max_size ≡ s.max_size
unfolding add
add-max_size now log s = refl

pub add-IsBounded :
    (now : ℕ) (log : ApiLogData) (s : InMemoryLogStorage) → IsBounded s → IsBounded (add now log s)
add-IsBounded now log s h = omega (arith, length-add now log s h, add-max_size now log s)

pub add_all-max_size :
    (now : ℕ) (logs : List ApiLogData) (s : InMemoryLogStorage)
    → (add_all now logs s).max_size ≡ s.max_size
unfolding add_all add
add_all-max_size now [] s = refl
add_all-max_size now (log ∷ logs) s = add_all-max_size now logs (add now log s)

-- Adding a list of entries to a storage within its bound keeps it there: it then holds its old
-- entries and the new ones, or as many as it may hold if that is less.
pub length-add_all :
    (now : ℕ) (logs : List ApiLogData) (s : InMemoryLogStorage)
    → IsBounded s
    → IsBounded (add_all now logs s)
      × (size (add_all now logs s) ≡ min (size s + length logs) s.max_size)
unfolding add_all size
length-add_all now [] s h = (h, omega arith)
length-add_all now (log ∷ logs) s h =
    let ih = length-add_all now logs (add now log s) (add-IsBounded now log s h) in
    (ih.0, omega (arith, ih.1, length-add now log s h, add-max_size now log s))
