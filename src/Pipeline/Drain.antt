-- ===== src/Pipeline/Drain.antt =====
-- How `stopBatchProcessor` of src/repositories/api-log.repository.ts empties the queue and the
-- in-memory storage when the database is up.
use mathlib.Core.Path.{ap₂}
use activity_tracker_api.Base.{
  empty_of_length, ℕ, ◌==◌, ◌≡◌, refl, ◌∙◌, sym, ap, subst, true, false, inl, inr, List, [], ◌∷◌,
  ◌++◌, map, arith, ltb, length, Bool-cases, ok, append_assoc, append-nil, ◌<◌, ltb→lt,
}
use activity_tracker_api.Logs.{ApiLogData, ApiLog, to_entity}
use activity_tracker_api.Retry.{Run}
use activity_tracker_api.Storage.{InMemoryLogStorage, is_empty, stop}
use activity_tracker_api.Pipeline.{
  Database, State, retry_save, begin_flush_memory, finish_flush_memory, finish_flush,
}
use activity_tracker_api.Pipeline.Machine.{
  flush_batch, flush_memory, flush_remaining, clear_batch_timer, stop_batch_processor,
}
use activity_tracker_api.Pipeline.Flush.{flush_batch-no_logs, flush_batch-some_logs}
use activity_tracker_api.Pipeline.Reach.{stop-logs}
use activity_tracker_api.Pipeline.Saves.{
  Saved, inserted, refused, retry_save-Saved, retry_save-outcome,
}

stop-cleanup_timer : (s : InMemoryLogStorage) → (stop s).cleanup_timer ≡ false
unfolding stop
stop-cleanup_timer s = ground arith

module _ (d : Database)
    (up : (es : List ApiLog) (w : Database.World d) → (Database.save d es w).0 ≡ ok tt) where
  open d use {World, now, rows, save}

  Saved-rows :
      (logs : List ApiLogData) (w : World) (r : Run World (Unit {0}))
      → Saved d logs w r
      → r.outcome ≡ ok tt
      → (t : ℕ) × (rows r.state ≡ rows w ++ map (to_entity t) logs)
  Saved-rows logs w r (inserted _ t e h) o = (t, h)
  Saved-rows logs w r (refused _ x e h) o = cc

  retry_save-rows :
      (logs : List ApiLogData) (w : World)
      → (t : ℕ) × (rows (retry_save d logs w).state ≡ rows w ++ map (to_entity t) logs)
  retry_save-rows logs w =
      Saved-rows logs w _ (retry_save-Saved d logs w) (retry_save-outcome d logs w (ok tt) up)

  finish_flush-up :
      (batch : List ApiLogData) (s : State World)
      → finish_flush d batch s ≡ record s { world = (retry_save d batch s.world).state }
  unfolding finish_flush
  finish_flush-up batch s = rw (retry_save-outcome d batch s.world (ok tt) up, finish_flush)

  finish_flush_memory-up :
      (logs : List ApiLogData) (s : State World)
      → (length logs == 0) ≡ false
      → finish_flush_memory d logs s ≡ record s { world = (retry_save d logs s.world).state }
  unfolding finish_flush_memory
  finish_flush_memory-up [] s h = ground arith
  finish_flush_memory-up (log ∷ logs) s h =
      rw (retry_save-outcome d (log ∷ logs) s.world (ok tt) up, finish_flush_memory)

  -- From `s` to `s'` all entries have gone to the table: those in memory first, then the queue.
  abbrev pub IsDrained : State World → State World → Type 0
  IsDrained s s' =
      (t u : ℕ) × (rows s'.world
        ≡ rows s.world ++ (map (to_entity t) s.memory.logs ++ map (to_entity u) s.batch_queue))
      × (s'.batch_queue ≡ [])
      × (s'.memory.logs ≡ [])

  -- The same, and the timer of the queue is as it was.
  abbrev DrainsAll : State World → State World → Type 0
  DrainsAll s s' =
      (t u : ℕ) × (rows s'.world
        ≡ rows s.world ++ (map (to_entity t) s.memory.logs ++ map (to_entity u) s.batch_queue))
      × (s'.batch_queue ≡ [])
      × (s'.memory.logs ≡ [])
      × (s'.batch_timer ≡ s.batch_timer)

  flush_batch-DrainsAll :
      (s : State World) → 0 < length s.batch_queue → DrainsAll s (flush_batch d s)
  unfolding is_empty
  flush_batch-DrainsAll s q = elim (Bool-cases (is_empty s.memory)) [
    | inl no_logs ↦
        let s₀ : State World = record s { batch_queue = [] } in
        let same = flush_batch-no_logs d s q no_logs ∙ finish_flush-up s.batch_queue s₀ in
        let nil : s.memory.logs ≡ [] = empty_of_length s.memory.logs no_logs in
        let (u, saved) = retry_save-rows s.batch_queue s.world in
        (
          0,
          u,
          ap (λ x. rows x.world) same
              ∙ saved
              ∙ ap (λ l. rows s.world ++ (l ++ map (to_entity u) s.batch_queue))
                  (sym (ap (map (to_entity 0)) nil)),
          ap (λ x. x.batch_queue) same,
          ap (λ x. x.memory.logs) same ∙ nil,
          ap (λ x. x.batch_timer) same,
        )
    | inr some_logs ↦
        let s₀ : State World = record s {
          batch_queue = [];
          memory = record s.memory { logs = [] };
        } in
        let s₁ : State World = record s₀ { world = (retry_save d s.memory.logs s.world).state } in
        let same =
          flush_batch-some_logs d s q some_logs
          ∙ ap (finish_flush d s.batch_queue) (finish_flush_memory-up s.memory.logs s₀ some_logs)
          ∙ finish_flush-up s.batch_queue s₁ in
        let (t, first) = retry_save-rows s.memory.logs s.world in
        let (u, second) = retry_save-rows s.batch_queue s₁.world in
        (
          t,
          u,
          ap (λ x. rows x.world) same
              ∙ second
              ∙ ap (λ l. l ++ map (to_entity u) s.batch_queue) first
              ∙ append_assoc (rows s.world) (map (to_entity t) s.memory.logs)
                  (map (to_entity u) s.batch_queue),
          ap (λ x. x.batch_queue) same,
          ap (λ x. x.memory.logs) same,
          ap (λ x. x.batch_timer) same,
        )
  ]

  flush_memory-empty : (s : State World) → s.memory.logs ≡ [] → flush_memory d s ≡ s
  unfolding flush_memory is_empty
  flush_memory-empty s nil = let e : (length s.memory.logs == 0) ≡ true = rw nil refl in rw e

  flush_memory-DrainsAll : (s : State World) → s.batch_queue ≡ [] → DrainsAll s (flush_memory d s)
  unfolding flush_memory is_empty begin_flush_memory
  flush_memory-DrainsAll s q = elim (Bool-cases (is_empty s.memory)) [
    | inl no_logs ↦
        let nil : s.memory.logs ≡ [] = empty_of_length s.memory.logs no_logs in
        let same = flush_memory-empty s nil in
        (
          0,
          0,
          ap (λ x. rows x.world) same
              ∙ sym (append-nil (rows s.world))
              ∙ ap₂ (λ l k. rows s.world ++ (map (to_entity 0) l ++ map (to_entity 0) k)) (sym nil)
                  (sym q),
          ap (λ x. x.batch_queue) same ∙ q,
          ap (λ x. x.memory.logs) same ∙ nil,
          ap (λ x. x.batch_timer) same,
        )
    | inr some_logs ↦
        let s₀ : State World = record s { memory = record s.memory { logs = [] } } in
        let same : flush_memory d s
            ≡ record s₀ { world = (retry_save d s.memory.logs s.world).state } =
          (rw some_logs (finish_flush_memory-up s.memory.logs s₀ some_logs)) in
        let (t, saved) = retry_save-rows s.memory.logs s.world in
        (
          t,
          0,
          ap (λ x. rows x.world) same
              ∙ saved
              ∙ ap (λ l. rows s.world ++ l) (sym (append-nil (map (to_entity t) s.memory.logs)))
              ∙ ap (λ k. rows s.world ++ (map (to_entity t) s.memory.logs ++ map (to_entity 0) k))
                  (sym q),
          ap (λ x. x.batch_queue) same ∙ q,
          ap (λ x. x.memory.logs) same,
          ap (λ x. x.batch_timer) same,
        )
  ]

  flush_rest-DrainsAll : (s : State World) → DrainsAll s (flush_memory d (flush_remaining d s))
  unfolding flush_remaining
  flush_rest-DrainsAll s = elim (Bool-cases (ltb 0 (length s.batch_queue))) [
    | inl queued ↦
        let x = flush_batch-DrainsAll s (ltb→lt _ _ queued) in
        let same : flush_memory d (flush_remaining d s) ≡ flush_batch d s =
          rw queued (flush_memory-empty (flush_batch d s) x.4) in
        subst (DrainsAll s) (sym same) x
    | inr idle ↦ rw idle (flush_memory-DrainsAll s (empty_of_length s.batch_queue (ground arith)))
  ]

  -- If every save succeeds and no other call comes in while it waits, `stopBatchProcessor` leaves the
  -- queue and the in-memory storage empty: the table has got the entries of the storage and then
  -- those of the queue, each once and in order, and both timers are stopped.
  pub stop_batch_processor-IsDrained :
      (s : State World)
      → IsDrained s (stop_batch_processor d s)
        × ((stop_batch_processor d s).batch_timer ≡ false)
        × ((stop_batch_processor d s).memory.cleanup_timer ≡ false)
  unfolding stop_batch_processor clear_batch_timer
  stop_batch_processor-IsDrained s =
      let s₀ : State World = record s { batch_timer = false } in
      let (t, u, saved, queue, logs, timer) = flush_rest-DrainsAll s₀ in
      ((t, u, saved, queue, stop-logs _ ∙ logs), timer, stop-cleanup_timer _)
