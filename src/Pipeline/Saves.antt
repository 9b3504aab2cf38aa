-- ===== src/Pipeline/Saves.antt =====
-- What a retried save of src/repositories/api-log.repository.ts does to the table.
use activity_tracker_api.Base.{
  ℕ, ◌≡◌, refl, sym, ◌∙◌, ap, inl, inr, List, ◌++◌, map, Error, Result, ok, thrown, Result-cases,
}
use activity_tracker_api.Logs.{ApiLogData, ApiLog, to_entity}
use activity_tracker_api.Retry.{notify, Run, database_retry_options}
use activity_tracker_api.Retry.Attempts.{Tries, none_failed, one_failed, Ends, with_retry-Ends}
use activity_tracker_api.Pipeline.{Database, save_logs, retry_save}

module _ (d : Database) where
  open d use {World, now, rows, save, sleep, save_ok, save_thrown, sleep_rows}

  -- The run of a retried save: it throws and has inserted nothing, or it returns and has inserted
  -- each entry once, in order, all with one time.
  pub data Saved (logs : List ApiLogData) (w : World) : Run World (Unit {0}) → Type 0 where
    inserted :
        (r : Run World (Unit {0})) (t : ℕ)
        → r.outcome ≡ ok tt
        → rows r.state ≡ rows w ++ map (to_entity t) logs
        → Saved logs w r
    refused :
        (r : Run World (Unit {0})) (e : Error)
        → r.outcome ≡ thrown e
        → rows r.state ≡ rows w
        → Saved logs w r

  saved-rows :
      (logs : List ApiLogData) (w w' : World)
      → save_logs d logs w ≡ (ok tt, w')
      → rows w' ≡ rows w ++ map (to_entity (now w)) logs
  unfolding save_logs
  saved-rows logs w w' e =
      ap (λ p. rows p.1) (sym e) ∙ save_ok (map (to_entity (now w)) logs) w (ap (λ p. p.0) e)

  failed-rows :
      (logs : List ApiLogData) (w w' : World) (x : Error)
      → save_logs d logs w ≡ (thrown x, w')
      → rows w' ≡ rows w
  unfolding save_logs
  failed-rows logs w w' x e =
      ap (λ p. rows p.1) (sym e) ∙ save_thrown (map (to_entity (now w)) logs) w x (ap (λ p. p.0) e)

  Tries-rows :
      (logs : List ApiLogData) {a n : ℕ} {s t : World} {l : List ℕ}
      → Tries (database_retry_options World) (save_logs d logs) sleep a n s t l
      → rows t ≡ rows s
  unfolding notify
  Tries-rows logs none_failed = refl
  Tries-rows logs {s} (one_failed e s' threw may t) =
      Tries-rows logs t ∙ sleep_rows _ s' ∙ failed-rows logs s s' e threw

  Ends-Saved :
      (logs : List ApiLogData) (w : World) (r : Run World (Unit {0}))
      → Ends (database_retry_options World) (save_logs d logs) sleep 1 w r
      → Saved logs w r
  Ends-Saved logs w r x = elim (Result-cases r.outcome) [
    | inl (u, e) ↦ inserted r (now x.last) e (
        saved-rows logs x.last r.state (x.decided ∙ ap (λ o. (o, r.state)) e)
        ∙ ap (λ l. l ++ map (to_entity (now x.last)) logs) (Tries-rows logs x.tried))
    | inr (err, e) ↦ refused r err e (
        failed-rows logs x.last r.state err (x.decided ∙ ap (λ o. (o, r.state)) e)
        ∙ Tries-rows logs x.tried)
  ]

  -- `withDatabaseRetry` around a save inserts the entries once and together, or not at all.
  pub retry_save-Saved : (logs : List ApiLogData) (w : World) → Saved logs w (retry_save d logs w)
  unfolding retry_save
  retry_save-Saved logs w =
      Ends-Saved logs w _
        (with_retry-Ends (database_retry_options World) (save_logs d logs) sleep w)

  -- Whatever one save always answers, the retried save answers too.
  pub retry_save-outcome :
      (logs : List ApiLogData) (w : World) (v : Result (Unit {0}))
      → ((es : List ApiLog) (u : World) → (save es u).0 ≡ v)
      → (retry_save d logs w).outcome ≡ v
  unfolding retry_save save_logs
  retry_save-outcome logs w v always =
      let x = with_retry-Ends (database_retry_options World) (save_logs d logs) sleep w in
      sym (ap (λ q. q.0) x.decided) ∙ always (map (to_entity (now x.last)) logs) x.last
