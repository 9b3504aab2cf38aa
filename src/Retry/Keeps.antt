-- ===== src/Retry/Keeps.antt =====
-- What neither an attempt nor a wait changes, a run of src/utils/retry.utils.ts does not change.
use activity_tracker_api.Base.{ℕ, ◌≡◌, ◌∙◌, refl, sym, ap, List, Result}
use activity_tracker_api.Retry.{notify, database_retry_options, with_database_retry}
use activity_tracker_api.Retry.Attempts.{Tries, none_failed, one_failed, with_retry-Ends}

module _ {S A X : Type 0} (f : S → X) (fn : S → Result A × S) (wait : ℕ → S → S)
    (fn_keeps : (s : S) → f (fn s).1 ≡ f s)
    (wait_keeps : (ms : ℕ) (s : S) → f (wait ms s) ≡ f s) where
  failed_attempts_keep :
      {a n : ℕ} {s t : S} {l : List ℕ}
      → Tries (database_retry_options S) fn wait a n s t l
      → f t ≡ f s
  unfolding notify
  failed_attempts_keep none_failed = refl
  failed_attempts_keep {s} (one_failed e s' threw may t) =
      failed_attempts_keep t ∙ wait_keeps _ s' ∙ ap (λ p. f p.1) (sym threw) ∙ fn_keeps s

  pub with_database_retry_keeps : (s : S) → f (with_database_retry fn wait s).state ≡ f s
  unfolding with_database_retry
  with_database_retry_keeps s =
      let x = with_retry-Ends (database_retry_options S) fn wait s in
      ap (λ p. f p.1) (sym x.decided) ∙ fn_keeps x.last ∙ failed_attempts_keep x.tried
