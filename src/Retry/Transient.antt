-- ===== src/Retry/Transient.antt =====
-- The two lists of error texts in src/utils/retry.utils.ts: those that are retried, and those that
-- count as transient once the retries are used up.
use activity_tracker_api.Base.{
  ℕ, ◌≡◌, refl, true, String, List, [], ◌∷◌, ◌++◌, Bool, arith, any, codes, starts_with, includes,
  lower, lower_code, Bool-cases, inl, inr, Error,
}
use activity_tracker_api.Retry.{
  mentions, mentions_lower, is_transient_database_error, may_retry, database_retry_options,
  database_retryable_errors, transient_errors,
}

starts_with-append :
    (h s t : List ℕ) → starts_with s t ≡ true → starts_with (h ++ s) (h ++ t) ≡ true
starts_with-append [] s t e = e
starts_with-append (c ∷ h) s t e = ground (arith, starts_with-append h s t)

starts_with-lower : (s t : List ℕ) → starts_with s t ≡ true → starts_with (lower s) (lower t) ≡ true
starts_with-lower [] [] e = refl
starts_with-lower (d ∷ s) [] e = refl
starts_with-lower [] (c ∷ t) e = cc
starts_with-lower (d ∷ s) (c ∷ t) e =
    ground (arith, starts_with-append (lower_code d) (lower s) (lower t), starts_with-lower s t)

includes-append : (h s t : List ℕ) → includes s t ≡ true → includes (h ++ s) t ≡ true
includes-append [] s t e = e
includes-append (c ∷ h) s t e = ground (arith, includes-append h s t)

includes_of_starts_with : (s t : List ℕ) → starts_with s t ≡ true → includes s t ≡ true
includes_of_starts_with [] t e = e
includes_of_starts_with (c ∷ s) t e = rw e

includes-lower : (s t : List ℕ) → includes s t ≡ true → includes (lower s) (lower t) ≡ true
includes-lower [] [] e = refl
includes-lower [] (c ∷ t) e = cc
includes-lower (c ∷ s) t e = elim (Bool-cases (starts_with (c ∷ s) t)) [
  | inl here ↦ includes_of_starts_with (lower (c ∷ s)) (lower t) (starts_with-lower (c ∷ s) t here)
  | inr later ↦
      includes-append (lower_code c) (lower s) (lower t) (includes-lower s t (rw later at e))
]

mentions-lower : (e : Error) (t : String) → mentions e t ≡ true → mentions_lower e t ≡ true
unfolding mentions mentions_lower
mentions-lower e t h =
    ground
      (arith, includes-lower (codes e.message) (codes t), includes-lower (codes e.name) (codes t))

any_mono :
    {A : Type 0} (p q : A → Bool) (xs : List A)
    → ((x : A) → p x ≡ true → q x ≡ true)
    → any p xs ≡ true
    → any q xs ≡ true
any_mono p q [] h e = e
any_mono p q (x ∷ xs) h e = ground (arith, h x, any_mono p q xs h)

any-transient_errors :
    (p : String → Bool) → any p database_retryable_errors ≡ true → any p transient_errors ≡ true
any-transient_errors p e = ground arith

-- Every error that `withDatabaseRetry` would retry counts as transient, although it is compared
-- with case there and without case here; so once its retries are used up, the caller sees a
-- transient error.
retryable_is_transient :
    (S : Type 0) (e : Error)
    → may_retry (database_retry_options S) e ≡ true
    → is_transient_database_error e ≡ true
unfolding may_retry is_transient_database_error
retryable_is_transient S e h =
    any-transient_errors (mentions_lower e)
      (any_mono (mentions e) (mentions_lower e) database_retryable_errors (mentions-lower e) h)
