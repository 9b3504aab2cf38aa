-- ===== src/Retry/Attempts.antt =====
-- Which attempts a run of src/utils/retry.utils.ts makes, and how it ends.
use activity_tracker_api.Base.{
  ℕ, zero, suc, ◌+◌, ◌≤◌, ◌<◌, ◌≡◌, subst, ap, ◌⊎◌, inl, inr, true, false, List, [], ◌∷◌, arith,
  ltb, Bool-cases, Result-cases, Error, Result, ok, thrown, ltb→lt, ltb→ge, ge→ltb,
}
use activity_tracker_api.Retry.{
  RetryOptions, Run, may_retry, backoff, notify, retry_from, with_retry, unset,
}

module _ {S A : Type 0} (o : RetryOptions S) (fn : S → Result A × S) (wait : ℕ → S → S) where
  -- `Tries a n s t l`: from `s` on, `n` attempts from number `a` on all throw an error that may be
  -- retried, are each followed by the callback and the wait, and lead to `t`; `l` are the waits.
  pub data Tries : ℕ → ℕ → S → S → List ℕ → Type 0 where
    none_failed : {a : ℕ} {s : S} → Tries a 0 s s []
    one_failed :
        {a n : ℕ} {s t : S} {l : List ℕ} (e : Error) (s' : S)
        → fn s ≡ (thrown e, s')
        → may_retry o e ≡ true
        → Tries (suc a) n (wait (backoff o a) (notify o e a s')) t l
        → Tries a (suc n) s t (backoff o a ∷ l)

  -- Why attempt number `a` was the last one.
  abbrev pub IsFinal : ℕ → Result A → Type 0
  IsFinal a (ok v) = Unit
  IsFinal a (thrown e) = (o.max_retries < a) ⊎ (may_retry o e ≡ false)

  -- A run from attempt `a` on: some attempts fail and are retried, and the next one decides.
  pub record Ends (a : ℕ) (s : S) (r : Run S A) : Type 0 where
    pub retries : ℕ
    pub last : S
    pub tried : Tries a retries s last r.delays
    pub decided : fn last ≡ (r.outcome, r.state)
    pub bounded : a + retries ≤ suc o.max_retries
    pub final : IsFinal (a + retries) r.outcome

  stop-Ends :
      (a : ℕ) (s s' : S) (v : Result A)
      → a ≤ suc o.max_retries
      → fn s ≡ (v, s')
      → IsFinal a v
      → Ends a s (record { outcome = v; state = s'; delays = [] })
  stop-Ends a s s' v h e f = record {
    retries = 0;
    last = s;
    tried = none_failed;
    decided = e;
    bounded = omega arith;
    final = subst (λ k. IsFinal k v) (omega arith) f;
  }

  again-Ends :
      (a : ℕ) (s s' : S) (e : Error) (r : Run S A)
      → fn s ≡ (thrown e, s')
      → may_retry o e ≡ true
      → Ends (suc a) (wait (backoff o a) (notify o e a s')) r
      → Ends a s (record r { delays = backoff o a ∷ r.delays })
  again-Ends a s s' e r threw may x = record {
    retries = suc x.retries;
    last = x.last;
    tried = one_failed e s' threw may x.tried;
    decided = x.decided;
    bounded = omega arith;
    final = subst (λ k. IsFinal k r.outcome) (omega arith) x.final;
  }

  pub retry_from-Ends :
      (rounds a : ℕ) (last : Error) (s : S)
      → rounds + a ≡ suc (suc o.max_retries)
      → a ≤ suc o.max_retries
      → Ends a s (retry_from o fn wait rounds a last s)
  unfolding retry_from
  retry_from-Ends zero a last s h p = absurd (omega arith)
  retry_from-Ends (suc rounds) a last s h p = elim (Result-cases (fn s).0) [
    | inl (v, e) ↦
        let threw : fn s ≡ (ok v, (fn s).1) = ground arith in
        rw (e, retry_from) (stop-Ends a s (fn s).1 (ok v) p threw tt)
    | inr (err, e) ↦
        let threw : fn s ≡ (thrown err, (fn s).1) = ground arith in
        elim (Bool-cases (ltb o.max_retries a)) [
          | inl over ↦
              rw (e, over, retry_from)
                (stop-Ends a s (fn s).1 (thrown err) p threw (inl (ltb→lt _ _ over)))
          | inr within ↦ elim (Bool-cases (may_retry o err)) [
            | inl may ↦
                rw (e, within, may, retry_from)
                  (again-Ends a s (fn s).1 err _ threw may (
                    retry_from-Ends rounds (suc a) err _ (omega arith)
                      (omega (arith, ltb→ge _ _ within))))
            | inr never ↦
                rw (e, within, never, retry_from)
                  (stop-Ends a s (fn s).1 (thrown err) p threw (inr never))
          ]
        ]
  ]

  -- `withRetry` always ends: some number of attempts, none if the first one decides, throw errors
  -- that may be retried, each followed by the callback and the wait of its delay; the next
  -- attempt's outcome and state are the run's, it has a number of at most `maxRetries + 1`, and
  -- either it returned, or it was attempt `maxRetries + 1`, or its error may not be retried.
  pub with_retry-Ends : (s : S) → Ends 1 s (with_retry o fn wait s)
  unfolding with_retry
  with_retry-Ends s = retry_from-Ends (suc o.max_retries) 1 unset s (omega arith) (omega arith)

  retry_from_returns :
      (rounds a n : ℕ) (last : Error) {s t : S} {l : List ℕ} (v : A) (s' : S)
      → rounds + a ≡ suc (suc o.max_retries)
      → a + n ≤ suc o.max_retries
      → Tries a n s t l
      → fn t ≡ (ok v, s')
      → retry_from o fn wait rounds a last s ≡ record { outcome = ok v; state = s'; delays = l }
  unfolding retry_from
  retry_from_returns zero a n last v s' h p t e = absurd (omega arith)
  retry_from_returns (suc rounds) a zero last v s' h p none_failed e = rw (e, retry_from) (rw e)
  retry_from_returns (suc rounds) a (suc n) last v s' h p (one_failed err u threw may t) e =
      rw (threw, ge→ltb o.max_retries a (omega arith), may, retry_from)
        (rw threw (
          ap (λ (r : Run S A). record r { delays = backoff o a ∷ r.delays })
            (retry_from_returns rounds (suc a) n err v s' (omega arith) (omega arith) t e)))

  -- If at most `maxRetries` attempts throw errors that may be retried, and the next one returns,
  -- then the run returns its value, and has slept exactly the delays of the failed attempts.
  pub with_retry_recovers :
      (n : ℕ) {s t : S} {l : List ℕ} (v : A) (s' : S)
      → n ≤ o.max_retries
      → Tries 1 n s t l
      → fn t ≡ (ok v, s')
      → with_retry o fn wait s ≡ record { outcome = ok v; state = s'; delays = l }
  unfolding with_retry
  with_retry_recovers n v s' h t e =
      retry_from_returns (suc o.max_retries) 1 n unset v s' (omega arith) (omega arith) t e
