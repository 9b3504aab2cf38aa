-- ===== src/Retry/Delays.antt =====
-- The delays of src/utils/retry.utils.ts: exponential in the attempt's number, up to a maximum.
use mathlib.Core.Option.{some-injective}
use activity_tracker_api.Base.{
  ℕ, zero, suc, ◌+◌, ◌*◌, ◌^◌, ◌≤◌, min, ◌≡◌, sym, ap, ◌∙◌, some, List, arith, length, get_elem?,
  Result,
}
use activity_tracker_api.Retry.{RetryOptions, backoff, with_retry}
use activity_tracker_api.Retry.Attempts.{Tries, none_failed, one_failed, with_retry-Ends}

module _ {S A : Type 0} (o : RetryOptions S) (fn : S → Result A × S) (wait : ℕ → S → S) where
  length-Tries : {a n : ℕ} {s t : S} {l : List ℕ} → Tries o fn wait a n s t l → length l ≡ n
  length-Tries none_failed = omega arith
  length-Tries (one_failed e s' threw may t) = omega (arith, length-Tries t)

  nth-Tries :
      {a n : ℕ} {s t : S} {l : List ℕ} (i : ℕ) {d : ℕ}
      → Tries o fn wait (suc a) n s t l
      → get_elem? l i ≡ some d
      → d ≡ min (o.base_delay_ms * 2 ^ (a + i)) o.max_delay_ms
  unfolding backoff
  nth-Tries i none_failed e = cc
  nth-Tries {a} zero (one_failed x s' threw may t) e =
      sym (some-injective _ _ e)
      ∙ ap (λ k. min (o.base_delay_ms * 2 ^ k) o.max_delay_ms) (omega arith)
  nth-Tries {a} (suc i) (one_failed x s' threw may t) e =
      nth-Tries i t e ∙ ap (λ k. min (o.base_delay_ms * 2 ^ k) o.max_delay_ms) (omega arith)

  -- Delay number `i`, from 0, is the base delay times `2 ^ i`, or the maximum if that is less; and
  -- a run sleeps at most `maxRetries` times.
  with_retry_delays :
      (s : S) (i d : ℕ)
      → get_elem? (with_retry o fn wait s).delays i ≡ some d
      → (d ≡ min (o.base_delay_ms * 2 ^ i) o.max_delay_ms)
        × (length (with_retry o fn wait s).delays ≤ o.max_retries)
  with_retry_delays s i d e =
      let x = with_retry-Ends o fn wait s in
      (
        nth-Tries i x.tried e
            ∙ ap (λ k. min (o.base_delay_ms * 2 ^ k) o.max_delay_ms) (omega arith),
        omega (arith, x.bounded, length-Tries x.tried),
      )
