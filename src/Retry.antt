-- ===== src/Retry.antt =====
-- src/utils/retry.utils.ts: retrying with exponential backoff, and which database errors are
-- transient. An asynchronous function is a state transformer that returns or throws; `wait` is
-- what the rest of the world does while `sleep` runs.
pub mod Attempts
pub mod Delays
pub mod Transient
pub mod Keeps
use activity_tracker_api.Base.{
  ℕ, zero, suc, ◌+◌, ◌-◌, ◌*◌, ◌^◌, min, String, Bool, true, false, ◌||◌, Option, none, some, List,
  [], ◌∷◌, map, ltb, if◌then◌else◌, length, any, codes, includes, lower, Error, Result, ok, thrown,
}

pub record RetryOptions (S : Type 0) : Type 0 where
  pub max_retries : ℕ
  pub base_delay_ms : ℕ
  pub max_delay_ms : ℕ
  pub retryable_errors : List String
  pub on_retry : Option (Error → ℕ → S → S)

-- What a run returns or throws, the state that it leaves, and the delays that it slept.
pub record Run (S A : Type 0) : Type 0 where
  pub outcome : Result A
  pub state : S
  pub delays : List ℕ

-- `error.message.includes(text) || error.name.includes(text)`.
unfoldable pub mentions : Error → String → Bool
mentions e text = includes (codes e.message) (codes text) || includes (codes e.name) (codes text)

-- The same after `toLowerCase` on both sides.
unfoldable pub mentions_lower : Error → String → Bool
mentions_lower e text =
    includes (lower (codes e.message)) (lower (codes text))
    || includes (lower (codes e.name)) (lower (codes text))

-- What the thrown value is before any attempt was made: `undefined`.
abbrev unset : Error
unset = record { name = ""; message = "undefined" }

module _ {S : Type 0} (o : RetryOptions S) where
  -- An empty list of retryable errors lets every error be retried.
  unfoldable pub may_retry : Error → Bool
  unfolding mentions
  may_retry e =
      if ltb 0 (length o.retryable_errors) then any (mentions e) o.retryable_errors else true

  unfoldable pub backoff : ℕ → ℕ
  backoff attempt = min (o.base_delay_ms * 2 ^ (attempt - 1)) o.max_delay_ms

  unfoldable pub notify : Error → ℕ → S → S
  notify e attempt s = elim o.on_retry [ none ↦ s | some callback ↦ callback e attempt s ]

module _ {S A : Type 0} (o : RetryOptions S) (fn : S → Result A × S) (wait : ℕ → S → S) where
  -- The `for` loop; `rounds` is what is left of `maxRetries + 1`.
  unfoldable pub retry_from : (rounds attempt : ℕ) → Error → S → Run S A
  unfolding may_retry backoff notify
  retry_from zero attempt last s = record { outcome = thrown last; state = s; delays = [] }
  retry_from (suc rounds) attempt last s =
      let (r, s') = fn s in
      elim r [
        | ok a ↦ record { outcome = ok a; state = s'; delays = [] }
        | thrown e ↦
            let stop : Run S A = record { outcome = thrown e; state = s'; delays = [] } in
            let delay = backoff o attempt in
            let again : Run S A =
              (let rest = retry_from rounds (suc attempt) e (wait delay (notify o e attempt s')) in
                record rest { delays = delay ∷ rest.delays }) in
            if ltb o.max_retries attempt then stop else if may_retry o e then again else stop
      ]

  unfoldable pub with_retry : S → Run S A
  unfolding retry_from
  with_retry s = retry_from (suc o.max_retries) 1 unset s

abbrev pub transient_errors : List String
transient_errors =
    "ECONNREFUSED" ∷ "ETIMEDOUT" ∷ "ENOTFOUND" ∷ "EHOSTUNREACH" ∷ "connection timeout"
    ∷ "connection lost" ∷ "deadlock" ∷ "lock timeout" ∷ "too many connections" ∷ "QueryFailedError"
    ∷ []

unfoldable pub is_transient_database_error : Error → Bool
unfolding mentions_lower
is_transient_database_error e = any (mentions_lower e) transient_errors

abbrev pub database_retryable_errors : List String
database_retryable_errors =
    "ECONNREFUSED" ∷ "ETIMEDOUT" ∷ "ENOTFOUND" ∷ "EHOSTUNREACH" ∷ "connection timeout"
    ∷ "connection lost" ∷ "deadlock" ∷ "lock timeout" ∷ "QueryFailedError" ∷ []

-- The `onRetry` of `withDatabaseRetry` only logs.
abbrev pub database_retry_options : (S : Type 0) → RetryOptions S
database_retry_options S = record {
  max_retries = 3;
  base_delay_ms = 200;
  max_delay_ms = 5000;
  retryable_errors = database_retryable_errors;
  on_retry = some (λ _ _ s. s);
}

unfoldable pub with_database_retry : {S A : Type 0} → (S → Result A × S) → (ℕ → S → S) → S → Run S A
unfolding with_retry
with_database_retry {S} fn wait s = with_retry (database_retry_options S) fn wait s
