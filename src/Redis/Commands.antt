-- ===== src/Redis/Commands.antt =====
-- The single commands of src/services/redis.service.ts that the cache does not use, and its messages.
use activity_tracker_api.Base.{
  ℕ, ◌==◌, String, Bool, Option, none, some, List, [], ◌∷◌, str_eq, if◌then◌else◌, Result, ok,
  thrown, ◌>>=◌,
}
use activity_tracker_api.Base.Int.{ℤ}
use activity_tracker_api.Http.{is_truthy}
use activity_tracker_api.Redis.{Ioredis, Redis, ensure_connected, write}

-- `Object.entries(...)`, with its pairs put in a row.
abbrev pub flat : List (String × String) → List String
flat [] = []
flat ((key, value) ∷ entries) = key ∷ value ∷ flat entries

module _ (io : Ioredis) where
  open io use {Store}

  -- A read behind the guard.
  abbrev pub read : {A : Type 0} → (ℕ → Store → Result A) → Redis Store → Result A
  read command r = ensure_connected r.service >>= λ c. command c.reader r.store

  unfoldable pub exists : String → Redis Store → Result Bool
  exists key r = read (λ c s. io.exists c key s) r >>= λ found. ok (found == 1)

  unfoldable pub ttl : String → Redis Store → Result ℤ
  ttl key r = read (λ c s. io.ttl c key s) r

  unfoldable pub incr : String → Redis Store → Result ℤ × Redis Store
  incr key r = write io (λ c s. io.incr c key s) r

  unfoldable pub decr : String → Redis Store → Result ℤ × Redis Store
  decr key r = write io (λ c s. io.decr c key s) r

  -- No keys: nothing is asked, whether or not Redis is connected.
  unfoldable pub mget : List String → Redis Store → Result (List (Option String))
  mget [] r = ok []
  mget (key ∷ keys) r = read (λ c s. io.mget c (key ∷ keys) s) r

  unfoldable pub mset : List (String × String) → Redis Store → Result (Unit {0}) × Redis Store
  mset [] r = (ok tt, r)
  mset (entry ∷ entries) r = write io (λ c s. io.mset c (flat (entry ∷ entries)) s) r

  unfoldable pub flush_all : Redis Store → Result (Unit {0}) × Redis Store
  flush_all r = write io (λ c s. io.flushall c s) r

  unfoldable pub info : (section : Option String) → Redis Store → Result String
  info section r = read (λ c s. io.info c (if is_truthy section then section else none) s) r

  unfoldable pub ping : Redis Store → Result String
  ping r = read (λ c s. io.ping c s) r

  unfoldable pub get_write_client : Redis Store → Result ℕ
  get_write_client r = ensure_connected r.service >>= λ c. ok c.writer

  unfoldable pub get_read_client : Redis Store → Result ℕ
  get_read_client r = ensure_connected r.service >>= λ c. ok c.reader

  -- A client of its own listens on the channel.
  unfoldable pub subscribe : (channel : String) → Redis Store → Result ℕ × Redis Store
  subscribe channel r = elim (ensure_connected r.service) [
    | thrown e ↦ (thrown e, r)
    | ok c ↦
        let (subscriber, s₁) = io.duplicate c.reader r.store in
        let (outcome, s₂) = io.subscribe subscriber channel s₁ in
        (outcome >>= λ _. ok subscriber, record r { store = s₂ })
  ]

  -- What is handed to the callback when a message comes in.
  abbrev pub on_message : (channel ch message : String) → Option String
  on_message channel ch message = if str_eq ch channel then some message else none

  unfoldable pub publish : (channel message : String) → Redis Store → Result ℕ × Redis Store
  publish channel message r = write io (λ c s. io.publish c channel message s) r
