-- ===== src/Redis/Connection.antt =====
-- What src/services/redis.service.ts does when connections close, come back and are given up.
use activity_tracker_api.Base.{
  ap, ◌∙◌, sym, Result, ◌==◌, true, ℕ, zero, suc, leb, leb→le, if◌then◌else◌, Bool-cases, ◌⊎◌, inl,
  inr, min, ◌-◌, ◌*◌, ◌^◌, ◌≤◌, ◌≡◌, refl, String, false, none, some, List, [], ◌∷◌, arith, Error,
  ok, thrown,
}
use activity_tracker_api.Base.Int.{ℤ}
use activity_tracker_api.Redis.Connecting.{
  RedisEnv, build_config, wait_for_connection, wait_both, with_clients, connected, connect,
  connect_directly,
}
use activity_tracker_api.Redis.{
  RedisService, Ioredis, Redis, Event, connect_event, ready_event, error_event, close_event,
  reconnecting_event, handle, not_connected, ensure_connected, retry_strategy, get, set, write,
  incr_by, expire, del, disconnect, quit_client, writer_gone, reader_gone,
}

-- The handlers of the events that a client emits, in order.
unfoldable pub handle_all : List Event → RedisService → RedisService
handle_all [] r = r
handle_all (e ∷ es) r = handle_all es (handle e r)

handle-down :
    (e : Event) (r : RedisService) → r.is_connected ≡ false → (handle e r).is_connected ≡ false
unfolding handle
handle-down connect_event r h = h
handle-down ready_event r h = h
handle-down (error_event e) r h = h
handle-down close_event r h = refl
handle-down (reconnecting_event delay) r h = h

handle_all-down :
    (es : List Event) (r : RedisService)
    → r.is_connected ≡ false
    → (handle_all es r).is_connected ≡ false
unfolding handle_all
handle_all-down [] r h = h
handle_all-down (e ∷ es) r h = handle_all-down es (handle e r) (handle-down e r h)

ensure_connected-down :
    (r : RedisService) → r.is_connected ≡ false → ensure_connected r ≡ thrown not_connected
unfolding ensure_connected
ensure_connected-down r h = rw h refl

module _ (io : Ioredis) where
  open io use {Store}

  -- While the service takes itself for disconnected, each of these throws, and no write is sent.
  pub operations-down :
      (r : Redis Store) (key value : String) (ttl : ℤ) (seconds amount : ℕ)
      → r.service.is_connected ≡ false
      → (get io key r ≡ thrown not_connected)
        × (set io key value ttl r ≡ (thrown not_connected, r))
        × (incr_by io key amount r ≡ (thrown not_connected, r))
        × (expire io key seconds r ≡ (thrown not_connected, r))
        × (del io key r ≡ (thrown not_connected, r))
  unfolding get set incr_by expire del
  operations-down r key value ttl seconds amount h =
      let off = ensure_connected-down r.service h in
      (
        rw (off, get) refl,
        rw (off, set, write) refl,
        rw (off, incr_by, write) refl,
        rw (off, expire, write) refl,
        rw (off, del, write) refl,
      )

  -- A call of `connect` throws, or the service takes itself for connected.
  connect-connected :
      (p : Result (Unit {0}) × Redis Store)
      → ((e : Error) × ((connected io p).0 ≡ thrown e))
        ⊎ (((connected io p).0 ≡ ok tt) × ((connected io p).1.service.is_connected ≡ true))
  connect-connected (thrown e, r) = inl (e, refl)
  connect-connected (ok _, r) = inr (refl, refl)

  -- Once a connection has closed, whatever events follow, `ready` included: get, set, incrBy, expire and
  -- del throw that Redis is not connected, and the writes among them send nothing. A later call of
  -- `connect` throws, or the service takes itself for connected again.
  pub closed_stays_down :
      (es : List Event) (r : RedisService) (s : Store) (env : RedisEnv) (key value : String)
      (ttl : ℤ) (seconds amount : ℕ)
      → let after : Redis Store = record { service = handle_all (close_event ∷ es) r; store = s } in
        (get io key after ≡ thrown not_connected)
        × (set io key value ttl after ≡ (thrown not_connected, after))
        × (incr_by io key amount after ≡ (thrown not_connected, after))
        × (expire io key seconds after ≡ (thrown not_connected, after))
        × (del io key after ≡ (thrown not_connected, after))
        × (((e : Error) × ((connect io env after).0 ≡ thrown e))
            ⊎ (((connect io env after).0 ≡ ok tt)
                × ((connect io env after).1.service.is_connected ≡ true)))
  unfolding handle_all handle connect
  closed_stays_down es r s env key value ttl seconds amount =
      let after : Redis Store = record { service = handle_all (close_event ∷ es) r; store = s } in
      let (a, b, c, d, e) =
        operations-down after key value ttl seconds amount
          (handle_all-down es (record r { is_connected = false }) refl) in
      (a, b, c, d, e, connect-connected _)

  -- With one client for reads and writes, `disconnect` quits it twice: where a client that has quit
  -- refuses the command, `disconnect` throws, and keeps that client for reads.
  disconnect-shared :
      (r : Redis Store) (c : ℕ) (e : Error)
      → r.service.write_client ≡ some c
      → r.service.read_client ≡ some c
      → (io.quit c r.store).0 ≡ ok tt
      → (io.quit c (io.quit c r.store).1).0 ≡ thrown e
      → ((disconnect io r).0 ≡ thrown e)
        × ((disconnect io r).1.service.read_client ≡ some c)
        × ((disconnect io r).1.service.write_client ≡ none)
        × ((disconnect io r).1.service.is_connected ≡ false)
  unfolding disconnect handle
  disconnect-shared r c e writer reader first second = (
    rw (writer, disconnect, first, quit_client, writer_gone)
        (rw (reader, second, quit_client, reader_gone) refl),
    rw (writer, disconnect, first, quit_client, writer_gone)
        (rw (reader, second, quit_client, reader_gone) refl),
    rw (writer, disconnect, first, quit_client, writer_gone)
        (rw (reader, second, quit_client, reader_gone) refl),
    rw (writer, disconnect, first, quit_client, writer_gone)
        (rw (reader, second, quit_client, reader_gone) refl),
  )

  -- The client that is made for the primary.
  abbrev pub primary_client : RedisEnv → Redis Store → ℕ
  primary_client env r = (io.create (build_config env).primary r.store).0

  wait_both-same : (c : ℕ) (s : Store) → wait_both io c c s ≡ wait_for_connection io c "write" s
  wait_both-same c s = let same : (c == c) ≡ true = ground arith in rw (same, wait_both) refl

  -- Without a replica and Sentinel, one client is made, and it reads and writes.
  connect-shared :
      (env : RedisEnv) (r : Redis Store)
      → env.redis_read_host ≡ none
      → env.redis_sentinel_hosts ≡ none
      → connect io env r
        ≡ connected io (
            with_clients io (primary_client env r) (primary_client env r) r.service (
              wait_for_connection io
                (primary_client env r)
                "write"
                (io.create (build_config env).primary r.store).1))
  unfolding connect connect_directly build_config
  connect-shared env r no_replica no_sentinel =
      let c : ℕ = primary_client env r in
      rw (no_sentinel, no_replica, connect)
        (ap (λ w. connected io (with_clients io c c r.service w)) (wait_both-same c _))

  connected_clients :
      (c : ℕ) (f : RedisService) (waited : Result (Unit {0}) × Store)
      → (connected io (with_clients io c c f waited)).0 ≡ ok tt
      → ((connected io (with_clients io c c f waited)).1.service.write_client ≡ some c)
        × ((connected io (with_clients io c c f waited)).1.service.read_client ≡ some c)
        × ((connected io (with_clients io c c f waited)).1.service.is_connected ≡ true)
  connected_clients c f (ok _, s) h = (refl, refl, refl)
  connected_clients c f (thrown e, s) h = absurd (cc)

  -- With neither a replica nor Sentinel, after a `connect` that returned: `disconnect` makes the one
  -- client quit twice. If that is done the first time and refused the second time, `disconnect` throws;
  -- by then the service takes itself for disconnected and has no client for writes, but it keeps the
  -- client that has quit for reads.
  pub disconnect-connect :
      (env : RedisEnv) (r : Redis Store) (e : Error)
      → env.redis_read_host ≡ none
      → env.redis_sentinel_hosts ≡ none
      → (connect io env r).0 ≡ ok tt
      → (io.quit (primary_client env r) (connect io env r).1.store).0 ≡ ok tt
      → (io.quit
          (primary_client env r)
          (io.quit (primary_client env r) (connect io env r).1.store).1).0
        ≡ thrown e
      → ((disconnect io (connect io env r).1).0 ≡ thrown e)
        × ((disconnect io (connect io env r).1).1.service.read_client ≡ some (primary_client env r))
        × ((disconnect io (connect io env r).1).1.service.write_client ≡ none)
        × ((disconnect io (connect io env r).1).1.service.is_connected ≡ false)
  disconnect-connect env r e no_replica no_sentinel done first second =
      let c : ℕ = primary_client env r in
      let waited : Result (Unit {0}) × Store =
        wait_for_connection io c "write" (io.create (build_config env).primary r.store).1 in
      let shape : connect io env r ≡ connected io (with_clients io c c r.service waited) =
        connect-shared env r no_replica no_sentinel in
      let (writer, reader, up) =
        connected_clients c r.service waited (ap (λ p. p.0) (sym shape) ∙ done) in
      let same : (connect io env r).1 ≡ (connected io (with_clients io c c r.service waited)).1 =
        ap (λ p. p.1) shape in
      disconnect-shared (connect io env r).1 c e (ap (λ x. x.service.write_client) same ∙ writer)
        (ap (λ x. x.service.read_client) same ∙ reader) first second

uncapped :
    (times : ℕ) → 1 ≤ times → times ≤ 5 → min (100 * 2 ^ (times - 1)) 3000 ≡ 100 * 2 ^ (times - 1)
uncapped zero h k = absurd (omega (arith, h))
uncapped (suc zero) h k = refl
uncapped (suc (suc zero)) h k = refl
uncapped (suc (suc (suc zero))) h k = refl
uncapped (suc (suc (suc (suc zero)))) h k = refl
uncapped (suc (suc (suc (suc (suc zero))))) h k = refl
uncapped (suc (suc (suc (suc (suc (suc n)))))) h k = absurd (omega (arith, k))

-- Reconnecting is tried five times, after delays that double from 100 ms and never reach the cap of
-- three seconds, and is then given up.
retry_strategy-delays :
    (times : ℕ) (r : RedisService)
    → 1 ≤ times
    → (retry_strategy times r).0 ≡ (if leb times 5 then some (100 * 2 ^ (times - 1)) else none)
unfolding retry_strategy
retry_strategy-delays times r h = elim (Bool-cases (leb times 5)) [
  | inl few ↦ rw (few, uncapped times h (leb→le _ _ few)) (ground arith)
  | inr many ↦ rw many (ground arith)
]
