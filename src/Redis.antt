-- ===== src/Redis.antt =====
-- src/services/redis.service.ts: the two clients, the guard that every operation begins with, and the
-- operations that the cache uses. `ioredis` is a parameter.
pub mod Connection
pub mod Connecting
pub mod Commands
pub mod Pipelines
use activity_tracker_api.Base.{
  ℕ, ◌-◌, ◌*◌, ◌^◌, ◌==◌, ◌≡◌, String, Bool, true, false, not, ◌&&◌, ◌||◌, Option, none, some, List,
  [], ◌∷◌, min, ltb, if◌then◌else◌, Error, Result, ok, thrown, ◌>>=◌,
}
use activity_tracker_api.Base.Int.{ℤ, pos, negsuc}
use activity_tracker_api.Base.Numbers.{Number}
use activity_tracker_api.Http.{is_truthy}

-- The fields of the service. A client of `ioredis` is known by a number, so that two fields can
-- hold the same one.
pub record RedisService : Type 0 where
  pub write_client : Option ℕ
  pub read_client : Option ℕ
  pub is_connected : Bool
  pub reconnect_attempts : ℕ

-- Where a client of `ioredis` connects to: a host, or a role behind the hosts of Sentinel.
pub record Endpoint : Type 0 where
  pub host : String
  pub port : Number

pub data Role : Type 0 where
  master : Role
  slave : Role

pub data Address : Type 0 where
  direct_to : Endpoint → (password : Option String) → Address
  via_sentinel :
      (sentinels : List Endpoint) → (name : String) → (password : Option String) → Role → Address

-- A command in a pipeline, and what stands for it in the result: an error or a reply. A reply that is
-- a number is its decimal text here.
pub data Command : Type 0 where
  get_key : String → Command
  del_key : String → Command
  set_key : (key value : String) → Command
  setex_key : (key : String) → (ttl : ℤ) → (value : String) → Command
  call_named : (command : String) → (args : List String) → Command

pub record Reply : Type 0 where
  pub error : Option Error
  pub result : Option String

-- What comes first within ten seconds: the event `ready`, the event `error`, or neither.
pub data Awaited : Type 0 where
  became_ready : Awaited
  failed : Error → Awaited
  timed_out : Awaited

-- `ioredis`: commands that a client sends, which return or throw. `create` is `new Redis(...)`; `is_ready` is
-- the client's status, and `awaited` tells how the wait for it ends. `replicated` is the store once
-- the replica has caught up with the primary.
pub record Ioredis : Type 1 where
  pub Store : Type 0
  pub create : Address → Store → ℕ × Store
  pub is_ready : ℕ → Store → Bool
  pub awaited : ℕ → Store → Awaited × Store
  pub quit : ℕ → Store → Result (Unit {0}) × Store
  pub get : ℕ → String → Store → Result (Option String)
  pub setex : ℕ → String → ℤ → String → Store → Result (Unit {0}) × Store
  pub set : ℕ → String → String → Store → Result (Unit {0}) × Store
  pub incrby : ℕ → String → ℕ → Store → Result ℕ × Store
  pub expire : ℕ → String → ℕ → Store → Result (Unit {0}) × Store
  pub del : ℕ → String → Store → Result (Unit {0}) × Store
  pub keys : ℕ → (pattern : String) → Store → Result (List String)
  pub exists : ℕ → String → Store → Result ℕ
  pub ttl : ℕ → String → Store → Result ℤ
  pub incr : ℕ → String → Store → Result ℤ × Store
  pub decr : ℕ → String → Store → Result ℤ × Store
  pub mget : ℕ → List String → Store → Result (List (Option String))
  pub mset : ℕ → List String → Store → Result (Unit {0}) × Store
  pub flushall : ℕ → Store → Result (Unit {0}) × Store
  pub info : ℕ → (section : Option String) → Store → Result String
  pub ping : ℕ → Store → Result String
  pub duplicate : ℕ → Store → ℕ × Store
  pub subscribe : ℕ → (channel : String) → Store → Result (Unit {0}) × Store
  pub publish : ℕ → (channel message : String) → Store → Result ℕ × Store
  pub knows : (command : String) → Bool
  pub call : ℕ → (command : String) → (args : List String) → Store → Result (Option String) × Store
  pub exec : ℕ → List Command → Store → Result (Option (List Reply)) × Store
  pub replicated : Store → Store
  pub get_setex :
      (writer reader : ℕ) (key : String) (ttl : ℤ) (value : String) (s : Store)
      → (setex writer key ttl value s).0 ≡ ok tt
      → get reader key (replicated (setex writer key ttl value s).1) ≡ ok (some value)

pub record Redis (Store : Type 0) : Type 0 where
  pub service : RedisService
  pub store : Store

-- The clients that an operation writes to and reads from.
pub record Clients : Type 0 where
  pub writer : ℕ
  pub reader : ℕ

abbrev pub not_connected : Error
not_connected = record { name = "Error"; message = "Redis is not connected. Call connect() first." }

abbrev pub both : Option ℕ → Option ℕ → Result Clients
both none reader = thrown not_connected
both (some writer) none = thrown not_connected
both (some writer) (some reader) = ok (record { writer = writer; reader = reader })

-- The clients behind the guard are those that it has seen to be there.
unfoldable pub ensure_connected : RedisService → Result Clients
ensure_connected r =
    if not r.is_connected then thrown not_connected else both r.write_client r.read_client

abbrev pub is_zero : ℤ → Bool
is_zero (pos n) = n == 0
is_zero (negsuc n) = false

-- A client that nobody made is never compared with one that was.
abbrev pub same_client : Option ℕ → Option ℕ → Bool
same_client none none = true
same_client (some c) (some d) = c == d
same_client none (some d) = false
same_client (some c) none = false

-- `retryStrategy`: the delay before the attempt, or `null` to give up; `times` counts from 1.
abbrev pub max_reconnect_attempts : ℕ
max_reconnect_attempts = 5

unfoldable pub retry_strategy : (times : ℕ) → RedisService → Option ℕ × RedisService
retry_strategy times r =
    let r' : RedisService = record r { reconnect_attempts = times } in
    (if ltb max_reconnect_attempts times then none else some (min (100 * 2 ^ (times - 1)) 3000), r')

-- The handlers of `setupEventHandlers`: all of them log, and `close` does more.
pub data Event : Type 0 where
  connect_event : Event
  ready_event : Event
  error_event : Error → Event
  close_event : Event
  reconnecting_event : (delay : ℕ) → Event

unfoldable pub handle : Event → RedisService → RedisService
handle connect_event r = r
handle ready_event r = r
handle (error_event e) r = r
handle close_event r = record r { is_connected = false }
handle (reconnecting_event delay) r = r

module _ (io : Ioredis) where
  open io use {Store}

  -- A write behind the guard.
  abbrev pub write :
      {A : Type 0} → (ℕ → Store → Result A × Store) → Redis Store → Result A × Redis Store
  write command r = elim (ensure_connected r.service) [
    | thrown e ↦ (thrown e, r)
    | ok c ↦ let (outcome, s) = command c.writer r.store in (outcome, record r { store = s })
  ]

  unfoldable pub get : String → Redis Store → Result (Option String)
  get key r = ensure_connected r.service >>= λ c. io.get c.reader key r.store

  -- `if (ttlSeconds)`: a time to live of 0 counts as none, and a negative one does not.
  abbrev pub set_command : String → String → ℤ → ℕ → Store → Result (Unit {0}) × Store
  set_command key value ttl writer s =
      if is_zero ttl then io.set writer key value s else io.setex writer key ttl value s

  unfoldable pub set :
      (key value : String) (ttl : ℤ) → Redis Store → Result (Unit {0}) × Redis Store
  set key value ttl r = write (set_command key value ttl) r

  unfoldable pub incr_by : String → ℕ → Redis Store → Result ℕ × Redis Store
  incr_by key amount r = write (λ c s. io.incrby c key amount s) r

  unfoldable pub expire : String → ℕ → Redis Store → Result (Unit {0}) × Redis Store
  expire key ttl r = write (λ c s. io.expire c key ttl s) r

  unfoldable pub keys : (pattern : String) → Redis Store → Result (List String)
  keys pattern r = ensure_connected r.service >>= λ c. io.keys c.reader pattern r.store

  unfoldable pub del : String → Redis Store → Result (Unit {0}) × Redis Store
  del key r = write (λ c s. io.del c key s) r

  -- `quit` of a client. One that has quit closes its connection, whose handler stands here where the
  -- command ends.
  abbrev pub quit_client : ℕ → Redis Store → Result (Unit {0}) × Redis Store
  quit_client c r =
      let (outcome, s) = io.quit c r.store in
      elim outcome [
        | thrown e ↦ (thrown e, record r { store = s })
        | ok _ ↦ (ok tt, record { service = handle close_event r.service; store = s })
      ]

  abbrev pub marked_down : Redis Store → Redis Store
  marked_down r = record r { service = record r.service { is_connected = false } }

  abbrev pub reader_gone : Result (Unit {0}) × Redis Store → Result (Unit {0}) × Redis Store
  reader_gone (thrown e, r) = (thrown e, r)
  reader_gone (ok _, r) =
      (ok tt, marked_down (record r { service = record r.service { read_client = none } }))

  -- The end of `disconnect`: the write client is gone by then, and the read client is compared with
  -- what is left of it.
  abbrev pub quit_reader : Redis Store → Result (Unit {0}) × Redis Store
  quit_reader r = elim r.service.read_client [
    | none ↦ (ok tt, marked_down r)
    | some reader ↦
        if same_client (some reader) r.service.write_client
        then (ok tt, marked_down r)
        else reader_gone (quit_client reader r)
  ]

  abbrev pub writer_gone : Result (Unit {0}) × Redis Store → Result (Unit {0}) × Redis Store
  writer_gone (thrown e, r) = (thrown e, r)
  writer_gone (ok _, r) =
      quit_reader (record r { service = record r.service { write_client = none } })

  unfoldable pub disconnect : Redis Store → Result (Unit {0}) × Redis Store
  unfolding handle
  disconnect r = elim r.service.write_client [
    | none ↦ quit_reader r
    | some writer ↦ writer_gone (quit_client writer r)
  ]

-- `JSON.stringify` and `JSON.parse` on the values of one type. A `Date` and the text that JSON makes
-- of it are one value here.
pub record JsonCodec (A : Type 0) : Type 0 where
  pub stringify : A → String
  pub parse : String → Result A

module _ (io : Ioredis) {A : Type 0} (json : JsonCodec A) where
  open io use {Store}

  abbrev pub parse_value : Option String → Result (Option A)
  parse_value none = ok none
  parse_value (some value) =
      if not (is_truthy (some value)) then ok none else (json.parse value >>= λ a. ok (some a))

  unfoldable pub get_json : String → Redis Store → Result (Option A)
  get_json key r = get io key r >>= parse_value

  unfoldable pub set_json : String → A → (ttl : ℤ) → Redis Store → Result (Unit {0}) × Redis Store
  set_json key value ttl r = set io key (json.stringify value) ttl r
