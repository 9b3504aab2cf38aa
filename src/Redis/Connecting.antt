-- ===== src/Redis/Connecting.antt =====
-- The settings of src/services/redis.service.ts (buildConfig), and `connect` with and without Sentinel.
use Prim.Native.String
use activity_tracker_api.Base.{
  ℕ, ◌==◌, String, true, not, ◌&&◌, Option, none, some, List, [], ◌∷◌, map, length, ltb,
  if◌then◌else◌, Result, ok, thrown, ◌>>=◌,
}
use activity_tracker_api.Base.Strings.{split}
use activity_tracker_api.Base.Numbers.{Number, nan, whole, parse_int}
use activity_tracker_api.Http.{is_truthy}
use activity_tracker_api.Redis.{
  Endpoint, Role, Awaited, became_ready, failed, timed_out, master, slave, Address, direct_to,
  via_sentinel, RedisService, Ioredis, Redis,
}

-- The settings that the service reads.
pub record RedisEnv : Type 0 where
  pub redis_host : String
  pub redis_port : ℕ
  pub redis_password : Option String
  pub redis_read_host : Option String
  pub redis_read_port : Option ℕ
  pub redis_sentinel_hosts : Option String
  pub redis_sentinel_master_name : String

pub record SentinelConfig : Type 0 where
  pub hosts : List Endpoint
  pub master_name : String
  pub password : Option String

pub record RedisConfig : Type 0 where
  pub primary : Address
  pub replica : Option Address
  pub sentinel : Option SentinelConfig

-- `text || undefined`.
abbrev pub text_or_none : Option String → Option String
text_or_none text = if is_truthy text then text else none

-- `Number.parseInt(port, 10)` of what may be undefined.
abbrev pub port_of : Option String → Number
port_of none = nan
port_of (some port) = parse_int port

-- `const [hostname, port] = parts`; a text splits into one part at least.
abbrev pub endpoint_of : List String → Endpoint
endpoint_of [] = record { host = ""; port = nan }
endpoint_of (hostname ∷ []) = record { host = hostname; port = port_of none }
endpoint_of (hostname ∷ port ∷ rest) = record { host = hostname; port = port_of (some port) }

unfoldable pub sentinel_hosts : String → List Endpoint
sentinel_hosts hosts = map (λ host. endpoint_of (split b':' host)) (split b',' hosts)

-- A port of 0 counts as none.
abbrev pub replica_of : RedisEnv → Option String → Option ℕ → Option Address
replica_of env none port = none
replica_of env (some host) none = none
replica_of env (some host) (some port) =
    if is_truthy (some host) && not (port == 0)
    then some
        (direct_to (record { host = host; port = whole port }) (text_or_none env.redis_password))
    else none

abbrev pub sentinel_of : RedisEnv → Option String → Option SentinelConfig
sentinel_of env none = none
sentinel_of env (some hosts) =
    if is_truthy (some hosts) && is_truthy (some env.redis_sentinel_master_name)
    then some (record {
      hosts = sentinel_hosts hosts;
      master_name = env.redis_sentinel_master_name;
      password = text_or_none env.redis_password;
    })
    else none

unfoldable pub build_config : RedisEnv → RedisConfig
build_config env = record {
  primary =
      direct_to (record { host = env.redis_host; port = whole env.redis_port })
        (text_or_none env.redis_password);
  replica = replica_of env env.redis_read_host env.redis_read_port;
  sentinel = sentinel_of env env.redis_sentinel_hosts;
}

module _ (io : Ioredis) where
  open io use {Store}

  -- `kind` is `write` or `read`.
  abbrev pub wait_ended : (kind : String) → Awaited → Result (Unit {0})
  wait_ended kind became_ready = ok tt
  wait_ended kind (failed e) = thrown e
  wait_ended kind timed_out = thrown (record {
    name = "Error";
    message = String.◌++◌ "Redis " (String.◌++◌ kind " client connection timeout");
  })

  unfoldable pub wait_for_connection :
      (client : ℕ) → (kind : String) → Store → Result (Unit {0}) × Store
  wait_for_connection client kind s =
      if io.is_ready client s
      then (ok tt, s)
      else (let (first, s') = io.awaited client s in (wait_ended kind first, s'))

  -- Where one client reads and writes, one wait is enough.
  abbrev pub wait_both : (writer reader : ℕ) → Store → Result (Unit {0}) × Store
  wait_both writer reader s =
      if writer == reader
      then wait_for_connection writer "write" s
      else (let (r, s₁) = wait_for_connection writer "write" s in
          let (q, s₂) = wait_for_connection reader "read" s₁ in (r >>= λ _. q, s₂))

  abbrev pub with_clients :
      (writer reader : ℕ)
      → RedisService
      → Result (Unit {0}) × Store
      → Result (Unit {0}) × Redis Store
  with_clients writer reader f (outcome, s) = (
    outcome,
    record {
      service = record f { write_client = some writer; read_client = some reader };
      store = s;
    },
  )

  unfoldable pub connect_via_sentinel :
      SentinelConfig → Redis Store → Result (Unit {0}) × Redis Store
  connect_via_sentinel config r =
      let at : Role → Address = via_sentinel config.hosts config.master_name config.password in
      let (writer, s₁) = io.create (at master) r.store in
      let (reader, s₂) = io.create (at slave) s₁ in
      let (write_wait, s₃) = wait_for_connection writer "write" s₂ in
      let (read_wait, s₄) = wait_for_connection reader "read" s₃ in
      with_clients writer reader r.service (write_wait >>= λ _. read_wait, s₄)

  abbrev pub create_reader : ℕ → Option Address → Store → ℕ × Store
  create_reader writer none s = (writer, s)
  create_reader writer (some replica) s = io.create replica s

  unfoldable pub connect_directly : RedisConfig → Redis Store → Result (Unit {0}) × Redis Store
  connect_directly config r =
      let (writer, s₁) = io.create config.primary r.store in
      let (reader, s₂) = create_reader writer config.replica s₁ in
      with_clients writer reader r.service (wait_both writer reader s₂)

  -- What `connect` does once the connections are there.
  abbrev pub connected : Result (Unit {0}) × Redis Store → Result (Unit {0}) × Redis Store
  connected (thrown e, r) = (thrown e, r)
  connected (ok _, r) = (
    ok tt,
    record r { service = record r.service { is_connected = true; reconnect_attempts = 0 } },
  )

  abbrev pub connect_config :
      RedisConfig → Option SentinelConfig → Redis Store → Result (Unit {0}) × Redis Store
  connect_config config none r = connect_directly config r
  connect_config config (some sentinel) r =
      if ltb 0 (length sentinel.hosts)
      then connect_via_sentinel sentinel r
      else connect_directly config r

  unfoldable pub connect : RedisEnv → Redis Store → Result (Unit {0}) × Redis Store
  connect env r =
      let config : RedisConfig = build_config env in
      connected (connect_config config config.sentinel r)
