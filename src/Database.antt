-- ===== src/Database.antt =====
-- src/database/data-source.ts: the settings of the primary and of the replicas, and the opening and the
-- closing of the data source, which is TypeORM's.
pub mod Replicas
use activity_tracker_api.Base.{
  ℕ, ◌==◌, String, Bool, true, false, not, Option, none, some, List, [], ◌∷◌, map, length, ltb,
  str_eq, if◌then◌else◌, Error, Result, ok, thrown,
}
use activity_tracker_api.Base.Strings.{split}
use activity_tracker_api.Base.Numbers.{Number, whole, parse_any_int, trim}
use activity_tracker_api.Http.{is_truthy}

-- The settings that the data source reads.
pub record DatabaseEnv : Type 0 where
  pub node_env : String
  pub database_host : String
  pub database_port : ℕ
  pub database_user : String
  pub database_password : String
  pub database_name : String
  pub database_read_replicas : Option String

pub record ReplicaConfig : Type 0 where
  pub host : String
  pub port : Number
  pub username : String
  pub password : String
  pub database : String

abbrev pub or_default : (value default : String) → String
or_default value default = if is_truthy (some value) then value else default

-- Who logs in, and to which database.
abbrev pub config_at : DatabaseEnv → (host : String) → (port : Number) → ReplicaConfig
config_at env host port = record {
  host = host;
  port = port;
  username = or_default env.database_user "postgres";
  password = or_default env.database_password "postgres123";
  database = or_default env.database_name "activity_tracker";
}

-- What is developed is kept in step with its schema, and logged.
pub record PrimaryConfig : Type 0 where
  pub connection : ReplicaConfig
  pub synchronize : Bool
  pub logging : Bool

abbrev pub primary_config : DatabaseEnv → PrimaryConfig
primary_config env =
    let development : Bool = str_eq env.node_env "development" in
    record {
      connection =
          config_at env (or_default env.database_host "localhost")
            (whole (if env.database_port == 0 then 5432 else env.database_port));
      synchronize = development;
      logging = development;
    }

-- `portStr ? parseInt(portStr) : 5432`.
abbrev pub replica_port : String → Number
replica_port port = if is_truthy (some port) then parse_any_int port else whole 5432

-- `const [host, portStr] = parts`; a text splits into one part at least.
abbrev pub replica_config : DatabaseEnv → List String → ReplicaConfig
replica_config env [] = config_at env "" (whole 5432)
replica_config env (host ∷ []) = config_at env (trim host) (whole 5432)
replica_config env (host ∷ port ∷ rest) = config_at env (trim host) (replica_port port)

abbrev pub replicas_of : DatabaseEnv → Option String → List ReplicaConfig
replicas_of env none = []
replicas_of env (some replicas) =
    if is_truthy (some replicas)
    then map (λ replica. replica_config env (split b':' replica)) (split b',' replicas)
    else []

unfoldable pub replica_configs : DatabaseEnv → List ReplicaConfig
replica_configs env = replicas_of env env.database_read_replicas

-- Reads go to the replicas if there are any.
pub record Replication : Type 0 where
  pub master : ReplicaConfig
  pub slaves : List ReplicaConfig

abbrev pub replication : DatabaseEnv → Option Replication
replication env =
    if ltb 0 (length (replica_configs env))
    then some (record { master = (primary_config env).connection; slaves = replica_configs env })
    else none

-- TypeORM's data source: what opening and closing it does to a world.
pub record DataSource : Type 1 where
  pub World : Type 0
  pub initialize : World → Result (Unit {0}) × World
  pub destroy : World → Result (Unit {0}) × World

module _ (source : DataSource) where
  open source use {World}

  pub record Opened : Type 0 where
    pub is_initialized : Bool
    pub world : World

  abbrev pub after : Bool → Bool → Result (Unit {0}) × World → Result (Unit {0}) × Opened
  after failed done (thrown e, w) = (thrown e, record { is_initialized = failed; world = w })
  after failed done (ok _, w) = (ok tt, record { is_initialized = done; world = w })

  unfoldable pub initialize_database : Opened → Result (Unit {0}) × Opened
  initialize_database s =
      if not s.is_initialized then after false true (source.initialize s.world) else (ok tt, s)

  unfoldable pub close_database : Opened → Result (Unit {0}) × Opened
  close_database s =
      if s.is_initialized then after true false (source.destroy s.world) else (ok tt, s)
