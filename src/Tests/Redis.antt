-- ===== src/Tests/Redis.antt =====
-- Runs of src/services/redis.service.ts: connecting, and its pipelines.
use activity_tracker_api.Base.{
  ◌≡◌, refl, String, true, false, Option, none, some, [], ◌∷◌, map, ok, thrown, Bool,
}
use activity_tracker_api.Base.Strings.{split}
use activity_tracker_api.Base.Int.{ℤ, pos, negsuc}
use activity_tracker_api.Base.Numbers.{nan, whole, parse_int}
use activity_tracker_api.Redis.{Redis, ensure_connected, disconnect, get_json, get}
use activity_tracker_api.Redis.Connecting.{
  RedisEnv, wait_for_connection, connect, connect_directly, connect_via_sentinel, build_config,
  sentinel_hosts,
}
use activity_tracker_api.Redis.Connection.{disconnect-connect}
use activity_tracker_api.Redis.Pipelines.{Entry, get_json_many, set_json_many}
use activity_tracker_api.Redis.Pipelines.Many.{
  get_or_none, set_each, get_json_many-eq, set_json_many-eq,
}
use activity_tracker_api.Tests.Stores.{value_store, value_store-IsSequential, Values, closed, only}

abbrev unconnected : Redis Values
unconnected = record {
  service = record {
    write_client = none;
    read_client = none;
    is_connected = false;
    reconnect_attempts = 0;
  };
  store = record { ended = []; values = [] };
}

abbrev env : Option String → RedisEnv
env sentinels = record {
  redis_host = "localhost";
  redis_port = 6379;
  redis_password = none;
  redis_read_host = none;
  redis_read_port = none;
  redis_sentinel_hosts = sentinels;
  redis_sentinel_master_name = "mymaster";
}

disconnect-connect_example :
    ((disconnect value_store (connect value_store (env none) unconnected).1).0 ≡ thrown closed)
    × ((disconnect value_store (connect value_store (env none) unconnected).1).1.service.read_client
        ≡ some 1)
    × ((disconnect value_store
          (connect value_store (env none) unconnected).1).1.service.write_client
        ≡ none)
    × ((disconnect value_store
          (connect value_store (env none) unconnected).1).1.service.is_connected
        ≡ false)
unfolding connect connect_directly build_config wait_for_connection
disconnect-connect_example =
    disconnect-connect value_store (env none) unconnected closed refl refl refl refl refl

-- Behind Sentinel there are two clients; a host without a port gives NaN.
sentinel_is_split :
    sentinel_hosts "one:26379,two"
    ≡ record { host = "one"; port = whole 26379 } ∷ record { host = "two"; port = nan } ∷ []
unfolding sentinel_hosts split parse_int
sentinel_is_split = refl

two_clients :
    (connect value_store (env (some "one:26379")) unconnected).1.service.read_client ≡ some 2
unfolding connect wait_for_connection connect_via_sentinel build_config sentinel_hosts split
two_clients = refl

abbrev holding : Redis Values
holding = record {
  service = record {
    write_client = some 1;
    read_client = some 2;
    is_connected = true;
    reconnect_attempts = 0;
  };
  store = record { ended = []; values = ("a", "[{}]") ∷ ("b", "") ∷ [] };
}

get_json_many-eq_example :
    get_json_many value_store (only true) ("a" ∷ "b" ∷ "c" ∷ []) holding
    ≡ ok (map (get_or_none value_store (only true) holding) ("a" ∷ "b" ∷ "c" ∷ []))
unfolding ensure_connected
get_json_many-eq_example =
    get_json_many-eq value_store (only true) ("a" ∷ "b" ∷ "c" ∷ []) holding
      (record { writer = 1; reader = 2 }) value_store-IsSequential refl

only_one_is_there :
    map (get_or_none value_store (only true) holding) ("a" ∷ "b" ∷ "c" ∷ [])
    ≡ some true ∷ none ∷ none ∷ []
unfolding get_json get ensure_connected
only_one_is_there = refl

abbrev entry : String → Option ℤ → Entry Bool
entry key ttl = record { key = key; value = true; ttl = ttl }

set_json_many-eq_example :
    set_json_many value_store
      (only true)
      (entry "a" none ∷ entry "d" (some (pos 60)) ∷ entry "e" (some (negsuc 4)) ∷ [])
      holding
    ≡ (
      ok tt,
      set_each value_store
          (only true)
          (entry "a" none ∷ entry "d" (some (pos 60)) ∷ entry "e" (some (negsuc 4)) ∷ [])
          holding,
    )
unfolding ensure_connected
set_json_many-eq_example =
    set_json_many-eq value_store (only true)
      (entry "a" none ∷ entry "d" (some (pos 60)) ∷ entry "e" (some (negsuc 4)) ∷ []) holding
      (record { writer = 1; reader = 2 }) value_store-IsSequential refl
