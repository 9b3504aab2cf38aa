-- ===== src/Tests/Retry.antt =====
-- Runs of src/utils/retry.utils.ts and src/services/redis.service.ts.
use activity_tracker_api.Base.{
  ℕ, suc, ◌≡◌, refl, true, some, [], ◌∷◌, arith, Result, ok, thrown, ltb, get_elem?, if◌then◌else◌,
}
use activity_tracker_api.Retry.{
  RetryOptions, with_retry, retry_from, may_retry, mentions, backoff, notify,
  database_retry_options, with_database_retry,
}
use activity_tracker_api.Retry.Attempts.{
  Tries, none_failed, one_failed, Ends, with_retry-Ends, with_retry_recovers,
}
use activity_tracker_api.Redis.{
  RedisService, Redis, close_event, ready_event, connect_event, get, set, incr_by, expire, del,
  not_connected,
}
use activity_tracker_api.Base.{◌⊎◌, none, Error}
use activity_tracker_api.Base.Int.{pos}
use activity_tracker_api.Redis.Connecting.{RedisEnv, connect}
use activity_tracker_api.Redis.Connection.{handle_all, closed_stays_down}
use activity_tracker_api.Tests.Worlds.{refused}
use activity_tracker_api.Tests.Stores.{value_store, Values}

-- Two attempts that are refused, and one that returns how many there were before it.
abbrev third_time : ℕ → Result ℕ × ℕ
third_time n = if ltb n 2 then (thrown refused, suc n) else (ok n, suc n)

abbrev options : RetryOptions ℕ
options = database_retry_options ℕ

abbrev stay : ℕ → ℕ → ℕ
stay ms n = n

with_database_retry-third_time :
    with_database_retry third_time stay 0
    ≡ record { outcome = ok 2; state = 3; delays = 200 ∷ 400 ∷ [] }
unfolding with_database_retry with_retry retry_from may_retry mentions backoff notify
with_database_retry-third_time = refl

may_retry-refused : may_retry options refused ≡ true
unfolding may_retry mentions
may_retry-refused = refl

with_retry-Ends_example : Ends options third_time stay 1 0 (with_retry options third_time stay 0)
with_retry-Ends_example = with_retry-Ends options third_time stay 0

two_failed : Tries options third_time stay 1 2 0 2 (backoff options 1 ∷ backoff options 2 ∷ [])
unfolding notify
two_failed =
    one_failed refused 1 refl may_retry-refused
      (one_failed refused 2 refl may_retry-refused none_failed)

with_retry_recovers_example :
    with_retry options third_time stay 0
    ≡ record { outcome = ok 2; state = 3; delays = backoff options 1 ∷ backoff options 2 ∷ [] }
with_retry_recovers_example =
    with_retry_recovers options third_time stay 2 2 3 (omega arith) two_failed refl

second_delay : get_elem? (with_retry options third_time stay 0).delays 1 ≡ some 400
unfolding with_retry retry_from may_retry mentions backoff notify
second_delay = refl

-- A service whose client 1 reads and writes.
abbrev service : RedisService
service = record {
  write_client = some 1;
  read_client = some 1;
  is_connected = true;
  reconnect_attempts = 0;
}

abbrev store : Values
store = record { ended = []; values = [] }

abbrev local_env : RedisEnv
local_env = record {
  redis_host = "localhost";
  redis_port = 6379;
  redis_password = none;
  redis_read_host = none;
  redis_read_port = none;
  redis_sentinel_hosts = none;
  redis_sentinel_master_name = "mymaster";
}

closed_stays_down_example :
    let after : Redis Values = record {
      service = handle_all (close_event ∷ connect_event ∷ ready_event ∷ []) service;
      store = store;
    } in
    (get value_store "usage:daily:7" after ≡ thrown not_connected)
    × (set value_store "usage:daily:7" "[]" (pos 300) after ≡ (thrown not_connected, after))
    × (incr_by value_store "usage:daily:7" 1 after ≡ (thrown not_connected, after))
    × (expire value_store "usage:daily:7" 300 after ≡ (thrown not_connected, after))
    × (del value_store "usage:daily:7" after ≡ (thrown not_connected, after))
    × (((e : Error) × ((connect value_store local_env after).0 ≡ thrown e))
        ⊎ (((connect value_store local_env after).0 ≡ ok tt)
            × ((connect value_store local_env after).1.service.is_connected ≡ true)))
closed_stays_down_example =
    closed_stays_down value_store (connect_event ∷ ready_event ∷ []) service store local_env
      "usage:daily:7" "[]" (pos 300) 300 1

abbrev one_client : Redis Values
one_client = record { service = service; store = store }
