-- ===== src/Tests/Hits.antt =====
-- A run of logApiHit in src/api/client/clientController.ts.
use activity_tracker_api.Base.{◌+◌, ◌≡◌, refl, Bool, true, false, some, none, [], ◌∷◌, str_eq}
use activity_tracker_api.Base.Int.{pos}
use activity_tracker_api.Redis.{RedisService, ensure_connected}
use activity_tracker_api.Http.{AuthClient, Request, success}
use activity_tracker_api.Logs.{ApiLogData}
use activity_tracker_api.Pipeline.{Database, State}
use activity_tracker_api.Pipeline.Conservation.{tally, weight}
use activity_tracker_api.Hits.{HitBody, log_of, event_of, data_of_body, handle_hit, log_api_hit}
use activity_tracker_api.Hits.Accounted.{IsPublished, handle_hit-accounted}
use activity_tracker_api.Tests.Worlds.{Table, list_database}

abbrev down : Database
down = list_database false

-- A batch size of one: the hit is flushed at once, and the database refuses it.
abbrev idle : State Table
idle = record {
  batch_queue = [];
  batch_size = 1;
  batch_timer = true;
  memory = record { logs = []; max_size = 2; max_age_ms = 3600000; cleanup_timer = true };
  world = record { clock = 5000; table = [] };
  lost = [];
}

abbrev sender : AuthClient
sender = record {
  client_id = "CL-1";
  email = "a@example.com";
  name = "A";
  api_key = some "key-1";
  rate_limit = some 10;
}

abbrev hit_request : Request
hit_request = record {
  authorization = none;
  x_api_key = some "key-1";
  query_token = none;
  query_api_key = none;
  client = some sender;
}

abbrev hit_body : HitBody
hit_body = record {
  endpoint = "/a";
  method = "GET";
  status_code = pos 200;
  response_time = none;
  ip_address = none;
  user_agent = none;
  request_ip = some "127.0.0.1";
  request_user_agent = some "curl";
}

abbrev is_a : ApiLogData → Bool
is_a log = str_eq log.endpoint "/a"

abbrev connected_service : Bool → RedisService
connected_service is_connected = record {
  write_client = some 1;
  read_client = some 1;
  is_connected = is_connected;
  reconnect_attempts = 0;
}

handle_hit-accounted_example :
    ((handle_hit down (connected_service false) hit_request hit_body idle).0
      ≡ success "API hit logged successfully" tt 201)
    × (weight is_a down (handle_hit down (connected_service false) hit_request hit_body idle).1
        ≡ weight is_a down idle
          + tally is_a (log_of "CL-1" (data_of_body down "key-1" hit_body) ∷ []))
    × IsPublished
        (connected_service false)
        (event_of "CL-1" (data_of_body down "key-1" hit_body))
        (handle_hit down (connected_service false) hit_request hit_body idle).2
handle_hit-accounted_example =
    handle_hit-accounted is_a down (connected_service false) hit_request sender "key-1" hit_body
      idle refl refl refl refl

published_if_connected :
    ((handle_hit down (connected_service true) hit_request hit_body idle).2
      ≡ some (event_of "CL-1" (data_of_body down "key-1" hit_body)))
    × ((handle_hit down (connected_service false) hit_request hit_body idle).2 ≡ none)
unfolding handle_hit log_api_hit ensure_connected
published_if_connected = (refl, refl)
