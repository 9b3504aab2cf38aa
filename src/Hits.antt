-- ===== src/Hits.antt =====
-- The recording of a hit: logApiHit of src/api/client/clientController.ts and of
-- src/api/client/clientService.ts. What is handed to Redis for publishing is an output, since nobody
-- waits for it.
pub mod Accounted
pub mod Route
use activity_tracker_api.Base.{
  ℕ, ◌==◌, String, Bool, true, false, not, ◌||◌, Option, none, some, List, [], ◌∷◌, if◌then◌else◌,
}
use activity_tracker_api.Base.{ok, thrown}
use activity_tracker_api.Base.Int.{ℤ, pos}
use activity_tracker_api.Redis.{RedisService, ensure_connected}
use activity_tracker_api.Http.{AuthClient, Request, is_truthy, ServiceResponse, success, failure}
use activity_tracker_api.Auth.Middleware.{header_or_empty}
use activity_tracker_api.Logs.{ApiLogData}
use activity_tracker_api.Pipeline.{Database, State}
use activity_tracker_api.Pipeline.Machine.{add_to_batch}

-- The body of the request, past its validation, and what Express tells of the connection.
pub record HitBody : Type 0 where
  pub endpoint : String
  pub method : String
  pub status_code : ℤ
  pub response_time : Option ℤ
  pub ip_address : Option String
  pub user_agent : Option String
  pub request_ip : Option String
  pub request_user_agent : Option String

-- The service's argument.
pub record HitData : Type 0 where
  pub api_key : String
  pub endpoint : String
  pub method : String
  pub status_code : ℤ
  pub response_time : Option ℤ
  pub ip_address : Option String
  pub user_agent : Option String

-- The message on the channel `api:log:new`, without its time.
pub record LogEvent : Type 0 where
  pub client_id : String
  pub endpoint : String
  pub method : String
  pub status_code : ℤ
  pub response_time : ℤ

-- `a || b` on texts that may be missing or empty.
abbrev pub or_text : Option String → Option String → Option String
or_text a b = if is_truthy a then a else b

abbrev pub or_zero : Option ℤ → ℤ
or_zero none = pos 0
or_zero (some n) = n

abbrev pub log_of : String → HitData → ApiLogData
log_of client_id data_of = record {
  client_id = client_id;
  api_key = data_of.api_key;
  endpoint = data_of.endpoint;
  method = data_of.method;
  status_code = data_of.status_code;
  response_time = or_zero data_of.response_time;
  ip_address = header_or_empty (or_text data_of.ip_address (some "unknown"));
  user_agent = data_of.user_agent;
  request_headers = none;
  request_body = none;
  response_body = none;
  error_message = none;
  metadata = none;
  stored_at = none;
}

abbrev pub event_of : String → HitData → LogEvent
event_of client_id data_of = record {
  client_id = client_id;
  endpoint = data_of.endpoint;
  method = data_of.method;
  status_code = data_of.status_code;
  response_time = or_zero data_of.response_time;
}

module _ (d : Database) where
  open d use {World}

  -- `publish` throws behind the guard of the Redis service, and the error is caught: nothing is handed
  -- to Redis.
  abbrev pub publish_event : RedisService → LogEvent → Option LogEvent
  publish_event redis event = elim (ensure_connected redis) [ thrown e ↦ none | ok c ↦ some event ]

  -- The response, the state, and what is handed to Redis, which is the service at the time of the
  -- publishing. `addToBatch` catches its own errors.
  unfoldable pub log_api_hit :
      (redis : RedisService)
      → String
      → HitData
      → State World
      → ServiceResponse Unit × State World × Option LogEvent
  log_api_hit redis client_id data_of s = (
    success "API hit logged successfully" tt 201,
    add_to_batch d (log_of client_id data_of) s,
    publish_event redis (event_of client_id data_of),
  )

  abbrev pub unauthorized : ServiceResponse Unit
  unauthorized = failure "Unauthorized" tt 401

  abbrev pub client_id_of : Option AuthClient → Option String
  client_id_of none = none
  client_id_of (some client) = some client.client_id

  abbrev pub data_of_body : String → HitBody → HitData
  data_of_body api_key body = record {
    api_key = api_key;
    endpoint = body.endpoint;
    method = body.method;
    status_code = body.status_code;
    response_time = body.response_time;
    ip_address = or_text body.ip_address (or_text body.request_ip (some "unknown"));
    user_agent = or_text body.user_agent body.request_user_agent;
  }

  -- The handler of the controller.
  unfoldable pub handle_hit :
      (redis : RedisService)
      → Request
      → HitBody
      → State World
      → ServiceResponse Unit × State World × Option LogEvent
  handle_hit redis req body s =
      if not (is_truthy (client_id_of req.client)) || not (is_truthy req.x_api_key)
      then (unauthorized, s, none)
      else log_api_hit redis (header_or_empty (client_id_of req.client))
          (data_of_body (header_or_empty req.x_api_key) body) s
