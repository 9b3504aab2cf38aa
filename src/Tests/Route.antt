-- ===== src/Tests/Route.antt =====
-- A run of `POST /api/logs` of src/api/client/clientRouter.ts.
use activity_tracker_api.Base.{
  ◌≡◌, refl, Bool, true, false, none, some, List, [], ◌∷◌, ◌⊎◌, inl, inr, str_eq,
}
use activity_tracker_api.Base.Int.{pos}
use activity_tracker_api.Redis.{RedisService}
use activity_tracker_api.Http.{Request}
use activity_tracker_api.Logs.{ApiLogData}
use activity_tracker_api.RateLimiter.{new_service}
use activity_tracker_api.Hits.{HitBody}
use activity_tracker_api.Hits.Route.{Issue, Backing, post_logs, error_message, issue_text}
use activity_tracker_api.Hits.Route.Admitted.{IsRefused, Admission, post_logs-Admission}
use activity_tracker_api.Tests.Worlds.{list_database, sorted_sets}
use activity_tracker_api.Tests.Stores.{plain_tokens, plain_compare, client_list, client}

abbrev hit_body : HitBody
hit_body = record {
  endpoint = "/a";
  method = "GET";
  status_code = pos 200;
  response_time = none;
  ip_address = none;
  user_agent = none;
  request_ip = some "127.0.0.1";
  request_user_agent = some "curl";
}

abbrev issue : Issue
issue = record { path = "body" ∷ "method" ∷ []; message = "Required" }

-- A body that is not there is refused.
abbrev schema : Bool → List Issue ⊎ HitBody
schema true = inr hit_body
schema false = inl (issue ∷ [])

refusal : error_message (issue_text issue ∷ []) ≡ "Invalid input: body.method: Required"
refusal = refl

abbrev Back : Type 0
Back = Backing plain_tokens plain_compare client_list sorted_sets (list_database true) schema

abbrev disconnected : RedisService
disconnected = record {
  write_client = some 1;
  read_client = some 1;
  is_connected = false;
  reconnect_attempts = 0;
}

abbrev backing : Back
backing = record {
  clients = client "CL-1" true ∷ [];
  limiter = (new_service 2 60, record { sets = λ key. []; up = false });
  logs = record {
    batch_queue = [];
    batch_size = 100;
    batch_timer = true;
    memory = record { logs = []; max_size = 2; max_age_ms = 3600000; cleanup_timer = true };
    world = record { clock = 5000; table = [] };
    lost = [];
  };
  redis = disconnected;
}

abbrev hit_request : Request
hit_request = record {
  authorization = none;
  x_api_key = some "CL-1";
  query_token = none;
  query_api_key = none;
  client = none;
}

abbrev is_a : ApiLogData → Bool
is_a log = str_eq log.endpoint "/a"

post_logs-Admission_example :
    let served =
      post_logs plain_tokens plain_compare client_list sorted_sets
        (list_database true)
        schema
        3000
        3000
        "0.5"
        hit_request
        true
        backing in
    IsRefused is_a plain_tokens plain_compare client_list sorted_sets
      (list_database true)
      schema
      backing
      served
    ⊎ Admission is_a plain_tokens plain_compare client_list sorted_sets
        (list_database true)
        schema
        3000
        "0.5"
        hit_request
        true
        backing
        served
post_logs-Admission_example =
    post_logs-Admission is_a plain_tokens plain_compare client_list sorted_sets (list_database true)
      schema 3000 3000 "0.5" hit_request true backing
