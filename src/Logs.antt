-- ===== src/Logs.antt =====
-- The log entries of src/repositories/api-log.repository.ts (`CreateApiLogData`) and the rows that
-- src/database/entities/api_log.entity.ts stores. Times are milliseconds, as `Date.now()` gives them.
pub mod Queries
use activity_tracker_api.Base.Int.{ℤ}
use activity_tracker_api.Base.{ℕ, String, Option}

-- A `Record<string, unknown>`, by its JSON text: the code passes it on and never looks into it.
abbrev pub Json : Type 0
Json = String

-- `stored_at` is the property `_storedAt` that the in-memory storage adds to an entry.
pub record ApiLogData : Type 0 where
  pub client_id : String
  pub api_key : String
  pub endpoint : String
  pub method : String
  pub status_code : ℤ
  pub response_time : ℤ
  pub ip_address : String
  pub user_agent : Option String
  pub request_headers : Option Json
  pub request_body : Option Json
  pub response_body : Option Json
  pub error_message : Option String
  pub metadata : Option Json
  pub stored_at : Option ℕ

-- What is sent to the database: the entry without `_storedAt`, and the time of the insertion.
pub record ApiLog : Type 0 where
  pub client_id : String
  pub api_key : String
  pub endpoint : String
  pub method : String
  pub status_code : ℤ
  pub response_time : ℤ
  pub ip_address : String
  pub user_agent : Option String
  pub request_headers : Option Json
  pub request_body : Option Json
  pub response_body : Option Json
  pub error_message : Option String
  pub metadata : Option Json
  pub timestamp : ℕ

-- The object literal that is passed to `repository.create`.
unfoldable pub to_entity : ℕ → ApiLogData → ApiLog
to_entity now log = record {
  client_id = log.client_id;
  api_key = log.api_key;
  endpoint = log.endpoint;
  method = log.method;
  status_code = log.status_code;
  response_time = log.response_time;
  ip_address = log.ip_address;
  user_agent = log.user_agent;
  request_headers = log.request_headers;
  request_body = log.request_body;
  response_body = log.response_body;
  error_message = log.error_message;
  metadata = log.metadata;
  timestamp = now;
}
