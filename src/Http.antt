-- ===== src/Http.antt =====
-- What the middlewares and controllers see of Express: the parts of a request that the code reads,
-- `req.client` of src/types/express/index.d.ts, and `ServiceResponse` of
-- src/common/models/serviceResponse.ts.
pub mod Truthy
pub mod Requests
use activity_tracker_api.Base.{ℕ, String, Bool, true, false, Option, none, some, str_eq, not}

-- `req.client`.
pub record AuthClient : Type 0 where
  pub client_id : String
  pub email : String
  pub name : String
  pub api_key : Option String
  pub rate_limit : Option ℕ

-- A header or a query parameter may be missing.
pub record Request : Type 0 where
  pub authorization : Option String
  pub x_api_key : Option String
  pub query_token : Option String
  pub query_api_key : Option String
  pub client : Option AuthClient

-- A middleware calls `next` with the request that it changed, or answers with a status and the
-- `message` of its JSON body.
pub data Verdict : Type 0 where
  next : Request → Verdict
  respond : (status : ℕ) (message : String) → Verdict

-- Whether a text counts as true: it is there and is not empty.
abbrev pub is_truthy : Option String → Bool
is_truthy none = false
is_truthy (some s) = not (str_eq s "")

-- `ServiceResponse<T>`; the response object is `null` or an object.
pub record ServiceResponse (A : Type 0) : Type 0 where
  pub success : Bool
  pub message : String
  pub response_object : A
  pub status_code : ℕ

unfoldable pub success : {A : Type 0} → String → A → ℕ → ServiceResponse A
success message response_object status_code = record {
  success = true;
  message = message;
  response_object = response_object;
  status_code = status_code;
}

unfoldable pub failure : {A : Type 0} → String → A → ℕ → ServiceResponse A
failure message response_object status_code = record {
  success = false;
  message = message;
  response_object = response_object;
  status_code = status_code;
}
