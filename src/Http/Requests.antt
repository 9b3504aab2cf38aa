-- ===== src/Http/Requests.antt =====
-- The small middlewares of src/common/middleware/requestLogger.ts and
-- src/common/middleware/errorHandler.ts.
use activity_tracker_api.Base.{ℕ, String, Bool, not, Option, none, some, leb, if◌then◌else◌}
use activity_tracker_api.Http.{is_truthy}

unfoldable pub get_log_level : (status : ℕ) → String
get_log_level status = if leb 500 status then "error" else if leb 400 status then "warn" else "info"

-- The request header and the response header after the middleware; `fresh` is `randomUUID()`.
unfoldable pub add_request_id :
    (existing_id : Option String) → (fresh : String) → Option String × Option String
add_request_id none fresh = (some fresh, some fresh)
add_request_id (some id) fresh =
    if is_truthy (some id) then (some id, some id) else (some fresh, some fresh)

-- What is kept of the body that is sent.
unfoldable pub capture_response_body : {A : Type 0} → (is_production : Bool) → A → Option A
capture_response_body is_production body = if not is_production then some body else none

-- Status and text for a path that no route has.
unfoldable pub unexpected_request : ℕ × String
unexpected_request = (404, "Not Found")
