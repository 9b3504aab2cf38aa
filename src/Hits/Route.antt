-- ===== src/Hits/Route.antt =====
-- `POST /api/logs` of src/api/client/clientRouter.ts from the request to the queue, with
-- src/common/utils/httpHandlers.ts. The schema is zod's, and is a parameter.
pub mod Limit
pub mod Admitted
use Prim.Native.String
use activity_tracker_api.Base.{
  ℕ, ◌==◌, String, Bool, true, false, Option, none, some, List, [], ◌∷◌, map, length, ◌⊎◌, inl, inr,
  if◌then◌else◌,
}
use activity_tracker_api.Base.Numbers.{whole, to_text}
use activity_tracker_api.Http.{Request, Verdict, next, respond, ServiceResponse, failure}
use activity_tracker_api.Logs.{ApiLogData}
use activity_tracker_api.Auth.Tokens.{Jwt}
use activity_tracker_api.Auth.Clients.{ClientTable, Compare}
use activity_tracker_api.Auth.Middleware.{authenticate_api_key}
use activity_tracker_api.Redis.{RedisService}
use activity_tracker_api.RateLimiter.{RateLimiterService}
use activity_tracker_api.RateLimiter.Redis.{SortedSets}
use activity_tracker_api.RateLimiter.Middleware.{Answer, rate_limit_middleware}
use activity_tracker_api.Pipeline.{Database, State}
use activity_tracker_api.Hits.{HitBody, LogEvent, handle_hit}

-- An entry of `ZodError.errors`.
pub record Issue : Type 0 where
  pub path : List String
  pub message : String

-- `parts.join(separator)`.
abbrev pub join : (separator : String) → List String → String
join separator [] = ""
join separator (part ∷ []) = part
join separator (part ∷ next_part ∷ parts) =
    let rest = join separator (next_part ∷ parts) in String.◌++◌ part (String.◌++◌ separator rest)

abbrev pub issue_text : Issue → String
issue_text issue =
    String.◌++◌ (if length issue.path == 0 then "root" else join "." issue.path)
      (String.◌++◌ ": " issue.message)

abbrev pub error_message : List String → String
error_message [] = "Invalid input (0 errors): "
error_message (error ∷ []) = String.◌++◌ "Invalid input: " error
error_message (error ∷ more ∷ errors) = String.◌++◌ "Invalid input (" (
    String.◌++◌ (to_text (whole (length (error ∷ more ∷ errors))))
      (String.◌++◌ " errors): " (join "; " (error ∷ more ∷ errors))))

-- The body that the schema accepts, or the answer.
unfoldable pub validate_request :
    {A B : Type 0} → (schema : A → List Issue ⊎ B) → A → ServiceResponse (Unit {0}) ⊎ B
validate_request schema body = elim (schema body) [
  | inl issues ↦ inl (failure (error_message (map issue_text issues)) tt 400)
  | inr accepted ↦ inr accepted
]

module _ (jwt : Jwt) (compare : Compare) (table : ClientTable) (sets : SortedSets) (d : Database)
    {Raw : Type 0} (schema : Raw → List Issue ⊎ HitBody) where
  -- What the handlers of the route change, and the Redis service that they publish with.
  pub record Backing : Type 0 where
    pub clients : ClientTable.World table
    pub limiter : RateLimiterService × SortedSets.Store sets
    pub logs : State (Database.World d)
    pub redis : RedisService

  -- The status that is sent, and what is handed to Redis for publishing.
  pub record Served : Type 0 where
    pub status : ℕ
    pub published : Option LogEvent
    pub backing : Backing

  abbrev pub refuse : ℕ → Backing → Served
  refuse status s = record { status = status; published = none; backing = s }

  abbrev pub serve_hit : Request → HitBody → Backing → Served
  serve_hit req body s =
      let (response, logs, event) = handle_hit d s.redis req body s.logs in
      record {
        status = response.status_code;
        published = event;
        backing = record s { logs = logs };
      }

  abbrev pub serve_valid : Request → Raw → Backing → Served
  serve_valid req raw s = elim (validate_request schema raw) [
    | inl response ↦ refuse response.status_code s
    | inr body ↦ serve_hit req body s
  ]

  abbrev pub serve_limited : Verdict → Raw → Backing → Served
  serve_limited (respond status message) raw s = refuse status s
  serve_limited (next req) raw s = serve_valid req raw s

  abbrev pub serve_known : (now later : ℕ) (random : String) → Verdict → Raw → Backing → Served
  serve_known now later random (respond status message) raw s = refuse status s
  serve_known now later random (next req) raw s =
      let limited = rate_limit_middleware sets now later random req s.limiter in
      serve_limited limited.verdict raw (record s { limiter = limited.state })

  -- The handlers of the route, one after the other.
  unfoldable pub post_logs : (now later : ℕ) (random : String) → Request → Raw → Backing → Served
  post_logs now later random req raw s =
      let (verdict, w) = authenticate_api_key jwt compare table req s.clients in
      serve_known now later random verdict raw (record s { clients = w })
