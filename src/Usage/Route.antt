-- ===== src/Usage/Route.antt =====
-- `GET /api/usage/daily` and `GET /api/usage/top` of src/api/client/clientRouter.ts from the request to the
-- answer: both authentications, the rate limit, the validation and the controller. The schemas are
-- zod's, and are parameters.

pub mod Admitted
use activity_tracker_api.Base.{ℕ, String, Option, none, some, List, ◌⊎◌, inl, inr}
use activity_tracker_api.Http.{Request, Verdict, next, respond, ServiceResponse}
use activity_tracker_api.Auth.Tokens.{Jwt}
use activity_tracker_api.Auth.Clients.{ClientTable, Compare}
use activity_tracker_api.Auth.Routes.{usage_guard}
use activity_tracker_api.RateLimiter.{RateLimiterService}
use activity_tracker_api.RateLimiter.Redis.{SortedSets}
use activity_tracker_api.RateLimiter.Middleware.{rate_limit_middleware}
use activity_tracker_api.Redis.{Ioredis, JsonCodec}
use activity_tracker_api.Reports.{DailyUsageResult, TopClientResult, Queries}
use activity_tracker_api.Usage.{Env, Backend}
use activity_tracker_api.Clients.Handlers.{handle_daily_usage, handle_top_clients}
use activity_tracker_api.Hits.Route.{Issue, validate_request}

module _ (jwt : Jwt) (compare : Compare) (table : ClientTable) (sets : SortedSets) (io : Ioredis)
    (db : Queries) (env : Env) where
  -- What the handlers of a usage route change. The sorted sets of the limiter and the cached values
  -- have different keys, and are kept apart.
  pub record Backing : Type 0 where
    pub clients : ClientTable.World table
    pub limiter : RateLimiterService × SortedSets.Store sets
    pub reports : Backend io db env

  -- The status that is sent, the rows that the controller answers with, and what is left.
  pub record Served (A : Type 0) : Type 0 where
    pub status : ℕ
    pub rows : Option (List A)
    pub backing : Backing

  abbrev pub refuse : (A : Type 0) → ℕ → Backing → Served A
  refuse A status s = record { status = status; rows = none; backing = s }

  module _ {Raw B A : Type 0} (schema : Raw → List Issue ⊎ B)
      (controller : B → Backend io db env → ServiceResponse (List A) × Backend io db env) where
    abbrev pub serve_usage : B → Backing → Served A
    serve_usage query s =
        let (response, reports) = controller query s.reports in
        record {
          status = response.status_code;
          rows = some response.response_object;
          backing = record s { reports = reports };
        }

    abbrev pub serve_valid : Raw → Backing → Served A
    serve_valid raw s = elim (validate_request schema raw) [
      | inl response ↦ refuse A response.status_code s
      | inr query ↦ serve_usage query s
    ]

    abbrev pub serve_limited : Verdict → Raw → Backing → Served A
    serve_limited (respond status message) raw s = refuse A status s
    serve_limited (next req) raw s = serve_valid raw s

    abbrev pub serve_known : (now later : ℕ) (random : String) → Verdict → Raw → Backing → Served A
    serve_known now later random (respond status message) raw s = refuse A status s
    serve_known now later random (next req) raw s =
        let limited = rate_limit_middleware sets now later random req s.limiter in
        serve_limited limited.verdict raw (record s { limiter = limited.state })

    -- The handlers that the two routes share, one after the other.
    unfoldable pub get_usage :
        (now later : ℕ) (random : String) → Request → Raw → Backing → Served A
    get_usage now later random req raw s =
        let (verdict, w) = usage_guard jwt compare table req s.clients in
        serve_known now later random verdict raw (record s { clients = w })

  module _ (json_daily : JsonCodec (List DailyUsageResult))
      (json_top : JsonCodec (List TopClientResult)) where
    abbrev pub daily_controller :
        Option String
        → Backend io db env
        → ServiceResponse (List DailyUsageResult) × Backend io db env
    daily_controller days s = handle_daily_usage io db env json_daily json_top days s

    abbrev pub top_controller :
        Option String × Option String
        → Backend io db env
        → ServiceResponse (List TopClientResult) × Backend io db env
    top_controller (hours, limit) s = handle_top_clients io db env json_daily json_top hours limit s

    unfoldable pub get_usage_daily :
        {Raw : Type 0}
        → (schema : Raw → List Issue ⊎ Option String) → (now later : ℕ) (random : String) → Request
        → Raw
        → Backing
        → Served DailyUsageResult
    get_usage_daily schema now later random req raw s =
        get_usage schema daily_controller now later random req raw s

    unfoldable pub get_usage_top :
        {Raw : Type 0}
        → (schema : Raw → List Issue ⊎ (Option String × Option String))
        → (now later : ℕ) (random : String) → Request
        → Raw
        → Backing
        → Served TopClientResult
    get_usage_top schema now later random req raw s =
        get_usage schema top_controller now later random req raw s
