-- ===== src/Tests/Streams.antt =====
-- Runs of streamUsageUpdates and of the handlers of src/api/client/clientController.ts.
use activity_tracker_api.Base.{◌+◌, ◌≤◌, ◌≡◌, refl, true, false, none, some, List, [], ◌∷◌, length}
use activity_tracker_api.Base.Numbers.{whole, parse_int}
use activity_tracker_api.Redis.{Redis}
use activity_tracker_api.Reports.{Queries, DailyUsageResult, TopClientResult}
use activity_tracker_api.Usage.{Env, Backend}
use activity_tracker_api.Tracker.{parsed_or}
use activity_tracker_api.Streams.{
  Stream, Event, heartbeat_due, update_due, answered, closes, start_stream, handle_all, connected,
  for_top,
}
use activity_tracker_api.Base.{inl, inr, ◌⊎◌}
use activity_tracker_api.Http.{Request}
use activity_tracker_api.Auth.Clients.{find_matching}
use activity_tracker_api.Auth.Handshake.{authenticate_sse}
use activity_tracker_api.Clients.Handlers.{handle_stream}
use activity_tracker_api.Streams.Route.{get_stream, IsOpened, get_stream-IsOpened}
use activity_tracker_api.Streams.Channel.{IsSent, handle_all-IsAsked}
use activity_tracker_api.Streams.Closed.{due, handle_all-due}
use activity_tracker_api.Tests.Stores.{
  plain_tokens, plain_compare, client_list, client, value_store, Values, two_days, day, only,
}

abbrev queries : Queries
queries = two_days 1000

abbrev env : Env
env = record {
  cache_hit_tracking_enabled = true;
  cache_ttl_usage_daily = 300;
  cache_ttl_usage_top = 60;
}

abbrev redis : Redis Values
redis = record {
  service = record {
    write_client = none;
    read_client = none;
    is_connected = false;
    reconnect_attempts = 0;
  };
  store = record { ended = []; values = [] };
}

abbrev backend : Backend value_store queries env
backend = record { redis = redis; world = 0 }

abbrev days : List DailyUsageResult
days = day 1001 5 ∷ []

abbrev tops : List TopClientResult
tops = []

-- An update whose second answer comes when the client is gone.
abbrev events : List Event
events = heartbeat_due 30000 ∷ update_due ∷ answered 0 ∷ closes ∷ answered 0 ∷ []

handle_all-IsAsked_example :
    IsSent value_store queries env
      (only days)
      (only tops)
      "top"
      "{}"
      (handle_all value_store queries env
        (only days)
        (only tops)
        events
        (start_stream value_store queries env (only days) (only tops) "top" "{}" backend)).sent
handle_all-IsAsked_example =
    handle_all-IsAsked value_store queries env (only days) (only tops) events "top" "{}" backend

abbrev closed_stream : Stream value_store queries env (only days) (only tops)
closed_stream = record {
  channel = "all";
  running = false;
  waiting = for_top ∷ [];
  sent = connected "{}" ∷ [];
  backend = backend;
}

handle_all-due_example :
    length
      (handle_all value_store queries env
        (only days)
        (only tops)
        (update_due ∷ answered 0 ∷ [])
        closed_stream).sent
    ≤ length closed_stream.sent + due closed_stream.waiting
handle_all-due_example =
    handle_all-due value_store queries env (only days) (only tops) (update_due ∷ answered 0 ∷ [])
      closed_stream refl

defaults :
    (parsed_or (whole 7) none ≡ whole 7)
    × (parsed_or (whole 7) (some "") ≡ whole 7)
    × (parsed_or (whole 7) (some "30") ≡ whole 30)
unfolding parse_int
defaults = (refl, refl, refl)

abbrev stream_request : Request
stream_request = record {
  authorization = none;
  x_api_key = none;
  query_token = none;
  query_api_key = some "CL-1";
  client = none;
}

get_stream-IsOpened_example :
    let answer =
      get_stream plain_tokens plain_compare client_list value_store queries env
        (only days)
        (only tops)
        stream_request
        (some "top")
        "{}"
        (client "CL-1" true ∷ [])
        backend in
    (answer ≡ inl 401)
    ⊎ IsOpened plain_tokens plain_compare client_list value_store queries env
        (only days)
        (only tops)
        stream_request
        (some "top")
        "{}"
        (client "CL-1" true ∷ [])
        backend
        answer
get_stream-IsOpened_example =
    get_stream-IsOpened plain_tokens plain_compare client_list value_store queries env (only days)
      (only tops) stream_request (some "top") "{}" (client "CL-1" true ∷ []) backend

opened_by_key :
    get_stream plain_tokens plain_compare client_list value_store queries env
      (only days)
      (only tops)
      stream_request
      (some "top")
      "{}"
      (client "CL-1" true ∷ [])
      backend
    ≡ inr (start_stream value_store queries env (only days) (only tops) "top" "{}" backend)
unfolding get_stream handle_stream authenticate_sse find_matching
opened_by_key = refl
