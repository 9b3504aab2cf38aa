-- ===== src/Streams.antt =====
-- streamUsageUpdates of src/api/client/clientService.ts and src/api/client/clientController.ts: the
-- server-sent events of one connection. Its two intervals, the answers that an update waits for and
-- the close of the connection are events, which come in any order.
pub mod Channel
pub mod Closed
pub mod Route
use Prim.Native.String
use activity_tracker_api.Base.{
  ℕ, zero, suc, String, Bool, true, false, not, ◌||◌, Option, none, some, List, [], ◌∷◌, ◌++◌,
  str_eq, if◌then◌else◌,
}
use activity_tracker_api.Base.Numbers.{whole, to_text}
use activity_tracker_api.Http.{Request, AuthClient, ServiceResponse, is_truthy}
use activity_tracker_api.Redis.{Ioredis, JsonCodec}
use activity_tracker_api.Reports.{DailyUsageResult, TopClientResult, Queries}
use activity_tracker_api.Usage.{Env, Backend, get_daily_usage, get_top_clients}

-- What is written in one go: an event with its data, or a comment that keeps the connection alive.
pub data Message : Type 0 where
  connected : (json : String) → Message
  heartbeat : (now : ℕ) → Message
  daily_update : (json : String) → Message
  top_update : (json : String) → Message

abbrev with_data : (event json : String) → List String
with_data event json =
    String.◌++◌ "event: " (String.◌++◌ event "\n")
    ∷ String.◌++◌ "data: " (String.◌++◌ json "\n\n")
    ∷ []

-- The calls of `writeFn`.
abbrev pub writes : Message → List String
writes (connected json) = with_data "connected" json
writes (heartbeat now) = String.◌++◌ ": heartbeat " (String.◌++◌ (to_text (whole now)) "\n\n") ∷ []
writes (daily_update json) = with_data "usage:daily:update" json
writes (top_update json) = with_data "usage:top:update" json

-- The answer that an update waits for.
pub data Waiting : Type 0 where
  for_daily : Waiting
  for_top : Waiting

abbrev pub wants_daily : (channel : String) → Bool
wants_daily channel = str_eq channel "all" || str_eq channel "daily"

abbrev pub wants_top : (channel : String) → Bool
wants_top channel = str_eq channel "all" || str_eq channel "top"

-- What happens: an interval fires, an answer comes for one of the waiting updates, or the client goes.
pub data Event : Type 0 where
  heartbeat_due : (now : ℕ) → Event
  update_due : Event
  answered : (position : ℕ) → Event
  closes : Event

-- `req.query.channel || "all"`.
abbrev pub channel_of : (query_channel : Option String) → String
channel_of none = "all"
channel_of (some channel) = if is_truthy (some channel) then channel else "all"

module _ (io : Ioredis) (db : Queries) (env : Env) (json_daily : JsonCodec (List DailyUsageResult))
    (json_top : JsonCodec (List TopClientResult)) where
  -- One connection: whether its intervals run, the updates that wait, and what was sent.
  pub record Stream : Type 0 where
    pub channel : String
    pub running : Bool
    pub waiting : List Waiting
    pub sent : List Message
    pub backend : Backend io db env

  abbrev pub send : Message → Stream → Stream
  send message s = record s { sent = s.sent ++ message ∷ [] }

  -- `JSON.stringify({ clientId, channel, timestamp })` is an argument.
  unfoldable pub start_stream : (channel json : String) → Backend io db env → Stream
  start_stream channel json backend = record {
    channel = channel;
    running = true;
    waiting = [];
    sent = connected json ∷ [];
    backend = backend;
  }

  -- The list of rows is an object, also where it is empty.
  abbrev pub sent_if : {A : Type 0} → ServiceResponse A → Message → List Message
  sent_if response message = if response.success then message ∷ [] else []

  abbrev pub after_daily : (channel : String) → List Waiting
  after_daily channel = if wants_top channel then for_top ∷ [] else []

  abbrev pub first_wait : (channel : String) → List Waiting
  first_wait channel = if wants_daily channel then for_daily ∷ [] else after_daily channel

  -- What an update sends when its answer comes, what it then waits for, and what the answer changed.
  abbrev pub go_on :
      Waiting
      → (channel : String) → Backend io db env
      → List Message × List Waiting × Backend io db env
  go_on for_daily channel backend =
      let (response, backend') = get_daily_usage io db env json_daily (whole 7) backend in
      (
        sent_if response (daily_update (json_daily.stringify response.response_object)),
        after_daily channel,
        backend',
      )
  go_on for_top channel backend =
      let (response, backend') = get_top_clients io db env json_top (whole 24) (whole 3) backend in
      (sent_if response (top_update (json_top.stringify response.response_object)), [], backend')

  -- The update at a position of those that wait goes on.
  abbrev pub answer :
      ℕ
      → (channel : String) → List Waiting
      → Backend io db env
      → List Message × List Waiting × Backend io db env
  answer i channel [] backend = ([], [], backend)
  answer zero channel (w ∷ waiting) backend =
      let (messages, next_wait, backend') = go_on w channel backend in
      (messages, next_wait ++ waiting, backend')
  answer (suc i) channel (w ∷ waiting) backend =
      let (messages, rest, backend') = answer i channel waiting backend in
      (messages, w ∷ rest, backend')

  unfoldable pub handle : Event → Stream → Stream
  handle (heartbeat_due now) s = if s.running then send (heartbeat now) s else s
  handle update_due s =
      if s.running then record s { waiting = s.waiting ++ first_wait s.channel } else s
  handle (answered i) s =
      let (messages, waiting, backend) = answer i s.channel s.waiting s.backend in
      record s { sent = s.sent ++ messages; waiting = waiting; backend = backend }
  handle closes s = record s { running = false }

  unfoldable pub handle_all : List Event → Stream → Stream
  handle_all [] s = s
  handle_all (e ∷ es) s = handle_all es (handle e s)
