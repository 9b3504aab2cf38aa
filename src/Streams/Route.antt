-- ===== src/Streams/Route.antt =====
-- `GET /api/usage/stream` of src/api/client/clientRouter.ts: the authentication by query parameters, and the
-- controller that starts the stream.
use activity_tracker_api.Base.{
  ℕ, ◌≡◌, refl, ap, ◌∙◌, subst, String, true, Option, none, some, List, ◌⊎◌, inl, inr, Bool-cases,
}
use activity_tracker_api.Http.{Request, Verdict, next, respond, is_truthy}
use activity_tracker_api.Auth.Tokens.{Jwt}
use activity_tracker_api.Auth.Clients.{Client, ClientTable, Compare}
use activity_tracker_api.Auth.Handshake.{
  Handshake, accepted, refused, attach_plain, authenticate_sse, authenticate_socket,
}
use activity_tracker_api.Auth.Agreement.{SameAnswer, sse-SameAnswer}
use activity_tracker_api.Auth.Connections.{ConnectionOwner, authenticate_sse-ConnectionOwner}
use activity_tracker_api.Hits.Route.Limit.{Verdict-cases}
use activity_tracker_api.Redis.{Ioredis, JsonCodec}
use activity_tracker_api.Reports.{DailyUsageResult, TopClientResult, Queries}
use activity_tracker_api.Usage.{Env, Backend}
use activity_tracker_api.Clients.Handlers.{handle_stream}
use activity_tracker_api.Streams.{Stream, channel_of, start_stream}

SameAnswer-401 :
    (status : ℕ) (message : String) (h : Handshake)
    → SameAnswer (respond status message) h
    → status ≡ 401
SameAnswer-401 status message (accepted client_id email) same = absurd same
SameAnswer-401 status message (refused text) same = same

module _ (jwt : Jwt) (compare : Compare) (table : ClientTable) (io : Ioredis) (db : Queries)
    (env : Env) (json_daily : JsonCodec (List DailyUsageResult))
    (json_top : JsonCodec (List TopClientResult)) where
  abbrev pub Connection : Type 0
  Connection = Stream io db env json_daily json_top

  -- A status, or the connection that stays open.
  abbrev pub opened_or_401 : Option Connection → ℕ ⊎ Connection
  opened_or_401 none = inl 401
  opened_or_401 (some s) = inr s

  abbrev pub stream_known :
      Verdict → (channel : Option String) → (json : String) → Backend io db env → ℕ ⊎ Connection
  stream_known (respond status message) channel json backend = inl status
  stream_known (next req) channel json backend =
      opened_or_401 (handle_stream io db env json_daily json_top req.client channel json backend)

  -- `channel` is the query's, and `json` the text of the first message.
  unfoldable pub get_stream :
      Request
      → (channel : Option String) → (json : String) → ClientTable.World table
      → Backend io db env
      → ℕ ⊎ Connection
  get_stream req channel json w backend =
      stream_known (authenticate_sse jwt compare table req w) channel json backend

  -- A connection that was opened for the owner of what the request carries.
  pub record IsOpened (req : Request) (channel : Option String) (json : String)
      (w : ClientTable.World table) (backend : Backend io db env) (answer : ℕ ⊎ Connection)
      : Type 0 where
    pub client : Client
    pub owner : ConnectionOwner jwt compare table req w client
    pub named : is_truthy (some client.client_id) ≡ true
    pub opened :
        answer ≡ inr (start_stream io db env json_daily json_top (channel_of channel) json backend)

  refused_401 :
      (req : Request) (w : ClientTable.World table) (status : ℕ) (message : String)
      → authenticate_sse jwt compare table req w ≡ respond status message
      → status ≡ 401
  refused_401 req w status message e =
      SameAnswer-401 status message
        (authenticate_socket jwt compare table req.query_token req.query_api_key w)
        (subst
          (λ v.
            SameAnswer v
              (authenticate_socket jwt compare table req.query_token req.query_api_key w))
          e (sse-SameAnswer jwt compare table req w))

  -- A request for a stream is answered 401, whatever went wrong, or carries a token or an API key of an
  -- active client, and its stream is started on the channel that it names, or else on all.
  pub get_stream-IsOpened :
      (req : Request) (channel : Option String) (json : String) (w : ClientTable.World table)
      (backend : Backend io db env)
      → let answer = get_stream req channel json w backend in
        (answer ≡ inl 401) ⊎ IsOpened req channel json w backend answer
  unfolding get_stream handle_stream
  get_stream-IsOpened req channel json w backend =
      let known = authenticate_sse jwt compare table req w in
      elim (Verdict-cases known) [
        | inr (status, message, stopped) ↦ inl (
            ap (λ v. stream_known v channel json backend) stopped
            ∙ ap inl (refused_401 req w status message stopped))
        | inl (req', passed) ↦
            let (client, owner, same) =
              authenticate_sse-ConnectionOwner jwt compare table req req' w passed in
            let answered : stream_known known channel json backend
                ≡ stream_known (next (attach_plain req client)) channel json backend =
              ap (λ v. stream_known v channel json backend) (passed ∙ ap next same) in
            elim (Bool-cases (is_truthy (some client.client_id))) [
              | inr nameless ↦ inl (answered ∙ rw nameless refl)
              | inl named ↦ inr (record {
                client = client;
                owner = owner;
                named = named;
                opened = answered ∙ rw named refl;
              })
            ]
      ]
