-- ===== src/Auth/Handshake.antt =====
-- Authentication where there are no headers: src/middleware/sse-auth.middleware.ts, by query
-- parameters, and the handshake of src/services/websocket.service.ts.
use activity_tracker_api.Base.{
  String, not, Option, none, some, if◌then◌else◌, Result, ok, thrown, ◌>>=◌,
}
use activity_tracker_api.Http.{Request, Verdict, next, respond, is_truthy}
use activity_tracker_api.Auth.Tokens.{Jwt, JwtVerifyResult, verify_jwt}
use activity_tracker_api.Auth.Clients.{Client, ClientTable, Compare, find_matching}
use activity_tracker_api.Auth.Middleware.{header_or_empty}

-- What the SSE middleware attaches: no API key, and no rate limit.
abbrev pub attach_plain : Request → Client → Request
attach_plain req client = record req {
  client = some (record {
    client_id = client.client_id;
    email = client.email;
    name = client.name;
    api_key = none;
    rate_limit = none;
  });
}

-- A socket's handshake is accepted with the client's id and email, or refused with an error.
pub data Handshake : Type 0 where
  accepted : (client_id email : String) → Handshake
  refused : (message : String) → Handshake

module _ (jwt : Jwt) (compare : Compare) (table : ClientTable) where
  open table use {World, find_by_client_id, find_active}

  abbrev pub sse_found : Request → Option Client → Verdict
  sse_found req none = respond 401 "Invalid or inactive client"
  sse_found req (some client) =
      if not client.is_active
      then respond 401 "Invalid or inactive client"
      else next (attach_plain req client)

  abbrev pub sse_queried : Request → Result (Option Client) → Verdict
  sse_queried req (thrown e) = respond 401 "Authentication failed"
  sse_queried req (ok found) = sse_found req found

  -- `verifyJWT` returns a payload whenever it returns, so `!result.payload` never holds.
  abbrev pub sse_token : Request → World → JwtVerifyResult → Verdict
  sse_token req w result =
      if result.expired
      then respond 401 "Token expired or invalid"
      else sse_queried req (find_by_client_id result.payload.client_id w)

  abbrev pub sse_match : Request → Option Client → Verdict
  sse_match req none = respond 401 "Invalid API key"
  sse_match req (some client) = next (attach_plain req client)

  -- What the verification and the loop over the clients lead to; the `catch` answers the rest.
  abbrev pub sse_verified : Request → World → Result JwtVerifyResult → Verdict
  sse_verified req w (thrown e) = respond 401 "Authentication failed"
  sse_verified req w (ok result) = sse_token req w result

  abbrev pub sse_matched : Request → Result (Option Client) → Verdict
  sse_matched req (thrown e) = respond 401 "Authentication failed"
  sse_matched req (ok matched) = sse_match req matched

  unfoldable pub authenticate_sse : Request → World → Verdict
  authenticate_sse req w =
      if is_truthy req.query_token
      then sse_verified req w (verify_jwt jwt (header_or_empty req.query_token))
      else if is_truthy req.query_api_key
      then sse_matched req
          (find_active w >>= find_matching compare (header_or_empty req.query_api_key))
      else respond 401 "Authentication required. Provide token or apiKey query parameter."

  abbrev pub socket_found : Option Client → Handshake
  socket_found none = refused "Invalid or inactive client"
  socket_found (some client) =
      if not client.is_active
      then refused "Invalid or inactive client"
      else accepted client.client_id client.email

  abbrev pub socket_queried : Result (Option Client) → Handshake
  socket_queried (thrown e) = refused "Authentication failed"
  socket_queried (ok found) = socket_found found

  abbrev pub socket_token : World → JwtVerifyResult → Handshake
  socket_token w result =
      if result.expired
      then refused "Token expired or invalid"
      else socket_queried (find_by_client_id result.payload.client_id w)

  abbrev pub socket_match : Option Client → Handshake
  socket_match none = refused "Invalid API key"
  socket_match (some client) = accepted client.client_id client.email

  abbrev pub socket_verified : World → Result JwtVerifyResult → Handshake
  socket_verified w (thrown e) = refused "Authentication failed"
  socket_verified w (ok result) = socket_token w result

  abbrev pub socket_matched : Result (Option Client) → Handshake
  socket_matched (thrown e) = refused "Authentication failed"
  socket_matched (ok matched) = socket_match matched

  -- `io.use` of the socket server; `token` and `api_key` are those of `socket.handshake.auth`.
  unfoldable pub authenticate_socket : (token api_key : Option String) → World → Handshake
  authenticate_socket token api_key w =
      if is_truthy token
      then socket_verified w (verify_jwt jwt (header_or_empty token))
      else if is_truthy api_key
      then socket_matched (find_active w >>= find_matching compare (header_or_empty api_key))
      else refused "Authentication required"
