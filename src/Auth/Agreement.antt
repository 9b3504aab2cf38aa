-- ===== src/Auth/Agreement.antt =====
-- The three ways in agree: src/middleware/sse-auth.middleware.ts, the handshake of
-- src/services/websocket.service.ts, and src/middleware/auth.middleware.ts.
use activity_tracker_api.Base.{
  ◌≡◌, refl, Option, none, some, Result, ok, thrown, Bool-cases, inl, inr,
}
use activity_tracker_api.Http.{AuthClient, Request, Verdict, next, respond, is_truthy}
use activity_tracker_api.Auth.Tokens.{Jwt, JwtVerifyResult}
use activity_tracker_api.Auth.Clients.{Client, ClientTable, Compare}
use activity_tracker_api.Auth.Handshake.{
  Handshake, accepted, refused, authenticate_sse, authenticate_socket, sse_verified, sse_matched,
  sse_queried, sse_found, socket_verified, socket_matched, socket_queried, socket_found,
}

-- An answer of the SSE middleware and one of the socket server that say the same: the same client is
-- let in, or nobody is, with status 401.
abbrev pub SameAnswer : Verdict → Handshake → Type 0
SameAnswer (next req) (accepted client_id email) =
    (c : AuthClient) × (req.client ≡ some c) × (c.client_id ≡ client_id) × (c.email ≡ email)
SameAnswer (respond status m) (refused m') = status ≡ 401
SameAnswer (next req) (refused m) = ⊥
SameAnswer (respond status m) (accepted client_id email) = ⊥

module _ (jwt : Jwt) (compare : Compare) (table : ClientTable) (req : Request)
    (w : ClientTable.World table) where
  found-SameAnswer :
      (o : Option Client)
      → SameAnswer (sse_found jwt compare table req o) (socket_found jwt compare table o)
  found-SameAnswer none = refl
  found-SameAnswer (some c) = elim (Bool-cases c.is_active) [
    | inl on ↦ rw on (_, refl, refl, refl)
    | inr off ↦ rw off refl
  ]

  queried-SameAnswer :
      (r : Result (Option Client))
      → SameAnswer (sse_queried jwt compare table req r) (socket_queried jwt compare table r)
  queried-SameAnswer (thrown e) = refl
  queried-SameAnswer (ok o) = found-SameAnswer o

  verified-SameAnswer :
      (r : Result JwtVerifyResult)
      → SameAnswer (sse_verified jwt compare table req w r) (socket_verified jwt compare table w r)
  verified-SameAnswer (thrown e) = refl
  verified-SameAnswer (ok r) = elim (Bool-cases r.expired) [
    | inl old ↦ rw old refl
    | inr live ↦ rw live (queried-SameAnswer (table.find_by_client_id r.payload.client_id w))
  ]

  matched-SameAnswer :
      (r : Result (Option Client))
      → SameAnswer (sse_matched jwt compare table req r) (socket_matched jwt compare table r)
  matched-SameAnswer (thrown e) = refl
  matched-SameAnswer (ok none) = refl
  matched-SameAnswer (ok (some c)) = (_, refl, refl, refl)

  -- With the same token and API key, the SSE middleware and the socket handshake let in the same
  -- client, or both refuse, the middleware with status 401.
  pub sse-SameAnswer :
      SameAnswer
        (authenticate_sse jwt compare table req w)
        (authenticate_socket jwt compare table req.query_token req.query_api_key w)
  unfolding authenticate_sse authenticate_socket
  sse-SameAnswer = elim (Bool-cases (is_truthy req.query_token)) [
    | inl token ↦ rw token (verified-SameAnswer _)
    | inr no_token ↦ elim (Bool-cases (is_truthy req.query_api_key)) [
      | inl key ↦ rw (no_token, key) (matched-SameAnswer _)
      | inr no_key ↦ rw (no_token, no_key) refl
    ]
  ]
