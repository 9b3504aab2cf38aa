-- ===== src/Auth/Connections.antt =====
-- Whom src/middleware/sse-auth.middleware.ts lets in.
use activity_tracker_api.Base.{
  ◌≡◌, arith, String, true, false, none, some, List, ok, ◌>>=◌, >>=-eq-ok, Result-cases, Bool-cases,
  inl, inr,
}
use activity_tracker_api.Http.{Request, next, is_truthy}
use activity_tracker_api.Auth.Tokens.{Jwt, JwtPayload, valid, verify_jwt}
use activity_tracker_api.Auth.Clients.{Client, ClientTable, Compare, find_matching}
use activity_tracker_api.Auth.Middleware.{header_or_empty}
use activity_tracker_api.Auth.Handshake.{attach_plain, authenticate_sse, sse_verified, sse_matched}
use activity_tracker_api.Auth.Sound.{
  IsFirstMatch, find_matching_sound, All-IsFirstMatch, verify_jwt-valid, some_of_truthy,
}

module _ (jwt : Jwt) (compare : Compare) (table : ClientTable) where
  open table use {World, find_by_client_id, find_active}

  -- Whose query parameters a request carries: a token that verifies, of a client that is in the table
  -- and active, or no token and the key of the first active client whose hash matches.
  pub data ConnectionOwner (req : Request) (w : World) (client : Client) : Type 0 where
    by_token :
        (token : String) (payload : JwtPayload)
        → req.query_token ≡ some token
        → jwt.verify token ≡ valid payload
        → find_by_client_id payload.client_id w ≡ ok (some client)
        → client.client_id ≡ payload.client_id
        → client.is_active ≡ true
        → ConnectionOwner req w client
    by_key :
        (key : String) (clients : List Client)
        → is_truthy req.query_token ≡ false
        → req.query_api_key ≡ some key
        → find_active w ≡ ok clients
        → IsFirstMatch compare key client clients
        → client.is_active ≡ true
        → ConnectionOwner req w client

  sse-by_token :
      (req req' : Request) (w : World)
      → is_truthy req.query_token ≡ true
      → sse_verified jwt compare table req w (verify_jwt jwt (header_or_empty req.query_token))
        ≡ next req'
      → (client : Client) × ConnectionOwner req w client × (req' ≡ attach_plain req client)
  sse-by_token req req' w sent e =
      let token = header_or_empty req.query_token in
      elim (Result-cases (verify_jwt jwt token)) [
        | inr (err, threw) ↦ absurd (ground arith)
        | inl (result, verified) ↦ elim (Bool-cases result.expired) [
          | inl old ↦ absurd (ground arith)
          | inr live ↦ elim (Result-cases (find_by_client_id result.payload.client_id w)) [
            | inr (err, threw) ↦ absurd (ground arith)
            | inl (none, found) ↦ absurd (ground arith)
            | inl (some client, found) ↦ (
              client,
              by_token token result.payload (some_of_truthy req.query_token sent)
                  (verify_jwt-valid jwt token result verified live) found
                  (table.found_client_id result.payload.client_id w client found) (ground arith),
              ground arith,
            )
          ]
        ]
      ]

  sse-by_key :
      (req req' : Request) (w : World)
      → is_truthy req.query_token ≡ false
      → is_truthy req.query_api_key ≡ true
      → sse_matched jwt compare table req
          (find_active w >>= find_matching compare (header_or_empty req.query_api_key))
        ≡ next req'
      → (client : Client) × ConnectionOwner req w client × (req' ≡ attach_plain req client)
  sse-by_key req req' w no_token sent e =
      let key = header_or_empty req.query_api_key in
      elim (Result-cases (find_active w >>= find_matching compare key)) [
        | inr (err, threw) ↦ absurd (ground arith)
        | inl (none, found) ↦ absurd (ground arith)
        | inl (some client, found) ↦
            let (clients, queried, matched) =
              >>=-eq-ok (find_active w) (find_matching compare key) found in
            let first = find_matching_sound compare key clients client matched in
            (
              client,
              by_key key clients no_token (some_of_truthy req.query_api_key sent) queried first (
                  All-IsFirstMatch compare (λ x. x.is_active ≡ true) first
                    (table.found_active w clients queried)),
              ground arith,
            )
      ]

  -- `authenticateSSE` lets a request through only for the owner of its token, or of its key.
  pub authenticate_sse-ConnectionOwner :
      (req req' : Request) (w : World)
      → authenticate_sse jwt compare table req w ≡ next req'
      → (client : Client) × ConnectionOwner req w client × (req' ≡ attach_plain req client)
  unfolding authenticate_sse
  authenticate_sse-ConnectionOwner req req' w e = elim (Bool-cases (is_truthy req.query_token)) [
    | inl token ↦ sse-by_token req req' w token (rw token at e)
    | inr no_token ↦ elim (Bool-cases (is_truthy req.query_api_key)) [
      | inl key ↦ sse-by_key req req' w no_token key (rw (no_token, key) at e)
      | inr no_key ↦ absurd (ground arith)
    ]
  ]
