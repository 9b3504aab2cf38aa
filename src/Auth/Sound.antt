-- ===== src/Auth/Sound.antt =====
-- Whom the middlewares of src/middleware/auth.middleware.ts let through.
use activity_tracker_api.Base.{
  ◌≡◌, refl, ap, subst, String, true, false, Option, none, some, List, [], ◌∷◌, All, arith, ok,
  thrown, ◌>>=◌, Result-cases, >>=-eq-ok, Bool-cases, Option-cases, inl, inr,
}
use activity_tracker_api.Http.{Request, next, is_truthy}
use activity_tracker_api.Auth.Tokens.{Jwt, JwtVerifyResult, JwtPayload, valid, verify_jwt}
use activity_tracker_api.Auth.Clients.{Client, ClientTable, Compare, find_matching}
use activity_tracker_api.Auth.Middleware.{
  has_bearer, bearer_token, header_or_empty, attach, authenticate_jwt, authenticate_api_key,
}

-- The first of the clients whose hash matches: those before it have no hash, or one that does not.
pub data IsFirstMatch (compare : Compare) (api_key : String) (client : Client)
    : List Client → Type 0 where
  this_one :
      {clients : List Client} (hash : String)
      → client.api_key_hash ≡ some hash
      → compare api_key hash ≡ ok true
      → IsFirstMatch compare api_key client (client ∷ clients)
  no_hash :
      {other : Client} {clients : List Client}
      → other.api_key_hash ≡ none
      → IsFirstMatch compare api_key client clients
      → IsFirstMatch compare api_key client (other ∷ clients)
  no_match :
      {other : Client} {clients : List Client} (hash : String)
      → other.api_key_hash ≡ some hash
      → compare api_key hash ≡ ok false
      → IsFirstMatch compare api_key client clients
      → IsFirstMatch compare api_key client (other ∷ clients)

module _ (compare : Compare) where
  pub find_matching_sound :
      (api_key : String) (clients : List Client) (client : Client)
      → find_matching compare api_key clients ≡ ok (some client)
      → IsFirstMatch compare api_key client clients
  unfolding find_matching
  find_matching_sound api_key [] client e = cc
  find_matching_sound api_key (x ∷ clients) client e = elim (Option-cases x.api_key_hash) [
    | inl nohash ↦
        no_hash nohash
          (find_matching_sound api_key clients client (rw (nohash, find_matching) at e))
    | inr (hash, has) ↦ elim (Result-cases (compare api_key hash)) [
      | inr (err, threw) ↦
          let h : thrown err ≡ ok (some client) = rw (has, threw, find_matching) at e in cc
      | inl (true, same) ↦
          let h : ok (some x) ≡ ok (some client) = rw (has, same, find_matching) at e in
          subst (λ c. IsFirstMatch compare api_key c (x ∷ clients)) (cc) (this_one hash has same)
      | inl (false, differs) ↦
          no_match hash has differs
            (find_matching_sound api_key clients client (rw (has, differs, find_matching) at e))
    ]
  ]

  pub find_matching_complete :
      {api_key : String} {client : Client} {clients : List Client}
      → IsFirstMatch compare api_key client clients
      → find_matching compare api_key clients ≡ ok (some client)
  unfolding find_matching
  find_matching_complete (this_one hash has same) = ground arith
  find_matching_complete (no_hash nohash m) = rw (nohash, find_matching) (find_matching_complete m)
  find_matching_complete (no_match hash has differs m) =
      rw (has, find_matching) (rw differs (find_matching_complete m))

  pub All-IsFirstMatch :
      (P : Client → Type 0) {api_key : String} {client : Client} {clients : List Client}
      → IsFirstMatch compare api_key client clients
      → All P clients
      → P client
  All-IsFirstMatch P (this_one hash has same) a = a.0
  All-IsFirstMatch P (no_hash nohash m) a = All-IsFirstMatch P m a.1
  All-IsFirstMatch P (no_match hash has differs m) a = All-IsFirstMatch P m a.1

pub verify_jwt-valid :
    (jwt : Jwt) (token : String) (r : JwtVerifyResult)
    → verify_jwt jwt token ≡ ok r
    → r.expired ≡ false
    → jwt.verify token ≡ valid r.payload
unfolding verify_jwt
verify_jwt-valid jwt token r e live = ground arith

pub some_of_truthy : (o : Option String) → is_truthy o ≡ true → o ≡ some (header_or_empty o)
some_of_truthy none h = cc
some_of_truthy (some s) h = refl

some_of_bearer : (o : Option String) → has_bearer o ≡ true → o ≡ some (header_or_empty o)
some_of_bearer none h = cc
some_of_bearer (some s) h = refl

module _ (jwt : Jwt) (compare : Compare) (table : ClientTable) where
  open table use {World, find_by_client_id, find_active, touch}

  -- Whose key a request carries: that of an active client, the first one whose hash matches.
  pub record KeyOwner (req : Request) (w : World) (client : Client) : Type 0 where
    pub key : String
    pub clients : List Client
    pub header : req.x_api_key ≡ some key
    pub queried : find_active w ≡ ok clients
    pub first : IsFirstMatch compare key client clients
    pub active : client.is_active ≡ true

  -- Whose token a request carries: a bearer token that verifies and is not expired, of a client that
  -- is in the table and active.
  pub record TokenOwner (req : Request) (w : World) (client : Client) : Type 0 where
    pub header : String
    pub payload : JwtPayload
    pub sent : req.authorization ≡ some header
    pub bearer : has_bearer req.authorization ≡ true
    pub verified : jwt.verify (bearer_token header) ≡ valid payload
    pub queried : find_by_client_id payload.client_id w ≡ ok (some client)
    pub same_id : client.client_id ≡ payload.client_id
    pub active : client.is_active ≡ true

  -- `authenticateAPIKey` lets a request through only for the owner of its key, whose data it attaches,
  -- with the key.
  pub authenticate_api_key-KeyOwner :
      (req req' : Request) (w : World)
      → (authenticate_api_key jwt compare table req w).0 ≡ next req'
      → (client : Client) × (o : KeyOwner req w client) × (req' ≡ attach req client (some o.key))
  unfolding authenticate_api_key
  authenticate_api_key-KeyOwner req req' w e = elim (Bool-cases (is_truthy req.x_api_key)) [
    | inr no_key ↦ absurd (ground arith)
    | inl has ↦
        let key = header_or_empty req.x_api_key in
        elim (Result-cases (find_active w >>= find_matching compare key)) [
          | inr (err, threw) ↦ absurd (ground arith)
          | inl (none, found) ↦ absurd (ground arith)
          | inl (some client, found) ↦
              let (clients, queried, matched) =
                >>=-eq-ok (find_active w) (find_matching compare key) found in
              let first = find_matching_sound compare key clients client matched in
              (
                client,
                record {
                  key = key;
                  clients = clients;
                  header = some_of_truthy req.x_api_key has;
                  queried = queried;
                  first = first;
                  active =
                      All-IsFirstMatch compare (λ x. x.is_active ≡ true) first
                        (table.found_active w clients queried);
                },
                ground arith,
              )
        ]
  ]

  -- The owner of a key that is not empty is let through: with soundness, exactly the owner is.
  pub KeyOwner-authenticate_api_key :
      (req : Request) (w : World) (client : Client) (o : KeyOwner req w client)
      → is_truthy req.x_api_key ≡ true
      → (authenticate_api_key jwt compare table req w).0 ≡ next (attach req client (some o.key))
  unfolding authenticate_api_key
  KeyOwner-authenticate_api_key req w client o has =
      let key : header_or_empty req.x_api_key ≡ o.key = ap header_or_empty o.header in
      let found : (find_active w >>= find_matching compare (header_or_empty req.x_api_key))
          ≡ ok (some client) =
        rw (key, o.queried) (find_matching_complete compare o.first) in
      rw (has, found, authenticate_api_key) (ap (λ k. next (attach req client (some k))) key)

  -- `authenticateJWT` lets a request through only for the owner of its token.
  pub authenticate_jwt-TokenOwner :
      (req req' : Request) (w : World)
      → (authenticate_jwt jwt compare table req w).0 ≡ next req'
      → (client : Client) × TokenOwner req w client × (req' ≡ attach req client none)
  unfolding authenticate_jwt
  authenticate_jwt-TokenOwner req req' w e = elim (Bool-cases (has_bearer req.authorization)) [
    | inr no_bearer ↦ absurd (ground arith)
    | inl bearer ↦
        let header = header_or_empty req.authorization in
        elim (Result-cases (verify_jwt jwt (bearer_token header))) [
          | inr (err, threw) ↦ absurd (ground arith)
          | inl (result, verified) ↦ elim (Bool-cases result.expired) [
            | inl old ↦ absurd (ground arith)
            | inr live ↦ elim (Result-cases (find_by_client_id result.payload.client_id w)) [
              | inr (err, threw) ↦ absurd (ground arith)
              | inl (none, found) ↦ absurd (ground arith)
              | inl (some client, found) ↦ (
                client,
                record {
                  header = header;
                  payload = result.payload;
                  sent = some_of_bearer req.authorization bearer;
                  bearer = bearer;
                  verified = verify_jwt-valid jwt (bearer_token header) result verified live;
                  queried = found;
                  same_id = table.found_client_id result.payload.client_id w client found;
                  active = ground arith;
                },
                ground arith,
              )
            ]
          ]
        ]
  ]
