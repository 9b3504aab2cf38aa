-- ===== src/Clients/Registration.antt =====
-- What a registration of src/api/client/clientService.ts stores and answers.
use activity_tracker_api.Base.{
  ℕ, ◌≡◌, ◌∙◌, refl, ap, sym, String, true, false, Option, none, some, ◌∷◌, Result, ok, thrown,
  Result-cases, inl, inr,
}
use activity_tracker_api.Http.{success, failure}
use activity_tracker_api.Auth.Tokens.{Jwt, generate_jwt}
use activity_tracker_api.Auth.Clients.{Client}
use activity_tracker_api.Crypto.{Ciphers, encrypt, decrypt}
use activity_tracker_api.Crypto.RoundTrip.{decrypt-encrypt}
use activity_tracker_api.Retry.Keeps.{with_database_retry_keeps}
use activity_tracker_api.Clients.{
  NewClient, saved_client, ClientStore, Hasher, RegisterClientResponse, Draws, new_client,
  save_client, create, find_by_email, payload_of, registered, answer_token, answer_created,
  register, rate_limit_or_default,
}

module _ (ciphers : Ciphers) (hasher : Hasher) (db : ClientStore) where
  open db use {World, stored}

  -- A client in the table whose key is `key`: its hash matches the key, and its encrypted key
  -- decrypts to it.
  pub record HoldsKey (env_key : Option String) (key : String) (client : Client) : Type 0 where
    pub hash : String
    pub has_hash : client.api_key_hash ≡ some hash
    pub matches : hasher.compare key hash ≡ ok true
    pub decrypts : decrypt ciphers env_key client.api_key ≡ ok key
    pub active : client.is_active ≡ true

  -- A `create` that returns has put one client at the head of the table, which holds the drawn key,
  -- and returns the same client with the plain key.
  pub record Created (env_key : Option String) (draws : Draws ciphers hasher db)
      (name email : String) (rate_limit : ℕ) (w w' : World) (client : Client) : Type 0 where
    pub row : Client
    pub inserted : stored w' ≡ row ∷ stored w
    pub shown : client ≡ record row { api_key = draws.api_key }
    pub holds : HoldsKey env_key draws.api_key row
    pub named : row.name ≡ name
    pub mailed : row.email ≡ email
    pub limited : row.rate_limit ≡ rate_limit_or_default rate_limit

  from_same_table :
      {env_key : Option String} {draws : Draws ciphers hasher db} {name email : String}
      {rate_limit : ℕ} {w₀ w w' : World} {client : Client}
      → stored w ≡ stored w₀
      → Created env_key draws name email rate_limit w w' client
      → Created env_key draws name email rate_limit w₀ w' client
  from_same_table kept c = record {
    row = c.row;
    inserted = c.inserted ∙ ap (λ l. c.row ∷ l) kept;
    shown = c.shown;
    holds = c.holds;
    named = c.named;
    mailed = c.mailed;
    limited = c.limited;
  }

  save_client-eq-ok :
      (draws : Draws ciphers hasher db) (new : NewClient) (w : World) (client : Client)
      → (save_client ciphers hasher db draws new w).0 ≡ ok client
      → (id : String) × (created_at : ℕ) × (stored (save_client ciphers hasher db draws new w).1
          ≡ saved_client new id created_at ∷ stored w)
        × (client ≡ record (saved_client new id created_at) { api_key = draws.api_key })
  save_client-eq-ok draws new w client e = elim (Result-cases (db.save new w).0) [
    | inr (err, threw) ↦
        let h : thrown err ≡ ok client = rw (threw, save_client) at e in absurd (cc)
    | inl ((id, created_at), saved) ↦
        let h : ok (record (saved_client new id created_at) { api_key = draws.api_key })
            ≡ ok client =
          rw (saved, save_client) at e in
        (id, created_at, rw (saved, save_client) (db.save_ok new w id created_at saved), cc)
  ]

  create-Created :
      (env_key : Option String) (draws : Draws ciphers hasher db) (name email : String)
      (rate_limit : ℕ) (w : World) (client : Client)
      → (create ciphers hasher db env_key draws name email rate_limit w).0 ≡ ok client
      → Created env_key draws name email rate_limit w
          (create ciphers hasher db env_key draws name email rate_limit w).1
          client
  unfolding create
  create-Created env_key draws name email rate_limit w client e =
      elim (Result-cases (hasher.hash draws.api_key)) [
        | inr (err, threw) ↦ let h : thrown err ≡ ok client = rw (threw, create) at e in absurd (cc)
        | inl (hashed, made) ↦
            elim (Result-cases (encrypt ciphers env_key draws.iv draws.api_key)) [
              | inr (err, threw) ↦
                  let h : thrown err ≡ ok client = rw (made, threw, create) at e in absurd (cc)
              | inl (encrypted, sealed) ↦
                  let new =
                    new_client ciphers hasher db draws name email rate_limit hashed encrypted in
                  let h : (save_client ciphers hasher db draws new w).0 ≡ ok client =
                    rw (made, sealed, create) at e in
                  let (id, created_at, inserted, shown) = save_client-eq-ok draws new w client h in
                  rw (made, sealed, create)
                    (record {
                      row = saved_client new id created_at;
                      inserted = inserted;
                      shown = shown;
                      holds = record {
                        hash = hashed;
                        has_hash = refl;
                        matches = hasher.compare-hash draws.api_key hashed made;
                        decrypts =
                            decrypt-encrypt ciphers env_key draws.iv draws.api_key encrypted sealed;
                        active = refl;
                      };
                      named = refl;
                      mailed = refl;
                      limited = refl;
                    })
            ]
      ]

  answer_token-success :
      (jwt : Jwt) (client : Client) (signed : Result String) (response : RegisterClientResponse)
      → answer_token ciphers hasher db client signed
        ≡ success "Client registered successfully" (some response) 200
      → (signed ≡ ok response.token)
        × (response ≡ registered ciphers hasher db client response.token)
  unfolding success failure
  answer_token-success jwt client (thrown e) response h =
      let wrong : false ≡ true = ap (λ r. r.success) h in absurd (cc)
  answer_token-success jwt client (ok token) response h =
      let same : some (registered ciphers hasher db client token) ≡ some response =
        ap (λ r. r.response_object) h in
      let eq : registered ciphers hasher db client token ≡ response = cc in
      let tokens : token ≡ response.token = ap (λ r. r.token) eq in
      (ap ok tokens, sym eq ∙ ap (registered ciphers hasher db client) tokens)

  pub email-stored :
      (email : String) (w : World)
      → stored (find_by_email ciphers hasher db email w).state ≡ stored w
  unfolding find_by_email
  email-stored email w =
      with_database_retry_keeps stored (db.find_by_email email) db.sleep
        (db.find_by_email_stored email) db.sleep_stored w

  -- What a successful registration has done: the row `client` is shown of was put at the head of the
  -- table, and the response tells the client's data with a token that was signed for it.
  pub record Registered (jwt : Jwt) (env_key : Option String) (draws : Draws ciphers hasher db)
      (name email : String) (rate_limit : ℕ) (w w' : World) (response : RegisterClientResponse)
      : Type 0 where
    pub client : Client
    pub email_was_free : (find_by_email ciphers hasher db email w).outcome ≡ ok none
    pub created : Created env_key draws name email rate_limit w w' client
    pub answered : response ≡ registered ciphers hasher db client response.token
    pub signed : jwt.sign (payload_of ciphers hasher db client) ≡ ok response.token

  answer_created-Registered :
      (jwt : Jwt) (env_key : Option String) (draws : Draws ciphers hasher db) (name email : String)
      (rate_limit : ℕ) (w₀ w : World) (response : RegisterClientResponse)
      → stored w ≡ stored w₀
      → (find_by_email ciphers hasher db email w₀).outcome ≡ ok none
      → (answer_created ciphers hasher db jwt
          (create ciphers hasher db env_key draws name email rate_limit w)).0
        ≡ success "Client registered successfully" (some response) 200
      → Registered jwt env_key draws name email rate_limit w₀
          (answer_created ciphers hasher db jwt
            (create ciphers hasher db env_key draws name email rate_limit w)).1
          response
  unfolding success failure generate_jwt
  answer_created-Registered jwt env_key draws name email rate_limit w₀ w response kept free e =
      let made = create ciphers hasher db env_key draws name email rate_limit w in
      elim (Result-cases made.0) [
        | inr (err, threw) ↦
            let wrong : false ≡ true = ap (λ r. r.success) (rw (threw, answer_created) at e) in
            absurd (cc)
        | inl (client, ready) ↦
            let c = create-Created env_key draws name email rate_limit w client ready in
            let (signed, answered) =
              answer_token-success jwt client (jwt.sign (payload_of ciphers hasher db client))
                response (rw (ready, answer_created) at e) in
            rw (ready, answer_created)
              (record {
                client = client;
                email_was_free = free;
                created = from_same_table kept c;
                answered = answered;
                signed = signed;
              })
      ]

  -- A registration that answers with success found the email free, and has put exactly one client at
  -- the head of the table, active, with the given name, email and limit (1000 for none): the hash
  -- that is stored matches the key that the response shows, the encrypted key that is stored
  -- decrypts to it, and the token was signed for this client.
  pub register-Registered :
      (jwt : Jwt) (env_key : Option String) (draws : Draws ciphers hasher db) (name email : String)
      (rate_limit : ℕ) (w : World) (response : RegisterClientResponse)
      → (register ciphers hasher db jwt env_key draws name email rate_limit w).0
        ≡ success "Client registered successfully" (some response) 200
      → Registered jwt env_key draws name email rate_limit w
          (register ciphers hasher db jwt env_key draws name email rate_limit w).1
          response
  unfolding register success failure
  register-Registered jwt env_key draws name email rate_limit w response e =
      let run = find_by_email ciphers hasher db email w in
      elim (Result-cases run.outcome) [
        | inr (err, threw) ↦
            let wrong : false ≡ true = ap (λ r. r.success) (rw (threw, register) at e) in
            absurd (cc)
        | inl (some taken, found) ↦
            let wrong : false ≡ true = ap (λ r. r.success) (rw (found, register) at e) in
            absurd (cc)
        | inl (none, free) ↦
            rw (free, register)
              (answer_created-Registered jwt env_key draws name email rate_limit w run.state
                response (email-stored email w) free (rw (free, register) at e))
      ]
