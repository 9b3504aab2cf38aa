-- ===== src/Clients/Refusal.antt =====
-- What a registration of src/api/client/clientService.ts that does not succeed leaves behind.
use activity_tracker_api.Base.{
  ℕ, ◌≡◌, ◌∙◌, refl, String, true, false, Option, none, some, Error, Result, ok, thrown,
  Result-cases, inl, inr,
}
use activity_tracker_api.Http.{success}
use activity_tracker_api.Auth.Tokens.{Jwt, JwtPayload, generate_jwt}
use activity_tracker_api.Auth.Clients.{Client}
use activity_tracker_api.Crypto.{Ciphers, encrypt}
use activity_tracker_api.Clients.{
  NewClient, ClientStore, Hasher, Draws, new_client, save_client, create, find_by_email, payload_of,
  answer_token, answer_created, register,
}
use activity_tracker_api.Clients.Registration.{email-stored}

module _ (ciphers : Ciphers) (hasher : Hasher) (db : ClientStore) where
  open db use {World, stored}

  save_client-thrown :
      (draws : Draws ciphers hasher db) (new : NewClient) (w : World) (e : Error)
      → (save_client ciphers hasher db draws new w).0 ≡ thrown e
      → stored (save_client ciphers hasher db draws new w).1 ≡ stored w
  save_client-thrown draws new w e h = elim (Result-cases (db.save new w).0) [
    | inr (err, threw) ↦ rw (threw, save_client) (db.save_thrown new w err threw)
    | inl (given, saved) ↦ let wrong : ok _ ≡ thrown e = rw (saved, save_client) at h in absurd (cc)
  ]

  create-thrown :
      (env_key : Option String) (draws : Draws ciphers hasher db) (name email : String)
      (rate_limit : ℕ) (w : World) (e : Error)
      → (create ciphers hasher db env_key draws name email rate_limit w).0 ≡ thrown e
      → stored (create ciphers hasher db env_key draws name email rate_limit w).1 ≡ stored w
  unfolding create
  create-thrown env_key draws name email rate_limit w e h =
      elim (Result-cases (hasher.hash draws.api_key)) [
        | inr (err, threw) ↦ rw (threw, create) refl
        | inl (hashed, made) ↦
            elim (Result-cases (encrypt ciphers env_key draws.iv draws.api_key)) [
              | inr (err, threw) ↦ rw (made, threw, create) refl
              | inl (encrypted, sealed) ↦
                  rw (made, sealed, create)
                    (save_client-thrown draws
                      (new_client ciphers hasher db draws name email rate_limit hashed encrypted) w
                      e (rw (made, sealed, create) at h))
            ]
      ]

  module _ (jwt : Jwt) (signs : (p : JwtPayload) → (token : String) × (jwt.sign p ≡ ok token)) where
    answer_created-refused :
        (made : Result Client × World) (w : World)
        → ((e : Error) → made.0 ≡ thrown e → stored made.1 ≡ stored w)
        → (answer_created ciphers hasher db jwt made).0.success ≡ false
        → stored (answer_created ciphers hasher db jwt made).1 ≡ stored w
    unfolding success generate_jwt
    answer_created-refused (thrown e, w') w kept refused = kept e refl
    answer_created-refused (ok client, w') w kept refused =
        let (token, signed) = signs (payload_of ciphers hasher db client) in
        let wrong : true ≡ false = rw (signed, answer_token) at refused in absurd (cc)

    -- If signing a token works, a registration that does not answer with success has stored nothing:
    -- the table of clients is as it was.
    pub register_refused :
        (env_key : Option String) (draws : Draws ciphers hasher db) (name email : String)
        (rate_limit : ℕ) (w : World)
        → (register ciphers hasher db jwt env_key draws name email rate_limit w).0.success ≡ false
        → stored (register ciphers hasher db jwt env_key draws name email rate_limit w).1 ≡ stored w
    unfolding register
    register_refused env_key draws name email rate_limit w refused =
        let run = find_by_email ciphers hasher db email w in
        let kept = email-stored ciphers hasher db email w in
        elim (Result-cases run.outcome) [
          | inr (err, threw) ↦ rw (threw, register) kept
          | inl (some taken, found) ↦ rw (found, register) kept
          | inl (none, free) ↦
              rw (free, register)
                (answer_created-refused
                    (create ciphers hasher db env_key draws name email rate_limit run.state)
                    run.state (create-thrown env_key draws name email rate_limit run.state)
                    (rw (free, register) at refused)
                  ∙ kept)
        ]
