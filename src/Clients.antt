-- ===== src/Clients.antt =====
-- Registration and lookup of clients: `create` and the queries of
-- src/repositories/client.repository.ts, and `register`, `findByClientId` and `findAllActive` of
-- src/api/client/clientService.ts. TypeORM, bcrypt and the random bytes are parameters.
pub mod Registration
pub mod Admitted
pub mod Handlers
pub mod Updates
pub mod Deactivated
pub mod Refusal
use activity_tracker_api.Base.{
  ℕ, ◌==◌, ◌≡◌, String, Bool, true, false, not, Option, none, some, List, [], ◌∷◌, map,
  if◌then◌else◌, Error, Result, ok, thrown, ◌>>=◌,
}
use activity_tracker_api.Http.{ServiceResponse, success, failure}
use activity_tracker_api.Retry.{Run, with_database_retry}
use activity_tracker_api.Logs.{Json}
use activity_tracker_api.Auth.Tokens.{Jwt, JwtPayload, generate_jwt}
use activity_tracker_api.Auth.Clients.{Client, Compare}
use activity_tracker_api.Crypto.{Ciphers, encrypt}

-- The entity before the database gives it its id and its times.
pub record NewClient : Type 0 where
  pub client_id : String
  pub name : String
  pub email : String
  pub api_key : String
  pub api_key_hash : String
  pub is_active : Bool
  pub rate_limit : ℕ
  pub metadata : Option Json

-- The entity that a save returns: what was saved, with an id and the times.
abbrev pub saved_client : NewClient → (id : String) → (created_at : ℕ) → Client
saved_client new id created_at = record {
  id = id;
  client_id = new.client_id;
  name = new.name;
  email = new.email;
  api_key = new.api_key;
  api_key_hash = some new.api_key_hash;
  is_active = new.is_active;
  rate_limit = new.rate_limit;
  metadata = new.metadata;
  created_at = created_at;
  updated_at = created_at;
  last_access_at = none;
}

-- The table of clients. The queries end on one attempt, `save` returns or throws.
pub record ClientStore : Type 1 where
  pub World : Type 0
  pub stored : World → List Client
  pub find_by_email : String → World → Result (Option Client) × World
  pub find_by_client_id : String → World → Result (Option Client) × World
  pub find_active : World → Result (List Client) × World
  pub save : NewClient → World → Result (String × ℕ) × World
  pub sleep : ℕ → World → World
  pub save_ok :
      (new : NewClient) (w : World) (id : String) (created_at : ℕ)
      → (save new w).0 ≡ ok (id, created_at)
      → stored (save new w).1 ≡ saved_client new id created_at ∷ stored w
  pub save_thrown :
      (new : NewClient) (w : World) (e : Error)
      → (save new w).0 ≡ thrown e
      → stored (save new w).1 ≡ stored w
  pub find_by_email_stored :
      (email : String) (w : World) → stored (find_by_email email w).1 ≡ stored w
  pub sleep_stored : (ms : ℕ) (w : World) → stored (sleep ms w) ≡ stored w

-- `bcrypt.hash`, which may throw; a key matches its own hash.
pub record Hasher : Type 0 where
  pub hash : String → Result String
  pub compare : Compare
  pub compare-hash : (key hashed : String) → hash key ≡ ok hashed → compare key hashed ≡ ok true

-- What `register` answers with.
pub record RegisterClientResponse : Type 0 where
  pub client_id : String
  pub name : String
  pub email : String
  pub api_key : String
  pub token : String
  pub rate_limit : ℕ
  pub created_at : ℕ

-- The response's view of a client.
pub record ClientData : Type 0 where
  pub client_id : String
  pub name : String
  pub email : String
  pub is_active : Bool
  pub rate_limit : ℕ
  pub created_at : ℕ
  pub last_access_at : Option ℕ

abbrev pub client_data : Client → ClientData
client_data client = record {
  client_id = client.client_id;
  name = client.name;
  email = client.email;
  is_active = client.is_active;
  rate_limit = client.rate_limit;
  created_at = client.created_at;
  last_access_at = client.last_access_at;
}

-- `data.rateLimit || 1000`.
abbrev pub rate_limit_or_default : ℕ → ℕ
rate_limit_or_default n = if n == 0 then 1000 else n

module _ (ciphers : Ciphers) (hasher : Hasher) (db : ClientStore) where
  open db use {World}

  -- The random draws of one registration: the client's id, its API key, the vector of the cipher.
  pub record Draws : Type 0 where
    pub client_id : String
    pub api_key : String
    pub iv : Ciphers.Bytes ciphers

  abbrev pub new_client :
      Draws → (name email : String) → ℕ → (hashed encrypted : String) → NewClient
  new_client draws name email rate_limit hashed encrypted = record {
    client_id = draws.client_id;
    name = name;
    email = email;
    api_key = encrypted;
    api_key_hash = hashed;
    is_active = true;
    rate_limit = rate_limit_or_default rate_limit;
    metadata = some "{}";
  }

  -- The save, and the entity with the plain key in place of the encrypted one.
  abbrev pub save_client : Draws → NewClient → World → Result Client × World
  save_client draws new w =
      let (saved, w') = db.save new w in
      elim saved [
        | thrown e ↦ (thrown e, w')
        | ok given ↦
            (ok (record (saved_client new given.0 given.1) { api_key = draws.api_key }), w')
      ]

  -- `create`: `encrypt` runs after the hash.
  unfoldable pub create :
      (env_key : Option String) → Draws → (name email : String) → ℕ → World → Result Client × World
  create env_key draws name email rate_limit w = elim (hasher.hash draws.api_key) [
    | thrown e ↦ (thrown e, w)
    | ok hashed ↦ elim (encrypt ciphers env_key draws.iv draws.api_key) [
      | thrown e ↦ (thrown e, w)
      | ok encrypted ↦ save_client draws (new_client draws name email rate_limit hashed encrypted) w
    ]
  ]

  unfoldable pub find_by_email : String → World → Run World (Option Client)
  find_by_email email w = with_database_retry (db.find_by_email email) db.sleep w

  unfoldable pub find_by_client_id : String → World → Run World (Option Client)
  find_by_client_id client_id w = with_database_retry (db.find_by_client_id client_id) db.sleep w

  unfoldable pub find_all_active : World → Run World (List Client)
  find_all_active w = with_database_retry db.find_active db.sleep w

  abbrev pub payload_of : Client → JwtPayload
  payload_of client = record {
    client_id = client.client_id;
    email = client.email;
    name = client.name;
  }

  abbrev pub registered : Client → String → RegisterClientResponse
  registered client token = record {
    client_id = client.client_id;
    name = client.name;
    email = client.email;
    api_key = client.api_key;
    token = token;
    rate_limit = client.rate_limit;
    created_at = client.created_at;
  }

  abbrev pub register_failed : ServiceResponse (Option RegisterClientResponse)
  register_failed = failure "An error occurred while registering client." none 500

  abbrev pub answer_token : Client → Result String → ServiceResponse (Option RegisterClientResponse)
  answer_token client (thrown e) = register_failed
  answer_token client (ok token) =
      success "Client registered successfully" (some (registered client token)) 200

  abbrev pub answer_created :
      Jwt → Result Client × World → ServiceResponse (Option RegisterClientResponse) × World
  answer_created jwt (thrown e, w) = (register_failed, w)
  answer_created jwt (ok client, w) =
      (answer_token client (generate_jwt jwt (payload_of client)), w)

  unfoldable pub register :
      Jwt
      → (env_key : Option String) → Draws
      → (name email : String) → ℕ
      → World
      → ServiceResponse (Option RegisterClientResponse) × World
  register jwt env_key draws name email rate_limit w =
      let run = find_by_email email w in
      elim run.outcome [
        | thrown e ↦ (register_failed, run.state)
        | ok (some client) ↦ (failure "Email already registered" none 409, run.state)
        | ok none ↦ answer_created jwt (create env_key draws name email rate_limit run.state)
      ]

  abbrev pub found_client : Result (Option Client) → ServiceResponse (Option ClientData)
  found_client (thrown e) = failure "An error occurred while finding client." none 500
  found_client (ok none) = failure "Client not found" none 404
  found_client (ok (some client)) = success "Client found" (some (client_data client)) 200

  -- `findByClientId` of the service.
  unfoldable pub find_client : String → World → ServiceResponse (Option ClientData) × World
  find_client client_id w =
      let run = find_by_client_id client_id w in (found_client run.outcome, run.state)

  abbrev pub found_clients : Result (List Client) → ServiceResponse (Option (List ClientData))
  found_clients (thrown e) = failure "An error occurred while retrieving clients." none 500
  found_clients (ok []) = failure "No active clients found" none 404
  found_clients (ok (client ∷ clients)) =
      success "Clients found" (some (map client_data (client ∷ clients))) 200

  -- `findAllActive` of the service.
  unfoldable pub find_clients : World → ServiceResponse (Option (List ClientData)) × World
  find_clients w = let run = find_all_active w in (found_clients run.outcome, run.state)
