-- ===== src/Auth/Clients.antt =====
-- The clients that src/database/entities/client.entity.ts declares, the queries on them that the
-- authentication makes, and `compareAPIKey` of src/utils/crypto.utils.ts. TypeORM and bcrypt are
-- parameters.
use activity_tracker_api.Base.{
  ℕ, ◌≡◌, String, Bool, true, false, Option, none, some, List, [], ◌∷◌, All, Result, ok, ◌>>=◌,
}
use activity_tracker_api.Logs.{Json}

pub record Client : Type 0 where
  pub id : String
  pub client_id : String
  pub name : String
  pub email : String
  pub api_key : String
  pub api_key_hash : Option String
  pub is_active : Bool
  pub rate_limit : ℕ
  pub metadata : Option Json
  pub created_at : ℕ
  pub updated_at : ℕ
  pub last_access_at : Option ℕ

-- The table of clients. `findOne` by client id finds a client with that id, and `find` of the active
-- clients finds active ones only. `touch` is the update of `lastAccessAt` that nobody waits for.
pub record ClientTable : Type 1 where
  pub World : Type 0
  pub find_by_client_id : String → World → Result (Option Client)
  pub find_active : World → Result (List Client)
  pub touch : (id : String) → World → World
  pub found_client_id :
      (c : String) (w : World) (x : Client) → find_by_client_id c w ≡ ok (some x) → x.client_id ≡ c
  pub found_active :
      (w : World) (xs : List Client) → find_active w ≡ ok xs → All (λ x. x.is_active ≡ true) xs

-- `bcrypt.compare`, which may throw.
abbrev pub Compare : Type 0
Compare = (plain hash : String) → Result Bool

-- `if (isMatch) { matchedClient = client; break; }`.
abbrev pub choose : Bool → Client → Result (Option Client) → Result (Option Client)
choose true client rest = ok (some client)
choose false client rest = rest

-- The loop over the active clients: the first one whose hash matches the key. A client without a
-- hash is passed over.
unfoldable pub find_matching : Compare → String → List Client → Result (Option Client)
find_matching compare api_key [] = ok none
find_matching compare api_key (client ∷ clients) =
    let rest = find_matching compare api_key clients in
    elim client.api_key_hash [
      | none ↦ rest
      | some hash ↦ compare api_key hash >>= λ is_match. choose is_match client rest
    ]
