-- ===== src/Clients/Admitted.antt =====
-- The API key that a registration of src/api/client/clientService.ts shows, at
-- src/middleware/auth.middleware.ts.
use activity_tracker_api.Base.{
  ℕ, ◌≡◌, ◌∙◌, ap, String, true, false, Option, none, some, List, [], ◌∷◌, ◌++◌, ◌⊎◌, inl, inr, All,
  ok,
}
use activity_tracker_api.Base.{subst, sym}
use activity_tracker_api.Clients.{register}
use activity_tracker_api.Http.{success, Request, next, is_truthy}
use activity_tracker_api.Auth.Tokens.{Jwt}
use activity_tracker_api.Auth.Clients.{Client, ClientTable, Compare}
use activity_tracker_api.Auth.Middleware.{attach, authenticate_api_key}
use activity_tracker_api.Auth.Sound.{
  IsFirstMatch, this_one, no_hash, no_match, KeyOwner, KeyOwner-authenticate_api_key,
}
use activity_tracker_api.Crypto.{Ciphers}
use activity_tracker_api.Clients.{ClientStore, Hasher, Draws, RegisterClientResponse}
use activity_tracker_api.Clients.Registration.{Registered, HoldsKey, register-Registered}

-- A client whose hash, if it has one, does not match a key.
abbrev pub IsOther : Compare → (key : String) → Client → Type 0
IsOther compare key client =
    (client.api_key_hash ≡ none)
    ⊎ ((hash : String) × (client.api_key_hash ≡ some hash) × (compare key hash ≡ ok false))

head_or : Client → List Client → Client
head_or default [] = default
head_or default (c ∷ clients) = c

same_head : {a b : Client} {xs ys : List Client} → a ∷ xs ≡ b ∷ ys → a ≡ b
unfolding head_or
same_head {a} e = ap (head_or a) e

IsFirstMatch-append :
    (compare : Compare) (key : String) (before : List Client) {client : Client}
    {clients : List Client}
    → All (IsOther compare key) before
    → IsFirstMatch compare key client clients
    → IsFirstMatch compare key client (before ++ clients)
IsFirstMatch-append compare key [] others m = m
IsFirstMatch-append compare key (c ∷ before) (inl nohash, others) m =
    no_hash nohash (IsFirstMatch-append compare key before others m)
IsFirstMatch-append compare key (c ∷ before) (inr (hash, has, differs), others) m =
    no_match hash has differs (IsFirstMatch-append compare key before others m)

module _ (ciphers : Ciphers) (hasher : Hasher) (db : ClientStore) where
  open db use {stored}

  -- A client of which everything that the registration promises holds is let in with its key.
  Registered-authenticate_api_key :
      (jwt : Jwt) (env_key : Option String) (draws : Draws ciphers hasher db) (name email : String)
      (rate_limit : ℕ) (w w' : ClientStore.World db) (response : RegisterClientResponse)
      (reg : Registered ciphers hasher db jwt env_key draws name email rate_limit w w' response)
      (table : ClientTable) (later : ClientTable.World table) (before after : List Client)
      (row : Client) (req : Request)
      → reg.created.row ≡ row
      → table.find_active later ≡ ok (before ++ row ∷ after)
      → All (IsOther hasher.compare response.api_key) before
      → req.x_api_key ≡ some response.api_key
      → is_truthy (some response.api_key) ≡ true
      → ((authenticate_api_key jwt hasher.compare table req later).0
          ≡ next (attach req row (some response.api_key)))
        × (response.client_id ≡ row.client_id)
  Registered-authenticate_api_key jwt env_key draws name email rate_limit w w' response reg table
        later before after row req same queried others sent present =
      let held = subst (HoldsKey ciphers hasher db env_key draws.api_key) same reg.created.holds in
      let shown : response.api_key ≡ draws.api_key =
        ap (λ r. r.api_key) reg.answered ∙ ap (λ c. c.api_key) reg.created.shown in
      let first = IsFirstMatch-append hasher.compare response.api_key before others (
        this_one held.hash held.has_hash
          (ap (λ k. hasher.compare k held.hash) shown ∙ held.matches)) in
      let owner : KeyOwner jwt hasher.compare table req later row = record {
        key = response.api_key;
        clients = before ++ row ∷ after;
        header = sent;
        queried = queried;
        first = first;
        active = held.active;
      } in
      (
        KeyOwner-authenticate_api_key jwt hasher.compare table req later row owner
            (ap is_truthy sent ∙ present),
        ap (λ r. r.client_id) reg.answered
            ∙ ap (λ c. c.client_id) reg.created.shown
            ∙ ap (λ c. c.client_id) same,
      )

  -- After a registration that answers with success, the client that it has put at the head of the table
  -- is let in with the API key of the response, and what is attached has the client id of the
  -- response: if the key is not empty, and the query of the active clients lists that client, and
  -- before it none with a hash that matches the key.
  pub register-authenticate_api_key :
      (jwt : Jwt) (env_key : Option String) (draws : Draws ciphers hasher db) (name email : String)
      (rate_limit : ℕ) (w : ClientStore.World db) (response : RegisterClientResponse)
      (table : ClientTable) (later : ClientTable.World table) (before after : List Client)
      (row : Client) (req : Request)
      → (register ciphers hasher db jwt env_key draws name email rate_limit w).0
        ≡ success "Client registered successfully" (some response) 200
      → stored (register ciphers hasher db jwt env_key draws name email rate_limit w).1
        ≡ row ∷ stored w
      → table.find_active later ≡ ok (before ++ row ∷ after)
      → All (IsOther hasher.compare response.api_key) before
      → req.x_api_key ≡ some response.api_key
      → is_truthy (some response.api_key) ≡ true
      → ((authenticate_api_key jwt hasher.compare table req later).0
          ≡ next (attach req row (some response.api_key)))
        × (response.client_id ≡ row.client_id)
  register-authenticate_api_key jwt env_key draws name email rate_limit w response table later
        before after row req answered stored_row queried others sent present =
      let reg =
        register-Registered ciphers hasher db jwt env_key draws name email rate_limit w response
          answered in
      Registered-authenticate_api_key jwt env_key draws name email rate_limit w _ response reg table
        later before after row req (same_head (sym reg.created.inserted ∙ stored_row)) queried
        others sent present
