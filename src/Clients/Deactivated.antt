-- ===== src/Clients/Deactivated.antt =====
-- What a deactivation of src/repositories/client.repository.ts leaves in the table, and whom
-- src/middleware/auth.middleware.ts lets in after it.
use mathlib.Core.List.{Memᴰ}
use activity_tracker_api.Base.{
  ◌≡◌, ◌≢◌, ◌∙◌, refl, sym, subst, ap, String, Bool-cases, inl, inr, true, false, Option, none,
  some, List, [], ◌∷◌, map, if◌then◌else◌, Result, ok, thrown, All, eq_refl, arith,
}
use activity_tracker_api.Http.{AuthClient, Request, next, is_truthy}
use activity_tracker_api.Auth.Tokens.{Jwt}
use activity_tracker_api.Auth.Clients.{Compare, ClientTable}
use activity_tracker_api.Auth.Middleware.{attach, has_bearer, authenticate}
use activity_tracker_api.Auth.Sound.{
  IsFirstMatch, this_one, no_hash, no_match, authenticate_jwt-TokenOwner,
  authenticate_api_key-KeyOwner,
}
use activity_tracker_api.Auth.Clients.{Client}
use activity_tracker_api.Clients.Updates.{
  ClientRows, first_where, has_id, find_by_id, after_update, deactivate,
}

abbrev pub switched_off : Client → Client
switched_off client = record client { is_active = false }

-- The row with the id is switched off, and the others are as they were.
abbrev pub without : String → List Client → List Client
without id rows = map (λ client. if has_id id client then switched_off client else client) rows

IsOff : (id client_id : String) → Client → Type 0
IsOff id client_id x = x.client_id ≡ client_id → x.is_active ≡ false

-- The one row with a client id is off, if it is the row with the id.
without-IsOff :
    (id client_id : String) (rows : List Client)
    → All (λ row. row.client_id ≡ client_id → row.id ≡ id) rows
    → All (IsOff id client_id) (without id rows)
unfolding IsOff
without-IsOff id client_id [] own = tt
without-IsOff id client_id (row ∷ rows) (own, others) =
    let rest = without-IsOff id client_id rows others in
    elim (Bool-cases (has_id id row)) [
      | inl same ↦ rw same ((λ _. refl), rest)
      | inr other ↦
          rw other
            ((λ e. let same : has_id id row ≡ true = rw (own e) (eq_refl id) in absurd (cc)), rest)
    ]

All-Memᴰ : (P : Client → Type 0) {x : Client} {xs : List Client} → All P xs → Memᴰ x xs → P x
All-Memᴰ P h (Memᴰ.head e) = subst P (sym e) h.0
All-Memᴰ P h (Memᴰ.tail m) = All-Memᴰ P h.1 m

IsFirstMatch-Memᴰ :
    {compare : Compare} {key : String} {client : Client} {clients : List Client}
    → IsFirstMatch compare key client clients
    → Memᴰ client clients
IsFirstMatch-Memᴰ (this_one hash has same) = Memᴰ.head refl
IsFirstMatch-Memᴰ (no_hash nohash m) = Memᴰ.tail (IsFirstMatch-Memᴰ m)
IsFirstMatch-Memᴰ (no_match hash has differs m) = Memᴰ.tail (IsFirstMatch-Memᴰ m)

attach-client_id :
    (req : Request) (client : Client) (key : Option String) (who : AuthClient)
    → (attach req client key).client ≡ some who
    → client.client_id ≡ who.client_id
attach-client_id req client key who e = cc

-- Whom `authenticate` lets through: an active client that one of its queries found.
authenticate-Found :
    (jwt : Jwt) (compare : Compare) (table : ClientTable) (P : Client → Type 0) (req req' : Request)
    (w : ClientTable.World table)
    → ((c : String) (x : Client) → table.find_by_client_id c w ≡ ok (some x) → P x)
    → ((xs : List Client) → table.find_active w ≡ ok xs → All P xs)
    → (authenticate jwt compare table req w).0 ≡ next req'
    → (client : Client) × (key : Option String) × (req' ≡ attach req client key)
      × (client.is_active ≡ true)
      × P client
unfolding authenticate
authenticate-Found jwt compare table P req req' w looked_up listed passed =
    elim (Bool-cases (has_bearer req.authorization)) [
      | inl bearer ↦
          let (client, owner, attached) =
            authenticate_jwt-TokenOwner jwt compare table req req' w
              (rw (bearer, authenticate) at passed) in
          (client, none, attached, owner.active, looked_up _ client owner.queried)
      | inr plain ↦ elim (Bool-cases (is_truthy req.x_api_key)) [
        | inl keyed ↦
            let (client, owner, attached) =
              authenticate_api_key-KeyOwner jwt compare table req req' w
                (rw (plain, keyed, authenticate) at passed) in
            (
              client,
              some owner.key,
              attached,
              owner.active,
              All-Memᴰ P (listed owner.clients owner.queried) (IsFirstMatch-Memᴰ owner.first),
            )
        | inr bare ↦ absurd (ground arith)
      ]
    ]

module _ (db : ClientRows) where
  open db use {World}

  found_after :
      (id : String) (p : Result (Unit {0}) × World) (rows : List Client) (found : Option Client)
      → (p.0 ≡ ok tt → db.rows p.1 ≡ rows)
      → (after_update db (find_by_id db id) p).0 ≡ ok found
      → (db.rows (after_update db (find_by_id db id) p).1 ≡ rows)
        × (found ≡ first_where (has_id id) rows)
  unfolding find_by_id
  found_after id (thrown e, w) rows found changed done = absurd (cc)
  found_after id (ok _, w) rows found changed done = (
    db.find_one_rows (has_id id) w ∙ changed refl,
    db.find_one_ok (has_id id) w found done ∙ ap (first_where (has_id id)) (changed refl),
  )

  -- A deactivation that returned leaves the rows as they were but for the one with the id, which is
  -- inactive, and returns that row, or none where there is none.
  deactivate-eq-ok :
      (id : String) (w : World) (found : Option Client)
      → (deactivate db id w).0 ≡ ok found
      → (db.rows (deactivate db id w).1 ≡ without id (db.rows w))
        × (found ≡ first_where (has_id id) (without id (db.rows w)))
  unfolding deactivate
  deactivate-eq-ok id w found done =
      found_after id (db.update id switched_off w) (without id (db.rows w)) found
        (db.update_ok id switched_off w) done

  -- After a deactivation that returned, `authenticate` lets no request through as the client with that
  -- id, by token or by key: if the client's client id is in no other row, and the queries of the
  -- middleware find rows of the table as the deactivation left it.
  pub deactivate-authenticate :
      (jwt : Jwt) (compare : Compare) (table : ClientTable) (id client_id : String) (w : World)
      (found : Option Client) (later : ClientTable.World table) (req req' : Request)
      (who : AuthClient)
      → (deactivate db id w).0 ≡ ok found
      → All (λ row. row.client_id ≡ client_id → row.id ≡ id) (db.rows w)
      → ((c : String) (x : Client)
          → table.find_by_client_id c later ≡ ok (some x)
          → Memᴰ x (db.rows (deactivate db id w).1))
      → ((xs : List Client)
          → table.find_active later ≡ ok xs
          → All (λ x. Memᴰ x (db.rows (deactivate db id w).1)) xs)
      → (authenticate jwt compare table req later).0 ≡ next req'
      → req'.client ≡ some who
      → who.client_id ≢ client_id
  unfolding IsOff
  deactivate-authenticate jwt compare table id client_id w found later req req' who done own
        looked_up listed passed known same =
      let (client, key, attached, active, stored) =
        authenticate-Found jwt compare table (λ x. Memᴰ x (db.rows (deactivate db id w).1)) req req'
          later looked_up listed passed in
      let off : All (IsOff id client_id) (db.rows (deactivate db id w).1) =
        subst (All (IsOff id client_id)) (sym (deactivate-eq-ok id w found done).0)
          (without-IsOff id client_id (db.rows w) own) in
      let shown : (attach req client key).client ≡ some who =
        ap (λ r. r.client) (sym attached) ∙ known in
      let named : client.client_id ≡ client_id = attach-client_id req client key who shown ∙ same in
      let inactive : client.is_active ≡ false = All-Memᴰ (IsOff id client_id) off stored named in
      absurd (cc)
