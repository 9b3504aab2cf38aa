-- ===== src/Clients/Updates.antt =====
-- The rest of src/repositories/client.repository.ts: lookups, updates, deletion and counts. TypeORM's
-- repository is a parameter, with what its documentation says of its rows.
use activity_tracker_api.Base.{
  ℕ, ◌≡◌, String, Bool, true, false, Option, none, some, List, [], ◌∷◌, map, ltb, str_eq,
  if◌then◌else◌, Result, ok, thrown, ◌>>=◌,
}
use activity_tracker_api.Retry.{Run, with_database_retry}
use activity_tracker_api.Auth.Clients.{Client}

-- The first row that a condition holds for.
abbrev pub first_where : (Client → Bool) → List Client → Option Client
first_where p [] = none
first_where p (x ∷ xs) = if p x then some x else first_where p xs

abbrev pub has_id : String → Client → Bool
has_id id client = str_eq client.id id

-- `find` and `findOne` with a condition, `update` and `delete` of the row with an id, and `count`. A call
-- that returned did what it says to the rows, and a look-up changes none.
pub record ClientRows : Type 1 where
  pub World : Type 0
  pub rows : World → List Client
  pub find_one : (Client → Bool) → World → Result (Option Client) × World
  pub find_ordered : (Client → Bool) → World → Result (List Client) × World
  pub update : (id : String) → (Client → Client) → World → Result (Unit {0}) × World
  pub delete : (id : String) → World → Result (Option ℕ) × World
  pub count_where : (Client → Bool) → World → Result ℕ × World
  pub sleep : ℕ → World → World
  pub find_one_ok :
      (p : Client → Bool) (w : World) (found : Option Client)
      → (find_one p w).0 ≡ ok found
      → found ≡ first_where p (rows w)
  pub find_one_rows : (p : Client → Bool) (w : World) → rows (find_one p w).1 ≡ rows w
  pub update_ok :
      (id : String) (change : Client → Client) (w : World)
      → (update id change w).0 ≡ ok tt
      → rows (update id change w).1
        ≡ map (λ client. if has_id id client then change client else client) (rows w)

module _ (db : ClientRows) where
  open db use {World}

  unfoldable pub find_by_id : String → World → Result (Option Client) × World
  find_by_id id w = db.find_one (has_id id) w

  abbrev pub has_hash : String → Client → Bool
  has_hash hash client = elim client.api_key_hash [ none ↦ false | some h ↦ str_eq h hash ]

  unfoldable pub find_by_api_key_hash : String → World → Run World (Option Client)
  find_by_api_key_hash hash w = with_database_retry (db.find_one (has_hash hash)) db.sleep w

  unfoldable pub find_all : World → Result (List Client) × World
  find_all w = db.find_ordered (λ client. true) w

  -- A second step that is only taken if the first did not throw.
  abbrev pub after_update :
      {A : Type 0} → (World → Result A × World) → Result (Unit {0}) × World → Result A × World
  after_update next_step (thrown e, w) = (thrown e, w)
  after_update next_step (ok _, w) = next_step w

  unfoldable pub update :
      (id : String) → (change : Client → Client) → World → Result (Option Client) × World
  update id change w = after_update (find_by_id id) (db.update id change w)

  -- `now` is the clock.
  unfoldable pub update_last_access : (id : String) → (now : ℕ) → World → Result (Unit {0}) × World
  update_last_access id now w =
      db.update id (λ client. record client { last_access_at = some now }) w

  unfoldable pub deactivate : (id : String) → World → Result (Option Client) × World
  deactivate id w =
      after_update (find_by_id id) (db.update id (λ client. record client { is_active = false }) w)

  unfoldable pub activate : (id : String) → World → Result (Option Client) × World
  activate id w =
      after_update (find_by_id id) (db.update id (λ client. record client { is_active = true }) w)

  -- `(result.affected ?? 0) > 0`.
  abbrev pub any_affected : Option ℕ → Bool
  any_affected none = false
  any_affected (some n) = ltb 0 n

  abbrev pub with_result : {A B : Type 0} → (A → B) → Result A × World → Result B × World
  with_result f (outcome, w) = (outcome >>= λ a. ok (f a), w)

  unfoldable pub delete : (id : String) → World → Result Bool × World
  delete id w = with_result any_affected (db.delete id w)

  unfoldable pub exists_by_email : String → World → Result Bool × World
  exists_by_email email w =
      with_result (ltb 0) (db.count_where (λ client. str_eq client.email email) w)

  unfoldable pub exists_by_client_id : String → World → Result Bool × World
  exists_by_client_id client_id w =
      with_result (ltb 0) (db.count_where (λ client. str_eq client.client_id client_id) w)

  unfoldable pub count_clients : World → Result ℕ × World
  count_clients w = db.count_where (λ client. true) w

  unfoldable pub count_active : World → Result ℕ × World
  count_active w = db.count_where (λ client. client.is_active) w
