-- ===== src/Logs/Queries.antt =====
-- The single statements of src/repositories/api-log.repository.ts: create, the look-ups, the deletion
-- and the counts. TypeORM's repository is a parameter.
use activity_tracker_api.Base.{ℕ, String, Option, none, some, List, Result, ok, ◌>>=◌}
use activity_tracker_api.Retry.{Run, with_database_retry}
use activity_tracker_api.Logs.{ApiLogData, ApiLog, to_entity}

-- What a look-up asks for: newest first, of one client or between two times.
pub data Where : Type 0 where
  of_client : String → Where
  between : (start end : ℕ) → Where
  client_between : String → (start end : ℕ) → Where
  everything : Where

-- The repository; `find` takes a limit and an offset. `days_before` is the arithmetic
-- of `setDate` on the calendar.
pub record LogRows : Type 1 where
  pub World : Type 0
  pub now : World → ℕ
  pub save : ApiLog → World → Result ApiLog × World
  pub find : Where → (limit offset : ℕ) → World → Result (List ApiLog) × World
  pub count_where : Where → World → Result ℕ × World
  pub days_before : (days now : ℕ) → ℕ
  pub delete_before : (cutoff : ℕ) → World → Result (Option ℕ) × World
  pub sleep : ℕ → World → World

module _ (db : LogRows) where
  open db use {World}

  -- `create` makes the entity at once, with the time of the call.
  unfoldable pub create : ApiLogData → World → Result ApiLog × World
  create data_of w = db.save (to_entity (db.now w) data_of) w

  unfoldable pub find_by_client_id : String → (limit offset : ℕ) → World → Run World (List ApiLog)
  find_by_client_id client_id limit offset w =
      with_database_retry (db.find (of_client client_id) limit offset) db.sleep w

  unfoldable pub find_by_date_range : (start end limit : ℕ) → World → Run World (List ApiLog)
  find_by_date_range start end limit w =
      with_database_retry (db.find (between start end) limit 0) db.sleep w

  unfoldable pub get_request_count : String → (since : ℕ) → World → Result ℕ × World
  get_request_count client_id since w = db.count_where (client_between client_id since (db.now w)) w

  -- `result.affected ?? 0`.
  abbrev pub affected_or_zero : Option ℕ → ℕ
  affected_or_zero none = 0
  affected_or_zero (some n) = n

  unfoldable pub delete_older_than : (days : ℕ) → World → Result ℕ × World
  delete_older_than days w =
      let (outcome, w') = db.delete_before (db.days_before days (db.now w)) w in
      (outcome >>= λ affected. ok (affected_or_zero affected), w')

  unfoldable pub count_logs : World → Result ℕ × World
  count_logs w = db.count_where everything w

  unfoldable pub count_by_client : String → World → Result ℕ × World
  count_by_client client_id w = db.count_where (of_client client_id) w
