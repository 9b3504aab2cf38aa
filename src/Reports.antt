-- ===== src/Reports.antt =====
-- The database half of the usage statistics: the loops and the sort of
-- src/api/client/clientService.ts, findAllActive of src/repositories/client.repository.ts, and
-- getDailyUsage and getTopClients of src/repositories/api-log.repository.ts, whose queries are
-- parameters.
pub mod Counts
pub mod Sort
use Prim.Native.String
use activity_tracker_api.Base.{
  ℕ, zero, suc, ◌+◌, ◌/◌, ◌%◌, ◌==◌, ◌≡◌, String, Bool, true, false, Option, none, some, List, [],
  ◌∷◌, ◌++◌, map, ltb, leb, not, All, if◌then◌else◌, Error, Result, ok, thrown, ◌>>=◌,
}
use activity_tracker_api.Base.Numbers.{Number, decimal, parse_int, less}
use activity_tracker_api.Http.{is_truthy, ServiceResponse, success, failure}
use activity_tracker_api.Retry.{Run, with_database_retry}
use activity_tracker_api.Auth.Clients.{Client}
use activity_tracker_api.Redis.{Ioredis, Redis, JsonCodec, get_json, set_json, incr_by, expire}

-- A row for a day as the query gives it, with its numbers as texts: a count as SQL prints a
-- bigint, an average that is missing where no entry has a response time.
pub record DailyRow : Type 0 where
  pub date : ℕ
  pub request_count : String
  pub avg_response_time : Option String
  pub error_count : String

pub record TopRow : Type 0 where
  pub client_id : String
  pub request_count : String
  pub avg_response_time : Option String
  pub error_count : String
  pub last_access : ℕ

-- The same rows read. Dates are times; an average is kept as the text that `parseFloat` reads, and
-- is missing where it reads `null`, which gives NaN.
pub record DailyUsageResult : Type 0 where
  pub date : ℕ
  pub request_count : Number
  pub avg_response_time : Option String
  pub error_count : Number

pub record TopClientResult : Type 0 where
  pub client_id : String
  pub request_count : Number
  pub avg_response_time : String
  pub error_count : Number
  pub last_access : ℕ

abbrev pub read_daily_row : DailyRow → DailyUsageResult
read_daily_row row = record {
  date = row.date;
  request_count = parse_int row.request_count;
  avg_response_time = row.avg_response_time;
  error_count = parse_int row.error_count;
}

-- `row.avg_response_time || "0"`.
abbrev pub or_zero_text : Option String → String
or_zero_text none = "0"
or_zero_text (some text) = if is_truthy (some text) then text else "0"

abbrev pub read_top_row : TopRow → TopClientResult
read_top_row row = record {
  client_id = row.client_id;
  request_count = parse_int row.request_count;
  avg_response_time = or_zero_text row.avg_response_time;
  error_count = parse_int row.error_count;
  last_access = row.last_access;
}

-- A count as the database prints it.
abbrev pub IsCounted : DailyRow → Type 0
IsCounted row =
    ((n : ℕ) × (row.request_count ≡ decimal n)) × ((n : ℕ) × (row.error_count ≡ decimal n))

-- The queries, as they end on one attempt; `sleep` waits between attempts.
pub record Queries : Type 1 where
  pub World : Type 0
  pub find_active : World → Result (List Client) × World
  pub daily_usage : (client_id : String) (days : Number) → World → Result (List DailyRow) × World
  pub top_clients : (limit hours : Number) → World → Result (List TopRow) × World
  pub sleep : ℕ → World → World
  pub daily_usage-IsCounted :
      (client_id : String) (days : Number) (w : World) (rows : List DailyRow)
      → (daily_usage client_id days w).0 ≡ ok rows
      → All IsCounted rows

-- The comparison of the two sorts, `b.requestCount - a.requestCount` within a date, is not positive:
-- the first row may stand before the second. A comparison that is NaN counts as zero.
abbrev pub comes_first : DailyUsageResult → DailyUsageResult → Bool
comes_first a b =
    if a.date == b.date then not (less a.request_count b.request_count) else ltb b.date a.date

-- `sort`, which is stable.
abbrev pub insert_row : DailyUsageResult → List DailyUsageResult → List DailyUsageResult
insert_row x [] = x ∷ []
insert_row x (y ∷ ys) =
    let rest = insert_row x ys in if comes_first x y then x ∷ y ∷ ys else y ∷ rest

unfoldable pub sort : List DailyUsageResult → List DailyUsageResult
sort [] = []
sort (x ∷ xs) = insert_row x (sort xs)

module _ (db : Queries) where
  open db use {World}

  unfoldable pub find_all_active : World → Run World (List Client)
  find_all_active w = with_database_retry db.find_active db.sleep w

  -- The rows of a query that returned, read.
  abbrev pub read_rows : {A B : Type 0} → (A → B) → Run World (List A) → Run World (List B)
  read_rows read run = record {
    outcome = run.outcome >>= λ rows. ok (map read rows);
    state = run.state;
    delays = run.delays;
  }

  unfoldable pub query_daily_usage : String → Number → World → Run World (List DailyUsageResult)
  query_daily_usage client_id days w =
      read_rows read_daily_row (with_database_retry (db.daily_usage client_id days) db.sleep w)

  unfoldable pub query_top_clients :
      (limit hours : Number) → World → Run World (List TopClientResult)
  query_top_clients limit hours w =
      read_rows read_top_row (with_database_retry (db.top_clients limit hours) db.sleep w)

  abbrev pub fresh_top_clients :
      (hours limit : Number) → World → Result (List TopClientResult) × World
  fresh_top_clients hours limit w =
      let run = query_top_clients limit hours w in (run.outcome, run.state)

  -- The loop over the clients, which pushes each one's rows.
  unfoldable pub collect : Number → List Client → World → Result (List DailyUsageResult) × World
  collect days [] w = (ok [], w)
  collect days (client ∷ clients) w =
      let run = query_daily_usage client.client_id days w in
      let (rest, w') = collect days clients run.state in
      elim run.outcome [
        | thrown e ↦ (thrown e, run.state)
        | ok rows ↦ (rest >>= λ more. ok (rows ++ more), w')
      ]

  -- The body that `getDailyUsage` and `prewarmDailyUsage` share, sorted at the end.
  unfoldable pub fresh_daily_usage : Number → World → Result (List DailyUsageResult) × World
  fresh_daily_usage days w =
      let run = find_all_active w in
      elim run.outcome [
        | thrown e ↦ (thrown e, run.state)
        | ok clients ↦
            let (all, w') = collect days clients run.state in (all >>= λ rows. ok (sort rows), w')
      ]
