-- ===== src/Reports/Counts.antt =====
-- What src/repositories/api-log.repository.ts reads from the rows of its usage queries: every count
-- that the database prints is read as that number.
use activity_tracker_api.Base.{
  ℕ, ◌≡◌, ◌∙◌, ap, subst, String, List, [], ◌∷◌, map, All, ok, >>=-eq-ok, ok_injective,
}
use activity_tracker_api.Base.Numbers.{Number, whole, parse_int}
use activity_tracker_api.Base.Numbers.RoundTrip.{parse_int-decimal}
use activity_tracker_api.Retry.{with_database_retry, database_retry_options}
use activity_tracker_api.Retry.Attempts.{with_retry-Ends}
use activity_tracker_api.Reports.{
  DailyRow, DailyUsageResult, Queries, IsCounted, read_daily_row, query_daily_usage,
}

-- The count of a row is a number, and not NaN.
abbrev pub HasCount : DailyUsageResult → Type 0
HasCount row = (n : ℕ) × (row.request_count ≡ whole n)

map-HasCount : (rows : List DailyRow) → All IsCounted rows → All HasCount (map read_daily_row rows)
map-HasCount [] counted = tt
map-HasCount (row ∷ rows) (((n, printed), _), more) =
    ((n, ap parse_int printed ∙ parse_int-decimal n), map-HasCount rows more)

-- The rows of a query that returned come from one of its attempts.
pub query_daily_usage-HasCount :
    (db : Queries) (client_id : String) (days : Number) (w : Queries.World db)
    (rows : List DailyUsageResult)
    → (query_daily_usage db client_id days w).outcome ≡ ok rows
    → All HasCount rows
unfolding query_daily_usage with_database_retry
query_daily_usage-HasCount db client_id days w rows e =
    let ends =
      with_retry-Ends (database_retry_options (Queries.World db)) (db.daily_usage client_id days)
        db.sleep w in
    let (raw, queried, read) =
      >>=-eq-ok (with_database_retry (db.daily_usage client_id days) db.sleep w).outcome
        (λ raw. ok (map read_daily_row raw)) e in
    subst (All HasCount) (ok_injective read) (
      map-HasCount raw (
        db.daily_usage-IsCounted client_id days ends.last raw
          (ap (λ p. p.0) ends.decided ∙ queried)))
