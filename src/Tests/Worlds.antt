-- ===== src/Tests/Worlds.antt =====
-- Concrete worlds for src/repositories/api-log.repository.ts and src/services/rate-limiter.service.ts:
-- a table in a list, sorted sets in a function.
use activity_tracker_api.Base.{
  ℕ, ◌+◌, ◌≡◌, ◌≢◌, refl, String, Bool, true, false, not, ◌&&◌, none, List, [], ◌++◌, arith,
  if◌then◌else◌, str_eq, eq_iff, eq_refl, filter, length, head?, Error, Result, ok, thrown,
}
use activity_tracker_api.Base.Int.{ℤ, pos, leb_ℤ}
use activity_tracker_api.Logs.{ApiLogData, ApiLog}
use activity_tracker_api.Pipeline.{Database}
use activity_tracker_api.RateLimiter.Redis.{SortedSets, insert_score}

abbrev pub refused : Error
refused = record { name = "Error"; message = "connect ECONNREFUSED" }

-- A table with a clock that sleeping moves, of a database that is up or down.
pub record Table : Type 0 where
  pub clock : ℕ
  pub table : List ApiLog

abbrev pub save_rows : Bool → List ApiLog → Table → Result (Unit {0}) × Table
save_rows true es w = (ok tt, record { clock = w.clock + 1; table = w.table ++ es })
save_rows false es w = (thrown refused, record w { clock = w.clock + 1 })

pub save_rows-ok :
    (up : Bool) (es : List ApiLog) (w : Table)
    → (save_rows up es w).0 ≡ ok tt
    → (save_rows up es w).1.table ≡ w.table ++ es
save_rows-ok true es w h = refl
save_rows-ok false es w h = absurd (cc)

pub save_rows-thrown :
    (up : Bool) (es : List ApiLog) (w : Table) (e : Error)
    → (save_rows up es w).0 ≡ thrown e
    → (save_rows up es w).1.table ≡ w.table
save_rows-thrown true es w e h = absurd (cc)
save_rows-thrown false es w e h = refl

abbrev pub list_database : Bool → Database
list_database up = record {
  World = Table;
  now = λ w. w.clock;
  rows = λ w. w.table;
  save = save_rows up;
  sleep = λ ms w. record w { clock = w.clock + ms };
  save_ok = save_rows-ok up;
  save_thrown = save_rows-thrown up;
  sleep_rows = λ ms w. refl;
}

abbrev pub log_entry : String → ApiLogData
log_entry endpoint = record {
  client_id = "CL-1";
  api_key = "key-1";
  endpoint = endpoint;
  method = "GET";
  status_code = pos 200;
  response_time = pos 12;
  ip_address = "127.0.0.1";
  user_agent = none;
  request_headers = none;
  request_body = none;
  response_body = none;
  error_message = none;
  metadata = none;
  stored_at = none;
}

-- Sorted sets of scores, and whether Redis can be reached.
pub record Sets : Type 0 where
  pub up : Bool
  pub sets : String → List ℕ

abbrev pub change : String → (List ℕ → List ℕ) → Sets → Sets
change k f s = record s { sets = λ j. if str_eq k j then f (s.sets k) else s.sets j }

pub change-same :
    (k : String) (f : List ℕ → List ℕ) (s : Sets) → (change k f s).sets k ≡ f (s.sets k)
change-same k f s = rw (eq_refl k) refl

pub change-other :
    (k j : String) (f : List ℕ → List ℕ) (s : Sets) → k ≢ j → (change k f s).sets j ≡ s.sets j
change-other k j f s h = ground (arith, eq_iff k j)

abbrev pub keep_outside : ℤ → ℤ → List ℕ → List ℕ
keep_outside lo hi = filter (λ x. not (leb_ℤ lo (pos x) && leb_ℤ (pos x) hi))

abbrev pub sorted_sets : SortedSets
sorted_sets = record {
  Store = Sets;
  reachable = λ s. s.up;
  scores = λ k s. s.sets k;
  replica = λ s. s;
  zremrangebyscore = λ k lo hi. change k (keep_outside lo hi);
  zcard = λ k s. length (s.sets k);
  zrange_first = λ k s. head? (s.sets k);
  zadd = λ k x m. change k (insert_score x);
  expire = λ k seconds s. s;
  del = λ k. change k (λ _. []);
  IsFresh = λ k m s. Unit;
  zremrangebyscore_scores = λ k lo hi s. change-same k (keep_outside lo hi) s;
  zcard_scores = λ k s. refl;
  zrange_first_scores = λ k s. refl;
  zadd_scores = λ k x m s fresh. change-same k (insert_score x) s;
  expire_scores = λ k seconds s. refl;
  zremrangebyscore_other = λ k j lo hi s h. change-other k j (keep_outside lo hi) s h;
  zadd_other = λ k j x m s h. change-other k j (insert_score x) s h;
  expire_other = λ k j seconds s h. refl;
}
