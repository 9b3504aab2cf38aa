-- ===== src/Tests/Stores.antt =====
-- Concrete worlds for src/middleware, src/services/redis.service.ts and src/api/client: a token that is
-- its owner's id, a Redis client over an association list, a fixed report.
use activity_tracker_api.Base.{
  sym, map, ℕ, ◌+◌, ◌==◌, ◌≡◌, ◌∙◌, refl, ap, subst, String, Bool, true, false, Option, none, some,
  List, [], ◌∷◌, arith, All, if◌then◌else◌, str_eq, eq_iff, eq_refl, any, Error, Result, ok, thrown,
  ok_injective, Bool-cases, inl, inr,
}
use activity_tracker_api.Base.Maps.{lookup, insert, erase, lookup-insert}
use activity_tracker_api.Base.Int.{pos, negsuc}
use activity_tracker_api.Auth.Tokens.{Jwt, JwtPayload, valid, invalid}
use activity_tracker_api.Auth.Clients.{Client, ClientTable, Compare}
use activity_tracker_api.Redis.{
  Ioredis, JsonCodec, became_ready, Address, direct_to, via_sentinel, master, slave, Command,
  get_key, del_key, set_key, setex_key, call_named, Reply,
}
use activity_tracker_api.Redis.Pipelines.Many.{run_command, run_commands, IsSequential}
use activity_tracker_api.Reports.{Queries, DailyUsageResult, DailyRow, IsCounted}
use activity_tracker_api.Base.Numbers.{whole, decimal}
use activity_tracker_api.Tests.Worlds.{refused}

-- A token is the id of the client that it was signed for.
abbrev payload_of : String → JwtPayload
payload_of client_id = record { client_id = client_id; email = "a@example.com"; name = "A" }

abbrev pub plain_tokens : Jwt
plain_tokens = record {
  sign = λ p. ok p.client_id;
  verify = λ token. if str_eq token "" then invalid refused else valid (payload_of token);
  decode = λ token. some (record { payload = payload_of token; exp = some 1000 });
}

abbrev pub client : String → Bool → Client
client client_id is_active = record {
  id = client_id;
  client_id = client_id;
  name = "A";
  email = "a@example.com";
  api_key = "";
  api_key_hash = some client_id;
  is_active = is_active;
  rate_limit = 1000;
  metadata = none;
  created_at = 0;
  updated_at = 0;
  last_access_at = none;
}

abbrev pub find_client : String → List Client → Option Client
find_client c [] = none
find_client c (x ∷ xs) = if str_eq x.client_id c then some x else find_client c xs

find_client-client_id :
    (c : String) (w : List Client) (x : Client) → find_client c w ≡ some x → x.client_id ≡ c
find_client-client_id c [] x h = absurd (cc)
find_client-client_id c (y ∷ w) x h = elim (Bool-cases (str_eq y.client_id c)) [
  | inl same ↦
      let found : some y ≡ some x = rw same at h in ground (arith, eq_iff y.client_id c, found)
  | inr other ↦ find_client-client_id c w x (rw other at h)
]

abbrev pub keep_if : Bool → Client → List Client → List Client
keep_if true x xs = x ∷ xs
keep_if false x xs = xs

keep_if-is_active :
    (b : Bool) (x : Client) (xs : List Client)
    → x.is_active ≡ b
    → All (λ x. x.is_active ≡ true) xs
    → All (λ x. x.is_active ≡ true) (keep_if b x xs)
keep_if-is_active true x xs e h = (e, h)
keep_if-is_active false x xs e h = h

abbrev pub active : List Client → List Client
active [] = []
active (x ∷ w) = keep_if x.is_active x (active w)

active-is_active : (w : List Client) → All (λ x. x.is_active ≡ true) (active w)
active-is_active [] = tt
active-is_active (x ∷ w) = keep_if-is_active x.is_active x (active w) refl (active-is_active w)

pub found_active : (w xs : List Client) → ok (active w) ≡ ok xs → All (λ x. x.is_active ≡ true) xs
found_active w xs h = subst (All (λ x. x.is_active ≡ true)) (cc) (active-is_active w)

pub found_client_id :
    (c : String) (w : List Client) (x : Client)
    → ok (find_client c w) ≡ ok (some x)
    → x.client_id ≡ c
found_client_id c w x h = find_client-client_id c w x (cc)

abbrev pub client_list : ClientTable
client_list = record {
  World = List Client;
  find_by_client_id = λ c w. ok (find_client c w);
  find_active = λ w. ok (active w);
  touch = λ id w. w;
  found_client_id = λ c w x h. found_client_id c w x h;
  found_active = found_active;
}

-- A hash is the key itself.
abbrev pub plain_compare : Compare
plain_compare plain hash = ok (str_eq plain hash)

-- The clients that have quit, and the values that are stored. A client that has quit refuses to
-- quit again.
pub record Values : Type 0 where
  pub ended : List ℕ
  pub values : List (String × String)

abbrev pub closed : Error
closed = record { name = "Error"; message = "Connection is closed." }

abbrev put : ℕ → String → String → Values → Result (Unit {0}) × Values
put c key value s = (ok tt, record s { values = insert key value s.values })

pub get-put :
    (key value : String) (s : Values)
    → ok (lookup key (insert key value s.values)) ≡ ok (some value)
get-put key value s = ap ok (lookup-insert key key value s.values ∙ rw (eq_refl key) refl)

-- The primary and a master are client 1, a slave is client 2.
abbrev client_number : Address → ℕ
client_number (direct_to endpoint password) = 1
client_number (via_sentinel sentinels name password master) = 1
client_number (via_sentinel sentinels name password slave) = 2

abbrev replied : Option String → Reply
replied text = record { error = none; result = text }

-- One command of a pipeline.
abbrev run_one : Command → Values → Reply × Values
run_one (get_key key) s = (replied (lookup key s.values), s)
run_one (del_key key) s = (replied (some "OK"), record s { values = erase key s.values })
run_one (set_key key value) s = (replied (some "OK"), (put 1 key value s).1)
run_one (setex_key key ttl value) s = (replied (some "OK"), (put 1 key value s).1)
run_one (call_named command args) s = (replied none, s)

abbrev run : List Command → Values → List Reply × Values
run [] s = ([], s)
run (command ∷ commands) s =
    let (reply, s₁) = run_one command s in
    let (replies, s₂) = run commands s₁ in (reply ∷ replies, s₂)

abbrev pub names : List (String × String) → List String
names [] = []
names ((key, value) ∷ entries) = key ∷ names entries

-- Every pattern finds every key.
abbrev pub value_store : Ioredis
value_store = record {
  Store = Values;
  create = λ a s. (client_number a, s);
  is_ready = λ c s. true;
  awaited = λ c s. (became_ready, s);
  quit = λ c s.
      if any (λ d. d == c) s.ended
      then (thrown closed, s)
      else (ok tt, record s { ended = c ∷ s.ended });
  get = λ c key s. ok (lookup key s.values);
  setex = λ c key ttl value s. put c key value s;
  set = put;
  incrby = λ c key amount s. (ok amount, s);
  expire = λ c key ttl s. (ok tt, s);
  del = λ c key s. (ok tt, record s { values = erase key s.values });
  keys = λ c pattern s. ok (names s.values);
  exists = λ c key s. ok (if any (λ name. str_eq name key) (names s.values) then 1 else 0);
  ttl = λ c key s. ok (negsuc 0);
  incr = λ c key s. (ok (pos 1), s);
  decr = λ c key s. (ok (negsuc 0), s);
  mget = λ c keys s. ok (map (λ key. lookup key s.values) keys);
  mset = λ c flat s. (ok tt, s);
  flushall = λ c s. (ok tt, record s { values = [] });
  info = λ c section s. ok "";
  ping = λ c s. ok "PONG";
  duplicate = λ c s. (3, s);
  subscribe = λ c channel s. (ok tt, s);
  publish = λ c channel message s. (ok 0, s);
  knows = λ command. false;
  call = λ c command args s. (ok none, s);
  exec = λ c commands s. (ok (some (run commands s).0), (run commands s).1);
  replicated = λ s. s;
  get_setex = λ writer reader key ttl value s h. get-put key value s;
}

run_one-eq :
    (c : ℕ) (command : Command) (s : Values)
    → run_command value_store c command s ≡ run_one command s
run_one-eq c (get_key key) s = refl
run_one-eq c (del_key key) s = refl
run_one-eq c (set_key key value) s = refl
run_one-eq c (setex_key key ttl value) s = refl
run_one-eq c (call_named command args) s = refl

run-eq :
    (c : ℕ) (commands : List Command) (s : Values)
    → run_commands value_store c commands s ≡ run commands s
run-eq c [] s = refl
run-eq c (command ∷ commands) s =
    let s₁ : Values = (run_one command s).1 in
    ap
      (λ (reply, s'). (
        reply ∷ (run_commands value_store c commands s').0,
        (run_commands value_store c commands s').1,
      ))
      (run_one-eq c command s)
    ∙ ap (λ (replies, s₂). ((run_one command s).0 ∷ replies, s₂)) (run-eq c commands s₁)

pub value_store-IsSequential : IsSequential value_store
value_store-IsSequential c commands s =
    ap (λ (replies, s'). (ok (some replies), s')) (sym (run-eq c commands s))

-- Two days of one client.
abbrev pub day : ℕ → ℕ → DailyUsageResult
day date request_count = record {
  date = date;
  request_count = whole request_count;
  avg_response_time = some "12.5";
  error_count = whole 0;
}

abbrev pub day_row : ℕ → ℕ → DailyRow
day_row date request_count = record {
  date = date;
  request_count = decimal request_count;
  avg_response_time = some "12.5";
  error_count = "0";
}

pub two_rows-IsCounted :
    (date : ℕ) (rows : List DailyRow)
    → (day_row date 3 ∷ day_row (date + 1) 5 ∷ []) ≡ rows
    → All IsCounted rows
two_rows-IsCounted date rows e =
    subst (All IsCounted) e (((3, refl), (0, refl)), (((5, refl), (0, refl)), tt))

abbrev pub two_days : ℕ → Queries
two_days date = record {
  World = ℕ;
  find_active = λ w. (ok (client "CL-1" true ∷ []), w + 1);
  daily_usage = λ client_id days w. (ok (day_row date 3 ∷ day_row (date + 1) 5 ∷ []), w + 1);
  top_clients = λ limit hours w. (
    ok (
        record {
          client_id = "CL-1";
          request_count = "8";
          avg_response_time = some "12.5";
          error_count = "0";
          last_access = date;
        }
        ∷ []),
    w + 1,
  );
  sleep = λ ms w. w + ms;
  daily_usage-IsCounted = λ client_id days w rows e. two_rows-IsCounted date rows (ok_injective e);
}

-- JSON of one value, which is all that is ever written.
abbrev pub only : {A : Type 0} → A → JsonCodec A
only a = record { stringify = λ _. "[{}]"; parse = λ _. ok a }
