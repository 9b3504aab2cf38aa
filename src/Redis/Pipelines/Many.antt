-- ===== src/Redis/Pipelines/Many.antt =====
-- The pipelines of src/services/redis.service.ts against the single commands.
use activity_tracker_api.Base.{
  arith, true, false, ℕ, ◌==◌, ◌≡◌, ◌∙◌, refl, ap, sym, String, Option, none, some, List, [], ◌∷◌,
  map, Result, ok, thrown, ◌>>=◌, catch, Bool-cases, inl, inr,
}
use activity_tracker_api.Base.Int.{ℤ, pos, negsuc, ltb_ℤ}
use activity_tracker_api.Redis.{
  Ioredis, Redis, Clients, JsonCodec, Command, get_key, del_key, set_key, setex_key, call_named,
  Reply, ensure_connected, parse_value, get, get_json, set, set_json, set_command, write,
}
use activity_tracker_api.Redis.Pipelines.{
  Entry, exec_ignoring, behind_guard, entry_command, set_json_many, parse_reply, get_json_many,
}

abbrev reply_of : {A : Type 0} → (A → Option String) → Result A → Reply
reply_of text (ok a) = record { error = none; result = text a }
reply_of text (thrown e) = record { error = some e; result = none }

abbrev no_text : Unit {0} → Option String
no_text _ = some "OK"

-- The time to live that an entry is written with: none, which 0 stands for, unless it is above 0.
abbrev pub positive_ttl : Option ℤ → ℤ
positive_ttl none = pos 0
positive_ttl (some (pos n)) = pos n
positive_ttl (some (negsuc n)) = pos 0

module _ (io : Ioredis) where
  open io use {Store}

  -- One command of a pipeline, as it is answered when it is sent alone.
  abbrev pub run_command : ℕ → Command → Store → Reply × Store
  run_command c (get_key key) s = (reply_of (λ text. text) (io.get c key s), s)
  run_command c (del_key key) s =
      let (outcome, s') = io.del c key s in (reply_of no_text outcome, s')
  run_command c (set_key key value) s =
      let (outcome, s') = io.set c key value s in (reply_of no_text outcome, s')
  run_command c (setex_key key ttl value) s =
      let (outcome, s') = io.setex c key ttl value s in (reply_of no_text outcome, s')
  run_command c (call_named command args) s =
      let (outcome, s') = io.call c command args s in (reply_of (λ text. text) outcome, s')

  abbrev pub run_commands : ℕ → List Command → Store → List Reply × Store
  run_commands c [] s = ([], s)
  run_commands c (command ∷ commands) s =
      let (reply, s₁) = run_command c command s in
      let (replies, s₂) = run_commands c commands s₁ in (reply ∷ replies, s₂)

  -- `exec` answers with one reply for each command, in order, and leaves what the commands leave that
  -- are sent one by one; an error stays with its command.
  abbrev pub IsSequential : Type 0
  IsSequential =
      (c : ℕ) (commands : List Command) (s : Store)
      → io.exec c commands s
        ≡ (ok (some (run_commands c commands s).0), (run_commands c commands s).1)

  behind_guard-connected :
      {A : Type 0} (body : Clients → Redis Store → Result A × Redis Store) (r : Redis Store)
      (c : Clients)
      → ensure_connected r.service ≡ ok c
      → behind_guard io body r ≡ body c r
  behind_guard-connected body r c on = rw (on, behind_guard) refl

  exec_ignoring-sequential :
      (commands : List Command) (r : Redis Store) (c : Clients)
      → IsSequential
      → exec_ignoring io commands c r
        ≡ (ok tt, record r { store = (run_commands c.writer commands r.store).1 })
  exec_ignoring-sequential commands r c sequential =
      ap (λ (outcome, s). (outcome >>= λ _. ok tt, record r { store = s }))
        (sequential c.writer commands r.store)

  replies_to_gets :
      (c : ℕ) (keys : List String) (s : Store)
      → (run_commands c (map get_key keys) s).0
        ≡ map (λ key. reply_of (λ text. text) (io.get c key s)) keys
  replies_to_gets c [] s = refl
  replies_to_gets c (key ∷ keys) s =
      ap (λ l. reply_of (λ text. text) (io.get c key s) ∷ l) (replies_to_gets c keys s)

  module _ {A : Type 0} (json : JsonCodec A) where
    -- What getJSON returns, and `null` where it throws.
    abbrev pub get_or_none : Redis Store → String → Option A
    get_or_none r key = catch (get_json io json key r) (λ e. none)

    parse_reply-reply_of :
        (result : Result (Option String))
        → parse_reply io json (reply_of (λ text. text) result)
          ≡ catch (result >>= parse_value io json) (λ e. none)
    parse_reply-reply_of (ok text) = refl
    parse_reply-reply_of (thrown e) = refl

    parsed_replies :
        (c : Clients) (keys : List String) (r : Redis Store)
        → ensure_connected r.service ≡ ok c
        → map
            (parse_reply io json)
            (map (λ key. reply_of (λ text. text) (io.get c.reader key r.store)) keys)
          ≡ map (get_or_none r) keys
    unfolding get_json get
    parsed_replies c [] r on = refl
    parsed_replies c (key ∷ keys) r on =
        let first : parse_reply io json (reply_of (λ text. text) (io.get c.reader key r.store))
            ≡ get_or_none r key =
          parse_reply-reply_of (io.get c.reader key r.store) ∙ rw (on, get_json, get) refl in
        let rest : List (Option A) =
          map (parse_reply io json)
            (map (λ key. reply_of (λ text. text) (io.get c.reader key r.store)) keys) in
        ap (λ o. o ∷ rest) first ∙ ap (λ l. get_or_none r key ∷ l) (parsed_replies c keys r on)

    -- While Redis is connected, and if a pipeline answers and leaves what its commands do that are sent
    -- one by one, getJSONMany gives for each key what getJSON gives for that key alone, and `null` where
    -- getJSON would throw: one bad entry does not spoil the others.
    pub get_json_many-eq :
        (keys : List String) (r : Redis Store) (c : Clients)
        → IsSequential
        → ensure_connected r.service ≡ ok c
        → get_json_many io json keys r ≡ ok (map (get_or_none r) keys)
    unfolding get_json_many
    get_json_many-eq [] r c sequential on = refl
    get_json_many-eq (key ∷ keys) r c sequential on =
        rw (on, get_json_many, sequential c.reader (map get_key (key ∷ keys)) r.store)
          (ap (λ l. ok (map (parse_reply io json) l))
              (replies_to_gets c.reader (key ∷ keys) r.store)
            ∙ ap ok (parsed_replies c (key ∷ keys) r on))

    -- setJSON on each entry in turn, whether or not one throws, with a time to live that is not negative.
    abbrev pub set_each : List (Entry A) → Redis Store → Redis Store
    set_each [] r = r
    set_each (entry ∷ entries) r =
        set_each entries (set_json io json entry.key entry.value (positive_ttl entry.ttl) r).1

    sent : Clients → Command → Redis Store → Redis Store
    sent c command r = record r { store = (run_command c.writer command r.store).1 }

    set_command-entry_command :
        (c : ℕ) (key : String) (value : A) (ttl : Option ℤ) (s : Store)
        → (set_command io key (json.stringify value) (positive_ttl ttl) c s).1
          ≡ (run_command c
              (entry_command io json (record { key = key; value = value; ttl = ttl }))
              s).1
    set_command-entry_command c key value none s = refl
    set_command-entry_command c key value (some (pos n)) s = elim (Bool-cases (n == 0)) [
      | inl none_left ↦
          let nothing : ltb_ℤ (pos 0) (pos n) ≡ false = ground arith in rw (none_left, nothing) refl
      | inr lasting ↦
          let above : ltb_ℤ (pos 0) (pos n) ≡ true = ground arith in rw (lasting, above) refl
    ]
    set_command-entry_command c key value (some (negsuc n)) s =
        let below : ltb_ℤ (pos 0) (negsuc n) ≡ false = ground arith in rw below refl

    set_json-sent :
        (entry : Entry A) (r : Redis Store) (c : Clients)
        → ensure_connected r.service ≡ ok c
        → (set_json io json entry.key entry.value (positive_ttl entry.ttl) r).1
          ≡ sent c (entry_command io json entry) r
    unfolding set_json set sent
    set_json-sent entry r c on =
        rw (on, set_json, set, write)
          (ap (λ s. record r { store = s })
            (set_command-entry_command c.writer entry.key entry.value entry.ttl r.store))

    run_commands-set_each :
        (entries : List (Entry A)) (r : Redis Store) (c : Clients)
        → ensure_connected r.service ≡ ok c
        → record r {
          store = (run_commands c.writer (map (entry_command io json) entries) r.store).1;
        }
          ≡ set_each entries r
    unfolding sent
    run_commands-set_each [] r c on = refl
    run_commands-set_each (entry ∷ entries) r c on =
        run_commands-set_each entries (sent c (entry_command io json entry) r) c on
        ∙ ap (set_each entries) (sym (set_json-sent entry r c on))

    -- While Redis is connected, and if a pipeline answers and leaves what its commands do that are sent
    -- one by one, setJSONMany leaves what setJSON leaves that is called for one entry after the other,
    -- without a time to live where that of the entry is negative; but it returns also where Redis
    -- refuses an entry, for which setJSON would throw.
    pub set_json_many-eq :
        (entries : List (Entry A)) (r : Redis Store) (c : Clients)
        → IsSequential
        → ensure_connected r.service ≡ ok c
        → set_json_many io json entries r ≡ (ok tt, set_each entries r)
    unfolding set_json_many
    set_json_many-eq [] r c sequential on = refl
    set_json_many-eq (entry ∷ entries) r c sequential on =
        let commands : List Command = map (entry_command io json) (entry ∷ entries) in
        behind_guard-connected (exec_ignoring io commands) r c on
        ∙ exec_ignoring-sequential commands r c sequential
        ∙ ap (λ r'. (ok tt, r')) (run_commands-set_each (entry ∷ entries) r c on)
