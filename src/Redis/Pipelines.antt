-- ===== src/Redis/Pipelines.antt =====
-- The pipelines of src/services/redis.service.ts: delMany, pipeline, setJSONMany, getJSONMany and
-- invalidatePattern.
pub mod Many
use activity_tracker_api.Base.{
  ℕ, suc, ◌==◌, String, Bool, true, false, not, Option, none, some, List, [], ◌∷◌, map, length,
  if◌then◌else◌, Error, Result, ok, thrown, ◌>>=◌, catch,
}
use activity_tracker_api.Base.Int.{ℤ, pos, ltb_ℤ}
use activity_tracker_api.Http.{is_truthy}
use activity_tracker_api.Redis.{
  Ioredis, Redis, Clients, JsonCodec, Command, get_key, del_key, set_key, setex_key, call_named,
  Reply, ensure_connected, parse_value,
}

abbrev pub pipeline_failed : Error
pipeline_failed = record { name = "Error"; message = "Pipeline execution failed" }

abbrev pub not_a_function : Error
not_a_function = record { name = "TypeError"; message = "pipeline[command] is not a function" }

-- An entry for setJSONMany.
pub record Entry (A : Type 0) : Type 0 where
  pub key : String
  pub value : A
  pub ttl : Option ℤ

-- The first error among the replies is thrown.
abbrev pub parse_results : List Reply → Result (List (Option String))
parse_results [] = ok []
parse_results (reply ∷ replies) =
    let rest = parse_results replies in
    elim reply.error [
      | none ↦ (rest >>= λ results. ok (reply.result ∷ results))
      | some e ↦ thrown e
    ]

abbrev pub replies_or_failed : Option (List Reply) → Result (List Reply)
replies_or_failed none = thrown pipeline_failed
replies_or_failed (some replies) = ok replies

module _ (io : Ioredis) where
  open io use {Store}

  -- A pipeline of the write client, whatever its replies.
  abbrev pub exec_ignoring : List Command → Clients → Redis Store → Result (Unit {0}) × Redis Store
  exec_ignoring commands c r =
      let (outcome, s) = io.exec c.writer commands r.store in
      (outcome >>= λ _. ok tt, record r { store = s })

  abbrev pub behind_guard :
      {A : Type 0}
      → (Clients → Redis Store → Result A × Redis Store)
      → Redis Store
      → Result A × Redis Store
  behind_guard body r = elim (ensure_connected r.service) [
    | thrown e ↦ (thrown e, r)
    | ok c ↦ body c r
  ]

  unfoldable pub del_many : List String → Redis Store → Result (Unit {0}) × Redis Store
  del_many [] r = (ok tt, r)
  del_many (key ∷ keys) r = behind_guard (exec_ignoring (map del_key (key ∷ keys))) r

  -- A name that is no method of the pipeline throws before anything is sent.
  abbrev pub queue_commands : List (String × List String) → Result (List Command)
  queue_commands [] = ok []
  queue_commands ((command, args) ∷ commands) =
      let rest = queue_commands commands in
      if io.knows command
      then (rest >>= λ queued. ok (call_named command args ∷ queued))
      else thrown not_a_function

  abbrev pub exec_parsed :
      List Command → Clients → Redis Store → Result (List (Option String)) × Redis Store
  exec_parsed commands c r =
      let (outcome, s) = io.exec c.writer commands r.store in
      (outcome >>= replies_or_failed >>= parse_results, record r { store = s })

  abbrev pub exec_queued :
      Result (List Command) → Clients → Redis Store → Result (List (Option String)) × Redis Store
  exec_queued (thrown e) c r = (thrown e, r)
  exec_queued (ok queued) c r = exec_parsed queued c r

  unfoldable pub pipeline :
      List (String × List String) → Redis Store → Result (List (Option String)) × Redis Store
  pipeline commands r = behind_guard (exec_queued (queue_commands commands)) r

  unfoldable pub invalidate_pattern : String → Redis Store → Result ℕ × Redis Store
  invalidate_pattern pattern r =
      behind_guard
        (λ c r. elim (io.keys c.writer pattern r.store) [
          | thrown e ↦ (thrown e, r)
          | ok keys ↦
              if length keys == 0
              then (ok 0, r)
              else (let (outcome, r') = exec_ignoring (map del_key keys) c r in
                  (outcome >>= λ _. ok (length keys), r'))
        ])
        r

  module _ {A : Type 0} (json : JsonCodec A) where
    -- `ttl && ttl > 0` holds for the numbers above 0.
    abbrev pub entry_command : Entry A → Command
    entry_command entry =
        let plain : Command = set_key entry.key (json.stringify entry.value) in
        elim entry.ttl [
          | none ↦ plain
          | some ttl ↦
              if ltb_ℤ (pos 0) ttl
              then setex_key entry.key ttl (json.stringify entry.value)
              else plain
        ]

    unfoldable pub set_json_many : List (Entry A) → Redis Store → Result (Unit {0}) × Redis Store
    set_json_many [] r = (ok tt, r)
    set_json_many (entry ∷ entries) r =
        behind_guard (exec_ignoring (map entry_command (entry ∷ entries))) r

    -- `null` for an error, for nothing, for the empty text, and for what is not JSON.
    abbrev pub parse_reply : Reply → Option A
    parse_reply reply = elim reply.error [
      | some e ↦ none
      | none ↦ catch (parse_value io json reply.result) (λ e. none)
    ]

    unfoldable pub get_json_many : List String → Redis Store → Result (List (Option A))
    get_json_many [] r = ok []
    get_json_many (key ∷ keys) r = ensure_connected r.service >>= λ c.
        (io.exec c.reader (map get_key (key ∷ keys)) r.store).0 >>= replies_or_failed >>= λ replies.
        ok (map parse_reply replies)
