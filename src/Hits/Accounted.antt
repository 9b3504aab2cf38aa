-- ===== src/Hits/Accounted.antt =====
-- Where a hit goes that src/api/client/clientController.ts accepts.
use activity_tracker_api.Base.{
  ◌+◌, ◌≡◌, refl, String, Bool, true, some, [], ◌∷◌, ◌++◌, arith, leb, length, count-append,
  Bool-cases, inl, inr, ◌⊎◌, Option, none, Error, ok, thrown, Result-cases,
}
use activity_tracker_api.Http.{AuthClient, Request, is_truthy, success}
use activity_tracker_api.Logs.{ApiLogData}
use activity_tracker_api.Pipeline.{Database, State}
use activity_tracker_api.Pipeline.Machine.{add_to_batch}
use activity_tracker_api.Pipeline.Conservation.{payload, tally, weight}
use activity_tracker_api.Pipeline.Reach.{weight-flush_batch}
use activity_tracker_api.Redis.{RedisService, Clients, ensure_connected}
use activity_tracker_api.Hits.{
  LogEvent, publish_event, HitBody, log_of, event_of, log_api_hit, data_of_body, handle_hit,
}

-- The event is handed to Redis if the guard of the Redis service lets it pass, and to nobody if it
-- throws.
abbrev pub IsPublished : RedisService → LogEvent → Option LogEvent → Type 0
IsPublished redis event published =
    ((c : Clients) × (ensure_connected redis ≡ ok c) × (published ≡ some event))
    ⊎ ((e : Error) × (ensure_connected redis ≡ thrown e) × (published ≡ none))

module _ (p : ApiLogData → Bool) (d : Database) where
  open d use {World}

  weight-add_to_batch :
      (log : ApiLogData) (s : State World)
      → weight p d (add_to_batch d log s) ≡ weight p d s + tally p (log ∷ [])
  unfolding add_to_batch
  weight-add_to_batch log s =
      let s' : State World = record s { batch_queue = s.batch_queue ++ log ∷ [] } in
      let more : tally p s'.batch_queue ≡ tally p s.batch_queue + tally p (log ∷ []) =
        count-append (λ x. p (payload x)) s.batch_queue (log ∷ []) in
      elim (Bool-cases (leb s'.batch_size (length s'.batch_queue))) [
        | inl full ↦ rw (full, add_to_batch) (omega (arith, more, weight-flush_batch p d s'))
        | inr below ↦ rw (below, add_to_batch) (omega (arith, more))
      ]

  publish_event-IsPublished :
      (redis : RedisService) (event : LogEvent)
      → IsPublished redis event (publish_event d redis event)
  publish_event-IsPublished redis event = elim (Result-cases (ensure_connected redis)) [
    | inl (c, on) ↦ inl (c, on, rw (on, publish_event) refl)
    | inr (e, off) ↦ inr (e, off, rw (off, publish_event) refl)
  ]

  -- A hit of an authenticated client with an API key is answered 201, whatever the database does and
  -- whether Redis is connected or not; one entry for it is then queued, in memory, in the table or
  -- given up, beside all that was there; and its event is handed to Redis if Redis is connected, and
  -- lost if it is not.
  pub handle_hit-accounted :
      (redis : RedisService) (req : Request) (client : AuthClient) (key : String) (body : HitBody)
      (s : State World)
      → req.client ≡ some client
      → req.x_api_key ≡ some key
      → is_truthy (some client.client_id) ≡ true
      → is_truthy (some key) ≡ true
      → ((handle_hit d redis req body s).0 ≡ success "API hit logged successfully" tt 201)
        × (weight p d (handle_hit d redis req body s).1
            ≡ weight p d s + tally p (log_of client.client_id (data_of_body d key body) ∷ []))
        × IsPublished redis
            (event_of client.client_id (data_of_body d key body))
            (handle_hit d redis req body s).2
  unfolding handle_hit log_api_hit
  handle_hit-accounted redis req client key body s known keyed named present = (
    rw (known, keyed, named, present, handle_hit) refl,
    rw (known, keyed, named, present, handle_hit)
        (weight-add_to_batch (log_of client.client_id (data_of_body d key body)) s),
    rw (known, keyed, named, present, handle_hit)
        (publish_event-IsPublished redis (event_of client.client_id (data_of_body d key body))),
  )
