-- ===== src/Streams/Closed.antt =====
-- What a connection of src/api/client/clientService.ts still sends once it is closed.
use activity_tracker_api.Base.{
  ℕ, zero, suc, ◌+◌, ◌≤◌, ◌≡◌, refl, String, false, List, [], ◌∷◌, ◌++◌, length, length-append,
  arith, Bool-cases, inl, inr,
}
use activity_tracker_api.Base.Numbers.{whole}
use activity_tracker_api.Http.{ServiceResponse}
use activity_tracker_api.Redis.{Ioredis, JsonCodec}
use activity_tracker_api.Reports.{DailyUsageResult, TopClientResult, Queries}
use activity_tracker_api.Usage.{Env, Backend, get_daily_usage, get_top_clients}
use activity_tracker_api.Streams.{
  Message, daily_update, top_update, Waiting, for_daily, for_top, wants_top, Event, heartbeat_due,
  update_due, answered, closes, Stream, sent_if, after_daily, go_on, answer, handle, handle_all,
}

-- How many messages the updates that wait may still send.
abbrev pub due : List Waiting → ℕ
due [] = 0
due (for_daily ∷ waiting) = 2 + due waiting
due (for_top ∷ waiting) = 1 + due waiting

due-append : (xs ys : List Waiting) → due (xs ++ ys) ≡ due xs + due ys
due-append [] ys = omega arith
due-append (for_daily ∷ xs) ys = omega (arith, due-append xs ys)
due-append (for_top ∷ xs) ys = omega (arith, due-append xs ys)

module _ (io : Ioredis) (db : Queries) (env : Env) (json_daily : JsonCodec (List DailyUsageResult))
    (json_top : JsonCodec (List TopClientResult)) where
  abbrev S : Type 0
  S = Stream io db env json_daily json_top

  length-sent_if :
      {A : Type 0} (response : ServiceResponse A) (m : Message)
      → length (sent_if io db env json_daily json_top response m) ≤ 1
  length-sent_if response m = elim (Bool-cases response.success) [
    | inl succeeded ↦ rw (succeeded, sent_if) (omega arith)
    | inr failed ↦ rw (failed, sent_if) (omega arith)
  ]

  due-after_daily : (channel : String) → due (after_daily io db env json_daily json_top channel) ≤ 1
  due-after_daily channel = elim (Bool-cases (wants_top channel)) [
    | inl wanted ↦ rw (wanted, after_daily) (omega arith)
    | inr unwanted ↦ rw (unwanted, after_daily) (omega arith)
  ]

  go_on-due :
      (w : Waiting) (channel : String) (backend : Backend io db env)
      → length (go_on io db env json_daily json_top w channel backend).0
          + due (go_on io db env json_daily json_top w channel backend).1
        ≤ due (w ∷ [])
  go_on-due for_daily channel backend =
      let response = (get_daily_usage io db env json_daily (whole 7) backend).0 in
      omega (
        arith,
        due-after_daily channel,
        length-sent_if response (daily_update (json_daily.stringify response.response_object)),
      )
  go_on-due for_top channel backend =
      let response = (get_top_clients io db env json_top (whole 24) (whole 3) backend).0 in
      omega
        (arith, length-sent_if response (top_update (json_top.stringify response.response_object)))

  answer-due :
      (i : ℕ) (channel : String) (waiting : List Waiting) (backend : Backend io db env)
      → length (answer io db env json_daily json_top i channel waiting backend).0
          + due (answer io db env json_daily json_top i channel waiting backend).1
        ≤ due waiting
  answer-due i channel [] backend = omega arith
  answer-due zero channel (w ∷ waiting) backend = omega (
    arith,
    go_on-due w channel backend,
    due-append (go_on io db env json_daily json_top w channel backend).1 waiting,
    due-append (w ∷ []) waiting,
  )
  answer-due (suc i) channel (for_daily ∷ waiting) backend =
      omega (arith, answer-due i channel waiting backend)
  answer-due (suc i) channel (for_top ∷ waiting) backend =
      omega (arith, answer-due i channel waiting backend)

  handle-due :
      (e : Event) (s : S)
      → s.running ≡ false
      → let s' = handle io db env json_daily json_top e s in
        (s'.running ≡ false) × (length s'.sent + due s'.waiting ≤ length s.sent + due s.waiting)
  unfolding handle
  handle-due (heartbeat_due now) s stopped = rw stopped (refl, omega arith)
  handle-due update_due s stopped = rw stopped (refl, omega arith)
  handle-due (answered i) s stopped = (
    stopped,
    omega (
      arith,
      answer-due i s.channel s.waiting s.backend,
      length-append s.sent (answer io db env json_daily json_top i s.channel s.waiting s.backend).0,
    ),
  )
  handle-due closes s stopped = (refl, omega arith)

  -- Once a connection is closed, no event starts an update or a heartbeat: it is sent at most what the
  -- updates that wait at the close still send, two messages for each that waits for the daily usage
  -- and one for each that waits for the top clients.
  pub handle_all-due :
      (es : List Event) (s : S)
      → s.running ≡ false
      → length (handle_all io db env json_daily json_top es s).sent ≤ length s.sent + due s.waiting
  unfolding handle_all
  handle_all-due [] s stopped = omega arith
  handle_all-due (e ∷ es) s stopped =
      let (still, fewer) = handle-due e s stopped in
      omega (arith, fewer, handle_all-due es (handle io db env json_daily json_top e s) still)
