-- ===== src/Streams/Channel.antt =====
-- What a connection of src/api/client/clientService.ts sends, and what it still sends once it is closed.
use activity_tracker_api.Base.{
  ℕ, zero, suc, ◌≡◌, refl, ap, subst, String, Bool, true, false, List, [], ◌∷◌, ◌++◌, All,
  if◌then◌else◌, Bool-cases, inl, inr,
}
use activity_tracker_api.Base.Numbers.{whole}
use activity_tracker_api.Http.{ServiceResponse}
use activity_tracker_api.Redis.{Ioredis, JsonCodec}
use activity_tracker_api.Reports.{DailyUsageResult, TopClientResult, Queries}
use activity_tracker_api.Usage.{Env, Backend, get_daily_usage, get_top_clients}
use activity_tracker_api.Streams.{
  Message, connected, heartbeat, daily_update, top_update, Waiting, for_daily, for_top, wants_daily,
  wants_top, Event, heartbeat_due, update_due, answered, closes, Stream, send, start_stream,
  sent_if, after_daily, first_wait, go_on, answer, handle, handle_all,
}

-- A message that a channel asks for, and an answer that it waits for. No channel asks for another first
-- message.
abbrev pub IsAsked : (channel : String) → Message → Type 0
IsAsked channel (connected json) = ⊥
IsAsked channel (heartbeat now) = Unit
IsAsked channel (daily_update json) = wants_daily channel ≡ true
IsAsked channel (top_update json) = wants_top channel ≡ true

abbrev IsAwaited : (channel : String) → Waiting → Type 0
IsAwaited channel for_daily = wants_daily channel ≡ true
IsAwaited channel for_top = wants_top channel ≡ true

append-All : {A : Type 0} (P : A → Type 0) (xs ys : List A) → All P xs → All P ys → All P (xs ++ ys)
append-All P [] ys h k = k
append-All P (x ∷ xs) ys h k = (h.0, append-All P xs ys h.1 k)

All-if :
    {A : Type 0} (P : A → Type 0) (b : Bool) (xs : List A)
    → (b ≡ true → All P xs)
    → All P (if b then xs else [])
All-if P true xs h = h refl
All-if P false xs h = tt

module _ (io : Ioredis) (db : Queries) (env : Env) (json_daily : JsonCodec (List DailyUsageResult))
    (json_top : JsonCodec (List TopClientResult)) where
  abbrev S : Type 0
  S = Stream io db env json_daily json_top

  record IsFaithful (json : String) (s : S) : Type 0 where
    later : List Message
    sent : s.sent ≡ connected json ∷ later
    asked : All (IsAsked s.channel) later
    waiting : All (IsAwaited s.channel) s.waiting

  after_daily-IsAwaited :
      (channel : String)
      → All (IsAwaited channel) (after_daily io db env json_daily json_top channel)
  after_daily-IsAwaited channel =
      All-if (IsAwaited channel) (wants_top channel) (for_top ∷ []) (λ h. (h, tt))

  sent_if-IsAsked :
      {A : Type 0} (channel : String) (response : ServiceResponse A) (m : Message)
      → IsAsked channel m
      → All (IsAsked channel) (sent_if io db env json_daily json_top response m)
  sent_if-IsAsked channel response m h =
      All-if (IsAsked channel) response.success (m ∷ []) (λ _. (h, tt))

  IsFaithfulAnswer : (channel : String) → List Message × List Waiting × Backend io db env → Type 0
  IsFaithfulAnswer channel (messages, waiting, _) =
      All (IsAsked channel) messages × All (IsAwaited channel) waiting

  go_on-IsFaithful :
      (w : Waiting) (channel : String) (backend : Backend io db env)
      → IsAwaited channel w
      → IsFaithfulAnswer channel (go_on io db env json_daily json_top w channel backend)
  unfolding IsFaithfulAnswer
  go_on-IsFaithful for_daily channel backend h =
      let response = (get_daily_usage io db env json_daily (whole 7) backend).0 in
      (
        sent_if-IsAsked channel response
            (daily_update (json_daily.stringify response.response_object)) h,
        after_daily-IsAwaited channel,
      )
  go_on-IsFaithful for_top channel backend h =
      let response = (get_top_clients io db env json_top (whole 24) (whole 3) backend).0 in
      (
        sent_if-IsAsked channel response (top_update (json_top.stringify response.response_object))
            h,
        tt,
      )

  answer-IsFaithful :
      (i : ℕ) (channel : String) (waiting : List Waiting) (backend : Backend io db env)
      → All (IsAwaited channel) waiting
      → IsFaithfulAnswer channel (answer io db env json_daily json_top i channel waiting backend)
  unfolding IsFaithfulAnswer
  answer-IsFaithful i channel [] backend h = (tt, tt)
  answer-IsFaithful zero channel (w ∷ waiting) backend (first, rest) =
      let (asked, next_wait) = go_on-IsFaithful w channel backend first in
      (asked, append-All (IsAwaited channel) _ waiting next_wait rest)
  answer-IsFaithful (suc i) channel (w ∷ waiting) backend (first, rest) =
      let (asked, others) = answer-IsFaithful i channel waiting backend rest in
      (asked, (first, others))

  first_wait-IsAwaited :
      (channel : String)
      → All (IsAwaited channel) (first_wait io db env json_daily json_top channel)
  first_wait-IsAwaited channel = elim (Bool-cases (wants_daily channel)) [
    | inl wanted ↦ rw (wanted, first_wait) (wanted, tt)
    | inr unwanted ↦ rw (unwanted, first_wait) (after_daily-IsAwaited channel)
  ]

  if_IsFaithful :
      (json : String) (b : Bool) (s s' : S)
      → IsFaithful json s
      → IsFaithful json s'
      → IsFaithful json (if b then s else s')
  if_IsFaithful json true s s' h h' = h
  if_IsFaithful json false s s' h h' = h'

  -- More messages that the channel asks for, and other answers that it waits for.
  more-IsFaithful :
      (json : String) (s : S) (more : List Message) (waiting : List Waiting) (running : Bool)
      (backend : Backend io db env)
      → IsFaithful json s
      → All (IsAsked s.channel) more
      → All (IsAwaited s.channel) waiting
      → IsFaithful json (record {
        channel = s.channel;
        running = running;
        waiting = waiting;
        sent = s.sent ++ more;
        backend = backend;
      })
  more-IsFaithful json s more waiting running backend h asked awaited = record {
    later = h.later ++ more;
    sent = ap (λ l. l ++ more) h.sent;
    asked = append-All (IsAsked s.channel) h.later more h.asked asked;
    waiting = awaited;
  }

  handle-IsFaithful :
      (json : String) (e : Event) (s : S)
      → IsFaithful json s
      → IsFaithful json (handle io db env json_daily json_top e s)
  unfolding handle IsFaithfulAnswer
  handle-IsFaithful json (heartbeat_due now) s h =
      if_IsFaithful json s.running (send io db env json_daily json_top (heartbeat now) s) s
        (more-IsFaithful json s (heartbeat now ∷ []) s.waiting s.running s.backend h (tt, tt)
          h.waiting)
        h
  handle-IsFaithful json update_due s h =
      let first = first_wait io db env json_daily json_top s.channel in
      if_IsFaithful json s.running (record s { waiting = s.waiting ++ first }) s
        (record {
          later = h.later;
          sent = h.sent;
          asked = h.asked;
          waiting =
              append-All (IsAwaited s.channel) s.waiting first h.waiting
                (first_wait-IsAwaited s.channel);
        })
        h
  handle-IsFaithful json (answered i) s h =
      let (asked, awaited) = answer-IsFaithful i s.channel s.waiting s.backend h.waiting in
      more-IsFaithful json s _ _ s.running _ h asked awaited
  handle-IsFaithful json closes s h = record {
    later = h.later;
    sent = h.sent;
    asked = h.asked;
    waiting = h.waiting;
  }

  if_channel :
      (b : Bool) (s s' : S) → s.channel ≡ s'.channel → (if b then s else s').channel ≡ s'.channel
  if_channel true s s' e = e
  if_channel false s s' e = refl

  handle-channel :
      (e : Event) (s : S) → (handle io db env json_daily json_top e s).channel ≡ s.channel
  unfolding handle
  handle-channel (heartbeat_due now) s =
      if_channel s.running (send io db env json_daily json_top (heartbeat now) s) s refl
  handle-channel update_due s =
      if_channel s.running
        (record s { waiting = s.waiting ++ first_wait io db env json_daily json_top s.channel }) s
        refl
  handle-channel (answered i) s = refl
  handle-channel closes s = refl

  -- The first message, and then nothing that the channel does not ask for.
  abbrev pub IsSent : (channel json : String) → List Message → Type 0
  IsSent channel json sent =
      (later : List Message) × (sent ≡ connected json ∷ later) × All (IsAsked channel) later

  handle_all-IsFaithful :
      (json : String) (es : List Event) (s : S)
      → IsFaithful json s
      → IsSent s.channel json (handle_all io db env json_daily json_top es s).sent
  unfolding handle_all
  handle_all-IsFaithful json [] s h = (h.later, h.sent, h.asked)
  handle_all-IsFaithful json (e ∷ es) s h =
      let s' : S = handle io db env json_daily json_top e s in
      let h' = handle-IsFaithful json e s h in
      subst (λ c. IsSent c json (handle_all io db env json_daily json_top es s').sent)
        (handle-channel e s) (handle_all-IsFaithful json es s' h')

  -- Whatever happens on a connection, in whatever order: the first message is sent once, and after it a
  -- channel for the daily usage is sent no top clients, one for the top clients no daily usage, and
  -- one that is neither of them nor `all`, as `logs` is, heartbeats alone.
  pub handle_all-IsAsked :
      (es : List Event) (channel json : String) (backend : Backend io db env)
      → IsSent channel json
          (handle_all io db env json_daily json_top es
            (start_stream io db env json_daily json_top channel json backend)).sent
  unfolding start_stream
  handle_all-IsAsked es channel json backend =
      handle_all-IsFaithful json es
        (start_stream io db env json_daily json_top channel json backend)
        (record { later = []; sent = refl; asked = tt; waiting = tt })
