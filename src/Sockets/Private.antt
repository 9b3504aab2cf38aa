-- ===== src/Sockets/Private.antt =====
-- Whom the targeted events of src/services/websocket.service.ts reach.
use Prim.Native.String.{len, slice}
use text.Mathlib.Text.{starts_with}
use text.Mathlib.TextPositions.{starts_with-append, slice-append_right, len-append}
use activity_tracker_api.Base.{
  ◌≡◌, ◌≢◌, ◌∙◌, refl, ap, sym, String, Bool, true, false, not, List, [], ◌∷◌, ◌++◌, filter, any,
  arith, str_eq, eq_iff, Bool-cases, inl, inr, ◌⊎◌,
}
use activity_tracker_api.Sockets.{
  Emitted, Socket, client_room, is_in, join, connection, is_channel, subscribe, unsubscribe,
  deliver, Lives, connects, subscribes, unsubscribes, is_sent,
}

client_room-injective : (x y : String) → client_room x ≡ client_room y → x ≡ y
client_room-injective x y e =
    sym (tail_of x) ∙ ap (λ u. slice u (len "client:") (len u)) e ∙ tail_of y
  where
    tail_of : (z : String) → slice (client_room z) (len "client:") (len (client_room z)) ≡ z
    tail_of z =
        ap (slice (client_room z) (len "client:")) (len-append "client:" z)
        ∙ slice-append_right "client:" z

not_client_room :
    (channel x : String)
    → starts_with channel "client:" ≡ false
    → str_eq channel (client_room x) ≡ false
not_client_room channel x h = elim (Bool-cases (str_eq channel (client_room x))) [
  | inr other ↦ other
  | inl same ↦
      let eq : channel ≡ client_room x = (eq_iff channel (client_room x)).0 same in
      let yes : starts_with channel "client:" ≡ true =
        ap (λ u. starts_with u "client:") eq ∙ starts_with-append "client:" x in
      absurd (cc)
]

starts_with-channel :
    (channel : String) → is_channel channel ≡ true → starts_with channel "client:" ≡ false
starts_with-channel channel h = elim (Bool-cases (str_eq channel "usage:daily")) [
  | inl daily ↦ ap (λ u. starts_with u "client:") ((eq_iff channel "usage:daily").0 daily)
  | inr no_daily ↦ elim (Bool-cases (str_eq channel "usage:top")) [
    | inl top ↦ ap (λ u. starts_with u "client:") ((eq_iff channel "usage:top").0 top)
    | inr no_top ↦ elim (Bool-cases (str_eq channel "logs")) [
      | inl logs ↦ ap (λ u. starts_with u "client:") ((eq_iff channel "logs").0 logs)
      | inr no_logs ↦ absurd (ground arith)
    ]
  ]
]

any-snoc :
    (p : String → Bool) (xs : List String) (y : String)
    → any p (xs ++ y ∷ []) ≡ true
    → (p y ≡ true) ⊎ (any p xs ≡ true)
any-snoc p [] y h = inl (ground arith)
any-snoc p (x ∷ xs) y h = elim (Bool-cases (p x)) [
  | inl holds ↦ inr (rw holds refl)
  | inr fails ↦ elim (any-snoc p xs y (rw fails at h)) [
    | inl a ↦ inl a
    | inr b ↦ inr (rw (fails, b) refl)
  ]
]

any-filter : (p q : String → Bool) (xs : List String) → any p (filter q xs) ≡ true → any p xs ≡ true
any-filter p q [] h = h
any-filter p q (x ∷ xs) h = ground (arith, any-filter p q xs)

is_in-join :
    (room other : String) (s : Socket)
    → is_in other (join room s) ≡ true
    → (str_eq room other ≡ true) ⊎ (is_in other s ≡ true)
is_in-join room other s h = elim (Bool-cases (is_in room s)) [
  | inl there ↦ inr (rw there at h)
  | inr new ↦ any-snoc (λ r. str_eq r other) s.rooms room (rw new at h)
]

-- A socket is in no client's room but its own client's.
abbrev IsPrivate : String → Socket → Type 0
IsPrivate client_id s = (x : String) → is_in (client_room x) s ≡ true → x ≡ client_id

join-IsPrivate :
    (client_id room : String) (s : Socket)
    → starts_with room "client:" ≡ false
    → IsPrivate client_id s
    → IsPrivate client_id (join room s)
join-IsPrivate client_id room s h private x inside =
    elim (is_in-join room (client_room x) s inside) [
      | inl same ↦ let differs = not_client_room room x h in absurd (cc)
      | inr before ↦ private x before
    ]

connection-IsPrivate : (id client_id : String) → IsPrivate client_id (connection id client_id)
unfolding connection
connection-IsPrivate id client_id = elim (Bool-cases (str_eq client_id "")) [
  | inl nameless ↦ rw nameless (λ x inside. absurd (cc))
  | inr named ↦
      let fresh : Socket = record { id = id; client_id = client_id; rooms = []; received = [] } in
      rw named (
        join-IsPrivate client_id "all-clients" (join (client_room client_id) fresh) refl
          (λ x inside. elim (is_in-join (client_room client_id) (client_room x) fresh inside) [
            | inl same ↦ sym (
                client_room-injective client_id x
                  ((eq_iff (client_room client_id) (client_room x)).0 same))
            | inr never ↦ absurd (cc)
          ]))
]

subscribe-IsPrivate :
    (client_id channel : String) (s : Socket)
    → IsPrivate client_id s
    → IsPrivate client_id (subscribe channel s)
unfolding subscribe
subscribe-IsPrivate client_id channel s private = elim (Bool-cases (is_channel channel)) [
  | inl open_channel ↦
      rw open_channel
        (join-IsPrivate client_id channel s (starts_with-channel channel open_channel) private)
  | inr closed ↦ rw closed private
]

deliver-IsPrivate :
    (client_id room : String) (e : Emitted) (s : Socket)
    → IsPrivate client_id s
    → IsPrivate client_id (deliver room e s)
unfolding deliver
deliver-IsPrivate client_id room e s private = elim (Bool-cases (is_in room s)) [
  | inl inside ↦ rw inside private
  | inr outside ↦ rw outside private
]

Lives-IsPrivate :
    {id client_id : String} {s : Socket} → Lives id client_id s → IsPrivate client_id s
unfolding unsubscribe
Lives-IsPrivate {id} {client_id} connects = connection-IsPrivate id client_id
Lives-IsPrivate {client_id = client_id} (subscribes {s} channel l) =
    subscribe-IsPrivate client_id channel s (Lives-IsPrivate l)
Lives-IsPrivate (unsubscribes {s} channel l) = λ x inside.
    Lives-IsPrivate l x
      (any-filter (λ r. str_eq r (client_room x)) (λ r. not (str_eq r channel)) s.rooms inside)
Lives-IsPrivate {client_id = client_id} (is_sent {s} room e l) =
    deliver-IsPrivate client_id room e s (Lives-IsPrivate l)

-- Whatever a socket subscribes to or leaves, an event that is sent to the room of another client than
-- the one that it authenticated as does not reach it.
pub deliver-client_room :
    {id client_id : String} {s : Socket} (x : String) (e : Emitted)
    → Lives id client_id s
    → x ≢ client_id
    → deliver (client_room x) e s ≡ s
unfolding deliver
deliver-client_room {s = s} x e l other = elim (Bool-cases (is_in (client_room x) s)) [
  | inl inside ↦ absurd (other (Lives-IsPrivate l x inside))
  | inr outside ↦ rw outside refl
]
