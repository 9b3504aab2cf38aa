-- ===== src/Sockets.antt =====
-- The rooms and broadcasts of src/services/websocket.service.ts, over what Socket.IO does: a socket
-- is in a set of rooms, and an event that is emitted to a room reaches each socket in it once. The
-- room that Socket.IO makes for each socket, which the code never names, is left out.
pub mod Private
use Prim.Native.String
use activity_tracker_api.Base.{
  ℕ, String, Bool, true, false, not, ◌||◌, Option, none, some, List, [], ◌∷◌, ◌++◌, map, filter,
  any, length, str_eq, if◌then◌else◌,
}
use activity_tracker_api.Logs.{Json}

-- What a socket receives: the event's name, and its data as JSON text.
pub record Emitted : Type 0 where
  pub event : String
  pub payload : Json

-- `AuthenticatedSocket`, with its rooms and what it has received.
pub record Socket : Type 0 where
  pub id : String
  pub client_id : String
  pub rooms : List String
  pub received : List Emitted

-- `io` is `null` before `initialize` and after `close`.
pub record WebSocketService : Type 0 where
  pub io : Option (List Socket)

abbrev pub client_room : String → String
client_room client_id = String.◌++◌ "client:" client_id

abbrev pub is_in : String → Socket → Bool
is_in room s = any (λ r. str_eq r room) s.rooms

-- `socket.join` and `socket.leave`; the rooms are a set.
abbrev pub join : String → Socket → Socket
join room s = if is_in room s then s else record s { rooms = s.rooms ++ room ∷ [] }

abbrev pub leave : String → Socket → Socket
leave room s = record s { rooms = filter (λ r. not (str_eq r room)) s.rooms }

abbrev pub receive : Emitted → Socket → Socket
receive e s = record s { received = s.received ++ e ∷ [] }

-- The handler of `connection`, on a socket that the handshake has let in.
unfoldable pub connection : (id client_id : String) → Socket
connection id client_id =
    let s : Socket = record { id = id; client_id = client_id; rooms = []; received = [] } in
    if not (str_eq client_id "") then join "all-clients" (join (client_room client_id) s) else s

abbrev pub is_channel : String → Bool
is_channel channel =
    str_eq channel "usage:daily" || (str_eq channel "usage:top" || str_eq channel "logs")

-- The events with a channel as their data.
unfoldable pub subscribe : String → Socket → Socket
subscribe channel s =
    if is_channel channel
    then receive (record { event = "subscribed"; payload = channel }) (join channel s)
    else s

unfoldable pub unsubscribe : String → Socket → Socket
unsubscribe channel s =
    receive (record { event = "unsubscribed"; payload = channel }) (leave channel s)

-- `io.to(room).emit(event, data)`, at one socket and at all.
unfoldable pub deliver : String → Emitted → Socket → Socket
deliver room e s = if is_in room s then receive e s else s

abbrev pub with_io : (List Socket → List Socket) → WebSocketService → WebSocketService
with_io f w = record { io = elim w.io [ none ↦ none | some sockets ↦ some (f sockets) ] }

unfoldable pub broadcast_new_log : (client_id : String) → Json → WebSocketService → WebSocketService
broadcast_new_log client_id data_text =
    let e : Emitted = record { event = "log:new"; payload = data_text } in
    with_io (λ sockets. map (deliver (client_room client_id) e) (map (deliver "logs" e) sockets))

-- `type` is `daily` or `top`.
unfoldable pub broadcast_usage_update :
    (kind : String) → (data_text both : Json) → WebSocketService → WebSocketService
broadcast_usage_update kind data_text both =
    let room = String.◌++◌ "usage:" kind in
    with_io (λ sockets.
      map (deliver "all-clients" (record { event = "usage:update"; payload = both })) (
        map (deliver room (record { event = String.◌++◌ room ":update"; payload = data_text }))
          sockets))

unfoldable pub send_to_client :
    (client_id event : String) → Json → WebSocketService → WebSocketService
send_to_client client_id event data_text =
    with_io (map (deliver (client_room client_id) (record { event = event; payload = data_text })))

unfoldable pub get_connected_clients_count : WebSocketService → ℕ
get_connected_clients_count w = elim w.io [ none ↦ 0 | some sockets ↦ length sockets ]

unfoldable pub close : WebSocketService → WebSocketService
close w = record { io = none }

-- The life of one socket: it connects, subscribes and unsubscribes as it likes, and receives what is
-- emitted to any room.
pub data Lives (id client_id : String) : Socket → Type 0 where
  connects : Lives id client_id (connection id client_id)
  subscribes :
      {s : Socket} (channel : String)
      → Lives id client_id s
      → Lives id client_id (subscribe channel s)
  unsubscribes :
      {s : Socket} (channel : String)
      → Lives id client_id s
      → Lives id client_id (unsubscribe channel s)
  is_sent :
      {s : Socket} (room : String) (e : Emitted)
      → Lives id client_id s
      → Lives id client_id (deliver room e s)
