-- ===== src/Tests/Sockets.antt =====
-- Runs of the rooms in src/services/websocket.service.ts.
use text.Mathlib.TextEquality.{eq_iff}
use activity_tracker_api.Base.{◌≡◌, refl, some, [], ◌∷◌, arith}
use activity_tracker_api.Sockets.{
  Emitted, Socket, connection, subscribe, deliver, client_room, broadcast_new_log, connects,
  subscribes,
}
use activity_tracker_api.Sockets.Private.{deliver-client_room}

-- A socket of one client that asks for the room of another, and for the logs.
abbrev curious : Socket
curious = subscribe "logs" (subscribe "client:CL-2" (connection "s1" "CL-1"))

abbrev log_event : Emitted
log_event = record { event = "log:new"; payload = "{}" }

curious-rooms : curious.rooms ≡ "client:CL-1" ∷ "all-clients" ∷ "logs" ∷ []
unfolding subscribe connection
curious-rooms = refl

-- A log of its own client reaches it twice: in the channel, and in the client's room.
own_log_twice :
    broadcast_new_log "CL-1" "{}" (record { io = some ((record curious { received = [] }) ∷ []) })
    ≡ record { io = some ((record curious { received = log_event ∷ log_event ∷ [] }) ∷ []) }
unfolding broadcast_new_log deliver subscribe connection
own_log_twice = refl

deliver-client_room_example : deliver (client_room "CL-2") log_event curious ≡ curious
deliver-client_room_example =
    deliver-client_room "CL-2" log_event (subscribes "logs" (subscribes "client:CL-2" connects))
      (λ e. ground (arith, eq_iff "CL-2" "CL-1"))
