-- ===== src/Tests/Auth.antt =====
-- Runs of src/middleware/auth.middleware.ts, src/middleware/sse-auth.middleware.ts,
-- src/services/websocket.service.ts and src/utils/auth.utils.ts.
use activity_tracker_api.Base.{◌≡◌, refl, true, false, some, none, List, [], ◌∷◌}
use activity_tracker_api.Http.{Request, next}
use activity_tracker_api.Auth.Tokens.{verify_jwt}
use activity_tracker_api.Auth.Clients.{Client, find_matching}
use activity_tracker_api.Auth.Middleware.{attach, authenticate_jwt, authenticate_api_key}
use activity_tracker_api.Auth.Sound.{
  this_one, no_match, KeyOwner, TokenOwner, authenticate_api_key-KeyOwner,
  KeyOwner-authenticate_api_key, authenticate_jwt-TokenOwner,
}
use activity_tracker_api.Auth.Handshake.{authenticate_sse, authenticate_socket}
use activity_tracker_api.Auth.Agreement.{SameAnswer, sse-SameAnswer}
use activity_tracker_api.Tests.Stores.{plain_tokens, plain_compare, client_list, client}

abbrev clients : List Client
clients = client "CL-0" false ∷ client "CL-1" true ∷ client "CL-2" true ∷ []

-- A token of one client with the key of another.
abbrev mixed : Request
mixed = record {
  authorization = some "Bearer CL-1";
  x_api_key = some "CL-2";
  query_token = some "CL-1";
  query_api_key = none;
  client = none;
}

abbrev second : Client
second = client "CL-2" true

by_key :
    (authenticate_api_key plain_tokens plain_compare client_list mixed clients).0
    ≡ next (attach mixed second (some "CL-2"))
unfolding authenticate_api_key find_matching
by_key = refl

authenticate_api_key-KeyOwner_example :
    (c : Client) × (o : KeyOwner plain_tokens plain_compare client_list mixed clients c) × (attach
        mixed second
        (some "CL-2")
      ≡ attach mixed c (some o.key))
authenticate_api_key-KeyOwner_example =
    authenticate_api_key-KeyOwner plain_tokens plain_compare client_list mixed
      (attach mixed second (some "CL-2")) clients by_key

abbrev second_owner : KeyOwner plain_tokens plain_compare client_list mixed clients second
second_owner = record {
  key = "CL-2";
  clients = client "CL-1" true ∷ second ∷ [];
  header = refl;
  queried = refl;
  first = no_match "CL-1" refl refl (this_one "CL-2" refl refl);
  active = refl;
}

KeyOwner-authenticate_api_key_example :
    (authenticate_api_key plain_tokens plain_compare client_list mixed clients).0
    ≡ next (attach mixed second (some "CL-2"))
KeyOwner-authenticate_api_key_example =
    KeyOwner-authenticate_api_key plain_tokens plain_compare client_list mixed clients second
      second_owner refl

by_token :
    (authenticate_jwt plain_tokens plain_compare client_list mixed clients).0
    ≡ next (attach mixed (client "CL-1" true) none)
unfolding authenticate_jwt verify_jwt
by_token = refl

authenticate_jwt-TokenOwner_example :
    (c : Client) × TokenOwner plain_tokens plain_compare client_list mixed clients c
    × (attach mixed (client "CL-1" true) none ≡ attach mixed c none)
authenticate_jwt-TokenOwner_example =
    authenticate_jwt-TokenOwner plain_tokens plain_compare client_list mixed
      (attach mixed (client "CL-1" true) none) clients by_token

sse-SameAnswer_example :
    SameAnswer
      (authenticate_sse plain_tokens plain_compare client_list mixed clients)
      (authenticate_socket plain_tokens plain_compare client_list (some "CL-1") none clients)
sse-SameAnswer_example = sse-SameAnswer plain_tokens plain_compare client_list mixed clients
