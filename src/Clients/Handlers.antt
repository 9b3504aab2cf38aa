-- ===== src/Clients/Handlers.antt =====
-- The handlers of src/api/client/clientController.ts, but for the hits: what they read from the request,
-- and what they call.
use activity_tracker_api.Base.{ℕ, String, Option, none, some, List, if◌then◌else◌}
use activity_tracker_api.Base.Numbers.{whole}
use activity_tracker_api.Http.{AuthClient, ServiceResponse, is_truthy}
use activity_tracker_api.Auth.Tokens.{Jwt}
use activity_tracker_api.Crypto.{Ciphers}
use activity_tracker_api.Redis.{Ioredis, JsonCodec}
use activity_tracker_api.Reports.{DailyUsageResult, TopClientResult, Queries}
use activity_tracker_api.Usage.{Env, Backend, get_daily_usage, get_top_clients}
use activity_tracker_api.Tracker.{parsed_or}
use activity_tracker_api.Streams.{Stream, channel_of, start_stream}
use activity_tracker_api.Clients.{
  ClientStore, Hasher, Draws, RegisterClientResponse, ClientData, rate_limit_or_default, register,
  find_client, find_clients,
}

-- `rateLimit || 1000`, where it may be missing.
abbrev pub requested_limit : Option ℕ → ℕ
requested_limit none = 1000
requested_limit (some n) = rate_limit_or_default n

module _ (ciphers : Ciphers) (hasher : Hasher) (db : ClientStore) where
  open db use {World}

  unfoldable pub handle_register :
      Jwt
      → (env_key : Option String) → Draws ciphers hasher db
      → (name email : String) → (rate_limit : Option ℕ) → World
      → ServiceResponse (Option RegisterClientResponse) × World
  handle_register jwt env_key draws name email rate_limit w =
      register ciphers hasher db jwt env_key draws name email (requested_limit rate_limit) w

  unfoldable pub handle_get_client :
      (client_id : String) → World → ServiceResponse (Option ClientData) × World
  handle_get_client client_id w = find_client ciphers hasher db client_id w

  unfoldable pub handle_get_clients : World → ServiceResponse (Option (List ClientData)) × World
  handle_get_clients w = find_clients ciphers hasher db w

module _ (io : Ioredis) (db : Queries) (env : Env) (json_daily : JsonCodec (List DailyUsageResult))
    (json_top : JsonCodec (List TopClientResult)) where
  -- The query parameters are texts that may be missing.
  unfoldable pub handle_daily_usage :
      (days : Option String)
      → Backend io db env
      → ServiceResponse (List DailyUsageResult) × Backend io db env
  handle_daily_usage days s = get_daily_usage io db env json_daily (parsed_or (whole 7) days) s

  unfoldable pub handle_top_clients :
      (hours limit : Option String)
      → Backend io db env
      → ServiceResponse (List TopClientResult) × Backend io db env
  handle_top_clients hours limit s =
      get_top_clients io db env json_top (parsed_or (whole 24) hours) (parsed_or (whole 3) limit) s

  -- Without a client the answer is 401, and otherwise a stream is opened, with the first message's text.
  unfoldable pub handle_stream :
      Option AuthClient
      → (channel : Option String) → (json : String) → Backend io db env
      → Option (Stream io db env json_daily json_top)
  handle_stream none channel json s = none
  handle_stream (some client) channel json s =
      if is_truthy (some client.client_id)
      then some (start_stream io db env json_daily json_top (channel_of channel) json s)
      else none
