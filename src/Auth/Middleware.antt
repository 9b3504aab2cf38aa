-- ===== src/Auth/Middleware.antt =====
-- src/middleware/auth.middleware.ts: authentication by a bearer token, by an API key, or by either.
use Prim.Native.String.{slice, len}
use text.Mathlib.Text.{starts_with}
use activity_tracker_api.Base.{
  String, Bool, false, not, Option, none, some, if◌then◌else◌, ok, thrown, ◌>>=◌,
}
use activity_tracker_api.Http.{Request, Verdict, next, respond, is_truthy}
use activity_tracker_api.Auth.Tokens.{Jwt, JwtVerifyResult, verify_jwt}
use activity_tracker_api.Auth.Clients.{Client, ClientTable, Compare, find_matching}

-- `authHeader.startsWith("Bearer ")`, of a header that may be missing, and `substring(7)`.
abbrev pub has_bearer : Option String → Bool
has_bearer none = false
has_bearer (some header) = starts_with header "Bearer "

abbrev pub bearer_token : String → String
bearer_token header = slice header 7 (len header)

abbrev pub header_or_empty : Option String → String
header_or_empty none = ""
header_or_empty (some s) = s

-- What is attached to the request.
abbrev pub attach : Request → Client → Option String → Request
attach req client api_key = record req {
  client = some (record {
    client_id = client.client_id;
    email = client.email;
    name = client.name;
    api_key = api_key;
    rate_limit = some client.rate_limit;
  });
}

module _ (jwt : Jwt) (compare : Compare) (table : ClientTable) where
  open table use {World, find_by_client_id, find_active, touch}

  -- What follows the query of `authenticateJWT`.
  abbrev pub admit_found : Request → Option Client → World → Verdict × World
  admit_found req none w = (respond 401 "Invalid client credentials.", w)
  admit_found req (some client) w =
      if client.is_active
      then (next (attach req client none), touch client.id w)
      else (respond 403 "Client account is inactive. Please contact support.", w)

  -- `authenticateJWT` behind the token's verification.
  abbrev pub admit_token : Request → JwtVerifyResult → World → Verdict × World
  admit_token req result w =
      if result.expired
      then (respond 401 "Token has expired. Please obtain a new token.", w)
      else (elim (find_by_client_id result.payload.client_id w) [
        | thrown e ↦ (respond 401 "Invalid or malformed token.", w)
        | ok found ↦ admit_found req found w
      ])

  unfoldable pub authenticate_jwt : Request → World → Verdict × World
  authenticate_jwt req w =
      if not (has_bearer req.authorization)
      then (respond 401 "Authentication required. Please provide a valid JWT token.", w)
      else (elim (verify_jwt jwt (bearer_token (header_or_empty req.authorization))) [
        | thrown e ↦ (respond 401 "Invalid or malformed token.", w)
        | ok result ↦ admit_token req result w
      ])

  -- What follows the loop of `authenticateAPIKey`.
  abbrev pub admit_match : Request → String → Option Client → World → Verdict × World
  admit_match req api_key none w = (respond 401 "Invalid API key.", w)
  admit_match req api_key (some client) w =
      (next (attach req client (some api_key)), touch client.id w)

  unfoldable pub authenticate_api_key : Request → World → Verdict × World
  authenticate_api_key req w =
      let api_key = header_or_empty req.x_api_key in
      if not (is_truthy req.x_api_key)
      then (respond 401 "API key required. Please provide X-API-Key header.", w)
      else (elim (find_active w >>= find_matching compare api_key) [
        | thrown e ↦ (respond 500 "Internal server error during authentication.", w)
        | ok matched ↦ admit_match req api_key matched w
      ])

  -- `authenticate`, and its alias `requireAuth`.
  unfoldable pub authenticate : Request → World → Verdict × World
  authenticate req w =
      if has_bearer req.authorization
      then authenticate_jwt req w
      else if is_truthy req.x_api_key
      then authenticate_api_key req w
      else (
        respond 401
            "Authentication required. Provide either JWT token (Authorization: Bearer) or API Key (X-API-Key).",
        w,
      )
