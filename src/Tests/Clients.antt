-- ===== src/Tests/Clients.antt =====
-- Runs of the registration in src/api/client/clientService.ts.
use activity_tracker_api.Base.{
  ℕ, ◌≡◌, refl, ap, String, true, false, Option, none, some, List, [], ◌∷◌, if◌then◌else◌, Error,
  ok, thrown, str_eq, eq_refl,
}
use activity_tracker_api.Base.{inr}
use activity_tracker_api.Http.{success, failure, Request, next}
use activity_tracker_api.Auth.Middleware.{attach, authenticate_api_key}
use activity_tracker_api.Clients.Admitted.{register-authenticate_api_key}
use activity_tracker_api.Retry.{with_database_retry, with_retry, retry_from}
use activity_tracker_api.Auth.Tokens.{generate_jwt}
use activity_tracker_api.Auth.Clients.{Client}
use activity_tracker_api.Crypto.{encrypt, get_encryption_key}
use activity_tracker_api.Clients.{
  NewClient, saved_client, ClientStore, Hasher, RegisterClientResponse, Draws, create,
  find_by_email, register,
}
use activity_tracker_api.Clients.Registration.{Registered, register-Registered}
use activity_tracker_api.Clients.Refusal.{register_refused}
use activity_tracker_api.Tests.Stores.{plain_tokens, plain_compare, client_list, client}
use activity_tracker_api.Tests.Ciphers.{bit_cipher, setting}

abbrev by_email : String → List Client → Option Client
by_email email [] = none
by_email email (x ∷ xs) = if str_eq x.email email then some x else by_email email xs

-- The id and the time that every save gives.
abbrev given : String × ℕ
given = ("id-1", 5)

save_ok_lem :
    (new : NewClient) (w : List Client) (id : String) (created_at : ℕ)
    → ok given ≡ ok (id, created_at)
    → saved_client new "id-1" 5 ∷ w ≡ saved_client new id created_at ∷ w
save_ok_lem new w id created_at h =
    let same : ◌≡◌ {A = String × ℕ} given (id, created_at) = cc in
    ap (λ p. saved_client new p.0 p.1 ∷ w) same

save_thrown_lem :
    (new : NewClient) (w : List Client) (e : Error)
    → ok given ≡ thrown e
    → saved_client new "id-1" 5 ∷ w ≡ w
save_thrown_lem new w e h = absurd (cc)

abbrev client_rows : ClientStore
client_rows = record {
  World = List Client;
  stored = λ w. w;
  find_by_email = λ email w. (ok (by_email email w), w);
  find_by_client_id = λ client_id w. (ok none, w);
  find_active = λ w. (ok w, w);
  save = λ new w. (ok given, saved_client new "id-1" 5 ∷ w);
  sleep = λ ms w. w;
  save_ok = save_ok_lem;
  save_thrown = save_thrown_lem;
  find_by_email_stored = λ email w. refl;
  sleep_stored = λ ms w. refl;
}

compare-hash_lem : (key hashed : String) → ok key ≡ ok hashed → ok (str_eq key hashed) ≡ ok true
compare-hash_lem key hashed h = let same : key ≡ hashed = cc in rw same (ap ok (eq_refl hashed))

abbrev plain_hasher : Hasher
plain_hasher = record {
  hash = λ key. ok key;
  compare = λ key hashed. ok (str_eq key hashed);
  compare-hash = compare-hash_lem;
}

abbrev draws : Draws bit_cipher plain_hasher client_rows
draws = record { client_id = "CL-9"; api_key = "secret"; iv = true }

abbrev response : RegisterClientResponse
response = record {
  client_id = "CL-9";
  name = "B";
  email = "b@example.com";
  api_key = "secret";
  token = "CL-9";
  rate_limit = 1000;
  created_at = 5;
}

abbrev rows : List Client
rows = client "CL-1" true ∷ []

registers :
    (register bit_cipher plain_hasher client_rows plain_tokens setting draws "B" "b@example.com" 0
      rows).0
    ≡ success "Client registered successfully" (some response) 200
unfolding register find_by_email with_database_retry with_retry retry_from create encrypt
    get_encryption_key generate_jwt
registers = refl

register-Registered_example :
    Registered bit_cipher plain_hasher client_rows plain_tokens setting draws "B" "b@example.com" 0
      rows
      (register bit_cipher plain_hasher client_rows plain_tokens setting draws "B" "b@example.com" 0
        rows).1
      response
register-Registered_example =
    register-Registered bit_cipher plain_hasher client_rows plain_tokens setting draws "B"
      "b@example.com" 0 rows response registers

email_is_taken :
    (register bit_cipher plain_hasher client_rows plain_tokens setting draws "B" "a@example.com" 0
      rows).0.success
    ≡ false
unfolding register find_by_email with_database_retry with_retry retry_from failure
email_is_taken = refl

register_refused_example :
    (register bit_cipher plain_hasher client_rows plain_tokens setting draws "B" "a@example.com" 0
      rows).1
    ≡ rows
register_refused_example =
    register_refused bit_cipher plain_hasher client_rows plain_tokens (λ p. (p.client_id, refl))
      setting draws "B" "a@example.com" 0 rows email_is_taken

-- The client that was put into the table, listed behind another one.
abbrev new_row : Client
new_row = record {
  id = "id-1";
  client_id = "CL-9";
  name = "B";
  email = "b@example.com";
  api_key = "01:00:secret";
  api_key_hash = some "secret";
  is_active = true;
  rate_limit = 1000;
  metadata = some "{}";
  created_at = 5;
  updated_at = 5;
  last_access_at = none;
}

abbrev key_request : Request
key_request = record {
  authorization = none;
  x_api_key = some "secret";
  query_token = none;
  query_api_key = none;
  client = none;
}

is_stored :
    (register bit_cipher plain_hasher client_rows plain_tokens setting draws "B" "b@example.com" 0
      rows).1
    ≡ new_row ∷ rows
unfolding register find_by_email with_database_retry with_retry retry_from create encrypt
    get_encryption_key generate_jwt
is_stored = refl

register-authenticate_api_key_example :
    ((authenticate_api_key plain_tokens plain_compare client_list key_request
        (client "CL-1" true ∷ new_row ∷ [])).0
      ≡ next (attach key_request new_row (some "secret")))
    × (response.client_id ≡ new_row.client_id)
register-authenticate_api_key_example =
    register-authenticate_api_key bit_cipher plain_hasher client_rows plain_tokens setting draws "B"
      "b@example.com" 0 rows response client_list (client "CL-1" true ∷ new_row ∷ [])
      (client "CL-1" true ∷ []) [] new_row key_request registers is_stored refl
      (inr ("CL-1", refl, refl), tt) refl refl
