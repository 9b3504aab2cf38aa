-- ===== src/Tests/Deactivated.antt =====
-- Runs of the deactivation in src/repositories/client.repository.ts.
use mathlib.Core.List.{Memᴰ}
use activity_tracker_api.Base.{
  ◌≡◌, ◌≢◌, refl, sym, subst, ap, String, Bool, true, false, none, some, List, [], ◌∷◌, map,
  if◌then◌else◌, ok, ok_injective, All, str_eq, Bool-cases, inl, inr,
}
use activity_tracker_api.Http.{AuthClient, Request, next, respond}
use activity_tracker_api.Auth.Clients.{Client}
use activity_tracker_api.Auth.Tokens.{verify_jwt}
use activity_tracker_api.Auth.Middleware.{attach, authenticate, authenticate_jwt}
use activity_tracker_api.Clients.Updates.{ClientRows, first_where, has_id, find_by_id, deactivate}
use activity_tracker_api.Clients.Deactivated.{deactivate-authenticate}
use activity_tracker_api.Tests.Stores.{
  plain_tokens, plain_compare, client_list, client, find_client, active, keep_if,
}

abbrev where_id : (Client → Bool) → List Client → List Client
where_id p [] = []
where_id p (x ∷ xs) = if p x then x ∷ where_id p xs else where_id p xs

-- A table whose calls always return.
abbrev row_list : ClientRows
row_list = record {
  World = List Client;
  rows = λ w. w;
  find_one = λ p w. (ok (first_where p w), w);
  find_ordered = λ p w. (ok (where_id p w), w);
  update = λ id change w. (ok tt, map (λ x. if has_id id x then change x else x) w);
  delete = λ id w. (ok none, w);
  count_where = λ p w. (ok 0, w);
  sleep = λ n w. w;
  find_one_ok = λ p w found h. sym (ok_injective h);
  find_one_rows = λ p w. refl;
  update_ok = λ id change w h. refl;
}

find_client-Memᴰ : (c : String) (w : List Client) (x : Client) → find_client c w ≡ some x → Memᴰ x w
find_client-Memᴰ c [] x h = absurd (cc)
find_client-Memᴰ c (y ∷ w) x h = elim (Bool-cases (str_eq y.client_id c)) [
  | inl same ↦ let found : some y ≡ some x = rw same at h in Memᴰ.head (cc)
  | inr other ↦ Memᴰ.tail (find_client-Memᴰ c w x (rw other at h))
]

-- Rows of a list that more rows stand before.
All-tail : (y : Client) (w xs : List Client) → All (λ x. Memᴰ x w) xs → All (λ x. Memᴰ x (y ∷ w)) xs
All-tail y w [] h = tt
All-tail y w (x ∷ xs) h = (Memᴰ.tail h.0, All-tail y w xs h.1)

keep_if-Memᴰ :
    (b : Bool) (y : Client) (w xs : List Client)
    → All (λ x. Memᴰ x (y ∷ w)) xs
    → All (λ x. Memᴰ x (y ∷ w)) (keep_if b y xs)
keep_if-Memᴰ true y w xs h = (Memᴰ.head refl, h)
keep_if-Memᴰ false y w xs h = h

active-Memᴰ : (w : List Client) → All (λ x. Memᴰ x w) (active w)
active-Memᴰ [] = tt
active-Memᴰ (y ∷ w) =
    keep_if-Memᴰ y.is_active y w (active w) (All-tail y w (active w) (active-Memᴰ w))

abbrev two : List Client
two = client "CL-1" true ∷ client "CL-2" true ∷ []

abbrev one_left : List Client
one_left = client "CL-1" false ∷ client "CL-2" true ∷ []

deactivated_run : deactivate row_list "CL-1" two ≡ (ok (some (client "CL-1" false)), one_left)
unfolding deactivate find_by_id
deactivated_run = refl

abbrev with_token : String → Request
with_token header = record {
  authorization = some header;
  x_api_key = none;
  query_token = none;
  query_api_key = none;
  client = none;
}

-- The other client is let in after it, and the deactivated one is not.
second_passes :
    (authenticate plain_tokens plain_compare client_list (with_token "Bearer CL-2") one_left).0
    ≡ next (attach (with_token "Bearer CL-2") (client "CL-2" true) none)
unfolding authenticate authenticate_jwt verify_jwt
second_passes = refl

first_is_refused :
    (authenticate plain_tokens plain_compare client_list (with_token "Bearer CL-1") one_left).0
    ≡ respond 403 "Client account is inactive. Please contact support."
unfolding authenticate authenticate_jwt verify_jwt
first_is_refused = refl

abbrev second_client : AuthClient
second_client = record {
  client_id = "CL-2";
  email = "a@example.com";
  name = "A";
  api_key = none;
  rate_limit = some 1000;
}

looked_up_lem :
    (c : String) (x : Client)
    → ok (find_client c one_left) ≡ ok (some x)
    → Memᴰ x (deactivate row_list "CL-1" two).1
looked_up_lem c x h =
    subst (Memᴰ x) (ap (λ p. p.1) (sym deactivated_run)) (find_client-Memᴰ c one_left x (cc))

listed_lem :
    (xs : List Client)
    → ok (active one_left) ≡ ok xs
    → All (λ x. Memᴰ x (deactivate row_list "CL-1" two).1) xs
listed_lem xs h =
    subst (λ w. All (λ x. Memᴰ x w) xs) (ap (λ p. p.1) (sym deactivated_run))
      (subst (All (λ x. Memᴰ x one_left)) (ok_injective h) (active-Memᴰ one_left))

deactivate-authenticate_example : second_client.client_id ≢ "CL-1"
deactivate-authenticate_example =
    deactivate-authenticate row_list plain_tokens plain_compare client_list "CL-1" "CL-1" two
      (some (client "CL-1" false)) one_left (with_token "Bearer CL-2")
      (attach (with_token "Bearer CL-2") (client "CL-2" true) none) second_client
      (ap (λ p. p.0) deactivated_run) ((λ e. e), ((λ e. e), tt)) looked_up_lem listed_lem
      second_passes refl
