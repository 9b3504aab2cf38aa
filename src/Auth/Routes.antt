-- ===== src/Auth/Routes.antt =====
-- The routes `/usage/daily` and `/usage/top` of src/api/client/clientRouter.ts: `authenticate`, then
-- `authenticateAPIKey`, before the rate limit and the controller.
use activity_tracker_api.Base.{◌≡◌, ◌∙◌, sym, ap, refl, some, arith, Bool-cases, inl, inr}
use activity_tracker_api.Http.{Request, Verdict, next, respond, is_truthy}
use activity_tracker_api.Auth.Tokens.{Jwt}
use activity_tracker_api.Auth.Clients.{Client, ClientTable, Compare}
use activity_tracker_api.Auth.Middleware.{has_bearer, attach, authenticate, authenticate_api_key}
use activity_tracker_api.Auth.Sound.{
  KeyOwner, authenticate_api_key-KeyOwner, authenticate_jwt-TokenOwner,
}

module _ (jwt : Jwt) (compare : Compare) (table : ClientTable) where
  open table use {World}

  -- What the first middleware answered goes on to the second, or ends the request.
  abbrev pub and_then : (Request → World → Verdict × World) → Verdict × World → Verdict × World
  and_then middleware (next req, w) = middleware req w
  and_then middleware (respond status message, w) = (respond status message, w)

  unfoldable pub usage_guard : Request → World → Verdict × World
  usage_guard req w =
      and_then (authenticate_api_key jwt compare table) (authenticate jwt compare table req w)

  authenticate-x_api_key :
      (req req' : Request) (w : World)
      → (authenticate jwt compare table req w).0 ≡ next req'
      → req'.x_api_key ≡ req.x_api_key
  unfolding authenticate
  authenticate-x_api_key req req' w e = elim (Bool-cases (has_bearer req.authorization)) [
    | inl bearer ↦
        let (client, owner, same) =
          authenticate_jwt-TokenOwner jwt compare table req req' w (rw bearer at e) in
        ap (λ r. r.x_api_key) same
    | inr no_bearer ↦ elim (Bool-cases (is_truthy req.x_api_key)) [
      | inl key ↦
          let (client, owner, same) =
            authenticate_api_key-KeyOwner jwt compare table req req' w (rw (no_bearer, key) at e) in
          ap (λ r. r.x_api_key) same
      | inr no_key ↦ absurd (ground arith)
    ]
  ]

  guard-after :
      (req' : Request) (a : Verdict × World)
      → (and_then (authenticate_api_key jwt compare table) a).0 ≡ next req'
      → (req1 : Request) × (a.0 ≡ next req1)
        × (client : Client) × (o : KeyOwner jwt compare table req1 a.1 client) × (req'
            ≡ attach req1 client (some o.key))
  guard-after req' (respond status message, w) e = absurd (ground arith)
  guard-after req' (next req1, w) e =
      let (client, o, same) = authenticate_api_key-KeyOwner jwt compare table req1 req' w e in
      (req1, refl, client, o, same)

  -- Past both middlewares of a usage route, with the request that the first one let through.
  pub record GuardedOwner (req req' : Request) (w : World) (client : Client) : Type 0 where
    pub first : Request
    pub admitted : (authenticate jwt compare table req w).0 ≡ next first
    pub owner : KeyOwner jwt compare table first (authenticate jwt compare table req w).1 client
    pub header : req.x_api_key ≡ some owner.key
    pub attached : req' ≡ attach first client (some owner.key)

  -- A usage route is reached only with an API key in the request, whatever token it carries, and what
  -- is attached for the rate limit and the controller is the owner of that key.
  pub usage_guard-GuardedOwner :
      (req req' : Request) (w : World)
      → (usage_guard req w).0 ≡ next req'
      → (client : Client) × GuardedOwner req req' w client
  unfolding usage_guard
  usage_guard-GuardedOwner req req' w e =
      let (first, passed, client, o, same) =
        guard-after req' (authenticate jwt compare table req w) e in
      (
        client,
        record {
          first = first;
          admitted = passed;
          owner = o;
          header = sym (authenticate-x_api_key req first w passed) ∙ o.header;
          attached = same;
        },
      )
