-- ===== src/Hits/Route/Admitted.antt =====
-- What `POST /api/logs` of src/api/client/clientRouter.ts records.
use activity_tracker_api.Base.{
  ℕ, ◌+◌, ◌≡◌, ◌∙◌, refl, ap, sym, subst, String, Bool, true, not, ◌||◌, none, some, List, [], ◌∷◌,
  ◌⊎◌, inl, inr, Bool-cases,
}
use activity_tracker_api.Http.{AuthClient, Request, next, is_truthy, success, failure}
use activity_tracker_api.Logs.{ApiLogData}
use activity_tracker_api.Auth.Tokens.{Jwt}
use activity_tracker_api.Auth.Clients.{Client, ClientTable, Compare}
use activity_tracker_api.Auth.Middleware.{authenticate_api_key}
use activity_tracker_api.Auth.Sound.{KeyOwner, authenticate_api_key-KeyOwner}
use activity_tracker_api.Redis.{RedisService}
use activity_tracker_api.RateLimiter.{or_default}
use activity_tracker_api.RateLimiter.Redis.{SortedSets, check_rate_limit, get_config}
use activity_tracker_api.RateLimiter.Middleware.{rate_limit_middleware}
use activity_tracker_api.Pipeline.{Database, State}
use activity_tracker_api.Pipeline.Conservation.{tally, weight}
use activity_tracker_api.Hits.{
  HitBody, log_of, event_of, data_of_body, client_id_of, unauthorized, handle_hit,
}
use activity_tracker_api.Hits.Accounted.{IsPublished, handle_hit-accounted}
use activity_tracker_api.Hits.Route.{
  Issue, validate_request, Backing, Served, refuse, serve_hit, serve_valid, serve_limited,
  serve_known, post_logs,
}
use activity_tracker_api.Hits.Route.Limit.{
  Verdict-cases, middleware_same, passed_middleware, attached,
}

pub Sum-cases : {A B : Type 0} (x : A ⊎ B) → ((a : A) × (x ≡ inl a)) ⊎ ((b : B) × (x ≡ inr b))
Sum-cases (inl a) = inl (a, refl)
Sum-cases (inr b) = inr (b, refl)

module _ (p : ApiLogData → Bool) (jwt : Jwt) (compare : Compare) (table : ClientTable)
    (sets : SortedSets) (d : Database) {Raw : Type 0} (schema : Raw → List Issue ⊎ HitBody) where
  abbrev Back : Type 0
  Back = Backing jwt compare table sets d schema

  -- Nothing was recorded, and nothing was handed to Redis.
  pub record IsRefused (s : Back) (served : Served jwt compare table sets d schema) : Type 0 where
    pub published : served.published ≡ none
    pub logs : served.backing.logs ≡ s.logs

  -- The hit is answered 201; one entry for it is queued, in memory, in the table or given up, and its
  -- event is handed to Redis if Redis is connected.
  pub record IsRecorded (client_id key : String) (body : HitBody) (s : Back)
      (served : Served jwt compare table sets d schema) : Type 0 where
    pub status : served.status ≡ 201
    pub published :
        IsPublished s.redis (event_of client_id (data_of_body d key body)) served.published
    pub accounted :
        weight p d served.backing.logs
        ≡ weight p d s.logs + tally p (log_of client_id (data_of_body d key body) ∷ [])

  unauthorized_hit :
      (redis : RedisService) (req : Request) (body : HitBody) (logs : State (Database.World d))
      → (not (is_truthy (client_id_of d req.client)) || not (is_truthy req.x_api_key)) ≡ true
      → handle_hit d redis req body logs ≡ (unauthorized d, logs, none)
  unfolding handle_hit
  unauthorized_hit redis req body logs h = rw (h, handle_hit) refl

  denied_hit :
      (req : Request) (body : HitBody) (s : Back)
      → (not (is_truthy (client_id_of d req.client)) || not (is_truthy req.x_api_key)) ≡ true
      → IsRefused s (serve_hit jwt compare table sets d schema req body s)
  denied_hit req body s h =
      let answered = unauthorized_hit s.redis req body s.logs h in
      record { published = ap (λ x. x.2) answered; logs = ap (λ x. x.1) answered }

  hit_is_served :
      (req : Request) (client : AuthClient) (key : String) (body : HitBody) (s : Back)
      → req.client ≡ some client
      → req.x_api_key ≡ some key
      → IsRefused s (serve_hit jwt compare table sets d schema req body s)
        ⊎ ((is_truthy (some client.client_id) ≡ true)
            × IsRecorded client.client_id key body s
                (serve_hit jwt compare table sets d schema req body s))
  unfolding handle_hit success
  hit_is_served req client key body s known keyed =
      elim (Bool-cases (is_truthy (some client.client_id))) [
        | inr nameless ↦ inl (denied_hit req body s (rw (known, nameless) refl))
        | inl named ↦ elim (Bool-cases (is_truthy (some key))) [
          | inr empty ↦ inl (denied_hit req body s (rw (known, named, keyed, empty) refl))
          | inl present ↦
              let (answer, accounted, event) =
                handle_hit-accounted p d s.redis req client key body s.logs known keyed named
                  present in
              inr (
                named,
                record {
                  status = ap (λ r. r.status_code) answer;
                  published = event;
                  accounted = accounted;
                },
              )
        ]
      ]

  -- A hit that was recorded, with who sent it and why it was let through.
  pub record Admission (now : ℕ) (random : String) (req : Request) (raw : Raw) (s : Back)
      (served : Served jwt compare table sets d schema) : Type 0 where
    pub client : Client
    pub owner : KeyOwner jwt compare table req s.clients client
    pub allowed :
        (check_rate_limit sets client.client_id
          (some (or_default (some client.rate_limit) (get_config s.limiter.0).0))
          now
          random
          s.limiter).0.allowed
        ≡ true
    pub body : HitBody
    pub valid : schema raw ≡ inr body
    pub recorded : IsRecorded client.client_id owner.key body s served

  valid_is_served :
      (req : Request) (client : AuthClient) (key : String) (raw : Raw) (s : Back)
      → req.client ≡ some client
      → req.x_api_key ≡ some key
      → IsRefused s (serve_valid jwt compare table sets d schema req raw s)
        ⊎ ((is_truthy (some client.client_id) ≡ true)
            × (body : HitBody) × (schema raw ≡ inr body)
            × IsRecorded client.client_id key body s
                (serve_valid jwt compare table sets d schema req raw s))
  unfolding validate_request failure
  valid_is_served req client key raw s known keyed = elim (Sum-cases (schema raw)) [
    | inl (issues, bad) ↦
        let answered : serve_valid jwt compare table sets d schema req raw s
            ≡ refuse jwt compare table sets d schema 400 s =
          rw (bad, serve_valid, validate_request) refl in
        inl (subst (IsRefused s) (sym answered) (record { published = refl; logs = refl }))
    | inr (body, good) ↦
        let served : serve_valid jwt compare table sets d schema req raw s
            ≡ serve_hit jwt compare table sets d schema req body s =
          rw (good, serve_valid, validate_request) refl in
        elim (hit_is_served req client key body s known keyed) [
          | inl refused ↦ inl (subst (IsRefused s) (sym served) refused)
          | inr (named, recorded) ↦ inr (
            named,
            body,
            good,
            subst (IsRecorded client.client_id key body s) (sym served) recorded,
          )
        ]
  ]

  known_is_served :
      (now later : ℕ) (random : String) (req : Request) (client : AuthClient) (key : String)
      (raw : Raw) (s : Back)
      → req.client ≡ some client
      → req.x_api_key ≡ some key
      → let served =
          serve_known jwt compare table sets d schema now later random (next req) raw s in
        IsRefused s served
        ⊎ (((check_rate_limit sets client.client_id
                (some (or_default client.rate_limit (get_config s.limiter.0).0))
                now
                random
                s.limiter).0.allowed
              ≡ true)
            × (body : HitBody) × (schema raw ≡ inr body)
            × IsRecorded client.client_id key body s served)
  known_is_served now later random req client key raw s known keyed =
      let limited = rate_limit_middleware sets now later random req s.limiter in
      let s' : Back = record s { limiter = limited.state } in
      elim (Verdict-cases limited.verdict) [
        | inr (status, message, stopped) ↦
            let answered : serve_limited jwt compare table sets d schema limited.verdict raw s'
                ≡ refuse jwt compare table sets d schema status s' =
              ap (λ v. serve_limited jwt compare table sets d schema v raw s') stopped in
            inl (subst (IsRefused s) (sym answered) (record { published = refl; logs = refl }))
        | inl (req', passed) ↦
            let same =
              middleware_same sets now later random client req req' s.limiter known passed in
            let served : serve_limited jwt compare table sets d schema limited.verdict raw s'
                ≡ serve_valid jwt compare table sets d schema req raw s' =
              ap (λ v. serve_limited jwt compare table sets d schema v raw s')
                (passed ∙ ap next (sym same)) in
            elim (valid_is_served req client key raw s' known keyed) [
              | inl refused ↦ inl (
                  subst (IsRefused s) (sym served)
                    (record { published = refused.published; logs = refused.logs }))
              | inr (named, body, good, recorded) ↦
                  let (_, allowed) =
                    passed_middleware sets now later random client req req' s.limiter known named
                      passed in
                  inr (
                    allowed,
                    body,
                    good,
                    subst (IsRecorded client.client_id key body s) (sym served) (record {
                      status = recorded.status;
                      published = recorded.published;
                      accounted = recorded.accounted;
                    }),
                  )
            ]
      ]

  -- Whatever is sent to the route of the hits: either nothing is recorded and nothing is handed to Redis
  -- for publishing, or the request had the API key of an active client that the limiter allowed and a
  -- body that the schema accepts, is answered 201, one entry for it is accounted for beside all that
  -- was there, and its event is handed to Redis if Redis is connected, and lost if it is not.
  pub post_logs-Admission :
      (now later : ℕ) (random : String) (req : Request) (raw : Raw) (s : Back)
      → let served = post_logs jwt compare table sets d schema now later random req raw s in
        IsRefused s served ⊎ Admission now random req raw s served
  unfolding post_logs
  post_logs-Admission now later random req raw s =
      let known = authenticate_api_key jwt compare table req s.clients in
      let s' : Back = record s { clients = known.1 } in
      elim (Verdict-cases known.0) [
        | inr (status, message, stopped) ↦
            let answered : serve_known jwt compare table sets d schema now later random known.0 raw
                  s'
                ≡ refuse jwt compare table sets d schema status s' =
              ap (λ v. serve_known jwt compare table sets d schema now later random v raw s')
                stopped in
            inl (subst (IsRefused s) (sym answered) (record { published = refl; logs = refl }))
        | inl (req', passed) ↦
            let (client, owner, same) =
              authenticate_api_key-KeyOwner jwt compare table req req' s.clients passed in
            let served : serve_known jwt compare table sets d schema now later random known.0 raw s'
                ≡ serve_known jwt compare table sets d schema now later random (next req') raw s' =
              ap (λ v. serve_known jwt compare table sets d schema now later random v raw s')
                passed in
            elim (known_is_served now later random req' (attached client (some owner.key)) owner.key
              raw s' (ap (λ r. r.client) same) (ap (λ r. r.x_api_key) same ∙ owner.header)) [
                | inl refused ↦ inl (
                    subst (IsRefused s) (sym served)
                      (record { published = refused.published; logs = refused.logs }))
                | inr (allowed, body, good, recorded) ↦ inr (record {
                  client = client;
                  owner = owner;
                  allowed = allowed;
                  body = body;
                  valid = good;
                  recorded =
                      subst (IsRecorded client.client_id owner.key body s) (sym served) (record {
                        status = recorded.status;
                        published = recorded.published;
                        accounted = recorded.accounted;
                      });
                })
              ]
      ]
