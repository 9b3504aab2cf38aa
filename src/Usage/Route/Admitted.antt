-- ===== src/Usage/Route/Admitted.antt =====
-- Who gets the statistics of the usage routes in src/api/client/clientRouter.ts.
use activity_tracker_api.Base.{
  ℕ, ◌≡◌, refl, ap, sym, subst, String, true, false, none, some, List, ◌⊎◌, inl, inr, Bool-cases,
}
use activity_tracker_api.Http.{
  AuthClient, Request, Verdict, next, is_truthy, ServiceResponse, failure,
}
use activity_tracker_api.Auth.Tokens.{Jwt}
use activity_tracker_api.Auth.Clients.{Client, ClientTable, Compare}
use activity_tracker_api.Auth.Routes.{usage_guard, GuardedOwner, usage_guard-GuardedOwner}
use activity_tracker_api.RateLimiter.{or_default}
use activity_tracker_api.RateLimiter.Redis.{SortedSets, check_rate_limit, get_config}
use activity_tracker_api.RateLimiter.Middleware.{rate_limit_middleware}
use activity_tracker_api.Redis.{Ioredis}
use activity_tracker_api.Reports.{Queries}
use activity_tracker_api.Hits.Route.{Issue, validate_request}
use activity_tracker_api.Hits.Route.Limit.{Verdict-cases, passed_middleware, attached}
use activity_tracker_api.Hits.Route.Admitted.{Sum-cases}
use activity_tracker_api.Usage.{Env, Backend}
use activity_tracker_api.Usage.Route.{
  Backing, Served, refuse, serve_usage, serve_valid, serve_limited, serve_known, get_usage,
}

module _ (jwt : Jwt) (compare : Compare) (table : ClientTable) (sets : SortedSets) (io : Ioredis)
    (db : Queries) (env : Env) {Raw B A : Type 0} (schema : Raw → List Issue ⊎ B)
    (controller : B → Backend io db env → ServiceResponse (List A) × Backend io db env) where
  abbrev Back : Type 0
  Back = Backing jwt compare table sets io db env

  abbrev Answer : Type 0
  Answer = Served jwt compare table sets io db env A

  -- No rows are sent, and neither the cache nor the reports of the database were asked.
  pub record IsDenied (s : Back) (served : Answer) : Type 0 where
    pub rows : served.rows ≡ none
    pub reports : served.backing.reports ≡ s.reports

  -- The controller answered, with a query that the schema accepts.
  pub record IsAnswered (raw : Raw) (s : Back) (served : Answer) : Type 0 where
    pub query : B
    pub valid : schema raw ≡ inr query
    pub status : served.status ≡ (controller query s.reports).0.status_code
    pub rows : served.rows ≡ some (controller query s.reports).0.response_object
    pub reports : served.backing.reports ≡ (controller query s.reports).1

  -- The limiter lets the client pass, or has no name for it.
  abbrev pub IsWithinLimit : (now : ℕ) (random : String) → AuthClient → Back → Type 0
  IsWithinLimit now random client s =
      (is_truthy (some client.client_id) ≡ false)
      ⊎ ((check_rate_limit sets client.client_id
            (some (or_default client.rate_limit (get_config s.limiter.0).0)) now random
            s.limiter).0.allowed
          ≡ true)

  -- An answer with the owner of the key that was sent for it, and why the owner was let through.
  pub record Entitled (now : ℕ) (random : String) (req : Request) (raw : Raw) (s : Back)
      (served : Answer) : Type 0 where
    pub client : Client
    pub passed : Request
    pub owner : GuardedOwner jwt compare table req passed s.clients client
    pub within : IsWithinLimit now random (attached client (some owner.owner.key)) s
    pub answered : IsAnswered raw s served

  serve_valid-IsAnswered :
      (raw : Raw) (s : Back)
      → let served = serve_valid jwt compare table sets io db env schema controller raw s in
        IsDenied s served ⊎ IsAnswered raw s served
  unfolding validate_request failure
  serve_valid-IsAnswered raw s = elim (Sum-cases (schema raw)) [
    | inl (issues, bad) ↦
        let answered : serve_valid jwt compare table sets io db env schema controller raw s
            ≡ refuse jwt compare table sets io db env A 400 s =
          rw (bad, serve_valid, validate_request) refl in
        inl (subst (IsDenied s) (sym answered) (record { rows = refl; reports = refl }))
    | inr (query, good) ↦
        let answered : serve_valid jwt compare table sets io db env schema controller raw s
            ≡ serve_usage jwt compare table sets io db env schema controller query s =
          rw (good, serve_valid, validate_request) refl in
        inr (
          subst (IsAnswered raw s) (sym answered)
            (record { query = query; valid = good; status = refl; rows = refl; reports = refl }))
  ]

  middleware_allows :
      (now later : ℕ) (random : String) (req req' : Request) (client : AuthClient) (s : Back)
      → req.client ≡ some client
      → (rate_limit_middleware sets now later random req s.limiter).verdict ≡ next req'
      → IsWithinLimit now random client s
  middleware_allows now later random req req' client s known passed =
      elim (Bool-cases (is_truthy (some client.client_id))) [
        | inr nameless ↦ inl nameless
        | inl named ↦
            inr
              (passed_middleware sets now later random client req req' s.limiter known named
                passed).1
      ]

  serve_known-IsAnswered :
      (now later : ℕ) (random : String) (req : Request) (client : AuthClient) (raw : Raw) (s : Back)
      → req.client ≡ some client
      → let served =
          serve_known jwt compare table sets io db env schema controller now later random
            (next req)
            raw
            s in
        IsDenied s served ⊎ (IsWithinLimit now random client s × IsAnswered raw s served)
  serve_known-IsAnswered now later random req client raw s known =
      let limited = rate_limit_middleware sets now later random req s.limiter in
      let s' : Back = record s { limiter = limited.state } in
      elim (Verdict-cases limited.verdict) [
        | inr (status, message, stopped) ↦
            let answered : serve_limited jwt compare table sets io db env schema controller
                  limited.verdict raw s'
                ≡ refuse jwt compare table sets io db env A status s' =
              ap (λ v. serve_limited jwt compare table sets io db env schema controller v raw s')
                stopped in
            inl (subst (IsDenied s) (sym answered) (record { rows = refl; reports = refl }))
        | inl (req', passed) ↦
            let served : serve_limited jwt compare table sets io db env schema controller
                  limited.verdict raw s'
                ≡ serve_valid jwt compare table sets io db env schema controller raw s' =
              ap (λ v. serve_limited jwt compare table sets io db env schema controller v raw s')
                passed in
            elim (serve_valid-IsAnswered raw s') [
              | inl denied ↦ inl (
                  subst (IsDenied s) (sym served)
                    (record { rows = denied.rows; reports = denied.reports }))
              | inr answered ↦ inr (
                middleware_allows now later random req req' client s known passed,
                subst (IsAnswered raw s) (sym served) (record {
                  query = answered.query;
                  valid = answered.valid;
                  status = answered.status;
                  rows = answered.rows;
                  reports = answered.reports;
                }),
              )
            ]
      ]

  -- Whatever is sent to a usage route: either no rows are sent and neither the cache nor the reports
  -- were asked, or the request had the API key of an active client, whatever token it carries, whom
  -- the limiter allowed or who has no id, and a query that the schema accepts, and what is sent is
  -- the controller's answer.
  pub get_usage-Entitled :
      (now later : ℕ) (random : String) (req : Request) (raw : Raw) (s : Back)
      → let served =
          get_usage jwt compare table sets io db env schema controller now later random req raw s in
        IsDenied s served ⊎ Entitled now random req raw s served
  unfolding get_usage
  get_usage-Entitled now later random req raw s =
      let known = usage_guard jwt compare table req s.clients in
      let s' : Back = record s { clients = known.1 } in
      let after : Verdict → Answer = λ v.
        serve_known jwt compare table sets io db env schema controller now later random v raw s' in
      elim (Verdict-cases known.0) [
        | inr (status, message, stopped) ↦
            let answered : after known.0 ≡ refuse jwt compare table sets io db env A status s' =
              ap after stopped in
            inl (subst (IsDenied s) (sym answered) (record { rows = refl; reports = refl }))
        | inl (req', passed) ↦
            let (client, owner) =
              usage_guard-GuardedOwner jwt compare table req req' s.clients passed in
            let served : after known.0 ≡ after (next req') = ap after passed in
            elim (serve_known-IsAnswered now later random req'
              (attached client (some owner.owner.key)) raw s' (ap (λ r. r.client) owner.attached)) [
                | inl denied ↦ inl (
                    subst (IsDenied s) (sym served)
                      (record { rows = denied.rows; reports = denied.reports }))
                | inr (within, answered) ↦ inr (record {
                  client = client;
                  passed = req';
                  owner = owner;
                  within = within;
                  answered = subst (IsAnswered raw s) (sym served) (record {
                    query = answered.query;
                    valid = answered.valid;
                    status = answered.status;
                    rows = answered.rows;
                    reports = answered.reports;
                  });
                })
              ]
      ]
