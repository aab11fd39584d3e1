-- ===== src/Pipeline/Stages/Guard.antt =====
-- src/Middleware.cpp: no handler runs for a request that is not allowed its route.
use cgi_web_server.Base.{
  ℕ, ◌≡◌, refl, sym, ap, subst, ◌∙◌, ◌⊎◌, inl, inr, arith, Bool, true, false, Bool-cases, Option,
  none, some, Option-cases, List, [], ◌∷◌, ◌++◌, drop, All,
}
use cgi_web_server.Http.Status.{is_success_code}
use cgi_web_server.Http.Response.{returns, throws, Result-cases}
use cgi_web_server.Pipeline.Auth.Allowed.{IsAllowed, validate-IsAllowed}
use cgi_web_server.Pipeline.Auth.{validate, issue_token, after_next, authenticate}
use cgi_web_server.Pipeline.Limiting.{process_limiter, rate_limit}
use cgi_web_server.Pipeline.Stages.Tails.{Tail, process_limiter-Tail, rate_limit-Tail, parse-Tail}
use cgi_web_server.Pipeline.Stages.{
  Middleware, error_handler, logger, parser, authenticator, rate_limiter, limiter, finish, rescue,
  parse, log, log_session, load_pipeline, process, run_pipeline,
}
use cgi_web_server.Pipeline.{
  set_txn, nat_keys, State, Run, finished, crashed, Action, Jwt, Config, World, set_response,
}
use cgi_web_server.Router.{EndpointMethod, Handler, get_auth_role}

after_next-request :
    (j : Jwt) (c : Config) (s s1 : State)
    → after_next j c (finished (returns tt) s) ≡ finished (returns tt) s1
    → s1.txn.request ≡ s.txn.request
unfolding after_next issue_token set_response
after_next-request j c s s1 h = elim (Option-cases s.txn.request.route) [
  | inl missing ↦ absurd (ground (arith, h, missing))
  | inr (route, at) ↦ elim (Bool-cases route.is_authenticator) [
    | inr plain ↦ ground (arith, h, at, plain)
    | inl issues ↦ elim (Bool-cases (is_success_code s.txn.response.status)) [
      | inr failing ↦ absurd (ground (arith, h, at, issues, failing))
      | inl success ↦ elim (Option-cases s.txn.request.endpoint) [
        | inl missing ↦ absurd (ground (arith, h, at, issues, success, missing))
        | inr (endpoint, at_endpoint) ↦
            elim (Result-cases (get_auth_role endpoint s.txn.request.method)) [
              | inl (role, found) ↦ ground (arith, h, at, issues, success, at_endpoint, found)
              | inr (x, refused) ↦
                  absurd (ground (arith, h, at, issues, success, at_endpoint, refused))
            ]
      ]
    ]
  ]
]

-- The state in which the authenticator, as the last middleware, returns.
authenticate-IsAllowed :
    (j : Jwt) (c : Config) (s s1 : State)
    → authenticate j c (λ s'. finished (returns tt) s') s ≡ finished (returns tt) s1
    → (route : EndpointMethod) × (s1.txn.request.route ≡ some route)
      × IsAllowed j c s1.txn.request route
unfolding authenticate
authenticate-IsAllowed j c s s1 h = elim (Option-cases s.txn.request.route) [
  | inl missing ↦ absurd (ground (arith, h, missing))
  | inr (route, at) ↦ elim (Result-cases (validate j c s.txn.request route)) [
    | inr (x, refused) ↦ absurd (ground (arith, h, at, refused))
    | inl (u, valid) ↦
        let after : after_next j c (finished (returns tt) s) ≡ finished (returns tt) s1 =
          rw (at, authenticate, valid) at h in
        let same = after_next-request j c s s1 after in
        let allowed : IsAllowed j c s.txn.request route =
          elim (validate-IsAllowed j c s.txn.request route) [
            | inl (_, a) ↦ a
            | inr (refused, _) ↦ absurd (ground (arith, valid, refused))
          ] in
        (route, ground (arith, at, same), subst (λ q. IsAllowed j c q route) (sym same) allowed)
  ]
]

-- The middlewares that end by calling `next`.
data IsPassing : Middleware → Type 0 where
  parses : IsPassing parser
  limits : IsPassing rate_limiter
  limits_all : (id : ℕ) → IsPassing (limiter id)

module _ (j : Jwt) (c : Config) (w : World) where
  passing-Tail :
      (f : Handler → Action) (m : Middleware) (next : Action) (s s1 : State)
      → IsPassing m
      → process j c w f m next s ≡ finished (returns tt) s1
      → Tail next s1
  unfolding process
  passing-Tail f parser next s s1 parses h = parse-Tail w next s s1 h
  passing-Tail f rate_limiter next s s1 limits h = rate_limit-Tail w next s s1 h
  passing-Tail f (limiter id) next s s1 (limits_all _) h = process_limiter-Tail w id next s s1 h
  passing-Tail f error_handler next s s1 x h = elim x [ ]
  passing-Tail f logger next s s1 x h = elim x [ ]
  passing-Tail f authenticator next s s1 x h = elim x [ ]

  -- Where middlewares that pass on, and then the authenticator, return, the request is allowed.
  passing-IsAllowed :
      (f : Handler → Action) (ms : List Middleware) (s s1 : State)
      → All IsPassing ms
      → run_pipeline j c w f (ms ++ authenticator ∷ []) s ≡ finished (returns tt) s1
      → (route : EndpointMethod) × (s1.txn.request.route ≡ some route)
        × IsAllowed j c s1.txn.request route
  unfolding run_pipeline process
  passing-IsAllowed f [] s s1 all h = authenticate-IsAllowed j c s s1 h
  passing-IsAllowed f (m ∷ rest) s s1 (p, all) h =
      let (s0, h0) =
        passing-Tail f m (run_pipeline j c w f (rest ++ authenticator ∷ [])) s s1 p h in
      passing-IsAllowed f rest s0 s1 all h0

finish-cases :
    (f g : Handler → Action) (r : Run)
    → ((s1 : State) × (r ≡ finished (returns tt) s1)) ⊎ (finish f r ≡ finish g r)
unfolding finish
finish-cases f g crashed = inr refl
finish-cases f g (finished (throws x) s1) = inr refl
finish-cases f g (finished (returns u) s1) = inl (s1, refl)

inner-IsPassing :
    (global : Option ℕ) (uses_ip : Bool)
    → (ms : List Middleware) × All IsPassing ms
      × (load_pipeline global uses_ip ≡ logger ∷ error_handler ∷ (ms ++ authenticator ∷ []))
unfolding load_pipeline
inner-IsPassing none uses_ip = (parser ∷ rate_limiter ∷ [], (parses, (limits, tt)), refl)
inner-IsPassing (some id) true =
    (limiter id ∷ parser ∷ rate_limiter ∷ [], (limits_all id, (parses, (limits, tt))), refl)
inner-IsPassing (some id) false =
    (parser ∷ limiter id ∷ rate_limiter ∷ [], (parses, (limits_all id, (limits, tt))), refl)

process-finisher :
    (j : Jwt) (c : Config) (w : World) (f g : Handler → Action) (m : Middleware)
    (next next' : Action)
    → IsPassing m
    → next ≡ next'
    → process j c w f m next ≡ process j c w g m next'
unfolding process
process-finisher j c w f g parser next next' p same = ap (λ k. parse w k) same
process-finisher j c w f g rate_limiter next next' p same = ap (λ k. rate_limit w k) same
process-finisher j c w f g (limiter id) next next' p same = ap (λ k. process_limiter w id k) same
process-finisher j c w f g error_handler next next' p same = elim p [ ]
process-finisher j c w f g logger next next' p same = elim p [ ]
process-finisher j c w f g authenticator next next' p same = elim p [ ]

-- The middlewares inside the error handler do not call the handlers.
passing-finisher :
    (j : Jwt) (c : Config) (w : World) (f g : Handler → Action) (ms : List Middleware)
    → All IsPassing ms
    → run_pipeline j c w f (ms ++ authenticator ∷ [])
      ≡ run_pipeline j c w g (ms ++ authenticator ∷ [])
unfolding run_pipeline process
passing-finisher j c w f g [] all = refl
passing-finisher j c w f g (m ∷ rest) (p, all) =
    process-finisher j c w f g m _ _ p (passing-finisher j c w f g rest all)

-- The request with the client's address in its entry, as it comes to the error handler.
unfoldable pub with_address : World → State → State
with_address w s =
    set_txn (record s.txn { log_entry = record s.txn.log_entry { client_addr = w.client_ip } }) s

-- In the pipeline that the server loads, with or without a global limiter, a method handler runs
-- only for a request that is allowed its route: either the middlewares inside the error handler
-- return, and the request that they leave has a route that it is allowed, or how the whole
-- pipeline ends does not depend on the handlers at all.
pub run_pipeline-IsAllowed :
    (j : Jwt) (c : Config) (w : World) (f g : Handler → Action) (global : Option ℕ) (uses_ip : Bool)
    (s : State)
    → ((s1 : State) × (route : EndpointMethod) × (run_pipeline j c w f
            (drop 2 (load_pipeline global uses_ip))
            (with_address w s)
          ≡ finished (returns tt) s1)
        × (s1.txn.request.route ≡ some route)
        × IsAllowed j c s1.txn.request route)
      ⊎ (run_pipeline j c w f (load_pipeline global uses_ip) s
          ≡ run_pipeline j c w g (load_pipeline global uses_ip) s)
unfolding run_pipeline process log with_address
run_pipeline-IsAllowed j c w f g global uses_ip s =
    let (ms, all, loaded) = inner-IsPassing global uses_ip in
    let inner = ms ++ authenticator ∷ [] in
    rw loaded elim (finish-cases f g (run_pipeline j c w f inner (with_address w s))) [
      | inl (s1, h) ↦
          let (route, found, allowed) = passing-IsAllowed j c w f ms (with_address w s) s1 all h in
          inl (s1, route, h, found, allowed)
      | inr same ↦ inr (
          ap (λ r. log_session (rescue w r)) same
          ∙ ap (λ k. log_session (rescue w (finish g (k (with_address w s)))))
              (passing-finisher j c w f g ms all))
    ]
