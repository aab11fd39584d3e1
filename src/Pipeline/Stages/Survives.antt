-- ===== src/Pipeline/Stages/Survives.antt =====
-- src/Middleware.cpp: when a request does not bring the process down.
use cgi_web_server.Base.{
  ◌≡◌, ◌≢◌, refl, sym, subst, ◌∙◌, inl, inr, arith, Bool, Bool-cases, none, some, [], ◌∷◌,
}
use cgi_web_server.Http.Args.{extract_args}
use cgi_web_server.Http.Request.{
  extract_endpoint, extract_method, extract_headers, extract_body, extract_query_string,
}
use cgi_web_server.Http.Response.{
  Result, returns, throws, http_exception, std_exception, never_returns, Result-cases,
  >>=-eq-returns,
}
use cgi_web_server.Http.Status.{is_success_code}
use cgi_web_server.Pipeline.Auth.{validate, issue_token, after_next, authenticate}
use cgi_web_server.Pipeline.Limiting.{rate_limit}
use cgi_web_server.Pipeline.Stages.Errors.{loaded-rescue}
use cgi_web_server.Pipeline.Stages.Guard.{with_address}
use cgi_web_server.Pipeline.Stages.{
  authenticator, answer_with, catch, finish, rescue, parse, parse_request, has_failed, log_session,
  load_pipeline, process, run_pipeline,
}
use cgi_web_server.Pipeline.{
  Request, State, Run, finished, crashed, Action, Jwt, Config, World, set_txn, set_response,
  set_request,
}
use cgi_web_server.Router.{
  Handler, get_handler_of, get_auth_role, Router, Endpoint, EndpointMethod, get_arg_type,
  get_endpoint, get_endpoint_method,
}
use cgi_web_server.Text.{Bytes}

pub parse_request-some :
    (w : World) (r : Router) (buffer : Bytes) (request : Request)
    → (parse_request w r buffer).0 ≡ returns request
    → ((e : Endpoint) × (request.endpoint ≡ some e))
      × ((m : EndpointMethod) × (request.route ≡ some m))
unfolding parse_request
parse_request-some w r buffer request h = elim (Result-cases (extract_endpoint buffer)) [
  | inr (x, failed) ↦ absurd (ground (arith, h, failed))
  | inl (url, e1) ↦ elim (Result-cases (get_endpoint w.file_exists r url)) [
    | inr (x, failed) ↦ absurd (ground (arith, h, e1, failed))
    | inl ((r', e), e2) ↦
        let h0 = rw (e1, parse_request, e2) at h in
        let (method, q1, h1) = >>=-eq-returns (extract_method buffer) _ h0 in
        let (arg_type, q2, h2) = >>=-eq-returns (get_arg_type e method) _ h1 in
        let (args, q3, h3) = >>=-eq-returns (extract_args w.parse_json buffer arg_type) _ h2 in
        let (headers, q4, h4) = >>=-eq-returns (extract_headers buffer) _ h3 in
        let (body, q5, h5) = >>=-eq-returns (extract_body buffer) _ h4 in
        let (query, q6, h6) = >>=-eq-returns (extract_query_string buffer) _ h5 in
        let (route, q7, h7) =
          >>=-eq-returns (get_endpoint_method w.file_exists r' url method) _ h6 in
        ((e, ground (arith, h7)), (route.1, ground (arith, h7)))
  ]
]

-- A run that the error handler can go on from: it throws, or it leaves a request with an endpoint.
abbrev IsSafe : Run → Type 0
IsSafe crashed = ⊥
IsSafe (finished (throws x) s) = Unit
IsSafe (finished (returns u) s) = (e : Endpoint) × (s.txn.request.endpoint ≡ some e)

issue_token-IsSafe :
    (j : Jwt) (c : Config) (s : State) (e : Endpoint)
    → s.txn.request.endpoint ≡ some e
    → IsSafe (issue_token j c s)
unfolding issue_token set_response
issue_token-IsSafe j c s e found = elim (Bool-cases (is_success_code s.txn.response.status)) [
  | inr failing ↦ rw (failing, issue_token) tt
  | inl success ↦ elim (Result-cases (get_auth_role e s.txn.request.method)) [
    | inr (x, missing) ↦ rw (success, issue_token, found, missing) tt
    | inl (role, has_role) ↦ rw (success, issue_token, found, has_role) (e, found)
  ]
]

authenticate-IsSafe :
    (j : Jwt) (c : Config) (next : Action) (s : State) (e : Endpoint) (m : EndpointMethod)
    → next s ≡ finished (returns tt) s
    → s.txn.request.endpoint ≡ some e
    → s.txn.request.route ≡ some m
    → IsSafe (authenticate j c next s)
unfolding authenticate after_next
authenticate-IsSafe j c next s e m passes found routed =
    elim (Result-cases (validate j c s.txn.request m)) [
      | inr (x, refused) ↦
          let out : authenticate j c next s ≡ finished (throws x) s =
            ground (arith, routed, refused) in
          subst IsSafe (sym out) tt
      | inl (u, valid) ↦ elim (Bool-cases m.is_authenticator) [
        | inr plain ↦
            let out : authenticate j c next s ≡ finished (returns tt) s =
              ground (arith, routed, valid, passes, plain) in
            subst IsSafe (sym out) (e, found)
        | inl issues ↦
            let out : authenticate j c next s ≡ issue_token j c s =
              ground (arith, routed, valid, passes, issues) in
            subst IsSafe (sym out) (issue_token-IsSafe j c s e found)
      ]
    ]

finish-survives :
    (f : Handler → Action) (r : Run)
    → ((h : Handler) (s : State) → f h s ≢ crashed)
    → IsSafe r
    → finish f r ≢ crashed
unfolding finish
finish-survives f crashed lives safe = λ e. safe
finish-survives f (finished (throws x) s) lives safe = λ e. ground (arith, e)
finish-survives f (finished (returns u) s) lives (endpoint, found) =
    elim (Result-cases (get_handler_of endpoint s.txn.request.method)) [
      | inl (h, has_handler) ↦ rw (found, finish, has_handler) (lives h s)
      | inr (x, missing) ↦ rw (found, finish, missing) (λ e. ground (arith, e))
    ]

log_session-survives :
    (result : Result (Unit {0})) (s : State) → log_session (finished result s) ≢ crashed
unfolding log_session
log_session-survives (returns u) s = λ e. ground (arith, e)
log_session-survives (throws x) s = λ e. ground (arith, e)

rescue-survives : (w : World) (r : Run) → r ≢ crashed → log_session (rescue w r) ≢ crashed
unfolding rescue catch answer_with
rescue-survives w crashed lives = λ e. lives refl
rescue-survives w (finished (returns u) s) lives = log_session-survives (returns tt) s
rescue-survives w (finished (throws never_returns) s) lives = log_session-survives _ s
rescue-survives w (finished (throws (http_exception r)) s) lives = log_session-survives _ _
rescue-survives w (finished (throws std_exception) s) lives = log_session-survives _ _

parse-IsSafe :
    (w : World) (next : Action) (s : State)
    → ((request : Request) (s' : State)
        → (parse_request w s.router w.read.1).0 ≡ returns request
        → IsSafe (next (set_request request s')))
    → IsSafe (parse w next s)
unfolding parse
parse-IsSafe w next s safe = elim (Bool-cases (has_failed w.read.0)) [
  | inl failed ↦ rw (failed, parse) tt
  | inr read ↦ elim (Result-cases ((parse_request w s.router w.read.1).0)) [
    | inr (x, refused) ↦ rw (read, parse, refused) tt
    | inl (request, parsed) ↦
        rw (read, parse, parsed)
          (safe request
            (record (set_txn (record s.txn { buffer = w.read.1 }) s) {
              router = (parse_request w s.router w.read.1).1;
            })
            parsed)
  ]
]

-- Without a global limiter, a request brings the process down only by its handler: where no route
-- that a request finds has a limiter of its own, and no handler crashes, the loaded pipeline does
-- not crash; so no null endpoint or route is followed.
pub run_pipeline-survives :
    (j : Jwt) (c : Config) (w : World) (f : Handler → Action) (uses_ip : Bool) (s : State)
    → ((h : Handler) (s' : State) → f h s' ≢ crashed)
    → ((request : Request) (m : EndpointMethod)
        → (parse_request w s.router w.read.1).0 ≡ returns request
        → request.route ≡ some m
        → m.rate_limiter ≡ none)
    → run_pipeline j c w f (load_pipeline none uses_ip) s ≢ crashed
unfolding load_pipeline run_pipeline process with_address rate_limit set_request
run_pipeline-survives j c w f uses_ip s lives unlimited =
    let last = run_pipeline j c w f (authenticator ∷ []) in
    let safe =
      parse-IsSafe w (λ s'. rate_limit w last s') (with_address w s)
        (λ request s' parsed.
          let ((e, found), (m, routed)) = parse_request-some w s.router w.read.1 request parsed in
          let free = unlimited request m parsed routed in
          rw (routed, rate_limit, free)
            (authenticate-IsSafe j c (run_pipeline j c w f []) (set_request request s') e m refl
              found routed)) in
    λ e.
      rescue-survives w (finish f (parse w (λ s'. rate_limit w last s') (with_address w s)))
        (finish-survives f (parse w (λ s'. rate_limit w last s') (with_address w s)) lives safe)
        (sym (loaded-rescue j c w f none uses_ip s) ∙ e)
