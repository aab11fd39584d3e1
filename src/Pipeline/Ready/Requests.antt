-- ===== src/Pipeline/Ready/Requests.antt =====
-- src/Middleware.cpp: the server survives its requests.
use cgi_web_server.Base.{
  ℕ, ◌≡◌, refl, sym, ap, subst, ◌∙◌, inl, inr, arith, Bool, true, false, Bool-cases, Option, none,
  some, [], ◌∷◌, drop,
}
use cgi_web_server.Http.Response.{
  returns, throws, http_exception, std_exception, never_returns, response_of, Result-cases,
}
use cgi_web_server.Http.Status
use cgi_web_server.Http.Status.{is_success_code}
use cgi_web_server.Pipeline.Auth.{validate, issue_token, after_next, authenticate}
use cgi_web_server.Pipeline.Limiting.{process_limiter}
use cgi_web_server.Pipeline.Streams.Keeps.{Keeps}
use cgi_web_server.Pipeline.Streams.{Step, to_run}
use cgi_web_server.Pipeline.Ready.Limiters.{
  IsReadyState, IsReadyRun, process_limiter-IsReadyRun, rate_limit-IsReadyRun,
}
use cgi_web_server.Pipeline.Ready.{IsLimited, parse_request-IsReady, parse_request-IsLimited}
use cgi_web_server.Pipeline.Pages.Keeps.{serve_page-Keeps}
use cgi_web_server.Pipeline.Stages.Errors.{loaded-rescue}
use cgi_web_server.Pipeline.Stages.Guard.{with_address}
use cgi_web_server.Pipeline.Stages.Survives.{parse_request-some}
use cgi_web_server.Pipeline.Stages.{
  authenticator, rate_limiter, parser, limiter, answer_with, catch, finish, rescue, parse,
  parse_request, has_failed, log_session, load_pipeline, process, run_pipeline,
}
use cgi_web_server.Pipeline.{
  Request, State, Run, finished, crashed, Action, Jwt, Config, World, set_response, set_request,
}
use cgi_web_server.Router.{Handler, get_handler_of, get_auth_role, Endpoint, EndpointMethod}

-- How the whole pipeline ends: not by a crash, and ready for more requests.
abbrev pub IsReadyEnd : Option ℕ → Run → Type 0
IsReadyEnd global crashed = ⊥
IsReadyEnd global (finished result s) = IsReadyState global s

issue_token-IsReadyRun :
    (global : Option ℕ) (j : Jwt) (c : Config) (s : State) (e : Endpoint)
    → s.txn.request.endpoint ≡ some e
    → IsReadyState global s
    → IsReadyRun global (issue_token j c s)
unfolding issue_token set_response
issue_token-IsReadyRun global j c s e found ready =
    elim (Bool-cases (is_success_code s.txn.response.status)) [
      | inr failing ↦ rw (failing, issue_token) ready
      | inl success ↦ elim (Result-cases (get_auth_role e s.txn.request.method)) [
        | inr (x, missing) ↦ rw (success, issue_token, found, missing) ready
        | inl (role, has_role) ↦ rw (success, issue_token, found, has_role) ((e, found), ready)
      ]
    ]

authenticate-IsReadyRun :
    (global : Option ℕ) (j : Jwt) (c : Config) (next : Action) (s : State) (e : Endpoint)
    (m : EndpointMethod)
    → next s ≡ finished (returns tt) s
    → s.txn.request.endpoint ≡ some e
    → s.txn.request.route ≡ some m
    → IsReadyState global s
    → IsReadyRun global (authenticate j c next s)
unfolding authenticate after_next
authenticate-IsReadyRun global j c next s e m passes found routed ready =
    elim (Result-cases (validate j c s.txn.request m)) [
      | inr (x, refused) ↦
          let out : authenticate j c next s ≡ finished (throws x) s =
            ground (arith, routed, refused) in
          subst (IsReadyRun global) (sym out) ready
      | inl (u, valid) ↦ elim (Bool-cases m.is_authenticator) [
        | inr plain ↦
            let out : authenticate j c next s ≡ finished (returns tt) s =
              ground (arith, routed, valid, passes, plain) in
            subst (IsReadyRun global) (sym out) ((e, found), ready)
        | inl issues ↦
            let out : authenticate j c next s ≡ issue_token j c s =
              ground (arith, routed, valid, passes, issues) in
            subst (IsReadyRun global) (sym out) (issue_token-IsReadyRun global j c s e found ready)
      ]
    ]

log_session-IsReadyEnd :
    (global : Option ℕ) (s : State) (step : Step (Unit {0}))
    → Keeps s step
    → IsReadyState global s
    → IsReadyEnd global (log_session (to_run step))
unfolding log_session
log_session-IsReadyEnd global s (returns u, s') (routes, counts, logs) ready =
    rw (routes, counts) ready
log_session-IsReadyEnd global s (throws x, s') (routes, counts, logs) ready =
    rw (routes, counts) ready

parse-IsReadyRun :
    (global : Option ℕ) (w : World) (next : Action) (s : State)
    → ((request : Request) (s' : State)
        → (parse_request w s.router w.read.1).0 ≡ returns request
        → s'.txn.request ≡ request
        → s'.limiters ≡ s.limiters
        → IsReadyState global s'
        → IsReadyRun global (next s'))
    → IsReadyState global s
    → IsReadyRun global (parse w next s)
unfolding parse set_request
parse-IsReadyRun global w next s serving ready = elim (Bool-cases (has_failed w.read.0)) [
  | inl failed ↦ rw (failed, parse) ready
  | inr read ↦
      let ready' = parse_request-IsReady global s.limiters w s.router w.read.1 ready in
      elim (Result-cases ((parse_request w s.router w.read.1).0)) [
        | inr (x, refused) ↦ rw (read, parse, refused) ready'
        | inl (request, parsed) ↦
            rw (read, parse, parsed) (serving request _ parsed refl refl ready')
      ]
]

finish-IsReadyEnd :
    (global : Option ℕ) (f : Handler → Action) (r : Run)
    → ((h : Handler) (s : State) → IsReadyState global s → IsReadyEnd global (f h s))
    → IsReadyRun global r
    → IsReadyEnd global (finish f r)
unfolding finish
finish-IsReadyEnd global f crashed serves ready = ready
finish-IsReadyEnd global f (finished (throws x) s) serves ready = ready
finish-IsReadyEnd global f (finished (returns u) s) serves ((endpoint, found), ready) =
    elim (Result-cases (get_handler_of endpoint s.txn.request.method)) [
      | inl (h, has_handler) ↦ rw (found, finish, has_handler) (serves h s ready)
      | inr (x, missing) ↦ rw (found, finish, missing) ready
    ]

rescue-IsReadyEnd :
    (global : Option ℕ) (w : World) (r : Run)
    → IsReadyEnd global r
    → IsReadyEnd global (log_session (rescue w r))
unfolding rescue catch answer_with log_session set_response
rescue-IsReadyEnd global w crashed ready = ready
rescue-IsReadyEnd global w (finished (returns u) s) ready = ready
rescue-IsReadyEnd global w (finished (throws never_returns) s) ready = ready
rescue-IsReadyEnd global w (finished (throws (http_exception r)) s) ready =
    log_session-IsReadyEnd global (set_response r s) _ (serve_page-Keeps w _ _) ready
rescue-IsReadyEnd global w (finished (throws std_exception) s) ready =
    let r = response_of Status.internal_server_error in
    log_session-IsReadyEnd global (set_response r s) _ (serve_page-Keeps w _ _) ready

module _ (j : Jwt) (c : Config) (w : World) (f : Handler → Action) (global : Option ℕ) where
  routed-IsReadyRun :
      (s : State) (e : Endpoint) (m : EndpointMethod)
      → s.txn.request.endpoint ≡ some e
      → s.txn.request.route ≡ some m
      → IsLimited s.limiters m
      → IsReadyState global s
      → IsReadyRun global (run_pipeline j c w f (rate_limiter ∷ authenticator ∷ []) s)
  unfolding run_pipeline process
  routed-IsReadyRun s e m found routed limited ready =
      rate_limit-IsReadyRun global w (run_pipeline j c w f (authenticator ∷ [])) s m routed limited
        (λ s' same kept ready'.
          authenticate-IsReadyRun global j c (run_pipeline j c w f []) s' e m refl
            (ap (λ q. q.endpoint) same ∙ found) (ap (λ q. q.route) same ∙ routed) ready')
        ready

  parsed-IsReadyRun :
      (s : State)
      → IsReadyState global s
      → IsReadyRun global (run_pipeline j c w f (parser ∷ rate_limiter ∷ authenticator ∷ []) s)
  unfolding run_pipeline process
  parsed-IsReadyRun s ready =
      parse-IsReadyRun global w (run_pipeline j c w f (rate_limiter ∷ authenticator ∷ [])) s
        (λ request s' parsed same counts ready'.
          let ((e, found), (m, routed)) = parse_request-some w s.router w.read.1 request parsed in
          let limited =
            parse_request-IsLimited global s.limiters w s.router w.read.1 request m ready parsed
              routed in
          routed-IsReadyRun s' e m (ap (λ q. q.endpoint) same ∙ found)
            (ap (λ q. q.route) same ∙ routed) (subst (λ ls. IsLimited ls m) (sym counts) limited)
            ready')
        ready

  parsed_limited-IsReadyRun :
      (id : ℕ) (s : State)
      → global ≡ some id
      → IsReadyState global s
      → IsReadyRun global
          (run_pipeline j c w f (parser ∷ limiter id ∷ rate_limiter ∷ authenticator ∷ []) s)
  unfolding run_pipeline process
  parsed_limited-IsReadyRun id s named ready =
      let last = run_pipeline j c w f (rate_limiter ∷ authenticator ∷ []) in
      parse-IsReadyRun global w (process_limiter w id last) s
        (λ request s' parsed same counts ready'.
          let ((e, found), (m, routed)) = parse_request-some w s.router w.read.1 request parsed in
          let limited =
            parse_request-IsLimited global s.limiters w s.router w.read.1 request m ready parsed
              routed in
          process_limiter-IsReadyRun global w id last s' (ready'.global_there id named)
            (λ s'' same' kept ready''.
              routed-IsReadyRun s'' e m (ap (λ q. q.endpoint) (same' ∙ same) ∙ found)
                (ap (λ q. q.route) (same' ∙ same) ∙ routed)
                (λ k has. kept k (subst (λ ls. IsLimited ls m) (sym counts) limited k has)) ready'')
            ready')
        ready

module _ (j : Jwt) (c : Config) (w : World) (f : Handler → Action) where
  -- The middlewares inside the error handler.
  inner-IsReadyRun :
      (global : Option ℕ) (uses_ip : Bool) (s : State)
      → IsReadyState global s
      → IsReadyRun global (run_pipeline j c w f (drop 2 (load_pipeline global uses_ip)) s)
  unfolding load_pipeline run_pipeline process
  inner-IsReadyRun none uses_ip s ready = parsed-IsReadyRun j c w f none s ready
  inner-IsReadyRun (some id) true s ready =
      process_limiter-IsReadyRun (some id) w id
        (run_pipeline j c w f (parser ∷ rate_limiter ∷ authenticator ∷ [])) s
        (ready.global_there id refl)
        (λ s' same kept ready'. parsed-IsReadyRun j c w f (some id) s' ready') ready
  inner-IsReadyRun (some id) false s ready =
      parsed_limited-IsReadyRun j c w f (some id) id s refl ready

  pub run_pipeline-IsReadyEnd :
      (global : Option ℕ) (uses_ip : Bool) (s : State)
      → ((h : Handler) (s' : State) → IsReadyState global s' → IsReadyEnd global (f h s'))
      → IsReadyState global s
      → IsReadyEnd global (run_pipeline j c w f (load_pipeline global uses_ip) s)
  unfolding with_address
  run_pipeline-IsReadyEnd global uses_ip s serves ready =
      subst (IsReadyEnd global) (sym (loaded-rescue j c w f global uses_ip s)) (
        rescue-IsReadyEnd global w _ (
          finish-IsReadyEnd global f
            (run_pipeline j c w f (drop 2 (load_pipeline global uses_ip)) (with_address w s)) serves
            (inner-IsReadyRun global uses_ip (with_address w s) ready)))
