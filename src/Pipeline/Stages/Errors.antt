-- ===== src/Pipeline/Stages/Errors.antt =====
-- src/Middleware.cpp: what becomes of an exception.
use cgi_web_server.Base.Assoc.{lookup}
use cgi_web_server.Base.Int.{int_keys}
use cgi_web_server.Base.{
  ℕ, ◌≡◌, refl, sym, subst, ap, ◌∙◌, ◌⊎◌, inl, inr, arith, Bool, true, false, Option, none, some,
  [], ◌∷◌, ◌++◌, not, drop,
}
use cgi_web_server.Http.Io.{WriteStatus}
use cgi_web_server.Http.Response.{
  Response, Result, returns, throws, http_exception, std_exception, never_returns, response_of,
  build,
}
use cgi_web_server.Http.Status
use cgi_web_server.Http.Status.{Code, is_success_code}
use cgi_web_server.Log.Texts.{get_user_agent}
use cgi_web_server.Pipeline.Pages.Keeps.{IsEnd, serve_page-IsEnd, serve_page-Keeps}
use cgi_web_server.Pipeline.Pages.{serve_default, serve_page}
use cgi_web_server.Pipeline.Stages.Guard.{with_address}
use cgi_web_server.Pipeline.Stages.{
  get_header_line, answer_with, catch, finish, rescue, log, log_session, load_pipeline, process,
  run_pipeline,
}
use cgi_web_server.Pipeline.Streams.{Step, to_run, write, written, send_anyway}
use cgi_web_server.Pipeline.{
  SessionEntry, State, Run, finished, crashed, Action, Jwt, Config, World, set_response,
}
use cgi_web_server.Router.{Router, Handler, default_page, get_error_page}

pub Run-cases :
    (r : Run)
    → (r ≡ crashed) ⊎ ((result : Result (Unit {0})) × (s : State) × (r ≡ finished result s))
Run-cases crashed = inl refl
Run-cases (finished result s) = inr (result, s, refl)

default_error_page :
    (router : Router) (status : Code)
    → lookup status router.error_pages ≡ none
    → get_error_page router status ≡ default_page
unfolding get_error_page
default_error_page router status h = rw (h, get_error_page) refl

-- The entry that is given to the logger.
abbrev entry_of : State → SessionEntry
entry_of s = record s.txn.log_entry {
  is_error = not (is_success_code s.txn.response.status);
  user_agent = get_user_agent s.txn.buffer;
  request = get_header_line s.txn.buffer;
  response = s.txn.response.status_msg;
}

-- A response as the default page has answered with it.
abbrev answered : World → Response → State → State
answered w r s = write (build w.date r).1 (set_response (build w.date r).0 (set_response r s))

default-answered :
    (w : World) (r : Response) (s : State) (result : WriteStatus)
    → written w s.sent (build w.date r).1 ≡ some result
    → serve_page w default_page (set_response r s) ≡ (returns tt, answered w r s)
unfolding serve_page serve_default send_anyway set_response
default-answered w r s result done = rw (done, send_anyway) refl

module _ (j : Jwt) (c : Config) (w : World) (f : Handler → Action) where
  pub loaded-rescue :
      (global : Option ℕ) (uses_ip : Bool) (s : State)
      → run_pipeline j c w f (load_pipeline global uses_ip) s
        ≡ log_session (
            rescue w (
              finish f
                (run_pipeline j c w f (drop 2 (load_pipeline global uses_ip)) (with_address w s))))
  unfolding load_pipeline run_pipeline process log with_address
  loaded-rescue none uses_ip s = refl
  loaded-rescue (some id) true s = refl
  loaded-rescue (some id) false s = refl

  -- How the pipeline ends when the `try` block of the error handler has left the state s0: it never
  -- comes back, or it returns with one more entry, which tells the response.
  abbrev pub Ends : State → Run → Type 0
  Ends s0 run =
      ((s1 : State) × (run ≡ finished (throws never_returns) s1))
      ⊎ ((s1 : State) × (entry : SessionEntry) × (run ≡ finished (returns tt) s1)
          × (s1.logged ≡ s0.logged ++ entry ∷ [])
          × (entry.response ≡ s1.txn.response.status_msg)
          × (entry.is_error ≡ not (is_success_code s1.txn.response.status)))

  page-Ends :
      (s0 : State) (step : Step (Unit {0}))
      → step.1.logged ≡ s0.logged
      → IsEnd step
      → Ends s0 (log_session (to_run step))
  unfolding log_session
  page-Ends s0 (returns u, s1) kept end =
      inr (_, entry_of s1, refl, ap (λ l. l ++ entry_of s1 ∷ []) kept, refl, refl)
  page-Ends s0 (throws x, s1) kept (inl end) = absurd (ground (arith, end))
  page-Ends s0 (throws x, s1) kept (inr end) = inl (s1, ap (λ r. finished r s1) end)

  rescue-Ends :
      (result : Result (Unit {0})) (s0 : State)
      → Ends s0 (log_session (rescue w (finished result s0)))
  unfolding rescue catch answer_with set_response log_session
  rescue-Ends (returns u) s0 = inr (_, _, refl, refl, refl, refl)
  rescue-Ends (throws never_returns) s0 = inl (s0, refl)
  rescue-Ends (throws (http_exception r)) s0 =
      let page = get_error_page s0.router r.status in
      page-Ends s0 (serve_page w page (set_response r s0))
        (serve_page-Keeps w page (set_response r s0)).2
        (serve_page-IsEnd w page (set_response r s0))
  rescue-Ends (throws std_exception) s0 =
      let r = response_of Status.internal_server_error in
      let page = get_error_page s0.router r.status in
      page-Ends s0 (serve_page w page (set_response r s0))
        (serve_page-Keeps w page (set_response r s0)).2
        (serve_page-IsEnd w page (set_response r s0))

  -- No exception leaves the pipeline: whatever the handlers and the middlewares throw, the
  -- pipeline does not survive, or the `try` block of the error handler, with the handler in it,
  -- leaves a state, in which the pipeline either never comes back, or returns, with exactly one
  -- entry behind those that are logged in that state: it has the status line of the response
  -- and says whether its status is an error.
  pub run_pipeline-returns :
      (global : Option ℕ) (uses_ip : Bool) (s : State)
      → (run_pipeline j c w f (load_pipeline global uses_ip) s ≡ crashed)
        ⊎ ((s0 : State) × (result : Result (Unit {0})) × (finish f
                (run_pipeline j c w f (drop 2 (load_pipeline global uses_ip)) (with_address w s))
              ≡ finished result s0)
            × Ends s0 (run_pipeline j c w f (load_pipeline global uses_ip) s))
  unfolding rescue log_session
  run_pipeline-returns global uses_ip s =
      let inner = run_pipeline j c w f (drop 2 (load_pipeline global uses_ip)) (with_address w s) in
      let loaded = loaded-rescue global uses_ip s in
      elim (Run-cases (finish f inner)) [
        | inl dead ↦ inl (loaded ∙ ap (λ r. log_session (rescue w r)) dead)
        | inr (result, s0, left) ↦ inr (
          s0,
          result,
          left,
          subst (Ends s0) (sym (loaded ∙ ap (λ r. log_session (rescue w r)) left))
              (rescue-Ends result s0),
        )
      ]

  -- An HTTP exception of a middleware inside the error handler is answered with its own
  -- response: where no error page is set for its status and `co_write_all` comes back from the
  -- writes of the response's text, the pipeline returns, the one buffer that is sent after
  -- those before is that text, and the entry given to the logger has the response's status
  -- line.
  pub run_pipeline-http_exception :
      (global : Option ℕ) (uses_ip : Bool) (s s0 : State) (r : Response) (result : WriteStatus)
      → run_pipeline j c w f (drop 2 (load_pipeline global uses_ip)) (with_address w s)
        ≡ finished (throws (http_exception r)) s0
      → lookup r.status s0.router.error_pages ≡ none
      → written w s0.sent (build w.date r).1 ≡ some result
      → (s1 : State) × (entry : SessionEntry) × (run_pipeline j c w f
            (load_pipeline global uses_ip)
            s
          ≡ finished (returns tt) s1)
        × (s1.sent ≡ s0.sent ++ (build w.date r).1 ∷ [])
        × (s1.logged ≡ s0.logged ++ entry ∷ [])
        × (entry.response ≡ r.status_msg)
        × (entry.is_error ≡ not (is_success_code r.status))
  unfolding log_session rescue catch answer_with finish set_response serve_page serve_default
      send_anyway write build
  run_pipeline-http_exception global uses_ip s s0 r result thrown no_page done = (
    record (answered w r s0) { logged = s0.logged ++ entry_of (answered w r s0) ∷ [] },
    entry_of (answered w r s0),
    loaded-rescue global uses_ip s
        ∙ ap (λ q. log_session (rescue w (finish f q))) thrown
        ∙ ap (λ p. log_session (to_run (serve_page w p (set_response r s0))))
            (default_error_page s0.router r.status no_page)
        ∙ ap (λ step. log_session (to_run step)) (default-answered w r s0 result done),
    refl,
    refl,
    refl,
    refl,
  )
