-- ===== src/Pipeline/Stages.antt =====
-- src/Middleware.cpp: `run_pipeline`, `ErrorHandler`, `Parser` and `Logger`, and, from
-- src/config.cpp, the pipeline that is loaded. The method handlers, which `ErrorHandler` calls, are
-- the argument `finisher`.
pub mod Guard
pub mod Errors
pub mod Survives
pub mod Tails
pub mod Parsing
pub mod Tokens
use cgi_web_server.Base.{
  ℕ, Bool, true, false, Option, none, some, List, [], ◌∷◌, ◌++◌, if◌then◌else◌, not, ◌||◌, take,
}
use cgi_web_server.Http.Args.{extract_args}
use cgi_web_server.Http.Io.{ErrorCode, no_error, is_client_disconnect}
use cgi_web_server.Http.Request.{
  extract_endpoint, extract_method, extract_headers, extract_body, extract_query_string,
}
use cgi_web_server.Http.Response.{
  Response, response_of, Exception, http_exception, std_exception, never_returns, Result, returns,
  throws, http_error, ◌>>=◌,
}
use cgi_web_server.Http.Status
use cgi_web_server.Http.Status.{is_success_code}
use cgi_web_server.Log.Texts.{get_user_agent}
use cgi_web_server.Pipeline.Auth.{authenticate}
use cgi_web_server.Pipeline.Limiting.{process_limiter, rate_limit}
use cgi_web_server.Pipeline.Pages.{serve_page}
use cgi_web_server.Pipeline.Streams.{to_run}
use cgi_web_server.Pipeline.{
  Request, SessionEntry, State, Run, finished, crashed, Action, Jwt, Config, World, set_txn,
  set_response, set_request,
}
use cgi_web_server.Router.{
  Handler, Router, get_handler_of, get_arg_type, get_endpoint, get_endpoint_method, get_error_page,
}
use cgi_web_server.Text.{Bytes, codes, find}

-- The middlewares of a pipeline; a limiter by its place.
pub data Middleware : Type 0 where
  error_handler logger parser authenticator rate_limiter : Middleware
  limiter : ℕ → Middleware

-- The response replaces that of the transaction, and its page is served.
unfoldable pub answer_with : World → Response → State → Run
unfolding serve_page set_response
answer_with w response s =
    to_run (serve_page w (get_error_page s.router response.status) (set_response response s))

-- The `catch` clauses of the error handler.
unfoldable pub catch : World → Exception → State → Run
unfolding answer_with
catch w (http_exception r) s = answer_with w r s
catch w std_exception s = answer_with w (response_of Status.internal_server_error) s
catch w never_returns s = finished (throws never_returns) s

-- What the `try` block does after `next`.
unfoldable pub finish : (Handler → Action) → Run → Run
finish finisher crashed = crashed
finish finisher (finished (throws x) s) = finished (throws x) s
finish finisher (finished (returns u) s) = elim (s.txn.request.endpoint) [
  | none ↦ crashed
  | some endpoint ↦ elim (get_handler_of endpoint s.txn.request.method) [
    | throws x ↦ finished (throws x) s
    | returns handler ↦ finisher handler s
  ]
]

unfoldable pub rescue : World → Run → Run
unfolding catch
rescue w crashed = crashed
rescue w (finished (returns u) s) = finished (returns tt) s
rescue w (finished (throws x) s) = catch w x s

-- The request of a buffer, and the router after the lookups.
unfoldable pub parse_request : World → Router → Bytes → Result Request × Router
parse_request w r buffer = elim (extract_endpoint buffer) [
  | throws x ↦ (throws x, r)
  | returns url ↦ elim (get_endpoint w.file_exists r url) [
    | throws x ↦ (throws x, r)
    | returns (r', endpoint) ↦ (
      do
        method ← extract_method buffer
        arg_type ← get_arg_type endpoint method
        args ← extract_args w.parse_json buffer arg_type
        headers ← extract_headers buffer
        body ← extract_body buffer
        query ← extract_query_string buffer
        (_, route) ← get_endpoint_method w.file_exists r' url method
        returns (record {
          method = method;
          query = query;
          args = args;
          endpoint_url = url;
          endpoint = some endpoint;
          route = some route;
          headers = headers;
          body = body;
        }),
      r',
    )
  ]
]

-- `if(ec)`
unfoldable pub has_failed : ErrorCode → Bool
has_failed no_error = false
has_failed ec = true

unfoldable pub parse : World → Action → Action
unfolding parse_request set_request has_failed
parse w next s =
    let s1 = set_txn (record s.txn { buffer = w.read.1 }) s in
    let parsed = parse_request w s.router w.read.1 in
    let s2 = record s1 { router = parsed.1 } in
    if has_failed w.read.0
    then (finished
        (http_error (
          if is_client_disconnect w.read.0
          then Status.client_closed_request
          else Status.internal_server_error))
        s1)
    else elim (parsed.0) [
      | throws x ↦ finished (throws x) s2
      | returns request ↦ next (set_request request s2)
    ]

-- `logger::get_header_line`
unfoldable pub get_header_line : Bytes → Bytes
get_header_line buffer = elim (find (codes "\r\n") buffer) [
  | none ↦ []
  | some end ↦ take end buffer
]

unfoldable pub log_session : Run → Run
unfolding get_header_line get_user_agent
log_session crashed = crashed
log_session (finished (throws x) s) = finished (throws x) s
log_session (finished (returns u) s) =
    let entry = record s.txn.log_entry {
      is_error = not (is_success_code s.txn.response.status);
      user_agent = get_user_agent s.txn.buffer;
      request = get_header_line s.txn.buffer;
      response = s.txn.response.status_msg;
    } in
    finished (returns tt) (record s { logged = s.logged ++ entry ∷ [] })

unfoldable pub log : World → Action → Action
unfolding log_session
log w next s = log_session (
    next (
      set_txn (record s.txn { log_entry = record s.txn.log_entry { client_addr = w.client_ip } })
        s))

-- The middlewares of `loadPipeline`; the global limiter stands before the parser where its key is
-- the address of the client.
unfoldable pub load_pipeline : Option ℕ → Bool → List Middleware
load_pipeline none global_uses_ip =
    logger ∷ error_handler ∷ parser ∷ rate_limiter ∷ authenticator ∷ []
load_pipeline (some id) true =
    logger ∷ error_handler ∷ limiter id ∷ parser ∷ rate_limiter ∷ authenticator ∷ []
load_pipeline (some id) false =
    logger ∷ error_handler ∷ parser ∷ limiter id ∷ rate_limiter ∷ authenticator ∷ []

module _ (j : Jwt) (c : Config) (w : World) (finisher : Handler → Action) where
  unfoldable pub process : Middleware → Action → Action
  unfolding rescue finish parse log rate_limit process_limiter authenticate
  process error_handler next s = rescue w (finish finisher (next s))
  process logger next s = log w next s
  process parser next s = parse w next s
  process authenticator next s = authenticate j c next s
  process rate_limiter next s = rate_limit w next s
  process (limiter id) next s = process_limiter w id next s

  unfoldable pub run_pipeline : List Middleware → Action
  unfolding process
  run_pipeline [] s = finished (returns tt) s
  run_pipeline (m ∷ rest) s = process m (run_pipeline rest) s
