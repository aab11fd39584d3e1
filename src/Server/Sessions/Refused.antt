-- ===== src/Server/Sessions/Refused.antt =====
-- src/Server.cpp: `Server::isError` returns false for every error that does not end the process, so
-- an accept that failed starts a session all the same.
use cgi_web_server.Base.Assoc.{lookup}
use cgi_web_server.Base.Int.{int_keys}
use cgi_web_server.Base.{
  ◌≤◌, ◌≡◌, refl, ◌∙◌, arith, Bool, true, false, inl, inr, none, some, Option-cases, List, [], ◌∷◌,
  ◌++◌, drop,
}
use cgi_web_server.Http.Io.{
  ErrorCode, no_error, WriteStatus, is_client_disconnect, co_write_all, write_loop,
  is_permanent_failure,
}
use cgi_web_server.Http.Response.{
  Response, exception_response, throws, returns, http_exception, build,
}
use cgi_web_server.Http.Status
use cgi_web_server.Http.Status.{is_success_code}
use cgi_web_server.Pipeline.Handlers.{method_handler}
use cgi_web_server.Pipeline.Session.{start_session}
use cgi_web_server.Pipeline.Stages.Errors.{run_pipeline-http_exception}
use cgi_web_server.Pipeline.Stages.Guard.{with_address}
use cgi_web_server.Pipeline.Stages.{load_pipeline, run_pipeline, process, parse, has_failed}
use cgi_web_server.Pipeline.{State, SessionEntry, finished, Jwt, Config, set_txn, new_transaction}
use cgi_web_server.Server.Sessions.{
  Accept, create_socket, async_accept, connect, run_session, serve_accepts,
}
use cgi_web_server.Server.{Accepting, is_fatal, is_error, max_retries}
use cgi_web_server.Socket.{http, Peer, Socket, co_handshake, write_all, write_all-closed, world_of}
use cgi_web_server.Pipeline.Streams.{written}
use cgi_web_server.Text.{Bytes, codes}

abbrev unopened : Socket
unopened = record { scheme = http; is_open = false; address = []; closings = 0 }

async_accept-failed :
    (accept : Accept)
    → has_failed accept.error ≡ true
    → async_accept accept (create_socket false) ≡ unopened
unfolding async_accept create_socket
async_accept-failed accept failed = rw failed refl

-- The socket with its address.
abbrev nameless : Socket
nameless = record unopened { address = codes "address not available" }

abbrev pub server_error : Response
server_error = exception_response Status.internal_server_error []

module _ (j : Jwt) (c : Config) (uses_ip : Bool) (peer : Peer) (s : State) where
  abbrev arrived : State
  arrived = with_address (world_of peer nameless) (set_txn new_transaction s)

  read_fails :
      run_pipeline j c
        (world_of peer nameless)
        (method_handler (world_of peer nameless))
        (drop 2 (load_pipeline none uses_ip))
        arrived
      ≡ finished
          (throws (http_exception server_error))
          (set_txn (record arrived.txn { buffer = [] }) arrived)
  unfolding run_pipeline process load_pipeline parse has_failed world_of is_client_disconnect
  read_fails = refl

  -- Without TLS the handshake succeeds, open or not.
  start_session-nameless :
      start_session j c (load_pipeline none uses_ip) (connect peer nameless) s
      ≡ run_pipeline j c
          (world_of peer nameless)
          (method_handler (world_of peer nameless))
          (load_pipeline none uses_ip)
          (set_txn new_transaction s)
  unfolding start_session connect co_handshake has_failed
  start_session-nameless = refl

  nameless-written :
      (before : List Bytes) (text : Bytes)
      → (result : WriteStatus) × (written (world_of peer nameless) before text ≡ some result)
  unfolding written world_of write_all co_write_all write_loop is_permanent_failure
  nameless-written before [] = (_, refl)
  nameless-written before (x ∷ text) =
      (_, write_all-closed peer nameless before (x ∷ text) refl (omega arith))

  -- The session of an accept that failed.
  run_session-failed :
      (accept : Accept)
      → has_failed accept.error ≡ true
      → lookup Status.internal_server_error s.router.error_pages ≡ none
      → (s1 : State) × (entry : SessionEntry) × ((run_session j c
            (load_pipeline none uses_ip)
            peer
            (async_accept accept (create_socket false))
            s).0
          ≡ finished (returns tt) s1)
        × (s1.sent ≡ s.sent ++ (build peer.world.date server_error).1 ∷ [])
        × (s1.logged ≡ s.logged ++ entry ∷ [])
        × (entry.is_error ≡ true)
  unfolding run_session exception_response with_address is_success_code
  run_session-failed accept failed no_page =
      let (result, done) = nameless-written s.sent (build peer.world.date server_error).1 in
      let (s1, entry, run, sent, logged, text, is_error) =
        run_pipeline-http_exception j c (world_of peer nameless)
          (method_handler (world_of peer nameless)) none uses_ip (set_txn new_transaction s) _
          server_error result read_fails no_page done in
      (
        s1,
        entry,
        rw (async_accept-failed accept failed) (start_session-nameless ∙ run),
        sent,
        logged,
        is_error,
      )

-- An error that does not end the process makes no difference to the accept loop.
is_error-goes_on :
    (error : ErrorCode) (a : Accepting)
    → is_fatal error ≡ false
    → a.retries ≤ max_retries
    → (a' : Accepting) × (is_error error a ≡ some a')
unfolding is_error
is_error-goes_on no_error a goes_on few = (_, refl)
is_error-goes_on error a goes_on few = elim (Option-cases (is_error error a)) [
  | inr kept ↦ kept
  | inl ended ↦ absurd (ground (arith, ended, goes_on, few))
]

-- An accept that failed is served all the same: in a server without TLS and a global limiter, an
-- accept that comes back with an error which does not end the process, with at most MAX_RETRIES
-- retries counted before, starts a session; where no error page is set for the status 500, that
-- session returns, has given one buffer to the socket, a response of the status 500, and one
-- entry to the logger, an error.
pub serve_accepts-failed :
    (j : Jwt) (c : Config) (uses_ip : Bool) (s : State) (a : Accepting) (accept : Accept)
    → has_failed accept.error ≡ true
    → is_fatal accept.error ≡ false
    → a.retries ≤ max_retries
    → lookup Status.internal_server_error s.router.error_pages ≡ none
    → (s1 : State) × (entry : SessionEntry) × (serve_accepts j c
          (load_pipeline none uses_ip)
          false
          (accept ∷ [])
          a
          s
        ≡ finished (returns tt) s1)
      × (s1.sent ≡ s.sent ++ (build accept.peer.world.date server_error).1 ∷ [])
      × (s1.logged ≡ s.logged ++ entry ∷ [])
      × (entry.is_error ≡ true)
unfolding serve_accepts
serve_accepts-failed j c uses_ip s a accept failed goes_on few no_page =
    let (a', kept) = is_error-goes_on accept.error a goes_on few in
    let (s1, entry, run, sent, logged, is_error) =
      run_session-failed j c uses_ip accept.peer s accept failed no_page in
    (s1, entry, rw (kept, serve_accepts, run) refl, sent, logged, is_error)
