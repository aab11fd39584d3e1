-- ===== src/Server/Sessions.antt =====
-- src/Server.cpp, src/Session.cpp: what the accept loop makes of each accept: a socket, and a
-- session on it.
pub mod Closing
pub mod Accepts
pub mod Refused
use cgi_web_server.Base.{
  ℕ, ◌+◌, ◌≡◌, ◌≢◌, refl, ap, ◌∙◌, arith, Bool, true, false, not, Bool-cases, inl, inr, Option,
  none, some, Option-cases, List, [], ◌∷◌, if◌then◌else◌, map,
}
use cgi_web_server.Http.Io.{ErrorCode}
use cgi_web_server.Http.Response.{Result, returns, throws, std_exception, never_returns}
use cgi_web_server.Pipeline.Session.{Connection, start_session, serve_connections}
use cgi_web_server.Pipeline.Stages.{Middleware, has_failed}
use cgi_web_server.Pipeline.{State, Run, finished, crashed, Jwt, Config}
use cgi_web_server.Server.{Accepting, is_error}
use cgi_web_server.Socket.{
  Scheme, http, https, Peer, Socket, new_socket, store_ip, co_handshake, close, destroy, world_of,
}

-- What an accept comes back with.
pub record Accept : Type 0 where
  pub error : ErrorCode
  pub peer : Peer

-- `Server::createSocket`
unfoldable pub create_socket : Bool → Socket
unfolding new_socket
create_socket ssl = if ssl then new_socket https else new_socket http

-- `async_accept` opens the socket where it succeeds.
unfoldable pub async_accept : Accept → Socket → Socket
unfolding has_failed
async_accept accept sock = record sock { is_open = not (has_failed accept.error) }

-- A socket with its address, as its session meets it.
unfoldable pub connect : Peer → Socket → Connection
unfolding has_failed co_handshake world_of
connect peer sock = record {
  handshake = not (has_failed (co_handshake peer sock));
  world = world_of peer sock;
}

module _ (j : Jwt) (c : Config) (ms : List Middleware) where
  -- The socket behind the pipeline: the session closes it where the pipeline returns, and then its
  -- destructor runs, unless the session never ends.
  unfoldable pub after_pipeline : Bool → Run → Socket → Socket
  unfolding close destroy
  after_pipeline true (finished (returns u) s) sock = destroy (close sock)
  after_pipeline handshake (finished (throws never_returns) s) sock = sock
  after_pipeline handshake run sock = destroy sock

  -- `Session::start`, and the destructor of the session.
  unfoldable pub run_session : Peer → Socket → State → Run × Socket
  unfolding store_ip connect start_session after_pipeline destroy
  run_session peer sock s = elim (store_ip peer sock) [
    | none ↦ (finished (throws std_exception) s, destroy sock)
    | some sock' ↦
        let connection = connect peer sock' in
        let run = start_session j c ms connection s in
        (run, after_pipeline connection.handshake run sock')
  ]

  -- `Server::run`, its sessions one after another; `FATAL` ends the process.
  unfoldable pub serve_accepts : Bool → List Accept → Accepting → State → Run
  unfolding is_error create_socket async_accept run_session
  serve_accepts ssl [] a s = finished (returns tt) s
  serve_accepts ssl (accept ∷ later) a s = elim (is_error accept.error a) [
    | none ↦ crashed
    | some a' ↦
        elim ((run_session accept.peer (async_accept accept (create_socket ssl)) s).0)
          as (λ _. Run) [ crashed ↦ crashed | finished result s' ↦ serve_accepts ssl later a' s' ]
  ]
