-- ===== src/Server/Sessions/Accepts.antt =====
-- src/Server.cpp: the sessions of the accept loop are those of its connections, and a configured
-- server survives them.
use cgi_web_server.Base.Assoc.{lookup}
use cgi_web_server.Base.{
  ℕ, ◌≡◌, ◌≢◌, refl, ◌∙◌, Bool, Option, none, some, Option-cases, inl, inr, List, [], ◌∷◌,
}
use cgi_web_server.Config.Settings.{Startup, Settings, initialize}
use cgi_web_server.Config.Xml.{Xml}
use cgi_web_server.Http.Io.{ErrorCode}
use cgi_web_server.Pipeline.Ready.{HasWindow}
use cgi_web_server.Pipeline.Session.Survival.{started_state, initialize-survives}
use cgi_web_server.Pipeline.Session.{Connection, serve_connections}
use cgi_web_server.Pipeline.Stages.{Middleware}
use cgi_web_server.Pipeline.{nat_keys, Limiter, State, Run, finished, crashed, Jwt, Config}
use cgi_web_server.Server.Sessions.{
  Accept, create_socket, async_accept, connect, run_session, serve_accepts,
}
use cgi_web_server.Server.{Accepting, is_error, accept_loop}
use cgi_web_server.Socket.{Peer, Socket, store_ip}

abbrev pub errors_of : List Accept → List ErrorCode
errors_of [] = []
errors_of (accept ∷ later) = accept.error ∷ errors_of later

abbrev accepted : Bool → Accept → Socket
accepted ssl accept = async_accept accept (create_socket ssl)

-- A connection for each accept whose socket gives its address or has none to give.
abbrev with_socket : Peer → Option Socket → List Connection → List Connection
with_socket peer none connections = connections
with_socket peer (some sock) connections = connect peer sock ∷ connections

abbrev pub connections_of : Bool → List Accept → List Connection
connections_of ssl [] = []
connections_of ssl (accept ∷ later) =
    with_socket accept.peer (store_ip accept.peer (accepted ssl accept)) (connections_of ssl later)

abbrev go_on : Run → (State → Run) → Run
go_on run next = elim run as (λ _. Run) [ crashed ↦ crashed | finished result s ↦ next s ]

go_on-eq : (run : Run) (f g : State → Run) → ((s : State) → f s ≡ g s) → go_on run f ≡ go_on run g
go_on-eq crashed f g same = refl
go_on-eq (finished result s) f g same = same s

module _ (j : Jwt) (c : Config) (ms : List Middleware) (ssl : Bool) where
  session-connection :
      (accept : Accept) (later : List Connection) (s : State)
      → go_on
          (run_session j c ms accept.peer (accepted ssl accept) s).0
          (serve_connections j c ms later)
        ≡ serve_connections j c ms
            (with_socket accept.peer (store_ip accept.peer (accepted ssl accept)) later)
            s
  unfolding run_session serve_connections
  session-connection accept later s =
      elim (Option-cases (store_ip accept.peer (accepted ssl accept))) [
        | inl thrown ↦ rw (thrown, run_session) refl
        | inr (sock, stored) ↦ rw (stored, run_session) refl
      ]

  serve_accepts-connections :
      (accepts : List Accept) (a a' : Accepting) (s : State)
      → accept_loop (errors_of accepts) a ≡ some a'
      → serve_accepts j c ms ssl accepts a s
        ≡ serve_connections j c ms (connections_of ssl accepts) s
  unfolding serve_accepts accept_loop serve_connections
  serve_accepts-connections [] a a' s alive = refl
  serve_accepts-connections (accept ∷ later) a a' s alive =
      elim (Option-cases (is_error accept.error a)) [
        | inl fatal ↦
            let ended : none ≡ some a' = rw (fatal, accept_loop) at alive in absurd (cc ended)
        | inr (a1, kept) ↦
            let alive' : accept_loop (errors_of later) a1 ≡ some a' =
              rw (kept, accept_loop) at alive in
            rw (kept, serve_accepts)
              (go_on-eq (run_session j c ms accept.peer (accepted ssl accept) s).0
                (serve_accepts j c ms ssl later a1)
                (serve_connections j c ms (connections_of ssl later))
                (λ s'. serve_accepts-connections later a1 a' s' alive'))
            ∙ session-connection accept (connections_of ssl later) s
      ]

-- A server that has loaded its configuration survives what its accept loop brings, if no fixed
-- window of the configuration is 0 seconds long and no error ends the process.
pub serve_accepts-survives :
    (x : Xml) (fuel : ℕ) (start : Startup) (config : x.Element) (settings : Settings) (j : Jwt)
    (c : Config) (ssl : Bool) (accepts : List Accept) (a a' : Accepting)
    → initialize x fuel start config ≡ some settings
    → ((id : ℕ) (l : Limiter) → lookup id settings.limiters ≡ some l → HasWindow l)
    → accept_loop (errors_of accepts) a ≡ some a'
    → serve_accepts j c settings.middlewares ssl accepts a (started_state settings) ≢ crashed
serve_accepts-survives x fuel start config settings j c ssl accepts a a' loaded windows alive =
    rw
      (serve_accepts-connections j c settings.middlewares ssl accepts a a' (started_state settings)
        alive)
      (initialize-survives x fuel start config settings j c (connections_of ssl accepts) loaded
        windows)
