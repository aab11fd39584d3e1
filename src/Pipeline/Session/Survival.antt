-- ===== src/Pipeline/Session/Survival.antt =====
-- src/config.cpp, src/Session.cpp: a server that has loaded its configuration survives its
-- connections.
use cgi_web_server.Base.Assoc.{lookup}
use cgi_web_server.Base.{
  ℕ, ◌≡◌, ◌≢◌, inl, inr, Bool, Bool-cases, Option, some, List, [], ◌∷◌, arith,
}
use cgi_web_server.Config.Settings.Starts.{initialize-IsStarted, IsStarted-IsReady}
use cgi_web_server.Config.Settings.{Startup, Settings, initialize}
use cgi_web_server.Config.Xml.{Xml}
use cgi_web_server.Pipeline.Handlers.Steps.{method_handler-IsReadyEnd}
use cgi_web_server.Pipeline.Handlers.{method_handler}
use cgi_web_server.Pipeline.Ready.Limiters.{IsReadyState}
use cgi_web_server.Pipeline.Ready.Requests.{IsReadyEnd, run_pipeline-IsReadyEnd}
use cgi_web_server.Pipeline.Ready.{HasWindow}
use cgi_web_server.Pipeline.Session.{Connection, start_session, serve_connections}
use cgi_web_server.Pipeline.Stages.{load_pipeline}
use cgi_web_server.Pipeline.{
  nat_keys, Limiter, State, Run, finished, crashed, Action, Jwt, Config, set_txn, new_transaction,
}

module _ (j : Jwt) (c : Config) (global : Option ℕ) (uses_ip : Bool) where
  start_session-IsReadyEnd :
      (connection : Connection) (s : State)
      → IsReadyState global s
      → IsReadyEnd global (start_session j c (load_pipeline global uses_ip) connection s)
  unfolding start_session
  start_session-IsReadyEnd connection s ready = elim (Bool-cases connection.handshake) [
    | inr failed ↦ rw (failed, start_session) ready
    | inl done ↦
        rw (done, start_session)
          (run_pipeline-IsReadyEnd j c connection.world (method_handler connection.world) global
            uses_ip (set_txn new_transaction s)
            (λ h s' ready'. method_handler-IsReadyEnd global connection.world s' ready' h) ready)
  ]

  after_end :
      (r : Run) (next : Action)
      → IsReadyEnd global r
      → ((s : State) → IsReadyState global s → IsReadyEnd global (next s))
      → IsReadyEnd global (elim r as (λ _. Run) [ crashed ↦ crashed | finished result s ↦ next s ])
  after_end crashed next ready goes_on = ready
  after_end (finished result s) next ready goes_on = goes_on s ready

  serve_connections-IsReadyEnd :
      (connections : List Connection) (s : State)
      → IsReadyState global s
      → IsReadyEnd global (serve_connections j c (load_pipeline global uses_ip) connections s)
  unfolding serve_connections
  serve_connections-IsReadyEnd [] s ready = ready
  serve_connections-IsReadyEnd (connection ∷ later) s ready =
      after_end (start_session j c (load_pipeline global uses_ip) connection s)
        (serve_connections j c (load_pipeline global uses_ip) later)
        (start_session-IsReadyEnd connection s ready) (serve_connections-IsReadyEnd later)

-- The state of a server behind `initialize`.
abbrev pub started_state : Settings → State
started_state settings = record {
  txn = new_transaction;
  router = settings.router;
  limiters = settings.limiters;
  sent = [];
  logged = [];
}

IsReadyEnd-lives : (global : Option ℕ) (r : Run) → IsReadyEnd global r → r ≢ crashed
IsReadyEnd-lives global crashed ready = λ e. ready
IsReadyEnd-lives global (finished result s) ready = λ e. ground (arith, e)

-- A server that has loaded its configuration survives its connections: whatever the configuration
-- and whatever each of the connections that come one after another meets, it does not crash, if
-- no fixed window of the configuration is 0 seconds long.
pub initialize-survives :
    (x : Xml) (fuel : ℕ) (start : Startup) (config : x.Element) (settings : Settings) (j : Jwt)
    (c : Config) (connections : List Connection)
    → initialize x fuel start config ≡ some settings
    → ((id : ℕ) (l : Limiter) → lookup id settings.limiters ≡ some l → HasWindow l)
    → serve_connections j c settings.middlewares connections (started_state settings) ≢ crashed
initialize-survives x fuel start config settings j c connections loaded windows =
    let started = initialize-IsStarted x fuel start config settings loaded in
    let ready = IsStarted-IsReady settings started windows in
    rw (started.pipeline) (
      IsReadyEnd-lives started.global
        (serve_connections j c (load_pipeline started.global started.uses_ip) connections
          (started_state settings))
        (serve_connections-IsReadyEnd j c started.global started.uses_ip connections
          (started_state settings) ready))
