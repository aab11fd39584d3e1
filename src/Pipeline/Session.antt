-- ===== src/Pipeline/Session.antt =====
-- src/Session.cpp: `Session::start`, and sessions one after another.
pub mod Survival
use cgi_web_server.Base.{Bool, true, false, List, [], ◌∷◌}
use cgi_web_server.Http.Response.{Result, returns, throws}
use cgi_web_server.Pipeline.Handlers.{method_handler}
use cgi_web_server.Pipeline.Stages.{Middleware, run_pipeline}
use cgi_web_server.Pipeline.{
  State, Run, finished, crashed, Action, Jwt, Config, World, set_txn, new_transaction,
}
use cgi_web_server.Router.{Handler}

-- A connection: whether its handshake succeeds, and what its request meets.
pub record Connection : Type 0 where
  pub handshake : Bool
  pub world : World

module _ (j : Jwt) (c : Config) (ms : List Middleware) where
  unfoldable pub start_session : Connection → Action
  unfolding run_pipeline method_handler
  start_session connection s = elim (connection.handshake) [
    | false ↦ finished (returns tt) s
    | true ↦
        run_pipeline j c connection.world (method_handler connection.world) ms
          (set_txn new_transaction s)
  ]

  -- The sessions of connections that come one after another. What one throws ends with it.
  unfoldable pub serve_connections : List Connection → Action
  unfolding start_session
  serve_connections [] s = finished (returns tt) s
  serve_connections (connection ∷ later) s = elim (start_session connection s) as (λ _. Run) [
    | crashed ↦ crashed
    | finished result s' ↦ serve_connections later s'
  ]
