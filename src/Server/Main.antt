-- ===== src/Server/Main.antt =====
-- src/main.cpp, src/Server.cpp: the program, from its argument to its sessions.
use cgi_web_server.Base.{
  ℕ, ◌^◌, ◌<◌, ◌≤◌, ◌≡◌, refl, ◌∙◌, arith, inl, inr, Bool, false, not, ◌&&◌, ◌||◌, leb, ◌==◌,
  if◌then◌else◌, Option, none, some, List,
}
use cgi_web_server.Config.Settings.{Startup, Settings, initialize}
use cgi_web_server.Config.Xml.{Xml}
use cgi_web_server.Http.Response.{Result, returns, throws, std_exception, Result-cases}
use cgi_web_server.Pipeline.Session.Survival.{started_state}
use cgi_web_server.Pipeline.{nat_keys, Run, finished, crashed, Jwt, Config}
use cgi_web_server.Server.Sessions.{Accept, serve_accepts}
use cgi_web_server.Server.{Accepting, worker_count}
use cgi_web_server.Text.{Bytes}

-- What the process that starts meets: whether the acceptor can be opened and bound, whether the
-- certificates of the configuration can be loaded, whether `reserve` of a vector of threads returns
-- for a number of them, and how many threads can be started.
pub record Machine : Type 0 where
  pub listens : Bool
  pub has_certificates : Bool
  pub reserves : ℕ → Bool
  pub threads : ℕ

-- How the program ends: with no path, with a configuration that does not load, with an exception
-- that `main` catches before anything is served, or with what its sessions come to.
pub data Outcome : Type 0 where
  no_path not_loaded stopped : Outcome
  served : Run → Outcome

-- What the middlewares read of the configuration.
abbrev pub config_of : Settings → Config
config_of settings = record {
  secret = settings.secret;
  server_name = settings.host_name;
  roles = settings.roles;
}

-- `_retries` of a new server.
abbrev pub new_accepting : Accepting
new_accepting = record { retries = 0; slept = 0 }

-- The constructor of `Server`, with `loadCertificate`.
unfoldable pub construct_server : Machine → Bool → Result (Unit {0})
construct_server m ssl =
    if not m.listens || (ssl && not m.has_certificates) then throws std_exception else returns tt

-- `Server::start`. Where a thread cannot be started, those that have been are destroyed while they
-- can be joined, which ends the process.
unfoldable pub start_server : Machine → Jwt → Settings → List Accept → Run
unfolding worker_count serve_accepts
start_server m j settings accepts =
    if not (m.reserves (worker_count settings.thread_count))
    then finished (throws std_exception) (started_state settings)
    else if leb (worker_count settings.thread_count) m.threads
    then serve_accepts j (config_of settings) settings.middlewares settings.ssl.active accepts
        new_accepting (started_state settings)
    else if m.threads == 0
    then finished (throws std_exception) (started_state settings)
    else crashed

-- The `try` block of `main`.
unfoldable pub run_server : Machine → Jwt → Settings → List Accept → Outcome
unfolding construct_server start_server
run_server m j settings accepts = elim (construct_server m settings.ssl.active) [
  | throws x ↦ stopped
  | returns u ↦ elim (start_server m j settings accepts) [
    | crashed ↦ served crashed
    | finished result s ↦ elim result [
      | throws x ↦ stopped
      | returns v ↦ served (finished (returns tt) s)
    ]
  ]
]

-- `main`, by the path that it is given. `load` gives the element `ServerConfig` of the file.
unfoldable pub main :
    (x : Xml)
    → Machine
    → ℕ
    → Startup
    → (Bytes → Option x.Element)
    → Jwt
    → Option Bytes
    → List Accept
    → Outcome
unfolding initialize run_server
main x m fuel start load j none accepts = no_path
main x m fuel start load j (some path) accepts = elim (load path) [
  | none ↦ not_loaded
  | some config ↦ elim (initialize x fuel start config) [
    | none ↦ not_loaded
    | some settings ↦ run_server m j settings accepts
  ]
]

module _ (x : Xml) (fuel : ℕ) (start : Startup) (load : Bytes → Option x.Element) (j : Jwt)
    (m : Machine) (path : Bytes) (config : x.Element) (settings : Settings) (accepts : List Accept)
    (read : load path ≡ some config) (loaded : initialize x fuel start config ≡ some settings) where
  main_lem : main x m fuel start load j (some path) accepts ≡ run_server m j settings accepts
  unfolding main
  main_lem = rw (read, main) (rw (loaded, main) refl)

  -- One thread is none: if the file at its path loads, its configuration is initialized with
  -- fewer than two threads, and `reserve` of a vector of threads does not return for 2 ^ 63 of
  -- them or more, then `main` stops with an exception that it catches and serves nothing,
  -- whatever the accepts would have brought.
  pub main-one_thread :
      settings.thread_count < 2
      → ((n : ℕ) → 2 ^ 63 ≤ n → m.reserves n ≡ false)
      → main x m fuel start load j (some path) accepts ≡ stopped
  unfolding run_server start_server
  main-one_thread few bound =
      let many : 2 ^ 63 ≤ worker_count settings.thread_count =
        unfold worker_count in ground (arith, few) in
      let full = bound (worker_count settings.thread_count) many in
      main_lem ∙ elim (Result-cases (construct_server m settings.ssl.active)) [
        | inr (e, failed) ↦ rw (failed, run_server) refl
        | inl (u, built) ↦ rw (built, run_server) (rw (full, start_server) refl)
      ]
