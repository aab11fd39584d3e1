-- ===== src/Tests/Serving.antt =====
-- Examples for a server from its configuration to its connections.
use cgi_web_server.Base.{◌^◌}
use cgi_web_server.Config.Settings.{Startup}
use cgi_web_server.Http.Io.{co_write_all, write_loop, is_permanent_failure, is_retryable}
use cgi_web_server.Pipeline.Streams.{written}
use cgi_web_server.Http.Args.{parsed}
use cgi_web_server.Base.Assoc.{lookup}
use cgi_web_server.Base.Int.{pos}
use cgi_web_server.Base.{
  ℕ, ◌≡◌, ◌+◌, ◌≤◌, refl, arith, Bool, true, false, Option, none, some, List, [], ◌∷◌, ◌++◌, length,
  joined, All, ltb, ◌&&◌,
}
use cgi_web_server.Config.Settings.{Settings, initialize}
use cgi_web_server.Http.Method
use cgi_web_server.Http.Response.{returns, default_response, build}
use cgi_web_server.Http.Status.{is_success_code}
use cgi_web_server.Pipeline.Handlers.Delivery.{file_response, handle_file-sends}
use cgi_web_server.Pipeline.Handlers.{determine_content_type, find_extension, handle_file}
use cgi_web_server.Pipeline.Streams.{buffer_size}
use cgi_web_server.Http.Io.{no_error, would_block}
use cgi_web_server.Http.Status
use cgi_web_server.Pipeline.Session.Survival.{started_state}
use cgi_web_server.Pipeline.Stages.{load_pipeline, has_failed}
use cgi_web_server.Server.Main.{Machine, new_accepting, config_of, main, stopped, main-one_thread}
use cgi_web_server.Server.Sessions.Closing.{Ends, run_session-IsClosed}
use cgi_web_server.Server.Sessions.Refused.{server_error, serve_accepts-failed}
use cgi_web_server.Server.Sessions.{Accept, run_session, serve_accepts}
use cgi_web_server.Server.{is_fatal}
use cgi_web_server.Socket.{Peer, https}
use cgi_web_server.Base.Int.{int_keys}
use cgi_web_server.Pipeline.{
  nat_keys, Limiter, Jwt, SessionEntry, World, State, finished, fixed_window, token_bucket,
}
use cgi_web_server.Router.{
  new_router, EndpointMethod, default_method, root_file, get_handler, assign_handler,
}
use cgi_web_server.Tests.Documents.{document, startup, all_well}
use cgi_web_server.Text.{Bytes, codes, rfind}

abbrev no_settings : Settings
no_settings = record {
  thread_count = 0;
  roles = [];
  ssl = record { active = false; key_path = []; certificate_path = [] };
  secret = [];
  content_path = [];
  host_name = [];
  host_address = [];
  log_path = [];
  port = pos 0;
  router = new_router;
  limiters = [];
  middlewares = [];
}

abbrev or_else : Option Settings → Settings
or_else none = no_settings
or_else (some settings) = settings

abbrev settings : Settings
settings = or_else (initialize document 1 startup 0)

abbrev has_window : Limiter → Bool
has_window (fixed_window setting key_func clients) = ltb 0 setting.window_seconds
has_window (token_bucket setting key_func buckets) = true

abbrev have_windows : List (ℕ × Limiter) → Bool
have_windows [] = true
have_windows ((id, l) ∷ limiters) = has_window l && have_windows limiters

abbrev claims : Jwt
claims = record {
  Token = Bytes;
  decode = λ s. some s;
  verify = λ secret issuer token. true;
  is_expired = λ token. false;
  role_claim = λ token. some token;
  sign = λ secret issuer role. role;
}

-- A request for the page, and one that is no request.
abbrev world : Bytes → World
world request = record {
  client_ip = codes "1.2.3.4";
  read = (no_error, request);
  writes = λ before s. record { error = no_error; bytes = length s } ∷ [];
  file_exists = λ path. true;
  read_file = λ path. some (codes "<html>");
  read_fails = λ path at. false;
  run_script = λ path input. record { spawning = all_well; chunks = []; ends = true };
  parse_json = λ s. parsed;
  steady = 70;
  epoch = 1000;
  date = codes "today";
}

abbrev peer_of : Bytes → Peer
peer_of request = record { remote = some (codes "1.2.3.4"); tls = no_error; world = world request }

-- A connection to the page, an accept that is tried again, and one that sends no request.
abbrev accepts : List Accept
accepts =
    record { error = no_error; peer = peer_of (codes "GET / HTTP/1.1\r\n\r\n") }
    ∷ record { error = would_block; peer = peer_of [] }
    ∷ record { error = no_error; peer = peer_of (codes "garbage") }
    ∷ []

-- A machine that can hold and start a few threads.
abbrev machine : Machine
machine = record {
  listens = true;
  has_certificates = true;
  reserves = λ n. ltb n (2 ^ 60);
  threads = 16;
}

-- The same on a machine that reports one thread.
abbrev one_thread : Startup
one_thread = record startup { hardware = 1 }

abbrev single : Settings
single = or_else (initialize document 1 one_thread 0)

single_initialized : initialize document 1 one_thread 0 ≡ some single
unfolding initialize assign_handler lookup
single_initialized = refl

reserves-few : (n : ℕ) → 2 ^ 63 ≤ n → machine.reserves n ≡ false
reserves-few n many = ground (arith, many)

main-one_thread_example :
    main document machine 1 one_thread (λ path. some 0) claims (some (codes "a.xml")) accepts
    ≡ stopped
unfolding initialize assign_handler lookup
main-one_thread_example =
    main-one_thread document 1 one_thread (λ path. some 0) claims machine (codes "a.xml") 0 single
      accepts refl single_initialized (ground arith) reserves-few

run_session-IsClosed_example :
    Ends claims
      (config_of settings)
      settings.middlewares
      (record { scheme = https; is_open = true; address = []; closings = 0 })
      (run_session claims
        (config_of settings)
        settings.middlewares
        (peer_of [])
        (record { scheme = https; is_open = true; address = []; closings = 0 })
        (started_state settings)).0
      (run_session claims
        (config_of settings)
        settings.middlewares
        (peer_of [])
        (record { scheme = https; is_open = true; address = []; closings = 0 })
        (started_state settings)).1
run_session-IsClosed_example =
    run_session-IsClosed claims (config_of settings) settings.middlewares (peer_of [])
      (record { scheme = https; is_open = true; address = []; closings = 0 })
      (started_state settings)

abbrev refused_accept : Accept
refused_accept = record { error = would_block; peer = peer_of [] }

refused_failed : has_failed would_block ≡ true
unfolding has_failed
refused_failed = refl

no_error_page : lookup Status.internal_server_error new_router.error_pages ≡ none
unfolding lookup
no_error_page = refl

abbrev first_state : State
first_state = started_state (record no_settings { router = new_router })

serve_accepts-failed_example :
    (s1 : State) × (entry : SessionEntry) × (serve_accepts claims
        (config_of settings)
        (load_pipeline none false)
        false
        (refused_accept ∷ [])
        new_accepting
        first_state
      ≡ finished (returns tt) s1)
    × (s1.sent ≡ [] ++ (build (codes "today") server_error).1 ∷ [])
    × (s1.logged ≡ [] ++ entry ∷ [])
    × (entry.is_error ≡ true)
unfolding is_fatal
serve_accepts-failed_example =
    serve_accepts-failed claims (config_of settings) false first_state new_accepting refused_accept
      refused_failed refl (ground arith) no_error_page

abbrev page_route : EndpointMethod
page_route = default_method root_file Method.get get_handler

takes_all :
    (before : List Bytes) (text : Bytes)
    → written (world []) before text ≡ some (record { status = Status.ok; bytes = length text })
unfolding written co_write_all write_loop is_permanent_failure is_retryable
takes_all before text = ground arith

handle_file-sends_example :
    (chunks : List Bytes) × (s' : State) × (handle_file
        (world [])
        page_route
        (started_state settings)
      ≡ (returns tt, s'))
    × (s'.sent ≡ [] ++ ((file_response (world []) (codes "text/html") default_response).1 ∷ chunks))
    × (joined chunks ≡ codes "<html>")
    × All (λ c. length c ≤ buffer_size) chunks
    × (s'.txn.log_entry.bytes
        ≡ 0 + (6 + length (file_response (world []) (codes "text/html") default_response).1))
unfolding determine_content_type rfind find_extension is_success_code
handle_file-sends_example =
    handle_file-sends (world []) page_route (started_state settings) (codes "<html>")
      (codes "text/html") refl refl refl (record { takes = takes_all; reads = λ at. refl })
