-- ===== src/Tests/Pipelines.antt =====
-- Examples for the middlewares.
use cgi_web_server.Http.Response.{Result}
use cgi_web_server.Http.Args.{parsed}
use cgi_web_server.Http.Io.{WriteStatus, co_write_all, write_loop, is_permanent_failure}
use cgi_web_server.Pipeline.Streams.{written}
use cgi_web_server.Base.Assoc.{lookup, insert}
use cgi_web_server.Base.{
  length, ℕ, ◌≡◌, ◌⊎◌, ◌≤◌, ◌<◌, ◌+◌, ◌-◌, refl, arith, true, false, none, some, [], ◌∷◌, ◌++◌,
  drop, not,
}
use cgi_web_server.Config.Keys.{by_ip}
use cgi_web_server.Config.Roles.{
  default_roles, find_role, includes_role, contains, user, admin, admin_role,
}
use cgi_web_server.Http.Io.{no_error}
use cgi_web_server.Http.Method.{post, method_keys}
use cgi_web_server.Http.Request.{extract_endpoint}
use cgi_web_server.Http.Response.{
  Response, exception_response, returns, throws, http_exception, http_error, build,
}
use cgi_web_server.Http.Status
use cgi_web_server.Http.Status.{is_success_code}
use cgi_web_server.Limit.Window.Counting.{used, IsSetting}
use cgi_web_server.Limit.Window.{default_window, retry_after}
use cgi_web_server.Pipeline.Auth.Allowed.{IsAllowed, validate-IsAllowed}
use cgi_web_server.Pipeline.Auth.{validate}
use cgi_web_server.Pipeline.Keys.{make_key}
use cgi_web_server.Pipeline.Limiting.Refusal.{process_limiter-window}
use cgi_web_server.Pipeline.Limiting.{find_client, too_many, set_limiter, process_limiter}
use cgi_web_server.Pipeline.Stages.Errors.{Ends, run_pipeline-returns, run_pipeline-http_exception}
use cgi_web_server.Pipeline.Stages.Guard.{with_address, run_pipeline-IsAllowed}
use cgi_web_server.Pipeline.Stages.Tokens.{IsJwt, validate-sign}
use cgi_web_server.Pipeline.Stages.{
  finish, load_pipeline, run_pipeline, process, parse, parse_request, has_failed,
}
use cgi_web_server.Pipeline.{
  nat_keys, Request, new_request, get_header, SessionEntry, new_transaction, fixed_window, State,
  finished, crashed, Action, Jwt, Config, World, set_response,
}
use cgi_web_server.Router.{
  Handler, post_handler, EndpointMethod, Endpoint, new_router, default_method,
}
use cgi_web_server.Tests.Helpers.{Without-of_avoids}
use cgi_web_server.Text.Number.{to_string}
use cgi_web_server.Tests.Documents.{all_well}
use cgi_web_server.Text.{Bytes, bytes_keys, codes}

-- A token library whose tokens are the names of the roles.
abbrev plain_tokens : Jwt
plain_tokens = record {
  Token = Bytes;
  decode = λ s. some s;
  verify = λ secret issuer t. true;
  is_expired = λ t. false;
  role_claim = λ t. some t;
  sign = λ secret issuer role. role;
}

abbrev config : Config
config = record { secret = codes "s"; server_name = codes "n"; roles = default_roles }

abbrev world : World
world = record {
  client_ip = codes "1.2.3.4";
  read = (no_error, codes "garbage");
  writes = λ before s. record { error = no_error; bytes = length s } ∷ [];
  read_fails = λ path at. false;
  run_script = λ path input. record { spawning = all_well; chunks = []; ends = true };
  file_exists = λ s. false;
  read_file = λ s. none;
  parse_json = λ s. parsed;
  steady = 70;
  epoch = 1000;
  date = codes "today";
}

abbrev login_route : EndpointMethod
login_route = record (default_method (codes "login.cgi") post post_handler) {
  is_authenticator = true;
  auth_role = user;
  has_script = true;
}

abbrev guarded_route : EndpointMethod
guarded_route = record (default_method (codes "secret.cgi") post post_handler) {
  is_protected = true;
  access_role = user;
}

abbrev login_endpoint : Endpoint
login_endpoint = record { methods = (post, login_route) ∷ []; endpoint = [] }

abbrev login_request : Request
login_request = record new_request {
  method = post;
  endpoint = some login_endpoint;
  route = some login_route;
  headers = (codes "Cookie", codes "jwt=admin") ∷ [];
}

abbrev state : State
state = record {
  txn = record new_transaction { request = login_request };
  router = new_router;
  limiters = (0, fixed_window default_window by_ip []) ∷ [];
  sent = [];
  logged = [];
}

-- A handler that does nothing, and one that does not return.
abbrev quiet : Handler → Action
quiet h s = finished (returns tt) s

abbrev dead : Handler → Action
dead h s = crashed

run_pipeline-IsAllowed_example :
    ((s1 : State) × (route : EndpointMethod) × (run_pipeline plain_tokens config world quiet
          (drop 2 (load_pipeline none true))
          (with_address world state)
        ≡ finished (returns tt) s1)
      × (s1.txn.request.route ≡ some route)
      × IsAllowed plain_tokens config s1.txn.request route)
    ⊎ (run_pipeline plain_tokens config world quiet (load_pipeline none true) state
        ≡ run_pipeline plain_tokens config world dead (load_pipeline none true) state)
run_pipeline-IsAllowed_example =
    run_pipeline-IsAllowed plain_tokens config world quiet dead none true state

validate-IsAllowed_example :
    ((validate plain_tokens config login_request guarded_route ≡ returns tt)
      × IsAllowed plain_tokens config login_request guarded_route)
    ⊎ ((validate plain_tokens config login_request guarded_route ≡ http_error Status.unauthorized)
        × ¬ IsAllowed plain_tokens config login_request guarded_route)
validate-IsAllowed_example = validate-IsAllowed plain_tokens config login_request guarded_route

run_pipeline-returns_example :
    (run_pipeline plain_tokens config world quiet (load_pipeline (some 0) true) state ≡ crashed)
    ⊎ ((s0 : State) × (result : Result (Unit {0})) × (finish quiet (
            run_pipeline plain_tokens config world quiet
              (drop 2 (load_pipeline (some 0) true))
              (with_address world state))
          ≡ finished result s0)
        × Ends plain_tokens config world quiet s0
            (run_pipeline plain_tokens config world quiet (load_pipeline (some 0) true) state))
run_pipeline-returns_example =
    run_pipeline-returns plain_tokens config world quiet (some 0) true state

abbrev bad_request : Response
bad_request = exception_response Status.bad_request []

abbrev state_read : State
state_read = record state {
  txn = record state.txn {
    buffer = codes "garbage";
    log_entry = record state.txn.log_entry { client_addr = codes "1.2.3.4" };
  };
}

garbage_thrown :
    run_pipeline plain_tokens config world quiet
      (drop 2 (load_pipeline none true))
      (with_address world state)
    ≡ finished (throws (http_exception bad_request)) state_read
unfolding run_pipeline process load_pipeline with_address parse parse_request has_failed
    extract_endpoint
garbage_thrown = refl

abbrev bad_request_written : WriteStatus
bad_request_written = record {
  status = Status.ok;
  bytes = length (build (codes "today") bad_request).1;
}

all_sent : written world [] (build (codes "today") bad_request).1 ≡ some bad_request_written
unfolding written co_write_all write_loop build exception_response Status.get_status_msg insert
    is_permanent_failure
all_sent = refl

run_pipeline-http_exception_example :
    (s1 : State) × (entry : SessionEntry) × (run_pipeline plain_tokens config world quiet
        (load_pipeline none true)
        state
      ≡ finished (returns tt) s1)
    × (s1.sent ≡ [] ++ (build (codes "today") bad_request).1 ∷ [])
    × (s1.logged ≡ [] ++ entry ∷ [])
    × (entry.response ≡ bad_request.status_msg)
    × (entry.is_error ≡ not (is_success_code bad_request.status))
unfolding lookup
run_pipeline-http_exception_example =
    run_pipeline-http_exception plain_tokens config world quiet none true state state_read
      bad_request bad_request_written garbage_thrown refl all_sent

default_window-IsSetting : IsSetting default_window 3000
default_window-IsSetting = record {
  limit = refl;
  limit_pos = ground arith;
  limit_fits = ground arith;
  window_pos = ground arith;
}

limiter_found : lookup 0 state.limiters ≡ some (fixed_window default_window by_ip [])
unfolding lookup
limiter_found = refl

process_limiter-window_example :
    ((3000 ≤ used default_window 70 (find_client (world.client_ip) []))
      × (s' : State) × (process_limiter world 0 (λ s. finished (returns tt) s) state
          ≡ finished (too_many (retry_after default_window 70)) s'))
    ⊎ ((used default_window 70 (find_client (world.client_ip) []) < 3000)
        × (cell : ℕ) × (r : Response) × (used default_window 70 cell
            ≡ used default_window 70 (find_client (world.client_ip) []) + 1)
        × (lookup (codes "X-RateLimit-Remaining") r.headers
            ≡ some (to_string (3000 - used default_window 70 cell)))
        × (process_limiter world 0 (λ s. finished (returns tt) s) state
            ≡ finished (returns tt) (
                set_response r (
                  set_limiter 0
                    (fixed_window default_window by_ip (insert world.client_ip cell []))
                    state))))
unfolding make_key
process_limiter-window_example =
    process_limiter-window world 0 3000 default_window by_ip world.client_ip []
      (λ s. finished (returns tt) s) state limiter_found refl default_window-IsSetting

plain_tokens-IsJwt : IsJwt plain_tokens config.secret config.server_name admin
plain_tokens-IsJwt = record {
  token = admin;
  decodes = refl;
  verifies = refl;
  is_fresh = refl;
  holds = refl;
  is_text = refl;
  has_no_end = Without-of_avoids b';' admin refl;
}

admin_found : find_role config.roles admin ≡ some admin_role
unfolding find_role default_roles lookup insert
admin_found = refl

admin_includes : includes_role admin_role user ≡ true
unfolding includes_role contains
admin_includes = refl

cookie_sent : get_header (codes "Cookie") login_request ≡ [] ++ (codes "jwt=" ++ admin)
unfolding get_header lookup
cookie_sent = refl

validate-sign_example : validate plain_tokens config login_request guarded_route ≡ returns tt
validate-sign_example =
    validate-sign plain_tokens config login_request guarded_route admin [] admin_role
      plain_tokens-IsJwt tt cookie_sent admin_found admin_includes
