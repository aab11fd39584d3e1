-- ===== src/Tests/Parsing.antt =====
-- Examples for the parser of src/Middleware.cpp.
use cgi_web_server.Base.Assoc.{lookup}
use cgi_web_server.Base.{◌≡◌, refl, ap, length, true, false, none, some, [], ◌∷◌}
use cgi_web_server.Http.Args.{
  parsed, is_valid_json, extract_args, get_args, get_content_type, extract_header_field,
  before_semicolon,
}
use cgi_web_server.Http.Io.{no_error}
use cgi_web_server.Http.Method.{post, body_json, method_str_to_enum, method_keys}
use cgi_web_server.Http.Request.Render.{render, block}
use cgi_web_server.Http.Request.{extract_body, body_start, line_end_from, path_of}
use cgi_web_server.Http.Response.{Result, returns, add_header, header_lines}
use cgi_web_server.Pipeline.Stages.Parsing.{request_of, parse_request-render}
use cgi_web_server.Pipeline.Stages.{
  parse_request, has_failed, log_session, rescue, load_pipeline, run_pipeline,
}
use cgi_web_server.Pipeline.Stages.Tokens.{IsLogin, parsed_state, run_pipeline-login}
use cgi_web_server.Pipeline.Auth.{set_cookie}
use cgi_web_server.Http.Status.{is_success_code}
use cgi_web_server.Pipeline.{
  Request, State, finished, Action, Jwt, Config, World, new_transaction, set_response,
}
use cgi_web_server.Router.{
  Handler, get_auth_role, get_handler_of, post_handler, EndpointMethod, Endpoint, Router,
  new_router, default_method,
}
use cgi_web_server.Tests.Documents.{all_well}
use cgi_web_server.Tests.Requests.{login, login-IsWellFormed}
use cgi_web_server.Text.{Bytes, bytes_keys, codes, find, to_lower}

abbrev world : World
world = record {
  client_ip = codes "1.2.3.4";
  read = (no_error, render login);
  writes = λ before s. record { error = no_error; bytes = length s } ∷ [];
  read_fails = λ path at. false;
  run_script = λ path input. record { spawning = all_well; chunks = []; ends = true };
  file_exists = λ s. false;
  read_file = λ s. none;
  parse_json = λ s. parsed;
  steady = 70;
  epoch = 1000;
  date = codes "today";
}

abbrev route : EndpointMethod
route = record (default_method (codes "login.cgi") post post_handler) {
  args = body_json;
  is_authenticator = true;
  auth_role = codes "user";
}

abbrev endpoint : Endpoint
endpoint = record { methods = (post, route) ∷ []; endpoint = codes "/login" }

abbrev router : Router
router = record new_router { endpoints = (codes "/login", endpoint) ∷ [] }

known : lookup (path_of login.target) router.endpoints ≡ some endpoint
unfolding lookup path_of find
known = refl

routed : lookup (method_str_to_enum login.method) endpoint.methods ≡ some route
unfolding lookup method_str_to_enum
routed = refl

-- The arguments are the first line of the body.
taken : extract_args (λ s. parsed) (render login) body_json ≡ returns (codes "{}")
unfolding extract_args is_valid_json get_args extract_body get_content_type extract_header_field
    before_semicolon body_start line_end_from find to_lower block header_lines
taken = refl

parse_request-render_example :
    parse_request world router (render login)
    ≡ (returns (request_of login endpoint route (codes "{}")), router)
parse_request-render_example =
    parse_request-render world router login endpoint route (codes "{}") login-IsWellFormed known
      routed taken

abbrev start : State
start = record { txn = new_transaction; router = router; limiters = []; sent = []; logged = [] }

-- A token library whose tokens are the names of the roles.
abbrev plain_tokens : Jwt
plain_tokens = record {
  Token = Bytes;
  decode = λ s. some s;
  verify = λ secret issuer token. true;
  is_expired = λ token. false;
  role_claim = λ token. some token;
  sign = λ secret issuer role. role;
}

abbrev config : Config
config = record { secret = codes "s"; server_name = codes "host"; roles = [] }

-- A handler that does nothing.
abbrev quiet : Handler → Action
quiet h s = finished (returns tt) s

login_arrives : has_failed no_error ≡ false
unfolding has_failed
login_arrives = refl

is_login : IsLogin world start (request_of login endpoint route (codes "{}")) endpoint route
unfolding method_str_to_enum
is_login = record {
  arrives = login_arrives;
  parsed =
      ap (λ (q : Result Request × Router). q.0)
        (parse_request-render world router login endpoint route (codes "{}") login-IsWellFormed
          known routed taken);
  at_endpoint = refl;
  at_route = refl;
  is_free = refl;
  is_open = refl;
  issues = refl;
}

login_role :
    get_auth_role endpoint (request_of login endpoint route (codes "{}")).method
    ≡ returns (codes "user")
unfolding get_auth_role lookup method_str_to_enum
login_role = refl

login_handler :
    get_handler_of endpoint (request_of login endpoint route (codes "{}")).method
    ≡ returns post_handler
unfolding get_handler_of lookup method_str_to_enum
login_handler = refl

fresh_success : is_success_code start.txn.response.status ≡ true
unfolding is_success_code
fresh_success = refl

run_pipeline-login_example :
    run_pipeline plain_tokens config world quiet (load_pipeline none true) start
    ≡ log_session (
        rescue world (
          quiet post_handler (
            set_response
              (add_header (codes "Set-Cookie") (set_cookie (codes "user")) start.txn.response)
              (parsed_state world (request_of login endpoint route (codes "{}")) start))))
run_pipeline-login_example =
    run_pipeline-login plain_tokens config world quiet true start
      (request_of login endpoint route (codes "{}")) endpoint route (codes "user") post_handler
      is_login login_role login_handler fresh_success
