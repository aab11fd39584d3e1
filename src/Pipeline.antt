-- ===== src/Pipeline.antt =====
-- src/Transaction.h, src/http.h (Request), src/Middleware.h: a transaction, what the middlewares
-- share, and what they take from outside.
pub mod Streams
pub mod Handlers
pub mod Pages
pub mod Auth
pub mod Keys
pub mod Ready
pub mod Limiting
pub mod Stages
pub mod Session
use cgi_web_server.Base.Assoc.{Eq, lookup, insert}
use cgi_web_server.Base.{ℕ, Bool, Option, none, some, List, [], ◌∷◌, ◌==◌, ==_iff}
use cgi_web_server.Config.Keys.{KeyFunc}
use cgi_web_server.Config.Roles.{Roles}
use cgi_web_server.Http.Args.{Parsing}
use cgi_web_server.Http.Io.{ErrorCode, Written}
use cgi_web_server.Http.Method.{Method, not_allowed}
use cgi_web_server.Http.Response.{
  Headers, Response, default_response, Exception, Result, returns, throws,
}
use cgi_web_server.Limit.Bucket.{TokenBucketSetting}
use cgi_web_server.Limit.Window.{FixedWindowSetting}
use cgi_web_server.Router.{Endpoint, EndpointMethod, Handler, Router}
use cgi_web_server.Text.{Bytes, bytes_keys}

instance abbrev pub nat_keys : Eq ℕ
nat_keys = record { beq = λ a b. a == b; beq_iff = ==_iff }

-- `endpoint` and `route` are null until the parser sets the request.
pub record Request : Type 0 where
  pub method : Method
  pub query : Bytes
  pub args : Bytes
  pub endpoint_url : Bytes
  pub endpoint : Option Endpoint
  pub route : Option EndpointMethod
  pub headers : Headers
  pub body : Bytes

abbrev pub new_request : Request
new_request = record {
  method = not_allowed;
  query = [];
  args = [];
  endpoint_url = [];
  endpoint = none;
  route = none;
  headers = [];
  body = [];
}

-- `Request::getHeader`
unfoldable pub get_header : Bytes → Request → Bytes
get_header key request = elim (lookup key request.headers) [ none ↦ [] | some value ↦ value ]

-- `logger::SessionEntry`, without its times.
pub record SessionEntry : Type 0 where
  pub is_error : Bool
  pub bytes : ℕ
  pub user_agent : Bytes
  pub request : Bytes
  pub response : Bytes
  pub client_addr : Bytes

pub record Transaction : Type 0 where
  pub buffer : Bytes
  pub request : Request
  pub response : Response
  pub log_entry : SessionEntry

-- The limiters keep one word for each key, next to their setting and its key function.
pub data Limiter : Type 0 where
  fixed_window : FixedWindowSetting → KeyFunc → List (Bytes × ℕ) → Limiter
  token_bucket : TokenBucketSetting → KeyFunc → List (Bytes × ℕ) → Limiter

-- What a request reads and writes: its transaction, the router and the limiters that all requests
-- share, the buffers given to the socket, and the entries given to the logger.
pub record State : Type 0 where
  pub txn : Transaction
  pub router : Router
  pub limiters : List (ℕ × Limiter)
  pub sent : List Bytes
  pub logged : List SessionEntry

-- How a coroutine ends: it returns or throws, or never comes back, in a state that the others go on
-- from, or the process does not survive it (a null pointer, a division by zero).
pub data Run : Type 0 where
  finished : Result (Unit {0}) → State → Run
  crashed : Run

abbrev pub Action : Type 0
Action = State → Run

-- The part of jwt-cpp that is called, with the secret and the issuer.
pub record Jwt : Type 1 where
  pub Token : Type 0
  -- `jwt::decode`, which throws where there is no result
  pub decode : Bytes → Option Token
  -- whether `verifier.verify` returns
  pub verify : Bytes → Bytes → Token → Bool
  -- `has_expires_at()` and a time of expiration before now
  pub is_expired : Token → Bool
  -- the claim "role" as a string; each call throws where there is no result
  pub role_claim : Token → Option Bytes
  -- an HS256 token for the subject "auth-token", with the claim "role", that lives an hour
  pub sign : Bytes → Bytes → Bytes → Bytes

-- The configuration that the middlewares read.
pub record Config : Type 0 where
  pub secret : Bytes
  pub server_name : Bytes
  pub roles : Roles

-- Which of the calls that start a process succeed: `pipe` twice, the file actions, `posix_spawn`
-- and the `write` of the input.
pub record Spawning : Type 0 where
  pub stdin_pipe : Bool
  pub stdout_pipe : Bool
  pub adds_stdin_dup2 : Bool
  pub adds_stdout_dup2 : Bool
  pub adds_stdin_close : Bool
  pub adds_stdout_close : Bool
  pub spawns : Bool
  pub writes : Bool

-- A process: how it starts, what the reads of its output give, and whether they end at the end of
-- the output or with an error.
pub record Script : Type 0 where
  pub spawning : Spawning
  pub chunks : List Bytes
  pub ends : Bool

-- The socket, the file system and the clocks, as one request meets them.
pub record World : Type 0 where
  pub client_ip : Bytes
  -- what `co_read` gives
  pub read : ErrorCode × Bytes
  -- what the writes that `co_write_all` makes for a buffer come back with, after the buffers that
  -- were given before; where its loop never ends, the first of them
  pub writes : List Bytes → Bytes → List Written
  pub file_exists : Bytes → Bool
  -- what a file holds that can be opened, and whether a read at an offset fails
  pub read_file : Bytes → Option Bytes
  pub read_fails : Bytes → ℕ → Bool
  -- a script with its input
  pub run_script : Bytes → Bytes → Script
  -- `nlohmann::json::parse`
  pub parse_json : Bytes → Parsing
  -- seconds of `steady_clock` and of `system_clock`
  pub steady : ℕ
  pub epoch : ℕ
  -- `get_time_stamp()`
  pub date : Bytes

abbrev pub set_txn : Transaction → State → State
set_txn t s = record s { txn = t }

unfoldable pub set_response : Response → State → State
set_response r s = set_txn (record s.txn { response = r }) s

unfoldable pub set_request : Request → State → State
set_request r s = set_txn (record s.txn { request = r }) s

-- A transaction as `Session::start` makes it.
abbrev pub new_transaction : Transaction
new_transaction = record {
  buffer = [];
  request = new_request;
  response = default_response;
  log_entry = record {
    is_error = Bool.true;
    bytes = 0;
    user_agent = [];
    request = [];
    response = [];
    client_addr = [];
  };
}
