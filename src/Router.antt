-- ===== src/Router.antt =====
-- src/Router.h, src/Router.cpp: endpoints, their methods and the error pages. A handler is the name
-- of the class that handles; `file_exists` is the test on the file system.
pub mod Endpoints
use cgi_web_server.Base.Assoc.{lookup, insert}
use cgi_web_server.Base.Int.{int_keys}
use cgi_web_server.Base.{
  ℕ, Bool, true, false, ◌||◌, Option, none, some, List, [], ◌∷◌, ◌++◌, map, if◌then◌else◌, not,
}
use cgi_web_server.Config.Roles.{viewer}
use cgi_web_server.Http.Method.{Method, get, head, post, options, not_allowed, method_keys, ArgType}
use cgi_web_server.Http.Response.{Result, returns, throws, http_error, ◌>>=◌}
use cgi_web_server.Http.Status
use cgi_web_server.Http.Status.{Code}
use cgi_web_server.Text.{Bytes, bytes_keys, codes}

pub data Handler : Type 0 where
  get_handler head_handler post_handler options_handler : Handler

-- A rate limiter of the route is a reference to one of the limiters that the configuration made.
pub record EndpointMethod : Type 0 where
  pub m : Method
  pub access_role : Bytes
  pub auth_role : Bytes
  pub is_protected : Bool
  pub is_authenticator : Bool
  pub resource : Bytes
  pub has_script : Bool
  pub args : ArgType
  pub handler : Handler
  pub rate_limiter : Option ℕ

pub record Endpoint : Type 0 where
  pub methods : List (Method × EndpointMethod)
  pub endpoint : Bytes

abbrev pub new_endpoint : Endpoint
new_endpoint = record { methods = []; endpoint = [] }

unfoldable pub set_endpoint_url : Bytes → Endpoint → Endpoint
set_endpoint_url url e = record e { endpoint = url }

unfoldable pub add_method : EndpointMethod → Endpoint → Endpoint
add_method method e = record e { methods = insert method.m method e.methods }

unfoldable pub get_method : Endpoint → Method → Result EndpointMethod
get_method e m = elim (lookup m e.methods) [
  | none ↦ http_error Status.method_not_allowed
  | some method ↦ returns method
]

unfoldable pub is_method_protected : Endpoint → Method → Result Bool
is_method_protected e m = elim (lookup m e.methods) [
  | none ↦ http_error Status.method_not_allowed
  | some method ↦ returns method.is_protected
]

unfoldable pub has_script : Endpoint → Method → Result Bool
has_script e m = elim (lookup m e.methods) [
  | none ↦ http_error Status.method_not_allowed
  | some method ↦ returns method.has_script
]

unfoldable pub get_arg_type : Endpoint → Method → Result ArgType
get_arg_type e m = elim (lookup m e.methods) [
  | none ↦ http_error Status.method_not_allowed
  | some method ↦ returns method.args
]

unfoldable pub get_auth_role : Endpoint → Method → Result Bytes
get_auth_role e m = elim (lookup m e.methods) [
  | none ↦ http_error Status.method_not_allowed
  | some method ↦ returns method.auth_role
]

unfoldable pub is_method_authenticator : Endpoint → Method → Result Bool
is_method_authenticator e m = elim (lookup m e.methods) [
  | none ↦ http_error Status.method_not_allowed
  | some method ↦ returns method.is_authenticator
]

unfoldable pub get_resource : Endpoint → Method → Result Bytes
get_resource e m = elim (lookup m e.methods) [
  | none ↦ http_error Status.method_not_allowed
  | some method ↦ returns method.resource
]

unfoldable pub get_access_role : Endpoint → Method → Result Bytes
get_access_role e m = elim (lookup m e.methods) [
  | none ↦ http_error Status.method_not_allowed
  | some method ↦ returns method.access_role
]

unfoldable pub assign_handler : Method → Result Handler
assign_handler get = returns get_handler
assign_handler post = returns post_handler
assign_handler head = returns head_handler
assign_handler options = returns options_handler
assign_handler not_allowed = http_error Status.not_implemented

-- A missing GET or HEAD gets the handler of the method all the same.
unfoldable pub get_handler_of : Endpoint → Method → Result Handler
unfolding assign_handler
get_handler_of e m = elim (lookup m e.methods) [
  | none ↦ elim m [
    | get ↦ assign_handler get
    | head ↦ assign_handler head
    | _ ↦ http_error Status.method_not_allowed
  ]
  | some method ↦ returns method.handler
]

unfoldable pub get_methods : Endpoint → List Method
get_methods e = map (λ p. p.0) e.methods

-- `DEFAULT_ERROR_PAGE.handler`, or the handler that `addErrorPage` makes for a file.
pub data PageHandler : Type 0 where
  default_page : PageHandler
  file_page : Bytes → PageHandler

pub record Router : Type 0 where
  pub endpoints : List (Bytes × Endpoint)
  pub error_pages : List (Code × PageHandler)

abbrev pub default_method : Bytes → Method → Handler → EndpointMethod
default_method file m h = record {
  m = m;
  access_role = viewer;
  auth_role = [];
  is_protected = false;
  is_authenticator = false;
  resource = file;
  has_script = false;
  args = ArgType.none;
  handler = h;
  rate_limiter = none;
}

unfoldable pub create_default_endpoint_method : Bytes → Method → Result EndpointMethod
unfolding assign_handler
create_default_endpoint_method file m = do h ← assign_handler m; returns (default_method file m h)

abbrev pub root_file : Bytes
root_file = codes "public/index.html"

-- `Router()`: the endpoint "/".
abbrev pub new_router : Router
new_router = record {
  endpoints =
      (
        b'/' ∷ [],
        add_method (default_method root_file head head_handler)
            (add_method (default_method root_file get get_handler) new_endpoint),
      )
      ∷ [];
  error_pages = [];
}

-- The endpoint of a file under `public`.
unfoldable pub default_endpoint : Bytes → Result Endpoint
unfolding create_default_endpoint_method add_method
default_endpoint url = do
  g ← create_default_endpoint_method (codes "public" ++ url) get
  h ← create_default_endpoint_method (codes "public" ++ url) head
  returns (add_method h (add_method g new_endpoint))

-- The router after the call, and the endpoint. A router is not changed by a call that throws.
unfoldable pub get_endpoint : (Bytes → Bool) → Router → Bytes → Result (Router × Endpoint)
get_endpoint file_exists r url = elim (lookup url r.endpoints) [
  | some e ↦ returns (r, e)
  | none ↦ if not (file_exists (codes "public" ++ url)) then http_error Status.not_found else (do
    e ← default_endpoint url
    returns (record r { endpoints = insert url e r.endpoints }, e))
]

unfoldable pub get_endpoint_method :
    (Bytes → Bool) → Router → Bytes → Method → Result (Router × EndpointMethod)
get_endpoint_method file_exists r url m = do
  (r', e) ← get_endpoint file_exists r url
  method ← get_method e m
  returns (r', method)

unfoldable pub get_error_page : Router → Code → PageHandler
get_error_page r status = elim (lookup status r.error_pages) [
  | none ↦ default_page
  | some page ↦ page
]

unfoldable pub add_error_page : Code → Bytes → Router → Router
add_error_page status file r = record r {
  error_pages = insert status (file_page file) r.error_pages;
}

-- The endpoint of a URL grows by a method.
unfoldable pub update_endpoint : Bytes → EndpointMethod → Router → Result Router
update_endpoint url method r = do
  h ← assign_handler method.m
  let method' = record method { handler = h }
  elim (lookup url r.endpoints) [
    | none ↦
        returns (record r { endpoints = insert url (add_method method' new_endpoint) r.endpoints })
    | some e ↦ returns (record r { endpoints = insert url (add_method method' e) r.endpoints })
  ]
