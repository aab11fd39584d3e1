-- ===== src/Config/Routes.antt =====
-- src/config.cpp: the routes and the error pages that the configuration sets.
pub mod Sound
pub mod ErrorPages
use cgi_web_server.Base.Int.{int_eq}
use cgi_web_server.Base.{
  ℕ, zero, suc, Bool, true, false, not, ◌&&◌, ◌||◌, Option, none, some, List, [], ◌∷◌, ◌++◌,
  if◌then◌else◌, length,
}
use cgi_web_server.Config.Limiters.{load_limiter}
use cgi_web_server.Config.Roles.{admin, viewer}
use cgi_web_server.Config.Xml.{Xml, first_child, or_empty}
use cgi_web_server.Http.Method
use cgi_web_server.Http.Method.{ArgType, arg_str_to_enum, method_str_to_enum, method_eq}
use cgi_web_server.Http.Response.{returns, throws}
use cgi_web_server.Http.Status
use cgi_web_server.Http.Status.{Code, code_str_to_enum}
use cgi_web_server.Pipeline.{Limiter}
use cgi_web_server.Router.{EndpointMethod, Handler, Router, update_endpoint, add_error_page}
use cgi_web_server.Text.{Bytes, codes, equal, is_empty}

-- What `loadRoutes` fills: the router, and the limiters that its routes refer to.
pub record Loaded : Type 0 where
  pub router : Router
  pub limiters : List (ℕ × Limiter)

-- The text of an attribute, or a default where it is missing or empty.
unfoldable pub non_empty_or : Bytes → Option Bytes → Bytes
non_empty_or default attr = if is_empty (or_empty attr) then default else or_empty attr

unfoldable pub is_true : Option Bytes → Bool
is_true none = false
is_true (some s) = equal s (codes "true")

unfoldable pub script_path : Bytes → Option Bytes → Bytes
script_path content_path none = []
script_path content_path (some script) = content_path ++ b'/' ∷ script

unfoldable pub read_args : Option Bytes → ArgType
unfolding arg_str_to_enum
read_args none = ArgType.none
read_args (some args) = arg_str_to_enum args

module _ (x : Xml) (content_path : Bytes) where
  unfoldable pub read_endpoint_url : x.Element → Bytes
  unfolding non_empty_or
  read_endpoint_url route_el = non_empty_or (b'/' ∷ []) (x.attribute route_el (codes "endpoint"))

  -- The method without its limiter and its handler, which `updateEndpoint` sets.
  unfoldable pub read_method : x.Element → EndpointMethod
  unfolding non_empty_or is_true script_path read_args method_str_to_enum
  read_method route_el =
      let resource = script_path content_path (x.attribute route_el (codes "script")) in
      let is_protected = is_true (x.attribute route_el (codes "protected")) in
      let is_authenticator = is_true (x.attribute route_el (codes "authenticator")) in
      record {
        m = method_str_to_enum (or_empty (x.attribute route_el (codes "method")));
        access_role =
            if is_protected
            then non_empty_or admin (x.attribute route_el (codes "access_role"))
            else viewer;
        auth_role =
            if is_authenticator
            then non_empty_or viewer (x.attribute route_el (codes "auth_role"))
            else [];
        is_protected = is_protected;
        is_authenticator = is_authenticator;
        resource = resource;
        has_script = not (is_empty resource);
        args = read_args (x.attribute route_el (codes "args"));
        handler = Handler.get_handler;
        rate_limiter = none;
      }

  -- The limiter of a route gets the next number. No result: its window overflows.
  unfoldable pub read_limiter :
      x.Element → EndpointMethod → List (ℕ × Limiter) → Option (EndpointMethod × List (ℕ × Limiter))
  unfolding load_limiter first_child
  read_limiter route_el method limiters = elim (first_child x route_el (codes "RateLimit")) [
    | none ↦ some (method, limiters)
    | some rate_limit_el ↦ elim (load_limiter x rate_limit_el) [
      | none ↦ none
      | some (limiter, uses_ip) ↦
          let id = length limiters in
          some (record method { rate_limiter = some id }, (id, limiter) ∷ limiters)
    ]
  ]

  -- One round of the loop; a route without a method that is known is left out.
  unfoldable pub load_route : x.Element → Loaded → Option Loaded
  unfolding read_method read_endpoint_url read_limiter update_endpoint
  load_route route_el loaded =
      let url = read_endpoint_url route_el in
      let method = read_method route_el in
      elim (not (method_eq method.m Method.not_allowed) && not (is_empty url)) [
        | false ↦ some loaded
        | true ↦ elim (read_limiter route_el method loaded.limiters) [
          | none ↦ none
          | some (limited, limiters) ↦ elim (update_endpoint url limited loaded.router) [
            | throws e ↦ none
            | returns router ↦ some (record { router = router; limiters = limiters })
          ]
        ]
      ]

  unfoldable pub load_each_route : List x.Element → Loaded → Option Loaded
  unfolding load_route
  load_each_route [] loaded = some loaded
  load_each_route (el ∷ els) loaded = elim (load_route el loaded) [
    | none ↦ none
    | some loaded' ↦ load_each_route els loaded'
  ]

  -- `config` is the `ServerConfig` element.
  unfoldable pub load_routes : x.Element → Loaded → Option Loaded
  unfolding load_each_route first_child
  load_routes config loaded = elim (first_child x config (codes "Routes")) [
    | none ↦ some loaded
    | some doc_routes ↦ load_each_route (x.children doc_routes (codes "Route")) loaded
  ]

module _ (x : Xml) where
  -- What an `ErrorPage` element adds to the router.
  unfoldable pub load_error_page : x.Element → Router → Router
  unfolding add_error_page code_str_to_enum
  load_error_page error_pg r =
      let status = code_str_to_enum (x.attribute error_pg (codes "code")) in
      let file = or_empty (x.attribute error_pg (codes "file")) in
      if int_eq status Status.not_a_status || is_empty file then r else add_error_page status file r

  -- The loop, which goes on with the sibling of `ErrorPages`. No result: the rounds are spent.
  unfoldable pub load_error_pages_from : ℕ → x.Element → Option x.Element → Router → Option Router
  unfolding load_error_page
  load_error_pages_from fuel error_pg_elem none r = some r
  load_error_pages_from zero error_pg_elem (some error_pg) r = none
  load_error_pages_from (suc fuel) error_pg_elem (some error_pg) r =
      load_error_pages_from fuel error_pg_elem (x.next_sibling error_pg_elem (codes "ErrorPage"))
        (load_error_page error_pg r)

  unfoldable pub load_error_pages : ℕ → x.Element → Router → Option Router
  unfolding load_error_pages_from first_child
  load_error_pages fuel config r = elim (first_child x config (codes "ErrorPages")) [
    | none ↦ some r
    | some error_pg_elem ↦
        load_error_pages_from fuel error_pg_elem (first_child x error_pg_elem (codes "ErrorPage")) r
  ]
