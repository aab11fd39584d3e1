-- ===== src/Pipeline/Stages/Parsing.antt =====
-- src/Middleware.cpp: what the parser makes of a request that is written well.
use cgi_web_server.Base.Assoc.{lookup}
use cgi_web_server.Base.{◌≡◌, refl, some, []}
use cgi_web_server.Http.Args.{extract_args}
use cgi_web_server.Http.Method.{method_str_to_enum, method_keys}
use cgi_web_server.Http.Request.HeaderBlock.{insert_all}
use cgi_web_server.Http.Request.Render.{
  Parts, IsWellFormed, render, render-IsTarget, get_request_target_iff, extract_method-render,
}
use cgi_web_server.Http.Request.RoundTrip.{first_line, extract_headers-render, extract_body-render}
use cgi_web_server.Http.Request.{
  path_of, query_of, get_request_target, extract_endpoint, extract_query_string,
}
use cgi_web_server.Http.Response.{returns}
use cgi_web_server.Pipeline.Stages.{parse_request}
use cgi_web_server.Pipeline.{Request, World}
use cgi_web_server.Router.{
  Router, Endpoint, EndpointMethod, get_endpoint, get_arg_type, get_method, get_endpoint_method,
}
use cgi_web_server.Text.{Bytes, bytes_keys}

-- The request as its parts, its endpoint and its route say.
abbrev pub request_of : Parts → Endpoint → EndpointMethod → Bytes → Request
request_of p endpoint route args = record {
  method = method_str_to_enum p.method;
  query = query_of p.target;
  args = args;
  endpoint_url = path_of p.target;
  endpoint = some endpoint;
  route = some route;
  headers = insert_all p.headers [];
  body = first_line p.content;
}

target_read : (p : Parts) → IsWellFormed p → get_request_target (render p) ≡ returns p.target
target_read p well = (get_request_target_iff (render p) p.target).1 (render-IsTarget p well)

extract_endpoint-render :
    (p : Parts) → IsWellFormed p → extract_endpoint (render p) ≡ returns (path_of p.target)
unfolding extract_endpoint
extract_endpoint-render p well = rw (target_read p well, extract_endpoint) refl

extract_query_string-render :
    (p : Parts) → IsWellFormed p → extract_query_string (render p) ≡ returns (query_of p.target)
unfolding extract_query_string
extract_query_string-render p well = rw (target_read p well, extract_query_string) refl

-- The parser reads back what a client wrote: a request written from well-formed parts, on a
-- target and a method that the router knows and with arguments that its route takes, is parsed to
-- the method, the path, the query, the headers and the first line of the body that it was written
-- from, with that endpoint and route, and the router stays as it is.
pub parse_request-render :
    (w : World) (r : Router) (p : Parts) (endpoint : Endpoint) (route : EndpointMethod)
    (args : Bytes)
    → IsWellFormed p
    → lookup (path_of p.target) r.endpoints ≡ some endpoint
    → lookup (method_str_to_enum p.method) endpoint.methods ≡ some route
    → extract_args w.parse_json (render p) route.args ≡ returns args
    → parse_request w r (render p) ≡ (returns (request_of p endpoint route args), r)
unfolding parse_request get_endpoint get_arg_type get_endpoint_method get_method
parse_request-render w r p endpoint route args well known routed taken =
    let opened : get_endpoint w.file_exists r (path_of p.target) ≡ returns (r, endpoint) =
      rw (known, get_endpoint) refl in
    let wanted : get_arg_type endpoint (method_str_to_enum p.method) ≡ returns route.args =
      rw (routed, get_arg_type) refl in
    let chosen : get_method endpoint (method_str_to_enum p.method) ≡ returns route =
      rw (routed, get_method) refl in
    let found : get_endpoint_method w.file_exists r (path_of p.target) (method_str_to_enum p.method)
        ≡ returns (r, route) =
      rw (opened, get_endpoint_method, chosen) refl in
    rw
      (
        extract_endpoint-render p well,
        opened,
        extract_method-render p well,
        wanted,
        taken,
        extract_headers-render p well,
        extract_body-render p well,
        extract_query_string-render p well,
        found,
        parse_request,
      )
      refl
