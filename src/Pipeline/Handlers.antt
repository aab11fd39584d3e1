-- ===== src/Pipeline/Handlers.antt =====
-- src/GetHandler.cpp, src/HeadHandler.cpp, src/PostHandler.cpp, src/OptionsHandler.cpp: the method
-- handlers, and `http::determine_content_type`.
pub mod Steps
pub mod Delivery
use cgi_web_server.Base.{
  ℕ, ◌+◌, Bool, true, false, not, ◌||◌, Option, none, some, List, [], ◌∷◌, ◌++◌, if◌then◌else◌,
  length, drop,
}
use cgi_web_server.Base.Int.{int_eq}
use cgi_web_server.Http.Method.{Method, method_enum_to_str}
use cgi_web_server.Http.Request.{extract_header_line, extract_headers, extract_body}
use cgi_web_server.Http.Response.{
  Response, Result, returns, throws, http_error, set_status, add_header, add_headers, build, ◌>>=◌,
}
use cgi_web_server.Http.Status
use cgi_web_server.Http.Status.{extract_status_code}
use cgi_web_server.Pipeline.Streams.{
  Step, ◌>>>◌, to_run, write, send, stream_string, open_file, stream_file, stream_script,
}
use cgi_web_server.Pipeline.{State, Run, finished, crashed, Action, World, set_txn, set_response}
use cgi_web_server.Router.{
  Endpoint, EndpointMethod, Handler, get_handler, head_handler, post_handler, options_handler,
  get_resource, get_methods,
}
use cgi_web_server.Text.Number.{to_string}
use cgi_web_server.Text.{Bytes, codes, equal, rfind}

abbrev pub file_extensions : List (Bytes × Bytes)
file_extensions =
    (codes ".html", codes "text/html")
    ∷ (codes ".css", codes "text/css")
    ∷ (codes ".js", codes "application/javascript")
    ∷ (codes ".png", codes "image/png")
    ∷ (codes ".jpg", codes "image/jpeg")
    ∷ (codes ".gif", codes "image/gif")
    ∷ (codes ".ico", codes "image/ico")
    ∷ (codes ".svg", codes "image/svg+xml")
    ∷ (codes ".pdf", codes "application/pdf")
    ∷ (codes ".txt", codes "text/plain")
    ∷ (codes ".woff", codes "font/woff")
    ∷ (codes ".woff2", codes "font/woff2")
    ∷ (codes ".ttf", codes "font/ttf")
    ∷ (codes ".otf", codes "font/otf")
    ∷ []

unfoldable pub find_extension : Bytes → List (Bytes × Bytes) → Option Bytes
find_extension extension [] = none
find_extension extension ((ext, content_type) ∷ later) =
    if equal extension ext then some content_type else find_extension extension later

-- No result where the code returns 403.
unfoldable pub determine_content_type : Bytes → Option Bytes
unfolding rfind find_extension
determine_content_type resource = elim (rfind b'.' resource) [
  | none ↦ none
  | some start ↦ find_extension (drop start resource) file_extensions
]

-- `Transaction::addBytes`
unfoldable pub add_bytes : ℕ → State → State
add_bytes n s =
    set_txn
      (record s.txn { log_entry = record s.txn.log_entry { bytes = s.txn.log_entry.bytes + n } }) s

-- The response of a chunk, as it is when nothing throws, and the text that is sent.
unfoldable pub chunk_response : Bytes → Bytes → Response → Result (Response × Bytes)
unfolding extract_header_line extract_status_code extract_headers extract_body add_header
    add_headers build
chunk_response date buffer r =
    let status = extract_status_code buffer in
    if int_eq status Status.bad_request || int_eq status Status.not_a_status
    then http_error Status.bad_gateway
    else (do
      body ← extract_body buffer
      headers ← extract_headers buffer
      returns (
          build date (
            add_header (codes "Connection") (codes "close") (
              add_headers headers (record r {
                status = status;
                status_msg = extract_header_line buffer;
                body = body;
              })))))

-- `chunk_callback` of GET and POST: every chunk is answered, for `first_read` stays true.
unfoldable pub chunk_callback : World → Bytes → State → Step (Unit {0})
unfolding chunk_response send set_response
chunk_callback w buffer s = elim (chunk_response w.date buffer s.txn.response) [
  | throws x ↦ (throws x, s)
  | returns (r, text) ↦ send w text (set_response r s) >>> λ bytes s'. (returns tt, s')
]

unfoldable pub run_script : World → Bytes → State → Step (Unit {0})
unfolding stream_script chunk_callback add_bytes
run_script w script s =
    stream_script w script s.txn.request.args (chunk_callback w) s >>> λ bytes s'.
    (returns tt, add_bytes bytes s')

-- `GetHandler::handleScript`
unfoldable pub handle_script : World → Endpoint → State → Step (Unit {0})
unfolding run_script get_resource
handle_script w endpoint s = elim (get_resource endpoint s.txn.request.method) [
  | throws x ↦ (throws x, s)
  | returns script ↦ run_script w script s
]

-- `GetHandler::handleFile`: the size of the file comes too late for the head, and under the name
-- of its type.
unfoldable pub handle_file : World → EndpointMethod → State → Step (Unit {0})
unfolding determine_content_type set_status add_header build stream_string open_file stream_file
    add_bytes set_response
handle_file w route s = elim (determine_content_type route.resource) [
  | none ↦ (http_error Status.forbidden, s)
  | some content_type ↦
      let (r, head) = build w.date (
        add_header (codes "Content-Type") content_type (
          add_header (codes "Connection") (codes "close") (set_status Status.ok s.txn.response))) in
      stream_string w head (set_response r s) >>> λ head_bytes s1.
      (open_file w route.resource, s1) >>> λ content s2.
      stream_file w route.resource content (
        set_response
          (add_header (codes "Content-Type") (to_string (length content)) s2.txn.response) s2)
      >>> λ bytes s3. (returns tt, add_bytes (bytes + head_bytes) s3)
]

-- `GetHandler::handle`
unfoldable pub handle_get : World → Action
unfolding handle_script handle_file
handle_get w s = elim (s.txn.request.endpoint) [
  | none ↦ finished (http_error Status.service_unavailable) s
  | some endpoint ↦ elim (s.txn.request.route) [
    | none ↦ finished (http_error Status.service_unavailable) s
    | some route ↦ elim (route.has_script) [
      | true ↦ to_run (handle_script w endpoint s)
      | false ↦ to_run (handle_file w route s)
    ]
  ]
]

-- `HeadHandler::buildResponse`
unfoldable pub build_head : World → Endpoint → EndpointMethod → Response → Method → Result Response
unfolding open_file get_resource determine_content_type set_status add_header
build_head w endpoint route r method = do
  content ← open_file w route.resource
  resource ← get_resource endpoint method
  elim (determine_content_type resource) [
    | none ↦ http_error Status.forbidden
    | some content_type ↦ returns (
        add_header (codes "Content-Length") (to_string (length content)) (
          add_header (codes "Content-Type") content_type
            (add_header (codes "Connection") (codes "close") (set_status Status.ok r))))
  ]

-- `HeadHandler::handle`, behind its first test
unfoldable pub send_head : World → Endpoint → EndpointMethod → State → Step (Unit {0})
unfolding build_head stream_string add_bytes set_response
send_head w endpoint route s =
    (build_head w endpoint route s.txn.response s.txn.request.method, s) >>> λ r s1.
    let (built, head) = build w.date r in
    stream_string w head (set_response built s1) >>> λ bytes s2. (returns tt, add_bytes bytes s2)

unfoldable pub handle_head : World → Action
unfolding send_head
handle_head w s = elim (s.txn.request.endpoint) [
  | none ↦ finished (http_error Status.service_unavailable) s
  | some endpoint ↦ elim (s.txn.request.route) [
    | none ↦ finished (http_error Status.service_unavailable) s
    | some route ↦ elim (route.has_script) [
      | true ↦ finished (http_error Status.service_unavailable) s
      | false ↦ to_run (send_head w endpoint route s)
    ]
  ]
]

-- `PostHandler::handle`
unfoldable pub handle_post : World → Action
unfolding run_script
handle_post w s = elim (s.txn.request.endpoint) [
  | none ↦ finished (http_error Status.service_unavailable) s
  | some endpoint ↦ elim (s.txn.request.route) [
    | none ↦ finished (http_error Status.service_unavailable) s
    | some route ↦ elim (route.has_script) [
      | true ↦ to_run (run_script w route.resource s)
      | false ↦ finished (http_error Status.service_unavailable) s
    ]
  ]
]

-- The names of the methods with ", " between them.
unfoldable pub get_methods_str : List Method → Bytes
unfolding method_enum_to_str
get_methods_str [] = []
get_methods_str (m ∷ []) = method_enum_to_str m
get_methods_str (m ∷ n ∷ later) =
    method_enum_to_str m ++ (codes ", " ++ get_methods_str (n ∷ later))

-- `OptionsHandler::handle`: one write, whatever comes of it.
unfoldable pub handle_options : World → Action
unfolding get_methods get_methods_str add_header build write set_response
handle_options w s = elim (s.txn.request.endpoint) [
  | none ↦ finished (http_error Status.internal_server_error) s
  | some endpoint ↦
      let (r, text) = build w.date (
        add_header (codes "Connection") (codes "close") (
          add_header (codes "Content-Length") (codes "0") (
            add_header (codes "Allow") (get_methods_str (get_methods endpoint)) s.txn.response))) in
      finished (returns tt) (write text (set_response r s))
]

-- The handler of a class of handlers.
unfoldable pub method_handler : World → Handler → Action
unfolding handle_get handle_head handle_post handle_options
method_handler w get_handler = handle_get w
method_handler w head_handler = handle_head w
method_handler w post_handler = handle_post w
method_handler w options_handler = handle_options w
