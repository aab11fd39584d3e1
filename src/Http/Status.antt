-- ===== src/Http/Status.antt =====
-- src/http.h, src/http.cpp: status codes. A code is any `int`, as `static_cast<http::code>` makes
-- one from what a script or the configuration says; the enumerators are constants.
pub mod Laws
use cgi_web_server.Base.Int.{ℤ, pos, negsuc}
use cgi_web_server.Base.{
  ℕ, ◌+◌, ◌-◌, Bool, false, ◌&&◌, Option, none, some, List, [], ◌∷◌, ltb, leb, ◌==◌, if◌then◌else◌,
}
use cgi_web_server.Text.Number.{stoi}
use cgi_web_server.Text.{Bytes, codes, find, find_at, substr}

abbrev pub Code : Type 0
Code = ℤ

abbrev pub not_a_status : Code
not_a_status = negsuc 0

abbrev pub ok : Code
ok = pos 200

abbrev pub bad_request : Code
bad_request = pos 400

abbrev pub unauthorized : Code
unauthorized = pos 401

abbrev pub forbidden : Code
forbidden = pos 403

abbrev pub not_found : Code
not_found = pos 404

abbrev pub method_not_allowed : Code
method_not_allowed = pos 405

abbrev pub unsupported_media_type : Code
unsupported_media_type = pos 415

abbrev pub too_many_requests : Code
too_many_requests = pos 429

abbrev pub client_closed_request : Code
client_closed_request = pos 499

abbrev pub internal_server_error : Code
internal_server_error = pos 500

abbrev pub not_implemented : Code
not_implemented = pos 501

abbrev pub bad_gateway : Code
bad_gateway = pos 502

abbrev pub service_unavailable : Code
service_unavailable = pos 503

abbrev pub gateway_timeout : Code
gateway_timeout = pos 504

abbrev pub insufficient_storage : Code
insufficient_storage = pos 507

-- The status line of an enumerator; any other code has that of 500.
unfoldable pub status_line : ℕ → Bytes
status_line n =
    if n == 200
    then codes "HTTP/1.1 200 OK"
    else if n == 201
    then codes "HTTP/1.1 201 Created"
    else if n == 202
    then codes "HTTP/1.1 202 Accepted"
    else if n == 204
    then codes "HTTP/1.1 204 No Content"
    else if n == 301
    then codes "HTTP/1.1 301 Moved Permanently"
    else if n == 302
    then codes "HTTP/1.1 302 Found"
    else if n == 303
    then codes "HTTP/1.1 303 See Other"
    else if n == 304
    then codes "HTTP/1.1 304 Not Modified"
    else if n == 400
    then codes "HTTP/1.1 400 Bad Request"
    else if n == 401
    then codes "HTTP/1.1 401 Unauthorized"
    else if n == 403
    then codes "HTTP/1.1 403 Forbidden"
    else if n == 404
    then codes "HTTP/1.1 404 Not Found"
    else if n == 405
    then codes "HTTP/1.1 405 Method Not Allowed"
    else if n == 415
    then codes "HTTP/1.1 415 Unsupported Media Type"
    else if n == 429
    then codes "HTTP/1.1 429 Too Many Requests"
    else if n == 499
    then codes "HTTP/1.1 499 Client Closed Request"
    else if n == 500
    then codes "HTTP/1.1 500 Internal Server Error"
    else if n == 501
    then codes "HTTP/1.1 501 Not Implemented"
    else if n == 502
    then codes "HTTP/1.1 502 Bad Gateway"
    else if n == 503
    then codes "HTTP/1.1 503 Service Unavailable"
    else if n == 504
    then codes "HTTP/1.1 504 Gateway Timeout"
    else if n == 507
    then codes "HTTP/1.1 507 Insufficient Storage"
    else codes "HTTP/1.1 500 Internal Server Error"

unfoldable pub get_status_msg : Code → Bytes
unfolding status_line
get_status_msg (pos n) = status_line n
get_status_msg (negsuc n) = codes "HTTP/1.1 500 Internal Server Error"

-- `status >= OK && status < Bad_Request`
unfoldable pub is_success_code : Code → Bool
is_success_code (pos n) = leb 200 n && ltb n 400
is_success_code (negsuc n) = false

-- A null pointer and a text that is no `int` give `Not_A_Status`.
unfoldable pub code_str_to_enum : Option Bytes → Code
unfolding stoi
code_str_to_enum none = not_a_status
code_str_to_enum (some s) = elim (stoi s) [ none ↦ not_a_status | some n ↦ n ]

-- The code in a status line: the number between its first two spaces.
unfoldable pub extract_status_code : Bytes → Code
unfolding find stoi
extract_status_code response = elim (find (b' ' ∷ []) response) [
  | none ↦ bad_request
  | some version_end ↦ elim (find_at (b' ' ∷ []) response (version_end + 1)) [
    | none ↦ bad_gateway
    | some status_code_end ↦
        elim (stoi (substr response (version_end + 1) (status_code_end - (version_end + 1)))) [
          | none ↦ bad_gateway
          | some n ↦ n
        ]
  ]
]

-- The enumerators, without `Not_A_Status`.
pub enumerators : List ℕ
enumerators =
    200 ∷ 201 ∷ 202 ∷ 204 ∷ 301 ∷ 302 ∷ 303 ∷ 304 ∷ 400 ∷ 401 ∷ 403 ∷ 404 ∷ 405 ∷ 415 ∷ 429 ∷ 499
    ∷ 500 ∷ 501 ∷ 502 ∷ 503 ∷ 504 ∷ 507 ∷ []
