-- ===== src/Http/Request.antt =====
-- src/http.cpp: the parts of a request, cut out of the bytes that the client sent.
pub mod Render
pub mod HeaderBlock
pub mod RoundTrip
use cgi_web_server.Base.Assoc.{insert}
use cgi_web_server.Base.{
  ℕ, zero, suc, ◌+◌, ◌-◌, Bool, true, false, Option, none, some, [], ◌∷◌, ltb, leb, ◌==◌,
  if◌then◌else◌, length, drop, take,
}
use cgi_web_server.Http.Method.{Method, method_str_to_enum}
use cgi_web_server.Http.Response.{Headers, Result, returns, throws, http_error, ◌>>=◌}
use cgi_web_server.Http.Status
use cgi_web_server.Text.{Bytes, bytes_keys, codes, find, find_at, substr, is_empty}

-- `http::extract_header_line` and `logger::get_header_line`.
unfoldable pub extract_header_line : Bytes → Bytes
unfolding find
extract_header_line buffer = elim (find (codes "\r\n") buffer) [
  | none ↦ []
  | some end ↦ substr buffer 0 end
]

unfoldable pub get_request_target : Bytes → Result Bytes
unfolding find
get_request_target req = elim (find (b' ' ∷ []) req) [
  | none ↦ http_error Status.bad_request
  | some a ↦ elim (find_at (b' ' ∷ []) req (a + 1)) [
    | none ↦ http_error Status.bad_request
    | some b ↦ returns (substr req (a + 1) (b - a - 1))
  ]
]

-- The target up to its `?`.
unfoldable pub path_of : Bytes → Bytes
unfolding find
path_of target = elim (find (b'?' ∷ []) target) [ none ↦ target | some qpos ↦ substr target 0 qpos ]

unfoldable pub extract_endpoint : Bytes → Result Bytes
unfolding get_request_target path_of
extract_endpoint buffer = do target ← get_request_target buffer; returns (path_of target)

-- The target behind its `?`.
unfoldable pub query_of : Bytes → Bytes
unfolding find
query_of target = elim (find (b'?' ∷ []) target) [ none ↦ [] | some qpos ↦ drop (qpos + 1) target ]

unfoldable pub extract_query_string : Bytes → Result Bytes
unfolding get_request_target query_of
extract_query_string buffer = do target ← get_request_target buffer; returns (query_of target)

unfoldable pub extract_method : Bytes → Result Method
unfolding find method_str_to_enum
extract_method header = elim (find (codes "\r\n") header) [
  | none ↦ http_error Status.bad_request
  | some line_end ↦
      let request_line = substr header 0 line_end in
      elim (find (b' ' ∷ []) request_line) [
        | none ↦ http_error Status.bad_request
        | some method_end ↦ returns (method_str_to_enum (substr request_line 0 method_end))
      ]
]

-- Where the line that starts at `pos` ends: at "\r\n", else at "\n", else with the text.
unfoldable pub line_end_from : Bytes → ℕ → ℕ
unfolding find
line_end_from header pos = elim (find_at (codes "\r\n") header pos) [
  | some end ↦ end
  | none ↦ elim (find_at (codes "\n") header pos) [ some end ↦ end | none ↦ length header ]
]

-- Where the body starts: behind "\r\n\r\n", else behind "\n\n".
unfoldable pub body_start : Bytes → Option ℕ
unfolding find
body_start header = elim (find (codes "\r\n\r\n") header) [
  | some start ↦ some (start + 4)
  | none ↦ elim (find (codes "\n\n") header) [ some start ↦ some (start + 2) | none ↦ none ]
]

unfoldable pub extract_body : Bytes → Result Bytes
unfolding line_end_from body_start
extract_body header = elim (body_start header) [
  | none ↦ http_error Status.bad_request
  | some start ↦ returns (substr header start (line_end_from header start - start))
]

-- One header line, `key: value`, or no result where it has no ": ".
unfoldable pub split_header : Bytes → Option (Bytes × Bytes)
unfolding find
split_header line = elim (find (codes ": ") line) [
  | none ↦ none
  | some splitter_pos ↦ some (substr line 0 splitter_pos, drop (splitter_pos + 2) line)
]

-- The loop of `extract_headers` from `pos` on. Each round moves `pos` on by 2 at least, so fuel
-- `headers_end - pos` is enough, and the fuel's end is met behind `headers_end` only.
unfoldable pub headers_from : ℕ → Bytes → ℕ → ℕ → Headers → Result Headers
unfolding find split_header
headers_from zero request headers_end pos headers = returns headers
headers_from (suc fuel) request headers_end pos headers =
    if leb headers_end pos then returns headers else elim (find_at (codes "\r\n") request pos) [
      | none ↦ http_error Status.bad_request
      | some end ↦
          let line = substr request pos (end - pos) in
          if is_empty line then returns headers else elim (split_header line) [
            | none ↦ http_error Status.bad_request
            | some (key, value) ↦
                headers_from fuel request headers_end (end + 2) (insert key value headers)
          ]
    ]

unfoldable pub extract_headers : Bytes → Result Headers
unfolding find headers_from
extract_headers request = elim (find (codes "\r\n\r\n") request) [
  | none ↦ http_error Status.bad_request
  | some headers_end ↦ elim (find_at (codes "\r\n") request 0) [
    | none ↦ http_error Status.bad_request
    | some end_of_request_line ↦
        let pos = end_of_request_line + 2 in
        if leb headers_end pos
        then returns []
        else headers_from headers_end request headers_end pos []
  ]
]
