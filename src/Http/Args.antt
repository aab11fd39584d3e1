-- ===== src/Http/Args.antt =====
-- src/http.cpp: the content type of a request, the arguments that are forwarded to a script, and
-- the tokens in its headers. `parse` is `nlohmann::json::parse`.
pub mod Laws
use cgi_web_server.Base.{
  ℕ, ◌+◌, ◌-◌, Bool, true, false, not, ◌&&◌, ◌||◌, Option, none, some, [], ◌∷◌, ◌++◌, map, ltb,
  if◌then◌else◌, length, take, drop,
}
use cgi_web_server.Http.Form.{is_valid_url_form}
use cgi_web_server.Http.Method.{ArgType, any, body_any, body_json, body_url, query_string}
use cgi_web_server.Http.Request.{extract_body, extract_query_string}
use cgi_web_server.Http.Response.{Result, returns, throws, std_exception, http_error, ◌>>=◌}
use cgi_web_server.Http.Status
use cgi_web_server.Http.Status.{Code}
use cgi_web_server.Text.{
  Bytes, codes, equal, find, find_at, substr, is_empty, to_lower, trim_to_lower,
}

-- `extract_header_field`: `none` is the result `false`. The field is looked for in the whole
-- text.
unfoldable pub extract_header_field : Bytes → Bytes → Option Bytes
unfolding find
extract_header_field header name =
    let field = name ++ codes ": " in
    elim (find field header) [
      | none ↦ none
      | some start ↦ elim (find_at (codes "\r\n") header start) [
        | none ↦ none
        | some end ↦
            if ltb end (start + length field)
            then none
            else some (substr header (start + length field) (end - (start + length field)))
      ]
    ]

-- Up to the first ';'.
unfoldable pub before_semicolon : Bytes → Bytes
unfolding find
before_semicolon ct = elim (find (b';' ∷ []) ct) [ none ↦ ct | some semi ↦ take semi ct ]

unfoldable pub get_content_type : Bytes → Option Bytes
unfolding extract_header_field before_semicolon to_lower
get_content_type buf = elim (extract_header_field buf (codes "Content-Type")) [
  | none ↦ none
  | some field ↦
      let ct = before_semicolon (map to_lower field) in if is_empty ct then none else some ct
]

-- `http::find_content_type`
unfoldable pub find_content_type : Bytes → Code × Bytes
unfolding find trim_to_lower
find_content_type header = elim (find (codes "Content-Type: ") header) [
  | none ↦ (Status.ok, codes "application/json")
  | some at ↦
      let start = at + 14 in
      elim (find_at (codes "\r\n") header start) [
        | some end ↦ (Status.ok, trim_to_lower (substr header start (end - start)))
        | none ↦ elim (find_at (codes "\n") header start) [
          | some end ↦ (Status.ok, trim_to_lower (substr header start (end - start)))
          | none ↦ (Status.bad_request, [])
        ]
      ]
]

-- The value of the `jwt` cookie, up to the next ';' or to the end.
unfoldable pub extract_jwt_from_cookie : Bytes → Bytes
unfolding find
extract_jwt_from_cookie cookie = elim (find (codes "jwt=") cookie) [
  | none ↦ []
  | some at ↦
      let start = at + 4 in
      elim (find_at (codes ";") cookie start) [
        | none ↦ drop start cookie
        | some end ↦ substr cookie start (end - start)
      ]
]

-- The code, and the token where the code is OK. The token is taken from the seventh byte on,
-- wherever "Bearer " was found.
unfoldable pub extract_token : Bytes → Code × Bytes
unfolding extract_header_field find
extract_token buffer = elim (extract_header_field buffer (codes "Authorization")) [
  | none ↦ (Status.bad_request, [])
  | some field ↦ elim (find (codes "Bearer ") field) [
    | none ↦ (Status.bad_request, [])
    | some start ↦ (Status.ok, drop 7 field)
  ]
]

abbrev pub json_type : Bytes
json_type = codes "application/json"

abbrev pub form_type : Bytes
form_type = codes "application/x-www-form-urlencoded"

-- What `nlohmann::json::parse` does with a text: it takes it, throws a `parse_error`, or throws
-- another exception, as for a number that is too large.
pub data Parsing : Type 0 where
  parsed parse_error out_of_range : Parsing

-- `is_valid_json` catches a `parse_error` and nothing else.
unfoldable pub is_valid_json : (Bytes → Parsing) → Bytes → Result Bool
is_valid_json parse body = elim (parse body) [
  | parsed ↦ returns true
  | parse_error ↦ returns false
  | out_of_range ↦ throws std_exception
]

-- `get_args`, with the content type and the check that it is called with.
unfoldable pub get_args : Bytes → Bytes → (Bytes → Result Bool) → Result Bytes
get_args buffer desired filter = do
  body ← extract_body buffer
  elim (get_content_type buffer) [
    | none ↦ http_error Status.unsupported_media_type
    | some content_type ↦
        if not (equal content_type desired)
        then http_error Status.unsupported_media_type
        else (do valid ← filter body; if valid then returns body else http_error Status.bad_request)
  ]

-- The tests of `body_any_args`, where the first one, for JSON, comes out as `json`.
unfoldable pub check_body : Bytes → Bytes → Bool → Result Bytes
check_body content_type body json =
    if json
    then returns body
    else if equal content_type form_type && is_valid_url_form body
    then returns body
    else if equal content_type json_type || equal content_type form_type
    then http_error Status.bad_request
    else returns body

module _ (parse : Bytes → Parsing) where
  unfoldable pub body_any_args : Bytes → Result Bytes
  unfolding is_valid_json check_body
  body_any_args buffer = do
    body ← extract_body buffer
    elim (get_content_type buffer) [
      | none ↦ returns body
      | some content_type ↦ do
        json ← (if equal content_type json_type then is_valid_json parse body else returns false)
        check_body content_type body json
    ]

  unfoldable pub args_any : Bytes → Result Bytes
  args_any buffer = do
    query ← extract_query_string buffer
    if not (is_empty query) then returns query else body_any_args buffer

  unfoldable pub extract_args : Bytes → ArgType → Result Bytes
  unfolding is_valid_json
  extract_args buffer ArgType.none = returns []
  extract_args buffer any = args_any buffer
  extract_args buffer body_any = body_any_args buffer
  extract_args buffer body_json = get_args buffer json_type (is_valid_json parse)
  extract_args buffer body_url =
      get_args buffer form_type (λ body. returns (is_valid_url_form body))
  extract_args buffer query_string = extract_query_string buffer
