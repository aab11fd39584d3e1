-- ===== src/Pipeline/Auth.antt =====
-- src/Middleware.cpp: `Authenticator`.
pub mod Allowed
use cgi_web_server.Base.{
  Bool, true, false, Option, none, some, List, [], ◌∷◌, ◌++◌, if◌then◌else◌, not,
}
use cgi_web_server.Config.Roles.{includes_role, find_role}
use cgi_web_server.Http.Args.{extract_jwt_from_cookie}
use cgi_web_server.Http.Response.{Result, returns, throws, http_error, add_header, ◌>>=◌}
use cgi_web_server.Http.Status
use cgi_web_server.Http.Status.{is_success_code}
use cgi_web_server.Pipeline.{
  Request, get_header, State, Run, finished, crashed, Action, Jwt, Config, set_response,
}
use cgi_web_server.Router.{EndpointMethod, get_auth_role}
use cgi_web_server.Text.{Bytes, codes, is_empty}

-- `cfg::get_role_hash`
abbrev pub get_role_hash : Bytes → Bytes
get_role_hash role = role

unfoldable pub set_cookie : Bytes → Bytes
set_cookie token = codes "jwt=" ++ (token ++ codes "; HttpOnly; Secure; SameSite=Strict;")

module _ (j : Jwt) (c : Config) where
  -- The `try` block, whose every exception is turned into a 401.
  unfoldable pub check_token : Bytes → EndpointMethod → Bool
  check_token token route = elim (j.decode token) [
    | none ↦ false
    | some decoded ↦
        if not (j.verify c.secret c.server_name decoded)
        then false
        else if j.is_expired decoded
        then false
        else elim (j.role_claim decoded) [
          | none ↦ false
          | some claim ↦ elim (find_role c.roles claim) [
            | none ↦ false
            | some role ↦ includes_role role route.access_role
          ]
        ]
  ]

  unfoldable pub validate : Request → EndpointMethod → Result (Unit {0})
  unfolding check_token get_header
  validate request route =
      let cookie = get_header (codes "Cookie") request in
      let token = extract_jwt_from_cookie cookie in
      if not route.is_protected
      then returns tt
      else if is_empty cookie
      then http_error Status.unauthorized
      else if is_empty token
      then http_error Status.unauthorized
      else if check_token token route
      then returns tt
      else http_error Status.unauthorized

  -- What follows `next` on a route that authenticates.
  unfoldable pub issue_token : State → Run
  unfolding set_cookie set_response
  issue_token s =
      let response = s.txn.response in
      if not (is_success_code response.status)
      then finished (http_error response.status) s
      else elim (s.txn.request.endpoint) [
        | none ↦ crashed
        | some endpoint ↦ elim (get_auth_role endpoint s.txn.request.method) [
          | throws x ↦ finished (throws x) s
          | returns role ↦
              let token = j.sign c.secret c.server_name (get_role_hash role) in
              finished (returns tt)
                (set_response (add_header (codes "Set-Cookie") (set_cookie token) response) s)
        ]
      ]

  unfoldable pub after_next : Run → Run
  unfolding issue_token
  after_next crashed = crashed
  after_next (finished (throws x) s) = finished (throws x) s
  after_next (finished (returns u) s) = elim (s.txn.request.route) [
    | none ↦ crashed
    | some route ↦ if not route.is_authenticator then finished (returns tt) s else issue_token s
  ]

  unfoldable pub authenticate : Action → Action
  unfolding validate after_next
  authenticate next s = elim (s.txn.request.route) [
    | none ↦ crashed
    | some route ↦ elim (validate s.txn.request route) [
      | throws x ↦ finished (throws x) s
      | returns u ↦ after_next (next s)
    ]
  ]
