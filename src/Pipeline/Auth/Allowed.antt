-- ===== src/Pipeline/Auth/Allowed.antt =====
-- src/Middleware.cpp: which requests `Authenticator` lets through.
use cgi_web_server.Base.{
  ◌≡◌, refl, ◌⊎◌, inl, inr, arith, true, false, Bool-cases, some, Option-cases, [], ◌∷◌,
}
use cgi_web_server.Config.Roles.{Role, includes_role, find_role}
use cgi_web_server.Http.Args.{extract_jwt_from_cookie}
use cgi_web_server.Http.Response.{returns, http_error}
use cgi_web_server.Http.Status
use cgi_web_server.Pipeline.Auth.{check_token, validate}
use cgi_web_server.Pipeline.{Request, get_header, Jwt, Config}
use cgi_web_server.Router.{EndpointMethod}
use cgi_web_server.Text.{Bytes, codes, is_empty, find}

-- The token that a request carries, empty where it carries none.
unfoldable pub token_of : Request → Bytes
token_of request = extract_jwt_from_cookie (get_header (codes "Cookie") request)

-- Who may use a route: anyone where it is not protected, and otherwise who brings a token that is
-- signed by this server and not expired and whose role is known and includes the route's.
pub data IsAllowed (j : Jwt) (c : Config) (request : Request) (route : EndpointMethod)
    : Type 0 where
  unprotected : route.is_protected ≡ false → IsAllowed j c request route
  by_token :
      (token : j.Token) (claim : Bytes) (role : Role)
      → is_empty (token_of request) ≡ false
      → j.decode (token_of request) ≡ some token
      → j.verify c.secret c.server_name token ≡ true
      → j.is_expired token ≡ false
      → j.role_claim token ≡ some claim
      → find_role c.roles claim ≡ some role
      → includes_role role route.access_role ≡ true
      → IsAllowed j c request route

cookie_present :
    (cookie : Bytes) → is_empty (extract_jwt_from_cookie cookie) ≡ false → is_empty cookie ≡ false
unfolding extract_jwt_from_cookie find
cookie_present [] h = h
cookie_present (x ∷ cookie) h = refl

module _ (j : Jwt) (c : Config) where
  pub check_token-allows :
      (request : Request) (route : EndpointMethod)
      → is_empty (token_of request) ≡ false
      → check_token j c (token_of request) route ≡ true
      → IsAllowed j c request route
  unfolding check_token
  check_token-allows request route present h = elim (Option-cases (j.decode (token_of request))) [
    | inl failed ↦ absurd (ground (arith, h, failed))
    | inr (token, decoded) ↦ elim (Option-cases (j.role_claim token)) [
      | inl missing ↦ absurd (ground (arith, h, decoded, missing))
      | inr (claim, claimed) ↦ elim (Option-cases (find_role c.roles claim)) [
        | inl unknown ↦ absurd (ground (arith, h, decoded, claimed, unknown))
        | inr (role, found) ↦
            by_token token claim role present decoded (ground (arith, h, decoded))
              (ground (arith, h, decoded)) claimed found
              (ground (arith, h, decoded, claimed, found))
      ]
    ]
  ]

  allowed-checks :
      (request : Request) (route : EndpointMethod)
      → IsAllowed j c request route
      → route.is_protected ≡ true
      → (is_empty (token_of request) ≡ false) × (check_token j c (token_of request) route ≡ true)
  unfolding check_token
  allowed-checks request route (unprotected open_route) guarded =
      absurd (ground (arith, open_route, guarded))
  allowed-checks request route
        (by_token token claim role present decoded verified fresh claimed found includes) guarded =
      (present, rw (decoded, check_token, verified, fresh, claimed, found) includes)

  -- `Authenticator::validate` decides who may use a route: it returns exactly for a request
  -- that is allowed (the route is not protected, or the `jwt` cookie holds a token that is
  -- decoded, verified and not expired, and whose role is known and includes the route's), and
  -- throws a 401 for every other.
  pub validate-IsAllowed :
      (request : Request) (route : EndpointMethod)
      → ((validate j c request route ≡ returns tt) × IsAllowed j c request route)
        ⊎ ((validate j c request route ≡ http_error Status.unauthorized)
            × ¬ IsAllowed j c request route)
  unfolding validate token_of
  validate-IsAllowed request route = elim (Bool-cases route.is_protected) [
    | inr open_route ↦ inl (rw (open_route, validate) refl, unprotected open_route)
    | inl guarded ↦ elim (Bool-cases (is_empty (token_of request))) [
      | inl absent ↦ inr (
        ground arith,
        λ a. let (present, checked) = allowed-checks request route a guarded in ground arith,
      )
      | inr present ↦
          let cookie = cookie_present (get_header (codes "Cookie") request) present in
          elim (Bool-cases (check_token j c (token_of request) route)) [
            | inl checked ↦ inl (ground arith, check_token-allows request route present checked)
            | inr failed ↦ inr (
              ground arith,
              λ a. let (_, checked) = allowed-checks request route a guarded in ground arith,
            )
          ]
    ]
  ]
