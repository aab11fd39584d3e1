-- ===== src/Pipeline/Stages/Tokens.antt =====
-- src/Middleware.cpp: the token that a login issues, and what it is good for.
use cgi_web_server.Base.{
  ◌≡◌, refl, ap, ◌∙◌, inl, inr, arith, Bool, true, false, none, some, drop, [], ◌∷◌, ◌++◌,
}
use cgi_web_server.Config.Roles.{Role, includes_role, find_role}
use cgi_web_server.Http.Args.{extract_jwt_from_cookie}
use cgi_web_server.Http.Args.Laws.{extract_jwt_from_cookie_lem}
use cgi_web_server.Http.Response.{returns, add_header}
use cgi_web_server.Http.Status.{is_success_code}
use cgi_web_server.Pipeline.Auth.Allowed.{token_of, IsAllowed, by_token, validate-IsAllowed}
use cgi_web_server.Pipeline.Auth.{set_cookie, issue_token, validate, after_next, authenticate}
use cgi_web_server.Pipeline.Limiting.{rate_limit}
use cgi_web_server.Pipeline.Stages.Errors.{loaded-rescue}
use cgi_web_server.Pipeline.Stages.Guard.{with_address}
use cgi_web_server.Pipeline.Stages.{
  authenticator, finish, rescue, parse, parse_request, has_failed, log_session, load_pipeline,
  process, run_pipeline,
}
use cgi_web_server.Pipeline.{
  Request, get_header, State, finished, Action, Jwt, Config, World, set_request, set_response,
}
use cgi_web_server.Router.{EndpointMethod, Endpoint, Handler, get_auth_role, get_handler_of}
use cgi_web_server.Text.Find.{Without}
use cgi_web_server.Text.{Bytes, codes, is_empty}

-- The behaviour of jwt-cpp that a login relies on: a signed token is a text without a ';', and it
-- is decoded, verified with the same secret and issuer, fresh, and holds the role it was signed for.
pub record IsJwt (j : Jwt) (secret issuer role : Bytes) : Type 0 where
  pub token : j.Token
  pub decodes : j.decode (j.sign secret issuer role) ≡ some token
  pub verifies : j.verify secret issuer token ≡ true
  pub is_fresh : j.is_expired token ≡ false
  pub holds : j.role_claim token ≡ some role
  pub is_text : is_empty (j.sign secret issuer role) ≡ false
  pub has_no_end : Without b';' (j.sign secret issuer role)

-- A request whose Cookie field is a text without the byte j, then jwt= and a token signed for a
-- role, up to its end, is allowed every route whose access role that role includes: `validate`
-- returns. The token library is taken to decode and verify what it signs, and to sign with a text
-- that is not empty and has no semicolon, and the role to be known.
pub validate-sign :
    (j : Jwt) (c : Config) (request : Request) (route : EndpointMethod) (title before : Bytes)
    (role : Role)
    → IsJwt j c.secret c.server_name title
    → Without b'j' before
    → get_header (codes "Cookie") request
      ≡ before ++ (codes "jwt=" ++ j.sign c.secret c.server_name title)
    → find_role c.roles title ≡ some role
    → includes_role role route.access_role ≡ true
    → validate j c request route ≡ returns tt
unfolding token_of
validate-sign j c request route title before role jwt clean cookie found includes =
    let sent : token_of request ≡ j.sign c.secret c.server_name title =
      ap extract_jwt_from_cookie cookie
      ∙ (extract_jwt_from_cookie_lem before (j.sign c.secret c.server_name title) [] clean
          jwt.has_no_end).0 in
    let allowed : IsAllowed j c request route =
      by_token jwt.token title role (rw (sent, token_of) jwt.is_text)
        (ap j.decode sent ∙ jwt.decodes) jwt.verifies jwt.is_fresh jwt.holds found includes in
    elim (validate-IsAllowed j c request route) [
      | inl (returned, _) ↦ returned
      | inr (_, refused) ↦ absurd (refused allowed)
    ]

-- The response with the cookie of a role.
abbrev with_cookie : Jwt → Config → Bytes → State → State
with_cookie j c role s =
    set_response
      (add_header (codes "Set-Cookie") (set_cookie (j.sign c.secret c.server_name role))
        s.txn.response)
      s

authenticate-login :
    (j : Jwt) (c : Config) (next : Action) (s : State) (endpoint : Endpoint)
    (route : EndpointMethod) (role : Bytes)
    → next s ≡ finished (returns tt) s
    → s.txn.request.endpoint ≡ some endpoint
    → s.txn.request.route ≡ some route
    → route.is_protected ≡ false
    → route.is_authenticator ≡ true
    → get_auth_role endpoint s.txn.request.method ≡ returns role
    → is_success_code s.txn.response.status ≡ true
    → authenticate j c next s ≡ finished (returns tt) (with_cookie j c role s)
unfolding authenticate validate after_next issue_token
authenticate-login j c next s endpoint route role through at_e at_r open_route issues has_role ok =
    let valid : validate j c s.txn.request route ≡ returns tt = rw (open_route, validate) refl in
    let issued : issue_token j c s ≡ finished (returns tt) (with_cookie j c role s) =
      ground arith in
    let after : after_next j c (finished (returns tt) s)
        ≡ finished (returns tt) (with_cookie j c role s) =
      ground arith in
    ground (arith, at_r, valid, after, through)

-- A login that is parsed, on an open route without a limiter.
pub record IsLogin (w : World) (s : State) (request : Request) (endpoint : Endpoint)
    (route : EndpointMethod) : Type 0 where
  pub arrives : has_failed w.read.0 ≡ false
  pub parsed : (parse_request w s.router w.read.1).0 ≡ returns request
  pub at_endpoint : request.endpoint ≡ some endpoint
  pub at_route : request.route ≡ some route
  pub is_free : route.rate_limiter ≡ none
  pub is_open : route.is_protected ≡ false
  pub issues : route.is_authenticator ≡ true

-- The state in which the request of a login comes to the authenticator.
abbrev pub parsed_state : World → Request → State → State
parsed_state w request s = set_request request (record s {
  txn = record s.txn {
    buffer = w.read.1;
    log_entry = record s.txn.log_entry { client_addr = w.client_ip };
  };
  router = (parse_request w s.router w.read.1).1;
})

rate_limit-free :
    (w : World) (next : Action) (s : State) (route : EndpointMethod)
    → s.txn.request.route ≡ some route
    → route.rate_limiter ≡ none
    → rate_limit w next s ≡ next s
unfolding rate_limit
rate_limit-free w next s route at free = ground (arith, at, free)

-- A login issues its token before the handler of the route has run: in the pipeline that is
-- loaded without a global limiter, on a request that is read and parsed, to an authenticating
-- route that is open and has no limiter, with a response whose status is a success, as a new
-- transaction has it, the handler of the route is called in a state whose response has the cookie
-- already, and only what it does and how that is caught and logged follows.
pub run_pipeline-login :
    (j : Jwt) (c : Config) (w : World) (f : Handler → Action) (uses_ip : Bool) (s : State)
    (request : Request) (endpoint : Endpoint) (route : EndpointMethod) (role : Bytes)
    (handler : Handler)
    → IsLogin w s request endpoint route
    → get_auth_role endpoint request.method ≡ returns role
    → get_handler_of endpoint request.method ≡ returns handler
    → is_success_code s.txn.response.status ≡ true
    → run_pipeline j c w f (load_pipeline none uses_ip) s
      ≡ log_session (
          rescue w (
            f handler (
              set_response
                (add_header
                  (codes "Set-Cookie")
                  (set_cookie (j.sign c.secret c.server_name role))
                  s.txn.response)
                (parsed_state w request s))))
unfolding load_pipeline run_pipeline process finish with_address rate_limit parse set_request
    set_response
run_pipeline-login j c w f uses_ip s request endpoint route role handler login has_role has_handler
      ok =
    let s1 = parsed_state w request s in
    let issued =
      authenticate-login j c (run_pipeline j c w f []) s1 endpoint route role refl login.at_endpoint
        login.at_route login.is_open login.issues has_role ok in
    let limited : rate_limit w (run_pipeline j c w f (authenticator ∷ [])) s1
        ≡ finished (returns tt) (with_cookie j c role s1) =
      rate_limit-free w (run_pipeline j c w f (authenticator ∷ [])) s1 route login.at_route
        login.is_free
      ∙ issued in
    let inner : run_pipeline j c w f (drop 2 (load_pipeline none uses_ip)) (with_address w s)
        ≡ finished (returns tt) (with_cookie j c role s1) =
      rw (login.arrives, parse, login.parsed) limited in
    let handled : finish f (finished (returns tt) (with_cookie j c role s1))
        ≡ f handler (with_cookie j c role s1) =
      ground (arith, login.at_endpoint, has_handler) in
    loaded-rescue j c w f none uses_ip s
    ∙ ap (λ r. log_session (rescue w (finish f r))) inner
    ∙ ap (λ r. log_session (rescue w r)) handled
