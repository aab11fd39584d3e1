-- ===== src/Pipeline/Ready.antt =====
-- src/Middleware.cpp, src/Router.cpp: a router and limiters that requests can be served with.
pub mod Limiters
pub mod Requests
use cgi_web_server.Base.Assoc.{lookup, insert, lookup-insert}
use cgi_web_server.Base.{
  ℕ, ◌<◌, ◌≡◌, refl, sym, ap, subst, ◌∙◌, inl, inr, arith, ◌==◌, Bool, true, false, Bool-cases,
  Option, none, some, Option-cases, List, ◌∷◌, ◌++◌, if◌then◌else◌,
}
use cgi_web_server.Http.Method.{Method, get, head, method_keys}
use cgi_web_server.Http.Response.{returns, throws, http_error, Result-cases, >>=-eq-returns}
use cgi_web_server.Http.Status
use cgi_web_server.Http.Args.{extract_args}
use cgi_web_server.Http.Request.{
  extract_endpoint, extract_method, extract_headers, extract_body, extract_query_string,
}
use cgi_web_server.Pipeline.Stages.{parse_request}
use cgi_web_server.Pipeline.{Limiter, fixed_window, token_bucket, nat_keys, Request, World}
use cgi_web_server.Router.Endpoints.{route}
use cgi_web_server.Router.{
  EndpointMethod, Endpoint, new_endpoint, add_method, get_method, default_method, get_handler,
  head_handler, default_endpoint, create_default_endpoint_method, assign_handler, Router,
  get_endpoint, get_endpoint_method, get_arg_type,
}
use cgi_web_server.Text.{Bytes, bytes_keys, codes, equal, equal_iff}

-- The window of a limiter is not empty, so nothing is divided by zero.
abbrev pub HasWindow : Limiter → Type 0
HasWindow (fixed_window setting key_func clients) = 0 < setting.window_seconds
HasWindow (token_bucket setting key_func buckets) = Unit

abbrev pub IsLimiter : List (ℕ × Limiter) → ℕ → Type 0
IsLimiter limiters id = (l : Limiter) × (lookup id limiters ≡ some l)

-- The limiter of a route is there.
abbrev pub IsLimited : List (ℕ × Limiter) → EndpointMethod → Type 0
IsLimited limiters e = (id : ℕ) → e.rate_limiter ≡ some id → IsLimiter limiters id

-- What every request needs of the router and the limiters, for a pipeline with the global limiter
-- that is given.
pub record IsReady (global : Option ℕ) (r : Router) (limiters : List (ℕ × Limiter)) : Type 0 where
  pub windows : (id : ℕ) (l : Limiter) → lookup id limiters ≡ some l → HasWindow l
  pub global_there : (id : ℕ) → global ≡ some id → IsLimiter limiters id
  pub routes :
      (url : Bytes) (m : Method) (e : EndpointMethod)
      → route r url m ≡ some e
      → IsLimited limiters e

-- The methods of an endpoint have limiters that are there.
abbrev IsServed : List (ℕ × Limiter) → Endpoint → Type 0
IsServed limiters e =
    (m : Method) (method : EndpointMethod)
    → lookup m e.methods ≡ some method
    → IsLimited limiters method

abbrev both_defaults : Bytes → Endpoint
both_defaults url =
    add_method (default_method (codes "public" ++ url) head head_handler)
      (add_method (default_method (codes "public" ++ url) get get_handler) new_endpoint)

both_defaults-IsServed :
    (url : Bytes) (limiters : List (ℕ × Limiter)) → IsServed limiters (both_defaults url)
unfolding add_method lookup insert
both_defaults-IsServed url limiters m method at id limited = absurd (ground (arith, at, limited))

module _ (global : Option ℕ) (limiters : List (ℕ × Limiter)) where
  add_default-IsReady :
      (url : Bytes) (r : Router)
      → IsReady global r limiters
      → IsReady global
          (record r { endpoints = insert url (both_defaults url) r.endpoints })
          limiters
  unfolding route
  add_default-IsReady url r ready = record {
    windows = ready.windows;
    global_there = ready.global_there;
    routes = λ v m e at.
        let there = lookup-insert url v (both_defaults url) r.endpoints in
        elim (Bool-cases (equal url v)) [
          | inl same ↦ both_defaults-IsServed url limiters m e (rw (there, same, route) at at)
          | inr other ↦ ready.routes v m e (rw (there, other, route) at at)
        ];
  }

  get_endpoint-IsReady :
      (fs : Bytes → Bool) (url : Bytes) (r r' : Router) (e : Endpoint)
      → get_endpoint fs r url ≡ returns (r', e)
      → IsReady global r limiters
      → IsReady global r' limiters × IsServed limiters e
  unfolding get_endpoint default_endpoint create_default_endpoint_method assign_handler route
  get_endpoint-IsReady fs url r r' e h ready = elim (Option-cases (lookup url r.endpoints)) [
    | inr (e', found) ↦
        let k = rw (found, get_endpoint) at h in
        let same : r ≡ r' = ground (arith, k) in
        let own : e' ≡ e = ground (arith, k) in
        (
          subst (λ q. IsReady global q limiters) same ready,
          λ m method at.
              ready.routes url m method (rw (found, route) (ap (λ q. lookup m q.methods) own ∙ at)),
        )
    | inl missing ↦ elim (Bool-cases (fs (codes "public" ++ url))) [
      | inr no_file ↦ absurd (ground (arith, rw (missing, no_file, get_endpoint) at h))
      | inl file ↦
          let k = rw (missing, file, get_endpoint) at h in
          let same : record r { endpoints = insert url (both_defaults url) r.endpoints } ≡ r' =
            ground (arith, k) in
          let own : both_defaults url ≡ e = ground (arith, k) in
          (
            subst (λ q. IsReady global q limiters) same (add_default-IsReady url r ready),
            subst (IsServed limiters) own (both_defaults-IsServed url limiters),
          )
    ]
  ]

  get_endpoint_method-IsLimited :
      (fs : Bytes → Bool) (url : Bytes) (method : Method) (r r' : Router) (m : EndpointMethod)
      → get_endpoint_method fs r url method ≡ returns (r', m)
      → IsReady global r limiters
      → IsLimited limiters m
  unfolding get_endpoint_method get_method
  get_endpoint_method-IsLimited fs url method r r' m h ready =
      let ((r1, e), visited, k) = >>=-eq-returns (get_endpoint fs r url) _ h in
      let (m', found, last) = >>=-eq-returns (get_method e method) _ k in
      let served = (get_endpoint-IsReady fs url r r1 e visited ready).1 in
      let same : m' ≡ m = ground (arith, last) in
      elim (Option-cases (lookup method e.methods)) [
        | inl missing ↦ absurd (ground (arith, rw (missing, get_method) at found))
        | inr (m'', at) ↦
            let own : m'' ≡ m' = ground (arith, rw (at, get_method) at found) in
            served method m (at ∙ ap some (own ∙ same))
      ]

-- The parser leaves a router that is ready, and a route whose limiter is there.
pub parse_request-IsReady :
    (global : Option ℕ) (limiters : List (ℕ × Limiter)) (w : World) (r : Router) (buffer : Bytes)
    → IsReady global r limiters
    → IsReady global (parse_request w r buffer).1 limiters
unfolding parse_request
parse_request-IsReady global limiters w r buffer ready =
    elim (Result-cases (extract_endpoint buffer)) [
      | inr (x, failed) ↦ rw (failed, parse_request) ready
      | inl (url, e1) ↦ elim (Result-cases (get_endpoint w.file_exists r url)) [
        | inr (x, failed) ↦ rw (e1, failed, parse_request) ready
        | inl ((r', e), e2) ↦
            rw (e1, e2, parse_request)
              (get_endpoint-IsReady global limiters w.file_exists url r r' e e2 ready).0
      ]
    ]

pub parse_request-IsLimited :
    (global : Option ℕ) (limiters : List (ℕ × Limiter)) (w : World) (r : Router) (buffer : Bytes)
    (request : Request) (m : EndpointMethod)
    → IsReady global r limiters
    → (parse_request w r buffer).0 ≡ returns request
    → request.route ≡ some m
    → IsLimited limiters m
unfolding parse_request
parse_request-IsLimited global limiters w r buffer request m ready h routed =
    elim (Result-cases (extract_endpoint buffer)) [
      | inr (x, failed) ↦ absurd (ground (arith, h, failed))
      | inl (url, e1) ↦ elim (Result-cases (get_endpoint w.file_exists r url)) [
        | inr (x, failed) ↦ absurd (ground (arith, h, e1, failed))
        | inl ((r', e), e2) ↦
            let h0 = rw (e1, parse_request, e2) at h in
            let (method, q1, h1) = >>=-eq-returns (extract_method buffer) _ h0 in
            let (arg_type, q2, h2) = >>=-eq-returns (get_arg_type e method) _ h1 in
            let (args, q3, h3) = >>=-eq-returns (extract_args w.parse_json buffer arg_type) _ h2 in
            let (headers, q4, h4) = >>=-eq-returns (extract_headers buffer) _ h3 in
            let (body, q5, h5) = >>=-eq-returns (extract_body buffer) _ h4 in
            let (query, q6, h6) = >>=-eq-returns (extract_query_string buffer) _ h5 in
            let ((r'', m'), q7, h7) =
              >>=-eq-returns (get_endpoint_method w.file_exists r' url method) _ h6 in
            let same : m' ≡ m = ground (arith, h7, routed) in
            subst (IsLimited limiters) same (
              get_endpoint_method-IsLimited global limiters w.file_exists url method r' r'' m' q7
                (get_endpoint-IsReady global limiters w.file_exists url r r' e e2 ready).0)
      ]
    ]
