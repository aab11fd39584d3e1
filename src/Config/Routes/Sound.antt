-- ===== src/Config/Routes/Sound.antt =====
-- src/config.cpp: what holds of every route that `loadRoutes` puts into the router.
use cgi_web_server.Base.Assoc.{lookup, insert}
use cgi_web_server.Base.{
  ℕ, ◌≡◌, refl, sym, ap, subst, ◌∙◌, ◌⊎◌, inl, inr, arith, ◌==◌, true, false, Bool-cases, not, ◌&&◌,
  Option, some, Option-cases, List, [], ◌∷◌, length,
}
use cgi_web_server.Config.Limiters.{load_limiter}
use cgi_web_server.Config.Roles.{admin, viewer}
use cgi_web_server.Config.Routes.{
  Loaded, non_empty_or, read_endpoint_url, read_method, read_limiter, load_route, load_each_route,
  load_routes,
}
use cgi_web_server.Config.Xml.{Xml, first_child}
use cgi_web_server.Http.Method.{Method, get, head, method_eq, method_eq_iff, method_keys}
use cgi_web_server.Http.Response.{returns, Result-cases}
use cgi_web_server.Pipeline.{Limiter, nat_keys}
use cgi_web_server.Router.Endpoints.{route, update_endpoint-route}
use cgi_web_server.Router.{
  EndpointMethod, Handler, assign_handler, Router, new_router, default_method, root_file,
  get_handler, head_handler, update_endpoint, add_method,
}
use cgi_web_server.Text.{Bytes, bytes_keys, codes, equal, is_empty}

-- A route of a method: it is served by the method's handler, asks for a role if it is protected,
-- has a role to give if it authenticates, and its limiter is there.
pub record IsSound (limiters : List (ℕ × Limiter)) (m : Method) (e : EndpointMethod) : Type 0 where
  pub own_method : e.m ≡ m
  pub handled : assign_handler m ≡ returns e.handler
  pub asks_role : e.is_protected ≡ true → is_empty e.access_role ≡ false
  pub gives_role : e.is_authenticator ≡ true → is_empty e.auth_role ≡ false
  pub limited : (id : ℕ) → e.rate_limiter ≡ some id → (l : Limiter) × (lookup id limiters ≡ some l)

abbrev pub IsLoaded : Loaded → Type 0
IsLoaded loaded =
    (url : Bytes) (m : Method) (e : EndpointMethod)
    → route loaded.router url m ≡ some e
    → IsSound loaded.limiters m e

non_empty_or_lem :
    (default : Bytes) (attr : Option Bytes)
    → is_empty default ≡ false
    → is_empty (non_empty_or default attr) ≡ false
unfolding non_empty_or
non_empty_or_lem default attr h = ground (arith, h)

pub IsSound-cons :
    (limiters : List (ℕ × Limiter)) (id : ℕ) (l : Limiter) (m : Method) (e : EndpointMethod)
    → IsSound limiters m e
    → IsSound ((id, l) ∷ limiters) m e
unfolding lookup
IsSound-cons limiters id l m e h = record {
  own_method = h.own_method;
  handled = h.handled;
  asks_role = h.asks_role;
  gives_role = h.gives_role;
  limited = λ j at. elim (Bool-cases (id == j)) [
    | inl same ↦ (l, rw same refl)
    | inr other ↦ rw other (h.limited j at)
  ];
}

module _ (x : Xml) (content_path : Bytes) where
  read_method-asks_role :
      (el : x.Element)
      → (read_method x content_path el).is_protected ≡ true
      → is_empty (read_method x content_path el).access_role ≡ false
  unfolding read_method
  read_method-asks_role el h =
      rw h (non_empty_or_lem admin (x.attribute el (codes "access_role")) refl)

  read_method-gives_role :
      (el : x.Element)
      → (read_method x content_path el).is_authenticator ≡ true
      → is_empty (read_method x content_path el).auth_role ≡ false
  unfolding read_method
  read_method-gives_role el h =
      rw h (non_empty_or_lem viewer (x.attribute el (codes "auth_role")) refl)

  read_limiter-cases :
      (el : x.Element) (method limited : EndpointMethod) (old limiters : List (ℕ × Limiter))
      → read_limiter x content_path el method old ≡ some (limited, limiters)
      → ((limited ≡ method) × (limiters ≡ old))
        ⊎ ((l : Limiter) × (limited ≡ record method { rate_limiter = some (length old) })
            × (limiters ≡ (length old, l) ∷ old))
  unfolding read_limiter
  read_limiter-cases el method limited old limiters h =
      elim (Option-cases (first_child x el (codes "RateLimit"))) [
        | inl missing ↦
            let e = rw (missing, read_limiter) at h in inl (ground (arith, e), ground (arith, e))
        | inr (rate_limit, found) ↦ elim (Option-cases (load_limiter x rate_limit)) [
          | inl overflow ↦ absurd (ground (arith, rw (found, overflow, read_limiter) at h))
          | inr ((l, uses_ip), loaded) ↦
              let e = rw (found, loaded, read_limiter) at h in
              inr (l, ground (arith, e), ground (arith, e))
        ]
      ]

  read_limiter-IsLoaded :
      (el : x.Element) (method limited : EndpointMethod) (loaded : Loaded)
      (limiters : List (ℕ × Limiter))
      → read_limiter x content_path el method loaded.limiters ≡ some (limited, limiters)
      → IsLoaded loaded
      → IsLoaded (record { router = loaded.router; limiters = limiters })
  read_limiter-IsLoaded el method limited loaded limiters h old url m e at =
      elim (read_limiter-cases el method limited loaded.limiters limiters h) [
        | inl (same, kept) ↦ rw kept (old url m e at)
        | inr (l, same, grown) ↦
            rw grown (IsSound-cons loaded.limiters (length loaded.limiters) l m e (old url m e at))
      ]

  -- The route that an element sets, before it has its handler.
  IsRead : List (ℕ × Limiter) → EndpointMethod → Type 0
  IsRead limiters e =
      (e.is_protected ≡ true → is_empty e.access_role ≡ false)
      × (e.is_authenticator ≡ true → is_empty e.auth_role ≡ false)
      × ((id : ℕ) → e.rate_limiter ≡ some id → (l : Limiter) × (lookup id limiters ≡ some l))

  read_limiter-IsRead :
      (el : x.Element) (limited : EndpointMethod) (old limiters : List (ℕ × Limiter))
      → read_limiter x content_path el (read_method x content_path el) old
        ≡ some (limited, limiters)
      → IsRead limiters limited
  unfolding IsRead read_method lookup
  read_limiter-IsRead el limited old limiters h =
      elim (read_limiter-cases el (read_method x content_path el) limited old limiters h) [
        | inl (same, kept) ↦ rw same (
          read_method-asks_role el,
          read_method-gives_role el,
          λ id at. absurd (ground (arith, at)),
        )
        | inr (l, same, grown) ↦
            rw (same, grown)
              (
                read_method-asks_role el,
                read_method-gives_role el,
                λ id at. (l, ground (arith, at)),
              )
      ]

  update_endpoint-IsLoaded :
      (url : Bytes) (limited : EndpointMethod) (r r' : Router) (limiters : List (ℕ × Limiter))
      → IsRead limiters limited
      → update_endpoint url limited r ≡ returns r'
      → IsLoaded (record { router = r; limiters = limiters })
      → IsLoaded (record { router = r'; limiters = limiters })
  unfolding IsRead
  update_endpoint-IsLoaded url limited r r' limiters read done old v m e at =
      let (h, assigned, route_at) = update_endpoint-route url v m limited r r' done in
      elim (Bool-cases (equal url v && method_eq limited.m m)) [
        | inr other ↦ old v m e (sym (rw other at route_at) ∙ at)
        | inl own ↦
            let same : record limited { handler = h } ≡ e =
              ground (arith, rw own at route_at, at) in
            let method : limited.m ≡ m = ground (arith, own, method_eq_iff limited.m m) in
            rw (sym same) (record {
              own_method = method;
              handled = ap assign_handler (sym method) ∙ assigned;
              asks_role = read.0;
              gives_role = read.1;
              limited = read.2;
            })
      ]

  load_route-IsLoaded :
      (el : x.Element) (loaded loaded' : Loaded)
      → load_route x content_path el loaded ≡ some loaded'
      → IsLoaded loaded
      → IsLoaded loaded'
  unfolding load_route
  load_route-IsLoaded el loaded loaded' h old =
      let method = read_method x content_path el in
      let url = read_endpoint_url x content_path el in
      elim (Bool-cases (not (method_eq method.m Method.not_allowed) && not (is_empty url))) [
        | inr skipped ↦
            let same : loaded ≡ loaded' = ground (arith, rw (skipped, load_route) at h) in
            subst IsLoaded same old
        | inl taken ↦ elim (Option-cases (read_limiter x content_path el method loaded.limiters)) [
          | inl overflow ↦ absurd (ground (arith, rw (taken, overflow, load_route) at h))
          | inr ((limited, limiters), read) ↦
              elim (Result-cases (update_endpoint url limited loaded.router)) [
                | inr (e, thrown) ↦
                    absurd (ground (arith, rw (taken, read, thrown, load_route) at h))
                | inl (router, done) ↦
                    let same : record { router = router; limiters = limiters } ≡ loaded' =
                      ground (arith, rw (taken, read, done, load_route) at h) in
                    subst IsLoaded same (
                      update_endpoint-IsLoaded url limited loaded.router router limiters
                        (read_limiter-IsRead el limited loaded.limiters limiters read) done
                        (read_limiter-IsLoaded el method limited loaded limiters read old))
              ]
        ]
      ]

  load_each_route-IsLoaded :
      (els : List x.Element) (loaded loaded' : Loaded)
      → load_each_route x content_path els loaded ≡ some loaded'
      → IsLoaded loaded
      → IsLoaded loaded'
  unfolding load_each_route
  load_each_route-IsLoaded [] loaded loaded' h old =
      let same : loaded ≡ loaded' = ground (arith, h) in subst IsLoaded same old
  load_each_route-IsLoaded (el ∷ els) loaded loaded' h old =
      elim (Option-cases (load_route x content_path el loaded)) [
        | inl failed ↦ absurd (ground (arith, rw (failed, load_each_route) at h))
        | inr (next, done) ↦
            load_each_route-IsLoaded els next loaded' (rw (done, load_each_route) at h)
              (load_route-IsLoaded el loaded next done old)
      ]

-- The router before the configuration is loaded.
abbrev pub not_loaded : Loaded
not_loaded = record { router = new_router; limiters = [] }

default_method-IsSound :
    (m : Method) (h : Handler)
    → assign_handler m ≡ returns h
    → IsSound [] m (default_method root_file m h)
default_method-IsSound m h assigned = record {
  own_method = refl;
  handled = assigned;
  asks_role = λ k. absurd (ground (arith, k));
  gives_role = λ k. absurd (ground (arith, k));
  limited = λ id k. absurd (ground (arith, k));
}

not_loaded-route :
    (url : Bytes) (m : Method) (e : EndpointMethod)
    → route new_router url m ≡ some e
    → ((m ≡ get) × (default_method root_file get get_handler ≡ e))
      ⊎ ((m ≡ head) × (default_method root_file head head_handler ≡ e))
unfolding route lookup add_method insert
not_loaded-route url get e at = ground (arith, at)
not_loaded-route url head e at = ground (arith, at)
not_loaded-route url _ e at = ground (arith, at)

pub not_loaded-IsLoaded : IsLoaded not_loaded
unfolding assign_handler
not_loaded-IsLoaded url m e at = elim (not_loaded-route url m e at) [
  | inl (same, own) ↦ rw (same, sym own) (default_method-IsSound get get_handler refl)
  | inr (same, own) ↦ rw (same, sym own) (default_method-IsSound head head_handler refl)
]

pub load_routes-IsLoaded :
    (x : Xml) (content_path : Bytes) (config : x.Element) (loaded loaded' : Loaded)
    → load_routes x content_path config loaded ≡ some loaded'
    → IsLoaded loaded
    → IsLoaded loaded'
unfolding load_routes
load_routes-IsLoaded x content_path config loaded loaded' h old =
    elim (Option-cases (first_child x config (codes "Routes"))) [
      | inl missing ↦
          let same : loaded ≡ loaded' = ground (arith, rw (missing, load_routes) at h) in
          subst IsLoaded same old
      | inr (routes, found) ↦
          load_each_route-IsLoaded x content_path (x.children routes (codes "Route")) loaded loaded'
            (rw (found, load_routes) at h) old
    ]

-- Every route of the router that `loadRoutes` has filled is sound: it is served by the handler of
-- its own method, asks for a role that is not empty if it is protected, has a role to give that
-- is not empty if it authenticates, and its limiter, if it has one, is among those that were
-- loaded. The routes of the program itself, which are in the router before, are among them.
pub load_routes-IsSound :
    (x : Xml) (content_path : Bytes) (config : x.Element) (loaded : Loaded) (url : Bytes)
    (m : Method) (e : EndpointMethod)
    → load_routes x content_path config not_loaded ≡ some loaded
    → route loaded.router url m ≡ some e
    → IsSound loaded.limiters m e
load_routes-IsSound x content_path config loaded url m e h at =
    load_routes-IsLoaded x content_path config not_loaded loaded h not_loaded-IsLoaded url m e at
