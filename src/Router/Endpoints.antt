-- ===== src/Router/Endpoints.antt =====
-- src/Router.cpp: what the configuration puts into the router and what requests add to it.
use cgi_web_server.Base.Assoc.{lookup, insert, lookup-insert, lookup-insert_self}
use cgi_web_server.Base.{
  ◌≡◌, refl, sym, ap, ◌∙◌, ◌⊎◌, inl, inr, arith, Bool, true, false, Bool-cases, Option, none, some,
  Option-cases, List, [], ◌∷◌, ◌++◌, if◌then◌else◌, ◌&&◌,
}
use cgi_web_server.Http.Method.{
  Method, get, head, post, options, not_allowed, method_keys, method_eq,
}
use cgi_web_server.Http.Response.{returns, throws, http_error, ◌>>=◌, Result-cases}
use cgi_web_server.Http.Status
use cgi_web_server.Router.{
  Handler, get_handler, head_handler, EndpointMethod, Endpoint, new_endpoint, add_method,
  get_method, assign_handler, Router, default_method, create_default_endpoint_method,
  default_endpoint, get_endpoint, get_endpoint_method, update_endpoint,
}
use cgi_web_server.Text.{Bytes, bytes_keys, codes, equal, equal_iff}

abbrev both_defaults : Bytes → Endpoint
both_defaults url =
    add_method (default_method (codes "public" ++ url) head head_handler)
      (add_method (default_method (codes "public" ++ url) get get_handler) new_endpoint)

-- The router after a request for a URL, on the file system of that moment.
unfoldable pub visit : (Bytes → Bool) → Bytes → Router → Router
visit fs url r = elim (get_endpoint fs r url) [ returns (r', e) ↦ r' | throws x ↦ r ]

unfoldable pub visits : List ((Bytes → Bool) × Bytes) → Router → Router
unfolding visit
visits [] r = r
visits ((fs, url) ∷ rest) r = visits rest (visit fs url r)

new_endpoint_at :
    (fs : Bytes → Bool) (url : Bytes) (r : Router)
    → lookup url r.endpoints ≡ none
    → fs (codes "public" ++ url) ≡ true
    → get_endpoint fs r url
      ≡ returns
          (record r { endpoints = insert url (both_defaults url) r.endpoints }, both_defaults url)
unfolding get_endpoint default_endpoint create_default_endpoint_method assign_handler
new_endpoint_at fs url r h ex = rw (h, get_endpoint, ex) refl

visit-lookup :
    (fs : Bytes → Bool) (url at : Bytes) (r : Router) (e : Endpoint)
    → lookup at r.endpoints ≡ some e
    → lookup at (visit fs url r).endpoints ≡ some e
unfolding visit get_endpoint
visit-lookup fs url at r e h = elim (Option-cases (lookup url r.endpoints)) [
  | inl missing ↦ elim (Bool-cases (fs (codes "public" ++ url))) [
    | inl yes_file ↦
        let new = lookup-insert url at (both_defaults url) r.endpoints in
        rw (new_endpoint_at fs url r missing yes_file, visit) (ground (arith, equal_iff url at))
    | inr no_file ↦ rw (missing, visit, get_endpoint, no_file) h
  ]
  | inr (e', found) ↦ rw (found, visit, get_endpoint) h
]

visits-lookup :
    (vs : List ((Bytes → Bool) × Bytes)) (at : Bytes) (r : Router) (e : Endpoint)
    → lookup at r.endpoints ≡ some e
    → lookup at (visits vs r).endpoints ≡ some e
unfolding visits
visits-lookup [] at r e h = h
visits-lookup ((fs, url) ∷ rest) at r e h =
    visits-lookup rest at (visit fs url r) e (visit-lookup fs url at r e h)

-- Requests do not change a route: for a URL that the router holds, after any requests, each on
-- any file system, the method found is that of the endpoint from before, and the error is the
-- same.
pub get_endpoint_method-visits :
    (vs : List ((Bytes → Bool) × Bytes)) (fs : Bytes → Bool) (url : Bytes) (m : Method) (r : Router)
    (e : Endpoint)
    → lookup url r.endpoints ≡ some e
    → get_endpoint_method fs (visits vs r) url m
      ≡ (get_method e m >>= λ method. returns (visits vs r, method))
unfolding get_endpoint_method get_endpoint
get_endpoint_method-visits vs fs url m r e h = rw (visits-lookup vs url r e h, get_endpoint) refl

-- The route of a file under `public` that the configuration does not name.
pub data IsDefault (url : Bytes) : Method → EndpointMethod → Type 0 where
  get_file : IsDefault url get (default_method (codes "public" ++ url) get get_handler)
  head_file : IsDefault url head (default_method (codes "public" ++ url) head head_handler)

new_file :
    (fs : Bytes → Bool) (url : Bytes) (m : Method) (r : Router)
    → lookup url r.endpoints ≡ none
    → fs (codes "public" ++ url) ≡ true
    → ((method : EndpointMethod) × IsDefault url m method
        × (get_endpoint_method fs r url m ≡ returns (visit fs url r, method)))
      ⊎ ((m ≡ post) ⊎ (m ≡ options) ⊎ (m ≡ not_allowed))
        × (get_endpoint_method fs r url m ≡ http_error Status.method_not_allowed)
unfolding get_endpoint_method visit get_method lookup add_method insert
new_file fs url get r h ex =
    inl (_, get_file, rw (new_endpoint_at fs url r h ex, visit, get_endpoint_method) refl)
new_file fs url head r h ex =
    inl (_, head_file, rw (new_endpoint_at fs url r h ex, visit, get_endpoint_method) refl)
new_file fs url post r h ex =
    inr (inl refl, rw (new_endpoint_at fs url r h ex, visit, get_endpoint_method) refl)
new_file fs url options r h ex =
    inr (inr (inl refl), rw (new_endpoint_at fs url r h ex, visit, get_endpoint_method) refl)
new_file fs url not_allowed r h ex =
    inr (inr (inr refl), rw (new_endpoint_at fs url r h ex, visit, get_endpoint_method) refl)

-- A URL that the router does not hold: the answer is 404 exactly where the file system has no
-- file of the name `public` followed by the URL; a GET or HEAD of such a file gets its default
-- route, which asks for no token and runs no script, and every other method gets 405.
pub get_endpoint_method-new :
    (fs : Bytes → Bool) (url : Bytes) (m : Method) (r : Router)
    → lookup url r.endpoints ≡ none
    → ((fs (codes "public" ++ url) ≡ false)
        × (get_endpoint_method fs r url m ≡ http_error Status.not_found))
      ⊎ ((fs (codes "public" ++ url) ≡ true)
          × (((method : EndpointMethod) × IsDefault url m method
                × (get_endpoint_method fs r url m ≡ returns (visit fs url r, method)))
              ⊎ ((m ≡ post) ⊎ (m ≡ options) ⊎ (m ≡ not_allowed))
                × (get_endpoint_method fs r url m ≡ http_error Status.method_not_allowed)))
unfolding get_endpoint_method get_endpoint visit default_endpoint create_default_endpoint_method
    assign_handler add_method get_method lookup insert
get_endpoint_method-new fs url m r h = elim (Bool-cases (fs (codes "public" ++ url))) [
  | inl yes_file ↦ inr (yes_file, new_file fs url m r h yes_file)
  | inr no_file ↦ inl (no_file, rw (h, no_file, get_endpoint) refl)
]

-- The router as a partial map from URLs and methods to routes.
unfoldable pub route : Router → Bytes → Method → Option EndpointMethod
route r url m = elim (lookup url r.endpoints) [ none ↦ none | some e ↦ lookup m e.methods ]

endpoint_at : Router → Bytes → Endpoint
endpoint_at r url = elim (lookup url r.endpoints) [ none ↦ new_endpoint | some e ↦ e ]

updated :
    (url : Bytes) (method : EndpointMethod) (r : Router) (h : Handler)
    → assign_handler method.m ≡ returns h
    → update_endpoint url method r
      ≡ returns (record r {
        endpoints =
            insert url (add_method (record method { handler = h }) (endpoint_at r url)) r.endpoints;
      })
unfolding update_endpoint endpoint_at
updated url method r h assigned = elim (Option-cases (lookup url r.endpoints)) [
  | inl missing ↦ rw (assigned, missing, endpoint_at) refl
  | inr (e, found) ↦ rw (assigned, found, endpoint_at) refl
]

lookup-endpoint_at :
    (url : Bytes) (m : Method) (r : Router) → lookup m (endpoint_at r url).methods ≡ route r url m
unfolding route endpoint_at lookup
lookup-endpoint_at url m r = elim (Option-cases (lookup url r.endpoints)) [
  | inl missing ↦ rw (missing, endpoint_at, route) refl
  | inr (e, found) ↦ rw (found, endpoint_at, route) refl
]

route-updated_own :
    (url : Bytes) (m : Method) (method : EndpointMethod) (r : Router)
    → route
        (record r { endpoints = insert url (add_method method (endpoint_at r url)) r.endpoints })
        url
        m
      ≡ (if method_eq method.m m then some method else route r url m)
unfolding route add_method
route-updated_own url m method r =
    rw (lookup-insert_self url (add_method method (endpoint_at r url)) r.endpoints, route)
      (lookup-insert method.m m method (endpoint_at r url).methods
        ∙ ap (λ o. if method_eq method.m m then some method else o) (lookup-endpoint_at url m r))

route-updated :
    (url v : Bytes) (m : Method) (method : EndpointMethod) (r : Router)
    → route
        (record r { endpoints = insert url (add_method method (endpoint_at r url)) r.endpoints })
        v
        m
      ≡ (if equal url v && method_eq method.m m then some method else route r v m)
unfolding route add_method endpoint_at
route-updated url v m method r = elim (Bool-cases (equal url v)) [
  | inl same ↦ rw (same, sym ((equal_iff url v).0 same)) (route-updated_own url m method r)
  | inr other ↦
      rw (lookup-insert url v (add_method method (endpoint_at r url)) r.endpoints, other, route)
        refl
]

-- The router as a partial map from URLs and methods to routes: where `updateEndpoint` returns,
-- the method given has a handler, the route of its URL and method is the method given with that
-- handler, and every other route is as before.
pub update_endpoint-route :
    (url v : Bytes) (m : Method) (method : EndpointMethod) (r r' : Router)
    → update_endpoint url method r ≡ returns r'
    → (h : Handler) × (assign_handler method.m ≡ returns h)
      × (route r' v m ≡ (
          if equal url v && method_eq method.m m
          then some (record method { handler = h })
          else route r v m))
unfolding update_endpoint
update_endpoint-route url v m method r r' done = elim (Result-cases (assign_handler method.m)) [
  | inl (h, assigned) ↦
      let same = updated url method r h assigned in
      let at : r' ≡ record r {
        endpoints =
            insert url (add_method (record method { handler = h }) (endpoint_at r url)) r.endpoints;
      } =
        ground (arith, done, same) in
      (h, assigned, rw at (route-updated url v m (record method { handler = h }) r))
  | inr (x, failed) ↦
      let failing : update_endpoint url method r ≡ throws x = rw (failed, update_endpoint) refl in
      absurd (ground (arith, done, failing))
]
