-- ===== src/Config/Settings/Starts.antt =====
-- src/config.cpp: what a configuration that loads makes of the router, the limiters and the
-- pipeline.
use cgi_web_server.Base.Assoc.{lookup}
use cgi_web_server.Base.{
  ℕ, zero, suc, ◌≡◌, ◌⊎◌, refl, ◌∙◌, inl, inr, arith, Bool, true, false, Option, none, some,
  Option-cases, List, [], ◌∷◌, if◌then◌else◌, length, ==_refl,
}
use cgi_web_server.Config.Limiters.Order.{load_global_pipeline-order}
use cgi_web_server.Config.Limiters.{load_global_pipeline}
use cgi_web_server.Config.Routes.Sound.{
  IsLoaded, not_loaded-IsLoaded, IsSound, IsSound-cons, load_routes-IsLoaded,
}
use cgi_web_server.Config.Routes.{
  Loaded, load_error_page, load_error_pages_from, load_error_pages, load_routes,
}
use cgi_web_server.Config.Roles.{load_roles}
use cgi_web_server.Config.Secret.{load_jwt_secret}
use cgi_web_server.Config.Settings.{
  Startup, Settings, ◌then_load◌, text_of, load_host_name, load_port, load_ssl, initialize,
}
use cgi_web_server.Config.Xml.{Xml, first_child}
use cgi_web_server.Http.Method.{Method}
use cgi_web_server.Pipeline.Ready.{HasWindow, IsLimiter, IsReady}
use cgi_web_server.Pipeline.Stages.{Middleware, load_pipeline}
use cgi_web_server.Pipeline.{Limiter, nat_keys}
use cgi_web_server.Router.Endpoints.{route}
use cgi_web_server.Router.{Router, new_router, add_error_page, EndpointMethod}
use cgi_web_server.Text.{Bytes, codes}

then_load-some {ℓ κ} :
    {A : Type ℓ} {B : Type κ} (o : Option A) (f : A → Option B) (b : B)
    → (o then_load f) ≡ some b
    → (a : A) × (o ≡ some a) × (f a ≡ some b)
then_load-some none f b h = absurd (ground (arith, h))
then_load-some (some a) f b h = (a, refl, h)

load_error_page-endpoints :
    (x : Xml) (page : x.Element) (r : Router) → (load_error_page x page r).endpoints ≡ r.endpoints
unfolding load_error_page add_error_page
load_error_page-endpoints x page r = ground arith

load_error_pages_from-endpoints :
    (x : Xml) (fuel : ℕ) (el : x.Element) (page : Option x.Element) (r r' : Router)
    → load_error_pages_from x fuel el page r ≡ some r'
    → r'.endpoints ≡ r.endpoints
unfolding load_error_pages_from
load_error_pages_from-endpoints x fuel el none r r' h = ground (arith, h)
load_error_pages_from-endpoints x zero el (some page) r r' h = absurd (ground (arith, h))
load_error_pages_from-endpoints x (suc fuel) el (some page) r r' h =
    load_error_pages_from-endpoints x fuel el (x.next_sibling el (codes "ErrorPage"))
      (load_error_page x page r) r' h
    ∙ load_error_page-endpoints x page r

load_error_pages-endpoints :
    (x : Xml) (fuel : ℕ) (config : x.Element) (r r' : Router)
    → load_error_pages x fuel config r ≡ some r'
    → r'.endpoints ≡ r.endpoints
unfolding load_error_pages
load_error_pages-endpoints x fuel config r r' h =
    elim (Option-cases (first_child x config (codes "ErrorPages"))) [
      | inl missing ↦ ground (arith, rw (missing, load_error_pages) at h)
      | inr (el, found) ↦
          load_error_pages_from-endpoints x fuel el (first_child x el (codes "ErrorPage")) r r'
            (rw (found, load_error_pages) at h)
    ]

-- What is loaded does not depend on the error pages.
IsLoaded-endpoints :
    (r r' : Router) (limiters : List (ℕ × Limiter))
    → r'.endpoints ≡ r.endpoints
    → IsLoaded (record { router = r; limiters = limiters })
    → IsLoaded (record { router = r'; limiters = limiters })
unfolding route
IsLoaded-endpoints r r' limiters same old url m e at = old url m e (rw same at at)

-- What a configuration that loads leaves behind.
pub record IsStarted (settings : Settings) : Type 0 where
  pub global : Option ℕ
  pub uses_ip : Bool
  pub pipeline : settings.middlewares ≡ load_pipeline global uses_ip
  pub global_there : (id : ℕ) → global ≡ some id → IsLimiter settings.limiters id
  pub sound :
      (url : Bytes) (m : Method) (e : EndpointMethod)
      → route settings.router url m ≡ some e
      → IsSound settings.limiters m e

lookup_first :
    (id : ℕ) (l : Limiter) (limiters : List (ℕ × Limiter)) → lookup id ((id, l) ∷ limiters) ≡ some l
unfolding lookup
lookup_first id l limiters = rw (==_refl id) refl

order_of :
    (id : ℕ) (middlewares : List Middleware) {P Q : Type 0}
    → ((middlewares ≡ load_pipeline (some id) true) × P)
      ⊎ ((middlewares ≡ load_pipeline (some id) false) × Q)
    → (uses_ip : Bool) × (middlewares ≡ load_pipeline (some id) uses_ip)
order_of id middlewares (inl (placed, _)) = (true, placed)
order_of id middlewares (inr (placed, _)) = (false, placed)

some_injective : {a b : ℕ} → some a ≡ some b → a ≡ b
some_injective e = ground (arith, e)

global_pipeline-IsStarted :
    (x : Xml) (id : ℕ) (config : x.Element) (loaded : Loaded) (limiters : List (ℕ × Limiter))
    (middlewares : List Middleware) (settings : Settings)
    → load_global_pipeline x id config loaded.limiters ≡ some (middlewares, limiters)
    → settings.middlewares ≡ middlewares
    → settings.limiters ≡ limiters
    → settings.router ≡ loaded.router
    → IsLoaded loaded
    → IsStarted settings
global_pipeline-IsStarted x id config loaded limiters middlewares settings h e1 e2 e3 old =
    elim (load_global_pipeline-order x id config loaded.limiters limiters middlewares h) [
      | inl (kept, uses_ip, order) ↦ record {
        global = none;
        uses_ip = uses_ip;
        pipeline = e1 ∙ order;
        global_there = λ k at. absurd (ground (arith, at));
        sound = λ url m e at. rw (e2, kept) (old url m e (rw e3 at at));
      }
      | inr (l, grown, order) ↦
          let first : lookup id settings.limiters ≡ some l = rw (e2, grown) (lookup_first id l _) in
          let (uses_ip, placed) = order_of id middlewares order in
          record {
            global = some id;
            uses_ip = uses_ip;
            pipeline = e1 ∙ placed;
            global_there = λ k at. (l, rw (some_injective at) at first);
            sound = λ url m e at.
                rw (e2, grown) (IsSound-cons loaded.limiters id l m e (old url m e (rw e3 at at)));
          }
    ]

pub initialize-IsStarted :
    (x : Xml) (fuel : ℕ) (start : Startup) (config : x.Element) (settings : Settings)
    → initialize x fuel start config ≡ some settings
    → IsStarted settings
unfolding initialize
initialize-IsStarted x fuel start config settings h =
    let (content_path, q1, h1) = then_load-some (text_of x config (codes "WebDirectory")) _ _ h in
    let (_, q2, h2) =
      then_load-some (if start.enters content_path then some content_path else none) _ _ h1 in
    let (host_name, q3, h3) = then_load-some (load_host_name x config) _ _ h2 in
    let (secret, q4, h4) = then_load-some (load_jwt_secret x start.secrets config []) _ _ h3 in
    let (port, q5, h5) = then_load-some (load_port x config) _ _ h4 in
    let (pages, q6, h6) = then_load-some (load_error_pages x fuel config new_router) _ _ h5 in
    let (roles, q7, h7) = then_load-some (load_roles x config) _ _ h6 in
    let (ssl, q8, h8) = then_load-some (load_ssl x config port) _ _ h7 in
    let (loaded, q9, h9) =
      then_load-some (load_routes x content_path config (record { router = pages; limiters = [] }))
        _ _ h8 in
    let ((middlewares, limiters), q10, h10) =
      then_load-some (load_global_pipeline x (length loaded.limiters) config loaded.limiters) _ _
        h9 in
    let old =
      load_routes-IsLoaded x content_path config (record { router = pages; limiters = [] }) loaded
        q9
        (IsLoaded-endpoints new_router pages []
          (load_error_pages-endpoints x fuel config new_router pages q6) not_loaded-IsLoaded) in
    global_pipeline-IsStarted x (length loaded.limiters) config loaded limiters middlewares settings
      q10 (ground (arith, h10)) (ground (arith, h10)) (ground (arith, h10)) old

-- With windows that are not empty, what is loaded serves every request.
pub IsStarted-IsReady :
    (settings : Settings) (started : IsStarted settings)
    → ((id : ℕ) (l : Limiter) → lookup id settings.limiters ≡ some l → HasWindow l)
    → IsReady started.global settings.router settings.limiters
IsStarted-IsReady settings started windows = record {
  windows = windows;
  global_there = started.global_there;
  routes = λ url m e at. (started.sound url m e at).limited;
}
