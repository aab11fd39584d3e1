-- ===== src/Tests/Configuration.antt =====
-- Examples for the configuration.
use cgi_web_server.Base.Assoc.{lookup, insert}
use cgi_web_server.Base.{ℕ, ◌≡◌, refl, arith, true, Option, none, some, List, [], ◌∷◌, ◌++◌}
use cgi_web_server.Config.Limiters.{default_limiter}
use cgi_web_server.Config.Roles.{admin}
use cgi_web_server.Config.Routes.ErrorPages.{load_error_pages_lem}
use cgi_web_server.Config.Xml.{first_child}
use cgi_web_server.Http.Method
use cgi_web_server.Pipeline.{Limiter}
use cgi_web_server.Router.Endpoints.{route}
use cgi_web_server.Router.{
  EndpointMethod, default_method, post_handler, new_router, assign_handler, add_method,
}
use cgi_web_server.Config.Routes.Sound.{IsSound, not_loaded, load_routes-IsSound}
use cgi_web_server.Config.Routes.{Loaded, load_routes, load_error_page, load_error_pages}
use cgi_web_server.Config.Times.Units.{get_seconds_from_time_str-to_string}
use cgi_web_server.Config.Times.{get_seconds_multiplier, get_seconds_from_time_str}
use cgi_web_server.Tests.Documents.{document}
use cgi_web_server.Text.Number.{to_string}
use cgi_web_server.Text.{codes, is_digit, is_space, to_lower}

get_seconds_from_time_str-to_string_example :
    get_seconds_from_time_str (some (to_string 2 ++ (codes "Hr" ++ codes " or so"))) ≡ some 7200
unfolding to_lower get_seconds_multiplier is_digit is_space
get_seconds_from_time_str-to_string_example =
    get_seconds_from_time_str-to_string 2 (codes "Hr") (codes " or so") (omega arith) refl
      (refl, (refl, tt)) refl

abbrev after {ℓ} : {A : Type ℓ} → A → Option A → A
after default none = default
after default (some a) = a

abbrev loaded : Loaded
loaded = after not_loaded (load_routes document (codes "www") 0 not_loaded)

abbrev run_route : EndpointMethod
run_route = record (default_method (codes "www/run.cgi") Method.post post_handler) {
  access_role = admin;
  is_protected = true;
  has_script = true;
  rate_limiter = some 0;
}

load_routes-IsSound_example : IsSound loaded.limiters Method.post run_route
unfolding load_routes route assign_handler lookup insert add_method
load_routes-IsSound_example =
    load_routes-IsSound document (codes "www") 0 loaded (codes "/run") Method.post run_route refl
      refl

load_error_pages_lem_example :
    load_error_pages document 1 0 new_router ≡ some (load_error_page document 7 new_router)
unfolding first_child
load_error_pages_lem_example = load_error_pages_lem document 0 0 6 7 new_router refl refl

abbrev global_limiters : List (ℕ × Limiter)
global_limiters = (0, default_limiter) ∷ []
