-- ===== src/Tests/Routes.antt =====
-- Examples for the router and the roles.
use cgi_web_server.Base.Assoc.{lookup, insert}
use cgi_web_server.Base.{
  ◌≡◌, ◌⊎◌, ◌&&◌, refl, Bool, true, false, none, some, List, [], ◌∷◌, if◌then◌else◌,
}
use cgi_web_server.Config.Roles.Star.{include_all-includes_role}
use cgi_web_server.Config.Roles.{
  Role, contains, default_roles, find_role, includes_role, include_all, titles, user, admin_role,
  admin,
}
use cgi_web_server.Http.Method.{get, post, options, not_allowed, method_keys, method_eq}
use cgi_web_server.Http.Response.{returns, http_error, ◌>>=◌}
use cgi_web_server.Http.Status
use cgi_web_server.Router.Endpoints.{
  visit, visits, get_endpoint_method-visits, IsDefault, get_endpoint_method-new, route,
  update_endpoint-route,
}
use cgi_web_server.Router.{
  Handler, post_handler, EndpointMethod, Endpoint, new_endpoint, add_method, get_method,
  assign_handler, Router, new_router, default_method, get_endpoint_method, update_endpoint,
}
use cgi_web_server.Text.{Bytes, bytes_keys, codes, equal}

abbrev secret_route : EndpointMethod
secret_route = record (default_method (codes "secret.cgi") post post_handler) {
  is_protected = true;
  access_role = codes "admin";
}

abbrev secret_endpoint : Endpoint
secret_endpoint = add_method secret_route new_endpoint

abbrev router : Router
router = record new_router {
  endpoints = insert (codes "/secret") secret_endpoint new_router.endpoints;
}

at_secret : lookup (codes "/secret") router.endpoints ≡ some secret_endpoint
unfolding lookup insert
at_secret = refl

no_page : lookup (codes "/a.html") router.endpoints ≡ none
unfolding lookup insert
no_page = refl

abbrev requests : List ((Bytes → Bool) × Bytes)
requests = ((λ file. true), codes "/secret") ∷ ((λ file. false), codes "/secret") ∷ []

get_endpoint_method-visits_example :
    get_endpoint_method (λ file. true) (visits requests router) (codes "/secret") post
    ≡ (get_method secret_endpoint post >>= λ method. returns (visits requests router, method))
get_endpoint_method-visits_example =
    get_endpoint_method-visits requests (λ file. true) (codes "/secret") post router secret_endpoint
      at_secret

get_endpoint_method-new_example :
    ((true ≡ false)
      × (get_endpoint_method (λ file. true) router (codes "/a.html") get
          ≡ http_error Status.not_found))
    ⊎ ((true ≡ true)
        × (((method : EndpointMethod) × IsDefault (codes "/a.html") get method
              × (get_endpoint_method (λ file. true) router (codes "/a.html") get
                  ≡ returns (visit (λ file. true) (codes "/a.html") router, method)))
            ⊎ ((get ≡ post) ⊎ (get ≡ options) ⊎ (get ≡ not_allowed))
              × (get_endpoint_method (λ file. true) router (codes "/a.html") get
                  ≡ http_error Status.method_not_allowed)))
get_endpoint_method-new_example =
    get_endpoint_method-new (λ file. true) (codes "/a.html") get router no_page

abbrev updated_router : Router
updated_router = record new_router {
  endpoints = insert (codes "/secret") secret_endpoint new_router.endpoints;
}

updates : update_endpoint (codes "/secret") secret_route new_router ≡ returns updated_router
unfolding update_endpoint assign_handler lookup insert
updates = refl

update_endpoint-route_example :
    (h : Handler) × (assign_handler post ≡ returns h)
    × (route updated_router (codes "/") get ≡ (
        if equal (codes "/secret") (codes "/") && method_eq post get
        then some (record secret_route { handler = h })
        else route new_router (codes "/") get))
update_endpoint-route_example =
    update_endpoint-route (codes "/secret") (codes "/") get secret_route new_router updated_router
      updates

has_admin : contains admin (admin ∷ []) ≡ true
unfolding contains
has_admin = refl

admin_found : lookup admin default_roles ≡ some admin_role
unfolding default_roles lookup insert
admin_found = refl

user_known : contains user (titles default_roles) ≡ true
unfolding default_roles contains insert
user_known = refl

include_all-includes_role_example :
    (r : Role) × (find_role (include_all (admin ∷ []) default_roles) admin ≡ some r)
    × (r.title ≡ admin)
    × (includes_role r user ≡ true)
include_all-includes_role_example =
    include_all-includes_role (admin ∷ []) default_roles admin user admin_role has_admin admin_found
      user_known
