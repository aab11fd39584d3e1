-- ===== src/Config/Roles.antt =====
-- src/config.h, src/config.cpp: roles, what they include, and how they are loaded. A role's hash
-- is its title.
pub mod Star
use cgi_web_server.Base.Assoc.{lookup, insert}
use cgi_web_server.Base.{
  ◌≡◌, Bool, true, false, ◌||◌, Option, none, some, List, [], ◌∷◌, ◌++◌, map, if◌then◌else◌,
}
use cgi_web_server.Config.Xml.{Xml, first_child}
use cgi_web_server.Text.{Bytes, bytes_keys, codes, equal, is_empty}

pub record Role : Type 0 where
  pub title : Bytes
  pub includes : List Bytes

-- `std::find(…) != end()`
unfoldable pub contains : Bytes → List Bytes → Bool
contains a [] = false
contains a (x ∷ xs) = equal x a || contains a xs

unfoldable pub includes_role : Role → Bytes → Bool
unfolding contains
includes_role r role = equal r.title role || contains role r.includes

abbrev pub Roles : Type 0
Roles = List (Bytes × Role)

abbrev pub viewer : Bytes
viewer = codes "viewer"

abbrev pub user : Bytes
user = codes "user"

abbrev pub admin : Bytes
admin = codes "admin"

abbrev pub viewer_role : Role
viewer_role = record { title = viewer; includes = [] }

abbrev pub user_role : Role
user_role = record { title = user; includes = viewer ∷ [] }

abbrev pub admin_role : Role
admin_role = record { title = admin; includes = user ∷ viewer ∷ [] }

unfoldable pub find_role : Roles → Bytes → Option Role
find_role roles role = lookup role roles

-- The roles that are there before any is loaded.
unfoldable pub default_roles : Roles
default_roles = insert viewer viewer_role (insert user user_role (insert admin admin_role []))

-- The texts of the `Includes` elements up to the first "*", and whether there is one.
unfoldable pub read_includes : List (Option Bytes) → List Bytes → Bool × List Bytes
read_includes [] includes = (false, includes)
read_includes (none ∷ rest) includes = read_includes rest includes
read_includes (some include ∷ rest) includes =
    let longer = read_includes rest (includes ++ include ∷ []) in
    if equal include (codes "*") then (true, includes) else longer

abbrev pub titles : Roles → List Bytes
titles = map (λ r. r.0)

-- A role's includes grow by the given titles.
unfoldable pub include_titles : Bytes → List Bytes → Roles → Roles
include_titles t more roles = elim (lookup t roles) [
  | none ↦ roles
  | some r ↦ insert t (record { title = r.title; includes = r.includes ++ more }) roles
]

-- The last loop: each role with a "*" includes every title that is loaded.
unfoldable pub include_all : List Bytes → Roles → Roles
unfolding include_titles
include_all [] roles = roles
include_all (t ∷ rest) roles = include_all rest (include_titles t (titles roles) roles)

module _ (x : Xml) where
  -- The roles after an element, and the titles of the roles with a "*". No result: the title is
  -- missing, and the server stops.
  unfoldable pub read_role : x.Element → Roles × List Bytes → Option (Roles × List Bytes)
  unfolding read_includes
  read_role el (roles, full) = elim (x.attribute el (codes "title")) [
    | none ↦ none
    | some title ↦
        if is_empty title
        then none
        else (let (star, includes) =
              read_includes (map x.get_text (x.children el (codes "Includes"))) [] in
            let roles' = insert title (record { title = title; includes = includes }) roles in
            some (roles', if star then full ++ title ∷ [] else full))
  ]

  unfoldable pub read_roles : List x.Element → Roles × List Bytes → Option (Roles × List Bytes)
  unfolding read_role
  read_roles [] state = some state
  read_roles (el ∷ els) state = elim (read_role el state) [
    | none ↦ none
    | some state' ↦ read_roles els state'
  ]

  -- `config` is the `ServerConfig` element.
  unfoldable pub load_roles : x.Element → Option Roles
  unfolding read_roles include_all default_roles first_child
  load_roles config = elim (first_child x config (codes "Roles")) [
    | none ↦ some default_roles
    | some role_config ↦
        elim (read_roles (x.children role_config (codes "Role")) (default_roles, [])) [
          | none ↦ none
          | some (roles, full) ↦ some (include_all full roles)
        ]
  ]
