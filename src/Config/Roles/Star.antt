-- ===== src/Config/Roles/Star.antt =====
-- src/config.cpp: a role with "*" includes every role that is loaded.
use cgi_web_server.Base.Assoc.{lookup, insert, lookup-insert, lookup-insert_self, lookup-insert_ne}
use cgi_web_server.Base.{
  ◌≡◌, refl, sym, ap, ◌∙◌, inl, inr, arith, true, some, List, [], ◌∷◌, ◌++◌, Bool-cases,
  Option-cases,
}
use cgi_web_server.Config.Roles.{
  Role, Roles, contains, includes_role, find_role, titles, include_titles, include_all,
}
use cgi_web_server.Text.{Bytes, bytes_keys, equal, equal_iff}

-- A role includes at least what another includes, under the same title.
pub record IsWider (r r' : Role) : Type 0 where
  pub same_title : r.title ≡ r'.title
  pub wider : (u : Bytes) → contains u r.includes ≡ true → contains u r'.includes ≡ true

contains-append_left :
    (u : Bytes) (xs ys : List Bytes) → contains u xs ≡ true → contains u (xs ++ ys) ≡ true
unfolding contains
contains-append_left u [] ys h = cc
contains-append_left u (x ∷ xs) ys h = ground (arith, contains-append_left u xs ys)

contains-append_right :
    (u : Bytes) (xs ys : List Bytes) → contains u ys ≡ true → contains u (xs ++ ys) ≡ true
unfolding contains
contains-append_right u [] ys h = h
contains-append_right u (x ∷ xs) ys h = ground (arith, contains-append_right u xs ys h)

titles-insert :
    (t : Bytes) (r : Role) (old : Role) (roles : Roles)
    → lookup t roles ≡ some old
    → titles (insert t r roles) ≡ titles roles
unfolding lookup insert
titles-insert t r old [] h = cc
titles-insert t r old ((j, w) ∷ roles) h = elim (Bool-cases (equal j t)) [
  | inl same ↦ ground arith
  | inr other ↦ ground (arith, titles-insert t r old roles)
]

titles-include_titles :
    (t : Bytes) (more : List Bytes) (roles : Roles)
    → titles (include_titles t more roles) ≡ titles roles
unfolding include_titles
titles-include_titles t more roles = elim (Option-cases (lookup t roles)) [
  | inl missing ↦ rw (missing, include_titles) refl
  | inr (r, at) ↦ rw (at, include_titles) (titles-insert t _ r roles at)
]

titles-include_all :
    (full : List Bytes) (roles : Roles) → titles (include_all full roles) ≡ titles roles
unfolding include_all
titles-include_all [] roles = refl
titles-include_all (t ∷ rest) roles =
    titles-include_all rest (include_titles t (titles roles) roles)
    ∙ titles-include_titles t (titles roles) roles

IsWider-append :
    (r old : Role) (more : List Bytes)
    → r ≡ old
    → IsWider r (record { title = old.title; includes = old.includes ++ more })
IsWider-append r old more same = record {
  same_title = ap (λ q. q.title) same;
  wider = λ u h.
      contains-append_left u old.includes more (ap (λ q. contains u q.includes) (sym same) ∙ h);
}

IsWider-trans : {a b c : Role} → IsWider a b → IsWider b c → IsWider a c
IsWider-trans ab bc = record {
  same_title = ab.same_title ∙ bc.same_title;
  wider = λ u h. bc.wider u (ab.wider u h);
}

same_entry :
    (r old : Role) (t j : Bytes) (roles : Roles)
    → lookup j roles ≡ some r
    → lookup t roles ≡ some old
    → t ≡ j
    → r ≡ old
same_entry r old t j roles at old_at same = cc

-- What `include_titles` does to the role of a title.
include_titles-IsWider :
    (t j : Bytes) (more : List Bytes) (roles : Roles) (r : Role)
    → lookup j roles ≡ some r
    → (r' : Role) × (lookup j (include_titles t more roles) ≡ some r') × IsWider r r'
unfolding include_titles
include_titles-IsWider t j more roles r at = elim (Option-cases (lookup t roles)) [
  | inl missing ↦
      rw (missing, include_titles) (r, at, record { same_title = refl; wider = λ u h. h })
  | inr (old, old_at) ↦
      rw (old_at, include_titles)
        elim (Bool-cases (equal t j)) [
          | inl same ↦ (
            _,
            rw
                (
                  lookup-insert t j (record { title = old.title; includes = old.includes ++ more })
                      roles,
                  same,
                )
                refl,
            IsWider-append r old more
                (same_entry r old t j roles at old_at ((equal_iff t j).0 same)),
          )
          | inr other ↦ (
            r,
            rw
                (lookup-insert_ne t j
                  (record { title = old.title; includes = old.includes ++ more }) roles other)
                at,
            record { same_title = refl; wider = λ u h. h },
          )
        ]
]

-- Every role is still there after the last loop, and includes what it included.
include_all-IsWider :
    (full : List Bytes) (roles : Roles) (j : Bytes) (r : Role)
    → lookup j roles ≡ some r
    → (r' : Role) × (lookup j (include_all full roles) ≡ some r') × IsWider r r'
unfolding include_all
include_all-IsWider [] roles j r at = (r, at, record { same_title = refl; wider = λ u h. h })
include_all-IsWider (t ∷ rest) roles j r at =
    let (r1, at1, w1) = include_titles-IsWider t j (titles roles) roles r at in
    let (r2, at2, w2) = include_all-IsWider rest (include_titles t (titles roles) roles) j r1 at1 in
    (r2, at2, IsWider-trans w1 w2)

include_titles-own :
    (t : Bytes) (more : List Bytes) (roles : Roles) (r : Role)
    → lookup t roles ≡ some r
    → lookup t (include_titles t more roles)
      ≡ some (record { title = r.title; includes = r.includes ++ more })
unfolding include_titles
include_titles-own t more roles r at = rw (at, include_titles) (lookup-insert_self t _ roles)

-- After the last loop of `loadRoles`, every role that was read with a "*" includes every title
-- that is loaded: for a title that has a "*" and that the map holds, and any key of the map, the
-- role found under the title afterwards keeps its title and includes the role of that key.
pub include_all-includes_role :
    (full : List Bytes) (roles : Roles) (t u : Bytes) (r : Role)
    → contains t full ≡ true
    → lookup t roles ≡ some r
    → contains u (titles roles) ≡ true
    → (r' : Role) × (find_role (include_all full roles) t ≡ some r')
      × (r'.title ≡ r.title)
      × (includes_role r' u ≡ true)
unfolding find_role includes_role include_all contains
include_all-includes_role [] roles t u r has at known = absurd (ground (arith, has))
include_all-includes_role (j ∷ rest) roles t u r has at known = elim (Bool-cases (equal j t)) [
  | inl same ↦
      let own : lookup t (include_titles j (titles roles) roles)
          ≡ some (record { title = r.title; includes = r.includes ++ titles roles }) =
        ap (λ q. lookup t (include_titles q (titles roles) roles)) ((equal_iff j t).0 same)
        ∙ include_titles-own t (titles roles) roles r at in
      let (r', at', w) = include_all-IsWider rest (include_titles j (titles roles) roles) t _ own in
      let all = w.wider u (contains-append_right u r.includes (titles roles) known) in
      (r', at', sym w.same_title, ground (arith, all))
  | inr other ↦
      let (r1, at1, w) = include_titles-IsWider j t (titles roles) roles r at in
      let known1 = ap (contains u) (titles-include_titles j (titles roles) roles) ∙ known in
      let (r', at', same, all) =
        include_all-includes_role rest (include_titles j (titles roles) roles) t u r1
          (ground (arith, has, other)) at1 known1 in
      (r', at', same ∙ sym w.same_title, all)
]
