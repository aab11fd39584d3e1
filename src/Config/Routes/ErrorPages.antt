-- ===== src/Config/Routes/ErrorPages.antt =====
-- src/config.cpp: `loadErrorPages` goes on with the sibling of the wrong element.
use cgi_web_server.Base.{ℕ, zero, suc, ◌≡◌, refl, inl, inr, Option-cases, Option, none, some}
use cgi_web_server.Config.Routes.{load_error_page, load_error_pages_from, load_error_pages}
use cgi_web_server.Config.Xml.{Xml, first_child}
use cgi_web_server.Router.{Router}
use cgi_web_server.Text.{codes}

load_error_pages_from-stuck :
    (x : Xml) (fuel : ℕ) (el page sibling : x.Element) (r : Router)
    → x.next_sibling el (codes "ErrorPage") ≡ some sibling
    → load_error_pages_from x fuel el (some page) r ≡ none
unfolding load_error_pages_from
load_error_pages_from-stuck x zero el page sibling r h = refl
load_error_pages_from-stuck x (suc fuel) el page sibling r h =
    rw (h, load_error_pages_from)
      (load_error_pages_from-stuck x fuel el sibling sibling (load_error_page x page r) h)

-- Of the pages inside `ErrorPages`, one at least, only the first is read if no element
-- `ErrorPage` follows `ErrorPages`; and if one does, the loop does not end within any number of
-- rounds.
pub load_error_pages_lem :
    (x : Xml) (fuel : ℕ) (config el page : x.Element) (r : Router)
    → first_child x config (codes "ErrorPages") ≡ some el
    → first_child x el (codes "ErrorPage") ≡ some page
    → load_error_pages x (suc fuel) config r
      ≡ elim (x.next_sibling el (codes "ErrorPage")) as (λ _. Option Router) [
        | none ↦ some (load_error_page x page r)
        | some sibling ↦ none
      ]
unfolding load_error_pages
load_error_pages_lem x fuel config el page r found inside =
    elim (Option-cases (x.next_sibling el (codes "ErrorPage"))) [
      | inl last ↦ rw (found, inside, last, load_error_pages) refl
      | inr (sibling, follows) ↦
          rw (found, inside, follows, load_error_pages)
            (load_error_pages_from-stuck x fuel el sibling sibling (load_error_page x page r)
              follows)
    ]
