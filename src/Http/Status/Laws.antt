-- ===== src/Http/Status/Laws.antt =====
-- src/http.cpp: the status lines that the server writes, read back by the server.
use cgi_web_server.Base.Int.{pos}
use cgi_web_server.Base.{ℕ, ◌≡◌, ◌++◌, arith, Bool, ◌||◌, false, List, [], ◌∷◌, ◌==◌, if◌then◌else◌}
use cgi_web_server.Http.Status.{get_status_msg, extract_status_code, enumerators}
use cgi_web_server.Text.{Bytes}

-- `n` is listed.
pub is_listed : ℕ → List ℕ → Bool
is_listed n [] = false
is_listed n (m ∷ ms) = n == m || is_listed n ms

-- The status line of a code, with any text behind it, is read back as that code, if it is one of
-- the codes that the server names, and as 500 otherwise.
pub extract_status_code-get_status_msg :
    (n : ℕ) (rest : Bytes)
    → extract_status_code (get_status_msg (pos n) ++ rest)
      ≡ pos (if is_listed n enumerators then n else 500)
unfolding extract_status_code get_status_msg is_listed enumerators
extract_status_code-get_status_msg n rest = ground arith
