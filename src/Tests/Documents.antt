-- ===== src/Tests/Documents.antt =====
-- A small XML document, and what is loaded from it.
use cgi_web_server.Base.{ℕ, true, ◌&&◌, Option, none, some, List, [], ◌∷◌, ◌==◌, if◌then◌else◌}
use cgi_web_server.Config.Secret.{Source}
use cgi_web_server.Config.Settings.{Startup}
use cgi_web_server.Config.Xml.{Xml}
use cgi_web_server.Pipeline.{Spawning}
use cgi_web_server.Text.{Bytes, codes, equal}

-- The rows of an element with a name.
abbrev pub rows {ℓ} : {A : Type ℓ} → ℕ → Bytes → List (ℕ × Bytes × A) → List A
rows el name [] = []
rows el name ((i, key, a) ∷ later) =
    if i == el && equal key name then a ∷ rows el name later else rows el name later

abbrev pub first {ℓ} : {A : Type ℓ} → List A → Option A
first [] = none
first (a ∷ later) = some a

-- An element is its number.
abbrev pub document : Xml
document = record {
  Element = ℕ;
  attribute = λ el name. first (
      rows el name (
        (3, codes "endpoint", codes "/run")
        ∷ (3, codes "method", codes "POST")
        ∷ (3, codes "script", codes "run.cgi")
        ∷ (3, codes "protected", codes "true")
        ∷ (4, codes "max_requests", codes "20")
        ∷ (4, codes "window", codes "2m")
        ∷ (7, codes "code", codes "404")
        ∷ (7, codes "file", codes "404.html")
        ∷ []));
  get_text = λ el. if el == 1 then some (codes "www") else none;
  children = λ el name. rows el name (
      (0, codes "WebDirectory", 1)
      ∷ (0, codes "Routes", 2)
      ∷ (2, codes "Route", 3)
      ∷ (3, codes "RateLimit", 4)
      ∷ (0, codes "ErrorPages", 6)
      ∷ (6, codes "ErrorPage", 7)
      ∷ []);
  next_sibling = λ el name. none;
}

abbrev pub source : Source
source = record {
  opens = λ path. true;
  file_size = λ path. some 3;
  reads = λ path. some (1 ∷ 2 ∷ []) ∷ some (3 ∷ []) ∷ [];
  random = λ n. none;
}

abbrev pub startup : Startup
startup = record {
  secrets = source;
  hardware = 4;
  enters = λ path. true;
  resolve_log_path = λ path. path;
  endpoints = [];
}

-- Every call succeeds.
abbrev pub all_well : Spawning
all_well = record {
  stdin_pipe = true;
  stdout_pipe = true;
  adds_stdin_dup2 = true;
  adds_stdout_dup2 = true;
  adds_stdin_close = true;
  adds_stdout_close = true;
  spawns = true;
  writes = true;
}
