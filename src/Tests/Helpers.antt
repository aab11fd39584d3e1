-- ===== src/Tests/Helpers.antt =====
-- Tests that decide the side conditions of the examples.
use cgi_web_server.Base.{ℕ, ◌≡◌, arith, Bool, true, not, ◌&&◌, [], ◌∷◌, ◌==◌, ltb, All}
use cgi_web_server.Http.Form.Coding.{IsByte}
use cgi_web_server.Http.Request.Render.{IsHeader}
use cgi_web_server.Text.Find.{Without}
use cgi_web_server.Text.{Bytes}

abbrev pub avoids : ℕ → Bytes → Bool
avoids c [] = true
avoids c (x ∷ s) = not (x == c) && avoids c s

pub Without-of_avoids : (c : ℕ) (s : Bytes) → avoids c s ≡ true → Without c s
Without-of_avoids c [] h = tt
Without-of_avoids c (x ∷ s) h = (ground arith, Without-of_avoids c s (ground arith))

-- A header that the tests above take for one.
abbrev pub is_plain : Bytes × Bytes → Bool
is_plain (name, value) = avoids b':' name && (avoids b'\r' name && avoids b'\r' value)

pub IsHeader-of_is_plain : (h : Bytes × Bytes) → is_plain h ≡ true → IsHeader h
IsHeader-of_is_plain (name, value) h = record {
  no_colon = Without-of_avoids b':' name (ground arith);
  no_cr = Without-of_avoids b'\r' name (ground arith);
  no_cr_value = Without-of_avoids b'\r' value (ground arith);
}

abbrev pub are_bytes : Bytes → Bool
are_bytes [] = true
are_bytes (x ∷ s) = ltb x 256 && are_bytes s

pub IsByte-of_are_bytes : (s : Bytes) → are_bytes s ≡ true → All IsByte s
IsByte-of_are_bytes [] h = tt
IsByte-of_are_bytes (x ∷ s) h = (ground arith, IsByte-of_are_bytes s (ground arith))
