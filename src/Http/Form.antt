-- ===== src/Http/Form.antt =====
-- src/http.cpp: `url_decode`, `parse_url_form` and `is_valid_url_form`.
pub mod Grammar
pub mod Accepts
pub mod Coding
use cgi_web_server.Base.Assoc.{insert}
use cgi_web_server.Base.{
  ℕ, zero, suc, ◌+◌, ◌-◌, ◌*◌, ◌++◌, Bool, true, false, not, ◌&&◌, ◌||◌, none, some, [], ◌∷◌, ltb,
  leb, ◌==◌, if◌then◌else◌, length, drop, List,
}
use cgi_web_server.Http.Response.{Headers}
use cgi_web_server.Text.{
  Bytes, bytes_keys, find, find_at, substr, is_empty, is_xdigit, is_alnum, within,
}

-- The value of a hexadecimal digit, as `std::strtol` reads it in base 16.
unfoldable pub hex_value : ℕ → ℕ
hex_value c =
    if within b'0' b'9' c
    then c - b'0'
    else if within b'a' b'f' c
    then c - b'a' + 10
    else c - b'A' + 10

unfoldable pub plus_to_space : ℕ → ℕ
plus_to_space c = if c == b'+' then b' ' else c

unfoldable pub url_decode : Bytes → Bytes
unfolding hex_value is_xdigit
url_decode (c ∷ a ∷ b ∷ s) =
    let escaped = (16 * hex_value a + hex_value b) ∷ url_decode s in
    let plain = plus_to_space c ∷ url_decode (a ∷ b ∷ s) in
    if c == b'%' && is_xdigit a && is_xdigit b then escaped else plain
url_decode (c ∷ s) = plus_to_space c ∷ url_decode s
url_decode [] = []

-- `std::getline` with '&': the pieces between the separators, with no empty piece at the end.
unfoldable pub split_amp : Bytes → Bytes → List Bytes
split_amp [] [] = []
split_amp (x ∷ cur) [] = (x ∷ cur) ∷ []
split_amp cur (c ∷ s) =
    let closed = cur ∷ split_amp [] s in
    let longer = split_amp (cur ++ c ∷ []) s in if c == b'&' then closed else longer

-- One piece of a form: stored if it has a '='.
unfoldable pub store_pair : Bytes → Headers → Headers
unfolding find url_decode
store_pair piece result = elim (find (b'=' ∷ []) piece) [
  | none ↦ result
  | some pos ↦ insert (url_decode (substr piece 0 pos)) (url_decode (drop (pos + 1) piece)) result
]

unfoldable pub store_pairs : List Bytes → Headers → Headers
unfolding store_pair
store_pairs [] result = result
store_pairs (piece ∷ pieces) result = store_pairs pieces (store_pair piece result)

-- The JSON object of strings that the form spells.
unfoldable pub parse_url_form : Bytes → Headers
unfolding split_amp store_pairs
parse_url_form body = store_pairs (split_amp [] body) []

-- A byte that stands for itself in a form.
unfoldable pub is_form_char : ℕ → Bool
unfolding is_alnum
is_form_char c = c == b'+' || is_alnum c || c == b'-' || c == b'_' || c == b'.' || c == b'~'

-- The loop over the first `m` bytes of a text; an escape may look behind them.
unfoldable pub check_run : Bytes → ℕ → Bool
check_run s zero = true
check_run [] (suc m) = true
check_run (c ∷ a ∷ b ∷ s) (suc m) =
    let escaped = check_run s (m - 2) in
    let plain = check_run (a ∷ b ∷ s) m in
    if c == b'%' then is_xdigit a && is_xdigit b && escaped else is_form_char c && plain
check_run (c ∷ s) (suc m) =
    let plain = check_run s m in if c == b'%' then false else is_form_char c && plain

-- The outer loop, on what is left of the text. Each round drops a byte at least, so fuel above
-- the length is enough.
unfoldable pub check_pairs : ℕ → Bytes → Bool
check_pairs zero s = false
check_pairs (suc f) [] = true
check_pairs (suc f) (c ∷ r) =
    let s = c ∷ r in
    elim (find (b'=' ∷ []) s) [
      | none ↦ false
      | some zero ↦ false
      | some (suc k) ↦
          if check_run s (suc k)
          then elim (find_at (b'&' ∷ []) s (suc k + 1)) [
            | none ↦ check_run (drop (suc k + 1) s) (length s - (suc k + 1))
            | some amp ↦
                if check_run (drop (suc k + 1) s) (amp - (suc k + 1))
                then check_pairs f (drop (amp + 1) s)
                else false
          ]
          else false
    ]

unfoldable pub is_valid_url_form : Bytes → Bool
unfolding check_pairs
is_valid_url_form s = if is_empty s then false else check_pairs (length s + 1) s
