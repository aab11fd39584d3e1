-- ===== src/Config/Secret/Hex.antt =====
-- src/config.cpp: a secret is read whole from its file, and a generated one spells its bytes.
use cgi_web_server.Base.{
  ℕ, ◌+◌, ◌-◌, ◌*◌, ◌<◌, ◌≤◌, ◌/◌, ◌%◌, ◌≡◌, refl, sym, ap, ap₂, ◌∙◌, arith, ltb, true, false, none,
  some, List, [], ◌∷◌, ◌++◌, map, if◌then◌else◌, All, all, length, length-append, take-length,
  append-nil, append_assoc, joined,
}
use cgi_web_server.Config.Secret.{
  Source, read_loop, complete, load_jwt_secret_from_file, hex_digit, convert_to_hex,
}
use cgi_web_server.Http.Form.{hex_value}
use cgi_web_server.Text.{Bytes, is_empty, is_xdigit}

read_loop-chunks :
    (size : ℕ) (got : Bytes) (chunks : List Bytes)
    → length (got ++ joined chunks) ≡ size
    → All (λ c. is_empty c ≡ false) chunks
    → read_loop size got (map some chunks) ≡ some (got ++ joined chunks)
unfolding read_loop
read_loop-chunks size got [] whole h = ap some (sym (append-nil got))
read_loop-chunks size got ([] ∷ chunks) whole (c, h) = absurd (ground (arith, c))
read_loop-chunks size got ((b ∷ bytes) ∷ chunks) whole (c, h) =
    let total : length (got ++ ((b ∷ bytes) ++ joined chunks))
        ≡ length got + (length (b ∷ bytes) + length (joined chunks)) =
      length-append got ((b ∷ bytes) ++ joined chunks)
      ∙ ap (λ n. length got + n) (length-append (b ∷ bytes) (joined chunks)) in
    let room : length (b ∷ bytes) ≤ size - length got = omega (arith, total, whole) in
    let more : ltb (length got) size ≡ true = ground (arith, total, whole) in
    let assoc = append_assoc got (b ∷ bytes) (joined chunks) in
    rw (more, take-length (size - length got) (b ∷ bytes) room)
      (read_loop-chunks size (got ++ b ∷ bytes) chunks (ap length assoc ∙ whole) h ∙ ap some assoc)

complete_whole : (s : Bytes) → complete (length s) (some s) ≡ (if is_empty s then none else some s)
unfolding complete
complete_whole [] = refl
complete_whole (c ∷ s) = ground arith

-- A secret file that can be read, in pieces of any length, is the secret as it stands; an empty
-- one stops the server.
pub load_jwt_secret_from_file-chunks :
    (os : Source) (path : Bytes) (chunks : List Bytes)
    → os.opens path ≡ true
    → os.reads path ≡ map some chunks
    → os.file_size path ≡ some (length (joined chunks))
    → All (λ c. is_empty c ≡ false) chunks
    → load_jwt_secret_from_file os (some path)
      ≡ (if is_empty (joined chunks) then none else some (joined chunks))
unfolding load_jwt_secret_from_file complete
load_jwt_secret_from_file-chunks os path chunks opens reads size h =
    rw
      (
        opens,
        size,
        reads,
        read_loop-chunks (length (joined chunks)) [] chunks refl h,
        load_jwt_secret_from_file,
      )
      (complete_whole (joined chunks))

-- The bytes that pairs of hexadecimal digits spell.
unfoldable pub hex_bytes : Bytes → Bytes
unfolding hex_value
hex_bytes (a ∷ b ∷ s) = (16 * hex_value a + hex_value b) ∷ hex_bytes s
hex_bytes _ = []

hex_value-hex_digit : (d : ℕ) → d < 16 → hex_value (hex_digit d) ≡ d
unfolding hex_value hex_digit
hex_value-hex_digit d h = ground arith

is_xdigit-hex_digit : (d : ℕ) → d < 16 → is_xdigit (hex_digit d) ≡ true
unfolding is_xdigit hex_digit
is_xdigit-hex_digit d h = ground arith

-- A generated secret spells its random bytes in hexadecimal digits, two for each byte, so it
-- keeps all that is random in them.
pub convert_to_hex-hex_bytes :
    (s : Bytes)
    → All (λ b. b < 256) s
    → (hex_bytes (convert_to_hex s) ≡ s)
      × (length (convert_to_hex s) ≡ 2 * length s)
      × (all is_xdigit (convert_to_hex s) ≡ true)
unfolding hex_bytes convert_to_hex
convert_to_hex-hex_bytes [] h = (refl, refl, refl)
convert_to_hex-hex_bytes (b ∷ s) (byte, h) =
    let (same, long, digits) = convert_to_hex-hex_bytes s h in
    let hi = hex_value-hex_digit (b / 16) (omega arith) in
    let lo = hex_value-hex_digit (b % 16) (omega arith) in
    let hi_digit = is_xdigit-hex_digit (b / 16) (omega arith) in
    let lo_digit = is_xdigit-hex_digit (b % 16) (omega arith) in
    (ap₂ ◌∷◌ (rw (hi, lo) (omega arith)) same, omega (arith, long), rw (hi_digit, lo_digit) digits)
