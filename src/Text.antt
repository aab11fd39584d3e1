-- ===== src/Text.antt =====
-- The operations of `std::string` and `std::string_view` that the sources call, over bytes.
-- A text is the list of its bytes; `npos` is `none`.
pub mod Find
pub mod Number
pub mod Decimal
use Prim.Native.Char.{code}
use cgi_web_server.Base.Assoc.{Eq}
use cgi_web_server.Base.{
  ℕ, zero, suc, ◌+◌, ◌-◌, ◌≡◌, ◌↔◌, refl, ap, Bool, true, false, not, ◌&&◌, ◌||◌, Option, none,
  some, List, [], ◌∷◌, ◌++◌, map, String, arith, ltb, leb, ◌==◌, if◌then◌else◌, length, take, drop,
}

abbrev pub Bytes : Type 0
Bytes = List ℕ

-- The bytes of an ASCII literal.
abbrev pub codes : String → Bytes
codes String.[] = []
codes (String.◌∷◌ c s) = code c ∷ codes s

-- `==` on strings.
abbrev pub equal : Bytes → Bytes → Bool
equal [] [] = true
equal (x ∷ xs) (y ∷ ys) = x == y && equal xs ys
equal _ _ = false

pub equal_iff : (a b : Bytes) → (equal a b ≡ true) ↔ (a ≡ b)
equal_iff (x ∷ a) (y ∷ b) = ground (arith, equal_iff a b)
equal_iff _ _ = ground arith

pub equal_refl : (a : Bytes) → equal a a ≡ true
equal_refl a = (equal_iff a a).1 refl

-- `empty()`
abbrev pub is_empty : Bytes → Bool
is_empty [] = true
is_empty (_ ∷ _) = false

abbrev pub starts_with : Bytes → Bytes → Bool
starts_with [] s = true
starts_with (x ∷ p) [] = false
starts_with (x ∷ p) (c ∷ s) = x == c && starts_with p s

abbrev pub shift : ℕ → Option ℕ → Option ℕ
shift n none = none
shift n (some i) = some (n + i)

-- `s.find(p)`: the first place where `p` stands in `s`.
unfoldable pub find : Bytes → Bytes → Option ℕ
find p [] = if starts_with p [] then some 0 else none
find p (c ∷ s) = if starts_with p (c ∷ s) then some 0 else shift 1 (find p s)

-- `s.find(p, pos)`: nothing is found from a position behind the end.
abbrev pub find_at : Bytes → Bytes → ℕ → Option ℕ
find_at p s pos = if ltb (length s) pos then none else shift pos (find p (drop pos s))

-- `s.rfind(c)`: the last place where the byte `c` stands in `s`.
unfoldable pub rfind : ℕ → Bytes → Option ℕ
rfind c [] = none
rfind c (x ∷ s) = elim (rfind c s) [
  | some i ↦ some (suc i)
  | none ↦ if x == c then some 0 else none
]

-- `s.substr(pos, n)` and `s.substr(pos)`, at a position within the text.
abbrev pub substr : Bytes → ℕ → ℕ → Bytes
substr s pos n = take n (drop pos s)

-- `std::isspace`, `std::isdigit`, `std::isxdigit` and `std::isalnum` in the C locale.
abbrev pub within : ℕ → ℕ → ℕ → Bool
within lo hi c = leb lo c && leb c hi

unfoldable pub is_space : ℕ → Bool
is_space c = c == b' ' || within 9 13 c

unfoldable pub is_digit : ℕ → Bool
is_digit c = within b'0' b'9' c

unfoldable pub is_xdigit : ℕ → Bool
is_xdigit c = within b'0' b'9' c || within b'a' b'f' c || within b'A' b'F' c

unfoldable pub is_alnum : ℕ → Bool
is_alnum c = within b'0' b'9' c || within b'a' b'z' c || within b'A' b'Z' c

-- `std::tolower` and `std::toupper` in the C locale.
unfoldable pub to_lower : ℕ → ℕ
to_lower c = if within b'A' b'Z' c then c + 32 else c

unfoldable pub to_upper : ℕ → ℕ
to_upper c = if within b'a' b'z' c then c - 32 else c

-- The set of `find_first_not_of(" \t\n\r")`.
unfoldable pub is_blank : ℕ → Bool
is_blank c = c == b' ' || c == b'\t' || c == b'\n' || c == b'\r'

-- The text from its first byte that is not blank.
unfoldable pub trim_front : Bytes → Bytes
trim_front [] = []
trim_front (c ∷ s) = if is_blank c then trim_front s else c ∷ s

-- The text up to its last byte that is not blank.
unfoldable pub trim_back : Bytes → Bytes
trim_back [] = []
trim_back (c ∷ s) = elim (trim_back s) [
  | [] ↦ if is_blank c then [] else c ∷ []
  | x ∷ r ↦ c ∷ x ∷ r
]

-- `s.substr(first, last - first + 1)` between the first and the last byte that is not blank, and
-- the empty text where there is none.
unfoldable pub trim_blank : Bytes → Bytes
unfolding trim_front trim_back is_blank
trim_blank s = trim_back (trim_front s)

-- `http::trim_to_lower` and `http::trim_to_upper`.
unfoldable pub trim_to_lower : Bytes → Bytes
unfolding trim_blank to_lower
trim_to_lower s = map to_lower (trim_blank s)

unfoldable pub trim_to_upper : Bytes → Bytes
unfolding trim_blank to_upper
trim_to_upper s = map to_upper (trim_blank s)

instance abbrev pub bytes_keys : Eq Bytes
bytes_keys = record { beq = equal; beq_iff = equal_iff }
