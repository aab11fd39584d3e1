-- ===== src/Config/Secret.antt =====
-- src/config.cpp: the secret that tokens are signed with. No result: the server stops, by `FATAL`
-- or by an exception that nobody catches.
pub mod Hex
use cgi_web_server.Base.Int.{ℤ, pos, to_u64}
use cgi_web_server.Base.{
  ℕ, zero, suc, ◌+◌, ◌-◌, ◌/◌, ◌%◌, Bool, true, false, not, ◌||◌, Option, none, some, List, [], ◌∷◌,
  ◌++◌, if◌then◌else◌, ltb, ◌==◌, length, take,
}
use cgi_web_server.Config.Xml.{Xml, first_child, or_empty}
use cgi_web_server.Text.Number.{stoi}
use cgi_web_server.Text.{Bytes, codes, equal, is_empty}

abbrev pub default_jwt_secret_size : ℕ
default_jwt_secret_size = 64

-- The operating system below `loadJWTSecretFromFile` and `generate_rand_secret`.
pub record Source : Type 0 where
  -- whether `open` succeeds
  pub opens : Bytes → Bool
  -- `st_size`, where `fstat` succeeds
  pub file_size : Bytes → Option ℕ
  -- what the calls of `read` come back with, no result for an error; after them a read is at the
  -- end of the file
  pub reads : Bytes → List (Option Bytes)
  -- `RAND_bytes`, where it succeeds
  pub random : ℕ → Option Bytes

-- The loop over `read`, up to a number of bytes: the bytes read.
unfoldable pub read_loop : ℕ → Bytes → List (Option Bytes) → Option Bytes
read_loop size got [] = some got
read_loop size got (none ∷ answers) = if ltb (length got) size then none else some got
read_loop size got (some [] ∷ answers) = some got
read_loop size got (some (b ∷ bytes) ∷ answers) =
    let more = read_loop size (got ++ take (size - length got) (b ∷ bytes)) answers in
    if ltb (length got) size then more else some got

unfoldable pub complete : ℕ → Option Bytes → Option Bytes
complete size none = none
complete size (some got) =
    if not (length got == size) then none else if is_empty got || size == 0 then none else some got

unfoldable pub load_jwt_secret_from_file : Source → Option Bytes → Option Bytes
unfolding read_loop complete
load_jwt_secret_from_file os text =
    let path = or_empty text in
    elim (os.opens path) [
      | false ↦ none
      | true ↦ elim (os.file_size path) [
        | none ↦ none
        | some size ↦ complete size (read_loop size [] (os.reads path))
      ]
    ]

-- A digit of `std::hex`.
unfoldable pub hex_digit : ℕ → ℕ
hex_digit d = if ltb d 10 then b'0' + d else b'a' + (d - 10)

-- A byte in two places, with a zero before a single digit.
unfoldable pub convert_to_hex : Bytes → Bytes
unfolding hex_digit
convert_to_hex [] = []
convert_to_hex (b ∷ buffer) = hex_digit (b / 16) ∷ hex_digit (b % 16) ∷ convert_to_hex buffer

unfoldable pub generate_rand_secret : Source → ℕ → Option Bytes
unfolding convert_to_hex
generate_rand_secret os len = elim (os.random len) [
  | none ↦ none
  | some buffer ↦ some (convert_to_hex buffer)
]

-- `secret_len`: a length that is no number throws, a negative one wraps.
unfoldable pub secret_length : Option Bytes → Option ℕ
unfolding stoi
secret_length none = some default_jwt_secret_size
secret_length (some text) = elim (stoi text) [ none ↦ none | some len ↦ some (to_u64 len) ]

module _ (x : Xml) (os : Source) where
  unfoldable pub length_text : x.Element → Option Bytes
  unfolding first_child
  length_text secret_elem = elim (first_child x secret_elem (codes "Length")) [
    | none ↦ none
    | some len_elem ↦ x.get_text len_elem
  ]

  -- The secret stays as it is where it is not to be generated.
  unfoldable pub generate_jwt_secret : x.Element → Bytes → Option Bytes
  unfolding secret_length length_text generate_rand_secret
  generate_jwt_secret secret_elem secret =
      if not (equal (or_empty (x.attribute secret_elem (codes "enable"))) (codes "true"))
      then some secret
      else elim (secret_length (length_text secret_elem)) [
        | none ↦ none
        | some len ↦ generate_rand_secret os len
      ]

  unfoldable pub non_empty_secret : Option Bytes → Option Bytes
  non_empty_secret text = if is_empty (or_empty text) then none else some (or_empty text)

  -- `config` is the `ServerConfig` element, `secret` the one from before, which is empty.
  unfoldable pub load_jwt_secret : x.Element → Bytes → Option Bytes
  unfolding load_jwt_secret_from_file generate_jwt_secret non_empty_secret first_child
  load_jwt_secret config secret = elim (first_child x config (codes "JWT")) [
    | none ↦ some secret
    | some jwt_elem ↦ elim (first_child x jwt_elem (codes "SecretFile")) [
      | some secret_elem ↦ load_jwt_secret_from_file os (x.get_text secret_elem)
      | none ↦ elim (first_child x jwt_elem (codes "Secret")) [
        | some secret_elem ↦ non_empty_secret (x.get_text secret_elem)
        | none ↦ elim (first_child x jwt_elem (codes "GenerateSecret")) [
          | some secret_elem ↦ generate_jwt_secret secret_elem secret
          | none ↦ some secret
        ]
      ]
    ]
  ]
