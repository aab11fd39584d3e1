-- ===== src/Http/Form/Coding.antt =====
-- src/http.cpp: `url_decode` and `parse_url_form` read back what a client's form encoder writes.
use cgi_web_server.Base.Assoc.{insert}
use cgi_web_server.Base.{
  ℕ, ◌+◌, ◌-◌, ◌/◌, ◌%◌, ◌<◌, ◌≡◌, ◌≢◌, refl, sym, ap, ◌∙◌, Bool, true, ◌||◌, List, [], ◌∷◌, ◌++◌,
  append_assoc, append-nil, arith, ltb, ◌==◌, if◌then◌else◌, length, length-append, map, Bool-cases,
  inl, inr, All, All-append,
}
use cgi_web_server.Http.Form.{
  hex_value, plus_to_space, url_decode, is_form_char, split_amp, store_pair, store_pairs,
  parse_url_form,
}
use cgi_web_server.Http.Form.Grammar.{Encoded, nil, plain, escape, Encoded-Without}
use cgi_web_server.Http.Request.HeaderBlock.{insert_all}
use cgi_web_server.Http.Response.{Headers}
use cgi_web_server.Text.Find.{Without, find-append, drop-next, substr-pos}
use cgi_web_server.Text.{Bytes, bytes_keys, is_xdigit, is_alnum}

-- The digit of `n` below 16, in upper case.
hex_digit : ℕ → ℕ
hex_digit n = if ltb n 10 then b'0' + n else b'A' + (n - 10)

is_unreserved : ℕ → Bool
is_unreserved c = is_alnum c || c == b'-' || c == b'_' || c == b'.' || c == b'~'

-- The encoder of `application/x-www-form-urlencoded`: a space is '+', and any other byte that
-- does not stand for itself is an escape.
encode_byte : ℕ → Bytes
encode_byte c =
    if is_unreserved c
    then c ∷ []
    else if c == b' '
    then b'+' ∷ []
    else b'%' ∷ hex_digit (c / 16) ∷ hex_digit (c % 16) ∷ []

pub encode : Bytes → Bytes
encode [] = []
encode (c ∷ s) = encode_byte c ++ encode s

abbrev pub IsByte : ℕ → Type 0
IsByte c = c < 256

url_decode_plain :
    (c : ℕ) (s : Bytes) → c ≢ b'%' → url_decode (c ∷ s) ≡ plus_to_space c ∷ url_decode s
unfolding url_decode
url_decode_plain c [] h = refl
url_decode_plain c (a ∷ []) h = refl
url_decode_plain c (a ∷ b ∷ s) h = ground arith

hex_digit-IsXdigit :
    (n : ℕ) → n < 16 → (is_xdigit (hex_digit n) ≡ true) × (hex_value (hex_digit n) ≡ n)
unfolding is_xdigit hex_digit hex_value
hex_digit-IsXdigit n h = ground arith

url_decode_escape :
    (c : ℕ) (s : Bytes)
    → IsByte c
    → url_decode (b'%' ∷ hex_digit (c / 16) ∷ hex_digit (c % 16) ∷ s) ≡ c ∷ url_decode s
unfolding url_decode
url_decode_escape c s h =
    ground
      (arith, hex_digit-IsXdigit (c / 16) (omega arith), hex_digit-IsXdigit (c % 16) (omega arith))

-- A byte that stands for itself is no '%' and is kept.
unreserved_lem : (c : ℕ) → is_unreserved c ≡ true → (c ≢ b'%') × (plus_to_space c ≡ c)
unfolding is_unreserved is_alnum plus_to_space
unreserved_lem c h = ground arith

is_form_char_of_unreserved : (c : ℕ) → is_unreserved c ≡ true → is_form_char c ≡ true
unfolding is_unreserved is_form_char
is_form_char_of_unreserved c h = ground arith

url_decode-encode_byte :
    (c : ℕ) (s : Bytes) → IsByte c → url_decode (encode_byte c ++ s) ≡ c ∷ url_decode s
unfolding encode_byte
url_decode-encode_byte c s h = elim (Bool-cases (is_unreserved c)) [
  | inl same ↦
      let (ne, keep) = unreserved_lem c same in
      rw same (url_decode_plain c s ne ∙ ap (λ (x : ℕ). x ∷ url_decode s) keep)
  | inr other ↦ elim (Bool-cases (c == b' ')) [
    | inl space ↦
        rw (other, space)
          (url_decode_plain b'+' s (omega arith)
            ∙ ap (λ (x : ℕ). x ∷ url_decode s) (unfold plus_to_space in ground arith))
    | inr byte ↦ rw (other, byte) (url_decode_escape c s h)
  ]
]

-- Decoding gives back every byte string that was encoded as a form's text.
pub url_decode-encode : (s : Bytes) → All IsByte s → url_decode (encode s) ≡ s
unfolding encode
url_decode-encode [] h = unfold url_decode in refl
url_decode-encode (c ∷ s) (b, h) =
    url_decode-encode_byte c (encode s) b ∙ ap (◌∷◌ c) (url_decode-encode s h)

Encoded-append : {a b : Bytes} → Encoded a → Encoded b → Encoded (a ++ b)
Encoded-append nil f = f
Encoded-append (plain p e) f = plain p (Encoded-append e f)
Encoded-append (escape x y e) f = escape x y (Encoded-append e f)

encode_byte-Encoded : (c : ℕ) → IsByte c → Encoded (encode_byte c)
unfolding encode_byte
encode_byte-Encoded c h = elim (Bool-cases (is_unreserved c)) [
  | inl same ↦ rw same (plain (is_form_char_of_unreserved c same) nil)
  | inr other ↦ elim (Bool-cases (c == b' ')) [
    | inl space ↦ rw (other, space) (plain {c = b'+'} (unfold is_form_char in refl) nil)
    | inr byte ↦
        rw (other, byte)
          (escape (hex_digit-IsXdigit (c / 16) (omega arith)).0
            (hex_digit-IsXdigit (c % 16) (omega arith)).0 nil)
  ]
]

pub encode-Encoded : (s : Bytes) → All IsByte s → Encoded (encode s)
unfolding encode
encode-Encoded [] h = nil
encode-Encoded (c ∷ s) (b, h) = Encoded-append (encode_byte-Encoded c b) (encode-Encoded s h)

-- Pairs of keys and values, as a client sends them.
pub form_text : Headers → Bytes
form_text [] = []
form_text ((k, v) ∷ []) = encode k ++ (b'=' ∷ encode v)
form_text ((k, v) ∷ p ∷ ps) = encode k ++ (b'=' ∷ (encode v ++ (b'&' ∷ form_text (p ∷ ps))))

abbrev pub IsBytePair : Bytes × Bytes → Type 0
IsBytePair p = All IsByte p.0 × All IsByte p.1

abbrev piece : Bytes × Bytes → Bytes
piece p = encode p.0 ++ (b'=' ∷ encode p.1)

piece-Without : (p : Bytes × Bytes) → IsBytePair p → Without b'&' (piece p)
piece-Without p h =
    All-append _ (encode p.0) _ (Encoded-Without (encode-Encoded p.0 h.0)).1
      (omega arith, (Encoded-Without (encode-Encoded p.1 h.1)).1)

split_amp-append :
    (a cur s : Bytes) → Without b'&' a → split_amp cur (a ++ s) ≡ split_amp (cur ++ a) s
unfolding split_amp
split_amp-append [] cur s h = rw append-nil refl
split_amp-append (c ∷ a) cur s (n, h) =
    ground (arith, split_amp-append a (cur ++ c ∷ []) s h, append_assoc cur (c ∷ []) a)

split_amp-amp : (cur s : Bytes) → split_amp cur (b'&' ∷ s) ≡ cur ∷ split_amp [] s
unfolding split_amp
split_amp-amp [] s = refl
split_amp-amp (c ∷ cur) s = refl

split_amp-nil : (cur : Bytes) → 0 < length cur → split_amp cur [] ≡ cur ∷ []
unfolding split_amp
split_amp-nil [] h = absurd (omega arith)
split_amp-nil (c ∷ cur) h = refl

store_pair-piece :
    (p : Bytes × Bytes) (result : Headers)
    → IsBytePair p
    → store_pair (piece p) result ≡ insert p.0 p.1 result
unfolding store_pair
store_pair-piece (k, v) result (hk, hv) = ground (
  arith,
  find-append b'=' [] (encode k) (encode v) (Encoded-Without (encode-Encoded k hk)).0,
  substr-pos [] (encode k) (b'=' ∷ encode v) 0 (length (encode k)) refl refl,
  drop-next (encode k) b'=' (encode v) (length (encode k) + 1) refl,
  url_decode-encode k hk,
  url_decode-encode v hv,
)

split_amp-form_text :
    (ps : Headers) → All IsBytePair ps → split_amp [] (form_text ps) ≡ map piece ps
unfolding form_text
split_amp-form_text [] h = unfold split_amp in refl
split_amp-form_text (p ∷ []) (hp, h) =
    ap (split_amp []) (sym (append-nil (piece p)))
    ∙ split_amp-append (piece p) [] [] (piece-Without p hp)
    ∙ split_amp-nil (piece p) (omega (arith, length-append (encode p.0) (b'=' ∷ encode p.1)))
split_amp-form_text (p ∷ q ∷ ps) (hp, h) =
    ap (split_amp [])
      (sym (append_assoc (encode p.0) (b'=' ∷ encode p.1) (b'&' ∷ form_text (q ∷ ps))))
    ∙ split_amp-append (piece p) [] (b'&' ∷ form_text (q ∷ ps)) (piece-Without p hp)
    ∙ split_amp-amp (piece p) (form_text (q ∷ ps))
    ∙ ap (◌∷◌ (piece p)) (split_amp-form_text (q ∷ ps) h)

store_pairs-map :
    (ps result : Headers)
    → All IsBytePair ps
    → store_pairs (map piece ps) result ≡ insert_all ps result
unfolding store_pairs
store_pairs-map [] result h = refl
store_pairs-map (p ∷ ps) result (hp, h) =
    ap (store_pairs (map piece ps)) (store_pair-piece p result hp)
    ∙ store_pairs-map ps (insert p.0 p.1 result) h

-- A form that a client encodes is parsed to its pairs, a later value replacing an earlier one of
-- the same key.
pub parse_url_form-form_text :
    (ps : Headers) → All IsBytePair ps → parse_url_form (form_text ps) ≡ insert_all ps []
unfolding parse_url_form
parse_url_form-form_text ps h =
    ap (λ (l : List Bytes). store_pairs l []) (split_amp-form_text ps h) ∙ store_pairs-map ps [] h
