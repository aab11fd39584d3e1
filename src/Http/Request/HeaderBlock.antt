-- ===== src/Http/Request/HeaderBlock.antt =====
-- src/http.cpp: the headers and the body of a request that is written well.
use cgi_web_server.Base.Assoc.{insert}
use cgi_web_server.Base.{
  ℕ, suc, ◌+◌, ◌≤◌, ◌<◌, ◌≡◌, refl, sym, ap, ◌∙◌, some, [], ◌∷◌, ◌++◌, append_assoc, append-nil,
  arith, All, All-append, length, length-append,
}
use cgi_web_server.Http.Request.{split_header, headers_from}
use cgi_web_server.Http.Request.Render.{IsHeader, crlf}
use cgi_web_server.Http.Response.{Headers, header_lines}
use cgi_web_server.Text.Find.{Without, find-skip, find-append, find_at-pos, substr-pos, drop-behind}
use cgi_web_server.Text.{Bytes, bytes_keys, find, shift}

abbrev pub blank_line : Bytes
blank_line = b'\r' ∷ b'\n' ∷ b'\r' ∷ b'\n' ∷ []

-- One header line without its end.
abbrev pub header_line : Bytes × Bytes → Bytes
header_line h = h.0 ++ (b':' ∷ b' ' ∷ h.1)

header_line-Without : (h : Bytes × Bytes) → IsHeader h → Without b'\r' (header_line h)
header_line-Without h i = All-append _ h.0 _ i.no_cr (omega arith, (omega arith, i.no_cr_value))

pub header_lines-cons :
    (h : Bytes × Bytes) (hs : Headers) (s : Bytes)
    → header_lines (h ∷ hs) ++ s ≡ header_line h ++ (crlf ++ (header_lines hs ++ s))
unfolding header_lines
header_lines-cons h hs s = simp append_assoc

-- A line with no "\r" is passed over in the search for the blank line.
find-blank_line-line :
    (l s : Bytes)
    → Without b'\r' l
    → find blank_line (l ++ (crlf ++ s)) ≡ shift (length l) (find blank_line (crlf ++ s))
find-blank_line-line l s h = find-skip b'\r' (b'\n' ∷ b'\r' ∷ b'\n' ∷ []) l (crlf ++ s) h

-- The end of a line is no blank line if another line follows.
find-blank_line-crlf :
    (l s : Bytes)
    → 0 < length l
    → Without b'\r' l
    → find blank_line (crlf ++ (l ++ s)) ≡ shift 2 (find blank_line (l ++ s))
unfolding find
find-blank_line-crlf [] s p h = absurd (omega arith)
find-blank_line-crlf (c ∷ l) s p h = ground arith

pub length-header_lines :
    (h : Bytes × Bytes) (hs : Headers)
    → length (header_lines (h ∷ hs)) ≡ length (header_line h) + 2 + length (header_lines hs)
length-header_lines h hs =
    ap length (sym (append-nil (header_lines (h ∷ hs))) ∙ header_lines-cons h hs [])
    ∙ omega (
      arith,
      length-append (header_line h) (crlf ++ (header_lines hs ++ [])),
      ap length (append-nil (header_lines hs)),
    )

pub header_line-pos : (h : Bytes × Bytes) → 2 ≤ length (header_line h)
header_line-pos h = omega (arith, length-append h.0 (b':' ∷ b' ' ∷ h.1))

-- The blank line is found behind the last header.
pub find-blank_line :
    (l : Bytes) (hs : Headers) (s : Bytes)
    → Without b'\r' l
    → All IsHeader hs
    → find blank_line (l ++ (crlf ++ (header_lines hs ++ (crlf ++ s))))
      ≡ some (length l + length (header_lines hs))
unfolding header_lines
find-blank_line l [] s w h = find-blank_line-line l (crlf ++ s) w ∙ unfold find in ground arith
find-blank_line l (x ∷ hs) s w (i, h) =
    let t = header_lines hs ++ (crlf ++ s) in
    let line = header_line x in
    ap (λ (r : Bytes). find blank_line (l ++ (crlf ++ r))) (header_lines-cons x hs (crlf ++ s))
    ∙ find-blank_line-line l (line ++ (crlf ++ t)) w
    ∙ ground (
      arith,
      find-blank_line-crlf line (crlf ++ t) (omega (arith, header_line-pos x))
          (header_line-Without x i),
      find-blank_line line hs s (header_line-Without x i) h,
      length-header_lines x hs,
    )

-- A header line is cut at its first ": ".
split_header-header_line : (h : Bytes × Bytes) → IsHeader h → split_header (header_line h) ≡ some h
unfolding split_header
split_header-header_line (k, v) i = ground (
  arith,
  find-append b':' (b' ' ∷ []) k v i.no_colon,
  substr-pos [] k (b':' ∷ b' ' ∷ v) 0 (length k) refl refl,
  drop-behind k (b':' ∷ b' ' ∷ []) v (length k + 2) refl,
)

-- What the loop of `extract_headers` stores.
abbrev pub insert_all : Headers → Headers → Headers
insert_all [] acc = acc
insert_all ((k, v) ∷ hs) acc = insert_all hs (insert k v acc)

-- One round of the loop reads one header line.
pub headers_from_step :
    (f : ℕ) (a : Bytes) (h : Bytes × Bytes) (s : Bytes) (headers_end : ℕ) (acc : Headers)
    → IsHeader h
    → length a < headers_end
    → headers_from (suc f) (a ++ (header_line h ++ (crlf ++ s))) headers_end (length a) acc
      ≡ headers_from f
          (a ++ (header_line h ++ (crlf ++ s)))
          headers_end
          (length a + length (header_line h) + 2)
          (insert h.0 h.1 acc)
unfolding headers_from
headers_from_step f a h s headers_end acc i before =
    let line = header_line h in
    let free = header_line-Without h i in
    ground (
      arith,
      find_at-pos crlf a (line ++ (crlf ++ s)) (length a) refl,
      find-append b'\r' (b'\n' ∷ []) line s free,
      substr-pos a line (crlf ++ s) (length a) (length line) refl refl,
      split_header-header_line h i,
      header_line-pos h,
    )
