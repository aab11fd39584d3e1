-- ===== src/Http/Request/RoundTrip.antt =====
-- src/http.cpp: the server reads back the headers and the body of a request that is written well.
use cgi_web_server.Base.Assoc.{insert}
use cgi_web_server.Base.{
  ℕ, zero, suc, ◌+◌, ◌≤◌, ◌≡◌, refl, ◌∙◌, [], ◌∷◌, ◌++◌, append_assoc, arith, All, length,
  length-append, take,
}
use cgi_web_server.Http.Request.{
  headers_from, extract_headers, extract_body, body_start, line_end_from,
}
use cgi_web_server.Http.Request.HeaderBlock.{
  header_line, header_lines-cons, length-header_lines, find-blank_line, header_line-pos, insert_all,
  headers_from_step,
}
use cgi_web_server.Http.Request.Render.{
  Parts, IsWellFormed, IsHeader, crlf, block, render, request_line, request_line-append,
  request_line-Without,
}
use cgi_web_server.Http.Response.{Headers, header_lines, returns}
use cgi_web_server.Text.Find.{Without, shift-zero, find_at-pos, find-append, drop-pos}
use cgi_web_server.Text.{Bytes, bytes_keys, find}

-- The loop, from a header line on, stores every header that is left.
headers_from-header_lines :
    (f : ℕ) (hs : Headers) (a s : Bytes) (headers_end : ℕ) (acc : Headers)
    → length hs ≤ f
    → All IsHeader hs
    → headers_end + 2 ≡ length a + length (header_lines hs)
    → headers_from f (a ++ (header_lines hs ++ s)) headers_end (length a) acc
      ≡ returns (insert_all hs acc)
headers_from-header_lines zero [] a s headers_end acc fuel all e = unfold headers_from in refl
headers_from-header_lines (suc f) [] a s headers_end acc fuel all e =
    unfold headers_from header_lines in ground arith
headers_from-header_lines zero (h ∷ hs) a s headers_end acc fuel all e = absurd (omega arith)
headers_from-header_lines (suc f) (h ∷ hs) a s headers_end acc fuel (i, all) e =
    let a' = a ++ (header_line h ++ crlf) in
    let rest = header_lines hs ++ s in
    let len : length a' ≡ length a + length (header_line h) + 2 =
      omega (arith, length-append a (header_line h ++ crlf), length-append (header_line h) crlf) in
    let cut : a ++ (header_line h ++ (crlf ++ rest)) ≡ a' ++ rest = simp append_assoc in
    rw header_lines-cons (
      headers_from_step f a h rest headers_end acc i
        (omega (arith, length-header_lines h hs, header_line-pos h))
      ∙ rw (cut, ← len)
          (headers_from-header_lines f hs a' s headers_end (insert h.0 h.1 acc) (omega arith) all
            (omega (arith, length-header_lines h hs))))

length-le-header_lines : (hs : Headers) → length hs + length hs ≤ length (header_lines hs)
unfolding header_lines
length-le-header_lines [] = omega arith
length-le-header_lines (h ∷ hs) =
    omega (arith, length-le-header_lines hs, length-header_lines h hs, header_line-pos h)

-- The request line `l`, the headers and the rest behind the blank line.
extract_headers_lem :
    (l : Bytes) (hs : Headers) (s : Bytes)
    → Without b'\r' l
    → All IsHeader hs
    → extract_headers (l ++ (crlf ++ (header_lines hs ++ (crlf ++ s)))) ≡ returns (insert_all hs [])
unfolding extract_headers
extract_headers_lem l [] s w all =
    unfold header_lines in
    ground (
      arith,
      find-blank_line l [] s w all,
      find-append b'\r' (b'\n' ∷ []) l (header_lines [] ++ (crlf ++ s)) w,
    )
extract_headers_lem l (h ∷ hs) s w all =
    let headers_end = length l + length (header_lines (h ∷ hs)) in
    let len : length (l ++ crlf) ≡ length l + 2 = length-append l crlf in
    let loop =
      headers_from-header_lines headers_end (h ∷ hs) (l ++ crlf) (crlf ++ s) headers_end []
        (omega (arith, length-le-header_lines (h ∷ hs))) all (omega arith) in
    ground (
      arith,
      find-blank_line l (h ∷ hs) s w all,
      find-append b'\r' (b'\n' ∷ []) l (header_lines (h ∷ hs) ++ (crlf ++ s)) w,
      length-header_lines h hs,
      header_line-pos h,
      append_assoc l crlf (header_lines (h ∷ hs) ++ (crlf ++ s)),
    )

-- The server reads back the headers of a request as a client writes it, stored one after another,
-- each under its name, where no name holds a ':' and no part of the request head holds a carriage
-- return.
pub extract_headers-render :
    (p : Parts) → IsWellFormed p → extract_headers (render p) ≡ returns (insert_all p.headers [])
unfolding block
extract_headers-render p w = rw (request_line-append p) (
    extract_headers_lem (request_line p) p.headers p.content (request_line-Without p w)
      w.header_parts)

-- The first line of a text: what `extract_body` takes of the body.
pub first_line : Bytes → Bytes
first_line s = take (line_end_from s 0) s

line_end_from-append :
    (a s : Bytes) → line_end_from (a ++ s) (length a) ≡ length a + line_end_from s 0
unfolding line_end_from
line_end_from-append a s = ground (
  arith,
  find_at-pos crlf a s (length a) refl,
  find_at-pos (b'\n' ∷ []) a s (length a) refl,
  shift-zero (find crlf s),
  shift-zero (find (b'\n' ∷ []) s),
  length-append a s,
)

-- Of the body of a well-formed request, the server takes the first line, up to the first line end
-- or to the end.
pub extract_body-render :
    (p : Parts) → IsWellFormed p → extract_body (render p) ≡ returns (first_line p.content)
unfolding extract_body first_line block body_start
extract_body-render p w =
    let lines = header_lines p.headers in
    let head = request_line p ++ (crlf ++ (lines ++ crlf)) in
    let cut : request_line p ++ (crlf ++ (lines ++ (crlf ++ p.content))) ≡ head ++ p.content =
      simp append_assoc in
    let len : length head ≡ length (request_line p) + length lines + 4 =
      omega (
        arith,
        length-append (request_line p) (crlf ++ (lines ++ crlf)),
        length-append lines crlf,
      ) in
    rw (request_line-append p) (
      ground (
        arith,
        find-blank_line (request_line p) p.headers p.content (request_line-Without p w)
            w.header_parts,
        line_end_from-append head p.content,
        drop-pos head p.content (length head) refl,
      ))
