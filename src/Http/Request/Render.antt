-- ===== src/Http/Request/Render.antt =====
-- src/http.cpp: a request as a client writes it, and what the server cuts out of it.
use cgi_web_server.Base.{
  ◌+◌, ◌≡◌, ◌↔◌, refl, ap, ◌∙◌, [], ◌∷◌, ◌++◌, append_assoc, arith, All, All-append, length,
  Option-cases, ◌⊎◌, inl, inr, subst,
}
use cgi_web_server.Http.Method.{method_str_to_enum}
use cgi_web_server.Http.Request.{get_request_target, extract_method}
use cgi_web_server.Http.Response.{Headers, header_lines, returns, http_error}
use cgi_web_server.Http.Status
use cgi_web_server.Text.Find.{
  Without, find-append, find_byte, find_at-next, substr-next, substr-pos,
}
use cgi_web_server.Text.{Bytes, bytes_keys, find}

-- `t` stands between the first two spaces of `req`.
pub record IsTarget (req t : Bytes) : Type 0 where
  pub before : Bytes
  pub behind : Bytes
  pub cut : req ≡ before ++ (b' ' ∷ (t ++ (b' ' ∷ behind)))
  pub first : Without b' ' before
  pub second : Without b' ' t

get_request_target-of_IsTarget :
    (req t : Bytes) → IsTarget req t → get_request_target req ≡ returns t
unfolding get_request_target
get_request_target-of_IsTarget req t h = rw h.cut (
    ground (
      arith,
      find-append b' ' [] h.before (t ++ (b' ' ∷ h.behind)) h.first,
      find_at-next h.before b' ' (t ++ (b' ' ∷ h.behind)) (b' ' ∷ []) (length h.before + 1) refl,
      find-append b' ' [] t h.behind h.second,
      substr-next h.before b' ' t (b' ' ∷ h.behind) (length h.before + 1) (length t) refl refl,
    ))

-- Either two spaces are there, or the request is refused.
get_request_target-cases :
    (req : Bytes)
    → ((t : Bytes) × IsTarget req t) ⊎ (get_request_target req ≡ http_error Status.bad_request)
unfolding get_request_target
get_request_target-cases req = elim (Option-cases (find (b' ' ∷ []) req)) [
  | inl missed ↦ inr (ground arith)
  | inr (i, at) ↦
      let (a, s, cut, len, first) = find_byte b' ' req at in
      elim (Option-cases (find (b' ' ∷ []) s)) [
        | inl missed ↦ inr (ground (arith, find_at-next a b' ' s (b' ' ∷ []) (i + 1)))
        | inr (j, next) ↦
            let (t, b, cut', len', second) = find_byte b' ' s next in
            inl (
              t,
              record {
                before = a;
                behind = b;
                cut = cut ∙ ap (λ (r : Bytes). a ++ (b' ' ∷ r)) cut';
                first = first;
                second = second;
              },
            )
      ]
]

IsTarget-of_get_request_target :
    (req t : Bytes) → get_request_target req ≡ returns t → IsTarget req t
IsTarget-of_get_request_target req t h = elim (get_request_target-cases req) [
  | inl (t', it) ↦
      let same : t' ≡ t = cc (get_request_target-of_IsTarget req t' it) in
      subst (IsTarget req) same it
  | inr refused ↦ cc
]

-- The server takes for the target exactly what stands between the first two spaces of a request.
pub get_request_target_iff : (req t : Bytes) → (get_request_target req ≡ returns t) ↔ IsTarget req t
get_request_target_iff req t =
    (IsTarget-of_get_request_target req t, get_request_target-of_IsTarget req t)

-- The parts of a request that a client writes.
pub record Parts : Type 0 where
  pub method : Bytes
  pub target : Bytes
  pub version : Bytes
  pub headers : Headers
  pub content : Bytes

abbrev pub crlf : Bytes
crlf = b'\r' ∷ b'\n' ∷ []

-- The text behind the method and a space, and behind the request line.
unfoldable pub block : Parts → Bytes
block p = header_lines p.headers ++ (crlf ++ p.content)

abbrev pub render : Parts → Bytes
render p = p.method ++ (b' ' ∷ (p.target ++ (b' ' ∷ (p.version ++ (crlf ++ block p)))))

pub record IsHeader (h : Bytes × Bytes) : Type 0 where
  pub no_colon : Without b':' h.0
  pub no_cr : Without b'\r' h.0
  pub no_cr_value : Without b'\r' h.1

pub record IsWellFormed (p : Parts) : Type 0 where
  pub method_no_space : Without b' ' p.method
  pub method_no_cr : Without b'\r' p.method
  pub target_no_space : Without b' ' p.target
  pub target_no_cr : Without b'\r' p.target
  pub version_no_cr : Without b'\r' p.version
  pub header_parts : All IsHeader p.headers

-- The request line, without its end.
abbrev pub request_line : Parts → Bytes
request_line p = p.method ++ (b' ' ∷ (p.target ++ (b' ' ∷ p.version)))

pub request_line-append :
    (p : Parts) (s : Bytes)
    → p.method ++ (b' ' ∷ (p.target ++ (b' ' ∷ (p.version ++ s)))) ≡ request_line p ++ s
request_line-append p s = simp (append_assoc)

pub render-IsTarget : (p : Parts) → IsWellFormed p → IsTarget (render p) p.target
render-IsTarget p w = record {
  before = p.method;
  behind = p.version ++ (crlf ++ block p);
  cut = refl;
  first = w.method_no_space;
  second = w.target_no_space;
}

pub request_line-Without : (p : Parts) → IsWellFormed p → Without b'\r' (request_line p)
request_line-Without p w =
    All-append _ p.method _ w.method_no_cr
      (omega arith, All-append _ p.target _ w.target_no_cr (omega arith, w.version_no_cr))

-- The method of a well-formed request is read from its first word.
pub extract_method-render :
    (p : Parts) → IsWellFormed p → extract_method (render p) ≡ returns (method_str_to_enum p.method)
unfolding extract_method
extract_method-render p w = rw (request_line-append p) (
    ground (
      arith,
      find-append b'\r' (b'\n' ∷ []) (request_line p) (block p) (request_line-Without p w),
      substr-pos [] (request_line p) (crlf ++ block p) 0 (length (request_line p)) refl refl,
      find-append b' ' [] p.method (p.target ++ (b' ' ∷ p.version)) w.method_no_space,
      substr-pos [] p.method (b' ' ∷ (p.target ++ (b' ' ∷ p.version))) 0 (length p.method) refl
          refl,
    ))
