-- ===== src/Http/Args/Laws.antt =====
-- src/http.cpp: what is known of the arguments that `extract_args` forwards.
use cgi_web_server.Base.{
  ◌≡◌, refl, ◌≢◌, ◌⊎◌, inl, inr, Bool, true, false, Option, some, none, [], ◌∷◌, ◌++◌, ◌+◌, arith,
  length, take-append, ap, ◌∙◌, Bool-cases, Option-cases,
}
use cgi_web_server.Http.Args.{
  Parsing, parsed, parse_error, out_of_range, is_valid_json, check_body, get_content_type, get_args,
  body_any_args, args_any, extract_args, json_type, form_type, extract_jwt_from_cookie,
}
use cgi_web_server.Http.Form.{is_valid_url_form}
use cgi_web_server.Http.Form.Accepts.{is_valid_url_form_iff}
use cgi_web_server.Http.Form.Grammar.{IsForm}
use cgi_web_server.Http.Method.{ArgType, any, body_any, body_json, body_url, query_string}
use cgi_web_server.Http.Request.{extract_body, extract_query_string}
use cgi_web_server.Http.Response.{Result, returns, Result-cases}
use cgi_web_server.Text.Find.{Without, find-append, find_at-behind, find-eq-none, drop-behind}
use cgi_web_server.Text.{Bytes, codes, equal_iff, equal}

Parsing-cases : (p : Parsing) → (p ≡ parsed) ⊎ ((p ≡ parse_error) ⊎ (p ≡ out_of_range))
Parsing-cases parsed = inl refl
Parsing-cases parse_error = inr (inl refl)
Parsing-cases out_of_range = inr (inr refl)

module _ (parse : Bytes → Parsing) (buffer : Bytes) where
  -- A body that was checked against the content type that the client claims, if any.
  pub data Vouched (args : Bytes) (claim : Option Bytes) : Type 0 where
    absent : claim ≡ none → Vouched args claim
    json : claim ≡ some json_type → parse args ≡ parsed → Vouched args claim
    form : claim ≡ some form_type → IsForm args → Vouched args claim
    other : (ct : Bytes) → claim ≡ some ct → ct ≢ json_type → ct ≢ form_type → Vouched args claim

  abbrev pub IsChecked : Bytes → Type 0
  IsChecked args = (extract_body buffer ≡ returns args) × Vouched args (get_content_type buffer)

  -- What the forwarded arguments satisfy, for each argument type.
  abbrev pub Admits : ArgType → Bytes → Type 0
  Admits ArgType.none args = args ≡ []
  Admits body_json args =
      (extract_body buffer ≡ returns args)
      × (get_content_type buffer ≡ some json_type)
      × (parse args ≡ parsed)
  Admits body_url args =
      (extract_body buffer ≡ returns args)
      × (get_content_type buffer ≡ some form_type)
      × IsForm args
  Admits query_string args = extract_query_string buffer ≡ returns args
  Admits body_any args = IsChecked args
  Admits any args =
      ((extract_query_string buffer ≡ returns args) × (args ≢ []))
      ⊎ ((extract_query_string buffer ≡ returns []) × IsChecked args)

  is_valid_json_lem : (body : Bytes) → is_valid_json parse body ≡ returns true → parse body ≡ parsed
  unfolding is_valid_json
  is_valid_json_lem body h = elim (Parsing-cases (parse body)) [
    | inl taken ↦ taken
    | inr (inl refused) ↦ absurd (ground (arith, h, refused))
    | inr (inr thrown) ↦ absurd (ground (arith, h, thrown))
  ]

  body_any_args-claimed :
      (body ct args : Bytes)
      → extract_body buffer ≡ returns body
      → get_content_type buffer ≡ some ct
      → body_any_args parse buffer ≡ returns args
      → IsChecked args
  unfolding body_any_args check_body
  body_any_args-claimed body ct args e claim h = elim (Bool-cases (equal ct json_type)) [
    | inl is_json ↦
        let j = (equal_iff ct json_type).0 is_json in
        elim (Result-cases (is_valid_json parse body)) [
          | inr (x, thrown) ↦ absurd (ground (arith, h, e, claim, is_json, thrown))
          | inl (true, valid) ↦
              let same : body ≡ args = ground (arith, h, e, claim, is_json, valid) in
              (
                e ∙ ap returns same,
                json (claim ∙ ap some j) (rw same at (is_valid_json_lem body valid)),
              )
          | inl (false, invalid) ↦
              let other : equal ct form_type ≡ false = rw j refl in
              absurd (ground (arith, h, e, claim, is_json, invalid, other))
        ]
    | inr not_json ↦ elim (Bool-cases (equal ct form_type)) [
      | inl is_form ↦
          let f = (equal_iff ct form_type).0 is_form in
          (ground arith, form (claim ∙ ap some f) ((is_valid_url_form_iff args).0 (ground arith)))
      | inr not_form ↦ (
        ground arith,
        other ct claim (ground (arith, equal_iff ct json_type))
            (ground (arith, equal_iff ct form_type)),
      )
    ]
  ]

  body_any_args-IsChecked :
      (args : Bytes) → body_any_args parse buffer ≡ returns args → IsChecked args
  body_any_args-IsChecked args h = elim (Result-cases (extract_body buffer)) [
    | inr (e, refused) ↦ unfold body_any_args in cc
    | inl (body, cut) ↦ elim (Option-cases (get_content_type buffer)) [
      | inl missed ↦ (unfold body_any_args in ground arith, absent missed)
      | inr (ct, claim) ↦ body_any_args-claimed body ct args cut claim h
    ]
  ]

  get_args-checked :
      (desired : Bytes) (filter : Bytes → Result Bool) (args : Bytes)
      → get_args buffer desired filter ≡ returns args
      → (extract_body buffer ≡ returns args)
        × (get_content_type buffer ≡ some desired)
        × (filter args ≡ returns true)
  unfolding get_args
  get_args-checked desired filter args h = elim (Result-cases (extract_body buffer)) [
    | inr (e, refused) ↦ cc
    | inl (body, cut) ↦ elim (Option-cases (get_content_type buffer)) [
      | inl missed ↦ ground arith
      | inr (ct, claim) ↦ elim (Result-cases (filter body)) [
        | inr (x, thrown) ↦ absurd (ground (arith, thrown))
        | inl (valid, tested) ↦ (
          ground (arith, tested),
          ground (arith, equal_iff ct desired, tested),
          ground (arith, tested),
        )
      ]
    ]
  ]

  -- The arguments that are forwarded are the part of the request that the route asks for: none
  -- where it asks for none; a JSON or a URL body only with that content type and of that
  -- format; a query as it stands; any body after a check against the content type that the
  -- client claims, if that is one of the two; and `any` prefers a query that is not empty to a
  -- body.
  pub extract_args-Admits :
      (t : ArgType) (args : Bytes) → extract_args parse buffer t ≡ returns args → Admits t args
  unfolding extract_args
  extract_args-Admits ArgType.none args h = ground arith
  extract_args-Admits any args h = elim (Result-cases (extract_query_string buffer)) [
    | inr (e, refused) ↦ unfold args_any in cc
    | inl ([], cut) ↦ inr (cut, body_any_args-IsChecked args (unfold args_any in ground arith))
    | inl (c ∷ q, cut) ↦ inl (unfold args_any in ground arith, unfold args_any in ground arith)
  ]
  extract_args-Admits body_any args h = body_any_args-IsChecked args h
  extract_args-Admits body_json args h =
      let (cut, claim, valid) = get_args-checked json_type (is_valid_json parse) args h in
      (cut, claim, is_valid_json_lem args valid)
  extract_args-Admits body_url args h =
      let (cut, claim, valid) =
        get_args-checked form_type (λ body. returns (is_valid_url_form body)) args h in
      (cut, claim, (is_valid_url_form_iff args).0 (ground (arith, valid)))
  extract_args-Admits query_string args h = h

-- Where no 'j' stands before "jwt=" in a cookie header and no ';' in the token behind it, the
-- token is read up to the ';' behind it, or to the end.
pub extract_jwt_from_cookie_lem :
    (before token rest : Bytes)
    → Without b'j' before
    → Without b';' token
    → (extract_jwt_from_cookie (before ++ (codes "jwt=" ++ token)) ≡ token)
      × (extract_jwt_from_cookie (before ++ (codes "jwt=" ++ (token ++ (b';' ∷ rest)))) ≡ token)
unfolding extract_jwt_from_cookie
extract_jwt_from_cookie_lem before token rest hb ht = (
  ground (
    arith,
    find-append b'j' (b'w' ∷ b't' ∷ b'=' ∷ []) before token hb,
    drop-behind before (codes "jwt=") token (length before + 4) refl,
    find_at-behind before (codes "jwt=") token (length before + 4) refl (b';' ∷ []),
    find-eq-none b';' [] token ht,
  ),
  ground (
    arith,
    find-append b'j' (b'w' ∷ b't' ∷ b'=' ∷ []) before (token ++ (b';' ∷ rest)) hb,
    drop-behind before (codes "jwt=") (token ++ (b';' ∷ rest)) (length before + 4) refl,
    find_at-behind before (codes "jwt=") (token ++ (b';' ∷ rest)) (length before + 4) refl
        (b';' ∷ []),
    find-append b';' [] token rest ht,
    take-append token (b';' ∷ rest),
  ),
)
