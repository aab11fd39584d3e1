-- ===== src/Http/Form/Accepts.antt =====
-- src/http.cpp: `is_valid_url_form` decides the grammar.
use cgi_web_server.Base.{
  ℕ, zero, suc, ◌+◌, ◌<◌, ◌≡◌, ◌≢◌, ◌↔◌, inl, inr, refl, sym, ap, ◌∙◌, Bool, true, false, none,
  some, [], ◌∷◌, ◌++◌, append-nil, arith, if◌then◌else◌, length, length-append, drop, Option-cases,
  subst,
}
use cgi_web_server.Http.Form.{check_run, check_pairs, is_valid_url_form}
use cgi_web_server.Http.Form.Grammar.{
  Encoded, IsForm, last, closed, more, check_run-Encoded, Encoded-check_run, Encoded-Without,
  percent_lem,
}
use cgi_web_server.Text.Find.{
  Without, find_byte, find-append, find-eq-none_iff, find_at-next, drop-next, drop-next_more,
}
use cgi_web_server.Text.{Bytes, find}

-- The part of a round behind the '='.
value_part : ℕ → Bytes → Bool
value_part f t = elim (find (b'&' ∷ []) t) [
  | none ↦ check_run t (length t)
  | some j ↦ if check_run t j then check_pairs f (drop (j + 1) t) else false
]

-- A round of the outer loop, at the first '='.
check_pairs_step :
    (f x : ℕ) (k t : Bytes)
    → Without b'=' (x ∷ k)
    → check_pairs (suc f) (x ∷ k ++ (b'=' ∷ t))
      ≡ (if check_run (x ∷ k ++ (b'=' ∷ t)) (length (x ∷ k)) then value_part f t else false)
unfolding check_pairs value_part
check_pairs_step f x k t h =
    let head = x ∷ k in
    let pos = length head + 1 in
    let at = find-append b'=' [] head t h in
    let next = find_at-next head b'=' t (b'&' ∷ []) pos refl in
    let cut = drop-next head b'=' t pos refl in
    elim (Option-cases (find (b'&' ∷ []) t)) [
      | inl missed ↦ ground (arith, at, next, cut, length-append head (b'=' ∷ t))
      | inr (j, found) ↦
          ground
            (arith, at, next, cut, drop-next_more head b'=' t (pos + j + 1) (j + 1) (omega arith))
    ]

-- The part behind the '=' at a value that is followed by nothing, or by an '&'.
value_part_last : (f : ℕ) (v : Bytes) → Without b'&' v → value_part f v ≡ check_run v (length v)
unfolding value_part
value_part_last f v h = rw ((find-eq-none_iff b'&' v).1 h, value_part)

value_part_more :
    (f : ℕ) (v r : Bytes)
    → Without b'&' v
    → value_part f (v ++ (b'&' ∷ r))
      ≡ (if check_run (v ++ (b'&' ∷ r)) (length v) then check_pairs f r else false)
unfolding value_part
value_part_more f v r h =
    ground (arith, find-append b'&' [] v r h, drop-next v b'&' r (length v + 1) refl)

check_run_all : (v : Bytes) → (check_run v (length v) ≡ true) ↔ Encoded v
check_run_all v = (
  λ h. check_run-Encoded v [] tt (ap (λ (s : Bytes). check_run s (length v)) (append-nil v) ∙ h),
  λ e. ap (λ (s : Bytes). check_run s (length v)) (sym (append-nil v)) ∙ Encoded-check_run [] e,
)

-- The accepted value part is a value, alone or before the pairs that are left.
data ValuePart (f : ℕ) (t : Bytes) : Type 0 where
  alone : Encoded t → ValuePart f t
  before : (v r : Bytes) → Encoded v → t ≡ v ++ (b'&' ∷ r) → check_pairs f r ≡ true → ValuePart f t

value_part-ValuePart : (f : ℕ) (t : Bytes) → value_part f t ≡ true → ValuePart f t
value_part-ValuePart f t h = elim (Option-cases (find (b'&' ∷ []) t)) [
  | inl missed ↦
      alone
        ((check_run_all t).0 (sym (value_part_last f t ((find-eq-none_iff b'&' t).0 missed)) ∙ h))
  | inr (j, found) ↦
      let (v, r, cut, len, free) = find_byte b'&' t found in
      let step = sym (value_part_more f v r free) ∙ rw cut at h in
      before v r (check_run-Encoded v (b'&' ∷ r) percent_lem.2 (ground arith)) cut (ground arith)
]

-- A round with an accepted key, and what the later rounds accept.
module _ (f x : ℕ) (k : Bytes)
    (later : (r : Bytes) → check_pairs f r ≡ true → r ≢ [] → IsForm r) where
  IsForm-before :
      (s v r : Bytes)
      → Encoded (x ∷ k)
      → Encoded v
      → s ≡ x ∷ k ++ (b'=' ∷ (v ++ (b'&' ∷ r)))
      → check_pairs f r ≡ true
      → IsForm s
  IsForm-before s v [] key value cut h = closed (x ∷ k) v key (cc) value cut
  IsForm-before s v (c ∷ r) key value cut h =
      more (x ∷ k) v (c ∷ r) key (cc) value cut (later (c ∷ r) h (cc))

  round-IsForm :
      (t : Bytes)
      → Without b'=' (x ∷ k)
      → check_pairs (suc f) (x ∷ k ++ (b'=' ∷ t)) ≡ true
      → IsForm (x ∷ k ++ (b'=' ∷ t))
  round-IsForm t free h =
      let step = sym (check_pairs_step f x k t free) ∙ h in
      let key = check_run-Encoded (x ∷ k) (b'=' ∷ t) percent_lem.1 (ground arith) in
      elim (value_part-ValuePart f t (ground arith)) [
        | alone value ↦ last (x ∷ k) t key (cc) value refl
        | before v r value cut pairs ↦
            IsForm-before _ v r key value (ap (λ (u : Bytes). x ∷ k ++ (b'=' ∷ u)) cut) pairs
      ]

-- A text that starts with '=' has an empty key.
no_key : (f : ℕ) (t : Bytes) → check_pairs (suc f) (b'=' ∷ t) ≡ false
unfolding check_pairs find
no_key f t = refl

-- A text with no '=' is refused.
no_equals :
    (f c : ℕ) (s : Bytes) → find (b'=' ∷ []) (c ∷ s) ≡ none → check_pairs (suc f) (c ∷ s) ≡ false
unfolding check_pairs
no_equals f c s h = ground arith

round-IsForm_cut :
    (f : ℕ) (k t s : Bytes)
    → ((r : Bytes) → check_pairs f r ≡ true → r ≢ [] → IsForm r)
    → s ≡ k ++ (b'=' ∷ t)
    → Without b'=' k
    → check_pairs (suc f) s ≡ true
    → IsForm s
round-IsForm_cut f [] t s later cut free h = cc (no_key f t)
round-IsForm_cut f (x ∷ k) t s later cut free h =
    subst IsForm (sym cut) (round-IsForm f x k later t free (rw cut at h))

check_pairs-IsForm : (f : ℕ) (s : Bytes) → check_pairs f s ≡ true → s ≢ [] → IsForm s
check_pairs-IsForm zero s h ne = unfold check_pairs in cc
check_pairs-IsForm (suc f) [] h ne = absurd (ne refl)
check_pairs-IsForm (suc f) (c ∷ s) h ne = elim (Option-cases (find (b'=' ∷ []) (c ∷ s))) [
  | inl missed ↦ cc (no_equals f c s missed)
  | inr (i, found) ↦
      let (k, t, cut, len, free) = find_byte b'=' (c ∷ s) found in
      round-IsForm_cut f k t (c ∷ s) (check_pairs-IsForm f) cut free h
]

-- A round on a pair of the grammar.
round-pair :
    (f : ℕ) (k t s : Bytes)
    → Encoded k
    → k ≢ []
    → s ≡ k ++ (b'=' ∷ t)
    → check_pairs (suc f) s ≡ value_part f t
round-pair f [] t s key ne cut = absurd (ne refl)
round-pair f (x ∷ k) t s key ne cut =
    rw cut (
      check_pairs_step f x k t (Encoded-Without key).0 ∙ rw (Encoded-check_run (b'=' ∷ t) key) refl)

round-pair_more :
    (f : ℕ) (k v r s : Bytes)
    → Encoded k
    → k ≢ []
    → Encoded v
    → s ≡ k ++ (b'=' ∷ (v ++ (b'&' ∷ r)))
    → check_pairs (suc f) s ≡ check_pairs f r
round-pair_more f k v r s key ne value cut =
    round-pair f k (v ++ (b'&' ∷ r)) s key ne cut
    ∙ value_part_more f v r (Encoded-Without value).1
    ∙ rw (Encoded-check_run (b'&' ∷ r) value) refl

length-cut :
    (k v r s : Bytes)
    → s ≡ k ++ (b'=' ∷ (v ++ (b'&' ∷ r)))
    → length s ≡ length k + length v + 2 + length r
length-cut k v r s e =
    omega
      (arith, ap length e, length-append k (b'=' ∷ (v ++ (b'&' ∷ r))), length-append v (b'&' ∷ r))

IsForm-pos : {s : Bytes} → IsForm s → 0 < length s
IsForm-pos (last k v key ne value cut) = omega (arith, ap length cut, length-append k (b'=' ∷ v))
IsForm-pos (closed k v key ne value cut) = omega (arith, length-cut k v [] _ cut)
IsForm-pos (more k v r key ne value cut form) = omega (arith, length-cut k v r _ cut)

IsForm-check_pairs : (f : ℕ) {s : Bytes} → IsForm s → length s < f → check_pairs f s ≡ true
IsForm-check_pairs zero h fuel = absurd (omega arith)
IsForm-check_pairs (suc f) (last k v key ne value cut) fuel =
    round-pair f k v _ key ne cut
    ∙ value_part_last f v (Encoded-Without value).1
    ∙ (check_run_all v).1 value
IsForm-check_pairs (suc zero) (closed k v key ne value cut) fuel =
    absurd (omega (arith, length-cut k v [] _ cut))
IsForm-check_pairs (suc (suc f)) (closed k v key ne value cut) fuel =
    round-pair_more (suc f) k v [] _ key ne value cut ∙ unfold check_pairs in refl
IsForm-check_pairs (suc f) (more k v r key ne value cut form) fuel =
    round-pair_more f k v r _ key ne value cut
    ∙ IsForm-check_pairs f form (omega (arith, length-cut k v r _ cut))

-- A text is accepted as a form exactly if it is one by the grammar: pairs key=value between '&',
-- each key not empty, each side of bytes that stand for themselves and of escapes of two
-- hexadecimal digits, with at most one '&' behind the last pair.
pub is_valid_url_form_iff : (s : Bytes) → (is_valid_url_form s ≡ true) ↔ IsForm s
unfolding is_valid_url_form
is_valid_url_form_iff [] = (λ h. absurd (cc h), λ form. absurd (omega (arith, IsForm-pos form)))
is_valid_url_form_iff (c ∷ s) = (
  λ h. check_pairs-IsForm (length (c ∷ s) + 1) (c ∷ s) h (cc),
  λ form. IsForm-check_pairs (length (c ∷ s) + 1) form (omega arith),
)
