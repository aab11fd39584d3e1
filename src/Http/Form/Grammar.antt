-- ===== src/Http/Form/Grammar.antt =====
-- src/http.cpp: the texts that `is_valid_url_form` accepts, described by a grammar.
use cgi_web_server.Base.{
  ℕ, suc, ◌-◌, ◌≡◌, ◌≢◌, inl, inr, refl, sym, ap, ap₂, ◌∙◌, true, false, [], ◌∷◌, ◌++◌, arith, ◌==◌,
  length, Bool-cases,
}
use cgi_web_server.Http.Form.{is_form_char, check_run}
use cgi_web_server.Text.Find.{Without}
use cgi_web_server.Text.{Bytes, is_xdigit}

-- Bytes that stand for themselves, and escapes `%XX`.
pub data Encoded : Bytes → Type 0 where
  nil : Encoded []
  plain : {c : ℕ} {s : Bytes} → is_form_char c ≡ true → Encoded s → Encoded (c ∷ s)
  escape :
      {a b : ℕ} {s : Bytes}
      → is_xdigit a ≡ true
      → is_xdigit b ≡ true
      → Encoded s
      → Encoded (b'%' ∷ a ∷ b ∷ s)

-- Pairs `key=value` between '&', with non-empty keys; one '&' may stand behind the last.
pub data IsForm : Bytes → Type 0 where
  last : {s : Bytes} (k v : Bytes) → Encoded k → k ≢ [] → Encoded v → s ≡ k ++ (b'=' ∷ v) → IsForm s
  closed :
      {s : Bytes} (k v : Bytes)
      → Encoded k
      → k ≢ []
      → Encoded v
      → s ≡ k ++ (b'=' ∷ (v ++ (b'&' ∷ [])))
      → IsForm s
  more :
      {s : Bytes} (k v r : Bytes)
      → Encoded k
      → k ≢ []
      → Encoded v
      → s ≡ k ++ (b'=' ∷ (v ++ (b'&' ∷ r)))
      → IsForm r
      → IsForm s

-- No separator is a hexadecimal digit, nor a byte that stands for itself.
abbrev pub IsStop : Bytes → Type 0
IsStop [] = Unit
IsStop (x ∷ s) = is_xdigit x ≡ false

pub percent_lem : (is_form_char b'%' ≡ false) × (is_xdigit b'=' ≡ false) × (is_xdigit b'&' ≡ false)
unfolding is_form_char is_xdigit
percent_lem = (refl, refl, refl)

-- One step of the loop at a byte that stands for itself.
check_run_char :
    (c m : ℕ) (s : Bytes) → is_form_char c ≡ true → check_run (c ∷ s) (suc m) ≡ check_run s m
unfolding check_run
check_run_char c m [] h = ground (arith, percent_lem.0)
check_run_char c m (a ∷ []) h = ground (arith, percent_lem.0)
check_run_char c m (a ∷ b ∷ s) h = ground (arith, percent_lem.0)

-- One step at an escape.
check_run_escape :
    (a b m : ℕ) (s : Bytes)
    → is_xdigit a ≡ true
    → is_xdigit b ≡ true
    → check_run (b'%' ∷ a ∷ b ∷ s) (suc (suc (suc m))) ≡ check_run s m
unfolding check_run
check_run_escape a b m s x y = rw (x, y) (ap (check_run s) (omega arith))

-- The two ways to pass a byte.
data Passes (c m : ℕ) (s : Bytes) : Type 0 where
  char : is_form_char c ≡ true → check_run s m ≡ true → Passes c m s
  percent :
      (a b : ℕ) (r : Bytes)
      → c ≡ b'%'
      → s ≡ a ∷ b ∷ r
      → is_xdigit a ≡ true
      → is_xdigit b ≡ true
      → check_run r (m - 2) ≡ true
      → Passes c m s

check_run-Passes : (c m : ℕ) (s : Bytes) → check_run (c ∷ s) (suc m) ≡ true → Passes c m s
unfolding check_run
check_run-Passes c m [] h = char (ground arith) (ground arith)
check_run-Passes c m (a ∷ []) h = char (ground arith) (ground arith)
check_run-Passes c m (a ∷ b ∷ s) h = elim (Bool-cases (c == b'%')) [
  | inl at ↦ Passes.percent a b s (ground arith) refl (ground arith) (ground arith) (ground arith)
  | inr other ↦ char (ground arith) (ground arith)
]

head-IsStop : (r : Bytes) (x : ℕ) (s : Bytes) → IsStop r → r ≡ x ∷ s → is_xdigit x ≡ true → ⊥
head-IsStop [] x s stop e h = cc
head-IsStop (y ∷ r) x s stop e h = ground arith

pub check_run-Encoded : (k r : Bytes) → IsStop r → check_run (k ++ r) (length k) ≡ true → Encoded k
check_run-Encoded [] r stop h = nil
check_run-Encoded (c ∷ []) r stop h = elim (check_run-Passes c 0 r h) [
  | char p q ↦ plain p nil
  | percent a b s e cut x y q ↦ absurd (head-IsStop r a (b ∷ s) stop cut x)
]
check_run-Encoded (c ∷ a ∷ []) r stop h = elim (check_run-Passes c 1 (a ∷ r) h) [
  | char p q ↦ plain p (check_run-Encoded (a ∷ []) r stop q)
  | percent a' b s e cut x y q ↦ absurd (head-IsStop r b s stop (ground arith) y)
]
check_run-Encoded (c ∷ a ∷ b ∷ k) r stop h =
    elim (check_run-Passes c (length (a ∷ b ∷ k)) (a ∷ b ∷ (k ++ r)) h) [
      | char p q ↦ plain p (check_run-Encoded (a ∷ b ∷ k) r stop q)
      | percent a' b' s e cut x y q ↦
          let xa : is_xdigit a ≡ true = ground arith in
          let yb : is_xdigit b ≡ true = ground arith in
          let rest : s ≡ k ++ r = ground arith in
          let run : check_run (k ++ r) (length k) ≡ true =
            ap₂ check_run (sym rest) (omega arith) ∙ q in
          rw e (escape xa yb (check_run-Encoded k r stop run))
    ]

pub Encoded-check_run : {k : Bytes} (r : Bytes) → Encoded k → check_run (k ++ r) (length k) ≡ true
Encoded-check_run r nil = unfold check_run in refl
Encoded-check_run r (escape {a} {b} {s} x y e) =
    check_run_escape a b (length s) (s ++ r) x y ∙ Encoded-check_run r e
Encoded-check_run r (plain {c} {s} p e) =
    check_run_char c (length s) (s ++ r) p ∙ Encoded-check_run r e

-- What is encoded holds no separator.
form_char-ne : (c : ℕ) → is_form_char c ≡ true → (c ≢ b'=') × (c ≢ b'&')
unfolding is_form_char
form_char-ne c h = ground arith

xdigit-ne : (c : ℕ) → is_xdigit c ≡ true → (c ≢ b'=') × (c ≢ b'&')
unfolding is_xdigit
xdigit-ne c h = ground arith

pub Encoded-Without : {k : Bytes} → Encoded k → Without b'=' k × Without b'&' k
Encoded-Without nil = (tt, tt)
Encoded-Without (plain {c} p e) =
    let (f, g) = Encoded-Without e in (((form_char-ne c p).0, f), ((form_char-ne c p).1, g))
Encoded-Without (escape {a} {b} x y e) =
    let (f, g) = Encoded-Without e in
    let (xa, xb) = xdigit-ne a x in
    let (ya, yb) = xdigit-ne b y in ((omega arith, (xa, (ya, f))), (omega arith, (xb, (yb, g))))
