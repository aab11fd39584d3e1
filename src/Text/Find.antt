-- ===== src/Text/Find.antt =====
-- What `find` finds: the text is cut at the first occurrence of the pattern.
use cgi_web_server.Base.{
  zero, suc, ℕ, zero, suc, ◌+◌, ◌≡◌, ◌≢◌, ◌↔◌, inl, inr, refl, sym, ap, true, Option, none, some,
  [], ◌∷◌, ◌++◌, arith, ◌==◌, length, drop, All, Bool-cases, ==_refl, length-append, drop-append,
  take-append, drop, append_assoc,
}
use cgi_web_server.Text.{Bytes, starts_with, shift, find, find_at, substr}

abbrev pub Without : ℕ → Bytes → Type 0
Without c s = All (λ x. x ≢ c) s

-- The pattern stands at the head of the text exactly when the text goes on behind it.
pub starts_with-append : (p s : Bytes) → starts_with p (p ++ s) ≡ true
starts_with-append [] s = refl
starts_with-append (x ∷ p) s = ground (arith, starts_with-append p s, ==_refl x)

pub starts_with-eq-true : (p s : Bytes) → starts_with p s ≡ true → (r : Bytes) × (s ≡ p ++ r)
starts_with-eq-true [] s h = (s, refl)
starts_with-eq-true (x ∷ p) [] h = cc
starts_with-eq-true (x ∷ p) (c ∷ s) h =
    let (r, e) = starts_with-eq-true p s (ground arith) in (r, ground arith)

pub shift-eq-some :
    (n : ℕ) (o : Option ℕ) (i : ℕ) → shift n o ≡ some i → (j : ℕ) × (o ≡ some j) × (n + j ≡ i)
shift-eq-some n none i h = cc
shift-eq-some n (some j) i h = (j, refl, ground arith)

pub shift-zero : (o : Option ℕ) → shift 0 o ≡ o
shift-zero none = refl
shift-zero (some i) = ap some (omega arith)

-- A place that `find` returns cuts the text around the pattern.
pub find-eq-some :
    (p s : Bytes) {i : ℕ}
    → find p s ≡ some i
    → (a : Bytes) × (b : Bytes) × (s ≡ a ++ (p ++ b)) × (length a ≡ i)
unfolding find
find-eq-some [] [] h = ([], [], refl, ground arith)
find-eq-some (x ∷ p) [] h = cc
find-eq-some p (c ∷ s) {i} h = elim (Bool-cases (starts_with p (c ∷ s))) [
  | inl at ↦ let (r, e) = starts_with-eq-true p (c ∷ s) at in ([], r, e, ground arith)
  | inr past ↦
      let (j, below, same) = shift-eq-some 1 (find p s) i (ground arith) in
      let (a, b, cut, len) = find-eq-some p s below in (c ∷ a, b, ap (◌∷◌ c) cut, omega arith)
]

-- Bytes that differ from the pattern's first are passed over.
pub find-skip :
    (x : ℕ) (p a s : Bytes)
    → Without x a
    → find (x ∷ p) (a ++ s) ≡ shift (length a) (find (x ∷ p) s)
unfolding find
find-skip x p [] s h = sym (shift-zero _)
find-skip x p (c ∷ a) s h = ground (arith, find-skip x p a s h.1)

-- The pattern is found behind bytes that differ from its first.
pub find-append :
    (x : ℕ) (p a s : Bytes) → Without x a → find (x ∷ p) (a ++ (x ∷ p ++ s)) ≡ some (length a)
unfolding find
find-append x p [] s h = ground (arith, ==_refl x, starts_with-append p s)
find-append x p (c ∷ a) s h = ground (arith, find-append x p a s h.1)

-- One byte is not found exactly where it does not occur.
pub find-eq-none_iff : (x : ℕ) (s : Bytes) → (find (x ∷ []) s ≡ none) ↔ Without x s
unfolding find
find-eq-none_iff x [] = ground arith
find-eq-none_iff x (c ∷ s) = ground (arith, find-eq-none_iff x s)

-- One byte is found at its first occurrence.
pub find_byte :
    (x : ℕ) (s : Bytes) {i : ℕ}
    → find (x ∷ []) s ≡ some i
    → (a : Bytes) × (b : Bytes) × (s ≡ a ++ (x ∷ b)) × (length a ≡ i) × Without x a
unfolding find
find_byte x [] h = cc
find_byte x (c ∷ s) {i} h = elim (Bool-cases (x == c)) [
  | inl at ↦ ([], s, ground arith, ground arith, tt)
  | inr past ↦
      let (j, below, same) = shift-eq-some 1 (find (x ∷ []) s) i (ground arith) in
      let (a, b, cut, len, free) = find_byte x s below in
      (c ∷ a, b, ap (◌∷◌ c) cut, omega arith, (ground arith, free))
]

-- A search that starts behind `a` searches what follows `a`.
pub find_at-append : (p a s : Bytes) → find_at p (a ++ s) (length a) ≡ shift (length a) (find p s)
find_at-append p a s = rw (drop-append a s) (ground (arith, length-append a s))

-- The same at a position that is known to be the length of `a`.
pub find_at-pos : (p a s : Bytes) (i : ℕ) → i ≡ length a → find_at p (a ++ s) i ≡ shift i (find p s)
find_at-pos p a s i e = rw e (find_at-append p a s)

pub drop-pos : (a s : Bytes) (i : ℕ) → i ≡ length a → drop i (a ++ s) ≡ s
drop-pos a s i e = rw e (drop-append a s)

pub substr-pos :
    (a t s : Bytes) (i n : ℕ) → i ≡ length a → n ≡ length t → substr (a ++ (t ++ s)) i n ≡ t
substr-pos a t s i n e k = rw (e, k) (rw (drop-append a (t ++ s)) (take-append t s))

-- A text with no byte of the pattern's first holds the pattern nowhere.
pub find-eq-none : (x : ℕ) (p s : Bytes) → Without x s → find (x ∷ p) s ≡ none
unfolding find
find-eq-none x p [] h = refl
find-eq-none x p (c ∷ s) h = ground (arith, find-eq-none x p s h.1)

-- The same behind one more byte.
module _ (a : Bytes) (x : ℕ) (s : Bytes) where
  pub snoc-append : a ++ (x ∷ s) ≡ (a ++ x ∷ []) ++ s
  snoc-append = sym (append_assoc a (x ∷ []) s)

  length-snoc : length (a ++ x ∷ []) ≡ length a + 1
  length-snoc = omega (arith, length-append a (x ∷ []))

  pub find_at-next :
      (p : Bytes) (i : ℕ) → i ≡ length a + 1 → find_at p (a ++ (x ∷ s)) i ≡ shift i (find p s)
  find_at-next p i e = rw snoc-append (find_at-pos p (a ++ x ∷ []) s i (omega (arith, length-snoc)))

  pub drop-next : (i : ℕ) → i ≡ length a + 1 → drop i (a ++ (x ∷ s)) ≡ s
  drop-next i e = rw snoc-append (drop-pos (a ++ x ∷ []) s i (omega (arith, length-snoc)))

-- A text behind `a` and one more byte.
pub substr-next :
    (a : Bytes) (x : ℕ) (t s : Bytes) (i n : ℕ)
    → i ≡ length a + 1
    → n ≡ length t
    → substr (a ++ (x ∷ (t ++ s))) i n ≡ t
substr-next a x t s i n e k = rw (drop-next a x (t ++ s) i e, k) (take-append t s)

-- The same behind a separator.
module _ (a p s : Bytes) (i : ℕ) (e : i ≡ length a + length p) where
  regroup : a ++ (p ++ s) ≡ (a ++ p) ++ s
  regroup = sym (append_assoc a p s)

  pub drop-behind : drop i (a ++ (p ++ s)) ≡ s
  drop-behind = rw regroup (drop-pos (a ++ p) s i (omega (arith, length-append a p)))

  pub find_at-behind : (q : Bytes) → find_at q (a ++ (p ++ s)) i ≡ shift i (find q s)
  find_at-behind q = rw regroup (find_at-pos q (a ++ p) s i (omega (arith, length-append a p)))

pub drop-append_more : (a s : Bytes) (i n : ℕ) → i ≡ length a + n → drop i (a ++ s) ≡ drop n s
drop-append_more [] s i n e = ap (λ k. drop k s) (omega arith)
drop-append_more (c ∷ a) s zero n e = absurd (omega arith)
drop-append_more (c ∷ a) s (suc i) n e = drop-append_more a s i n (omega arith)

pub drop-next_more :
    (a : Bytes) (x : ℕ) (s : Bytes) (i n : ℕ)
    → i ≡ length a + 1 + n
    → drop i (a ++ (x ∷ s)) ≡ drop n s
drop-next_more a x s i n e =
    rw (snoc-append a x s) (drop-append_more (a ++ x ∷ []) s i n (omega (arith, length-snoc a x s)))
