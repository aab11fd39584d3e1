-- ===== src/Text/Decimal.antt =====
-- `std::stoi` reads back what `std::to_string` writes, with any text behind that is no digit.
use cgi_web_server.Base.Int.{pos}
use cgi_web_server.Base.{
  ℕ, zero, suc, ◌+◌, ◌/◌, ◌%◌, ◌^◌, ◌<◌, ◌≡◌, refl, ap, ◌∙◌, true, false, Bool-cases, inl, inr,
  some, [], ◌∷◌, ◌++◌, arith, ltb, ◌==◌, All,
}
use cgi_web_server.Text.Number.{
  digits_of, value_from, skip_space, signed_int, stoi_sign, stoi, digits_onto, to_string,
}
use cgi_web_server.Text.{Bytes, is_digit, is_space}

abbrev pub IsDigit : ℕ → Type 0
IsDigit c = is_digit c ≡ true

-- What stands behind a number: nothing, or a byte that is no digit.
abbrev pub IsUnit : Bytes → Type 0
IsUnit [] = Unit
IsUnit (c ∷ s) = is_digit c ≡ false

digit_lem : (n : ℕ) → IsDigit (b'0' + n % 10)
unfolding is_digit
digit_lem n = ground arith

value_from-digits_onto :
    (f n : ℕ) (out : Bytes) → n < f → value_from 0 (digits_onto f n out) ≡ value_from n out
unfolding digits_onto value_from
value_from-digits_onto zero n out h = absurd (omega arith)
value_from-digits_onto (suc f) n out h =
    ground (arith, value_from-digits_onto f (n / 10) ((b'0' + n % 10) ∷ out))

digits_onto-IsDigit : (f n : ℕ) (out : Bytes) → All IsDigit out → All IsDigit (digits_onto f n out)
unfolding digits_onto
digits_onto-IsDigit zero n out h = h
digits_onto-IsDigit (suc f) n out h = elim (Bool-cases (n == 0)) [
  | inl done ↦ rw done h
  | inr more ↦ rw more (digits_onto-IsDigit f (n / 10) ((b'0' + n % 10) ∷ out) (digit_lem n, h))
]

pub to_string-IsDigit : (n : ℕ) → All IsDigit (to_string n)
unfolding to_string digits_onto
to_string-IsDigit n = elim (Bool-cases (n == 0)) [
  | inl nil ↦ rw nil (digit_lem 0, tt)
  | inr more ↦ rw more (digits_onto-IsDigit n (n / 10) ((b'0' + n % 10) ∷ []) (digit_lem n, tt))
]

pub value_from-to_string : (n : ℕ) → value_from 0 (to_string n) ≡ n
unfolding to_string value_from
value_from-to_string n = ground (arith, value_from-digits_onto (suc n) n [] (omega arith))

pub digits_of-append : (s u : Bytes) → All IsDigit s → IsUnit u → digits_of (s ++ u) ≡ s
unfolding digits_of
digits_of-append [] [] h k = refl
digits_of-append [] (c ∷ u) h k = rw k refl
digits_of-append (c ∷ s) u (d, h) k = rw (d, digits_of-append s u h k) refl

digits_onto-cons :
    (f n c : ℕ) (out : Bytes) → (d : ℕ) × (s : Bytes) × (digits_onto f n (c ∷ out) ≡ d ∷ s)
unfolding digits_onto
digits_onto-cons zero n c out = (c, out, refl)
digits_onto-cons (suc f) n c out = elim (Bool-cases (n == 0)) [
  | inl done ↦ rw done (c, out, refl)
  | inr more ↦ rw more (digits_onto-cons f (n / 10) (b'0' + n % 10) (c ∷ out))
]

pub to_string-cons : (n : ℕ) → (d : ℕ) × (s : Bytes) × (to_string n ≡ d ∷ s)
unfolding to_string digits_onto
to_string-cons n = elim (Bool-cases (n == 0)) [
  | inl nil ↦ rw nil (b'0', [], refl)
  | inr more ↦ rw more (digits_onto-cons n (n / 10) (b'0' + n % 10) [])
]

stoi-digits :
    (d : ℕ) (s u : Bytes)
    → IsDigit d
    → digits_of (d ∷ (s ++ u)) ≡ d ∷ s
    → value_from 0 (d ∷ s) < 2 ^ 31
    → stoi (d ∷ (s ++ u)) ≡ some (pos (value_from 0 (d ∷ s)))
unfolding stoi skip_space stoi_sign signed_int is_digit is_space
stoi-digits d s u digit cut fits =
    let not_space : is_space d ≡ false = ground arith in
    let not_minus : (d == b'-') ≡ false = ground arith in
    let not_plus : (d == b'+') ≡ false = ground arith in
    let small : ltb (value_from 0 (d ∷ s)) (2 ^ 31) ≡ true = ground arith in
    rw (not_space, not_minus, not_plus, cut, small) refl

-- A number that fits an `int` is read back, whatever unit stands behind it.
pub stoi-to_string :
    (n : ℕ) (u : Bytes) → n < 2 ^ 31 → IsUnit u → stoi (to_string n ++ u) ≡ some (pos n)
stoi-to_string n u fits unit =
    let (d, s, e) = to_string-cons n in
    let digits : All IsDigit (d ∷ s) = rw e at (to_string-IsDigit n) in
    let value : value_from 0 (d ∷ s) ≡ n = rw e at (value_from-to_string n) in
    rw e (
      stoi-digits d s u digits.0 (digits_of-append (d ∷ s) u digits unit) (rw value fits)
      ∙ ap (λ k. some (pos k)) value)
