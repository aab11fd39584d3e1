-- ===== src/Config/Times/Units.antt =====
-- src/config.cpp: a time or a rate as a configuration writes it, a number before its unit.
use cgi_web_server.Base.Int.{pos}
use cgi_web_server.Base.{
  ℕ, suc, ◌*◌, ◌/◌, ◌^◌, ◌<◌, ◌≡◌, refl, sym, ap, ◌∙◌, true, false, none, some, [], ◌∷◌, ◌++◌, map,
  arith, ltb, if◌then◌else◌, All, All-append, length, drop, drop-append, append-nil, append_assoc,
}
use cgi_web_server.Config.Times.{
  get_seconds_multiplier, until_space, after_digits, unsigned, seconds_of_token,
  get_seconds_from_time_str, refill_unit, value_or_zero, load_refill_rate,
}
use cgi_web_server.Text.Decimal.{
  IsDigit, IsUnit, to_string-IsDigit, to_string-cons, digits_of-append, stoi-to_string,
}
use cgi_web_server.Text.Number.{skip_space, stoi, to_string}
use cgi_web_server.Text.{Bytes, codes, find, is_digit, is_empty, is_space, to_lower}

-- A byte that is no white space.
abbrev pub IsSolid : ℕ → Type 0
IsSolid c = is_space c ≡ false

-- What stands behind a word: nothing, or white space.
abbrev pub IsBreak : Bytes → Type 0
IsBreak [] = Unit
IsBreak (c ∷ s) = is_space c ≡ true

until_space-append : (s rest : Bytes) → All IsSolid s → IsBreak rest → until_space (s ++ rest) ≡ s
unfolding until_space
until_space-append [] [] h k = refl
until_space-append [] (c ∷ rest) h k = rw k refl
until_space-append (c ∷ s) rest (d, h) k = rw (d, until_space-append s rest h k) refl

IsDigit-IsSolid : (s : Bytes) → All IsDigit s → All IsSolid s
unfolding is_digit is_space
IsDigit-IsSolid [] h = tt
IsDigit-IsSolid (c ∷ s) (d, h) = (ground arith, IsDigit-IsSolid s h)

after_digits-append : (s u : Bytes) → All IsDigit s → IsUnit u → after_digits (s ++ u) ≡ u
unfolding after_digits
after_digits-append s u h k = rw (digits_of-append s u h k) (drop-append s u)

stoi-number : (n : ℕ) → n < 2 ^ 31 → stoi (to_string n) ≡ some (pos n)
stoi-number n fits = ap stoi (sym (append-nil (to_string n))) ∙ stoi-to_string n [] fits tt

seconds_of_token-to_string :
    (n : ℕ) (unit : Bytes)
    → n < 2 ^ 31
    → IsUnit unit
    → seconds_of_token (to_string n ++ unit) ≡ (
        if ltb (get_seconds_multiplier (map to_lower unit) * n) (2 ^ 31)
        then some (get_seconds_multiplier (map to_lower unit) * n)
        else none)
unfolding seconds_of_token unsigned
seconds_of_token-to_string n unit fits h =
    let digits = digits_of-append (to_string n) unit (to_string-IsDigit n) h in
    let rest = after_digits-append (to_string n) unit (to_string-IsDigit n) h in
    let value = stoi-number n fits in
    let (d, s, e) = to_string-cons n in
    rw (digits, e, seconds_of_token) (rw (ap stoi (sym e) ∙ value, rest) refl)

skip_space-to_string : (n : ℕ) (t : Bytes) → skip_space (to_string n ++ t) ≡ to_string n ++ t
unfolding skip_space
skip_space-to_string n t =
    let (d, s, e) = to_string-cons n in
    let solid = IsDigit-IsSolid (d ∷ s) (rw e at (to_string-IsDigit n)) in rw (e, solid.0) refl

is_empty-to_string : (n : ℕ) (t : Bytes) → is_empty (to_string n ++ t) ≡ false
is_empty-to_string n t = let (d, s, e) = to_string-cons n in rw e refl

-- A time is read as it is written: a number that fits an `int`, then a unit that starts with no
-- digit and holds no white space, then nothing or white space and any text, is the number times
-- the seconds of the unit in lower case, where that fits an `int`, and overflows where it does
-- not.
pub get_seconds_from_time_str-to_string :
    (n : ℕ) (unit rest : Bytes)
    → n < 2 ^ 31
    → IsUnit unit
    → All IsSolid unit
    → IsBreak rest
    → get_seconds_from_time_str (some (to_string n ++ (unit ++ rest))) ≡ (
        if ltb (get_seconds_multiplier (map to_lower unit) * n) (2 ^ 31)
        then some (get_seconds_multiplier (map to_lower unit) * n)
        else none)
unfolding get_seconds_from_time_str skip_space
get_seconds_from_time_str-to_string n unit rest fits h solid behind =
    let whole =
      All-append IsSolid (to_string n) unit (IsDigit-IsSolid (to_string n) (to_string-IsDigit n))
        solid in
    let word : until_space (to_string n ++ (unit ++ rest)) ≡ to_string n ++ unit =
      ap until_space (sym (append_assoc (to_string n) unit rest))
      ∙ until_space-append (to_string n ++ unit) rest whole behind in
    rw (skip_space-to_string n (unit ++ rest), word, is_empty-to_string n unit)
      (seconds_of_token-to_string n unit fits h)

find_slash-digits :
    (s : Bytes) (unit : Bytes)
    → All IsDigit s
    → find (codes "/") (s ++ b'/' ∷ unit) ≡ some (length s)
unfolding find is_digit
find_slash-digits [] unit h = refl
find_slash-digits (c ∷ s) unit (d, h) = ground (arith, find_slash-digits s unit h)

refill_unit-append : (s unit : Bytes) → All IsDigit s → refill_unit (s ++ b'/' ∷ unit) ≡ unit
unfolding refill_unit
refill_unit-append s unit h = rw (find_slash-digits s unit h, refill_unit) (drop_suc s unit)
  where
    drop_suc : (s unit : Bytes) → drop (suc (length s)) (s ++ b'/' ∷ unit) ≡ unit
    drop_suc [] unit = refl
    drop_suc (c ∷ s) unit = drop_suc s unit

-- A refill rate written as a number, a '/' and a unit is read as the number divided, rounded
-- down, by the seconds of the unit, where the number fits an `int`.
pub load_refill_rate-to_string :
    (n : ℕ) (unit : Bytes)
    → n < 2 ^ 31
    → load_refill_rate (some (to_string n ++ b'/' ∷ unit)) ≡ pos (n / get_seconds_multiplier unit)
unfolding load_refill_rate value_or_zero unsigned
load_refill_rate-to_string n unit fits =
    let digits = digits_of-append (to_string n) (b'/' ∷ unit) (to_string-IsDigit n) refl in
    let rest = refill_unit-append (to_string n) unit (to_string-IsDigit n) in
    let value = stoi-number n fits in
    let (d, s, e) = to_string-cons n in
    rw (digits, e, load_refill_rate) (rw (ap stoi (sym e) ∙ value, rest) refl)
