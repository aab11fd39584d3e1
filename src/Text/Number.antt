-- ===== src/Text/Number.antt =====
-- `std::stoi` and `std::to_string`.
use cgi_web_server.Base.Int.{ℤ, pos, negsuc, neg}
use cgi_web_server.Base.{
  ℕ, zero, suc, ◌+◌, ◌-◌, ◌*◌, ◌/◌, ◌%◌, ◌^◌, Bool, true, false, Option, none, some, [], ◌∷◌, ltb,
  leb, ◌==◌, if◌then◌else◌,
}
use cgi_web_server.Text.{Bytes, is_digit, is_space, is_empty}

-- The longest prefix of decimal digits.
unfoldable pub digits_of : Bytes → Bytes
unfolding is_digit
digits_of [] = []
digits_of (c ∷ s) = let rest = digits_of s in if is_digit c then c ∷ rest else []

-- The number that decimal digits spell behind `n`.
unfoldable pub value_from : ℕ → Bytes → ℕ
value_from n [] = n
value_from n (c ∷ s) = value_from (n * 10 + (c - b'0')) s

unfoldable pub skip_space : Bytes → Bytes
unfolding is_space
skip_space [] = []
skip_space (c ∷ s) = if is_space c then skip_space s else c ∷ s

-- The digits with the sign read before them: an `int`, or no result where `std::stoi` throws
-- `std::invalid_argument` or `std::out_of_range`.
unfoldable pub signed_int : Bool → Bytes → Option ℤ
unfolding digits_of value_from
signed_int minus s =
    let digits = digits_of s in
    let n = value_from 0 digits in
    if is_empty digits
    then none
    else if minus
    then (if leb n (2 ^ 31) then some (neg n) else none)
    else if ltb n (2 ^ 31)
    then some (pos n)
    else none

unfoldable pub stoi_sign : Bytes → Option ℤ
unfolding signed_int
stoi_sign [] = none
stoi_sign (c ∷ s) =
    if c == b'-'
    then signed_int true s
    else if c == b'+'
    then signed_int false s
    else signed_int false (c ∷ s)

unfoldable pub stoi : Bytes → Option ℤ
unfolding skip_space stoi_sign
stoi s = stoi_sign (skip_space s)

-- The digits of `n` before `out`; a round for each digit, so fuel `n + 1` is enough.
unfoldable pub digits_onto : ℕ → ℕ → Bytes → Bytes
digits_onto zero n out = out
digits_onto (suc f) n out =
    let rest = digits_onto f (n / 10) ((b'0' + n % 10) ∷ out) in if n == 0 then out else rest

unfoldable pub to_string : ℕ → Bytes
unfolding digits_onto
to_string n = if n == 0 then b'0' ∷ [] else digits_onto (suc n) n []

unfoldable pub int_to_string : ℤ → Bytes
unfolding to_string
int_to_string (pos n) = to_string n
int_to_string (negsuc n) = b'-' ∷ to_string (n + 1)
