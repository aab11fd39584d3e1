-- ===== src/Config/Times.antt =====
-- src/config.cpp: the times, rates and numbers of a rate limit's attributes. A null pointer is
-- `none`; the fallbacks are those of src/config.h.
pub mod Units
use cgi_web_server.Base.Int.{ℤ, pos, negsuc}
use cgi_web_server.Base.{
  ℕ, suc, ◌*◌, ◌/◌, ◌^◌, ◌||◌, Option, none, some, [], ◌∷◌, map, if◌then◌else◌, ltb, length, drop,
}
use cgi_web_server.Text.Number.{digits_of, skip_space, stoi}
use cgi_web_server.Text.{Bytes, codes, equal, find, is_empty, is_space, to_lower}

abbrev pub default_window_seconds : ℕ
default_window_seconds = 60

abbrev pub default_refill_rate : ℕ
default_refill_rate = 2

unfoldable pub get_seconds_multiplier : Bytes → ℕ
get_seconds_multiplier unit =
    if equal unit (codes "d") || equal unit (codes "day") || equal unit (codes "days")
    then 86400
    else if equal unit (codes "h")
        || equal unit (codes "hr")
        || equal unit (codes "hour")
        || equal unit (codes "hours")
    then 3600
    else if equal unit (codes "m") || equal unit (codes "min") || equal unit (codes "mins")
    then 60
    else 1

-- What `iss >> token` reads behind the white space.
unfoldable pub until_space : Bytes → Bytes
unfolding is_space
until_space [] = []
until_space (c ∷ s) = let rest = until_space s in if is_space c then [] else c ∷ rest

-- The text behind the digits at its start.
unfoldable pub after_digits : Bytes → Bytes
unfolding digits_of
after_digits s = drop (length (digits_of s)) s

-- The number of digits that `std::stoi` takes, which has no sign.
unfoldable pub unsigned : ℤ → ℕ
unsigned (pos n) = n
unsigned (negsuc n) = 0

-- No result: the product is no `int`, and its overflow is undefined.
unfoldable pub seconds_of_token : Bytes → Option ℕ
unfolding digits_of after_digits stoi get_seconds_multiplier to_lower unsigned
seconds_of_token token = elim (digits_of token) [
  | [] ↦ some default_window_seconds
  | d ∷ digits ↦ elim (stoi (d ∷ digits)) [
    | none ↦ some default_window_seconds
    | some value ↦
        let seconds = get_seconds_multiplier (map to_lower (after_digits token)) * unsigned value in
        if ltb seconds (2 ^ 31) then some seconds else none
  ]
]

unfoldable pub get_seconds_from_time_str : Option Bytes → Option ℕ
unfolding until_space skip_space seconds_of_token
get_seconds_from_time_str none = some default_window_seconds
get_seconds_from_time_str (some str) =
    let token = until_space (skip_space str) in
    if is_empty token then some default_window_seconds else seconds_of_token token

unfoldable pub load_int : Option Bytes → ℤ → ℤ
unfolding stoi
load_int none fallback = fallback
load_int (some int_str) fallback = elim (stoi int_str) [ none ↦ fallback | some n ↦ n ]

-- The unit behind the first '/'; without one, `npos + 1` is 0 and the unit is the whole text.
unfoldable pub refill_unit : Bytes → Bytes
unfolding find
refill_unit rate_str = elim (find (codes "/") rate_str) [
  | none ↦ rate_str
  | some at ↦ drop (suc at) rate_str
]

-- A number that `std::stoi` throws at leaves the value at 0.
unfoldable pub value_or_zero : Option ℤ → ℕ
unfolding unsigned
value_or_zero none = 0
value_or_zero (some value) = unsigned value

unfoldable pub load_refill_rate : Option Bytes → ℤ
unfolding digits_of stoi get_seconds_multiplier refill_unit value_or_zero
load_refill_rate none = pos default_refill_rate
load_refill_rate (some rate_str) = elim (digits_of rate_str) [
  | [] ↦ pos default_refill_rate
  | d ∷ digits ↦
      pos (value_or_zero (stoi (d ∷ digits)) / get_seconds_multiplier (refill_unit rate_str))
]
