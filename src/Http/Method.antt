-- ===== src/Http/Method.antt =====
-- src/http.h, src/http.cpp: request methods, and src/Router.h, src/Router.cpp: argument types.
use cgi_web_server.Base.Assoc.{Eq}
use cgi_web_server.Base.{◌≡◌, ◌↔◌, Bool, true, false, ◌||◌, arith, if◌then◌else◌}
use cgi_web_server.Text.{Bytes, codes, equal, trim_to_upper}

pub data Method : Type 0 where
  get head post options not_allowed : Method

unfoldable pub method_enum_to_str : Method → Bytes
method_enum_to_str get = codes "GET"
method_enum_to_str head = codes "HEAD"
method_enum_to_str post = codes "POST"
method_enum_to_str options = codes "OPTIONS"
method_enum_to_str not_allowed = codes ""

unfoldable pub method_str_to_enum : Bytes → Method
method_str_to_enum s =
    if equal s (codes "GET") || equal s (codes "get")
    then get
    else if equal s (codes "POST") || equal s (codes "post")
    then post
    else if equal s (codes "HEAD") || equal s (codes "head")
    then head
    else if equal s (codes "OPTIONS") || equal s (codes "options")
    then options
    else not_allowed

abbrev pub method_eq : Method → Method → Bool
method_eq get get = true
method_eq head head = true
method_eq post post = true
method_eq options options = true
method_eq not_allowed not_allowed = true
method_eq _ _ = false

pub method_eq_iff : (a b : Method) → (method_eq a b ≡ true) ↔ (a ≡ b)
method_eq_iff get b = ground arith
method_eq_iff _ b = ground arith

instance abbrev pub method_keys : Eq Method
method_keys = record { beq = method_eq; beq_iff = method_eq_iff }

pub data ArgType : Type 0 where
  none any body_any body_json body_url query_string : ArgType

unfoldable pub arg_str_to_enum : Bytes → ArgType
unfolding trim_to_upper
arg_str_to_enum args_str =
    let args_upper = trim_to_upper args_str in
    if equal args_upper (codes "JSON")
    then body_json
    else if equal args_upper (codes "QUERY")
    then query_string
    else if equal args_upper (codes "URL")
    then body_url
    else if equal args_upper (codes "*") || equal args_upper (codes "ANY")
    then any
    else if equal args_upper (codes "BODY")
    then body_any
    else none
