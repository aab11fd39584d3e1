-- ===== src/Config/Keys.antt =====
-- src/config.cpp: the key function of a rate limit, as `get_key_func` chooses it.
use cgi_web_server.Base.{Bool, true, false, Option, none, some, [], ◌∷◌, map, if◌then◌else◌, ◌==◌}
use cgi_web_server.Config.Xml.{Xml, first_child, or_empty}
use cgi_web_server.Text.{Bytes, codes, equal, is_empty, to_lower, trim_blank}

-- The functions that `get_key_func` returns, with what they capture.
pub data KeyFunc : Type 0 where
  by_ip : KeyFunc
  by_header : Bytes → Bool → KeyFunc
  by_xff : Bool → KeyFunc
  by_query : Bool → KeyFunc

unfoldable pub trim : Bytes → Bytes
unfolding trim_blank
trim s = trim_blank s

-- `std::getline(in, part, ',')` of a text that is not empty.
unfoldable pub until_comma : Bytes → Bytes
until_comma [] = []
until_comma (c ∷ s) = let rest = until_comma s in if c == b',' then [] else c ∷ rest

unfoldable pub parse_xff : Bytes → Bytes
unfolding trim until_comma
parse_xff xff = if is_empty xff then trim xff else trim (until_comma xff)

-- `ip_fallback`, from the attribute `fallback`.
unfoldable pub ip_fallback : Option Bytes → Bool
ip_fallback none = true
ip_fallback (some fallback) = equal fallback (codes "ip")

-- The key function of a `Key` element with a type, in lower case, and `uses_ip`.
unfoldable pub key_func_of : Bytes → Option Bytes → Bool → KeyFunc × Bool
key_func_of key_type name fallback =
    if equal key_type (codes "header")
    then (if is_empty (or_empty name)
        then (by_ip, true)
        else (by_header (or_empty name) fallback, false))
    else if equal key_type (codes "ip")
    then (by_ip, true)
    else if equal key_type (codes "xff")
    then (by_xff fallback, false)
    else if equal key_type (codes "query")
    then (by_query fallback, false)
    else (by_ip, true)

unfoldable pub get_key_func : (x : Xml) → x.Element → KeyFunc × Bool
unfolding key_func_of ip_fallback to_lower first_child
get_key_func x algo_elem = elim (first_child x algo_elem (codes "Key")) [
  | none ↦ (by_ip, true)
  | some key_elem ↦
      let key_type = or_empty (x.attribute key_elem (codes "type")) in
      if is_empty key_type
      then (by_ip, true)
      else key_func_of (map to_lower key_type) (x.attribute key_elem (codes "name"))
          (ip_fallback (x.attribute key_elem (codes "fallback")))
]
