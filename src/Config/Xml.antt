-- ===== src/Config/Xml.antt =====
-- The part of tinyxml2 that src/config.cpp calls, as an interface.
use cgi_web_server.Base.{Option, none, some, List, [], ◌∷◌}
use cgi_web_server.Text.{Bytes}

pub record Xml : Type 1 where
  pub Element : Type 0
  -- `Attribute(name)`
  pub attribute : Element → Bytes → Option Bytes
  -- `GetText()`
  pub get_text : Element → Option Bytes
  -- `FirstChildElement(name)`, and from each the `NextSiblingElement(name)` up to the null pointer.
  pub children : Element → Bytes → List Element
  -- `NextSiblingElement(name)`
  pub next_sibling : Element → Bytes → Option Element

-- `FirstChildElement(name)`
unfoldable pub first_child : (x : Xml) → x.Element → Bytes → Option x.Element
first_child x el name = elim (x.children el name) [ [] ↦ none | c ∷ rest ↦ some c ]

-- `attr ? attr : ""`
abbrev pub or_empty : Option Bytes → Bytes
or_empty none = []
or_empty (some s) = s
