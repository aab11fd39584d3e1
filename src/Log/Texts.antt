-- ===== src/Log/Texts.antt =====
-- src/logger.cpp: the texts of log entries. `time` is `get_time()`.
use cgi_web_server.Base.Int.{ℤ}
use cgi_web_server.Base.{
  ℕ, zero, suc, ◌+◌, ◌-◌, ◌*◌, ◌/◌, Bool, true, false, Option, none, some, List, [], ◌∷◌, ◌++◌,
  if◌then◌else◌, ltb, ◌==◌, length, take, drop,
}
use cgi_web_server.Text.Number.{to_string, int_to_string}
use cgi_web_server.Text.{Bytes, codes, find, find_at, is_empty, starts_with, substr}

pub data Level : Type 0 where
  trace debug info warn error fatal status : Level

unfoldable pub level_to_str : Level → Bytes
level_to_str trace = codes "TRACE"
level_to_str debug = codes "DEBUG"
level_to_str info = codes "INFO"
level_to_str warn = codes "WARN"
level_to_str error = codes "ERROR"
level_to_str fatal = codes "FATAL"
level_to_str status = codes "STATUS"

-- The loop over the units. No result: there is no unit left, and the array is read behind its end.
-- A number below 2 ^ 53 is divided exactly.
unfoldable pub with_unit : List Bytes → ℕ → ℕ → Option Bytes
unfolding to_string
with_unit [] size bytes = none
with_unit (unit ∷ units) size bytes =
    let larger = with_unit units (size * 1024) bytes in
    if ltb (1024 * size) bytes then larger else some (to_string (bytes / size) ++ unit)

unfoldable pub format_bytes : ℕ → Option Bytes
unfolding with_unit
format_bytes bytes =
    if bytes == 1
    then some (codes " byte")
    else with_unit (codes " bytes" ∷ codes " KB" ∷ codes " MB" ∷ codes " GB" ∷ codes " TB" ∷ []) 1
        bytes

abbrev pub user_agent_label : Bytes
user_agent_label = codes "User-Agent: "

unfoldable pub trim_user_agent : Bytes → Bytes
trim_user_agent user_agent =
    if starts_with user_agent_label user_agent
    then drop (length user_agent_label) user_agent
    else user_agent

-- `substr(0, identifier_end - 1)`; at 0 the length wraps, and the whole text is taken.
unfoldable pub get_identifier : Bytes → Bytes
unfolding find
get_identifier user_agent = elim (find (codes "(") user_agent) [
  | none ↦ []
  | some zero ↦ user_agent
  | some (suc length) ↦ take length user_agent
]

unfoldable pub get_os : Bytes → Bytes
unfolding find
get_os user_agent = elim (find (codes "(") user_agent) [
  | none ↦ []
  | some os_start ↦ elim (find_at (codes ")") user_agent os_start) [
    | none ↦ []
    | some os_end ↦ codes " on " ++ substr user_agent (os_start + 1) (os_end - os_start - 1)
  ]
]

abbrev pub browsers : List Bytes
browsers =
    codes "Chrome/"
    ∷ codes "Firefox/"
    ∷ codes "Safari/"
    ∷ codes "Edge/"
    ∷ codes "Opera/"
    ∷ codes "Brave/"
    ∷ codes "Chromium/"
    ∷ []

-- The first of the browsers that is found, up to the next space or to the end.
unfoldable pub browser_info : List Bytes → Bytes → Bytes
unfolding find
browser_info [] user_agent = []
browser_info (browser ∷ later) user_agent = elim (find browser user_agent) [
  | none ↦ browser_info later user_agent
  | some browser_start ↦ elim (find_at (codes " ") user_agent browser_start) [
    | none ↦ drop browser_start user_agent
    | some browser_end ↦ substr user_agent browser_start (browser_end - browser_start)
  ]
]

unfoldable pub get_browser : Bytes → Bytes
unfolding browser_info
get_browser user_agent =
    let info = browser_info browsers user_agent in if is_empty info then [] else b' ' ∷ info

unfoldable pub get_user_agent : Bytes → Bytes
unfolding find trim_user_agent get_identifier get_os get_browser
get_user_agent buffer = elim (find (codes "User-Agent") buffer) [
  | none ↦ []
  | some ua_start ↦ elim (find_at (codes "\r\n") buffer ua_start) [
    | none ↦ []
    | some ua_end ↦
        let user_agent = trim_user_agent (substr buffer ua_start (ua_end - ua_start)) in
        get_identifier user_agent ++ (get_os user_agent ++ get_browser user_agent)
  ]
]

abbrev pub has_place : Level → Bool
has_place status = false
has_place info = false
has_place _ = true

-- `InlineEntry::build`
unfoldable pub build_inline : Bytes → Level → Bytes → Bytes → Bytes → ℤ → Bytes → Bytes
unfolding level_to_str int_to_string
build_inline time level context message file line function =
    let place =
      codes " ("
      ++ (file ++ (codes ":" ++ (int_to_string line ++ (codes ", " ++ (function ++ codes ")"))))) in
    codes "["
    ++ (time
        ++ (codes "] "
            ++ (level_to_str level
                ++ (codes " "
                    ++ (codes "["
                        ++ (context
                            ++ (codes "] "
                                ++ (message
                                    ++ ((if has_place level then place else [])
                                        ++ codes "\n")))))))))

-- `SessionEntry::build`, with the latency and the round trip in milliseconds.
unfoldable pub build_session :
    Bytes → Level → ℤ → ℤ → ℕ → Bytes → Bytes → Bytes → Bytes → Option Bytes
unfolding level_to_str int_to_string format_bytes
build_session time level latency rtt bytes user_agent request response client_addr =
    elim (if bytes == 0 then some [] else format_bytes bytes) [
      | none ↦ none
      | some amount ↦
          let size = if bytes == 0 then [] else codes " Size: " ++ amount in
          some (
            codes "["
            ++ (time
                ++ (codes "] "
                    ++ (level_to_str level
                        ++ (codes " [client "
                            ++ (client_addr
                                ++ (codes "] "
                                    ++ (codes "\""
                                        ++ (request
                                            ++ (codes "\" "
                                                ++ (user_agent
                                                    ++ (codes " [Latency: "
                                                        ++ (int_to_string latency
                                                            ++ (codes " ms RTT: "
                                                            ++ (int_to_string rtt
                                                            ++ (codes " ms"
                                                            ++ (size
                                                            ++ (codes "] "
                                                            ++ (response
                                                            ++ codes "\n")))))))))))))))))))
    ]
