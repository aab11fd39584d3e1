-- ===== src/Log/Macros.antt =====
-- src/logger_macros.h, and from src/logger.cpp the texts that the macros format: what a macro gives
-- to the logger.
pub mod Fatal
use cgi_web_server.Base.Int.{ℤ, pos}
use cgi_web_server.Base.{
  ℕ, Bool, true, false, Option, none, some, List, [], ◌∷◌, ◌++◌, ltb, leb, if◌then◌else◌, length,
}
use cgi_web_server.Log.Texts.{
  Level, trace, debug, info, warn, error, fatal, status, has_place, build_inline,
}
use cgi_web_server.Log.{Ring, Worker, push, stop_and_flush}
use cgi_web_server.Pipeline.{SessionEntry}
use cgi_web_server.Text.Number.{to_string}
use cgi_web_server.Text.{Bytes, codes}

-- `InlineEntry`; a place that is not set is `none`.
pub record InlineEntry : Type 0 where
  pub level : Level
  pub message : Bytes
  pub context : Bytes
  pub place : Option (Bytes × ℤ × Bytes)

-- The classes of entries.
pub data Entry : Type 0 where
  inline_entry : InlineEntry → Entry
  session_entry : SessionEntry → Entry

-- `fmt_msg`, given the text that the format and its arguments make, `none` where `vsnprintf`
-- fails.
unfoldable pub fmt_msg : Option Bytes → Bytes
fmt_msg none = []
fmt_msg (some text) = if ltb (length text) 1024 then text else []

-- `get_stack_trace`, given the symbols of the frames.
abbrev pub frame_lines : List Bytes → Bytes
frame_lines [] = []
frame_lines (symbol ∷ symbols) = symbol ++ (codes "\n" ++ frame_lines symbols)

unfoldable pub get_stack_trace : List Bytes → Bytes
get_stack_trace [] = codes "<empty, possible corruption>\n"
get_stack_trace (symbol ∷ symbols) = frame_lines (symbol ∷ symbols)

-- The number of a level.
abbrev pub level_number : Level → ℕ
level_number trace = 0
level_number debug = 1
level_number info = 2
level_number warn = 3
level_number error = 4
level_number fatal = 5
level_number status = 6

-- `_LOG_INLINE`, under CURRENT_LOG_LEVEL.
unfoldable pub log_inline :
    Level → Level → Bytes → Option Bytes → Bytes × ℤ × Bytes → Ring Entry → Ring Entry
unfolding fmt_msg
log_inline current level context text here l =
    if leb (level_number current) (level_number level)
    then push
        (inline_entry (record {
          level = level;
          message = fmt_msg text;
          context = context;
          place = if has_place level then some here else none;
        }))
        l
    else l

-- `LOG_SESSION`
unfoldable pub log_session_entry : SessionEntry → Ring Entry → Ring Entry
log_session_entry entry l = push (session_entry entry) l

-- The text of a `FATAL`, behind its own message.
unfoldable pub fatal_text : Bytes → ℕ → List Bytes → Bytes
unfolding get_stack_trace to_string
fatal_text message pid symbols =
    message
    ++ (codes ", exiting pid="
        ++ (to_string pid ++ (codes "\nSTACK TRACE:\n" ++ get_stack_trace symbols)))

-- `FATAL`: the logger behind `stopAndFlush`, before the process exits.
unfoldable pub log_fatal :
    Level → Bytes → Bytes → ℕ → List Bytes → Bytes × ℤ × Bytes → Worker Entry → Worker Entry
unfolding log_inline fatal_text
log_fatal current context message pid symbols here w = stop_and_flush (record w {
  ring = log_inline current fatal context (some (fatal_text message pid symbols)) here w.ring;
})
