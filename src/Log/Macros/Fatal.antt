-- ===== src/Log/Macros/Fatal.antt =====
-- src/logger_macros.h: what a `FATAL` leaves behind.
use cgi_web_server.Base.Int.{ℤ}
use cgi_web_server.Base.{
  ℕ, ◌+◌, ◌^◌, ◌<◌, ◌≤◌, ◌≡◌, arith, true, some, List, [], ◌∷◌, ◌++◌, ltb, leb, length,
  length-append, if◌then◌else◌,
}
use cgi_web_server.Log.Delivery.{stop_and_flush_lem}
use cgi_web_server.Log.Macros.{
  Entry, inline_entry, level_number, fmt_msg, fatal_text, log_inline, log_fatal,
}
use cgi_web_server.Log.Queue.{View, push-View}
use cgi_web_server.Log.Texts.{Level, fatal}
use cgi_web_server.Log.{Worker, log_buffer_size, push}
use cgi_web_server.Text.{Bytes}

-- The entry of a `FATAL` with a message.
abbrev pub fatal_entry : Bytes → Bytes → Bytes × ℤ × Bytes → Entry
fatal_entry context message here =
    inline_entry (record { level = fatal; message = message; context = context; place = some here })

-- Before the process exits, a FATAL, unless CURRENT_LOG_LEVEL is above it, writes every entry of
-- the batch and of a ring that is not overrun, in order, and its own entry last; the message of
-- that entry is its text with the process and the stack trace, if that has fewer than 1024 bytes,
-- and empty otherwise.
pub log_fatal_lem :
    (current : Level) (context message : Bytes) (pid : ℕ) (symbols : List Bytes)
    (here : Bytes × ℤ × Bytes) (w : Worker Entry) (q : List Entry)
    → level_number current ≤ level_number fatal
    → View w.ring q
    → length q + 1 < log_buffer_size
    → w.ring.head + 1 < 2 ^ 64
    → let text = fatal_text message pid symbols in
      (log_fatal current context message pid symbols here w).written
      ≡ w.written
        ++ (w.batch
            ++ (q ++ fatal_entry context (if ltb (length text) 1024 then text else []) here ∷ []))
unfolding log_fatal log_inline fmt_msg
log_fatal_lem current context message pid symbols here w q shown v few room =
    let text = fatal_text message pid symbols in
    let entry = fatal_entry context (if ltb (length text) 1024 then text else []) here in
    let logged : leb (level_number current) 5 ≡ true = ground arith in
    let longer = length-append q (entry ∷ []) in
    rw (logged, log_fatal)
      ((stop_and_flush_lem (record w { ring = push entry w.ring }) (q ++ entry ∷ [])
        (push-View entry w.ring q v room) (omega (arith, longer))).0)
