-- ===== src/Log/Sink.antt =====
-- src/Sink.cpp: the file of a day, and the loop that writes a message. What `open` and `write`
-- answer and the readings of the clock are parameters; a file is its name and its bytes.
pub mod Days
use cgi_web_server.Base.Assoc.{lookup, insert}
use cgi_web_server.Base.{
  ℕ, Bool, true, false, Option, none, some, List, [], ◌∷◌, ◌++◌, if◌then◌else◌, take, drop, length,
  leb,
}
use cgi_web_server.Text.{Bytes, bytes_keys, codes, find}

-- `get_date`: a reading of the clock, up to its first space.
unfoldable pub get_date : Bytes → Bytes
get_date fmt_time = elim (find (b' ' ∷ []) fmt_time) [ none ↦ fmt_time | some i ↦ take i fmt_time ]

pub record FileSink : Type 0 where
  -- `fd != -1`
  pub is_open : Bool
  pub date_today : Bytes
  pub path : Bytes
  pub server_name : Bytes
  pub file_name : Bytes

-- What `get_time` answers where `write` compares the date, where `openFile` names the file and
-- where it keeps the date.
pub record Readings : Type 0 where
  pub compared : Bytes
  pub named : Bytes
  pub dated : Bytes

-- The file of a date.
unfoldable pub file_on : FileSink → Bytes → Bytes
file_on sink date = sink.path ++ (b'/' ∷ (sink.server_name ++ (b'-' ∷ (date ++ codes ".log"))))

-- `rotateFile` closes the file before.
unfoldable pub open_file : (Bytes → Bool) → Readings → FileSink → FileSink
unfolding get_date file_on
open_file opens clock sink =
    let name = file_on sink (get_date clock.named) in
    record sink { file_name = name; is_open = opens name; date_today = get_date clock.dated }

-- The constructor, where `compared` is the reading that it makes first.
unfoldable pub new_file_sink : (Bytes → Bool) → Readings → Bytes → Bytes → FileSink
unfolding open_file get_date
new_file_sink opens clock path server_name = open_file opens clock (record {
  is_open = false;
  date_today = get_date clock.compared;
  path = path;
  server_name = server_name;
  file_name = [];
})

-- The loop, over what the calls of `write` answer, `none` being an error: the bytes that are
-- written. No result: one more answer is awaited.
unfoldable pub write_loop : List (Option ℕ) → Bytes → Option Bytes
write_loop answers [] = some []
write_loop [] (x ∷ msg) = none
write_loop (none ∷ later) (x ∷ msg) = some []
write_loop (some n ∷ later) (x ∷ msg) = elim (write_loop later (drop n (x ∷ msg))) [
  | none ↦ none
  | some written ↦ some (take n (x ∷ msg) ++ written)
]

-- `ConsoleSink::write`: the same loop, on the standard output.
unfoldable pub write_console : List (Option ℕ) → Bytes → Option Bytes
unfolding write_loop
write_console answers msg = write_loop answers msg

-- The bytes of a file, and what `O_APPEND` makes of them.
unfoldable pub content : Bytes → List (Bytes × Bytes) → Bytes
content name files = elim (lookup name files) [ none ↦ [] | some bytes ↦ bytes ]

unfoldable pub append : Bytes → Bytes → List (Bytes × Bytes) → List (Bytes × Bytes)
unfolding content
append name bytes files = insert name (content name files ++ bytes) files

-- `FileSink::write`. A write to a file that is not open is an error.
unfoldable pub rotated : (Bytes → Bool) → Readings → FileSink → FileSink
unfolding open_file get_date
rotated opens clock sink =
    if bytes_keys.beq sink.date_today (get_date clock.compared)
    then sink
    else open_file opens clock sink

unfoldable pub write_file :
    (Bytes → Bool)
    → Readings
    → List (Option ℕ)
    → Bytes
    → FileSink × List (Bytes × Bytes)
    → Option (FileSink × List (Bytes × Bytes))
unfolding rotated write_loop append
write_file opens clock answers msg (sink, files) =
    let sink' = rotated opens clock sink in
    elim (if sink'.is_open then write_loop answers msg else some []) [
      | none ↦ none
      | some written ↦ some (sink', append sink'.file_name written files)
    ]

abbrev pub max_sinks : ℕ
max_sinks = 1024

-- `Logger::addSink`: a sink that has no place is dropped.
unfoldable pub add_sink {ℓ} : {A : Type ℓ} → A → List A → List A
add_sink sink sinks = if leb max_sinks (length sinks) then sinks else sinks ++ sink ∷ []
