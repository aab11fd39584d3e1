-- ===== src/Log/Sink/Days.antt =====
-- src/Sink.cpp: every message stands in the file of its day.
use cgi_web_server.Base.Assoc.{insert, lookup-insert_self}
use cgi_web_server.Base.{
  ℕ, suc, ◌≤◌, ◌≡◌, refl, ap, ◌∙◌, arith, Bool, true, Option, some, List, [], ◌∷◌, ◌++◌, length,
  drop, take-append-drop, length-drop, All, Bool-cases, inl, inr,
}
use cgi_web_server.Log.Sink.{
  new_file_sink, get_date, FileSink, Readings, file_on, open_file, write_loop, content, append,
  rotated, write_file,
}
use cgi_web_server.Text.{Bytes, bytes_keys}

-- A call of `write` that writes a byte at least.
abbrev pub IsProgress : Option ℕ → Type 0
IsProgress answer = (n : ℕ) × (answer ≡ some (suc n))

-- The file has the name of the date that is kept.
abbrev pub IsDated : FileSink → Type 0
IsDated sink = sink.file_name ≡ file_on sink sink.date_today

write_loop-IsProgress :
    (answers : List (Option ℕ)) (msg : Bytes)
    → All IsProgress answers
    → length msg ≤ length answers
    → write_loop answers msg ≡ some msg
unfolding write_loop
write_loop-IsProgress answers [] h enough = refl
write_loop-IsProgress [] (x ∷ msg) h enough = absurd (omega (arith, enough))
write_loop-IsProgress (answer ∷ later) (x ∷ msg) ((n, e), h) enough =
    let less = length-drop n msg in
    let rest = write_loop-IsProgress later (drop n msg) h (omega (arith, enough, less)) in
    rw (e, write_loop, rest) (ap (λ m. some (x ∷ m)) (take-append-drop n msg))

rotated-IsDated :
    (opens : Bytes → Bool) (clock : Readings) (sink : FileSink)
    → IsDated sink
    → get_date clock.named ≡ get_date clock.compared
    → get_date clock.dated ≡ get_date clock.compared
    → IsDated (rotated opens clock sink)
      × ((rotated opens clock sink).date_today ≡ get_date clock.compared)
      × ((rotated opens clock sink).file_name ≡ file_on sink (get_date clock.compared))
unfolding rotated open_file file_on
rotated-IsDated opens clock sink h named dated =
    elim (Bool-cases (bytes_keys.beq sink.date_today (get_date clock.compared))) [
      | inl same ↦
          let today = (bytes_keys.beq_iff sink.date_today (get_date clock.compared)).0 same in
          rw same (h, today, h ∙ ap (file_on sink) today)
      | inr other ↦ rw (other, named, dated) (refl, refl, refl)
    ]

-- A sink that is made within one day is named by the date that it keeps.
new_file_sink-IsDated :
    (opens : Bytes → Bool) (clock : Readings) (path server_name : Bytes)
    → get_date clock.named ≡ get_date clock.dated
    → IsDated (new_file_sink opens clock path server_name)
unfolding new_file_sink open_file file_on
new_file_sink-IsDated opens clock path server_name h = rw h refl

content-insert :
    (name bytes : Bytes) (files : List (Bytes × Bytes))
    → content name (insert name bytes files) ≡ bytes
unfolding content
content-insert name bytes files = rw (content, lookup-insert_self name bytes files) refl

content-append :
    (name bytes : Bytes) (files : List (Bytes × Bytes))
    → content name (append name bytes files) ≡ content name files ++ bytes
unfolding append
content-append name bytes files = content-insert name (content name files ++ bytes) files

-- A message stands in the file of its day: where the readings of one call fall on one day, the
-- file sink is named by the date that it keeps, the file that it writes to is open, and every
-- call of `write` takes a byte at least, with as many calls as the message has bytes, the write
-- ends, the sink is named by the date that it keeps again and keeps that day's date, and that
-- day's file has grown by exactly the message.
pub write_file-IsDated :
    (opens : Bytes → Bool) (clock : Readings) (answers : List (Option ℕ)) (msg : Bytes)
    (sink : FileSink) (files : List (Bytes × Bytes))
    → IsDated sink
    → get_date clock.named ≡ get_date clock.compared
    → get_date clock.dated ≡ get_date clock.compared
    → (rotated opens clock sink).is_open ≡ true
    → All IsProgress answers
    → length msg ≤ length answers
    → (sink' : FileSink) × (files' : List (Bytes × Bytes)) × (write_file opens clock answers msg
          (sink, files)
        ≡ some (sink', files'))
      × IsDated sink'
      × (sink'.date_today ≡ get_date clock.compared)
      × (content (file_on sink (get_date clock.compared)) files'
          ≡ content (file_on sink (get_date clock.compared)) files ++ msg)
unfolding write_file
write_file-IsDated opens clock answers msg sink files h named dated opened progress enough =
    let (kept, today, name) = rotated-IsDated opens clock sink h named dated in
    let whole = write_loop-IsProgress answers msg progress enough in
    (
      rotated opens clock sink,
      append (rotated opens clock sink).file_name msg files,
      rw (opened, whole, write_file) refl,
      kept,
      today,
      rw name (content-append (file_on sink (get_date clock.compared)) msg files),
    )
