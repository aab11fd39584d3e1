-- ===== src/Tests/Sinks.antt =====
-- Examples for the file sink.
use cgi_web_server.Base.{◌≡◌, ◌++◌, refl, arith, true, some, List, [], ◌∷◌}
use cgi_web_server.Log.Sink.Days.{IsDated, write_file-IsDated}
use cgi_web_server.Log.Sink.{
  FileSink, Readings, get_date, file_on, open_file, content, rotated, write_file,
}
use cgi_web_server.Text.{Bytes, codes, find}

-- The sink of the day before.
abbrev sink : FileSink
sink = record {
  is_open = true;
  date_today = codes "2026-01-01";
  path = codes "/var/log";
  server_name = codes "s";
  file_name = codes "/var/log/s-2026-01-01.log";
}

abbrev morning : Readings
morning = record {
  compared = codes "2026-01-02 08:00";
  named = codes "2026-01-02 08:00";
  dated = codes "2026-01-02 08:01";
}

sink-IsDated : IsDated sink
unfolding file_on
sink-IsDated = refl

same_day :
    (get_date morning.named ≡ get_date morning.compared)
    × (get_date morning.dated ≡ get_date morning.compared)
unfolding get_date find
same_day = (refl, refl)

opened : (rotated (λ name. true) morning sink).is_open ≡ true
unfolding rotated open_file get_date find
opened = refl

write_file-IsDated_example :
    (sink' : FileSink) × (files' : List (Bytes × Bytes)) × (write_file
        (λ name. true)
        morning
        (some 1 ∷ some 2 ∷ some 1 ∷ [])
        (codes "up\n")
        (sink, [])
      ≡ some (sink', files'))
    × IsDated sink'
    × (sink'.date_today ≡ get_date morning.compared)
    × (content (file_on sink (get_date morning.compared)) files'
        ≡ content (file_on sink (get_date morning.compared)) [] ++ codes "up\n")
write_file-IsDated_example =
    write_file-IsDated (λ name. true) morning (some 1 ∷ some 2 ∷ some 1 ∷ []) (codes "up\n") sink []
      sink-IsDated same_day.0 same_day.1 opened ((0, refl), ((1, refl), ((0, refl), tt)))
      (ground arith)

-- The day ends between the two readings of `openFile`: the old file is kept under the new date.
abbrev midnight : Readings
midnight = record {
  compared = codes "2026-01-02 23:59";
  named = codes "2026-01-02 23:59";
  dated = codes "2026-01-03 00:00";
}

midnight_mixed :
    ((rotated (λ name. true) midnight sink).file_name ≡ codes "/var/log/s-2026-01-02.log")
    × ((rotated (λ name. true) midnight sink).date_today ≡ codes "2026-01-03")
unfolding rotated open_file get_date find file_on
midnight_mixed = (refl, refl)
