-- ===== src/Tests/Threads.antt =====
-- Examples for the logger's threads and macros.
use cgi_web_server.Base.Int.{pos, ℤ}
use cgi_web_server.Base.{
  ℕ, ◌≡◌, refl, arith, none, [], ◌∷◌, ◌++◌, if◌then◌else◌, ltb, length, get_or, ◌%◌,
}
use cgi_web_server.Log.Macros.Fatal.{fatal_entry, log_fatal_lem}
use cgi_web_server.Log.Macros.{Entry, fatal_text, log_fatal}
use cgi_web_server.Log.Queue.{View, push-View, empty-View}
use cgi_web_server.Log.Texts.{trace}
use cgi_web_server.Log.Threads.Holes.{push_all, stop_and_flush-claim}
use cgi_web_server.Log.Threads.{claim}
use cgi_web_server.Log.{Ring, Worker, log_buffer_size, empty_ring, push, stop_and_flush}
use cgi_web_server.Text.{Bytes, codes}

abbrev ring : Ring ℕ
ring = push 7 empty_ring

ring-View : View ring (7 ∷ [])
unfolding push
ring-View = push-View 7 empty_ring [] empty-View (ground arith)

next_empty : get_or ring.log_buffer (ring.head % log_buffer_size) none ≡ none
unfolding push
next_empty = refl

abbrev worker : Worker ℕ
worker = record { ring = ring; batch = 6 ∷ []; written = 5 ∷ [] }

stop_and_flush-claim_example :
    (stop_and_flush (record worker { ring = push_all (8 ∷ 9 ∷ []) (claim worker.ring) })).written
    ≡ (5 ∷ []) ++ ((6 ∷ []) ++ (7 ∷ []))
stop_and_flush-claim_example =
    stop_and_flush-claim worker (7 ∷ []) (8 ∷ 9 ∷ []) ring-View next_empty (ground arith)
      (unfold push in omega arith)

abbrev idle : Worker Entry
idle = record { ring = empty_ring; batch = []; written = [] }

abbrev place : Bytes × ℤ × Bytes
place = (codes "Server.cpp", pos 75, codes "isError")

log_fatal_lem_example :
    (log_fatal trace (codes "Server") (codes "error=9") 42 (codes "main" ∷ []) place idle).written
    ≡ []
      ++ ([]
          ++ ([]
              ++ fatal_entry
                  (codes "Server")
                  (if ltb (length (fatal_text (codes "error=9") 42 (codes "main" ∷ []))) 1024
                    then fatal_text (codes "error=9") 42 (codes "main" ∷ [])
                    else [])
                  place
                ∷ []))
log_fatal_lem_example =
    log_fatal_lem trace (codes "Server") (codes "error=9") 42 (codes "main" ∷ []) place idle []
      (omega arith) empty-View (ground arith) (omega arith)
