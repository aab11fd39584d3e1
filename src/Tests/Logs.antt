-- ===== src/Tests/Logs.antt =====
-- Examples for the logger's ring and worker.
use cgi_web_server.Base.{ℕ, ◌≡◌, arith, [], ◌∷◌, true}
use cgi_web_server.Log.Liveness.{run_worker-writes}
use cgi_web_server.Log.Queue.{View, push-View, put, get, run, queue_run, run_refines, empty-View}
use cgi_web_server.Log.{Ring, Worker, empty_ring, push, process_batch, run_worker}

abbrev ring : Ring ℕ
ring = push 8 (push 7 empty_ring)

ring-View : View ring (7 ∷ 8 ∷ [])
unfolding push
ring-View =
    push-View 8 (push 7 empty_ring) (7 ∷ []) (push-View 7 empty_ring [] empty-View (ground arith))
      (ground arith)

run_refines_example :
    run (put 7 ∷ get ∷ get ∷ []) empty_ring ≡ queue_run {A = ℕ} (put 7 ∷ get ∷ get ∷ []) []
run_refines_example = run_refines (put 7 ∷ get ∷ get ∷ []) (ground arith)

abbrev worker : Worker ℕ
worker = record { ring = ring; batch = 5 ∷ 6 ∷ []; written = 4 ∷ [] }

run_worker-writes_example :
    ((process_batch true (run_worker (true ∷ true ∷ []) worker)).written ≡ 4 ∷ 5 ∷ 6 ∷ 7 ∷ 8 ∷ [])
    × ((process_batch true (run_worker (true ∷ true ∷ []) worker)).batch ≡ [])
run_worker-writes_example =
    run_worker-writes (true ∷ true ∷ []) worker (7 ∷ 8 ∷ []) ring-View (ground arith) (ground arith)
