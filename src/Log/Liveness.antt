-- ===== src/Log/Liveness.antt =====
-- src/logger.cpp: what is logged is written.
use cgi_web_server.Base.{
  ℕ, suc, ◌<◌, ◌≤◌, ◌≡◌, refl, sym, ◌∙◌, arith, Bool, true, List, [], ◌∷◌, ◌++◌, length, drop,
  append-nil,
}
use cgi_web_server.Log.Delivery.{entries, pop_lem, flush_if_lem, batch-flush_if, process_batch_lem}
use cgi_web_server.Log.Queue.{View, queue_pop}
use cgi_web_server.Log.{Worker, log_buffer_size, flush_if, poll, process_batch, run_worker}

module _ {A : Type 0} where
  length-queue_pop : (q : List A) → length (queue_pop q).1 ≤ length q
  length-queue_pop [] = omega arith
  length-queue_pop (x ∷ q) = omega arith

  drop-queue_pop : (n : ℕ) (q : List A) → drop n (queue_pop q).1 ≡ drop (suc n) q
  drop-queue_pop n [] = drop_nil n
    where
      drop_nil : (n : ℕ) → drop {A = A} n [] ≡ []
      drop_nil ℕ.zero = refl
      drop_nil (suc n) = refl
  drop-queue_pop n (x ∷ q) = refl

  run_worker_lem :
      (timeouts : List Bool) (w : Worker A) (q : List A)
      → View w.ring q
      → length q < log_buffer_size
      → (entries (run_worker timeouts w) (drop (length timeouts) q) ≡ entries w q)
        × View (run_worker timeouts w).ring (drop (length timeouts) q)
  unfolding run_worker
  run_worker_lem [] w q v h = (refl, v)
  run_worker_lem (timeout ∷ later) w q v h =
      let (kept, next) = process_batch_lem timeout w q v h in
      let less = length-queue_pop q in
      let (all, left) =
        run_worker_lem later (process_batch timeout w) (queue_pop q).1 next
          (omega (arith, h, less)) in
      let dropped = drop-queue_pop (length later) q in
      (rw dropped at all ∙ kept, rw dropped at left)

  poll_empty :
      (w : Worker A) → View w.ring [] → ((poll w).written ≡ w.written) × ((poll w).batch ≡ w.batch)
  unfolding poll
  poll_empty w v =
      let (empty, next) = pop_lem w.ring [] v (omega arith) in rw (empty, poll) (refl, refl)

  drop_all : (n : ℕ) (q : List A) → length q ≤ n → drop n q ≡ []
  drop_all ℕ.zero [] h = refl
  drop_all ℕ.zero (x ∷ q) h = absurd (omega arith)
  drop_all (suc n) [] h = refl
  drop_all (suc n) (x ∷ q) h = drop_all n q (omega arith)

  -- Every entry is written, in order, by the worker itself: after at least as many rounds as
  -- the ring has entries, each with or without a flush, the next round at which the timeout has
  -- passed leaves nothing unwritten, if the ring is not overrun and no entry comes meanwhile.
  pub run_worker-writes :
      (timeouts : List Bool) (w : Worker A) (q : List A)
      → View w.ring q
      → length q < log_buffer_size
      → length q ≤ length timeouts
      → ((process_batch true (run_worker timeouts w)).written ≡ w.written ++ (w.batch ++ q))
        × ((process_batch true (run_worker timeouts w)).batch ≡ [])
  unfolding process_batch
  run_worker-writes timeouts w q v h enough =
      let after = run_worker timeouts w in
      let (all, left) = run_worker_lem timeouts w q v h in
      let gone = drop_all (length timeouts) q enough in
      let (same, ring) = flush_if_lem true after [] in
      let (kept, empty) = poll_empty (flush_if true after) (rw ring (rw gone at left)) in
      let none_left = batch-flush_if after in
      let written : (flush_if true after).written ≡ entries (flush_if true after) [] =
        rw none_left (sym (append-nil (flush_if true after).written)) in
      (kept ∙ written ∙ same ∙ rw gone at all, empty ∙ none_left)
