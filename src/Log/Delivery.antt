-- ===== src/Log/Delivery.antt =====
-- src/logger.cpp: what the worker gives to the sinks, when the ring is not overrun.
use cgi_web_server.Base.{
  ℕ, zero, suc, ◌<◌, ◌≤◌, ◌≡◌, refl, sym, ◌∙◌, arith, Bool, true, false, ◌&&◌, List, [], ◌∷◌, ◌++◌,
  leb, ltb, length, append_assoc, append-nil, Bool-cases, inl, inr,
}
use cgi_web_server.Log.{
  Ring, Worker, log_buffer_size, entry_batch_size, pop, flush, flush_if, poll, take_entry,
  process_batch, drain, stop_and_flush,
}
use cgi_web_server.Log.Queue.{View, keep, queue_pop, pop-View}

module _ {A : Type 0} where
  -- Written, in the batch, and in the ring: all the entries that the worker answers for.
  abbrev pub entries : Worker A → List A → List A
  entries w q = w.written ++ (w.batch ++ q)

  keep_lem : (q : List A) → length q < log_buffer_size → keep q ≡ q
  keep_lem q h = let under : leb log_buffer_size (length q) ≡ false = ground arith in rw under refl

  -- A ring that is not overrun gives what its queue gives.
  pub pop_lem :
      (l : Ring A) (q : List A)
      → View l q
      → length q < log_buffer_size
      → ((pop l).0 ≡ (queue_pop q).0) × View (pop l).1 (queue_pop q).1
  pop_lem l q v h = rw (keep_lem q h) at (pop-View l q v)

  entries-flush : (w : Worker A) (q : List A) → entries (flush w) q ≡ entries w q
  unfolding flush
  entries-flush w q = append_assoc w.written w.batch q

  entries-take_entry :
      (w : Worker A) (r : Ring A) (e : A) (q : List A)
      → (entries (take_entry w r e) q ≡ entries w (e ∷ q)) × ((take_entry w r e).ring ≡ r)
  unfolding take_entry flush
  entries-take_entry w r e q =
      elim (Bool-cases (leb entry_batch_size (length (w.batch ++ e ∷ [])))) [
        | inl full ↦ rw (full, take_entry) (simp append_assoc, refl)
        | inr more ↦ rw (more, take_entry) (simp append_assoc, refl)
      ]

  pub flush_if_lem :
      (due : Bool) (w : Worker A) (q : List A)
      → (entries (flush_if due w) q ≡ entries w q) × ((flush_if due w).ring ≡ w.ring)
  unfolding flush_if
  flush_if_lem due w q = elim (Bool-cases (ltb 0 (length w.batch) && due)) [
    | inl flushed ↦ rw (flushed, flush_if) (append_assoc w.written w.batch q, refl)
    | inr kept ↦ rw (kept, flush_if) (refl, refl)
  ]

  nil_of_length : (l : List A) → length l ≤ 0 → l ≡ []
  nil_of_length [] h = refl
  nil_of_length (x ∷ l) h = absurd (omega arith)

  pub batch-flush_if : (w : Worker A) → (flush_if true w).batch ≡ []
  unfolding flush_if
  batch-flush_if w = elim (Bool-cases (ltb 0 (length w.batch) && true)) [
    | inl flushed ↦ rw (flushed, flush_if) refl
    | inr kept ↦ rw (kept, flush_if) (nil_of_length w.batch (ground arith))
  ]

  poll_lem :
      (w : Worker A) (q : List A)
      → View w.ring q
      → length q < log_buffer_size
      → (entries (poll w) (queue_pop q).1 ≡ entries w q) × View (poll w).ring (queue_pop q).1
  unfolding poll
  poll_lem w [] v h = let (empty, next) = pop_lem w.ring [] v h in rw (empty, poll) (refl, next)
  poll_lem w (x ∷ q) v h =
      let (oldest, next) = pop_lem w.ring (x ∷ q) v h in
      let (kept, same) = entries-take_entry w (pop w.ring).1 x q in
      rw (oldest, poll) (kept, rw same next)

  -- A round of the worker loses no entry and changes no order, with a flush or without, if the
  -- ring is not overrun: what is written, in the batch and in the ring is together the same,
  -- and the ring has lost its first entry, if it had one.
  pub process_batch_lem :
      (timeout : Bool) (w : Worker A) (q : List A)
      → View w.ring q
      → length q < log_buffer_size
      → (entries (process_batch timeout w) (queue_pop q).1 ≡ entries w q)
        × View (process_batch timeout w).ring (queue_pop q).1
  unfolding process_batch
  process_batch_lem timeout w q v h =
      let (same, ring) = flush_if_lem timeout w q in
      let (kept, next) = poll_lem (flush_if timeout w) q (rw ring v) h in (kept ∙ same, next)

  drain_lem :
      (fuel : ℕ) (w : Worker A) (q : List A)
      → View w.ring q
      → length q < log_buffer_size
      → length q < fuel
      → ((drain fuel w).written ≡ w.written ++ q) × View (drain fuel w).ring []
  unfolding drain
  drain_lem zero w q v h fuel = absurd (omega arith)
  drain_lem (suc f) w [] v h fuel =
      let (empty, next) = pop_lem w.ring [] v h in
      rw (empty, drain) (sym (append-nil w.written), next)
  drain_lem (suc f) w (x ∷ q) v h fuel =
      let (oldest, next) = pop_lem w.ring (x ∷ q) v h in
      let w' : Worker A = record {
        ring = (pop w.ring).1;
        batch = w.batch;
        written = w.written ++ x ∷ [];
      } in
      let (kept, empty) = drain_lem f w' q next (omega arith) (omega arith) in
      rw (oldest, drain) (kept ∙ append_assoc w.written (x ∷ []) q, empty)

  -- When the logger stops, every entry of the batch and of the ring is written, in order, and
  -- the ring is empty, if the ring is not overrun.
  pub stop_and_flush_lem :
      (w : Worker A) (q : List A)
      → View w.ring q
      → length q < log_buffer_size
      → ((stop_and_flush w).written ≡ w.written ++ (w.batch ++ q)) × View (stop_and_flush w).ring []
  unfolding stop_and_flush
  stop_and_flush_lem w q v h =
      let (same, ring) = flush_if_lem true w q in
      let (all, empty) = drain_lem log_buffer_size (flush_if true w) q (rw ring v) h h in
      (all ∙ rw (batch-flush_if w) at same, empty)
