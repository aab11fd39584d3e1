-- ===== src/Log.antt =====
-- src/logger.h, src/logger.cpp: the ring of log entries and the worker that writes them. An entry
-- is of any type `A`; what the sinks have been given is the list of entries, in order.
pub mod Queue
pub mod Delivery
pub mod Texts
pub mod Liveness
pub mod Sink
pub mod Threads
pub mod Macros
use cgi_web_server.Base.{
  ℕ, zero, suc, ◌+◌, ◌-◌, ◌%◌, ◌^◌, Bool, true, false, ◌&&◌, Option, none, some, List, [], ◌∷◌,
  ◌++◌, ltb, leb, if◌then◌else◌, length, get_or, set, replicate,
}

-- LOG_BUFFER_SIZE and ENTRY_BATCH_SIZE
abbrev pub log_buffer_size : ℕ
log_buffer_size = 1024

abbrev pub entry_batch_size : ℕ
entry_batch_size = 10

-- The fields of `Logger` that the ring uses. A null pointer in the buffer is `none`.
pub record Ring (A : Type 0) : Type 0 where
  pub log_buffer : List (Option A)
  pub head : ℕ
  pub tail : ℕ

module _ {A : Type 0} where
  abbrev pub empty_ring : Ring A
  empty_ring = record { log_buffer = replicate log_buffer_size none; head = 0; tail = 0 }

  unfoldable pub push : A → Ring A → Ring A
  push entry l = record {
    log_buffer = set l.log_buffer (l.head % log_buffer_size) (some entry);
    head = (l.head + 1) % 2 ^ 64;
    tail = l.tail;
  }

  -- The tail from which `pop` reads: behind an overrun it is moved up to the newest entries.
  unfoldable pub read_tail : Ring A → ℕ
  read_tail l =
      let entries_not_flushed = (l.head + 2 ^ 64 - l.tail) % 2 ^ 64 in
      if leb log_buffer_size entries_not_flushed
      then (l.head + 2 ^ 64 - log_buffer_size + 1) % 2 ^ 64
      else l.tail

  -- The entry at the tail, which leaves an empty place. A null result is `none`: no entry, or an
  -- empty place.
  unfoldable pub take_at : Ring A → Option A × Ring A
  take_at l = if leb l.head l.tail then (none, l) else (
    get_or l.log_buffer (l.tail % log_buffer_size) none,
    record {
      log_buffer = set l.log_buffer (l.tail % log_buffer_size) none;
      head = l.head;
      tail = (l.tail + 1) % 2 ^ 64;
    },
  )

  unfoldable pub pop : Ring A → Option A × Ring A
  unfolding read_tail take_at
  pop l = take_at (record l { tail = read_tail l })

-- The logger's worker: the ring, the batch, and what the sinks were given.
pub record Worker (A : Type 0) : Type 0 where
  pub ring : Ring A
  pub batch : List A
  pub written : List A

module _ {A : Type 0} where
  unfoldable pub flush : Worker A → Worker A
  flush w = record w { batch = []; written = w.written ++ w.batch }

  -- An entry that was popped joins the batch, which is flushed when it is full.
  unfoldable pub take_entry : Worker A → Ring A → A → Worker A
  unfolding flush
  take_entry w ring entry =
      let w' : Worker A = record {
        ring = ring;
        batch = w.batch ++ entry ∷ [];
        written = w.written;
      } in
      if leb entry_batch_size (length w'.batch) then flush w' else w'

  -- The flush of what is in the batch, if any.
  unfoldable pub flush_if : Bool → Worker A → Worker A
  unfolding flush
  flush_if due w = if ltb 0 (length w.batch) && due then flush w else w

  -- One entry from the ring.
  unfoldable pub poll : Worker A → Worker A
  unfolding take_entry
  poll w =
      let (entry, ring) = pop w.ring in
      elim entry [ none ↦ record w { ring = ring } | some e ↦ take_entry w ring e ]

  -- `timeout`: BATCH_TIMEOUT has passed since the last flush.
  unfoldable pub process_batch : Bool → Worker A → Worker A
  unfolding flush_if poll
  process_batch timeout w = poll (flush_if timeout w)

  -- The loop of `run`: a round for each time that it finds the logger running.
  unfoldable pub run_worker : List Bool → Worker A → Worker A
  unfolding process_batch
  run_worker [] w = w
  run_worker (timeout ∷ later) w = run_worker later (process_batch timeout w)

  -- The loop of `stopAndFlush`, one entry a round until `pop` gives none.
  unfoldable pub drain : ℕ → Worker A → Worker A
  drain zero w = w
  drain (suc fuel) w =
      let (entry, ring) = pop w.ring in
      elim entry [
        | none ↦ record w { ring = ring }
        | some e ↦
            drain fuel (record { ring = ring; batch = w.batch; written = w.written ++ e ∷ [] })
      ]

  -- The worker thread has ended; the fuel is the number of places in the ring.
  unfoldable pub stop_and_flush : Worker A → Worker A
  unfolding flush_if drain
  stop_and_flush w = drain log_buffer_size (flush_if true w)
