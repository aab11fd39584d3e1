-- ===== src/Http/Io/Sends.antt =====
-- src/http.cpp: what the status of `co_write_all` says of the bytes that were sent.
use cgi_web_server.Base.{
  ℕ, zero, suc, ◌+◌, ◌<◌, ◌≤◌, ◌≡◌, ◌≢◌, arith, true, false, none, some, List, [], ◌∷◌, replicate,
  if◌then◌else◌,
}
use cgi_web_server.Http.Io.{
  ErrorCode, is_client_disconnect, is_permanent_failure, is_retryable, error_to_status, WriteStatus,
  Written, max_retries, write_loop, co_write_all,
}
use cgi_web_server.Http.Status

-- How many of the writes end in an error that is tried again.
unfoldable pub retries : List Written → ℕ
retries [] = 0
retries (w ∷ later) = (if is_retryable w.error then 1 else 0) + retries later

error_to_status-ok : (e : ErrorCode) → is_permanent_failure e ≡ true → error_to_status e ≢ Status.ok
unfolding is_permanent_failure error_to_status
error_to_status-ok e h = ground arith

retryable_lem : (e : ErrorCode) → is_retryable e ≡ true → is_permanent_failure e ≡ false
unfolding is_permanent_failure is_retryable
retryable_lem e h = ground arith

disconnect_lem :
    (e : ErrorCode)
    → is_client_disconnect e ≡ true
    → (is_permanent_failure e ≡ false) × (is_retryable e ≡ false)
unfolding is_client_disconnect is_permanent_failure is_retryable
disconnect_lem e h = ground arith

write_loop-ok :
    (total sent retry : ℕ) (writes : List Written) (r : WriteStatus)
    → retry + retries writes ≤ max_retries
    → write_loop total sent retry writes ≡ some r
    → r.status ≡ Status.ok
    → r.bytes ≡ total
unfolding write_loop retries
write_loop-ok total sent retry [] r h e ok = ground arith
write_loop-ok total sent retry (w ∷ later) r h e ok = ground (
  arith,
  error_to_status-ok w.error,
  write_loop-ok total (sent + w.bytes) (retry + 1) later r,
  write_loop-ok total (sent + w.bytes) retry later r,
)

-- Where fewer than three writes end in an error that is tried again, the status OK means that all
-- the bytes were sent.
pub co_write_all-ok :
    (total : ℕ) (writes : List Written) (r : WriteStatus)
    → retries writes < max_retries
    → co_write_all total writes ≡ some r
    → r.status ≡ Status.ok
    → r.bytes ≡ total
unfolding co_write_all
co_write_all-ok total writes r h = write_loop-ok total 0 1 writes r (omega arith)

-- After three writes that sent nothing and ended in an error that is tried again, the next write
-- ends the loop whatever it comes back with: its status is reported, OK for a write without
-- error, with no byte sent.
pub co_write_all_spent :
    (total : ℕ) (a b c : ErrorCode) (last : Written) (later : List Written)
    → 0 < total
    → (is_retryable a ≡ true) × (is_retryable b ≡ true) × (is_retryable c ≡ true)
    → co_write_all total (
        record { error = a; bytes = 0 }
        ∷ record { error = b; bytes = 0 }
        ∷ record { error = c; bytes = 0 }
        ∷ last
        ∷ later)
      ≡ some (record { status = error_to_status last.error; bytes = 0 })
unfolding co_write_all
co_write_all_spent total a b c last later h (ha, hb, hc) =
    ground (arith, retryable_lem a ha, retryable_lem b hb, retryable_lem c hc)

-- A client that has gone: every further write comes back with the same error and no byte sent.
abbrev pub gone : ErrorCode → ℕ → List Written
gone e n = replicate n (record { error = e; bytes = 0 })

write_loop-gone :
    (total sent n : ℕ) (e : ErrorCode)
    → sent < total
    → is_client_disconnect e ≡ true
    → write_loop total sent 1 (gone e n) ≡ none
unfolding write_loop
write_loop-gone total sent zero e h d = ground arith
write_loop-gone total sent (suc n) e h d =
    let (p, r) = disconnect_lem e d in
    ground (arith, write_loop-gone total (sent + 0) n e (omega arith) d)

-- A client that disconnects before any byte of a buffer is sent keeps the loop going: however
-- many writes have failed, it makes one more.
pub co_write_all-gone :
    (total n : ℕ) (e : ErrorCode)
    → 0 < total
    → is_client_disconnect e ≡ true
    → co_write_all total (gone e n) ≡ none
unfolding co_write_all
co_write_all-gone total n e h d = write_loop-gone total 0 n e h d
