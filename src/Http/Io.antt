-- ===== src/Http/Io.antt =====
-- src/http.h, src/http.cpp: `http::io`, the writing of a buffer to a socket.
pub mod Sends
pub mod Backoff
use cgi_web_server.Base.{
  ℕ, ◌+◌, ◌-◌, ◌*◌, ◌/◌, ◌^◌, min, Bool, true, false, not, ◌||◌, Option, none, some, List, [], ◌∷◌,
  ltb, ◌==◌, if◌then◌else◌,
}
use cgi_web_server.Http.Status
use cgi_web_server.Http.Status.{Code}

-- The values of `asio::error_code` that the code tells apart; `other` is any other error.
pub data ErrorCode : Type 0 where
  no_error connection_reset broken_pipe eof bad_descriptor address_in_use : ErrorCode
  would_block try_again network_unreachable host_unreachable connection_refused : ErrorCode
  timed_out no_buffer_space access_denied : ErrorCode
  other : ℕ → ErrorCode

unfoldable pub is_client_disconnect : ErrorCode → Bool
is_client_disconnect connection_reset = true
is_client_disconnect broken_pipe = true
is_client_disconnect eof = true
is_client_disconnect _ = false

unfoldable pub is_permanent_failure : ErrorCode → Bool
is_permanent_failure bad_descriptor = true
is_permanent_failure address_in_use = true
is_permanent_failure _ = false

unfoldable pub is_retryable : ErrorCode → Bool
is_retryable would_block = true
is_retryable try_again = true
is_retryable network_unreachable = true
is_retryable host_unreachable = true
is_retryable connection_refused = true
is_retryable timed_out = true
is_retryable no_buffer_space = true
is_retryable _ = false

unfoldable pub error_to_status : ErrorCode → Code
error_to_status no_error = Status.ok
error_to_status connection_reset = Status.client_closed_request
error_to_status broken_pipe = Status.client_closed_request
error_to_status eof = Status.client_closed_request
error_to_status access_denied = Status.forbidden
error_to_status bad_descriptor = Status.internal_server_error
error_to_status address_in_use = Status.internal_server_error
error_to_status no_buffer_space = Status.insufficient_storage
error_to_status timed_out = Status.gateway_timeout
error_to_status _ = Status.service_unavailable

-- `WriteStatus`, without the message.
pub record WriteStatus : Type 0 where
  pub status : Code
  pub bytes : ℕ

-- What one `co_write` comes back with.
pub record Written : Type 0 where
  pub error : ErrorCode
  pub bytes : ℕ

abbrev pub max_retries : ℕ
max_retries = 3

-- The loop of `co_write_all`, over what the socket's writes come back with. No result means that
-- the loop waits for one more write.
unfoldable pub write_loop : ℕ → ℕ → ℕ → List Written → Option WriteStatus
write_loop total sent retry_count [] =
    if ltb sent total
    then none
    else if not (sent == total)
    then some (record { status = Status.internal_server_error; bytes = sent })
    else some (record { status = Status.ok; bytes = sent })
write_loop total sent retry_count (w ∷ later) = elim (ltb sent total) [
  | false ↦
      if not (sent == total)
      then some (record { status = Status.internal_server_error; bytes = sent })
      else some (record { status = Status.ok; bytes = sent })
  | true ↦ elim (is_permanent_failure w.error || ltb max_retries retry_count) [
    | true ↦ some (record { status = error_to_status w.error; bytes = sent })
    | false ↦
        write_loop total (sent + w.bytes)
          (if is_retryable w.error then retry_count + 1 else retry_count) later
  ]
]

unfoldable pub co_write_all : ℕ → List Written → Option WriteStatus
unfolding write_loop
co_write_all total = write_loop total 0 1

-- The delay in milliseconds; `draw` is the sample of the distribution over
-- [-jitter_range, jitter_range], counted from its lower end.
unfoldable pub select_backoff : ErrorCode → ℕ → ℕ → ℕ
select_backoff ec attempt draw =
    let exp_delay = min (50 * 2 ^ min attempt 6) 2000 in
    let jitter_range = exp_delay / 10 in
    elim ec [
      | no_error ↦ 0
      | no_buffer_space ↦ 1000 * attempt
      | e ↦
          if is_client_disconnect e || is_permanent_failure e
          then 0
          else exp_delay - jitter_range + draw
    ]
