-- ===== src/Tests/Sending.antt =====
-- Examples for the writing of a buffer to a socket.
use cgi_web_server.Base.{◌≡◌, refl, arith, none, some, List, [], ◌∷◌}
use cgi_web_server.Http.Io.Sends.{retries, gone, co_write_all-ok, co_write_all-gone}
use cgi_web_server.Http.Io.{
  Written, WriteStatus, co_write_all, write_loop, no_error, would_block, broken_pipe, is_retryable,
  is_client_disconnect, is_permanent_failure,
}
use cgi_web_server.Http.Status

abbrev writes : List Written
writes =
    record { error = no_error; bytes = 3 }
    ∷ record { error = would_block; bytes = 0 }
    ∷ record { error = no_error; bytes = 2 }
    ∷ []

abbrev all_sent : WriteStatus
all_sent = record { status = Status.ok; bytes = 5 }

writes_end : co_write_all 5 writes ≡ some all_sent
unfolding co_write_all write_loop is_retryable is_permanent_failure
writes_end = refl

co_write_all-ok_example : all_sent.bytes ≡ 5
unfolding is_retryable retries
co_write_all-ok_example = co_write_all-ok 5 writes all_sent (ground arith) writes_end refl

co_write_all-gone_example : co_write_all 5 (gone broken_pipe 40) ≡ none
unfolding is_client_disconnect
co_write_all-gone_example = co_write_all-gone 5 40 broken_pipe (ground arith) refl
