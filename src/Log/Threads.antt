-- ===== src/Log/Threads.antt =====
-- src/logger.cpp: the two halves of `push`, between which other threads may go on.
pub mod Holes
use cgi_web_server.Base.{ℕ, ◌+◌, ◌%◌, ◌^◌, some, set}
use cgi_web_server.Log.{Ring, log_buffer_size}

module _ {A : Type 0} where
  -- `head.fetch_add(1)`
  unfoldable pub claim : Ring A → Ring A
  claim l = record l { head = (l.head + 1) % 2 ^ 64 }

  -- `log_buffer[pos % LOG_BUFFER_SIZE] = std::move(entry)`, while no other thread uses that place.
  unfoldable pub store : ℕ → A → Ring A → Ring A
  store pos entry l = record l {
    log_buffer = set l.log_buffer (pos % log_buffer_size) (some entry);
  }
