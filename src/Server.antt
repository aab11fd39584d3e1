-- ===== src/Server.antt =====
-- src/Server.cpp: the accept loop's errors, and the number of threads.
pub mod Sessions
pub mod Main
use cgi_web_server.Base.{
  ℕ, ◌+◌, ◌-◌, ◌*◌, ◌%◌, ◌^◌, ◌≤◌, ◌≡◌, refl, arith, Bool, true, false, ◌||◌, Option, none, some,
  List, [], ◌∷◌, ltb, if◌then◌else◌, Bool-cases, inl, inr, length, All,
}
use cgi_web_server.Http.Io.{
  ErrorCode, no_error, bad_descriptor, access_denied, address_in_use, would_block, try_again,
  network_unreachable, connection_refused, timed_out, no_buffer_space, host_unreachable,
}

abbrev pub max_retries : ℕ
max_retries = 5

abbrev pub default_backoff_ms : ℕ
default_backoff_ms = 100

-- The errors that end the server at once.
unfoldable pub is_fatal : ErrorCode → Bool
is_fatal bad_descriptor = true
is_fatal access_denied = true
is_fatal address_in_use = true
is_fatal _ = false

unfoldable pub is_retried : ErrorCode → Bool
is_retried would_block = true
is_retried try_again = true
is_retried network_unreachable = true
is_retried connection_refused = true
is_retried timed_out = true
is_retried no_buffer_space = true
is_retried host_unreachable = true
is_retried _ = false

-- `_retries`, and what `sleep` is given, which it takes for seconds.
pub record Accepting : Type 0 where
  pub retries : ℕ
  pub slept : ℕ

-- `Server::isError`; no result: `FATAL`.
unfoldable pub is_error : ErrorCode → Accepting → Option Accepting
unfolding is_fatal is_retried
is_error no_error a = some (record a { retries = 0 })
is_error error a =
    if ltb max_retries a.retries || is_fatal error
    then none
    else if is_retried error
    then some
        (record { retries = a.retries + 1; slept = a.slept + default_backoff_ms * (a.retries + 1) })
    else some a

-- The loop of `Server::run`, over what the accepts come back with.
unfoldable pub accept_loop : List ErrorCode → Accepting → Option Accepting
unfolding is_error
accept_loop [] a = some a
accept_loop (error ∷ later) a = elim (is_error error a) [
  | none ↦ none
  | some a' ↦ accept_loop later a'
]

-- `thread_count - 2`
unfoldable pub worker_count : ℕ → ℕ
worker_count thread_count = (thread_count + 2 ^ 64 - 2) % 2 ^ 64

is_error-retried :
    (error : ErrorCode) (a : Accepting)
    → is_retried error ≡ true
    → is_error error a ≡ (
        if ltb max_retries a.retries
        then none
        else some (record {
          retries = a.retries + 1;
          slept = a.slept + default_backoff_ms * (a.retries + 1);
        }))
unfolding is_error is_retried is_fatal
is_error-retried error a h = ground arith

-- The accept loop gives up: errors that are tried again, one after another, end the server when
-- they come to two more than MAX_RETRIES with those counted before.
pub accept_loop-stops :
    (errors : List ErrorCode) (a : Accepting)
    → All (λ e. is_retried e ≡ true) errors
    → a.retries ≤ max_retries + 1
    → max_retries + 2 ≤ a.retries + length errors
    → accept_loop errors a ≡ none
unfolding accept_loop
accept_loop-stops [] a h few many = absurd (omega arith)
accept_loop-stops (error ∷ later) a (retried, h) few many =
    let step = is_error-retried error a retried in
    elim (Bool-cases (ltb max_retries a.retries)) [
      | inl spent ↦ rw (step, spent, accept_loop) refl
      | inr left ↦
          rw (step, left, accept_loop)
            (accept_loop-stops later _ h (ground (arith, left)) (omega (arith, many)))
    ]
