-- ===== src/Http/Io/Backoff.antt =====
-- src/http.cpp: the delay before a write is tried again.
use cgi_web_server.Base.{ℕ, zero, suc, ◌*◌, ◌/◌, ◌^◌, ◌≤◌, ◌≡◌, ◌⊎◌, min, arith, true}
use cgi_web_server.Http.Io.{
  ErrorCode, no_buffer_space, is_client_disconnect, is_permanent_failure, is_retryable,
  select_backoff,
}

-- The delay without the jitter, at the exponent `k`.
abbrev base_delay : ℕ → ℕ
base_delay k = min (50 * 2 ^ k) 2000

base_delay_bounds : (k : ℕ) → 1 ≤ k → k ≤ 6 → (100 ≤ base_delay k) × (base_delay k ≤ 2000)
base_delay_bounds zero h l = absurd (omega arith)
base_delay_bounds (suc zero) h l = omega arith
base_delay_bounds (suc (suc zero)) h l = omega arith
base_delay_bounds (suc (suc (suc zero))) h l = omega arith
base_delay_bounds (suc (suc (suc (suc zero)))) h l = omega arith
base_delay_bounds (suc (suc (suc (suc (suc zero))))) h l = omega arith
base_delay_bounds (suc (suc (suc (suc (suc (suc zero)))))) h l = omega arith
base_delay_bounds (suc (suc (suc (suc (suc (suc (suc k))))))) h l = absurd (omega arith)

-- From the first attempt on, an error that is tried again waits from 90 to 2200 milliseconds, for
-- every jitter that is drawn, but for a lack of buffer space, which waits a second for each
-- attempt.
pub select_backoff_bounds :
    (e : ErrorCode) (attempt draw : ℕ)
    → is_retryable e ≡ true
    → 1 ≤ attempt
    → draw ≤ 2 * (min (50 * 2 ^ min attempt 6) 2000 / 10)
    → ((e ≡ no_buffer_space) × (select_backoff e attempt draw ≡ 1000 * attempt))
      ⊎ ((90 ≤ select_backoff e attempt draw) × (select_backoff e attempt draw ≤ 2200))
unfolding select_backoff is_retryable is_client_disconnect is_permanent_failure
select_backoff_bounds e attempt draw r h d =
    let b = base_delay_bounds (min attempt 6) (omega arith) (omega arith) in ground arith
