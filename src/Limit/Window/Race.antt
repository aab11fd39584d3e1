-- ===== src/Limit/Window/Race.antt =====
-- src/Middleware.cpp: `FixedWindowLimiter` when requests of one client overlap. The loop of
-- `process` lacks the negation that `TokenBucketLimiter` has: it ends at an exchange that fails.
use cgi_web_server.Base.{ℕ, zero, suc, ◌+◌, ◌<◌, ◌≡◌, ◌≢◌, refl, arith}
use cgi_web_server.Limit.Window.{
  FixedWindowSetting, pack, window_id, window_round, admitted, window_loop,
}
use cgi_web_server.Limit.Window.Counting.{used, IsSetting, counts}

-- Threads that have all loaded `old`, and then run their loops one after another: how many
-- requests pass, and the cell at the end.
pub race : FixedWindowSetting → ℕ → ℕ → ℕ → ℕ → ℕ × ℕ
race s secs old zero cell = (0, cell)
race s secs old (suc threads) cell =
    let served = window_loop 2 s secs old cell in
    let (n, last) = race s secs old threads served.cell in (counts served.verdict + n, last)

module _ (s : FixedWindowSetting) (m secs old : ℕ) (h : IsSetting s m)
    (room : used s secs old < m) where
  abbrev next : ℕ
  next = pack (window_id s secs) (used s secs old + 1)

  -- A thread whose exchange fails leaves the loop, lets its request through and stores nothing.
  late :
      (cell : ℕ)
      → cell ≢ old
      → window_loop 2 s secs old cell ≡ record { verdict = admitted next; cell = cell }
  unfolding window_loop window_round window_id used
  late cell ne = let e = h.limit in let f = h.limit_fits in let w = h.window_pos in ground arith

  first : window_loop 2 s secs old old ≡ record { verdict = admitted next; cell = next }
  unfolding window_loop window_round window_id used
  first = let e = h.limit in let f = h.limit_fits in let w = h.window_pos in ground arith

  next-ne : next ≢ old
  unfolding window_id used
  next-ne = let f = h.limit_fits in ground arith

  race_late : (threads cell : ℕ) → cell ≢ old → race s secs old threads cell ≡ (threads, cell)
  unfolding race
  race_late zero cell ne = refl
  race_late (suc threads) cell ne =
      rw (late cell ne) (rw (race_late threads cell ne) (ground arith))

  -- With room for one more request in the window, any number of threads that have loaded the
  -- same word and then run their loops one after another let all their requests through, and
  -- only one of them is counted.
  pub race_lem : (threads : ℕ) → race s secs old (suc threads) old ≡ (suc threads, next)
  unfolding race
  race_lem threads = rw first (rw (race_late threads next next-ne) (ground arith))
