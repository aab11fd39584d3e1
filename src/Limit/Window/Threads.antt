-- ===== src/Limit/Window/Threads.antt =====
-- src/Middleware.cpp: `FixedWindowLimiter` with any number of requests of one client, whose loads and
-- exchanges come in any order.
pub mod Counted
pub mod Ends
pub mod Sound
use cgi_web_server.Base.{ℕ, Bool, true, false, ◌==◌}
use cgi_web_server.Limit.Window.{FixedWindowSetting, store, refuse, fault, window_round}

-- A request, at its second: before its load, before an exchange of the word it has loaded for the
-- one it desires, let through with the word it desired last, turned away, or ended by the
-- division by zero.
pub data Runner : Type 0 where
  incoming : ℕ → Runner
  swapping : ℕ → ℕ → ℕ → Runner
  let_pass : ℕ → Runner
  sent_away : ℕ → Runner
  stopped : Runner

module _ (s : FixedWindowSetting) where
  -- A round on a word that was loaded, up to the exchange.
  unfoldable pub round_of : ℕ → ℕ → Runner
  round_of secs old = elim (window_round s secs old) [
    | fault ↦ stopped
    | refuse wait ↦ sent_away wait
    | store desired ↦ swapping secs old desired
  ]

  -- The next access of a thread to the cell: its load, or `compare_exchange_weak`, which may fail
  -- for no reason. The loop goes on, with the same `old`, where the exchange succeeds, and ends
  -- where it fails.
  unfoldable pub advance : Bool → Runner → ℕ → Runner × ℕ
  unfolding round_of
  advance spurious (incoming secs) cell = (round_of secs cell, cell)
  advance true (swapping secs old desired) cell = (let_pass desired, cell)
  advance false (swapping secs old desired) cell = elim (cell == old) [
    | true ↦ (round_of secs old, desired)
    | false ↦ (let_pass desired, cell)
  ]
  advance spurious (let_pass word) cell = (let_pass word, cell)
  advance spurious (sent_away wait) cell = (sent_away wait, cell)
  advance spurious stopped cell = (stopped, cell)
