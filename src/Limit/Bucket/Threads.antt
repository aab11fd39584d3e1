-- ===== src/Limit/Bucket/Threads.antt =====
-- src/Middleware.cpp: `TokenBucketLimiter` with any number of requests at one bucket, whose loads and
-- exchanges come in any order.
pub mod Paid
use cgi_web_server.Base.{ℕ, ◌/◌, ◌^◌, Bool, true, false, ◌==◌}
use cgi_web_server.Limit.Bucket.{TokenBucketSetting, Round, store, refuse, bucket_round}

-- A request, at its second: before its load, before an exchange of the word it has loaded for the
-- one it desires, or behind the loop.
pub data Thread : Type 0 where
  arriving : ℕ → Thread
  exchanging : ℕ → ℕ → ℕ → Thread
  let_through : ℕ → Thread
  turned_away : ℕ → Thread

module _ (s : TokenBucketSetting) where
  -- A round on a word that was loaded, up to the exchange.
  unfoldable pub decide : ℕ → ℕ → Thread
  decide secs old = elim (bucket_round s secs old) [
    | refuse wait ↦ turned_away wait
    | store desired ↦ exchanging secs old desired
  ]

  -- The next access of a thread to the cell: its load, or `compare_exchange_weak`, which may fail
  -- for no reason and loads the cell anew where it fails.
  unfoldable pub access : Bool → Thread → ℕ → Thread × ℕ
  unfolding decide
  access spurious (arriving secs) cell = (decide secs cell, cell)
  access true (exchanging secs old desired) cell = (decide secs cell, cell)
  access false (exchanging secs old desired) cell = elim (cell == old) [
    | true ↦ (let_through (desired / 2 ^ 32), desired)
    | false ↦ (decide secs cell, cell)
  ]
  access spurious (let_through tokens) cell = (let_through tokens, cell)
  access spurious (turned_away wait) cell = (turned_away wait, cell)
