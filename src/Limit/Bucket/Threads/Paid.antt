-- ===== src/Limit/Bucket/Threads/Paid.antt =====
-- src/Middleware.cpp: no order of loads and exchanges lets more requests through a bucket than its
-- tokens pay for.
use cgi_web_server.Base.{
  ℕ, zero, suc, ◌+◌, ◌-◌, ◌*◌, ◌/◌, ◌^◌, ◌<◌, ◌≤◌, ◌≡◌, refl, arith, inl, inr, Bool, true, false,
  Bool-cases, List, [], ◌∷◌, ◌==◌, All, ==_iff,
}
use cgi_web_server.Limit.Bucket.Threads.{
  Thread, arriving, exchanging, let_through, turned_away, decide, access,
}
use cgi_web_server.Limit.Schedule.{access_at, run_schedule}
use cgi_web_server.Limit.Bucket.Tokens.{
  IsSetting, IsBucket, counts, bucket_serve_paid, bucket_serve-IsBucket, refill-bucket_serve,
}
use cgi_web_server.Limit.Bucket.{
  TokenBucketSetting, tokens_of, refill_of, Round-cases, store, bucket_round, bucket_loop,
  bucket_serve,
}

abbrev pub passed : Thread → ℕ
passed (let_through tokens) = 1
passed (arriving secs) = 0
passed (exchanging secs old desired) = 0
passed (turned_away wait) = 0

-- The requests that are behind the loop and let through.
abbrev pub all_passed : List Thread → ℕ
all_passed [] = 0
all_passed (t ∷ threads) = passed t + all_passed threads

module _ (s : TokenBucketSetting) (c r last : ℕ) (h : IsSetting s c r) (fits : last < 2 ^ 32) where
  -- A thread comes by the second `last`, and desires what a round on its word makes of it.
  abbrev pub IsSound : Thread → Type 0
  IsSound (arriving secs) = secs ≤ last
  IsSound (exchanging secs old desired) = (secs ≤ last) × (bucket_round s secs old ≡ store desired)
  IsSound (let_through tokens) = Unit
  IsSound (turned_away wait) = Unit

  -- A bucket with its last refill by the second `last`.
  record IsFilled (cell : ℕ) : Type 0 where
    bucket : IsBucket c cell
    by_last : refill_of cell ≤ last

  -- The requests that pass are paid for by the tokens and the seconds gone by.
  abbrev Pays : ℕ → ℕ → ℕ → ℕ → Type 0
  Pays before cell after cell' =
      after + tokens_of cell' + r * refill_of cell ≤ before + tokens_of cell + r * refill_of cell'

  decide_lem :
      (secs cell : ℕ)
      → secs ≤ last
      → IsSound (decide s secs cell) × (passed (decide s secs cell) ≡ 0)
  unfolding decide
  decide_lem secs cell le = elim (Round-cases (bucket_round s secs cell)) [
    | inl (wait, refused) ↦ rw (refused, decide) (tt, refl)
    | inr (desired, stored) ↦ rw (stored, decide) ((le, stored), refl)
  ]

  -- An exchange that finds the word it was made for does what a request alone does.
  exchange_lem :
      (secs cell desired : ℕ)
      → bucket_round s secs cell ≡ store desired
      → ((bucket_serve s secs cell).cell ≡ desired)
        × (counts (bucket_serve s secs cell).verdict ≡ 1)
  unfolding bucket_serve bucket_loop
  exchange_lem secs cell desired stored = ground arith

  -- What an access makes of a thread and the cell.
  abbrev Keeps : ℕ → ℕ → Thread → ℕ → Type 0
  Keeps before cell t' cell' = IsSound t' × IsFilled cell' × Pays before cell (passed t') cell'

  decide-Keeps :
      (secs cell : ℕ) → secs ≤ last → IsFilled cell → Keeps 0 cell (decide s secs cell) cell
  decide-Keeps secs cell le filled =
      let (sound, none_passed) = decide_lem secs cell le in
      (sound, filled, omega (arith, none_passed))

  exchange-Keeps :
      (secs cell desired : ℕ)
      → secs ≤ last
      → bucket_round s secs cell ≡ store desired
      → IsFilled cell
      → Keeps 0 cell (let_through (desired / 2 ^ 32)) desired
  exchange-Keeps secs cell desired le stored filled =
      let now : secs < 2 ^ 32 = omega (arith, fits) in
      let (same, one) = exchange_lem secs cell desired stored in
      let paid = bucket_serve_paid s c r h secs cell now filled.bucket in
      let valid = bucket_serve-IsBucket s c r h secs cell now filled.bucket in
      let bound = refill-bucket_serve s c r h secs cell now filled.bucket last le filled.by_last in
      (
        tt,
        record { bucket = rw same at valid; by_last = rw same at bound },
        (let own = rw (same, one) at paid in omega (arith, own)),
      )

  access-Keeps :
      (spurious : Bool) (t : Thread) (cell : ℕ)
      → IsSound t
      → IsFilled cell
      → Keeps (passed t) cell (access s spurious t cell).0 (access s spurious t cell).1
  unfolding access
  access-Keeps spurious (arriving secs) cell le filled = decide-Keeps secs cell le filled
  access-Keeps true (exchanging secs old desired) cell (le, stored) filled =
      decide-Keeps secs cell le filled
  access-Keeps false (exchanging secs old desired) cell (le, stored) filled =
      elim (Bool-cases (cell == old)) [
        | inl met ↦
            let same : cell ≡ old = (==_iff cell old).0 met in
            rw (met, access) (exchange-Keeps secs cell desired le (rw same stored) filled)
        | inr other ↦ rw (other, access) (decide-Keeps secs cell le filled)
      ]
  access-Keeps spurious (let_through tokens) cell sound filled = (tt, filled, omega arith)
  access-Keeps spurious (turned_away wait) cell sound filled = (tt, filled, omega arith)

  access_at-Keeps :
      (spurious : Bool) (i : ℕ) (threads : List Thread) (cell : ℕ)
      → All IsSound threads
      → IsFilled cell
      → All IsSound (access_at (access s) spurious i threads cell).0
        × IsFilled (access_at (access s) spurious i threads cell).1
        × Pays
            (all_passed threads)
            cell
            (all_passed (access_at (access s) spurious i threads cell).0)
            (access_at (access s) spurious i threads cell).1
  unfolding access_at
  access_at-Keeps spurious i [] cell sound filled = (tt, filled, omega arith)
  access_at-Keeps spurious zero (t ∷ threads) cell (sound, others) filled =
      let (sound', filled', paid) = access-Keeps spurious t cell sound filled in
      ((sound', others), filled', omega (arith, paid))
  access_at-Keeps spurious (suc i) (t ∷ threads) cell (sound, others) filled =
      let (others', filled', paid) = access_at-Keeps spurious i threads cell others filled in
      ((sound, others'), filled', omega (arith, paid))

  run_schedule-Keeps :
      (schedule : List (ℕ × Bool)) (threads : List Thread) (cell : ℕ)
      → All IsSound threads
      → IsFilled cell
      → IsFilled (run_schedule (access s) schedule threads cell).1
        × Pays
            (all_passed threads)
            cell
            (all_passed (run_schedule (access s) schedule threads cell).0)
            (run_schedule (access s) schedule threads cell).1
  unfolding run_schedule
  run_schedule-Keeps [] threads cell sound filled = (filled, omega arith)
  run_schedule-Keeps ((i, spurious) ∷ later) threads cell sound filled =
      let (sound', filled', paid) = access_at-Keeps spurious i threads cell sound filled in
      let (end, rest) =
        run_schedule-Keeps later (access_at (access s) spurious i threads cell).0
          (access_at (access s) spurious i threads cell).1 sound' filled' in
      (end, omega (arith, paid, rest))

  -- No order of events beats the token bucket: for any number of requests at one bucket, each
  -- at its second up to `last`, a 32-bit number, and any schedule of their loads and exchanges,
  -- exchanges that fail for no reason included, no more requests pass behind those that have
  -- passed before than the bucket held tokens and the rate has added since its last refill; and
  -- the bucket never holds more than its capacity. The numbers of the setting are not negative.
  pub run_schedule-paid :
      (schedule : List (ℕ × Bool)) (threads : List Thread) (cell : ℕ)
      → All IsSound threads
      → IsBucket c cell
      → refill_of cell ≤ last
      → (all_passed (run_schedule (access s) schedule threads cell).0
          ≤ all_passed threads + tokens_of cell + r * (last - refill_of cell))
        × (tokens_of (run_schedule (access s) schedule threads cell).1 ≤ c)
  run_schedule-paid schedule threads cell sound bucket by_last =
      let (end, paid) =
        run_schedule-Keeps schedule threads cell sound
          (record { bucket = bucket; by_last = by_last }) in
      let bound = end.by_last in
      let most : r * refill_of (run_schedule (access s) schedule threads cell).1 ≤ r * last =
        grind arith in
      (grind arith, end.bucket.within)
