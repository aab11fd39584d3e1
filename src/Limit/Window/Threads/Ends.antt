-- ===== src/Limit/Window/Threads/Ends.antt =====
-- src/Middleware.cpp: the loop of the fixed-window limiter ends, whatever other threads do.
use cgi_web_server.Base.{
  ℕ, zero, suc, ◌-◌, ◌≤◌, ◌<◌, ◌≡◌, refl, arith, inl, inr, Bool, true, false, Bool-cases, List, [],
  ◌∷◌, ◌==◌, if◌then◌else◌, ltb, All, ==_iff, map, length, length-map,
}
use cgi_web_server.Limit.Schedule.{turns, access_at, run_schedule, length-run_schedule}
use cgi_web_server.Limit.Window.Counting.{used, IsSetting}
use cgi_web_server.Limit.Window.Threads.Counted.{arrivals}
use cgi_web_server.Limit.Window.Threads.Sound.{
  IsSound, round_of_lem, used-desired, advance-Keeps, advance_at-Keeps,
}
use cgi_web_server.Limit.Window.Threads.{
  Runner, incoming, swapping, let_pass, sent_away, stopped, round_of, advance,
}
use cgi_web_server.Limit.Window.{FixedWindowSetting, window_id}

-- A request that has left the loop.
abbrev pub is_over : Runner → Bool
is_over (incoming secs) = false
is_over (swapping secs old desired) = false
is_over (let_pass word) = true
is_over (sent_away wait) = true
is_over stopped = true

abbrev pub is_over_at : ℕ → List Runner → Bool
is_over_at i [] = false
is_over_at zero (t ∷ threads) = is_over t
is_over_at (suc i) (t ∷ threads) = is_over_at i threads

module _ (s : FixedWindowSetting) (m now : ℕ) (h : IsSetting s m) where
  -- The accesses that a request makes at most, where `n` requests are counted.
  abbrev left : ℕ → Runner → ℕ
  left n (incoming secs) = 3
  left n (swapping secs old desired) = if ltb (used s now old) n then 1 else 2
  left n (let_pass word) = 0
  left n (sent_away wait) = 0
  left n stopped = 0

  abbrev left_at : ℕ → ℕ → List Runner → ℕ
  left_at n i [] = 0
  left_at n zero (t ∷ threads) = left n t
  left_at n (suc i) (t ∷ threads) = left_at n i threads

  left-later : (n n' : ℕ) (t : Runner) → n ≤ n' → left n' t ≤ left n t
  left-later n n' (incoming secs) le = omega arith
  left-later n n' (swapping secs old desired) le = ground arith
  left-later n n' (let_pass word) le = omega arith
  left-later n n' (sent_away wait) le = omega arith
  left-later n n' stopped le = omega arith

  left_at-later :
      (n n' i : ℕ) (threads : List Runner) → n ≤ n' → left_at n' i threads ≤ left_at n i threads
  left_at-later n n' i [] le = omega arith
  left_at-later n n' zero (t ∷ threads) le = left-later n n' t le
  left_at-later n n' (suc i) (t ∷ threads) le = left_at-later n n' i threads le

  -- A round leaves two accesses at most, and one if the word it is made on is past.
  left-round_of :
      (secs old n : ℕ)
      → window_id s secs ≡ window_id s now
      → left n (round_of s secs old) ≤ (if ltb (used s now old) n then 1 else 2)
  left-round_of secs old n same = elim (round_of_lem s m now h secs old same) [
    | inl (below, e) ↦ rw e (omega arith)
    | inr (full, e) ↦ rw e (ground arith)
  ]

  advance-left :
      (spurious : Bool) (t : Runner) (cell : ℕ)
      → IsSound s m now h (used s now cell) t
      → left (used s now (advance s spurious t cell).1) (advance s spurious t cell).0
        ≤ left (used s now cell) t - 1
  unfolding advance
  advance-left spurious (incoming secs) cell same =
      let most = left-round_of secs cell (used s now cell) same in ground (arith, most)
  advance-left true (swapping secs old desired) cell sound = omega arith
  advance-left false (swapping secs old desired) cell (same, below, past, next) =
      elim (Bool-cases (cell == old)) [
        | inl met ↦
            let one : cell ≡ old = (==_iff cell old).0 met in
            let counted = used-desired s m now h old desired below next in
            let most = left-round_of secs old (used s now desired) same in
            rw (met, advance, one) (ground (arith, counted, most))
        | inr other ↦ rw (other, advance) (omega arith)
      ]
  advance-left spurious (let_pass word) cell sound = omega arith
  advance-left spurious (sent_away wait) cell sound = omega arith
  advance-left spurious stopped cell sound = omega arith

  -- An access of the thread at `j` uses up one of its own accesses, and gives no other thread one.
  advance_at-left :
      (spurious : Bool) (i j : ℕ) (threads : List Runner) (cell : ℕ)
      → All (IsSound s m now h (used s now cell)) threads
      → used s now cell ≤ m
      → left_at
          (used s now (access_at (advance s) spurious j threads cell).1)
          i
          (access_at (advance s) spurious j threads cell).0
        ≤ left_at (used s now cell) i threads - (if j == i then 1 else 0)
  unfolding access_at
  advance_at-left spurious i j [] cell sound most = omega arith
  advance_at-left spurious zero zero (t ∷ threads) cell (one, others) most =
      advance-left spurious t cell one
  advance_at-left spurious (suc i) zero (t ∷ threads) cell (one, others) most =
      let (one', more, most', less) = advance-Keeps s m now h spurious t cell one most in
      let rest = left_at-later (used s now cell) _ i threads more in ground (arith, rest)
  advance_at-left spurious zero (suc j) (t ∷ threads) cell (one, others) most =
      let (others', more, most', less) =
        advance_at-Keeps s m now h spurious j threads cell others most in
      let rest = left-later (used s now cell) _ t more in ground (arith, rest)
  advance_at-left spurious (suc i) (suc j) (t ∷ threads) cell (one, others) most =
      let rest = advance_at-left spurious i j threads cell others most in ground (arith, rest)

  run_schedule-left :
      (schedule : List (ℕ × Bool)) (i : ℕ) (threads : List Runner) (cell : ℕ)
      → All (IsSound s m now h (used s now cell)) threads
      → used s now cell ≤ m
      → left_at
          (used s now (run_schedule (advance s) schedule threads cell).1)
          i
          (run_schedule (advance s) schedule threads cell).0
        ≤ left_at (used s now cell) i threads - turns i schedule
  unfolding run_schedule
  run_schedule-left [] i threads cell sound most = omega arith
  run_schedule-left ((j, spurious) ∷ later) i threads cell sound most =
      let (sound', more, most', less) =
        advance_at-Keeps s m now h spurious j threads cell sound most in
      let step = advance_at-left spurious i j threads cell sound most in
      let rest = run_schedule-left later i _ _ sound' most' in omega (arith, step, rest)

  -- A request without an access left is over.
  left-is_over : (n : ℕ) (t : Runner) → left n t ≤ 0 → is_over t ≡ true
  left-is_over n (incoming secs) none_left = absurd (omega arith)
  left-is_over n (swapping secs old desired) none_left = absurd (ground arith)
  left-is_over n (let_pass word) none_left = refl
  left-is_over n (sent_away wait) none_left = refl
  left-is_over n stopped none_left = refl

  left_at-is_over :
      (n i : ℕ) (threads : List Runner)
      → i < length threads
      → left_at n i threads ≤ 0
      → is_over_at i threads ≡ true
  left_at-is_over n i [] inside none_left = absurd (omega arith)
  left_at-is_over n zero (t ∷ threads) inside none_left = left-is_over n t none_left
  left_at-is_over n (suc i) (t ∷ threads) inside none_left =
      left_at-is_over n i threads (omega arith) none_left

  left_at-incoming : (n i : ℕ) (times : List ℕ) → left_at n i (map incoming times) ≤ 3
  left_at-incoming n i [] = omega arith
  left_at-incoming n zero (t ∷ times) = omega arith
  left_at-incoming n (suc i) (t ∷ times) = left_at-incoming n i times

  -- A request waits for no other: in any order of loads and exchanges of requests of one client
  -- that fall into one window, where the limit is a positive 31-bit number that is not passed
  -- yet and the window is not empty, a request that has come three times is over: it makes its
  -- load, its exchange and one more exchange, which fails, at most.
  pub run_schedule-is_over :
      (schedule : List (ℕ × Bool)) (times : List ℕ) (cell i : ℕ)
      → All (λ t. window_id s t ≡ window_id s now) times
      → used s now cell ≤ m
      → i < length times
      → 3 ≤ turns i schedule
      → is_over_at i (run_schedule (advance s) schedule (map incoming times) cell).0 ≡ true
  run_schedule-is_over schedule times cell i same most inside thrice =
      let (sound, weight_start) = arrivals s m now h (used s now cell) times same in
      let start = left_at-incoming (used s now cell) i times in
      let end = run_schedule-left schedule i (map incoming times) cell sound most in
      let kept = length-run_schedule (advance s) schedule (map incoming times) cell in
      let there = length-map incoming times in
      left_at-is_over (used s now (run_schedule (advance s) schedule (map incoming times) cell).1) i
        (run_schedule (advance s) schedule (map incoming times) cell).0 (omega (arith, kept, there))
        (omega (arith, start, end))
