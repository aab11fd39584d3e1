-- ===== src/Limit/Window/Threads/Counted.antt =====
-- src/Middleware.cpp: what the fixed-window limiter promises in any order of loads and exchanges.
use cgi_web_server.Base.{ℕ, ◌+◌, ◌≤◌, ◌≡◌, refl, arith, Bool, List, [], ◌∷◌, All, map, length}
use cgi_web_server.Limit.Schedule.{run_schedule}
use cgi_web_server.Limit.Window.Counting.{used, IsSetting}
use cgi_web_server.Limit.Window.Threads.Sound.{IsSound, weights, run_schedule-Keeps}
use cgi_web_server.Limit.Window.Threads.{
  Runner, incoming, swapping, let_pass, sent_away, stopped, advance,
}
use cgi_web_server.Limit.Window.{FixedWindowSetting, window_id}

module _ (s : FixedWindowSetting) (m now : ℕ) (h : IsSetting s m) where
  -- Only a window that has its limit counted turns a request away, and none divides by zero.
  abbrev pub IsFair : ℕ → Runner → Type 0
  IsFair cell (sent_away wait) = used s now cell ≡ m
  IsFair cell stopped = ⊥
  IsFair cell (incoming secs) = Unit
  IsFair cell (swapping secs old desired) = Unit
  IsFair cell (let_pass word) = Unit

  IsSound-IsFair :
      (cell : ℕ) (threads : List Runner)
      → All (IsSound s m now h (used s now cell)) threads
      → All (IsFair cell) threads
  IsSound-IsFair cell [] sound = tt
  IsSound-IsFair cell (incoming secs ∷ threads) (one, others) =
      (tt, IsSound-IsFair cell threads others)
  IsSound-IsFair cell (swapping secs old desired ∷ threads) (one, others) =
      (tt, IsSound-IsFair cell threads others)
  IsSound-IsFair cell (let_pass word ∷ threads) (one, others) =
      (tt, IsSound-IsFair cell threads others)
  IsSound-IsFair cell (sent_away wait ∷ threads) (one, others) =
      (one, IsSound-IsFair cell threads others)
  IsSound-IsFair cell (stopped ∷ threads) (one, others) = absurd one

  pub arrivals :
      (n : ℕ) (times : List ℕ)
      → All (λ t. window_id s t ≡ window_id s now) times
      → All (IsSound s m now h n) (map incoming times)
        × (weights s m now h n (map incoming times) ≡ length times)
  arrivals n [] same = (tt, refl)
  arrivals n (t ∷ times) (one, others) =
      let (sound, rest) = arrivals n times others in ((one, sound), omega (arith, rest))

  -- Whatever the order of their loads and exchanges, with exchanges that fail for no reason
  -- included, the requests of one client that fall into one window, where the limit is a
  -- positive 31-bit number that is not passed yet and the window is not empty, take nothing
  -- from the count, never push it above the limit, and add one each at most; one is refused
  -- only if the limit is reached, and none divides by zero.
  pub run_schedule-counts :
      (schedule : List (ℕ × Bool)) (times : List ℕ) (cell : ℕ)
      → All (λ t. window_id s t ≡ window_id s now) times
      → used s now cell ≤ m
      → (used s now cell
          ≤ used s now (run_schedule (advance s) schedule (map incoming times) cell).1)
        × (used s now (run_schedule (advance s) schedule (map incoming times) cell).1 ≤ m)
        × (used s now (run_schedule (advance s) schedule (map incoming times) cell).1
            ≤ used s now cell + length times)
        × All
            (IsFair (run_schedule (advance s) schedule (map incoming times) cell).1)
            (run_schedule (advance s) schedule (map incoming times) cell).0
  run_schedule-counts schedule times cell same most =
      let (sound, weight_start) = arrivals (used s now cell) times same in
      let (end, more, most_end, less) =
        run_schedule-Keeps s m now h schedule (map incoming times) cell sound most in
      (more, most_end, omega (arith, less, weight_start), IsSound-IsFair _ _ end)
