-- ===== src/Limit/Window/Threads/Sound.antt =====
-- src/Middleware.cpp: the invariant that the fixed-window limiter keeps in any order of loads and
-- exchanges.
use cgi_web_server.Base.{
  ℕ, zero, suc, ◌+◌, ◌<◌, ◌≤◌, ◌≡◌, refl, arith, inl, inr, ◌⊎◌, Bool, true, false, Bool-cases, List,
  [], ◌∷◌, ◌==◌, if◌then◌else◌, ltb, All, ==_iff,
}
use cgi_web_server.Limit.Schedule.{access_at, run_schedule}
use cgi_web_server.Limit.Window.Counting.{used, used-pack, IsSetting}
use cgi_web_server.Limit.Window.Threads.{
  Runner, incoming, swapping, let_pass, sent_away, stopped, round_of, advance,
}
use cgi_web_server.Limit.Window.{FixedWindowSetting, window_id, pack, retry_after, window_round}

module _ (s : FixedWindowSetting) (m now : ℕ) (h : IsSetting s m) where
  -- A request of the window of `now`, where `n` requests are counted: the word that it desires
  -- counts one more than the word it has loaded, and it is turned away at the limit only.
  abbrev pub IsSound : ℕ → Runner → Type 0
  IsSound n (incoming secs) = window_id s secs ≡ window_id s now
  IsSound n (swapping secs old desired) =
      (window_id s secs ≡ window_id s now)
      × (used s now old < m)
      × (used s now old ≤ n)
      × (desired ≡ pack (window_id s now) (used s now old + 1))
  IsSound n (let_pass word) = Unit
  IsSound n (sent_away wait) = n ≡ m
  IsSound n stopped = ⊥

  -- What a request can still add to the count.
  abbrev pub weight : ℕ → Runner → ℕ
  weight n (incoming secs) = 1
  weight n (swapping secs old desired) = if ltb (used s now old) n then 0 else 1
  weight n (let_pass word) = 0
  weight n (sent_away wait) = 0
  weight n stopped = 0

  abbrev pub weights : ℕ → List Runner → ℕ
  weights n [] = 0
  weights n (t ∷ threads) = weight n t + weights n threads

  pub IsSound-later :
      (n n' : ℕ) (t : Runner)
      → n ≤ n'
      → n' ≤ m
      → IsSound n t
      → IsSound n' t × (weight n' t ≤ weight n t)
  IsSound-later n n' (incoming secs) le most sound = (sound, omega arith)
  IsSound-later n n' (swapping secs old desired) le most (same, below, past, next) =
      ((same, below, omega arith, next), ground arith)
  IsSound-later n n' (let_pass word) le most sound = (tt, omega arith)
  IsSound-later n n' (sent_away wait) le most sound = (omega arith, omega arith)
  IsSound-later n n' stopped le most sound = absurd sound

  weights-later :
      (n n' : ℕ) (threads : List Runner)
      → n ≤ n'
      → n' ≤ m
      → All (IsSound n) threads
      → All (IsSound n') threads × (weights n' threads ≤ weights n threads)
  weights-later n n' [] le most sound = (tt, omega arith)
  weights-later n n' (t ∷ threads) le most (one, others) =
      let (one', less) = IsSound-later n n' t le most one in
      let (others', rest) = weights-later n n' threads le most others in
      ((one', others'), omega (arith, less, rest))

  -- A round in the window: below the limit it desires one more, at the limit it turns away.
  pub round_of_lem :
      (secs old : ℕ)
      → window_id s secs ≡ window_id s now
      → ((used s now old < m)
          × (round_of s secs old ≡ swapping secs old (pack (window_id s now) (used s now old + 1))))
        ⊎ ((m ≤ used s now old) × (round_of s secs old ≡ sent_away (retry_after s secs)))
  unfolding round_of window_round used
  round_of_lem secs old same =
      let e = h.limit in
      let p = h.limit_pos in let f = h.limit_fits in let w = h.window_pos in ground arith

  -- What an access makes of a request that could add `before`, and of the cell.
  abbrev Keeps : ℕ → ℕ → Runner → ℕ → Type 0
  Keeps before cell t' cell' =
      IsSound (used s now cell') t'
      × (used s now cell ≤ used s now cell')
      × (used s now cell' ≤ m)
      × (used s now cell' + weight (used s now cell') t' ≤ used s now cell + before)

  -- A load, and the round on the word.
  load-Keeps :
      (secs cell : ℕ)
      → window_id s secs ≡ window_id s now
      → used s now cell ≤ m
      → Keeps 1 cell (round_of s secs cell) cell
  load-Keeps secs cell same most = elim (round_of_lem secs cell same) [
    | inl (below, e) ↦ rw e ((same, below, omega arith, refl), omega arith, most, ground arith)
    | inr (full, e) ↦ rw e (omega arith, omega arith, most, omega arith)
  ]

  pub used-desired :
      (old desired : ℕ)
      → used s now old < m
      → desired ≡ pack (window_id s now) (used s now old + 1)
      → used s now desired ≡ used s now old + 1
  used-desired old desired below next =
      let f = h.limit_fits in
      rw next (used-pack s now (window_id s now) (used s now old + 1) (omega arith) refl)

  -- An exchange that succeeds counts one request, and the loop goes on with a word of the past.
  swap-Keeps :
      (secs cell desired : ℕ)
      → IsSound (used s now cell) (swapping secs cell desired)
      → Keeps
          (weight (used s now cell) (swapping secs cell desired))
          cell
          (round_of s secs cell)
          desired
  swap-Keeps secs cell desired (same, below, past, next) =
      let counted = used-desired cell desired below next in
      elim (round_of_lem secs cell same) [
        | inl (room, e) ↦
            rw e
              ((same, room, omega arith, refl), omega arith, omega arith, ground (arith, counted))
        | inr (full, e) ↦ absurd (omega arith)
      ]

  pub advance-Keeps :
      (spurious : Bool) (t : Runner) (cell : ℕ)
      → IsSound (used s now cell) t
      → used s now cell ≤ m
      → Keeps
          (weight (used s now cell) t)
          cell
          (advance s spurious t cell).0
          (advance s spurious t cell).1
  unfolding advance
  advance-Keeps spurious (incoming secs) cell same most = load-Keeps secs cell same most
  advance-Keeps true (swapping secs old desired) cell sound most =
      (tt, omega arith, most, omega arith)
  advance-Keeps false (swapping secs old desired) cell sound most =
      elim (Bool-cases (cell == old)) [
        | inl met ↦
            let same : cell ≡ old = (==_iff cell old).0 met in
            rw (met, advance, same) (swap-Keeps secs old desired (rw same at sound))
        | inr other ↦ rw (other, advance) (tt, omega arith, most, omega arith)
      ]
  advance-Keeps spurious (let_pass word) cell sound most = (tt, omega arith, most, omega arith)
  advance-Keeps spurious (sent_away wait) cell sound most = (sound, omega arith, most, omega arith)
  advance-Keeps spurious stopped cell sound most = absurd sound

  pub advance_at-Keeps :
      (spurious : Bool) (i : ℕ) (threads : List Runner) (cell : ℕ)
      → All (IsSound (used s now cell)) threads
      → used s now cell ≤ m
      → All
          (IsSound (used s now (access_at (advance s) spurious i threads cell).1))
          (access_at (advance s) spurious i threads cell).0
        × (used s now cell ≤ used s now (access_at (advance s) spurious i threads cell).1)
        × (used s now (access_at (advance s) spurious i threads cell).1 ≤ m)
        × (used s now (access_at (advance s) spurious i threads cell).1
              + weights
                  (used s now (access_at (advance s) spurious i threads cell).1)
                  (access_at (advance s) spurious i threads cell).0
            ≤ used s now cell + weights (used s now cell) threads)
  unfolding access_at
  advance_at-Keeps spurious i [] cell sound most = (tt, omega arith, most, omega arith)
  advance_at-Keeps spurious zero (t ∷ threads) cell (one, others) most =
      let (one', more, most', less) = advance-Keeps spurious t cell one most in
      let (others', rest) = weights-later (used s now cell) _ threads more most' others in
      ((one', others'), more, most', omega (arith, less, rest))
  advance_at-Keeps spurious (suc i) (t ∷ threads) cell (one, others) most =
      let (others', more, most', less) = advance_at-Keeps spurious i threads cell others most in
      let (one', rest) = IsSound-later (used s now cell) _ t more most' one in
      ((one', others'), more, most', omega (arith, less, rest))

  pub run_schedule-Keeps :
      (schedule : List (ℕ × Bool)) (threads : List Runner) (cell : ℕ)
      → All (IsSound (used s now cell)) threads
      → used s now cell ≤ m
      → All
          (IsSound (used s now (run_schedule (advance s) schedule threads cell).1))
          (run_schedule (advance s) schedule threads cell).0
        × (used s now cell ≤ used s now (run_schedule (advance s) schedule threads cell).1)
        × (used s now (run_schedule (advance s) schedule threads cell).1 ≤ m)
        × (used s now (run_schedule (advance s) schedule threads cell).1
            ≤ used s now cell + weights (used s now cell) threads)
  unfolding run_schedule
  run_schedule-Keeps [] threads cell sound most = (sound, omega arith, most, omega arith)
  run_schedule-Keeps ((i, spurious) ∷ later) threads cell sound most =
      let (sound', more, most', less) = advance_at-Keeps spurious i threads cell sound most in
      let (end, more', most_end, rest) = run_schedule-Keeps later _ _ sound' most' in
      (end, omega (arith, more, more'), most_end, omega (arith, less, rest))
