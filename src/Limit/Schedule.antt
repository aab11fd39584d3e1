-- ===== src/Limit/Schedule.antt =====
-- Accesses of the threads of the limiters in src/Middleware.cpp to what they share, in any order.
use cgi_web_server.Base.{
  ℕ, zero, suc, ◌+◌, ◌≡◌, refl, arith, Bool, ◌==◌, if◌then◌else◌, List, [], ◌∷◌, length,
}

-- How often the thread at a place comes in a schedule.
abbrev pub turns : ℕ → List (ℕ × Bool) → ℕ
turns i [] = 0
turns i ((j, spurious) ∷ later) = (if j == i then 1 else 0) + turns i later

-- `access` is the next access of a thread to what is shared, such as the word of a client; an
-- exchange of it may fail for no reason.
module _ {ℓ} {A C : Type ℓ} (access : Bool → A → C → A × C) where
  -- An access of the thread at a place.
  unfoldable pub access_at : Bool → ℕ → List A → C → List A × C
  access_at spurious i [] cell = ([], cell)
  access_at spurious zero (t ∷ threads) cell =
      let (t', cell') = access spurious t cell in (t' ∷ threads, cell')
  access_at spurious (suc i) (t ∷ threads) cell =
      let (threads', cell') = access_at spurious i threads cell in (t ∷ threads', cell')

  -- A schedule: which thread comes next, and whether an exchange of it fails for no reason.
  unfoldable pub run_schedule : List (ℕ × Bool) → List A → C → List A × C
  unfolding access_at
  run_schedule [] threads cell = (threads, cell)
  run_schedule ((i, spurious) ∷ later) threads cell =
      let (threads', cell') = access_at spurious i threads cell in run_schedule later threads' cell'

  length-access_at :
      (spurious : Bool) (i : ℕ) (threads : List A) (cell : C)
      → length (access_at spurious i threads cell).0 ≡ length threads
  unfolding access_at
  length-access_at spurious i [] cell = refl
  length-access_at spurious zero (t ∷ threads) cell = refl
  length-access_at spurious (suc i) (t ∷ threads) cell =
      omega (arith, length-access_at spurious i threads cell)

  pub length-run_schedule :
      (schedule : List (ℕ × Bool)) (threads : List A) (cell : C)
      → length (run_schedule schedule threads cell).0 ≡ length threads
  unfolding run_schedule
  length-run_schedule [] threads cell = refl
  length-run_schedule ((i, spurious) ∷ later) threads cell =
      let kept = length-access_at spurious i threads cell in
      let rest =
        length-run_schedule later (access_at spurious i threads cell).0
          (access_at spurious i threads cell).1 in
      omega (arith, kept, rest)
