-- ===== src/Limit/Window.antt =====
-- src/Middleware.cpp: `FixedWindowLimiter`. A cell is the 64-bit word of one client: the window in
-- the upper half, the requests counted in it in the lower half.
pub mod Counting
pub mod Race
pub mod Threads
use cgi_web_server.Base.Int.{ℤ, to_u32}
use cgi_web_server.Base.{
  ◌≡◌, refl, ◌⊎◌, arith, ◌<◌, inl, inr, ℕ, zero, suc, ◌+◌, ◌-◌, ◌*◌, ◌/◌, ◌%◌, ◌^◌, Bool, true,
  false, ltb, leb, ◌==◌, if◌then◌else◌,
}

-- `cfg::FixedWindowSetting`, without the key function. The configuration reads no negative
-- `window_seconds`.
pub record FixedWindowSetting : Type 0 where
  pub window_seconds : ℕ
  pub max_requests : ℤ

abbrev pub default_window : FixedWindowSetting
default_window = record { window_seconds = 60; max_requests = ℤ.pos 3000 }

-- What one round of the loop decides: store a word and let the request through, refuse it with
-- the seconds to wait, or divide by zero.
pub data Round : Type 0 where
  store : ℕ → Round
  refuse : ℕ → Round
  fault : Round

abbrev pub window_of : ℕ → ℕ
window_of cell = cell / 2 ^ 32

abbrev pub count_of : ℕ → ℕ
count_of cell = cell % 2 ^ 32

abbrev pub pack : ℕ → ℕ → ℕ
pack hi lo = hi * 2 ^ 32 + lo

-- `std::uint32_t(secs / window_seconds)`
unfoldable pub window_id : FixedWindowSetting → ℕ → ℕ
window_id s secs = (secs / s.window_seconds) % 2 ^ 32

-- The end of the window, a 32-bit number.
unfoldable pub reset_time : FixedWindowSetting → ℕ → ℕ
reset_time s secs = (((window_id s secs * s.window_seconds) % 2 ^ 32) + s.window_seconds) % 2 ^ 32

unfoldable pub retry_after : FixedWindowSetting → ℕ → ℕ
retry_after s secs = if ltb secs (reset_time s secs) then reset_time s secs - secs else 0

-- One round on the word `old`.
unfoldable pub window_round : FixedWindowSetting → ℕ → ℕ → Round
window_round s secs old =
    if s.window_seconds == 0
    then fault
    else if window_of old == window_id s secs
    then (if leb (to_u32 s.max_requests) (count_of old)
        then refuse (retry_after s secs)
        else store (pack (window_id s secs) ((count_of old + 1) % 2 ^ 32)))
    else store (pack (window_id s secs) 1)

-- How a request leaves the loop: let through with the word of its last round, or not.
pub data Verdict : Type 0 where
  admitted : ℕ → Verdict
  refused : ℕ → Verdict
  faulted : Verdict
  spinning : Verdict

pub Verdict-cases :
    (v : Verdict)
    → ((n : ℕ) × (v ≡ admitted n))
      ⊎ (((n : ℕ) × (v ≡ refused n)) ⊎ ((v ≡ faulted) ⊎ (v ≡ spinning)))
Verdict-cases (admitted n) = inl (n, refl)
Verdict-cases (refused n) = inr (inl (n, refl))
Verdict-cases faulted = inr (inr (inl refl))
Verdict-cases spinning = inr (inr (inr refl))

pub record Served : Type 0 where
  pub verdict : Verdict
  pub cell : ℕ

-- `do { … } while(compare_exchange_weak(old, desired))` on a cell that no other thread writes
-- meanwhile and an exchange that does not fail for no reason. The loop goes on after an exchange
-- that succeeds, with `old` as it was, and ends at one that fails. `spinning`: the fuel is spent.
unfoldable pub window_loop : ℕ → FixedWindowSetting → ℕ → ℕ → ℕ → Served
window_loop zero s secs old cell = record { verdict = spinning; cell = cell }
window_loop (suc fuel) s secs old cell = elim (window_round s secs old) [
  | fault ↦ record { verdict = faulted; cell = cell }
  | refuse wait ↦ record { verdict = refused wait; cell = cell }
  | store desired ↦ elim (cell == old) [
    | true ↦ window_loop fuel s secs old desired
    | false ↦ record { verdict = admitted desired; cell = cell }
  ]
]

-- A request alone: the load, and the loop, which makes two rounds at most.
unfoldable pub window_serve : FixedWindowSetting → ℕ → ℕ → Served
window_serve s secs cell = window_loop 2 s secs cell cell

-- With a window that is not empty, a request is let through or refused.
pub window_serve-stops :
    (s : FixedWindowSetting) (secs cell : ℕ) (v : Verdict)
    → 0 < s.window_seconds
    → (window_serve s secs cell).verdict ≡ v
    → ((n : ℕ) × (v ≡ admitted n)) ⊎ ((n : ℕ) × (v ≡ refused n))
unfolding window_serve window_loop window_round window_id
window_serve-stops s secs cell (admitted n) h e = inl (n, refl)
window_serve-stops s secs cell (refused n) h e = inr (n, refl)
window_serve-stops s secs cell _ h e = absurd (ground (arith, h, e))
