-- ===== src/Limit/Window/Counting.antt =====
-- src/Middleware.cpp: requests that one client sends one after another are counted right.
use cgi_web_server.Base.Int.{pos}
use cgi_web_server.Base.{
  ℕ, ◌+◌, ◌-◌, ◌^◌, ◌<◌, ◌≤◌, ◌≡◌, arith, dec_lt, sym, ap, ◌==◌, if◌then◌else◌, List, [], ◌∷◌, All,
  min, length,
}
use cgi_web_server.Limit.Window.{
  FixedWindowSetting, window_of, count_of, pack, window_id, retry_after, window_round, Verdict,
  admitted, refused, Served, window_loop, window_serve,
}

-- The requests that a cell has counted in the window of `secs`.
unfoldable pub used : FixedWindowSetting → ℕ → ℕ → ℕ
used s secs cell = if window_of cell == window_id s secs then count_of cell else 0

pub used-pack :
    (s : FixedWindowSetting) (later w n : ℕ)
    → n < 2 ^ 32
    → window_id s later ≡ w
    → used s later (pack w n) ≡ n
unfolding used
used-pack s later w n h e = ground arith

used-window :
    (s : FixedWindowSetting) (t now cell : ℕ)
    → window_id s t ≡ window_id s now
    → used s t cell ≡ used s now cell
unfolding used
used-window s t now cell e = rw e

-- The setting as a configuration makes sense: a positive limit of 31 bits, and a window.
pub record IsSetting (s : FixedWindowSetting) (m : ℕ) : Type 0 where
  pub limit : s.max_requests ≡ pos m
  pub limit_pos : 0 < m
  pub limit_fits : m < 2 ^ 31
  pub window_pos : 0 < s.window_seconds

module _ (s : FixedWindowSetting) (m : ℕ) (h : IsSetting s m) (secs cell : ℕ) where
  -- A request below the limit is counted, once, and let through.
  pub window_serve-below :
      used s secs cell < m
      → window_serve s secs cell ≡ record {
        verdict = admitted (pack (window_id s secs) (used s secs cell + 1));
        cell = pack (window_id s secs) (used s secs cell + 1);
      }
  unfolding window_serve window_loop window_round window_id used
  window_serve-below u =
      let e = h.limit in
      let p = h.limit_pos in let f = h.limit_fits in let w = h.window_pos in ground arith

  -- A request at the limit is refused, and the count stays.
  pub window_serve-above :
      m ≤ used s secs cell
      → window_serve s secs cell ≡ record { verdict = refused (retry_after s secs); cell = cell }
  unfolding window_serve window_loop window_round window_id used
  window_serve-above u =
      let e = h.limit in
      let p = h.limit_pos in let f = h.limit_fits in let w = h.window_pos in ground arith

  -- The cell that a request leaves behind, in its window.
  used-serve :
      (later : ℕ)
      → window_id s later ≡ window_id s secs
      → used s secs cell < m
      → used s later (window_serve s secs cell).cell ≡ used s secs cell + 1
  used-serve later same u =
      let f = h.limit_fits in
      rw (window_serve-below u)
        (used-pack s later (window_id s secs) (used s secs cell + 1) (omega arith) same)

-- The request that a verdict lets through.
abbrev pub counts : Verdict → ℕ
counts (admitted _) = 1
counts _ = 0

-- Requests one after another, at the given seconds: how many pass, and the cell at the end.
pub serve_all : FixedWindowSetting → List ℕ → ℕ → ℕ × ℕ
serve_all s [] cell = (0, cell)
serve_all s (secs ∷ later) cell =
    let served = window_serve s secs cell in
    let (n, last) = serve_all s later served.cell in (counts served.verdict + n, last)

-- Of the requests of one client that come one after another and fall into one window, exactly as
-- many pass as the limit leaves room for, where the limit is a positive 31-bit number and the
-- window is not empty.
pub serve_all_lem :
    (s : FixedWindowSetting) (m now : ℕ) (times : List ℕ) (cell : ℕ)
    → IsSetting s m
    → All (λ t. window_id s t ≡ window_id s now) times
    → (serve_all s times cell).0 ≡ min (length times) (m - used s now cell)
unfolding serve_all
serve_all_lem s m now [] cell h same = omega arith
serve_all_lem s m now (t ∷ times) cell h (e, same) =
    let now_used : used s t cell ≡ used s now cell = used-window s t now cell e in
    elim (dec_lt (used s t cell) m) [
      | yes below ↦
          let step = window_serve-below s m h t cell below in
          let next = used-serve s m h t cell now (sym e) below in
          omega (
            arith,
            serve_all_lem s m now times (window_serve s t cell).cell h same,
            ap (λ (r : Served). counts r.verdict) step,
          )
      | no full ↦
          let step = window_serve-above s m h t cell (omega arith) in
          omega (
            arith,
            serve_all_lem s m now times (window_serve s t cell).cell h same,
            ap (λ (r : Served). counts r.verdict) step,
            ap (λ (r : Served). used s now r.cell) step,
          )
    ]
