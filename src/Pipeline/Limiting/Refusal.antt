-- ===== src/Pipeline/Limiting/Refusal.antt =====
-- src/Middleware.cpp: what `FixedWindowLimiter::process` does below the limit and at it.
use cgi_web_server.Base.Assoc.{lookup, insert, lookup-insert_self, lookup-insert_ne}
use cgi_web_server.Base.{
  ℕ, ◌+◌, ◌-◌, ◌<◌, ◌≤◌, ◌≡◌, refl, sym, ap, ◌∙◌, ◌⊎◌, inl, inr, arith, some, List, dec_lt,
}
use cgi_web_server.Http.Response.{Response, returns, add_header}
use cgi_web_server.Limit.Window.Counting.{
  used, used-pack, IsSetting, window_serve-below, window_serve-above,
}
use cgi_web_server.Limit.Window.{FixedWindowSetting, retry_after, window_id, pack, count_of}
use cgi_web_server.Pipeline.Limiting.{
  find_client, remaining, window_headers, too_many, set_limiter, serve_window, process_window,
  process_limiter,
}
use cgi_web_server.Pipeline.{nat_keys, fixed_window, State, finished, Action, World, set_response}
use cgi_web_server.Pipeline.Keys.{make_key}
use cgi_web_server.Config.Keys.{KeyFunc}
use cgi_web_server.Text.Number.{to_string}
use cgi_web_server.Text.{Bytes, bytes_keys, codes}

lookup-window_headers :
    (setting : FixedWindowSetting) (secs cell : ℕ) (r : Response)
    → lookup (codes "X-RateLimit-Remaining") (window_headers setting secs cell r).headers
      ≡ some (to_string (remaining setting (count_of cell)))
unfolding window_headers add_header
lookup-window_headers setting secs cell r =
    lookup-insert_ne (codes "X-RateLimit-Reset") (codes "X-RateLimit-Remaining") _ _ refl
    ∙ lookup-insert_self (codes "X-RateLimit-Remaining") _ _

remaining-pack :
    (setting : FixedWindowSetting) (m v n : ℕ)
    → IsSetting setting m
    → n ≤ m
    → remaining setting (count_of (pack v n)) ≡ m - n
unfolding remaining
remaining-pack setting m v n h left = let e = h.limit in let f = h.limit_fits in ground arith

-- A fixed-window limiter of m requests, m a positive 31-bit number, whose window is not empty, at
-- a request whose key function returns a key: where m requests or more are counted for that key
-- in the window it throws the 429 with the seconds to wait and calls nothing; below m it calls
-- `next`, with one request more counted for that key and with the rest of the m in the response's
-- X-RateLimit-Remaining.
pub process_limiter-window :
    (w : World) (id m : ℕ) (setting : FixedWindowSetting) (key_func : KeyFunc) (key : Bytes)
    (clients : List (Bytes × ℕ)) (next : Action) (s : State)
    → lookup id s.limiters ≡ some (fixed_window setting key_func clients)
    → make_key key_func w.client_ip s.txn.request ≡ returns key
    → IsSetting setting m
    → ((m ≤ used setting w.steady (find_client key clients))
        × (s' : State) × (process_limiter w id next s
            ≡ finished (too_many (retry_after setting w.steady)) s'))
      ⊎ ((used setting w.steady (find_client key clients) < m)
          × (cell : ℕ) × (r : Response) × (used setting w.steady cell
              ≡ used setting w.steady (find_client key clients) + 1)
          × (lookup (codes "X-RateLimit-Remaining") r.headers
              ≡ some (to_string (m - used setting w.steady cell)))
          × (process_limiter w id next s
              ≡ next (
                  set_response r
                    (set_limiter id (fixed_window setting key_func (insert key cell clients)) s))))
unfolding process_limiter process_window serve_window
process_limiter-window w id m setting key_func key clients next s found keyed h =
    let old = find_client key clients in
    let opened : process_limiter w id next s
        ≡ serve_window w id setting key_func clients key next s =
      rw (found, keyed, process_limiter, process_window) refl in
    elim (dec_lt (used setting w.steady old) m) [
      | yes below ↦
          let served = window_serve-below setting m h w.steady old below in
          let cell = pack (window_id setting w.steady) (used setting w.steady old + 1) in
          let counted : used setting w.steady cell ≡ used setting w.steady old + 1 =
            used-pack setting w.steady (window_id setting w.steady) _ (ground (arith, h.limit_fits))
              refl in
          let left : used setting w.steady old + 1 ≤ m = ground arith in
          inr (
            below,
            cell,
            window_headers setting w.steady cell s.txn.response,
            counted,
            lookup-window_headers setting w.steady cell s.txn.response
                ∙ ap (λ n. some (to_string n))
                    (remaining-pack setting m (window_id setting w.steady)
                        (used setting w.steady old + 1) h left
                      ∙ ap (λ n. m - n) (sym counted)),
            opened ∙ rw (ap (λ q. q.verdict) served, ap (λ q. q.cell) served, serve_window) refl,
          )
      | no reached ↦
          let above : m ≤ used setting w.steady old = ground arith in
          let served = window_serve-above setting m h w.steady old above in
          inl (
            above,
            set_limiter id (fixed_window setting key_func (insert key old clients)) s,
            opened ∙ rw (ap (λ q. q.verdict) served, ap (λ q. q.cell) served, serve_window) refl,
          )
    ]
