-- ===== src/Pipeline/Limiting/Empty.antt =====
-- src/Middleware.cpp: `FixedWindowLimiter::process` with a window of 0 seconds.
use cgi_web_server.Base.Assoc.{lookup}
use cgi_web_server.Base.{ℕ, ◌≡◌, refl, some, List}
use cgi_web_server.Config.Keys.{KeyFunc}
use cgi_web_server.Http.Response.{returns}
use cgi_web_server.Limit.Window.{FixedWindowSetting, window_serve, window_loop, window_round}
use cgi_web_server.Pipeline.Keys.{make_key}
use cgi_web_server.Pipeline.Limiting.{serve_window, process_window, process_limiter}
use cgi_web_server.Pipeline.{nat_keys, fixed_window, State, crashed, Action, World}
use cgi_web_server.Text.{Bytes}

-- A fixed-window limiter whose window is 0 seconds long divides by zero: the process does not
-- survive a request that has a key, whatever the limit and the counts.
pub process_limiter-crashes :
    (w : World) (id : ℕ) (setting : FixedWindowSetting) (key_func : KeyFunc) (key : Bytes)
    (clients : List (Bytes × ℕ)) (next : Action) (s : State)
    → lookup id s.limiters ≡ some (fixed_window setting key_func clients)
    → make_key key_func w.client_ip s.txn.request ≡ returns key
    → setting.window_seconds ≡ 0
    → process_limiter w id next s ≡ crashed
unfolding process_limiter process_window serve_window window_serve window_loop window_round
process_limiter-crashes w id setting key_func key clients next s found keyed zero =
    rw (found, keyed, process_limiter, process_window) (rw (zero, serve_window) refl)
