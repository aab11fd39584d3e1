-- ===== src/Pipeline/Stages/Tails.antt =====
-- src/Middleware.cpp: a middleware that returns has called `next`, for the limiters and the parser.
use cgi_web_server.Base.Assoc.{lookup}
use cgi_web_server.Base.{ℕ, ◌%◌, ◌^◌, ◌≡◌, inl, inr, arith, Bool-cases, Option-cases, List}
use cgi_web_server.Http.Response.{returns, Result-cases}
use cgi_web_server.Limit.Bucket
use cgi_web_server.Limit.Bucket.{TokenBucketSetting, bucket_serve}
use cgi_web_server.Limit.Window
use cgi_web_server.Limit.Window.{FixedWindowSetting, window_serve}
use cgi_web_server.Pipeline.Limiting.{
  find_client, find_bucket, serve_window, serve_bucket, process_window, process_bucket,
  process_limiter, rate_limit,
}
use cgi_web_server.Pipeline.Stages.{has_failed, parse_request, parse}
use cgi_web_server.Pipeline.{fixed_window, token_bucket, nat_keys, State, finished, Action, World}
use cgi_web_server.Pipeline.Keys.{make_key}
use cgi_web_server.Config.Keys.{KeyFunc}
use cgi_web_server.Text.{Bytes}

-- An action ends as `next` ends in some state.
abbrev pub Tail : Action → State → Type 0
Tail next s1 = (s0 : State) × (next s0 ≡ finished (returns tt) s1)

serve_window-Tail :
    (w : World) (id : ℕ) (setting : FixedWindowSetting) (key_func : KeyFunc)
    (clients : List (Bytes × ℕ)) (key : Bytes) (next : Action) (s s1 : State)
    → serve_window w id setting key_func clients key next s ≡ finished (returns tt) s1
    → Tail next s1
unfolding serve_window
serve_window-Tail w id setting key_func clients key next s s1 h =
    let cases =
      Window.Verdict-cases ((window_serve setting w.steady (find_client key clients)).verdict) in
    elim cases [
      | inl (n, let_through) ↦ (_, rw (let_through, serve_window) at h)
      | inr (inl (n, stopped)) ↦ absurd (ground (arith, rw (stopped, serve_window) at h))
      | inr (inr (inl stopped)) ↦ absurd (ground (arith, rw (stopped, serve_window) at h))
      | inr (inr (inr stopped)) ↦ absurd (ground (arith, rw (stopped, serve_window) at h))
    ]

serve_bucket-Tail :
    (w : World) (id : ℕ) (setting : TokenBucketSetting) (key_func : KeyFunc)
    (buckets : List (Bytes × ℕ)) (key : Bytes) (next : Action) (s s1 : State)
    → serve_bucket w id setting key_func buckets key next s ≡ finished (returns tt) s1
    → Tail next s1
unfolding serve_bucket
serve_bucket-Tail w id setting key_func buckets key next s s1 h =
    let cases = Bucket.Verdict-cases (
      (bucket_serve setting (w.steady % 2 ^ 32)
        (find_bucket setting w.steady key buckets)).verdict) in
    elim cases [
      | inl (n, let_through) ↦ (_, rw (let_through, serve_bucket) at h)
      | inr (inl (n, stopped)) ↦ absurd (ground (arith, rw (stopped, serve_bucket) at h))
      | inr (inr stopped) ↦ absurd (ground (arith, rw (stopped, serve_bucket) at h))
    ]

process_window-Tail :
    (w : World) (id : ℕ) (setting : FixedWindowSetting) (key_func : KeyFunc)
    (clients : List (Bytes × ℕ)) (next : Action) (s s1 : State)
    → process_window w id setting key_func clients next s ≡ finished (returns tt) s1
    → Tail next s1
unfolding process_window
process_window-Tail w id setting key_func clients next s s1 h =
    elim (Result-cases (make_key key_func w.client_ip s.txn.request)) [
      | inl (key, keyed) ↦
          serve_window-Tail w id setting key_func clients key next s s1
            (rw (keyed, process_window) at h)
      | inr (x, thrown) ↦ absurd (ground (arith, rw (thrown, process_window) at h))
    ]

process_bucket-Tail :
    (w : World) (id : ℕ) (setting : TokenBucketSetting) (key_func : KeyFunc)
    (buckets : List (Bytes × ℕ)) (next : Action) (s s1 : State)
    → process_bucket w id setting key_func buckets next s ≡ finished (returns tt) s1
    → Tail next s1
unfolding process_bucket
process_bucket-Tail w id setting key_func buckets next s s1 h =
    elim (Result-cases (make_key key_func w.client_ip s.txn.request)) [
      | inl (key, keyed) ↦
          serve_bucket-Tail w id setting key_func buckets key next s s1
            (rw (keyed, process_bucket) at h)
      | inr (x, thrown) ↦ absurd (ground (arith, rw (thrown, process_bucket) at h))
    ]

pub process_limiter-Tail :
    (w : World) (id : ℕ) (next : Action) (s s1 : State)
    → process_limiter w id next s ≡ finished (returns tt) s1
    → Tail next s1
unfolding process_limiter
process_limiter-Tail w id next s s1 h = elim (Option-cases (lookup id s.limiters)) [
  | inl missing ↦ absurd (ground (arith, h, missing))
  | inr (fixed_window setting key_func clients, found) ↦
      process_window-Tail w id setting key_func clients next s s1 (rw (found, process_limiter) at h)
  | inr (token_bucket setting key_func buckets, found) ↦
      process_bucket-Tail w id setting key_func buckets next s s1 (rw (found, process_limiter) at h)
]

pub rate_limit-Tail :
    (w : World) (next : Action) (s s1 : State)
    → rate_limit w next s ≡ finished (returns tt) s1
    → Tail next s1
unfolding rate_limit
rate_limit-Tail w next s s1 h = elim (Option-cases s.txn.request.route) [
  | inl missing ↦ absurd (ground (arith, h, missing))
  | inr (route, at) ↦ elim (Option-cases route.rate_limiter) [
    | inl free ↦ (s, ground (arith, h, at, free))
    | inr (id, limited) ↦ process_limiter-Tail w id next s s1 (ground (arith, h, at, limited))
  ]
]

pub parse-Tail :
    (w : World) (next : Action) (s s1 : State)
    → parse w next s ≡ finished (returns tt) s1
    → Tail next s1
unfolding parse
parse-Tail w next s s1 h = elim (Bool-cases (has_failed w.read.0)) [
  | inl failed ↦ absurd (ground (arith, h, failed))
  | inr read ↦ elim (Result-cases ((parse_request w s.router w.read.1).0)) [
    | inl (request, parsed) ↦ (_, rw (read, parse, parsed) at h)
    | inr (x, refused) ↦ absurd (ground (arith, h, read, refused))
  ]
]
