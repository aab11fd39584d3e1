-- ===== src/Pipeline/Limiting.antt =====
-- src/Middleware.cpp: `RateLimiter`, and the `process` of the two limiters. A request is served
-- while no other request is at the same limiter.
pub mod Refusal
pub mod Empty
pub mod Isolation
pub mod Alone
use cgi_web_server.Base.Assoc.{lookup, insert}
use cgi_web_server.Base.Int.{ℤ, pos, negsuc, to_u32}
use cgi_web_server.Base.{
  ℕ, ◌+◌, ◌-◌, ◌%◌, ◌^◌, Option, none, some, List, [], ◌∷◌, ◌++◌, if◌then◌else◌,
}
use cgi_web_server.Http.Response.{
  Headers, Response, Result, returns, throws, http_exception, exception_response, add_header,
}
use cgi_web_server.Http.Status
use cgi_web_server.Limit.Bucket
use cgi_web_server.Limit.Bucket.{TokenBucketSetting, new_bucket, wait_after, bucket_serve}
use cgi_web_server.Limit.Window
use cgi_web_server.Limit.Window.{FixedWindowSetting, count_of, reset_time, window_serve}
use cgi_web_server.Pipeline.{
  nat_keys, Transaction, Limiter, fixed_window, token_bucket, State, Run, finished, crashed, Action,
  World, set_response,
}
use cgi_web_server.Pipeline.Keys.{make_key}
use cgi_web_server.Config.Keys.{KeyFunc}
use cgi_web_server.Text.Number.{to_string, int_to_string}
use cgi_web_server.Text.{Bytes, bytes_keys, codes}

-- `findClient`: a new client's word is 0.
unfoldable pub find_client : Bytes → List (Bytes × ℕ) → ℕ
find_client key clients = elim (lookup key clients) [ none ↦ 0 | some cell ↦ cell ]

-- `findBucket`
unfoldable pub find_bucket : TokenBucketSetting → ℕ → Bytes → List (Bytes × ℕ) → ℕ
find_bucket setting now key buckets = elim (lookup key buckets) [
  | none ↦ new_bucket setting now
  | some cell ↦ cell
]

-- `max_requests - new_count`, in 32 bits
unfoldable pub remaining : FixedWindowSetting → ℕ → ℕ
remaining setting count = (to_u32 setting.max_requests + (2 ^ 32 - count)) % 2 ^ 32

unfoldable pub window_headers : FixedWindowSetting → ℕ → ℕ → Response → Response
unfolding remaining
window_headers setting secs desired r =
    add_header (codes "X-RateLimit-Reset") (to_string (reset_time setting secs)) (
      add_header (codes "X-RateLimit-Remaining") (to_string (remaining setting (count_of desired)))
        (add_header (codes "X-RateLimit-Limit") (int_to_string setting.max_requests) r))

unfoldable pub bucket_headers : TokenBucketSetting → ℕ → ℕ → ℕ → Response → Response
unfolding int_to_string
bucket_headers setting epoch tokens delay r = add_header (codes "Retry-After") (to_string delay) (
    add_header (codes "X-RateLimit-Reset") (to_string (epoch + delay)) (
      add_header (codes "X-RateLimit-Remaining") (to_string tokens)
        (add_header (codes "X-RateLimit-Limit") (int_to_string setting.capacity) r)))

-- The exception of a request over its limit.
unfoldable pub too_many : ℕ → Result (Unit {0})
too_many wait = throws (
    http_exception
      (exception_response Status.too_many_requests ((codes "Retry-After", to_string wait) ∷ [])))

unfoldable pub set_limiter : ℕ → Limiter → State → State
set_limiter id l s = record s { limiters = insert id l s.limiters }

module _ (w : World) (id : ℕ) where
  -- The limiters behind the key of the request.
  unfoldable pub serve_window :
      FixedWindowSetting → KeyFunc → List (Bytes × ℕ) → Bytes → Action → Action
  unfolding find_client window_headers too_many set_limiter
  serve_window setting key_func clients key next s =
      let served = window_serve setting w.steady (find_client key clients) in
      let s' = set_limiter id (fixed_window setting key_func (insert key served.cell clients)) s in
      elim (served.verdict) [
        | Window.refused wait ↦ finished (too_many wait) s'
        | Window.admitted desired ↦
            next (set_response (window_headers setting w.steady desired s.txn.response) s')
        | _ ↦ crashed
      ]

  unfoldable pub serve_bucket :
      TokenBucketSetting → KeyFunc → List (Bytes × ℕ) → Bytes → Action → Action
  unfolding find_bucket bucket_headers too_many set_limiter
  serve_bucket setting key_func buckets key next s =
      let secs = w.steady % 2 ^ 32 in
      let old = find_bucket setting w.steady key buckets in
      let served = bucket_serve setting secs old in
      let s' = set_limiter id (token_bucket setting key_func (insert key served.cell buckets)) s in
      elim (served.verdict) [
        | Bucket.refused wait ↦ finished (too_many wait) s'
        | Bucket.admitted tokens ↦ next (
            set_response
              (bucket_headers setting w.epoch tokens (wait_after secs old) s.txn.response) s')
        | _ ↦ crashed
      ]

  -- `process` of the two limiters: a key function that throws ends it first.
  unfoldable pub process_window : FixedWindowSetting → KeyFunc → List (Bytes × ℕ) → Action → Action
  unfolding make_key serve_window
  process_window setting key_func clients next s =
      elim (make_key key_func w.client_ip s.txn.request) [
        | throws x ↦ finished (throws x) s
        | returns key ↦ serve_window setting key_func clients key next s
      ]

  unfoldable pub process_bucket : TokenBucketSetting → KeyFunc → List (Bytes × ℕ) → Action → Action
  unfolding make_key serve_bucket
  process_bucket setting key_func buckets next s =
      elim (make_key key_func w.client_ip s.txn.request) [
        | throws x ↦ finished (throws x) s
        | returns key ↦ serve_bucket setting key_func buckets key next s
      ]

  unfoldable pub process_limiter : Action → Action
  unfolding process_window process_bucket
  process_limiter next s = elim (lookup id s.limiters) [
    | none ↦ crashed
    | some (fixed_window setting key_func clients) ↦ process_window setting key_func clients next s
    | some (token_bucket setting key_func buckets) ↦ process_bucket setting key_func buckets next s
  ]

-- `RateLimiter::process`: the limiter of the route, if it has one.
unfoldable pub rate_limit : World → Action → Action
unfolding process_limiter
rate_limit w next s = elim (s.txn.request.route) [
  | none ↦ crashed
  | some route ↦ elim (route.rate_limiter) [ none ↦ next s | some id ↦ process_limiter w id next s ]
]
