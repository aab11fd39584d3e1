-- ===== src/Pipeline/Limiting/Alone.antt =====
-- src/Middleware.cpp: each limiter answers a client by the word that it keeps for it.
use cgi_web_server.Base.Assoc.{lookup, insert}
use cgi_web_server.Base.{ℕ, ◌%◌, ◌^◌, ◌<◌, ◌≡◌, refl, ap, inl, inr, none, some, List}
use cgi_web_server.Config.Keys.{KeyFunc}
use cgi_web_server.Http.Response.{default_response, returns}
use cgi_web_server.Limit.Bucket
use cgi_web_server.Limit.Bucket.{
  TokenBucketSetting, bucket_serve, bucket_serve-stops, new_bucket, wait_after,
}
use cgi_web_server.Limit.Window
use cgi_web_server.Limit.Window.{FixedWindowSetting, window_serve, window_serve-stops}
use cgi_web_server.Pipeline.Limiting.{
  find_client, find_bucket, window_headers, bucket_headers, too_many, set_limiter, serve_window,
  serve_bucket, process_window, process_bucket, process_limiter,
}
use cgi_web_server.Pipeline.{
  nat_keys, Request, Limiter, fixed_window, token_bucket, State, finished, World, set_response,
}
use cgi_web_server.Text.{Bytes, bytes_keys}
use cgi_web_server.Pipeline.Limiting.Isolation.{
  Visit, Answer, done, arrive, is_client, answers, visits_of, key_func_of, IsKeyed, answers-mine,
}
use cgi_web_server.Pipeline.Ready.{HasWindow}

abbrev told_by_window : FixedWindowSetting → World → Window.Verdict → Answer
told_by_window setting w (Window.refused wait) = (too_many wait, default_response)
told_by_window setting w (Window.admitted desired) =
    (returns tt, window_headers setting w.steady desired default_response)
told_by_window setting w Window.faulted = (returns tt, default_response)
told_by_window setting w Window.spinning = (returns tt, default_response)

abbrev window_reply : FixedWindowSetting → World → ℕ → Answer × ℕ
window_reply setting w old =
    let served = window_serve setting w.steady old in
    (told_by_window setting w served.verdict, served.cell)

serve_window_lem :
    (id : ℕ) (setting : FixedWindowSetting) (key_func : KeyFunc) (w : World) (key : Bytes)
    (cells : List (Bytes × ℕ)) (request : Request) (s : State)
    → 0 < setting.window_seconds
    → serve_window w id setting key_func cells key done (arrive request s)
      ≡ finished (window_reply setting w (find_client key cells)).0.0 (
          set_response (window_reply setting w (find_client key cells)).0.1 (
            set_limiter id
              (fixed_window setting key_func
                (insert key (window_reply setting w (find_client key cells)).1 cells))
              (arrive request s)))
unfolding serve_window set_limiter set_response
serve_window_lem id setting key_func w key cells request s window =
    elim (window_serve-stops setting w.steady (find_client key cells) _ window refl) [
      | inl (n, let_through) ↦ rw (let_through, serve_window) refl
      | inr (n, stopped) ↦ rw (stopped, serve_window) refl
    ]

find_client-eq :
    (key : Bytes) (cells cells' : List (Bytes × ℕ))
    → lookup key cells ≡ lookup key cells'
    → find_client key cells ≡ find_client key cells'
unfolding find_client
find_client-eq key cells cells' same =
    ap (λ c. elim c as (λ _. ℕ) [ none ↦ 0 | some cell ↦ cell ]) same

window-IsKeyed :
    (id : ℕ) (setting : FixedWindowSetting) (key_func : KeyFunc)
    → 0 < setting.window_seconds
    → IsKeyed id key_func (fixed_window setting key_func) (λ w. find_client) (window_reply setting)
unfolding process_limiter process_window
window-IsKeyed id setting key_func window = record {
  found = λ w. find_client-eq;
  keyed = λ w request key cells s at made.
      rw (at, process_limiter)
        (rw (made, process_window)
          (serve_window_lem id setting key_func w key cells request s window));
  unkeyed =
      λ w request x cells s at thrown. rw (at, process_limiter) (rw (thrown, process_window) refl);
}

abbrev told_by_bucket : TokenBucketSetting → World → ℕ → Bucket.Verdict → Answer
told_by_bucket setting w old (Bucket.refused wait) = (too_many wait, default_response)
told_by_bucket setting w old (Bucket.admitted tokens) = (
  returns tt,
  bucket_headers setting w.epoch tokens (wait_after (w.steady % 2 ^ 32) old) default_response,
)
told_by_bucket setting w old Bucket.spinning = (returns tt, default_response)

abbrev bucket_reply : TokenBucketSetting → World → ℕ → Answer × ℕ
bucket_reply setting w old =
    let served = bucket_serve setting (w.steady % 2 ^ 32) old in
    (told_by_bucket setting w old served.verdict, served.cell)

abbrev find_word : TokenBucketSetting → World → Bytes → List (Bytes × ℕ) → ℕ
find_word setting w key buckets = find_bucket setting w.steady key buckets

serve_bucket_lem :
    (id : ℕ) (setting : TokenBucketSetting) (key_func : KeyFunc) (w : World) (key : Bytes)
    (cells : List (Bytes × ℕ)) (request : Request) (s : State)
    → serve_bucket w id setting key_func cells key done (arrive request s)
      ≡ finished (bucket_reply setting w (find_word setting w key cells)).0.0 (
          set_response (bucket_reply setting w (find_word setting w key cells)).0.1 (
            set_limiter id
              (token_bucket setting key_func
                (insert key (bucket_reply setting w (find_word setting w key cells)).1 cells))
              (arrive request s)))
unfolding serve_bucket set_limiter set_response
serve_bucket_lem id setting key_func w key cells request s =
    elim (bucket_serve-stops setting (w.steady % 2 ^ 32) (find_bucket setting w.steady key cells) _
      refl) [
        | inl (n, let_through) ↦ rw (let_through, serve_bucket) refl
        | inr (n, stopped) ↦ rw (stopped, serve_bucket) refl
      ]

find_bucket-eq :
    (setting : TokenBucketSetting) (now : ℕ) (key : Bytes) (cells cells' : List (Bytes × ℕ))
    → lookup key cells ≡ lookup key cells'
    → find_bucket setting now key cells ≡ find_bucket setting now key cells'
unfolding find_bucket
find_bucket-eq setting now key cells cells' same =
    ap (λ c. elim c as (λ _. ℕ) [ none ↦ new_bucket setting now | some cell ↦ cell ]) same

bucket-IsKeyed :
    (id : ℕ) (setting : TokenBucketSetting) (key_func : KeyFunc)
    → IsKeyed id key_func (token_bucket setting key_func) (find_word setting) (bucket_reply setting)
unfolding process_limiter process_bucket
bucket-IsKeyed id setting key_func = record {
  found = λ w. find_bucket-eq setting w.steady;
  keyed = λ w request key cells s at made.
      rw (at, process_limiter)
        (rw (made, process_bucket) (serve_bucket_lem id setting key_func w key cells request s));
  unkeyed =
      λ w request x cells s at thrown. rw (at, process_limiter) (rw (thrown, process_bucket) refl);
}

-- Clients do not share a limit: at a limiter of either kind whose window is not empty, what the
-- requests of one key are told, each with its headers, is the same among requests of other keys,
-- and of requests that have none, as when they come alone, each at its own time.
pub answers-visits_of :
    (id : ℕ) (l : Limiter) (k : Bytes) (visits : List Visit) (s : State)
    → lookup id s.limiters ≡ some l
    → HasWindow l
    → answers id (is_client (key_func_of l) k) visits s
      ≡ answers id (is_client (key_func_of l) k) (visits_of (is_client (key_func_of l) k) visits) s
answers-visits_of id (fixed_window setting key_func clients) k visits s at window =
    answers-mine id key_func (fixed_window setting key_func) (λ w. find_client)
      (window_reply setting) (window-IsKeyed id setting key_func window) k visits clients clients s
      s at at refl
answers-visits_of id (token_bucket setting key_func buckets) k visits s at window =
    answers-mine id key_func (token_bucket setting key_func) (find_word setting)
      (bucket_reply setting) (bucket-IsKeyed id setting key_func) k visits buckets buckets s s at at
      refl
