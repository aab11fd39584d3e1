-- ===== src/Pipeline/Ready/Limiters.antt =====
-- src/Middleware.cpp: a limiter with a window decides every request, and is still there after it.
use cgi_web_server.Base.Assoc.{insert, lookup-insert}
use cgi_web_server.Base.{
  ℕ, ◌%◌, ◌^◌, ◌<◌, ◌≡◌, refl, sym, subst, ◌∙◌, inl, inr, arith, ◌==◌, Bool-cases, Option, some,
  Option-cases, List,
}
use cgi_web_server.Http.Response.{returns, throws, Result-cases}
use cgi_web_server.Limit.Bucket.{TokenBucketSetting, bucket_serve, bucket_serve-stops}
use cgi_web_server.Pipeline.Keys.{make_key}
use cgi_web_server.Config.Keys.{KeyFunc}
use cgi_web_server.Pipeline.Limiting.{
  find_client, find_bucket, set_limiter, serve_window, serve_bucket, process_window, process_bucket,
  process_limiter, rate_limit,
}
use cgi_web_server.Pipeline.Ready.{HasWindow, IsLimiter, IsLimited, IsReady}
use cgi_web_server.Pipeline.{
  nat_keys, State, Run, finished, crashed, Action, Limiter, fixed_window, token_bucket, World,
  set_response,
}
use cgi_web_server.Router.{Endpoint, EndpointMethod, Router}
use cgi_web_server.Text.{Bytes, bytes_keys}
use cgi_web_server.Limit.Window.{FixedWindowSetting, window_serve, window_serve-stops}

abbrev pub IsReadyState : Option ℕ → State → Type 0
IsReadyState global s = IsReady global s.router s.limiters

-- A run that the error handler can go on from, in a state that is ready for more requests: it
-- throws, or it leaves a request with an endpoint.
abbrev pub IsReadyRun : Option ℕ → Run → Type 0
IsReadyRun global crashed = ⊥
IsReadyRun global (finished (throws x) s) = IsReadyState global s
IsReadyRun global (finished (returns u) s) =
    ((e : Endpoint) × (s.txn.request.endpoint ≡ some e)) × IsReadyState global s

abbrev pub IsKept : List (ℕ × Limiter) → List (ℕ × Limiter) → Type 0
IsKept old limiters = (id : ℕ) → IsLimiter old id → IsLimiter limiters id

-- What follows is served from every state that has the request and, with other words, the
-- limiters of a state.
abbrev pub IsServing : Option ℕ → Action → State → Type 0
IsServing global next s0 =
    (s : State)
    → s.txn.request ≡ s0.txn.request
    → IsKept s0.limiters s.limiters
    → IsReadyState global s
    → IsReadyRun global (next s)

insert-IsKept :
    (limiters : List (ℕ × Limiter)) (id : ℕ) (l : Limiter) → IsKept limiters (insert id l limiters)
insert-IsKept limiters id l j (old, at) = elim (Bool-cases (id == j)) [
  | inl same ↦ (l, rw (lookup-insert id j l limiters, same) refl)
  | inr other ↦ (old, rw (lookup-insert id j l limiters, other) at)
]

insert-IsReady :
    (global : Option ℕ) (r : Router) (limiters : List (ℕ × Limiter)) (id : ℕ) (l : Limiter)
    → HasWindow l
    → IsReady global r limiters
    → IsReady global r (insert id l limiters)
insert-IsReady global r limiters id l window ready = record {
  windows = λ j k at. elim (Bool-cases (id == j)) [
    | inl same ↦
        let own : some l ≡ some k = sym (rw (lookup-insert id j l limiters, same) refl) ∙ at in
        subst HasWindow (ground (arith, own)) window
    | inr other ↦ ready.windows j k (rw (lookup-insert id j l limiters, other) at at)
  ];
  global_there = λ j at. insert-IsKept limiters id l j (ready.global_there j at);
  routes =
      λ url m e at j limited. insert-IsKept limiters id l j (ready.routes url m e at j limited);
}

module _ (global : Option ℕ) (w : World) (id : ℕ) (next : Action) (s : State) where
  serve_window-IsReadyRun :
      (setting : FixedWindowSetting) (key_func : KeyFunc) (clients : List (Bytes × ℕ)) (key : Bytes)
      → 0 < setting.window_seconds
      → IsServing global next s
      → IsReadyState global s
      → IsReadyRun global (serve_window w id setting key_func clients key next s)
  unfolding serve_window set_response set_limiter
  serve_window-IsReadyRun setting key_func clients key window serving ready =
      let old = find_client key clients in
      let cell = (window_serve setting w.steady old).cell in
      let counted =
        insert-IsReady global s.router s.limiters id
          (fixed_window setting key_func (insert key cell clients)) window ready in
      elim (window_serve-stops setting w.steady old _ window refl) [
        | inl (n, let_through) ↦
            rw (let_through, serve_window) (serving _ refl (insert-IsKept s.limiters id _) counted)
        | inr (n, stopped) ↦ rw (stopped, serve_window) counted
      ]

  serve_bucket-IsReadyRun :
      (setting : TokenBucketSetting) (key_func : KeyFunc) (buckets : List (Bytes × ℕ)) (key : Bytes)
      → IsServing global next s
      → IsReadyState global s
      → IsReadyRun global (serve_bucket w id setting key_func buckets key next s)
  unfolding serve_bucket set_response set_limiter
  serve_bucket-IsReadyRun setting key_func buckets key serving ready =
      let secs = w.steady % 2 ^ 32 in
      let old = find_bucket setting w.steady key buckets in
      let cell = (bucket_serve setting secs old).cell in
      let counted =
        insert-IsReady global s.router s.limiters id
          (token_bucket setting key_func (insert key cell buckets)) tt ready in
      elim (bucket_serve-stops setting secs old _ refl) [
        | inl (n, let_through) ↦
            rw (let_through, serve_bucket) (serving _ refl (insert-IsKept s.limiters id _) counted)
        | inr (n, stopped) ↦ rw (stopped, serve_bucket) counted
      ]

  process_window-IsReadyRun :
      (setting : FixedWindowSetting) (key_func : KeyFunc) (clients : List (Bytes × ℕ))
      → 0 < setting.window_seconds
      → IsServing global next s
      → IsReadyState global s
      → IsReadyRun global (process_window w id setting key_func clients next s)
  unfolding process_window
  process_window-IsReadyRun setting key_func clients window serving ready =
      elim (Result-cases (make_key key_func w.client_ip s.txn.request)) [
        | inr (x, thrown) ↦ rw (thrown, process_window) ready
        | inl (key, keyed) ↦
            rw (keyed, process_window)
              (serve_window-IsReadyRun setting key_func clients key window serving ready)
      ]

  process_bucket-IsReadyRun :
      (setting : TokenBucketSetting) (key_func : KeyFunc) (buckets : List (Bytes × ℕ))
      → IsServing global next s
      → IsReadyState global s
      → IsReadyRun global (process_bucket w id setting key_func buckets next s)
  unfolding process_bucket
  process_bucket-IsReadyRun setting key_func buckets serving ready =
      elim (Result-cases (make_key key_func w.client_ip s.txn.request)) [
        | inr (x, thrown) ↦ rw (thrown, process_bucket) ready
        | inl (key, keyed) ↦
            rw (keyed, process_bucket)
              (serve_bucket-IsReadyRun setting key_func buckets key serving ready)
      ]

  pub process_limiter-IsReadyRun :
      IsLimiter s.limiters id
      → IsServing global next s
      → IsReadyState global s
      → IsReadyRun global (process_limiter w id next s)
  unfolding process_limiter
  process_limiter-IsReadyRun (fixed_window setting key_func clients, at) serving ready =
      rw (at, process_limiter)
        (process_window-IsReadyRun setting key_func clients (ready.windows id _ at) serving ready)
  process_limiter-IsReadyRun (token_bucket setting key_func buckets, at) serving ready =
      rw (at, process_limiter) (process_bucket-IsReadyRun setting key_func buckets serving ready)

pub rate_limit-IsReadyRun :
    (global : Option ℕ) (w : World) (next : Action) (s : State) (m : EndpointMethod)
    → s.txn.request.route ≡ some m
    → IsLimited s.limiters m
    → IsServing global next s
    → IsReadyState global s
    → IsReadyRun global (rate_limit w next s)
unfolding rate_limit
rate_limit-IsReadyRun global w next s m routed limited serving ready =
    elim (Option-cases m.rate_limiter) [
      | inl free ↦ rw (routed, rate_limit, free) (serving s refl (λ id there. there) ready)
      | inr (id, has) ↦
          rw (routed, rate_limit, has)
            (process_limiter-IsReadyRun global w id next s (limited id has) serving ready)
    ]
