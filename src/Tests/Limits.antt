-- ===== src/Tests/Limits.antt =====
-- Examples for the rate limiters.
use cgi_web_server.Base.Int.{pos}
use cgi_web_server.Base.{
  ℕ, ◌≡◌, ◌≢◌, ◌≤◌, ◌+◌, ◌-◌, ◌*◌, ◌^◌, refl, arith, List, [], ◌∷◌, min, length, map, All, Bool,
  true, false,
}
use cgi_web_server.Limit.Bucket
use cgi_web_server.Limit.Bucket.Atomic.{EndsOn, AtOnce, bucket_loop-Atomic}
use cgi_web_server.Limit.Bucket.Threads.Paid.{all_passed, run_schedule-paid}
use cgi_web_server.Limit.Bucket.Threads.{Thread, arriving, access}
use cgi_web_server.Limit.Schedule.{run_schedule}
use cgi_web_server.Limit.Bucket.Tokens
use cgi_web_server.Limit.Bucket.Tokens.{IsBucket, counts, bucket_serve_exact, bucket_serve_wraps}
use cgi_web_server.Limit.Bucket.{
  TokenBucketSetting, default_bucket, tokens_of, refill_of, elapsed, new_tokens, bucket_serve,
  bucket_loop, bucket_round, new_refill, wait_after, Attempt,
}
use cgi_web_server.Limit.Window.Counting
use cgi_web_server.Limit.Window.Counting.{used, serve_all_lem}
use cgi_web_server.Limit.Window.Race.{race, race_lem}
use cgi_web_server.Limit.Window.Threads
use cgi_web_server.Limit.Window.Threads.Counted.{IsFair, run_schedule-counts}
use cgi_web_server.Limit.Window.Threads.Ends.{is_over_at, run_schedule-is_over}
use cgi_web_server.Limit.Window.Threads.{incoming, advance}
use cgi_web_server.Limit.Window.{default_window, window_id, window_round, pack}

default_bucket-IsSetting : Tokens.IsSetting default_bucket 60 2
default_bucket-IsSetting = record {
  capacity = refl;
  capacity_fits = ground arith;
  rate = refl;
  rate_fits = ground arith;
}

-- 5 tokens at the second 100
abbrev five : ℕ
five = 5 * 2 ^ 32 + 100

five-IsBucket : IsBucket 60 five
five-IsBucket = record { within = ground arith; halves = ground arith }

-- Two requests that have loaded the same word; the second one's exchange comes first.
abbrev schedule : List (ℕ × Bool)
schedule = (0, false) ∷ (1, false) ∷ (1, false) ∷ (0, true) ∷ (0, false) ∷ []

abbrev threads : List Thread
threads = arriving 100 ∷ arriving 101 ∷ []

both_pass : all_passed (run_schedule (access default_bucket) schedule threads five).0 ≡ 2
unfolding run_schedule access bucket_round new_tokens elapsed new_refill
both_pass = refl

run_schedule-paid_example :
    (all_passed (run_schedule (access default_bucket) schedule threads five).0
      ≤ all_passed threads + tokens_of five + 2 * (101 - refill_of five))
    × (tokens_of (run_schedule (access default_bucket) schedule threads five).1 ≤ 60)
run_schedule-paid_example =
    run_schedule-paid default_bucket 60 2 101 default_bucket-IsSetting (ground arith) schedule
      threads five (ground arith, (ground arith, tt)) five-IsBucket (ground arith)

-- a rate of 2 ^ 31 tokens each second
abbrev fast : TokenBucketSetting
fast = record { capacity = pos 60; refill_rate = pos (2 ^ 31) }

bucket_serve_wraps_example :
    bucket_serve fast 102 100 ≡ record { verdict = Bucket.refused (wait_after 102 100); cell = 100 }
unfolding elapsed
bucket_serve_wraps_example =
    bucket_serve_wraps fast (2 ^ 31) 102 100 refl (ground arith) (ground arith) (ground arith)

-- Another thread has taken a token before the first exchange.
abbrev attempts : List Attempt
attempts =
    record { present = 4 * 2 ^ 32 + 100; spurious = false }
    ∷ record { present = 4 * 2 ^ 32 + 100; spurious = false }
    ∷ []

ends : (bucket_loop default_bucket 100 five five attempts).verdict ≢ Bucket.spinning
unfolding bucket_loop bucket_round new_tokens elapsed new_refill
ends = λ e. ground arith

bucket_loop-Atomic_example :
    (p : ℕ) × EndsOn default_bucket 100 p five attempts
    × AtOnce default_bucket 100 p (bucket_loop default_bucket 100 five five attempts)
bucket_loop-Atomic_example = bucket_loop-Atomic default_bucket 100 (ground arith) five attempts ends

default_window-IsSetting : Counting.IsSetting default_window 3000
default_window-IsSetting = record {
  limit = refl;
  limit_pos = ground arith;
  limit_fits = ground arith;
  window_pos = ground arith;
}

serve_all_lem_example :
    (Counting.serve_all default_window (61 ∷ 70 ∷ 119 ∷ []) 0).0
    ≡ min (length {A = ℕ} (61 ∷ 70 ∷ 119 ∷ [])) (3000 - used default_window 60 0)
unfolding window_id
serve_all_lem_example =
    serve_all_lem default_window 3000 60 (61 ∷ 70 ∷ 119 ∷ []) 0 default_window-IsSetting
      (refl, (refl, (refl, tt)))

race_lem_example :
    race default_window 60 0 3 0
    ≡ (3, pack (window_id default_window 60) (used default_window 60 0 + 1))
unfolding used window_id
race_lem_example = race_lem default_window 3000 60 0 default_window-IsSetting (ground arith) 2

-- Both load the empty cell; the first one counts its request and comes twice more.
abbrev rounds : List (ℕ × Bool)
rounds = (0, false) ∷ (1, false) ∷ (0, false) ∷ (0, false) ∷ (1, false) ∷ []

one_counted :
    (run_schedule (advance default_window) rounds (map incoming (60 ∷ 61 ∷ [])) 0)
    ≡ (Threads.let_pass (pack 1 1) ∷ Threads.let_pass (pack 1 1) ∷ [], pack 1 1)
unfolding run_schedule advance window_round window_id
one_counted = refl

run_schedule-counts_example :
    (used default_window 60 0
      ≤ used default_window 60
          (run_schedule (advance default_window) rounds (map incoming (60 ∷ 61 ∷ [])) 0).1)
    × (used default_window 60
          (run_schedule (advance default_window) rounds (map incoming (60 ∷ 61 ∷ [])) 0).1
        ≤ 3000)
    × (used default_window 60
          (run_schedule (advance default_window) rounds (map incoming (60 ∷ 61 ∷ [])) 0).1
        ≤ used default_window 60 0 + 2)
    × All
        (IsFair default_window 3000 60 default_window-IsSetting
          (run_schedule (advance default_window) rounds (map incoming (60 ∷ 61 ∷ [])) 0).1)
        (run_schedule (advance default_window) rounds (map incoming (60 ∷ 61 ∷ [])) 0).0
unfolding window_id used
run_schedule-counts_example =
    run_schedule-counts default_window 3000 60 default_window-IsSetting rounds (60 ∷ 61 ∷ []) 0
      (refl, (refl, tt)) (ground arith)

run_schedule-is_over_example :
    is_over_at 0 (run_schedule (advance default_window) rounds (map incoming (60 ∷ 61 ∷ [])) 0).0
    ≡ true
unfolding window_id used
run_schedule-is_over_example =
    run_schedule-is_over default_window 3000 60 default_window-IsSetting rounds (60 ∷ 61 ∷ []) 0 0
      (refl, (refl, tt)) (ground arith) (ground arith) (ground arith)
