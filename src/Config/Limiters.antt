-- ===== src/Config/Limiters.antt =====
-- src/config.cpp: the rate limiters that the configuration sets, and the pipeline that it loads.
-- No result: undefined behaviour. The seconds of a window overflow an `int`, or the warning of an
-- algorithm that is not supported is formatted.
pub mod Order
use cgi_web_server.Base.Int.{ℤ, pos}
use cgi_web_server.Base.{
  ℕ, ◌||◌, Bool, true, false, Option, none, some, List, [], ◌∷◌, if◌then◌else◌,
}
use cgi_web_server.Config.Keys.{KeyFunc, by_ip, get_key_func}
use cgi_web_server.Config.Times.{get_seconds_from_time_str, load_int, load_refill_rate}
use cgi_web_server.Config.Xml.{Xml, first_child, or_empty}
use cgi_web_server.Limit.Bucket.{TokenBucketSetting}
use cgi_web_server.Limit.Window.{FixedWindowSetting, default_window}
use cgi_web_server.Pipeline.Stages.{Middleware, load_pipeline}
use cgi_web_server.Pipeline.{Limiter, fixed_window, token_bucket}
use cgi_web_server.Text.{Bytes, codes, equal, is_empty}

abbrev pub default_max_requests : ℤ
default_max_requests = pos 3000

abbrev pub default_token_capacity : ℤ
default_token_capacity = pos 60

-- `FixedWindowLimiter(FixedWindowSetting())`
abbrev pub default_limiter : Limiter
default_limiter = fixed_window default_window by_ip []

abbrev pub is_disabled : Option Bytes → Bool
is_disabled none = false
is_disabled (some disable) = equal disable (codes "true")

module _ (x : Xml) where
  -- A limiter that no request has met, and `uses_ip`.
  unfoldable pub load_token_bucket : x.Element → Limiter × Bool
  unfolding load_int load_refill_rate get_key_func
  load_token_bucket algo_elem =
      let setting : TokenBucketSetting = record {
        capacity = load_int (x.attribute algo_elem (codes "capacity")) default_token_capacity;
        refill_rate = load_refill_rate (x.attribute algo_elem (codes "refill_rate"));
      } in
      let (make_key, uses_ip) = get_key_func x algo_elem in
      (token_bucket setting make_key [], uses_ip)

  unfoldable pub load_fixed_window : x.Element → Option (Limiter × Bool)
  unfolding load_int get_seconds_from_time_str get_key_func
  load_fixed_window algo_elem =
      let (make_key, uses_ip) = get_key_func x algo_elem in
      elim (get_seconds_from_time_str (x.attribute algo_elem (codes "window"))) [
        | none ↦ none
        | some window_seconds ↦
            let setting : FixedWindowSetting = record {
              window_seconds = window_seconds;
              max_requests =
                  load_int (x.attribute algo_elem (codes "max_requests")) default_max_requests;
            } in
            some (fixed_window setting make_key [], uses_ip)
      ]

  -- No result for an algorithm that is not supported: the warning formats an `int` by `%s`, which
  -- is undefined.
  unfoldable pub load_limiter : x.Element → Option (Limiter × Bool)
  unfolding load_token_bucket load_fixed_window
  load_limiter algo_elem =
      let algo = or_empty (x.attribute algo_elem (codes "algorithm")) in
      if is_empty algo
      then load_fixed_window algo_elem
      else if equal algo (codes "fixed window") || equal algo (codes "fixed_window")
      then load_fixed_window algo_elem
      else if equal algo (codes "token bucket") || equal algo (codes "token_bucket")
      then some (load_token_bucket algo_elem)
      else none

  -- `config` is the `ServerConfig` element; no limiter where it is disabled. A limiter by default
  -- leaves `uses_ip` as it was, which is true.
  unfoldable pub load_global_rate_limit : x.Element → Option (Option Limiter × Bool)
  unfolding load_limiter first_child
  load_global_rate_limit config = elim (first_child x config (codes "Global")) [
    | none ↦ some (some default_limiter, true)
    | some global_elem ↦ elim (first_child x global_elem (codes "RateLimit")) [
      | none ↦ some (some default_limiter, true)
      | some rate_elem ↦ elim (is_disabled (x.attribute rate_elem (codes "disable"))) [
        | true ↦ some (none, true)
        | false ↦ elim (load_limiter rate_elem) [
          | none ↦ none
          | some (limiter, uses_ip) ↦ some (some limiter, uses_ip)
        ]
      ]
    ]
  ]

  -- The pipeline, and the limiters with the global one under the number `id`.
  unfoldable pub load_global_pipeline :
      ℕ → x.Element → List (ℕ × Limiter) → Option (List Middleware × List (ℕ × Limiter))
  unfolding load_global_rate_limit load_pipeline
  load_global_pipeline id config limiters = elim (load_global_rate_limit config) [
    | none ↦ none
    | some (none, uses_ip) ↦ some (load_pipeline none uses_ip, limiters)
    | some (some limiter, uses_ip) ↦
        some (load_pipeline (some id) uses_ip, (id, limiter) ∷ limiters)
  ]
