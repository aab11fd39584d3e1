-- ===== src/Config/Limiters/Order.antt =====
-- src/config.cpp: where the global limiter stands in the pipeline, and what its keys need.
use cgi_web_server.Base.{
  ℕ, ◌||◌, ◌≡◌, ◌≢◌, ◌⊎◌, refl, ◌∙◌, inl, inr, arith, Bool, true, false, Bool-cases, Option, none,
  some, Option-cases, List, ◌∷◌, map,
}
use cgi_web_server.Config.Keys.{KeyFunc, by_ip, ip_fallback, key_func_of, get_key_func}
use cgi_web_server.Config.Limiters.{
  is_disabled, load_token_bucket, load_fixed_window, load_limiter, load_global_rate_limit,
  load_global_pipeline,
}
use cgi_web_server.Config.Times.{get_seconds_from_time_str}
use cgi_web_server.Config.Xml.{Xml, first_child, or_empty}
use cgi_web_server.Http.Response.{returns}
use cgi_web_server.Pipeline.Keys.{make_key}
use cgi_web_server.Pipeline.Stages.{Middleware, load_pipeline}
use cgi_web_server.Pipeline.{Limiter, fixed_window, token_bucket, Request}
use cgi_web_server.Text.{Bytes, codes, equal, is_empty, to_lower}

abbrev pub key_func_of_limiter : Limiter → KeyFunc
key_func_of_limiter (fixed_window setting key_func clients) = key_func
key_func_of_limiter (token_bucket setting key_func buckets) = key_func

-- The limiter's key for any request of a client is the client's address.
abbrev pub IsKeyedByAddress : Limiter → Type 0
IsKeyedByAddress l =
    (ip : Bytes) (request : Request) → make_key (key_func_of_limiter l) ip request ≡ returns ip

-- Whether a key function reads the address of the client and nothing else.
abbrev pub is_by_ip : KeyFunc → Bool
is_by_ip by_ip = true
is_by_ip _ = false

by_ip-IsKeyedByAddress :
    (l : Limiter) → is_by_ip (key_func_of_limiter l) ≡ true → IsKeyedByAddress l
unfolding make_key
by_ip-IsKeyedByAddress (fixed_window setting by_ip clients) h ip request = refl
by_ip-IsKeyedByAddress (token_bucket setting by_ip buckets) h ip request = refl
by_ip-IsKeyedByAddress _ h ip request = absurd (ground (arith, h))

key_func_of-uses_ip :
    (key_type : Bytes) (name : Option Bytes) (fallback : Bool)
    → is_by_ip (key_func_of key_type name fallback).0 ≡ (key_func_of key_type name fallback).1
unfolding key_func_of
key_func_of-uses_ip key_type name fallback = ground arith

module _ (x : Xml) where
  get_key_func-uses_ip : (el : x.Element) → is_by_ip (get_key_func x el).0 ≡ (get_key_func x el).1
  unfolding get_key_func
  get_key_func-uses_ip el = elim (Option-cases (first_child x el (codes "Key"))) [
    | inl missing ↦ rw (missing, get_key_func) refl
    | inr (key, found) ↦
        rw (found, get_key_func)
          (elim (Bool-cases (is_empty (or_empty (x.attribute key (codes "type"))))) [
            | inl untyped ↦ rw untyped refl
            | inr typed ↦ rw typed (
                key_func_of-uses_ip (map to_lower (or_empty (x.attribute key (codes "type"))))
                  (x.attribute key (codes "name"))
                  (ip_fallback (x.attribute key (codes "fallback"))))
          ])
  ]

  load_fixed_window-uses_ip :
      (el : x.Element) (l : Limiter) (uses_ip : Bool)
      → load_fixed_window x el ≡ some (l, uses_ip)
      → is_by_ip (key_func_of_limiter l) ≡ uses_ip
  unfolding load_fixed_window
  load_fixed_window-uses_ip el l uses_ip h =
      elim (Option-cases (get_seconds_from_time_str (x.attribute el (codes "window")))) [
        | inl overflow ↦ absurd (ground (arith, rw (overflow, load_fixed_window) at h))
        | inr (seconds, found) ↦
            let e = rw (found, load_fixed_window) at h in ground (arith, e, get_key_func-uses_ip el)
      ]

  load_limiter-uses_ip :
      (el : x.Element) (l : Limiter) (uses_ip : Bool)
      → load_limiter x el ≡ some (l, uses_ip)
      → is_by_ip (key_func_of_limiter l) ≡ uses_ip
  unfolding load_limiter load_token_bucket
  load_limiter-uses_ip el l uses_ip h =
      let algo = or_empty (x.attribute el (codes "algorithm")) in
      elim (Bool-cases (is_empty algo)) [
        | inl unnamed ↦ load_fixed_window-uses_ip el l uses_ip (rw (unnamed, load_limiter) at h)
        | inr named ↦
            elim (Bool-cases
              (equal algo (codes "fixed window") || equal algo (codes "fixed_window"))) [
                | inl fixed ↦
                    load_fixed_window-uses_ip el l uses_ip (rw (named, fixed, load_limiter) at h)
                | inr other ↦
                    elim (Bool-cases
                      (equal algo (codes "token bucket") || equal algo (codes "token_bucket"))) [
                        | inl bucket ↦
                            let e = rw (named, other, bucket, load_limiter) at h in
                            ground (arith, e, get_key_func-uses_ip el)
                        | inr unknown ↦
                            let e = rw (named, other, unknown, load_limiter) at h in
                            absurd (ground (arith, e))
                      ]
              ]
      ]

  load_global_rate_limit-uses_ip :
      (config : x.Element) (l : Limiter) (uses_ip : Bool)
      → load_global_rate_limit x config ≡ some (some l, uses_ip)
      → is_by_ip (key_func_of_limiter l) ≡ uses_ip
  unfolding load_global_rate_limit
  load_global_rate_limit-uses_ip config l uses_ip h =
      elim (Option-cases (first_child x config (codes "Global"))) [
        | inl missing ↦ ground (arith, rw (missing, load_global_rate_limit) at h)
        | inr (global, found) ↦ elim (Option-cases (first_child x global (codes "RateLimit"))) [
          | inl missing ↦ ground (arith, rw (found, missing, load_global_rate_limit) at h)
          | inr (rate, limited) ↦
              let e = rw (found, limited, load_global_rate_limit) at h in
              elim (Bool-cases (is_disabled (x.attribute rate (codes "disable")))) [
                | inl disabled ↦ absurd (ground (arith, rw disabled at e))
                | inr enabled ↦ elim (Option-cases (load_limiter x rate)) [
                  | inl overflow ↦ absurd (ground (arith, rw (enabled, overflow) at e))
                  | inr ((l', uses_ip'), loaded) ↦
                      let e' = rw (enabled, loaded) at e in
                      ground (arith, e', load_limiter-uses_ip rate l' uses_ip' loaded)
                ]
              ]
        ]
      ]

pub load_global_pipeline-order :
    (x : Xml) (id : ℕ) (config : x.Element) (old limiters : List (ℕ × Limiter))
    (middlewares : List Middleware)
    → load_global_pipeline x id config old ≡ some (middlewares, limiters)
    → ((limiters ≡ old) × (uses_ip : Bool) × (middlewares ≡ load_pipeline none uses_ip))
      ⊎ ((l : Limiter) × (limiters ≡ (id, l) ∷ old)
          × (((middlewares ≡ load_pipeline (some id) true) × IsKeyedByAddress l)
              ⊎ ((middlewares ≡ load_pipeline (some id) false) × (key_func_of_limiter l ≢ by_ip))))
unfolding load_global_pipeline make_key
load_global_pipeline-order x id config old limiters middlewares h =
    elim (Option-cases (load_global_rate_limit x config)) [
      | inl overflow ↦ absurd (ground (arith, rw (overflow, load_global_pipeline) at h))
      | inr ((none, uses_ip), loaded) ↦
          let e = rw (loaded, load_global_pipeline) at h in
          inl (ground (arith, e), uses_ip, ground (arith, e))
      | inr ((some l, uses_ip), loaded) ↦
          let e = rw (loaded, load_global_pipeline) at h in
          let keyed = load_global_rate_limit-uses_ip x config l uses_ip loaded in
          elim (Bool-cases uses_ip) [
            | inl first ↦ inr (
              l,
              ground (arith, e),
              inl (ground (arith, e, first), by_ip-IsKeyedByAddress l (keyed ∙ first)),
            )
            | inr second ↦ inr (
              l,
              ground (arith, e),
              inr (ground (arith, e, second), λ k. ground (arith, keyed, second, k)),
            )
          ]
    ]
