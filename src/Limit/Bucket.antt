-- ===== src/Limit/Bucket.antt =====
-- src/Middleware.cpp: `TokenBucketLimiter`. A cell is the 64-bit word of one client: its tokens in
-- the upper half, the second of the last refill in the lower half.
pub mod Tokens
pub mod Atomic
pub mod Threads
use cgi_web_server.Base.Int.{ℤ, pos, to_u32, to_u64}
use cgi_web_server.Base.{
  ◌≡◌, refl, ◌⊎◌, arith, ◌<◌, inl, inr, ℕ, ◌+◌, ◌-◌, ◌*◌, ◌/◌, ◌%◌, ◌^◌, Bool, true, false, List,
  [], ◌∷◌, ltb, ◌==◌, if◌then◌else◌,
}
use cgi_web_server.Limit.Window.{pack}

-- `cfg::TokenBucketSetting`, without the key function.
pub record TokenBucketSetting : Type 0 where
  pub capacity : ℤ
  pub refill_rate : ℤ

abbrev pub default_bucket : TokenBucketSetting
default_bucket = record { capacity = pos 60; refill_rate = pos 2 }

abbrev pub tokens_of : ℕ → ℕ
tokens_of cell = cell / 2 ^ 32

abbrev pub refill_of : ℕ → ℕ
refill_of cell = cell % 2 ^ 32

-- The word of a new bucket; `std::uint64_t(capacity) << 32` keeps the lower half of the capacity.
unfoldable pub new_bucket : TokenBucketSetting → ℕ → ℕ
new_bucket s now = pack (to_u32 s.capacity) (now % 2 ^ 32)

-- The seconds since the last refill.
unfoldable pub elapsed : ℕ → ℕ → ℕ
elapsed secs old = if ltb (refill_of old) secs then secs - refill_of old else 0

-- The tokens after the refill: a 32-bit sum, cut to the capacity.
unfoldable pub new_tokens : TokenBucketSetting → ℕ → ℕ → ℕ
new_tokens s secs old =
    let sum = (tokens_of old + (to_u32 s.refill_rate * elapsed secs old) % 2 ^ 32) % 2 ^ 32 in
    if ltb (to_u64 s.capacity) sum then to_u64 s.capacity else sum

unfoldable pub new_refill : ℕ → ℕ → ℕ
new_refill secs old = if ltb 0 (elapsed secs old) then secs else refill_of old

-- `new_refill + 1 > secs ? new_refill + 1 - secs : 0`
unfoldable pub wait_after : ℕ → ℕ → ℕ
wait_after secs old =
    let next = (new_refill secs old + 1) % 2 ^ 32 in if ltb secs next then next - secs else 0

-- What one round of the loop decides.
pub data Round : Type 0 where
  store : ℕ → Round
  refuse : ℕ → Round

pub Round-cases : (r : Round) → ((wait : ℕ) × (r ≡ refuse wait)) ⊎ ((d : ℕ) × (r ≡ store d))
Round-cases (refuse wait) = inl (wait, refl)
Round-cases (store d) = inr (d, refl)

-- One round on the word `old`, at the second `secs`, a 32-bit number.
unfoldable pub bucket_round : TokenBucketSetting → ℕ → ℕ → Round
bucket_round s secs old =
    if ltb (new_tokens s secs old) 1
    then refuse (wait_after secs old)
    else store (pack (new_tokens s secs old - 1) (new_refill secs old))

-- How a request leaves the loop: let through with the tokens that are left, refused with the
-- seconds to wait, or still exchanging when the attempts are spent.
pub data Verdict : Type 0 where
  admitted : ℕ → Verdict
  refused : ℕ → Verdict
  spinning : Verdict

pub Verdict-cases :
    (v : Verdict) → ((n : ℕ) × (v ≡ admitted n)) ⊎ (((n : ℕ) × (v ≡ refused n)) ⊎ (v ≡ spinning))
Verdict-cases (admitted n) = inl (n, refl)
Verdict-cases (refused n) = inr (inl (n, refl))
Verdict-cases spinning = inr (inr refl)

pub record Served : Type 0 where
  pub verdict : Verdict
  pub cell : ℕ

-- One attempt of `compare_exchange_weak`: what other threads have put into the cell by then, and
-- whether the exchange fails for no reason.
pub record Attempt : Type 0 where
  pub present : ℕ
  pub spurious : Bool

-- `do { … } while(!compare_exchange_weak(old, desired))`, over the attempts that it makes. A
-- failed exchange loads the cell anew. The result's cell is that after the last attempt made;
-- `cell` is the one before it.
unfoldable pub bucket_loop : TokenBucketSetting → ℕ → ℕ → ℕ → List Attempt → Served
bucket_loop s secs old cell [] = elim (bucket_round s secs old) [
  | refuse wait ↦ record { verdict = refused wait; cell = cell }
  | store desired ↦ record { verdict = spinning; cell = cell }
]
bucket_loop s secs old cell (a ∷ rest) = elim (bucket_round s secs old) [
  | refuse wait ↦ record { verdict = refused wait; cell = cell }
  | store desired ↦ elim (a.spurious) [
    | true ↦ bucket_loop s secs a.present a.present rest
    | false ↦ elim (a.present == old) [
      | true ↦ record { verdict = admitted (desired / 2 ^ 32); cell = desired }
      | false ↦ bucket_loop s secs a.present a.present rest
    ]
  ]
]

-- A request alone: the load, and an exchange that meets the word that was loaded.
unfoldable pub bucket_serve : TokenBucketSetting → ℕ → ℕ → Served
bucket_serve s secs cell =
    bucket_loop s secs cell cell (record { present = cell; spurious = false } ∷ [])

-- A request alone is let through or refused.
pub bucket_serve-stops :
    (s : TokenBucketSetting) (secs cell : ℕ) (v : Verdict)
    → (bucket_serve s secs cell).verdict ≡ v
    → ((n : ℕ) × (v ≡ admitted n)) ⊎ ((n : ℕ) × (v ≡ refused n))
unfolding bucket_serve bucket_loop
bucket_serve-stops s secs cell (admitted n) e = inl (n, refl)
bucket_serve-stops s secs cell (refused n) e = inr (n, refl)
bucket_serve-stops s secs cell _ e = absurd (ground (arith, e))
