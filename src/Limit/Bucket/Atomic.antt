-- ===== src/Limit/Bucket/Atomic.antt =====
-- src/Middleware.cpp: the exchange loop of `TokenBucketLimiter` under other threads' writes.
use cgi_web_server.Base.{
  ℕ, ◌+◌, ◌^◌, ◌<◌, ◌≤◌, ◌≡◌, ◌≢◌, refl, sym, subst, arith, List, [], ◌∷◌, true, false, ◌==◌, ltb,
  Bool-cases, inl, inr, ◌⊎◌, ℕ_discrete, dec_lt,
}
use cgi_web_server.Limit.Bucket.{
  TokenBucketSetting, tokens_of, refill_of, new_tokens, new_refill, wait_after, bucket_round,
  spinning, admitted, refused, Served, Attempt, bucket_loop,
}

-- The loop, with the word `old` loaded, ends on the word `p`: the tokens of the word loaded last are
-- spent, or its exchange, the first that does not fail, finds in the cell the word loaded last.
-- Every exchange before has failed, for no reason or for another word in the cell, and has loaded
-- what it met.
pub data EndsOn (s : TokenBucketSetting) (secs p : ℕ) : ℕ → List Attempt → Type 0 where
  refuses :
      {old : ℕ} {attempts : List Attempt}
      → p ≡ old
      → new_tokens s secs old < 1
      → EndsOn s secs p old attempts
  exchanges :
      {old : ℕ} {a : Attempt} {rest : List Attempt}
      → p ≡ old
      → 1 ≤ new_tokens s secs old
      → a.spurious ≡ false
      → a.present ≡ old
      → EndsOn s secs p old (a ∷ rest)
  loads :
      {old : ℕ} {a : Attempt} {rest : List Attempt}
      → 1 ≤ new_tokens s secs old
      → (a.spurious ≡ true) ⊎ (a.present ≢ old)
      → EndsOn s secs p a.present rest
      → EndsOn s secs p old (a ∷ rest)

-- What a request makes of the word `p` at one stroke: with no token it is refused and changes
-- nothing, and otherwise it takes one token of those that are there after the refill.
abbrev pub AtOnce : TokenBucketSetting → ℕ → ℕ → Served → Type 0
AtOnce s secs p served =
    ((new_tokens s secs p < 1)
      × (served ≡ record { verdict = refused (wait_after secs p); cell = p }))
    ⊎ ((served.verdict ≡ admitted (tokens_of served.cell))
        × (tokens_of served.cell + 1 ≡ new_tokens s secs p)
        × (refill_of served.cell ≡ new_refill secs p))

module _ (s : TokenBucketSetting) (secs : ℕ) (fits : secs < 2 ^ 32) where
  new_refill-fits : (old : ℕ) → new_refill secs old < 2 ^ 32
  unfolding new_refill
  new_refill-fits old = ground (arith, fits)

  refuse_lem :
      (old : ℕ) (attempts : List Attempt)
      → new_tokens s secs old < 1
      → bucket_loop s secs old old attempts
        ≡ record { verdict = refused (wait_after secs old); cell = old }
  unfolding bucket_loop bucket_round
  refuse_lem old [] spent = ground (arith, spent)
  refuse_lem old (a ∷ rest) spent = ground (arith, spent)

  -- An exchange that meets the loaded word stores.
  store_lem :
      (old : ℕ) (a : Attempt) (rest : List Attempt)
      → 1 ≤ new_tokens s secs old
      → a.spurious ≡ false
      → a.present ≡ old
      → AtOnce s secs old (bucket_loop s secs old old (a ∷ rest))
  unfolding bucket_loop bucket_round
  store_lem old a rest left e m =
      let small = new_refill-fits old in
      let below : ltb (new_tokens s secs old) 1 ≡ false = ground (arith, left) in
      let met : a.present == old ≡ true = ground (arith, m) in
      rw (below, bucket_loop, bucket_round, e, met)
        (inr (refl, omega (arith, small, left), omega (arith, small)))

  -- Any other exchange fails, and the loop goes on with the word that it met.
  retry_lem :
      (old : ℕ) (a : Attempt) (rest : List Attempt)
      → 1 ≤ new_tokens s secs old
      → (a.spurious ≡ true) ⊎ (a.present ≢ old)
      → bucket_loop s secs old old (a ∷ rest) ≡ bucket_loop s secs a.present a.present rest
  unfolding bucket_loop bucket_round
  retry_lem old a rest left (inl e) = ground (arith, left)
  retry_lem old a rest left (inr e) = elim (Bool-cases a.spurious) [
    | inl t ↦ ground (arith, left)
    | inr f ↦ ground (arith, left)
  ]

  spent : (old : ℕ) → 1 ≤ new_tokens s secs old → (bucket_loop s secs old old []).verdict ≡ spinning
  unfolding bucket_loop bucket_round
  spent old left = ground (arith, left)

  abbrev Result : ℕ → List Attempt → Type 0
  Result old attempts =
      (p : ℕ) × EndsOn s secs p old attempts × AtOnce s secs p (bucket_loop s secs old old attempts)

  later :
      (old : ℕ) (a : Attempt) (rest : List Attempt)
      → 1 ≤ new_tokens s secs old
      → (a.spurious ≡ true) ⊎ (a.present ≢ old)
      → Result a.present rest
      → Result old (a ∷ rest)
  later old a rest left failed (p, l, e) =
      (p, loads left failed l, subst (AtOnce s secs p) (sym (retry_lem old a rest left failed)) e)

  refused-Result :
      (old : ℕ) (attempts : List Attempt) → new_tokens s secs old < 1 → Result old attempts
  refused-Result old attempts none_left =
      (old, refuses refl none_left, inl (none_left, refuse_lem old attempts none_left))

  -- A request that leaves the token bucket's loop at a second that fits 32 bits is atomic,
  -- whatever other threads wrote meanwhile: there is one word, either the word loaded last or
  -- the word that the cell holds at the exchange that ends the loop, every exchange before
  -- having failed, such that the request is refused with the seconds to wait and stores
  -- nothing, if that word has no token after the refill, and otherwise is let through and
  -- leaves exactly one token less than that, with the new second of the refill.
  pub bucket_loop-Atomic :
      (old : ℕ) (attempts : List Attempt)
      → (bucket_loop s secs old old attempts).verdict ≢ spinning
      → (p : ℕ) × EndsOn s secs p old attempts
        × AtOnce s secs p (bucket_loop s secs old old attempts)
  bucket_loop-Atomic old [] h = elim (dec_lt (new_tokens s secs old) 1) [
    | yes none_left ↦ refused-Result old [] none_left
    | no left ↦ absurd (h (spent old (omega arith)))
  ]
  bucket_loop-Atomic old (a ∷ rest) h = elim (dec_lt (new_tokens s secs old) 1) [
    | yes none_left ↦ refused-Result old (a ∷ rest) none_left
    | no some_left ↦
        let left : 1 ≤ new_tokens s secs old = omega arith in
        let goes_on = λ (failed : (a.spurious ≡ true) ⊎ (a.present ≢ old)).
          later old a rest left failed
            (bucket_loop-Atomic a.present rest (rw (retry_lem old a rest left failed) at h)) in
        elim (Bool-cases a.spurious) [
          | inl t ↦ goes_on (inl t)
          | inr f ↦ elim (ℕ_discrete a.present old) [
            | yes m ↦ (old, exchanges refl left f m, store_lem old a rest left f m)
            | no m ↦ goes_on (inr m)
          ]
        ]
  ]
