-- ===== src/Limit/Bucket/Tokens.antt =====
-- src/Middleware.cpp: the tokens of one bucket, request after request.
use cgi_web_server.Base.Int.{pos}
use cgi_web_server.Base.{
  ℕ, ◌+◌, ◌-◌, ◌*◌, ◌%◌, ◌^◌, ◌<◌, ◌≤◌, ◌≡◌, arith, List, [], ◌∷◌, All, min, ltb, if◌then◌else◌,
}
use cgi_web_server.Limit.Bucket.{
  TokenBucketSetting, tokens_of, refill_of, elapsed, new_tokens, new_refill, bucket_round, Verdict,
  admitted, refused, bucket_loop, bucket_serve, wait_after,
}
use cgi_web_server.Limit.Window.{pack}

-- A setting as a configuration makes sense: capacity and rate are not negative.
pub record IsSetting (s : TokenBucketSetting) (c r : ℕ) : Type 0 where
  pub capacity : s.capacity ≡ pos c
  pub capacity_fits : c < 2 ^ 31
  pub rate : s.refill_rate ≡ pos r
  pub rate_fits : r < 2 ^ 31

-- A bucket holds no more than its capacity, and two 32-bit halves.
pub record IsBucket (c cell : ℕ) : Type 0 where
  pub within : tokens_of cell ≤ c
  pub halves : cell < 2 ^ 64

-- The request that a verdict lets through.
abbrev pub counts : Verdict → ℕ
counts (admitted _) = 1
counts _ = 0

module _ (s : TokenBucketSetting) (c r : ℕ) (h : IsSetting s c r) (secs cell : ℕ)
    (now : secs < 2 ^ 32) (b : IsBucket c cell) where
  new_tokens-le : new_tokens s secs cell ≤ c
  unfolding new_tokens
  new_tokens-le = let e = h.capacity in let f = h.capacity_fits in ground arith

  -- What the refill adds is at most the rate times the seconds gone by.
  new_tokens-le-add : new_tokens s secs cell ≤ tokens_of cell + r * elapsed secs cell
  unfolding new_tokens
  new_tokens-le-add = let e = h.rate in let f = h.rate_fits in ground arith

  elapsed-refill : refill_of cell + elapsed secs cell ≡ new_refill secs cell
  unfolding elapsed new_refill
  elapsed-refill = ground arith

  -- What a request alone does with the bucket.
  bucket_serve_lem : bucket_serve s secs cell ≡ (
      if ltb (new_tokens s secs cell) 1
      then record { verdict = refused (wait_after secs cell); cell = cell }
      else record {
        verdict = admitted (new_tokens s secs cell - 1);
        cell = pack (new_tokens s secs cell - 1) (new_refill secs cell);
      })
  unfolding bucket_serve bucket_loop bucket_round
  bucket_serve_lem =
      let lo : new_refill secs cell < 2 ^ 32 = unfold new_refill in ground arith in ground arith

  new_refill-lt : new_refill secs cell < 2 ^ 32
  unfolding new_refill
  new_refill-lt = ground arith

  pub bucket_serve-IsBucket : IsBucket c (bucket_serve s secs cell).cell
  bucket_serve-IsBucket =
      let f = h.capacity_fits in
      let t = new_tokens-le in let l = new_refill-lt in rw bucket_serve_lem (ground arith)

  -- The request and the tokens left are paid for by the tokens before and the seconds gone by.
  pub bucket_serve_paid :
      let after = bucket_serve s secs cell in
      counts after.verdict + tokens_of after.cell + r * refill_of cell
      ≤ tokens_of cell + r * refill_of after.cell
  bucket_serve_paid =
      let t = new_tokens-le-add in
      let e = elapsed-refill in
      let l = new_refill-lt in
      let g : r * new_refill secs cell ≡ r * refill_of cell + r * elapsed secs cell =
        rw (← e) (omega arith) in
      rw bucket_serve_lem (ground arith)

  pub refill-bucket_serve :
      (last : ℕ)
      → secs ≤ last
      → refill_of cell ≤ last
      → refill_of (bucket_serve s secs cell).cell ≤ last
  refill-bucket_serve last p q =
      let l = new_refill-lt in
      let k : new_refill secs cell ≤ last = unfold new_refill in ground arith in
      rw bucket_serve_lem (ground arith)

  -- As long as the 32-bit sum of tokens and refill does not wrap, the refill is the rate times
  -- the seconds gone by, up to the capacity, and a request alone passes exactly if that leaves
  -- a token.
  pub bucket_serve_exact :
      tokens_of cell + r * elapsed secs cell < 2 ^ 32
      → (new_tokens s secs cell ≡ min c (tokens_of cell + r * elapsed secs cell))
        × (counts (bucket_serve s secs cell).verdict ≡ min 1 (new_tokens s secs cell))
  bucket_serve_exact fits = (
    unfold new_tokens in
        let e = h.capacity in
        let f = h.capacity_fits in let e' = h.rate in let f' = h.rate_fits in ground arith,
    rw bucket_serve_lem (ground arith),
  )

-- Requests one after another, at the given seconds: how many pass, and the cell at the end.
pub serve_all : TokenBucketSetting → List ℕ → ℕ → ℕ × ℕ
serve_all s [] cell = (0, cell)
serve_all s (secs ∷ later) cell =
    let served = bucket_serve s secs cell in
    let (n, last) = serve_all s later served.cell in (counts served.verdict + n, last)

serve_all_paid :
    (s : TokenBucketSetting) (c r last : ℕ) (times : List ℕ) (cell : ℕ)
    → IsSetting s c r
    → last < 2 ^ 32
    → All (λ t. t ≤ last) times
    → IsBucket c cell
    → refill_of cell ≤ last
    → let (n, end) = serve_all s times cell in
      (n + tokens_of end + r * refill_of cell ≤ tokens_of cell + r * refill_of end)
      × IsBucket c end
      × (refill_of end ≤ last)
unfolding serve_all
serve_all_paid s c r last [] cell h fits _ b p = (omega arith, b, p)
serve_all_paid s c r last (t ∷ times) cell h fits (le, later) b p =
    let now : t < 2 ^ 32 = omega arith in
    let step = bucket_serve_paid s c r h t cell now b in
    let (paid, valid, bound) =
      serve_all_paid s c r last times (bucket_serve s t cell).cell h fits later
        (bucket_serve-IsBucket s c r h t cell now b)
        (refill-bucket_serve s c r h t cell now b last le p) in
    (omega arith, valid, bound)

-- Whatever the requests to a bucket, one after another, up to the second `last`, a 32-bit number,
-- no more of them pass than the bucket held tokens and the rate has added since its last refill;
-- and the bucket never holds more than its capacity. The setting's numbers are not negative.
pub bucket_serve_all_lem :
    (s : TokenBucketSetting) (c r last : ℕ) (times : List ℕ) (cell : ℕ)
    → IsSetting s c r
    → last < 2 ^ 32
    → All (λ t. t ≤ last) times
    → IsBucket c cell
    → refill_of cell ≤ last
    → ((serve_all s times cell).0 ≤ tokens_of cell + r * (last - refill_of cell))
      × (tokens_of (serve_all s times cell).1 ≤ c)
bucket_serve_all_lem s c r last times cell h fits all b p =
    let (paid, valid, bound) = serve_all_paid s c r last times cell h fits all b p in
    let m : r * refill_of (serve_all s times cell).1 ≤ r * last = grind arith in
    (grind arith, valid.within)

-- The 32-bit sum wraps: where the tokens and what the rate adds come to a multiple of 2 ^ 32, a
-- request alone is refused and the bucket stays as it was, however many seconds have gone by.
pub bucket_serve_wraps :
    (s : TokenBucketSetting) (r secs cell : ℕ)
    → s.refill_rate ≡ pos r
    → r < 2 ^ 32
    → cell < 2 ^ 64
    → (tokens_of cell + r * elapsed secs cell) % 2 ^ 32 ≡ 0
    → bucket_serve s secs cell ≡ record { verdict = refused (wait_after secs cell); cell = cell }
unfolding bucket_serve bucket_loop bucket_round new_tokens
bucket_serve_wraps s r secs cell e f g wraps = ground arith
