-- ===== src/Pipeline/Streams/Files.antt =====
-- src/Streamer.cpp: a file reaches the client whole.
use cgi_web_server.Base.{
  ℕ, zero, suc, ◌+◌, ◌-◌, ◌<◌, ◌≤◌, ◌≡◌, refl, ap, ◌∙◌, arith, true, false, some, min, List, [],
  ◌∷◌, ◌++◌, append-nil, append_assoc, ltb, length, take, drop, joined, All, length-take,
  length-drop,
}
use cgi_web_server.Http.Response.{returns}
use cgi_web_server.Http.Status
use cgi_web_server.Http.Status.{is_success_code}
use cgi_web_server.Pipeline.Streams.{
  Step, ◌>>>◌, buffer_size, write, written, send, stream_chunks, stream_file,
}
use cgi_web_server.Pipeline.{State, World}
use cgi_web_server.Text.{Bytes, is_empty}

-- A client that takes every buffer whole, and a file whose reads do not fail.
pub record IsDelivering (w : World) (path : Bytes) : Type 0 where
  pub takes :
      (before : List Bytes) (text : Bytes)
      → written w before text ≡ some (record { status = Status.ok; bytes = length text })
  pub reads : (at : ℕ) → w.read_fails path at ≡ false

pub send-delivers :
    (w : World) (path text : Bytes) (s : State)
    → IsDelivering w path
    → send w text s ≡ (returns (length text), write text s)
unfolding send is_success_code
send-delivers w path text s h = rw (h.takes s.sent text, send) refl

not_empty : (s : Bytes) → 0 < length s → is_empty s ≡ false
not_empty [] h = absurd (omega arith)
not_empty (c ∷ s) h = refl

abbrev IsStreamed : World → Bytes → State → Bytes → Step ℕ → ℕ → Type 0
IsStreamed w path s rest step total =
    (chunks : List Bytes) × (step ≡ (returns total, record s { sent = s.sent ++ chunks }))
    × (joined chunks ≡ rest)
    × All (λ c. length c ≤ buffer_size) chunks

take-drop {ℓ} : {A : Type ℓ} (n : ℕ) (xs : List A) → take n xs ++ drop (length (take n xs)) xs ≡ xs
take-drop zero xs = refl
take-drop (suc n) [] = refl
take-drop (suc n) (x ∷ xs) = ap (◌∷◌ x) (take-drop n xs)

abbrev next_chunk : ℕ → ℕ → Bytes → Bytes
next_chunk file_len sent rest = take (min buffer_size (file_len - sent)) rest

-- A round of the loop.
stream_chunks-round :
    (fuel : ℕ) (w : World) (path : Bytes) (file_len sent : ℕ) (rest : Bytes) (s : State)
    → IsDelivering w path
    → sent < file_len
    → is_empty (next_chunk file_len sent rest) ≡ false
    → stream_chunks (suc fuel) w path file_len sent rest s
      ≡ stream_chunks fuel w path file_len
          (sent + length (next_chunk file_len sent rest))
          (drop (length (next_chunk file_len sent rest)) rest)
          (write (next_chunk file_len sent rest) s)
unfolding stream_chunks ◌>>>◌
stream_chunks-round fuel w path file_len sent rest s h more part =
    let less : ltb sent file_len ≡ true = ground arith in
    rw (less, h.reads (file_len - length rest), part, stream_chunks)
      (rw (send-delivers w path (next_chunk file_len sent rest) s h) refl)

stream_chunks-IsStreamed :
    (fuel : ℕ) (w : World) (path : Bytes) (file_len sent : ℕ) (rest : Bytes) (s : State)
    → IsDelivering w path
    → length rest < fuel
    → sent + length rest ≡ file_len
    → IsStreamed w path s rest (stream_chunks fuel w path file_len sent rest s) file_len
unfolding stream_chunks
stream_chunks-IsStreamed zero w path file_len sent rest s h f e = absurd (omega arith)
stream_chunks-IsStreamed (suc fuel) w path file_len sent [] s h f e =
    let done : ltb sent file_len ≡ false = ground (arith, e) in
    let total : sent ≡ file_len = omega (arith, e) in
    ([], rw (done, stream_chunks) (rw (total, append-nil s.sent) refl), refl, tt)
stream_chunks-IsStreamed (suc fuel) w path file_len sent (b ∷ rest) s h f e =
    let n = min buffer_size (file_len - sent) in
    let chunk = take n (b ∷ rest) in
    let size : length chunk ≡ min n (suc (length rest)) = length-take n (b ∷ rest) in
    let part : is_empty chunk ≡ false = not_empty chunk (omega (arith, e, size)) in
    let round =
      stream_chunks-round fuel w path file_len sent (b ∷ rest) s h (omega (arith, e)) part in
    let left = length-drop (length chunk) (b ∷ rest) in
    let (chunks, streamed, whole, small) =
      stream_chunks-IsStreamed fuel w path file_len (sent + length chunk)
        (drop (length chunk) (b ∷ rest)) (write chunk s) h (omega (arith, left, e, size, f))
        (omega (arith, left, e, size)) in
    (
      chunk ∷ chunks,
      round
          ∙ streamed
          ∙ ap (λ q. (returns file_len, record s { sent = q }))
              (append_assoc s.sent (chunk ∷ []) chunks),
      ap (λ q. chunk ++ q) whole ∙ take-drop n (b ∷ rest),
      (omega (arith, size), small),
    )

-- A file is sent whole, in buffers of at most BUFFER_SIZE bytes one after another, and its length is
-- returned, where the client takes every buffer whole and no read of the file fails.
pub stream_file-IsStreamed :
    (w : World) (path content : Bytes) (s : State)
    → IsDelivering w path
    → (chunks : List Bytes) × (stream_file w path content s
        ≡ (returns (length content), record s { sent = s.sent ++ chunks }))
      × (joined chunks ≡ content)
      × All (λ c. length c ≤ buffer_size) chunks
unfolding stream_file
stream_file-IsStreamed w path content s h =
    stream_chunks-IsStreamed (suc (length content)) w path (length content) 0 content s h
      (omega arith) (omega arith)
