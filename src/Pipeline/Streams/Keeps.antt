-- ===== src/Pipeline/Streams/Keeps.antt =====
-- src/Streamer.cpp: nothing that is streamed changes the router or a limiter.
use cgi_web_server.Base.{
  ℕ, zero, suc, ◌+◌, ◌-◌, ◌≡◌, refl, ◌∙◌, inl, inr, Bool, Bool-cases, min, List, [], ◌∷◌, length,
  take, drop, ltb,
}
use cgi_web_server.Http.Response.{returns, throws}
use cgi_web_server.Pipeline.Streams.{
  Step, ◌>>>◌, write, send, stream_chunks, stream_file, stream_output,
}
use cgi_web_server.Pipeline.{State, World}
use cgi_web_server.Text.{Bytes, is_empty}

-- A step leaves the router, the limiters and the log as they are.
abbrev pub Keeps {ℓ} : {A : Type ℓ} → State → Step A → Type 0
Keeps s step =
    (step.1.router ≡ s.router) × (step.1.limiters ≡ s.limiters) × (step.1.logged ≡ s.logged)

pub >>>-Keeps {ℓ κ} :
    {A : Type ℓ} {B : Type κ} (s : State) (m : Step A) (f : A → State → Step B)
    → Keeps s m
    → ((a : A) (s' : State) → Keeps s' (f a s'))
    → Keeps s (m >>> f)
unfolding ◌>>>◌
>>>-Keeps s (throws x, s1) f h k = h
>>>-Keeps s (returns a, s1) f h k =
    let (routes, counts, logs) = h in
    let (routes', counts', logs') = k a s1 in (routes' ∙ routes, counts' ∙ counts, logs' ∙ logs)

stream_chunks-Keeps :
    (fuel : ℕ) (w : World) (path : Bytes) (file_len sent : ℕ) (rest : Bytes) (s : State)
    → Keeps s (stream_chunks fuel w path file_len sent rest s)
unfolding stream_chunks send write
stream_chunks-Keeps zero w path file_len sent rest s = (refl, refl, refl)
stream_chunks-Keeps (suc fuel) w path file_len sent rest s =
    let chunk = take (min 262144 (file_len - sent)) rest in
    elim (Bool-cases (ltb sent file_len)) [
      | inr done ↦ rw (done, stream_chunks) (refl, refl, refl)
      | inl more ↦ elim (Bool-cases (w.read_fails path (file_len - length rest))) [
        | inl fails ↦ rw (more, fails, stream_chunks) (refl, refl, refl)
        | inr reads ↦ elim (Bool-cases (is_empty chunk)) [
          | inl ended ↦ rw (more, reads, ended, stream_chunks) (refl, refl, refl)
          | inr part ↦
              rw (more, reads, part, stream_chunks)
                (>>>-Keeps s (send w chunk s) _ (refl, refl, refl)
                  (λ bytes s'.
                    stream_chunks-Keeps fuel w path file_len (sent + bytes)
                      (drop (length chunk) rest) s'))
        ]
      ]
    ]

pub stream_output-Keeps :
    (callback : Bytes → State → Step (Unit {0})) (ends : Bool) (sent : ℕ) (chunks : List Bytes)
    (s : State)
    → ((chunk : Bytes) (s' : State) → Keeps s' (callback chunk s'))
    → Keeps s (stream_output callback ends sent chunks s)
unfolding stream_output
stream_output-Keeps callback ends sent [] s k = (refl, refl, refl)
stream_output-Keeps callback ends sent (chunk ∷ chunks) s k =
    >>>-Keeps s (callback chunk s) _ (k chunk s)
      (λ u s'. stream_output-Keeps callback ends (sent + length chunk) chunks s' k)

pub stream_file-Keeps :
    (w : World) (path content : Bytes) (s : State) → Keeps s (stream_file w path content s)
unfolding stream_file
stream_file-Keeps w path content s =
    stream_chunks-Keeps (suc (length content)) w path (length content) 0 content s
