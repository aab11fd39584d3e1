-- ===== src/Pipeline/Streams.antt =====
-- src/Streamer.cpp: what is streamed to the client's socket. A streamer returns the bytes that it
-- has streamed, or throws, and leaves a state.
pub mod Files
pub mod Keeps
use cgi_web_server.Base.{
  ℕ, zero, suc, ◌+◌, ◌-◌, min, Bool, true, false, not, ◌||◌, Option, none, some, List, [], ◌∷◌,
  ◌++◌, if◌then◌else◌, ltb, ◌==◌, length, take, drop,
}
use cgi_web_server.Http.Io.{WriteStatus, co_write_all}
use cgi_web_server.Http.Response.{Result, returns, throws, never_returns, http_error, ◌>>=◌, ◌>>◌}
use cgi_web_server.Http.Status
use cgi_web_server.Http.Status.{is_success_code}
use cgi_web_server.Pipeline.{State, Run, finished, World, Spawning, Script}
use cgi_web_server.Text.{Bytes, is_empty}

-- What a step returns or throws, with the state that it leaves.
abbrev pub Step {ℓ} : Type ℓ → Type ℓ
Step A = Result A × State

-- The next step, where the one before returned.
infixl 5 ◌>>>◌
unfoldable pub ◌>>>◌ {ℓ κ} : {A : Type ℓ} {B : Type κ} → Step A → (A → State → Step B) → Step B
(throws x, s) >>> f = (throws x, s)
(returns a, s) >>> f = f a s

-- How a step ends its coroutine.
abbrev pub to_run : Step (Unit {0}) → Run
to_run (result, s) = finished result s

abbrev pub buffer_size : ℕ
buffer_size = 262144

unfoldable pub write : Bytes → State → State
write text s = record s { sent = s.sent ++ text ∷ [] }

-- What `co_write_all` comes back with, if it does.
unfoldable pub written : World → List Bytes → Bytes → Option WriteStatus
unfolding co_write_all
written w before text = co_write_all (length text) (w.writes before text)

-- A buffer given to `co_write_all`, and the exception where no success is reported.
unfoldable pub send : World → Bytes → State → Step ℕ
unfolding write written
send w text s = (
  elim (written w s.sent text) as (λ _. Result ℕ) [
    | none ↦ throws never_returns
    | some result ↦
        if not (is_success_code result.status)
        then http_error result.status
        else returns result.bytes
  ],
  write text s,
)

-- A buffer given to `co_write_all`, whatever it comes back with.
unfoldable pub send_anyway : World → Bytes → State → Step (Unit {0})
unfolding write written
send_anyway w text s = (
  elim (written w s.sent text) as (λ _. Result (Unit {0})) [
    | none ↦ throws never_returns
    | some result ↦ returns tt
  ],
  write text s,
)

-- `StringStreamer::stream`
unfoldable pub stream_string : World → Bytes → State → Step ℕ
unfolding send
stream_string w payload s = send w payload s

-- `FileStreamer::openFile`: what the file holds, which is not empty.
unfoldable pub open_file : World → Bytes → Result Bytes
open_file w path = elim (w.read_file path) [
  | none ↦ http_error Status.not_found
  | some content ↦ if is_empty content then http_error Status.not_found else returns content
]

-- The loop of `FileStreamer::stream`: `rest` is what is behind the file's offset. Each round takes
-- a byte at least from it, so fuel `length rest + 1` is enough.
unfoldable pub stream_chunks : ℕ → World → Bytes → ℕ → ℕ → Bytes → State → Step ℕ
unfolding send
stream_chunks zero w path file_len bytes_sent rest s = (returns bytes_sent, s)
stream_chunks (suc fuel) w path file_len bytes_sent rest s = elim (ltb bytes_sent file_len) [
  | false ↦ (returns bytes_sent, s)
  | true ↦
      let chunk = take (min buffer_size (file_len - bytes_sent)) rest in
      elim (w.read_fails path (file_len - length rest)) [
        | true ↦ (http_error Status.internal_server_error, s)
        | false ↦ elim (is_empty chunk) [
          | true ↦ (returns bytes_sent, s)
          | false ↦ send w chunk s >>> λ bytes s'.
              stream_chunks fuel w path file_len (bytes_sent + bytes) (drop (length chunk) rest) s'
        ]
      ]
]

-- `FileStreamer::stream`, of what `open_file` gives.
unfoldable pub stream_file : World → Bytes → Bytes → State → Step ℕ
unfolding stream_chunks
stream_file w path content s =
    stream_chunks (suc (length content)) w path (length content) 0 content s

-- The loop of `ScriptStreamer::stream`, with a callback for each chunk.
unfoldable pub stream_output :
    (Bytes → State → Step (Unit {0})) → Bool → ℕ → List Bytes → State → Step ℕ
stream_output callback ends bytes_sent [] s =
    (if ends then returns bytes_sent else http_error Status.internal_server_error, s)
stream_output callback ends bytes_sent (chunk ∷ chunks) s =
    callback chunk s >>> λ u s'. stream_output callback ends (bytes_sent + length chunk) chunks s'

-- `ScriptStreamer::spawnProcess`
unfoldable pub spawn_process : Spawning → Result (Unit {0})
spawn_process p =
    if not p.adds_stdin_dup2 || not p.adds_stdout_dup2
    then http_error Status.internal_server_error
    else if not p.adds_stdin_close || not p.adds_stdout_close
    then http_error Status.internal_server_error
    else if not p.spawns
    then http_error Status.internal_server_error
    else returns tt

-- `ScriptStreamer::spawn`
unfoldable pub spawn : Spawning → Result (Unit {0})
unfolding spawn_process
spawn p =
    if not p.stdin_pipe || not p.stdout_pipe then http_error Status.internal_server_error else (do
      spawn_process p
      if not p.writes then http_error Status.internal_server_error else returns tt)

-- `ScriptStreamer::stream`
unfoldable pub stream_script :
    World → Bytes → Bytes → (Bytes → State → Step (Unit {0})) → State → Step ℕ
unfolding spawn stream_output ◌>>>◌
stream_script w script_path stdin_data callback s =
    let script = w.run_script script_path stdin_data in
    (spawn script.spawning, s) >>> λ u s'. stream_output callback script.ends 0 script.chunks s'

-- The same loop and stream without a callback: each chunk is written as it stands.
unfoldable pub write_output : World → Bool → ℕ → List Bytes → State → Step ℕ
unfolding send ◌>>>◌
write_output w ends bytes_sent [] s =
    (if ends then returns bytes_sent else http_error Status.internal_server_error, s)
write_output w ends bytes_sent (chunk ∷ chunks) s =
    send w chunk s >>> λ bytes s'. write_output w ends (bytes_sent + bytes) chunks s'

unfoldable pub write_script : World → Bytes → Bytes → State → Step ℕ
unfolding spawn write_output ◌>>>◌
write_script w script_path stdin_data s =
    let script = w.run_script script_path stdin_data in
    (spawn script.spawning, s) >>> λ u s'. write_output w script.ends 0 script.chunks s'
