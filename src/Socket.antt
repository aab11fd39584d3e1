-- ===== src/Socket.antt =====
-- src/Socket.h, src/Socket.cpp: the two classes of sockets, over what asio answers them.
use cgi_web_server.Base.{
  ◌≡◌, refl, ◌<◌, arith, ltb, length, ◌∷◌, ℕ, ◌+◌, Bool, true, false, Option, none, some, List, [],
  if◌then◌else◌,
}
use cgi_web_server.Http.Io.{
  ErrorCode, no_error, bad_descriptor, Written, error_to_status, co_write_all, write_loop,
  is_permanent_failure,
}
use cgi_web_server.Http.Response.{Result, returns, throws, std_exception}
use cgi_web_server.Pipeline.{World}
use cgi_web_server.Text.{Bytes, codes}

-- `HTTPSocket` and `HTTPSSocket`
pub data Scheme : Type 0 where
  http https : Scheme

-- What asio answers for a connection: the address of its other end, for which `remote_endpoint`
-- throws where there is none, the TLS handshake, and what a request meets.
pub record Peer : Type 0 where
  pub remote : Option Bytes
  pub tls : ErrorCode
  pub world : World

-- `closings` counts how often an open socket was closed.
pub record Socket : Type 0 where
  pub scheme : Scheme
  pub is_open : Bool
  pub address : Bytes
  pub closings : ℕ

unfoldable pub new_socket : Scheme → Socket
new_socket scheme = record { scheme = scheme; is_open = false; address = []; closings = 0 }

-- `storeIP`; no result: it throws.
unfoldable pub store_ip : Peer → Socket → Option Socket
store_ip peer sock =
    if sock.is_open
    then elim (peer.remote) as (λ _. Option Socket) [
      | none ↦ none
      | some address ↦ some (record sock { address = address })
    ]
    else some (record sock { address = codes "address not available" })

-- What an operation comes back with, on a socket that is open or on one that is not.
abbrev pub answer {ℓ} : {A : Type ℓ} → Socket → A → A → A
answer sock given refused = if sock.is_open then given else refused

-- `HTTPSocket::co_handshake` and `HTTPSSocket::co_handshake`
unfoldable pub http_handshake : ErrorCode
http_handshake = no_error

unfoldable pub https_handshake : Peer → Socket → ErrorCode
https_handshake peer sock = answer sock peer.tls bad_descriptor

unfoldable pub co_handshake : Peer → Socket → ErrorCode
unfolding http_handshake https_handshake
co_handshake peer sock = elim (sock.scheme) [
  | http ↦ http_handshake
  | https ↦ https_handshake peer sock
]

unfoldable pub co_read : Peer → Socket → ErrorCode × Bytes
co_read peer sock = answer sock peer.world.read (bad_descriptor, [])

-- `co_write`, and what the writes of `co_write_all` come back with over it: on a socket that is not
-- open there is one, which ends it.
unfoldable pub co_write : ErrorCode × ℕ → Socket → ErrorCode × ℕ
co_write answered sock = answer sock answered (bad_descriptor, 0)

unfoldable pub write_all : Peer → Socket → List Bytes → Bytes → List Written
write_all peer sock before buffer =
    answer sock (peer.world.writes before buffer)
      (record { error = bad_descriptor; bytes = 0 } ∷ [])

-- `handshake` of the two classes, by whether a callback is given: what it is called with, if it is.
-- `HTTPSocket` calls it without a test.
unfoldable pub http_call_back : Bool → Result (Option ErrorCode)
http_call_back given = if given then returns (some no_error) else throws std_exception

unfoldable pub https_call_back : Peer → Bool → Socket → Result (Option ErrorCode)
unfolding https_handshake
https_call_back peer given sock = returns (if given then some (https_handshake peer sock) else none)

unfoldable pub handshake : Peer → Bool → Socket → Result (Option ErrorCode)
unfolding http_call_back https_call_back
handshake peer given sock = elim (sock.scheme) [
  | http ↦ http_call_back given
  | https ↦ https_call_back peer given sock
]

-- `read`
unfoldable pub read : Peer → Bool → Socket → Option (ErrorCode × Bytes)
unfolding co_read
read peer given sock = if given then some (co_read peer sock) else none

-- `write`
unfoldable pub write : ErrorCode × ℕ → Bool → Socket → Option (ErrorCode × ℕ)
unfolding co_write
write answered given sock = if given then some (co_write answered sock) else none

unfoldable pub close : Socket → Socket
close sock =
    if sock.is_open then record sock { is_open = false; closings = sock.closings + 1 } else sock

-- The destructor closes a socket that is open.
unfoldable pub destroy : Socket → Socket
unfolding close
destroy sock = if sock.is_open then close sock else sock

-- What a request meets on a socket.
unfoldable pub world_of : Peer → Socket → World
unfolding co_read write_all
world_of peer sock = record peer.world {
  client_ip = sock.address;
  read = co_read peer sock;
  writes = write_all peer sock;
}

co_write-closed :
    (answered : ErrorCode × ℕ) (sock : Socket)
    → sock.is_open ≡ false
    → co_write answered sock ≡ (bad_descriptor, 0)
unfolding co_write
co_write-closed answered sock closed = rw closed refl

write_loop-bad_descriptor :
    (total : ℕ)
    → 0 < total
    → co_write_all total (record { error = bad_descriptor; bytes = 0 } ∷ [])
      ≡ some (record { status = error_to_status bad_descriptor; bytes = 0 })
unfolding co_write_all write_loop is_permanent_failure
write_loop-bad_descriptor total some_bytes =
    let more : ltb 0 total ≡ true = ground arith in rw (write_loop, more) refl

-- The first write to a socket that is not open ends `co_write_all`.
pub write_all-closed :
    (peer : Peer) (sock : Socket) (before : List Bytes) (buffer : Bytes)
    → sock.is_open ≡ false
    → 0 < length buffer
    → co_write_all (length buffer) (write_all peer sock before buffer)
      ≡ some (record { status = error_to_status bad_descriptor; bytes = 0 })
unfolding write_all
write_all-closed peer sock before buffer closed some_bytes =
    rw closed (write_loop-bad_descriptor (length buffer) some_bytes)
