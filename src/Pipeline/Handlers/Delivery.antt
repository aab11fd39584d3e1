-- ===== src/Pipeline/Handlers/Delivery.antt =====
-- src/GetHandler.cpp: a GET of a file, to a client that takes what it is sent.
use cgi_web_server.Base.{
  ◌+◌, ◌≤◌, ◌≡◌, refl, ◌∙◌, false, some, List, [], ◌∷◌, ◌++◌, append_assoc, length, joined, All,
}
use cgi_web_server.Http.Response.{Response, returns, build, add_header, set_status}
use cgi_web_server.Http.Status
use cgi_web_server.Pipeline.Handlers.{determine_content_type, add_bytes, handle_file}
use cgi_web_server.Pipeline.Streams.Files.{IsDelivering, send-delivers, stream_file-IsStreamed}
use cgi_web_server.Pipeline.Streams.{
  ◌>>>◌, buffer_size, write, stream_string, open_file, stream_file,
}
use cgi_web_server.Pipeline.{State, World, set_response}
use cgi_web_server.Router.{EndpointMethod}
use cgi_web_server.Text.Number.{to_string}
use cgi_web_server.Text.{Bytes, codes, is_empty}

-- The response of a file, and its head.
abbrev pub file_response : World → Bytes → Response → Response × Bytes
file_response w content_type r = build w.date (
    add_header (codes "Content-Type") content_type
      (add_header (codes "Connection") (codes "close") (set_status Status.ok r)))

module _ (w : World) (route : EndpointMethod) (s : State) (content content_type : Bytes) where
  abbrev head : Bytes
  head = (file_response w content_type s.txn.response).1

  abbrev behind_head : State
  behind_head = write head (set_response (file_response w content_type s.txn.response).0 s)

  abbrev before_file : State
  before_file =
      set_response
        (add_header (codes "Content-Type") (to_string (length content)) behind_head.txn.response)
        behind_head

  open_file_lem :
      w.read_file route.resource ≡ some content
      → is_empty content ≡ false
      → open_file w route.resource ≡ returns content
  unfolding open_file
  open_file_lem readable full = rw (readable, open_file, full) refl

  handle_file-opened :
      determine_content_type route.resource ≡ some content_type
      → w.read_file route.resource ≡ some content
      → is_empty content ≡ false
      → IsDelivering w route.resource
      → handle_file w route s
        ≡ stream_file w route.resource content before_file >>> λ bytes s3.
            (returns tt, add_bytes (bytes + length head) s3)
  unfolding handle_file stream_string ◌>>>◌ write set_response
  handle_file-opened known readable full h =
      let sent =
        send-delivers w route.resource head
          (set_response (file_response w content_type s.txn.response).0 s) h in
      rw (known, handle_file) (rw (sent, open_file_lem readable full) refl)

-- A GET of a file that is not empty and has an extension that the server knows, to a client that
-- takes every buffer whole, while no read of the file fails, returns: behind what was sent
-- before, the head of a 200 with the content type of the extension and then the file are sent,
-- whole and in buffers of at most BUFFER_SIZE bytes, and the log entry counts the bytes of both.
pub handle_file-sends :
    (w : World) (route : EndpointMethod) (s : State) (content content_type : Bytes)
    → determine_content_type route.resource ≡ some content_type
    → w.read_file route.resource ≡ some content
    → is_empty content ≡ false
    → IsDelivering w route.resource
    → (chunks : List Bytes) × (s' : State) × (handle_file w route s ≡ (returns tt, s'))
      × (s'.sent ≡ s.sent ++ ((file_response w content_type s.txn.response).1 ∷ chunks))
      × (joined chunks ≡ content)
      × All (λ c. length c ≤ buffer_size) chunks
      × (s'.txn.log_entry.bytes
          ≡ s.txn.log_entry.bytes
            + (length content + length (file_response w content_type s.txn.response).1))
unfolding write set_response ◌>>>◌ add_bytes
handle_file-sends w route s content content_type known readable full h =
    let opened = handle_file-opened w route s content content_type known readable full h in
    let start = before_file w route s content content_type in
    let (chunks, streamed, whole, small) =
      stream_file-IsStreamed w route.resource content start h in
    (
      chunks,
      add_bytes (length content + length (head w route s content content_type))
          (record start { sent = start.sent ++ chunks }),
      opened ∙ rw streamed refl,
      append_assoc s.sent (head w route s content content_type ∷ []) chunks,
      whole,
      small,
      refl,
    )
