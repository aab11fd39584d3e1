-- ===== src/Server/Sessions/Closing.antt =====
-- src/Session.cpp, src/Socket.cpp: a session closes its socket, however it ends.
use cgi_web_server.Base.{
  ◌+◌, ◌≡◌, ◌⊎◌, refl, ◌∙◌, arith, Bool, true, false, Bool-cases, inl, inr, some, Option-cases,
  List, if◌then◌else◌,
}
use cgi_web_server.Http.Response.{returns, throws, http_exception, std_exception, never_returns}
use cgi_web_server.Pipeline.Session.{start_session}
use cgi_web_server.Pipeline.Stages.{Middleware}
use cgi_web_server.Pipeline.{State, Run, finished, crashed, Jwt, Config}
use cgi_web_server.Server.Sessions.{connect, after_pipeline, run_session}
use cgi_web_server.Socket.{Peer, Socket, store_ip, close, destroy}

-- A socket that is closed, where one that was open has been closed once.
pub record IsClosed (old sock : Socket) : Type 0 where
  pub shut : sock.is_open ≡ false
  pub once : sock.closings ≡ old.closings + (if old.is_open then 1 else 0)

destroy-IsClosed : (sock : Socket) → IsClosed sock (destroy sock)
unfolding destroy close
destroy-IsClosed sock = elim (Bool-cases sock.is_open) [
  | inl opened ↦ record { shut = rw opened refl; once = rw opened refl }
  | inr unopened ↦ record { shut = rw unopened refl; once = rw unopened (omega arith) }
]

destroy-close-IsClosed : (sock : Socket) → IsClosed sock (destroy (close sock))
unfolding destroy close
destroy-close-IsClosed sock = elim (Bool-cases sock.is_open) [
  | inl opened ↦ record { shut = rw opened refl; once = rw opened refl }
  | inr unopened ↦ record { shut = rw unopened refl; once = rw unopened (omega arith) }
]

store_ip-keeps :
    (peer : Peer) (sock sock' : Socket)
    → store_ip peer sock ≡ some sock'
    → (sock'.is_open ≡ sock.is_open) × (sock'.closings ≡ sock.closings)
unfolding store_ip
store_ip-keeps peer sock sock' h = ground (arith, h)

IsClosed-of_keeps :
    (old sock final : Socket)
    → sock.is_open ≡ old.is_open
    → sock.closings ≡ old.closings
    → IsClosed sock final
    → IsClosed old final
IsClosed-of_keeps old sock final opened count h = record {
  shut = h.shut;
  once = h.once ∙ rw (opened, count) refl;
}

module _ (j : Jwt) (c : Config) (ms : List Middleware) where
  -- How a session and its socket end: the socket is closed, or the session never comes back.
  abbrev pub Ends : Socket → Run → Socket → Type 0
  Ends old run sock =
      IsClosed old sock ⊎ ((s1 : State) × (run ≡ finished (throws never_returns) s1))

  after_pipeline-IsClosed :
      (handshake : Bool) (run : Run) (sock : Socket)
      → Ends sock run (after_pipeline j c ms handshake run sock)
  unfolding after_pipeline
  after_pipeline-IsClosed true (finished (returns u) s) sock = inl (destroy-close-IsClosed sock)
  after_pipeline-IsClosed false (finished (returns u) s) sock = inl (destroy-IsClosed sock)
  after_pipeline-IsClosed true (finished (throws never_returns) s) sock = inr (s, refl)
  after_pipeline-IsClosed false (finished (throws never_returns) s) sock = inr (s, refl)
  after_pipeline-IsClosed true (finished (throws (http_exception r)) s) sock =
      inl (destroy-IsClosed sock)
  after_pipeline-IsClosed false (finished (throws (http_exception r)) s) sock =
      inl (destroy-IsClosed sock)
  after_pipeline-IsClosed true (finished (throws std_exception) s) sock =
      inl (destroy-IsClosed sock)
  after_pipeline-IsClosed false (finished (throws std_exception) s) sock =
      inl (destroy-IsClosed sock)
  after_pipeline-IsClosed true crashed sock = inl (destroy-IsClosed sock)
  after_pipeline-IsClosed false crashed sock = inl (destroy-IsClosed sock)

  Ends-of_keeps :
      (old sock final : Socket) (run : Run)
      → sock.is_open ≡ old.is_open
      → sock.closings ≡ old.closings
      → Ends sock run final
      → Ends old run final
  Ends-of_keeps old sock final run opened count (inl h) =
      inl (IsClosed-of_keeps old sock final opened count h)
  Ends-of_keeps old sock final run opened count (inr h) = inr h

  -- A session that ends leaves no socket open: with an address that cannot be read, a handshake
  -- that fails, a pipeline that returns, throws or crashes, its socket is closed behind it, and
  -- one that was open was closed exactly once; the only other case is a session that never
  -- comes back from a write.
  pub run_session-IsClosed :
      (peer : Peer) (sock : Socket) (s : State)
      → Ends sock (run_session j c ms peer sock s).0 (run_session j c ms peer sock s).1
  unfolding run_session
  run_session-IsClosed peer sock s = elim (Option-cases (store_ip peer sock)) [
    | inl thrown ↦ rw (thrown, run_session) (inl (destroy-IsClosed sock))
    | inr (sock', stored) ↦
        let (opened, count) = store_ip-keeps peer sock sock' stored in
        rw (stored, run_session)
          (Ends-of_keeps sock sock' _ _ opened count (
            after_pipeline-IsClosed (connect peer sock').handshake
              (start_session j c ms (connect peer sock') s) sock'))
  ]
