-- ===== src/Pipeline/Pages/Keeps.antt =====
-- src/Router.cpp: no error page changes the router, a limiter or the log.
use cgi_web_server.Base.{◌≡◌, ◌⊎◌, refl, inl, inr, Option-cases}
use cgi_web_server.Http.Response.{
  returns, throws, http_exception, std_exception, never_returns, build, Result-cases,
}
use cgi_web_server.Pipeline.Pages.{serve_default, serve_content, or_default, serve_file, serve_page}
use cgi_web_server.Pipeline.Streams.Keeps.{Keeps, >>>-Keeps, stream_file-Keeps}
use cgi_web_server.Pipeline.Streams.{
  Step, write, written, send, send_anyway, stream_string, open_file,
}
use cgi_web_server.Pipeline.{State, World, set_response}
use cgi_web_server.Router.{PageHandler, default_page, file_page}
use cgi_web_server.Text.{Bytes}

serve_content-Keeps :
    (w : World) (file content : Bytes) (s : State) → Keeps s (serve_content w file content s)
unfolding serve_content stream_string send write set_response
serve_content-Keeps w file content s =
    >>>-Keeps s _ _ (refl, refl, refl)
      (λ head_bytes s1.
        >>>-Keeps s1 _ _ (stream_file-Keeps w file content s1) (λ bytes s2. (refl, refl, refl)))

or_default-Keeps :
    (w : World) (s : State) (step : Step (Unit {0})) → Keeps s step → Keeps s (or_default w step)
unfolding or_default serve_default send_anyway write set_response
or_default-Keeps w s (returns u, s') kept = kept
or_default-Keeps w s (throws never_returns, s') kept = kept
or_default-Keeps w s (throws (http_exception r), s') kept = kept
or_default-Keeps w s (throws std_exception, s') kept = kept

pub serve_page-Keeps : (w : World) (page : PageHandler) (s : State) → Keeps s (serve_page w page s)
unfolding serve_page serve_file serve_default send_anyway write set_response
serve_page-Keeps w default_page s = (refl, refl, refl)
serve_page-Keeps w (file_page file) s = elim (Result-cases (open_file w file)) [
  | inr (x, thrown) ↦ rw (thrown, serve_page, serve_file) (refl, refl, refl)
  | inl (content, opened) ↦
      rw (opened, serve_page, serve_file)
        (or_default-Keeps w s (serve_content w file content s)
          (serve_content-Keeps w file content s))
]

-- A page is answered, or the write never comes back.
abbrev pub IsEnd : Step (Unit {0}) → Type 0
IsEnd step = (step.0 ≡ returns tt) ⊎ (step.0 ≡ throws never_returns)

send_anyway-IsEnd : (w : World) (text : Bytes) (s : State) → IsEnd (send_anyway w text s)
unfolding send_anyway
send_anyway-IsEnd w text s = elim (Option-cases (written w s.sent text)) [
  | inl waiting ↦ inr (rw (waiting, send_anyway) refl)
  | inr (result, done) ↦ inl (rw (done, send_anyway) refl)
]

serve_default-IsEnd : (w : World) (s : State) → IsEnd (serve_default w s)
unfolding serve_default
serve_default-IsEnd w s =
    let (r, text) = build w.date s.txn.response in send_anyway-IsEnd w text (set_response r s)

or_default-IsEnd : (w : World) (step : Step (Unit {0})) → IsEnd (or_default w step)
unfolding or_default
or_default-IsEnd w (returns u, s') = inl refl
or_default-IsEnd w (throws never_returns, s') = inr refl
or_default-IsEnd w (throws (http_exception r), s') = serve_default-IsEnd w s'
or_default-IsEnd w (throws std_exception, s') = serve_default-IsEnd w s'

pub serve_page-IsEnd : (w : World) (page : PageHandler) (s : State) → IsEnd (serve_page w page s)
unfolding serve_page serve_file
serve_page-IsEnd w default_page s = serve_default-IsEnd w s
serve_page-IsEnd w (file_page file) s = elim (Result-cases (open_file w file)) [
  | inr (x, thrown) ↦ rw (thrown, serve_page, serve_file) (serve_default-IsEnd w s)
  | inl (content, opened) ↦
      rw (opened, serve_page, serve_file) (or_default-IsEnd w (serve_content w file content s))
]
