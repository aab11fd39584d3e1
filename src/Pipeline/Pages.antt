-- ===== src/Pipeline/Pages.antt =====
-- src/Router.cpp: the handlers of error pages.
pub mod Keeps
use cgi_web_server.Base.{length}
use cgi_web_server.Http.Response.{
  returns, throws, http_exception, std_exception, never_returns, build, add_header,
}
use cgi_web_server.Pipeline.Streams.{
  Step, ◌>>>◌, send_anyway, open_file, stream_string, stream_file,
}
use cgi_web_server.Pipeline.{State, World, set_response}
use cgi_web_server.Router.{PageHandler, default_page, file_page}
use cgi_web_server.Text.Number.{to_string}
use cgi_web_server.Text.{Bytes, codes}

-- The default handler: the response itself, whether it arrives or not.
unfoldable pub serve_default : World → State → Step (Unit {0})
unfolding send_anyway
serve_default w s =
    let (r, text) = build w.date s.txn.response in send_anyway w text (set_response r s)

-- The head of a page and the page, up to what throws, in the `try` block.
unfoldable pub serve_content : World → Bytes → Bytes → State → Step (Unit {0})
unfolding stream_string stream_file
serve_content w file content s =
    let r = add_header (codes "Content-Length") (to_string (length content)) s.txn.response in
    let (built, head) = build w.date r in
    stream_string w head (set_response built s) >>> λ head_bytes s1.
    stream_file w file content s1 >>> λ bytes s2. (returns tt, s2)

-- What follows a `try` block whose handler is the default one.
unfoldable pub or_default : World → Step (Unit {0}) → Step (Unit {0})
unfolding serve_default
or_default w (returns u, s) = (returns tt, s)
or_default w (throws never_returns, s) = (throws never_returns, s)
or_default w (throws (http_exception r), s) = serve_default w s
or_default w (throws std_exception, s) = serve_default w s

-- The handler of a page from a file; where something throws, the default handler follows.
unfoldable pub serve_file : World → Bytes → State → Step (Unit {0})
unfolding serve_default serve_content open_file or_default
serve_file w file s = elim (open_file w file) [
  | throws x ↦ serve_default w s
  | returns content ↦ or_default w (serve_content w file content s)
]

unfoldable pub serve_page : World → PageHandler → State → Step (Unit {0})
unfolding serve_file
serve_page w default_page s = serve_default w s
serve_page w (file_page file) s = serve_file w file s
