-- ===== src/Pipeline/Keys.antt =====
-- src/config.cpp: what the key functions make of a transaction, given its client's address and its
-- request.
use cgi_web_server.Base.{Bool, true, false, if◌then◌else◌, not}
use cgi_web_server.Config.Keys.{KeyFunc, by_ip, by_header, by_xff, by_query, parse_xff}
use cgi_web_server.Http.Response.{Result, returns, http_error}
use cgi_web_server.Http.Status
use cgi_web_server.Pipeline.{Request, get_header}
use cgi_web_server.Text.{Bytes, codes, is_empty}

-- The address of the client stands in for a key that is missing, or the request is refused.
unfoldable pub fall_back : Bool → Bytes → Result Bytes
fall_back true ip = returns ip
fall_back false ip = http_error Status.bad_request

unfoldable pub key_or_fall_back : Bytes → Bool → Bytes → Result Bytes
unfolding fall_back
key_or_fall_back key fallback ip = if not (is_empty key) then returns key else fall_back fallback ip

unfoldable pub make_key : KeyFunc → Bytes → Request → Result Bytes
unfolding get_header key_or_fall_back fall_back parse_xff
make_key by_ip ip request = returns ip
make_key (by_header name fallback) ip request =
    key_or_fall_back (get_header name request) fallback ip
make_key (by_xff fallback) ip request =
    let header = get_header (codes "X-Forwarded-For") request in
    if not (is_empty header) then returns (parse_xff header) else fall_back fallback ip
make_key (by_query fallback) ip request = key_or_fall_back request.query fallback ip
