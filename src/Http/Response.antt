-- ===== src/Http/Response.antt =====
-- src/http.h: `http::Response` and `http::HTTPException`.
use cgi_web_server.Base.Assoc.{insert}
use cgi_web_server.Base.{◌≡◌, refl, ◌⊎◌, inl, inr, List, [], ◌∷◌, ◌++◌}
use cgi_web_server.Http.Status
use cgi_web_server.Http.Status.{Code, get_status_msg}
use cgi_web_server.Text.{Bytes, bytes_keys, codes}

abbrev pub Headers : Type 0
Headers = List (Bytes × Bytes)

pub record Response : Type 0 where
  pub status : Code
  pub status_msg : Bytes
  pub body : Bytes
  pub headers : Headers
  pub built_response : Bytes

-- `Response()`
abbrev pub default_response : Response
default_response = record {
  status = Status.ok;
  status_msg = get_status_msg Status.ok;
  body = [];
  headers = [];
  built_response = [];
}

unfoldable pub set_status : Code → Response → Response
set_status c r = record r { status = c; status_msg = get_status_msg c }

-- `Response(new_status)`
abbrev pub response_of : Code → Response
response_of c = set_status c default_response

unfoldable pub add_header : Bytes → Bytes → Response → Response
add_header k v r = record r { headers = insert k v r.headers }

unfoldable pub add_headers : Headers → Response → Response
add_headers [] r = r
add_headers ((k, v) ∷ hs) r = add_headers hs (record r { headers = insert k v r.headers })

-- The header lines, in the order of the map.
unfoldable pub header_lines : Headers → Bytes
header_lines [] = []
header_lines ((k, v) ∷ hs) = k ++ (codes ": " ++ (v ++ (codes "\r\n" ++ header_lines hs)))

-- The response as it is left, and the text to send; `date` is `get_time_stamp()`.
unfoldable pub build : Bytes → Response → Response × Bytes
unfolding header_lines
build date r =
    let hs = insert (codes "Date") date r.headers in
    let built = r.status_msg ++ (codes "\r\n" ++ header_lines hs) in
    (record r { headers = hs; built_response = built }, built ++ (codes "\r\n" ++ r.body))

-- The two constructors of `HTTPException`, without and with headers. The message is logged only.
-- The `Date` that the constructor's `build` stores is stored anew by the `build` that sends it.
unfoldable pub exception_response : Code → Headers → Response
unfolding add_header add_headers set_status
exception_response c hs =
    add_header (codes "Content-Length") (codes "0")
      (add_header (codes "Connection") (codes "close") (add_headers hs (response_of c)))

-- The end of a call that gives no value: an exception, or, with `never_returns`, none at all, where
-- the loop of `co_write_all` never ends. Nothing catches that.
pub data Exception : Type 0 where
  http_exception : Response → Exception
  std_exception : Exception
  never_returns : Exception

pub data Result {ℓ} (A : Type ℓ) : Type ℓ where
  returns : A → Result A
  throws : Exception → Result A

-- `throw HTTPException(c, message)`
abbrev pub http_error {ℓ} : {A : Type ℓ} → Code → Result A
http_error c = throws (http_exception (exception_response c []))

infixl 5 ◌>>=◌ ◌>>◌
abbrev pub ◌>>=◌ {ℓ κ} : {A : Type ℓ} {B : Type κ} → Result A → (A → Result B) → Result B
returns a >>= f = f a
throws e >>= f = throws e

abbrev pub ◌>>◌ {ℓ} : {B : Type ℓ} → Result (Unit {0}) → Result B → Result B
m >> k = m >>= λ _. k

pub >>=-eq-returns {ℓ κ} :
    {A : Type ℓ} {B : Type κ} (m : Result A) (f : A → Result B) {b : B}
    → (m >>= f) ≡ returns b
    → (a : A) × (m ≡ returns a) × (f a ≡ returns b)
>>=-eq-returns (returns a) f h = (a, refl, h)
>>=-eq-returns (throws e) f h = cc

pub Result-cases {ℓ} :
    {A : Type ℓ} (m : Result A) → ((a : A) × (m ≡ returns a)) ⊎ ((e : Exception) × (m ≡ throws e))
Result-cases (returns a) = inl (a, refl)
Result-cases (throws e) = inr (e, refl)
