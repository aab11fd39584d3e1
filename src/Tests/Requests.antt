-- ===== src/Tests/Requests.antt =====
-- Examples for src/http.cpp: requests, forms and arguments.
use cgi_web_server.Http.Args.{parsed, is_valid_json}
use cgi_web_server.Base.{◌≡◌, refl, ◌↔◌, true, List, [], ◌∷◌, All}
use cgi_web_server.Http.Args.Laws.{extract_args-Admits, Admits}
use cgi_web_server.Http.Args.{
  extract_args, get_args, get_content_type, extract_header_field, before_semicolon,
}
use cgi_web_server.Http.Form.Accepts.{is_valid_url_form_iff}
use cgi_web_server.Http.Form.Coding.{form_text, parse_url_form-form_text, IsBytePair}
use cgi_web_server.Http.Form.Grammar.{IsForm}
use cgi_web_server.Http.Form.{is_valid_url_form, parse_url_form}
use cgi_web_server.Http.Method.{body_json}
use cgi_web_server.Http.Request.HeaderBlock.{insert_all}
use cgi_web_server.Http.Request.Render.{Parts, IsWellFormed}
use cgi_web_server.Http.Request.{extract_body, body_start, line_end_from}
use cgi_web_server.Http.Response.{returns}
use cgi_web_server.Tests.Helpers.{Without-of_avoids, IsHeader-of_is_plain, IsByte-of_are_bytes}
use cgi_web_server.Text.{Bytes, codes, find, to_lower}

abbrev pub login : Parts
login = record {
  method = codes "POST";
  target = codes "/login?next=1";
  version = codes "HTTP/1.1";
  headers = (codes "Host", codes "a.b") ∷ (codes "Content-Type", codes "application/json") ∷ [];
  content = codes "{}\nrest";
}

pub login-IsWellFormed : IsWellFormed login
login-IsWellFormed = record {
  method_no_space = Without-of_avoids b' ' (codes "POST") refl;
  method_no_cr = Without-of_avoids b'\r' (codes "POST") refl;
  target_no_space = Without-of_avoids b' ' (codes "/login?next=1") refl;
  target_no_cr = Without-of_avoids b'\r' (codes "/login?next=1") refl;
  version_no_cr = Without-of_avoids b'\r' (codes "HTTP/1.1") refl;
  header_parts = (
    IsHeader-of_is_plain (codes "Host", codes "a.b") refl,
    (IsHeader-of_is_plain (codes "Content-Type", codes "application/json") refl, tt),
  );
}

is_valid_url_form_iff_example :
    (is_valid_url_form (codes "a=1&b=%20") ≡ true) ↔ IsForm (codes "a=1&b=%20")
is_valid_url_form_iff_example = is_valid_url_form_iff (codes "a=1&b=%20")

abbrev fields : List (Bytes × Bytes)
fields = (codes "user", codes "a b") ∷ (codes "user", codes "c&d") ∷ []

fields-IsBytePair : All IsBytePair fields
fields-IsBytePair = (
  (IsByte-of_are_bytes (codes "user") refl, IsByte-of_are_bytes (codes "a b") refl),
  ((IsByte-of_are_bytes (codes "user") refl, IsByte-of_are_bytes (codes "c&d") refl), tt),
)

parse_url_form-form_text_example : parse_url_form (form_text fields) ≡ insert_all fields []
parse_url_form-form_text_example = parse_url_form-form_text fields fields-IsBytePair

abbrev json_request : Bytes
json_request = codes "POST /x HTTP/1.1\r\nContent-Type: application/json\r\n\r\n{}"

taken : extract_args (λ s. parsed) json_request body_json ≡ returns (codes "{}")
unfolding extract_args is_valid_json get_args extract_body get_content_type extract_header_field
    before_semicolon body_start line_end_from find to_lower
taken = refl

extract_args-Admits_example : Admits (λ s. parsed) json_request body_json (codes "{}")
extract_args-Admits_example =
    extract_args-Admits (λ s. parsed) json_request body_json (codes "{}") taken
