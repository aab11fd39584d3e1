-- ===== src/Config/Settings.antt =====
-- src/config.cpp: threads, ports, TLS files and `Config::initialize`. No result: the server stops,
-- or what it does is undefined.
pub mod Starts
use cgi_web_server.Base.Int.{ℤ, pos, int_eq}
use cgi_web_server.Base.{
  ℕ, ◌^◌, Bool, true, false, not, ◌&&◌, Option, none, some, List, [], ◌∷◌, if◌then◌else◌, ltb, ◌==◌,
  length,
}
use cgi_web_server.Config.Limiters.{load_global_pipeline}
use cgi_web_server.Config.Roles.{Roles, load_roles}
use cgi_web_server.Config.Routes.{Loaded, load_routes, load_error_pages}
use cgi_web_server.Config.Secret.{Source, load_jwt_secret}
use cgi_web_server.Config.Xml.{Xml, first_child}
use cgi_web_server.Pipeline.Stages.{Middleware}
use cgi_web_server.Pipeline.{Limiter}
use cgi_web_server.Router.{Router, new_router}
use cgi_web_server.Text.Number.{digits_of, value_from, stoi}
use cgi_web_server.Text.{Bytes, codes, is_empty}

abbrev pub no_host_name : Bytes
no_host_name = codes "server"

-- `cfg::SSLConfig`
pub record SslConfig : Type 0 where
  pub active : Bool
  pub key_path : Bytes
  pub certificate_path : Bytes

abbrev pub fallback_threads : ℕ
fallback_threads = 4

-- `std::from_chars` into a 64-bit number, and its test.
unfoldable pub threads_of : Bytes → ℕ
unfolding digits_of value_from
threads_of txt =
    let digits = digits_of txt in
    let n = value_from 0 digits in
    if not (is_empty digits) && (ltb n (2 ^ 64) && ltb 0 n) then n else fallback_threads

unfoldable pub threads_of_text : Option Bytes → ℕ
unfolding threads_of
threads_of_text none = fallback_threads
threads_of_text (some txt) = if is_empty txt then fallback_threads else threads_of txt

-- `loadHostIP`, over the endpoints that are resolved: whether one is of version 4, and its text.
unfoldable pub load_host_ip : List (Bool × Bytes) → Bytes
load_host_ip [] = codes "127.0.0.1"
load_host_ip ((true, address) ∷ endpoints) = address
load_host_ip ((false, address) ∷ endpoints) = load_host_ip endpoints

-- What starting up takes from the system.
pub record Startup : Type 0 where
  pub secrets : Source
  -- `hardware_concurrency()`
  pub hardware : ℕ
  -- whether `chdir` succeeds
  pub enters : Bytes → Bool
  -- `resolve_log_path`
  pub resolve_log_path : Bytes → Bytes
  -- the endpoints of the host's name
  pub endpoints : List (Bool × Bytes)

-- The fields of `cfg::Config`, with the router, the limiters and the pipeline.
pub record Settings : Type 0 where
  pub thread_count : ℕ
  pub roles : Roles
  pub ssl : SslConfig
  pub secret : Bytes
  pub content_path : Bytes
  pub host_name : Bytes
  pub host_address : Bytes
  pub log_path : Bytes
  pub port : ℤ
  pub router : Router
  pub limiters : List (ℕ × Limiter)
  pub middlewares : List Middleware

-- A step of start-up, and the steps behind it if it succeeds.
infixr 20 ◌then_load◌
abbrev pub ◌then_load◌ {ℓ κ} : {A : Type ℓ} → {B : Type κ} → Option A → (A → Option B) → Option B
none then_load f = none
some a then_load f = f a

module _ (x : Xml) where
  unfoldable pub load_threads : ℕ → x.Element → ℕ
  unfolding threads_of_text first_child
  load_threads hardware config = elim (first_child x config (codes "Threads")) [
    | none ↦ if hardware == 0 then fallback_threads else hardware
    | some threads_el ↦ threads_of_text (x.get_text threads_el)
  ]

  -- The text of a child that has to be there.
  unfoldable pub text_of : x.Element → Bytes → Option Bytes
  unfolding first_child
  text_of config name = elim (first_child x config name) [ none ↦ none | some el ↦ x.get_text el ]

  unfoldable pub text_or : x.Element → Bytes → Bytes → Bytes
  unfolding text_of
  text_or config name default = elim (text_of config name) [ none ↦ default | some text ↦ text ]

  -- A `Host` element without a text is a null pointer.
  unfoldable pub load_host_name : x.Element → Option Bytes
  unfolding first_child
  load_host_name config = elim (first_child x config (codes "Host")) [
    | none ↦ some no_host_name
    | some host ↦ x.get_text host
  ]

  unfoldable pub load_port : x.Element → Option ℤ
  unfolding stoi first_child
  load_port config = elim (first_child x config (codes "Port")) [
    | none ↦ some (pos 80)
    | some host_port ↦ elim (x.get_text host_port) [ none ↦ none | some text ↦ stoi text ]
  ]

  -- The TLS settings, and the port.
  unfoldable pub load_ssl : x.Element → ℤ → Option (SslConfig × ℤ)
  unfolding text_of first_child
  load_ssl config port = elim (first_child x config (codes "SSL")) [
    | none ↦ some (record { active = false; key_path = []; certificate_path = [] }, port)
    | some ssl_config ↦ text_of ssl_config (codes "Certificate") then_load λ certificate_path.
        text_of ssl_config (codes "PrivateKey") then_load λ key_path. some (
          record { active = true; key_path = key_path; certificate_path = certificate_path },
          if int_eq port (pos 80) then pos 443 else port,
        )
  ]

  -- `initialize` on the `ServerConfig` element. `fuel`: the rounds of `loadErrorPages`.
  unfoldable pub initialize : ℕ → Startup → x.Element → Option Settings
  unfolding load_threads text_of text_or load_host_name load_port load_ssl load_jwt_secret
      load_error_pages load_roles load_routes load_global_pipeline load_host_ip
  initialize fuel start config = text_of config (codes "WebDirectory") then_load λ content_path.
      (if start.enters content_path then some content_path else none) then_load λ _.
      load_host_name config then_load λ host_name.
      load_jwt_secret x start.secrets config [] then_load λ secret.
      load_port config then_load λ port.
      load_error_pages x fuel config new_router then_load λ with_pages.
      load_roles x config then_load λ roles. load_ssl config port then_load λ ssl.
      load_routes x content_path config (record { router = with_pages; limiters = [] })
      then_load λ loaded.
          load_global_pipeline x (length loaded.limiters) config loaded.limiters
          then_load λ pipeline. some (record {
            thread_count = load_threads start.hardware config;
            roles = roles;
            ssl = ssl.0;
            secret = secret;
            content_path = content_path;
            host_name = host_name;
            host_address = load_host_ip start.endpoints;
            log_path =
                start.resolve_log_path (text_or config (codes "LogDirectory") (codes "./log"));
            port = ssl.1;
            router = loaded.router;
            limiters = pipeline.1;
            middlewares = pipeline.0;
          })
