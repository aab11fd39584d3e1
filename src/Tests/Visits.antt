-- ===== src/Tests/Visits.antt =====
-- Examples for the clients of a limiter.
use cgi_web_server.Http.Args.{parsed}
use cgi_web_server.Base.Assoc.{lookup}
use cgi_web_server.Base.Int.{pos}
use cgi_web_server.Base.{◌≡◌, refl, arith, true, false, some, none, List, [], ◌∷◌, length}
use cgi_web_server.Config.Keys.{by_ip}
use cgi_web_server.Http.Io.{no_error}
use cgi_web_server.Limit.Window.{FixedWindowSetting}
use cgi_web_server.Pipeline.Limiting.Alone.{answers-visits_of}
use cgi_web_server.Pipeline.Limiting.Isolation.{Visit, answers, visits_of, is_client}
use cgi_web_server.Pipeline.{nat_keys, World, State, new_request, new_transaction, fixed_window}
use cgi_web_server.Router.{new_router}
use cgi_web_server.Tests.Documents.{all_well}
use cgi_web_server.Text.{Bytes, codes}

abbrev world : Bytes → World
world address = record {
  client_ip = address;
  read = (no_error, []);
  writes = λ before s. record { error = no_error; bytes = length s } ∷ [];
  file_exists = λ path. true;
  read_file = λ path. none;
  read_fails = λ path at. false;
  run_script = λ path input. record { spawning = all_well; chunks = []; ends = true };
  parse_json = λ s. parsed;
  steady = 70;
  epoch = 1000;
  date = codes "today";
}

abbrev visit : Bytes → Visit
visit address = record { world = world address; request = new_request }

-- One request a minute.
abbrev setting : FixedWindowSetting
setting = record { window_seconds = 60; max_requests = pos 1 }

abbrev state : State
state = record {
  txn = new_transaction;
  router = new_router;
  limiters = (0, fixed_window setting by_ip []) ∷ [];
  sent = [];
  logged = [];
}

abbrev visits : List Visit
visits = visit (codes "a") ∷ visit (codes "b") ∷ visit (codes "a") ∷ visit (codes "b") ∷ []

found : lookup 0 state.limiters ≡ some (fixed_window setting by_ip [])
unfolding lookup
found = refl

answers-visits_of_example :
    answers 0 (is_client by_ip (codes "a")) visits state
    ≡ answers 0 (is_client by_ip (codes "a")) (visits_of (is_client by_ip (codes "a")) visits) state
answers-visits_of_example =
    answers-visits_of 0 (fixed_window setting by_ip []) (codes "a") visits state found (omega arith)
