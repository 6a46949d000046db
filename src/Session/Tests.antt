-- ===== src/Session/Tests.antt =====
-- Sessions with a server that accepts the key once its passphrase is given. The state says whether
-- it has done so.
use gitway.Base.{
  String, ◌≡◌, refl, Bool, true, false, Option, none, some, List, [], ◌∷◌, ok, err, ◌==◌,
}
use gitway.Base.Io.{Io}
use gitway.Base.Text.{eq_ignore_ascii_case}
use gitway.Session.{
  Ssh, encrypted, Resolved, resolve_proxy_directives, connect_session, run_exec, run_test,
}
use gitway.Session.Route.{resolve_proxy_directives-flags}
use gitway.Session.Auth.{Authenticates, Ran, run_exec-Ran, run_test-modes}

abbrev server : Ssh Bool
server = record {
  Error = String;
  is_key_encrypted = λ e. e == "encrypted";
  is_no_key_found = λ e. e == "no key found";
  no_key_found = "no key found";
  authentication_failed = "authentication failed";
  Config = String;
  JumpHost = String;
  Session = String;
  parse_jump_chain = λ raw. ok (raw ∷ []);
  find_identity = λ config w. ok (encrypted "/home/u/.ssh/id_ed25519");
  agent_has_keys = λ w. (false, w);
  connect = λ config w. (ok "direct", w);
  connect_via_proxy_command = λ config template alias w. (ok template, w);
  connect_via_jump_hosts = λ config hosts w. (ok "jump", w);
  authenticate_best = λ session config w. (err "encrypted", w);
  authenticate_with_passphrase = λ session config path p w. (ok tt, true);
  exec = λ session command w. (ok 7, w);
  close = λ session w. (ok tt, w);
}

abbrev types : String → Io Bool String String
types path w = (ok "secret", w)

server-Authenticates : Authenticates server types (λ w session. w)
server-Authenticates = record { best = λ s c w h. cc; with_passphrase = λ s c path p w h. refl }

run_exec-Ran_example :
    Ran server types "github.com"
      ("git-upload-pack" ∷ "'repo'" ∷ [])
      "github.com"
      none
      []
      7
      (λ w session. w)
      false
unfolding run_exec
run_exec-Ran_example =
    run_exec-Ran server types server-Authenticates "github.com" ("git-upload-pack" ∷ "'repo'" ∷ [])
      "github.com" none [] 7 false refl

run_test-modes_example :
    run_test server types "github.com" "github.com" none [] true false
    ≡ run_test server types "github.com" "github.com" none [] false false
run_test-modes_example =
    run_test-modes server types (λ s u. refl) "github.com" "github.com" none [] false

abbrev from_config : Option Resolved
from_config = some (record { proxy_command = some "nc %h %p"; proxy_jump = some "bastion" })

resolve_proxy_directives-flags_example :
    (resolve_proxy_directives server (some "None") ("NONE" ∷ []) from_config
      ≡ resolve_proxy_directives server (some "None") ("NONE" ∷ []) none)
    × (eq_ignore_ascii_case "None" "none" ≡ true
        → eq_ignore_ascii_case "NONE" "none" ≡ true
        → (given : Option String × List String) × (resolve_proxy_directives server
              (some "None")
              ("NONE" ∷ [])
              from_config
            ≡ ok given)
          × ((config : String) (alias : String) (w : Bool)
              → connect_session server config alias given.0 given.1 w ≡ server.connect config w))
resolve_proxy_directives-flags_example =
    resolve_proxy_directives-flags server "None" "NONE" [] from_config none

none_tests :
    (eq_ignore_ascii_case "None" "none" ≡ true)
    × (resolve_proxy_directives server none [] from_config ≡ ok (some "nc %h %p", "bastion" ∷ []))
unfolding eq_ignore_ascii_case resolve_proxy_directives
none_tests = (refl, refl)
