-- ===== src/Startup/Tests.antt =====
-- A configuration with the flags -l and -p, over a builder that holds the settings in the order in which they were
-- made, the last first.
use gitway.Base.{
  String, true, ◌==◌, ◌≡◌, refl, false, Option, none, some, List, [], ◌∷◌, ok, err, unwrap_or,
  or_else,
}
use gitway.Session.{Ssh, not_found}
use gitway.Startup.{
  Cli, Setting, username, port, connect_timeout, Builders, configure, base, compute_config_sources,
}
use gitway.Startup.Precedence.{IsField, as_username, as_port, as_timeout, configure-precedence}

abbrev offline : Ssh String
offline = record {
  Error = String;
  is_key_encrypted = λ e. false;
  is_no_key_found = λ e. false;
  no_key_found = "no key found";
  authentication_failed = "authentication failed";
  Config = List Setting;
  JumpHost = String;
  Session = String;
  parse_jump_chain = λ raw. ok (raw ∷ []);
  find_identity = λ config w. ok not_found;
  agent_has_keys = λ w. (false, w);
  connect = λ config w. (err "offline", w);
  connect_via_proxy_command = λ config template alias w. (err "offline", w);
  connect_via_jump_hosts = λ config hosts w. (err "offline", w);
  authenticate_best = λ session config w. (ok tt, w);
  authenticate_with_passphrase = λ session config path p w. (ok tt, w);
  exec = λ session command w. (ok 0, w);
  close = λ session w. (ok tt, w);
}

abbrev settings : Builders offline
settings = record {
  Builder = List Setting;
  Config = List Setting;
  builder = λ host. [];
  set = λ s b. s ∷ b;
  apply_ssh_config = λ r b. r;
  build = λ b. b;
  resolve = λ host w. err "no ssh_config";
  proxies = λ r. record { proxy_command = none; proxy_jump = none };
  defaults = λ category. [];
  apply_overrides = λ category defaults value. ok (value ∷ []);
  invalid_config = λ text. text;
  default_host = "example.org";
}

module _ {X : Type 0} (value : Setting → Option X) (default : X) where
  abbrev value_of : List Setting → X
  value_of [] = default
  value_of (s ∷ rest) = unwrap_or (value s) (value_of rest)

  value_of-IsField : IsField offline settings value_of value
  value_of-IsField = record { sets = λ s x b h. rw h refl; keeps = λ s b h. rw h refl }

abbrev flags : Cli
flags = record {
  host = some "ada@example.org";
  command = "git-upload-pack" ∷ [];
  no_config = false;
  verbose = 0;
  port = none;
  insecure_skip_host_check = false;
  user = some "git";
  identity = none;
  cert = none;
  kex = some "+curve25519-sha256";
  ciphers = none;
  macs = none;
  host_key_algorithms = none;
  connect_timeout = some 3;
  attempts = none;
  max_retry_window = none;
  proxy_command = none;
  jump_host = [];
  test = false;
  install = false;
  json_flag = false;
  format_json = false;
}

abbrev from_file : List Setting
from_file = username "alan" ∷ port 2222 ∷ []

abbrev built : List Setting
built = connect_timeout 3 ∷ Setting.kex ("+curve25519-sha256" ∷ []) ∷ username "git" ∷ from_file

configure-precedence_example :
    (value_of as_username "git" built
      ≡ unwrap_or
          (or_else flags.user (some "ada"))
          (value_of as_username "git" (base offline settings flags "example.org" (some from_file))))
    × (value_of as_port 22 built
        ≡ unwrap_or flags.port
            (value_of as_port 22 (base offline settings flags "example.org" (some from_file))))
    × (value_of as_timeout 0 built
        ≡ unwrap_or flags.connect_timeout
            (value_of as_timeout 0 (base offline settings flags "example.org" (some from_file))))
unfolding configure
configure-precedence_example =
    configure-precedence offline settings (value_of-IsField as_username "git")
      (value_of-IsField as_port 22) (value_of-IsField as_timeout 0) flags (some "ada") "example.org"
      (some from_file) built refl

-- A file that both tiers name is listed twice, one that is missing is not listed.
compute_config_sources_test :
    (cli : Cli)
    → cli.no_config ≡ false
    → (compute_config_sources cli (record { user = some "/c"; system = some "/c" }) (λ path. true)
        ≡ "/c" ∷ "/c" ∷ [])
      × (compute_config_sources cli
            (record { user = some "/c"; system = some "/d" })
            (λ path. path == "/d")
          ≡ "/d" ∷ [])
unfolding compute_config_sources
compute_config_sources_test cli read = rw read (refl, refl)
