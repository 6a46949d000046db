-- ===== src/Config/Tests.antt =====
-- Runs of `gitway config show`, and of its redaction of paths.
use gitway.Base.{ℕ, suc, zero, String, ◌≡◌, refl, true, false, none, some, [], ◌∷◌, ok, err}
use gitway.Base.Json.{lines}
use gitway.Base.Text.{eq_ignore_ascii_case}
use gitway.Base.Decimal.{decimal}
use gitway.Config.{
  jump_lines, emit_human_show, emit_show, after_resolve, run_show, ssh_config_paths_from_args,
}
use gitway.Config.Types.{Resolved, Resolver, ConfigShowArgs, accept_new}
use gitway.Config.Hides.{both_private, same_path, no_files, next_file, no_agent, run_show-hides}
use gitway.Config.Paths.{file_name, private_name, looks_like_private_key, display_path}
use gitway.Console.{human}
use gitway.Samples.{text_errors}

looks_like_private_key_test :
    (looks_like_private_key "/home/u/.ssh/id_ed25519" ≡ true)
    × (looks_like_private_key "/home/u/.config/gitway/keys/id_ecdsa" ≡ true)
    × (looks_like_private_key "/home/u/.ssh/id_ed25519.pub" ≡ false)
    × (looks_like_private_key "/home/u/.ssh/known_hosts" ≡ false)
    × (looks_like_private_key "/etc/ssh/id_host" ≡ false)
    × (looks_like_private_key "/home/u/.ssh/id_dsa/.." ≡ false)
unfolding looks_like_private_key file_name private_name
looks_like_private_key_test = (refl, refl, refl, refl, refl, refl)

abbrev resolved_with : String → Resolved
resolved_with key = record {
  hostname = some "github.com";
  user = none;
  port = some 22;
  identity_files = key ∷ "/etc/ssh/id_host" ∷ [];
  identities_only = some true;
  identity_agent = none;
  certificate_files = [];
  proxy_command = none;
  proxy_jump = some "none";
  user_known_hosts_files = [];
  strict_host_key_checking = some accept_new;
  host_key_algorithms = none;
  kex_algorithms = none;
  ciphers = none;
  macs = none;
  connect_timeout = none;
  connection_attempts = none;
  provenance = [];
}

-- In state 0 the key is an RSA key, in the others an Ed25519 key.
abbrev key_in : ℕ → String
key_in zero = "/home/u/.ssh/id_rsa"
key_in (suc n) = "/home/u/.ssh/id_ed25519"

abbrev resolver : Resolver ℕ text_errors
resolver = record {
  default_paths = λ w. record { user = some "/home/u/.ssh/config"; system = none };
  resolve = λ host paths w. ok (resolved_with (key_in w));
  parse_jump_chain = λ text. err "no chain";
  host_key_trust = λ host path w. ok (record { cert_authorities = []; revoked = [] });
}

abbrev show_args : ConfigShowArgs
show_args = record {
  host = "github";
  show_secrets = false;
  user_config = some "";
  system_config = none;
}

paths_test :
    ssh_config_paths_from_args text_errors resolver show_args 0
    ≡ record { user = none; system = none }
unfolding ssh_config_paths_from_args
paths_test = refl

run_show_test :
    run_show text_errors resolver show_args human 0
    ≡ ok (
      0,
      lines (
          "hostname github.com" ∷ "port 22" ∷ "identityfile [REDACTED]"
          ∷ "identityfile /etc/ssh/id_host" ∷ "identitiesonly yes" ∷ "proxyjump none"
          ∷ "stricthostkeychecking accept-new" ∷ []),
    )
unfolding run_show after_resolve emit_show emit_human_show jump_lines eq_ignore_ascii_case decimal
    display_path private_name
run_show_test = refl

run_show-hides_example :
    run_show text_errors resolver show_args human 0
    ≡ run_show text_errors resolver show_args human 1
unfolding looks_like_private_key private_name
run_show-hides_example =
    run_show-hides text_errors resolver show_args human 0 1 refl (λ path. refl)
      (resolved_with (key_in 0)) (resolved_with (key_in 1)) refl refl
      (record {
        files = next_file (both_private refl refl) (next_file (same_path refl) no_files);
        agent = no_agent;
        rest = refl;
      })
