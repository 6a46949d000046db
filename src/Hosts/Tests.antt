-- ===== src/Hosts/Tests.antt =====
-- `gitway hosts` with a host that shows one fingerprint, and a file with one kind of revoked line: the state is
-- the text of the file, one character for each line.
use Prim.Native.Char.{char}
use gitway.Base.{
  String, ◌==◌, ◌&&◌, ◌≡◌, refl, true, false, none, some, List, [], ◌∷◌, Result, ok, err,
  if◌then◌else◌,
}
use gitway.Base.Json.{lines}
use gitway.Base.Text.{trim, lower_is, strip_prefix}
use gitway.Console.{human}
use gitway.Samples.{text_errors}
use gitway.Hosts.{
  AddArgs, RevokeArgs, Pin, KnownHostsFile, Network, Machine, plaintext, no_known_hosts, run_add,
  run_revoke, pad,
}
use gitway.Hosts.Add.{Quiet, Ends, run_add-Ends}
use gitway.Hosts.Revoke.{Revoked, run_revoke-Revoked}

abbrev the_pin : Pin
the_pin = record { host_pattern = "*"; fingerprint = "SHA256:a" }

abbrev pins_of : String → List Pin
pins_of String.[] = []
pins_of (String.◌∷◌ c s) = the_pin ∷ pins_of s

abbrev revoked_in : String → KnownHostsFile
revoked_in s = record (no_known_hosts) { revoked = pins_of s }

abbrev prepend : String → String → String → Result String (Unit {0}) × String
prepend pattern fingerprint w =
    if pattern == "*" && fingerprint == "SHA256:a"
    then (ok tt, String.◌∷◌ (char 120 tt) w)
    else (err "unknown", w)

abbrev network : Network String text_errors
network = record {
  Session = String;
  connect = λ c w. (ok "session", w);
  verified_fingerprint = λ s w. some "SHA256:a";
  close = λ s w. (ok tt, w);
  default_known_hosts_path = λ w. some "/home/u/.config/gitway/known_hosts";
  detect_hash_mode = λ path w. ok plaintext;
  append_known_host = λ path host fingerprint w. (ok tt, "pinned");
  append_known_host_hashed = λ path host fingerprint w. (ok tt, "hashed");
  prepend_revoked = λ path pattern fingerprint w. prepend pattern fingerprint w;
  host_key_trust = λ host path w. ok ("SHA256:a" ∷ []);
  parse_known_hosts = λ s. ok (revoked_in s);
  all_embedded = [];
}

-- A user at a terminal who agrees.
abbrev machine : Machine String
machine = record {
  tempdir = λ w. (ok "/tmp/probe", w);
  join = λ a b. a;
  exists = λ path w. true;
  read_to_string = λ path w. ok w;
  stdin_is_terminal = λ w. true;
  read_line = λ w. (ok " Yes\n", w);
}

abbrev add_args : AddArgs
add_args = record {
  host = "example.org";
  known_hosts = none;
  yes = false;
  hash = false;
  no_hash = false;
}

network-Quiet : Quiet text_errors network machine (λ (w : String). w)
network-Quiet = record {
  tempdir_keeps = λ w. refl;
  connect_keeps = λ c w. refl;
  close_keeps = λ s w. refl;
  read_line_keeps = λ w. refl;
}

run_add-Ends_example :
    Ends text_errors network machine
      (λ (w : String). w)
      add_args
      human
      ""
      (run_add text_errors network machine add_args human "")
run_add-Ends_example =
    run_add-Ends text_errors network machine (λ w. w) network-Quiet add_args human ""

run_add_test : run_add text_errors network machine add_args human "" ≡ (ok (0, lines []), "pinned")
unfolding run_add lower_is trim
run_add_test = refl

abbrev revoke_args : RevokeArgs
revoke_args = record { input = " SHA256:a"; known_hosts = some "/hosts" }

run_revoke-Revoked_example : Revoked text_errors network machine revoke_args human 0 (lines []) ""
unfolding run_revoke strip_prefix trim
run_revoke-Revoked_example =
    run_revoke-Revoked text_errors network machine revoke_args human 0 (lines []) "" refl

pad_test : pad 4 "ab" ≡ "ab  "
unfolding pad
pad_test = refl
