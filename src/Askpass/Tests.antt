-- ===== src/Askpass/Tests.antt =====
-- The prompts at a machine whose SSH_ASKPASS program answers `secret`.
use gitway.Base.{ℕ, String, ◌≡◌, refl, true, none, some, ok, err, if◌then◌else◌, ◌==◌}
use gitway.Base.Text.{lower_is, trim_end_matches}
use gitway.Samples.{text_errors}
use gitway.Console.{Env}
use gitway.Askpass.{Machine, answer, try_askpass}
use gitway.Askpass.Laws.{Answered, try_askpass-Answered}

abbrev forced : Env
forced name =
    if name == "SSH_ASKPASS"
    then some "/usr/bin/ksshaskpass"
    else if name == "SSH_ASKPASS_REQUIRE"
    then some "Force"
    else none

-- `bits` are the permission bits of the program; the state counts the programs that were run.
abbrev machine : ℕ → Machine ℕ String
machine bits = record {
  env = forced;
  is_absolute = λ path. true;
  stderr_is_terminal = true;
  permissions = λ path w. some bits;
  run = λ program prompt w.
      (ok (record { status = "0"; succeeded = true; stdout = some "secret\n" }), 1);
  read_to_string = λ path w. err "no such file";
  prompt_password = λ prompt w. (err "no terminal", w);
}

-- `rwxr-xrwx`
refused :
    try_askpass text_errors (machine 495) "Enter passphrase: " 0
    ≡ (err "SSH_ASKPASS /usr/bin/ksshaskpass is world-writable and cannot be trusted", 0)
unfolding try_askpass lower_is
refused = refl

-- `rwxr-xr-x`
try_askpass-Answered_example : Answered text_errors (machine 493) "Enter passphrase: " "secret" 0
unfolding try_askpass lower_is answer trim_end_matches
try_askpass-Answered_example =
    try_askpass-Answered text_errors (machine 493) "Enter passphrase: " "secret" 0 refl
