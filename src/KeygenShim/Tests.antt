-- ===== src/KeygenShim/Tests.antt =====
-- Runs of gitway-keygen's parser, and its theorems at concrete command lines.
use gitway.Base.{ℕ, String, ◌≡◌, refl, none, some, List, [], ◌∷◌, ◌++◌, ok, err, arith}
use gitway.Base.Text.{lower_is, parse_unsigned}
use gitway.Samples.{text_errors}
use gitway.KeygenShim.Args.{sha512, ssh_sig_sign, Parsed, operation_value, initial, from_args, Scan}
use gitway.KeygenShim.Args.RoundTrip.{command_line, from_args-command_line}
use gitway.KeygenShim.Args.Positions.{option, from_args-Ignored, from_args-missing_value}

-- What git passes to sign a commit.
abbrev signing : Parsed
signing = record {
  mode = ssh_sig_sign;
  key_type = none;
  bits = some 521;
  file = some "/home/u/.ssh/id_ed25519.pub";
  new_passphrase = none;
  old_passphrase = some "";
  comment = none;
  namespace = some "git";
  signer_identity = none;
  signature_file = none;
  allowed_signers = none;
  fingerprint_hash = sha512;
  message_file = some "/tmp/.git_signing_buffer";
}

abbrev print : ℕ → String
print n = "521"

signing_run :
    from_args text_errors (
      "-Y" ∷ "sign" ∷ "-n" ∷ "git" ∷ "-f" ∷ "/home/u/.ssh/id_ed25519.pub" ∷ "-P" ∷ "" ∷ "-E"
      ∷ "Sha512" ∷ "-b" ∷ "521" ∷ "/tmp/.git_signing_buffer" ∷ [])
    ≡ ok signing
unfolding from_args lower_is parse_unsigned
signing_run = refl

from_args-command_line_example : from_args text_errors (command_line print signing) ≡ ok signing
unfolding parse_unsigned
from_args-command_line_example = from_args-command_line text_errors print signing refl refl

abbrev verifying : List String
verifying = "-Y" ∷ "verify" ∷ "-f" ∷ "allowed" ∷ "-I" ∷ "a@b.c" ∷ []

abbrev verifying_scan : Scan
verifying_scan = record initial {
  p = record (initial.p) { file = some "allowed"; signer_identity = some "a@b.c" };
  sshsig_op = some "verify";
}

from_args-Ignored_example :
    from_args text_errors (verifying ++ "-Overify-time=20260101000000" ∷ "-s" ∷ "sig" ∷ [])
    ≡ from_args text_errors (verifying ++ "-s" ∷ "sig" ∷ [])
unfolding from_args
from_args-Ignored_example =
    from_args-Ignored text_errors verifying ("-s" ∷ "sig" ∷ []) "-Overify-time=20260101000000"
      verifying_scan (ground arith) refl (option "v" "erify-time=20260101000000")

from_args-missing_value_example :
    from_args text_errors (verifying ++ "-Y" ∷ []) ≡ err "-Y requires a value"
unfolding from_args
from_args-missing_value_example =
    from_args-missing_value text_errors verifying operation_value verifying_scan (ground arith) refl
