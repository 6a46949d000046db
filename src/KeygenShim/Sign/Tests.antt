-- ===== src/KeygenShim/Sign/Tests.antt =====
-- Signing with gitway-keygen at a machine whose agent holds the key.
use gitway.Base.{ℕ, ◌*◌, ◌^◌, ◌<◌, ◌≤◌, String, ◌≡◌, refl, none, some, List, [], ok}
use gitway.Base.Text.{trim, strip_suffix}
use gitway.Samples.{text_errors}
use gitway.Tools.{Tools, is_rsa, is_ed25519, is_p256, is_p384, is_p521}
use gitway.Tools.Sample.{one_key, desk}
use gitway.KeygenShim.Args.{Parsed, ssh_sig_sign, sha256}
use gitway.KeygenShim.Resolve.{
  signing_text, resolve_signing_key_path, public_bit_estimate, rsa_modulus_bits,
}
use gitway.KeygenShim.Resolve.Laws.{
  KeyFile, resolve_signing_key_path-KeyFile, public_bit_estimate-bounds,
}
use gitway.KeygenShim.Sign.{run_sign}
use gitway.KeygenShim.Sign.Laws.{Signed, run_sign-Signed}

abbrev sign_args : Parsed
sign_args = record {
  mode = ssh_sig_sign;
  key_type = none;
  bits = none;
  file = some "/home/u/.ssh/id_ed25519.pub";
  new_passphrase = none;
  old_passphrase = none;
  comment = none;
  namespace = some "git";
  signer_identity = none;
  signature_file = none;
  allowed_signers = none;
  fingerprint_hash = sha256;
  message_file = some "/tmp/message";
}

run_sign-Signed_example :
    (◌≡◌ {A = ℕ} 0 0)
    × (◌≡◌ {A = List String} [] [])
    × Signed text_errors one_key desk sign_args "pub"
unfolding run_sign signing_text
run_sign-Signed_example = run_sign-Signed text_errors one_key desk sign_args 0 [] "pub" refl

resolve_signing_key_path-KeyFile_example :
    (raw : String) × (desk.read_to_string "/home/u/.ssh/id_ed25519.pub" "pub" ≡ ok raw)
    × KeyFile text_errors one_key desk "/home/u/.ssh/id_ed25519.pub" raw "pub"
        "/home/u/.ssh/id_ed25519"
    × ((resolve_signing_key_path text_errors one_key desk "/home/u/.ssh/id_ed25519.pub" "pub").1
        ≡ "pub")
unfolding resolve_signing_key_path trim strip_suffix
resolve_signing_key_path-KeyFile_example =
    resolve_signing_key_path-KeyFile text_errors one_key desk "/home/u/.ssh/id_ed25519.pub"
      "/home/u/.ssh/id_ed25519" "pub" refl

-- The machine of the tests, with a key of RSA.
abbrev rsa_desk : Tools String text_errors one_key
rsa_desk = record desk { algorithm = λ key. is_rsa }

public_bit_estimate-bounds_example :
    (public_bit_estimate text_errors one_key rsa_desk "id" < 2 ^ 32)
    × (is_rsa ≡ is_ed25519 → public_bit_estimate text_errors one_key rsa_desk "id" ≡ 256)
    × (is_rsa ≡ is_p256 → public_bit_estimate text_errors one_key rsa_desk "id" ≡ 256)
    × (is_rsa ≡ is_p384 → public_bit_estimate text_errors one_key rsa_desk "id" ≡ 384)
    × (is_rsa ≡ is_p521 → public_bit_estimate text_errors one_key rsa_desk "id" ≡ 521)
    × ((n : ℕ)
        → is_rsa ≡ is_rsa
        → some 256 ≡ some n
        → (8 * n < 2 ^ 32 → public_bit_estimate text_errors one_key rsa_desk "id" ≡ 8 * n)
          × (2 ^ 32 ≤ 8 * n → public_bit_estimate text_errors one_key rsa_desk "id" ≡ 0))
public_bit_estimate-bounds_example = public_bit_estimate-bounds text_errors one_key rsa_desk "id"

rsa_modulus_bits_test : rsa_modulus_bits text_errors one_key desk "id" ≡ some 2048
unfolding rsa_modulus_bits
rsa_modulus_bits_test = refl
