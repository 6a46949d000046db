-- ===== src/Keygen/Run.antt =====
-- gitway-cli/src/sign.rs, and `run_verify` and `run` of gitway-cli/src/keygen.rs.
use gitway.Base.{
  String, ◌<>◌, true, Option, none, some, [], ◌∷◌, Result, ok, err, ok_or, if◌then◌else◌,
}
use gitway.Base.Io.{Io, ◌>>=◌, lift, give}
use gitway.Base.Json.{string, boolean, Output, lines, document, fields}
use gitway.Console.{OutputMode, human, json}
use gitway.Errors.{Errors}
use gitway.Keys.{Keys}
use gitway.Keygen.{
  SignArgs, VerifyArgs, Subcommand, generate, fingerprint, extract_public, change_passphrase, sign,
  verify, Printed, hashkind_to_sshkey, run_generate, run_fingerprint, run_extract_public,
  run_change_passphrase, open_input, write_output,
}
use gitway.Tools.{Tools, Verified, read_text}

module _ {W : Type 0} (E : Errors) (K : Keys) (T : Tools W E K)
    (prompt : String → Io W E.Error String) where
  discovered : Result E.Error (Option String) → Result E.Error String
  discovered (ok o) = ok_or o E.no_key_found
  discovered (err e) = err e

  unfoldable pub resolve_key_path : Option String → Io W E.Error String
  unfolding discovered
  resolve_key_path (some path) = give path
  resolve_key_path none = λ w. (discovered (T.find_identity w), w)

  parsed : String → String → Result E.Error K.PrivateKey
  parsed path pem = elim (K.parse_private pem) [
    | ok key ↦ ok key
    | err e ↦ err (E.invalid_config ("cannot parse " <> path <> ": " <> e))
  ]

  decrypted : K.PrivateKey → String → Result E.Error K.PrivateKey
  decrypted key p = elim (K.decrypt key p) [
    | ok plain ↦ ok plain
    | err e ↦ err (E.signing ("failed to decrypt private key: " <> e))
  ]

  pub unlocked : String → K.PrivateKey → Io W E.Error K.PrivateKey
  unfolding decrypted
  unlocked path key =
      if K.is_encrypted key then (prompt path >>= λ p. lift (decrypted key p)) else give key

  unfoldable pub load_and_decrypt : String → Io W E.Error K.PrivateKey
  unfolding parsed unlocked
  load_and_decrypt path =
      read_text E K T path >>= λ pem. lift (parsed path pem) >>= λ key. unlocked path key

  -- The record that the JSON mode writes to stderr is left out: in both modes stdout has the signature only.
  unfoldable pub run_sign : SignArgs → OutputMode → Io W E.Error Printed
  unfolding resolve_key_path load_and_decrypt
  run_sign args mode = resolve_key_path args.key >>= λ path. load_and_decrypt path >>= λ key.
      open_input E K T prompt args.input >>= λ input.
      T.sign input key args.namespace (hashkind_to_sshkey args.hash) >>= λ armored.
      write_output E K T prompt args.output armored >>= λ _. give (0, lines [])

  verified_output : OutputMode → VerifyArgs → Verified → Output
  verified_output json args v = document "gitway keygen verify" (
      fields (
        ("verified", boolean true)
        ∷ ("signer", string v.principal)
        ∷ ("fingerprint", string v.fingerprint)
        ∷ ("namespace", string args.namespace)
        ∷ []))
  verified_output human args v = lines (
      ("Good \"" <> args.namespace <> "\" signature for " <> v.principal <> " with ssh key "
        <> v.fingerprint)
      ∷ [])

  unfoldable pub run_verify : VerifyArgs → OutputMode → Io W E.Error Printed
  unfolding verified_output
  run_verify args mode = read_text E K T args.signature >>= λ armored.
      (λ w. (T.load_allowed args.allowed_signers w, w)) >>= λ allowed.
      open_input E K T prompt args.input >>= λ input.
      T.verify input armored args.signer args.namespace allowed >>= λ verified.
      give (0, verified_output mode args verified)

  unfoldable pub run : Subcommand → OutputMode → Io W E.Error Printed
  unfolding run_sign run_verify
  run (generate args) mode = run_generate E K T prompt args mode
  run (fingerprint args) mode = run_fingerprint E K T prompt args mode
  run (extract_public args) mode = run_extract_public E K T prompt args mode
  run (change_passphrase args) mode = run_change_passphrase E K T prompt args mode
  run (sign args) mode = run_sign args mode
  run (verify args) mode = run_verify args mode
