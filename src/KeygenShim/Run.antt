-- ===== src/KeygenShim/Run.antt =====
-- The operations of gitway-cli/src/bin/gitway-keygen.rs and its `run`.
use gitway.Base.{
  String, ◌<>◌, ◌==◌, ◌||◌, Option, none, some, List, [], ◌∷◌, Result, ok, err, ok_or, or_else,
  unwrap_or, any, if◌then◌else◌,
}
use gitway.Base.Decimal.{decimal}
use gitway.Base.Io.{Io, ◌>>=◌, lift, give}
use gitway.Base.Text.{is_empty_text}
use gitway.Errors.{Errors}
use gitway.Keys.{Keys}
use gitway.KeygenShim.Args.{
  generate_key, print_fingerprint, extract_public, change_passphrase, ssh_sig_sign, ssh_sig_verify,
  ssh_sig_check_no_validate, ssh_sig_find_principals, Parsed, from_args, sha256,
}
use gitway.KeygenShim.Resolve.{
  parse_kind, load_public_key, parsed_key, decrypted, default_comment, public_bit_estimate,
}
use gitway.KeygenShim.Sign.{Printed, run_sign}
use gitway.Tools.{Tools, bytes, read_text, system}

-- An empty passphrase is none.
abbrev pub some_unless_empty : String → Option String
some_unless_empty p = if is_empty_text p then none else some p

module _ {W : Type 0} (E : Errors) (K : Keys) (T : Tools W E K) where
  pub required : {A : Type 0} → String → Option A → Io W E.Error A
  required text o = lift (ok_or o (E.invalid_config text))

  -- `-N`, or the prompt.
  pub new_passphrase : String → Option String → Io W E.Error (Option String)
  new_passphrase prompt (some p) = give (some_unless_empty p)
  new_passphrase prompt none =
      system E K T (T.prompt_password prompt) >>= λ p. give (some_unless_empty p)

  -- `-P`, or the prompt.
  pub given_or_asked : String → Option String → Io W E.Error String
  given_or_asked prompt (some p) = give p
  given_or_asked prompt none = system E K T (T.prompt_password prompt)

  unfoldable pub run_generate : Parsed → Io W E.Error Printed
  unfolding required new_passphrase
  run_generate p = required "-f FILE is required" p.file >>= λ file.
      lift (parse_kind E K T (unwrap_or p.key_type "ed25519") p.bits) >>= λ kind.
      let comment = unwrap_or p.comment (default_comment E K T) in
      new_passphrase ("Enter passphrase (empty for none) for " <> file <> ": ") p.new_passphrase
      >>= λ passphrase. T.generate kind p.bits comment >>= λ key.
          T.write_keypair key file passphrase >>= λ _. give (
            0,
            ("Your identification has been saved in " <> file)
                ∷ ("Your public key has been saved in " <> file <> ".pub")
                ∷ "The key fingerprint is:"
                ∷ (K.fingerprint (K.public_key key) sha256 <> " " <> comment)
                ∷ [],
          )

  unfoldable pub run_fingerprint : Parsed → Io W E.Error Printed
  unfolding required
  run_fingerprint p = required "-f FILE is required" p.file >>= λ file.
      load_public_key E K T file >>= λ public. give (
        0,
        (decimal (public_bit_estimate E K T public)
              <> " "
              <> K.fingerprint public p.fingerprint_hash
              <> " "
              <> T.comment public
              <> " ("
              <> K.algorithm public
              <> ")")
            ∷ [],
      )

  pub opened : String → Option String → K.PrivateKey → Io W E.Error K.PrivateKey
  unfolding given_or_asked
  opened file old key =
      if K.is_encrypted key
      then (given_or_asked ("Enter passphrase for " <> file <> ": ") old >>= λ p.
          lift (decrypted E K T key p))
      else give key

  pub public_line : K.PublicKey → Result E.Error String
  public_line key = elim (K.to_openssh key) [
    | ok line ↦ ok line
    | err e ↦ err (E.signing ("serialize failed: " <> e))
  ]

  unfoldable pub run_extract_public : Parsed → Io W E.Error Printed
  unfolding required opened public_line
  run_extract_public p = required "-f FILE is required" p.file >>= λ file.
      read_text E K T file >>= λ pem. lift (parsed_key E K T pem) >>= λ key.
      opened file p.old_passphrase key >>= λ plain.
      lift (public_line (K.public_key plain)) >>= λ line.
      system E K T (T.write_stdout (line <> "\n")) >>= λ _. give (0, [])

  unfoldable pub run_change_passphrase : Parsed → Io W E.Error Printed
  unfolding required given_or_asked new_passphrase
  run_change_passphrase p = required "-f FILE is required" p.file >>= λ file.
      given_or_asked ("Enter old passphrase for " <> file <> ": ") p.old_passphrase >>= λ old.
      new_passphrase "Enter new passphrase (empty for none): " p.new_passphrase >>= λ new.
      T.change_passphrase file (some old) new >>= λ _.
      give (0, "Your identification has been saved with the new passphrase." ∷ [])

  pub allowed_path : Parsed → Io W E.Error String
  unfolding required
  allowed_path p = required "-f or --allowed-signers is required" (or_else p.allowed_signers p.file)

  unfoldable pub run_verify : Parsed → Io W E.Error Printed
  unfolding required allowed_path
  run_verify p = required "-n NAMESPACE is required" p.namespace >>= λ ns.
      required "-I IDENTITY is required" p.signer_identity >>= λ signer.
      required "-s SIG is required" p.signature_file >>= λ sig_path. allowed_path p >>= λ path.
      read_text E K T sig_path >>= λ armored. (λ w. (T.load_allowed path w, w)) >>= λ allowed.
      system E K T T.read_stdin >>= λ content.
      T.verify (bytes content) armored signer ns allowed >>= λ verified. give (
        0,
        ("Good \"" <> ns <> "\" signature for " <> signer <> " with ssh key "
              <> verified.fingerprint)
            ∷ [],
      )

  unfoldable pub run_check_novalidate : Parsed → Io W E.Error Printed
  unfolding required
  run_check_novalidate p = required "-n NAMESPACE is required" p.namespace >>= λ ns.
      required "-s SIG is required" p.signature_file >>= λ sig_path.
      read_text E K T sig_path >>= λ armored. system E K T T.read_stdin >>= λ content.
      T.check_novalidate (bytes content) armored ns >>= λ _.
      give (0, ("Good \"" <> ns <> "\" signature (cryptographic check only)") ∷ [])

  pub principals : String → T.AllowedSigners → Option String → Result E.Error (List String)
  principals armored allowed (some ns) = T.find_principals armored allowed ns
  principals armored allowed none = T.find_principals_any_ns armored allowed

  unfoldable pub run_find_principals : Parsed → Io W E.Error Printed
  unfolding required allowed_path principals
  run_find_principals p = required "-s SIG is required" p.signature_file >>= λ sig_path.
      allowed_path p >>= λ path. read_text E K T sig_path >>= λ armored.
      (λ w. (T.load_allowed path w, w)) >>= λ allowed.
      lift (principals armored allowed p.namespace) >>= λ found. give (0, found)

  unfoldable pub perform : Parsed → Io W E.Error Printed
  unfolding run_generate run_fingerprint run_extract_public run_change_passphrase run_verify
      run_check_novalidate run_find_principals
  perform p = elim (p.mode) [
    | generate_key ↦ run_generate p
    | print_fingerprint ↦ run_fingerprint p
    | extract_public ↦ run_extract_public p
    | change_passphrase ↦ run_change_passphrase p
    | ssh_sig_sign ↦ run_sign E K T p
    | ssh_sig_verify ↦ run_verify p
    | ssh_sig_check_no_validate ↦ run_check_novalidate p
    | ssh_sig_find_principals ↦ run_find_principals p
  ]

  -- `help` is what `print_help` prints.
  unfoldable pub run : List String → List String → Io W E.Error Printed
  unfolding perform
  run help args =
      if any (λ a. a == "--help" || a == "-?") args
      then give (0, help)
      else (lift (from_args E args) >>= λ p. perform p)
