-- ===== src/Keygen.antt =====
-- gitway-cli/src/keygen.rs and gitway-cli/src/sign.rs: `gitway keygen` and `gitway sign`, over the same
-- parameters as gitway-keygen and one for `prompt_passphrase`. What is written to stderr is left out.
pub mod Run
pub mod Laws
pub mod Generate
mod Tests
use gitway.Base.{
  ℕ, String, ◌<>◌, ◌==◌, Bool, true, false, Option, none, some, List, [], ◌∷◌, Result, ok, err,
  or_else, unwrap_or, is_some, nat_eq, if◌then◌else◌,
}
use gitway.Base.Decimal.{decimal}
use gitway.Base.Io.{Io, ◌>>=◌, lift, give}
use gitway.Base.Json.{string, boolean, Output, lines, document, fields}
use gitway.Base.Text.{trim, is_empty_text}
use gitway.Console.{OutputMode, human, json}
use gitway.Errors.{Errors}
use gitway.Keys.{Keys}
use gitway.KeygenShim.Args.{HashAlg, sha256, sha512}
use gitway.Tools.{
  IoError, KeyType, ed25519, rsa, ecdsa_p256, ecdsa_p384, ecdsa_p521, Input, stdin, file, Tools,
  read_text, system, from_system,
}

-- The arguments, from gitway-cli/src/cli.rs.
pub data KeyAlg : Type 0 where
  alg_ed25519 alg_ecdsa alg_rsa : KeyAlg

pub data HashKind : Type 0 where
  kind_sha256 kind_sha512 : HashKind

pub record GenerateArgs : Type 0 where
  pub kind : KeyAlg
  pub bits : Option ℕ
  pub file_path : String
  pub passphrase : Option String
  pub no_passphrase : Bool
  pub comment : Option String

pub record FingerprintArgs : Type 0 where
  pub file_path : String
  pub hash : HashKind

pub record ExtractPublicArgs : Type 0 where
  pub file_path : String
  pub output : Option String

pub record ChangePassphraseArgs : Type 0 where
  pub file_path : String
  pub old_passphrase : Option String
  pub new_passphrase : Option String
  pub no_passphrase : Bool

pub record SignArgs : Type 0 where
  pub key : Option String
  pub namespace : String
  pub input : Option String
  pub output : Option String
  pub hash : HashKind

pub record VerifyArgs : Type 0 where
  pub signer : String
  pub namespace : String
  pub allowed_signers : String
  pub signature : String
  pub input : Option String

pub data Subcommand : Type 0 where
  generate : GenerateArgs → Subcommand
  fingerprint : FingerprintArgs → Subcommand
  extract_public : ExtractPublicArgs → Subcommand
  change_passphrase : ChangePassphraseArgs → Subcommand
  sign : SignArgs → Subcommand
  verify : VerifyArgs → Subcommand

abbrev pub Printed : Type 0
Printed = ℕ × Output

abbrev pub hashkind_to_sshkey : HashKind → HashAlg
hashkind_to_sshkey kind_sha256 = sha256
hashkind_to_sshkey kind_sha512 = sha512

abbrev pub pub_path_for : String → String
pub_path_for path = path <> ".pub"

module _ {W : Type 0} (E : Errors) (K : Keys) (T : Tools W E K)
    (prompt : String → Io W E.Error String) where
  curve : ℕ → Result E.Error (KeyType × Option ℕ)
  curve bits =
      if nat_eq bits 256
      then ok (ecdsa_p256, none)
      else if nat_eq bits 384
      then ok (ecdsa_p384, none)
      else if nat_eq bits 521
      then ok (ecdsa_p521, none)
      else err
          (E.invalid_config ("ECDSA curve size must be 256, 384, or 521 — got " <> decimal bits))

  unfoldable pub resolve_kind : KeyAlg → Option ℕ → Result E.Error (KeyType × Option ℕ)
  unfolding curve
  resolve_kind alg_ed25519 bits = ok (ed25519, none)
  resolve_kind alg_rsa bits = ok (rsa, bits)
  resolve_kind alg_ecdsa bits = curve (unwrap_or bits 256)

  unfoldable pub hostname : String
  hostname = unwrap_or (or_else (T.env "HOSTNAME") (T.env "COMPUTERNAME")) "localhost"

  unfoldable pub default_comment : String
  unfolding hostname
  default_comment = unwrap_or (or_else (T.env "USER") (T.env "USERNAME")) "user" <> "@" <> hostname

  matching : String → String → Result E.Error String
  matching first second =
      if first == second
      then ok first
      else err (E.invalid_config "passphrases did not match — aborting")

  repeated : String → Io W E.Error String
  unfolding matching
  repeated first =
      if is_empty_text first
      then give ""
      else (system E K T (T.prompt_password "Enter same passphrase again: ") >>= λ second.
          lift (matching first second))

  unfoldable pub prompt_new_passphrase : String → Io W E.Error String
  unfolding repeated
  prompt_new_passphrase path w =
      if T.stderr_is_terminal w
      then ((system E K T
              (T.prompt_password ("Enter new passphrase for " <> path <> " (empty for none): "))
            >>= λ first. repeated first)
          w)
      else prompt path w

  abbrev pub some_unless_empty : String → Option String
  some_unless_empty p = if is_empty_text p then none else some p

  unfoldable pub resolve_new_passphrase :
      String → Option String → Bool → Io W E.Error (Option String)
  unfolding prompt_new_passphrase
  resolve_new_passphrase path given true = give none
  resolve_new_passphrase path (some p) false = give (some_unless_empty p)
  resolve_new_passphrase path none false =
      prompt_new_passphrase path >>= λ p. give (some_unless_empty p)

  pub generated : OutputMode → GenerateArgs → KeyType → Option String → String → String → Output
  generated human args kind passphrase fp comment = lines []
  generated json args kind passphrase fp comment = document "gitway keygen generate" (
      fields (
        ("private_key_path", string args.file_path)
        ∷ ("public_key_path", string (pub_path_for args.file_path))
        ∷ ("algorithm", string (T.cli_name kind))
        ∷ ("encrypted", boolean (is_some passphrase))
        ∷ ("fingerprint", string fp)
        ∷ ("comment", string comment)
        ∷ []))

  unfoldable pub run_generate : GenerateArgs → OutputMode → Io W E.Error Printed
  unfolding resolve_kind default_comment resolve_new_passphrase generated
  run_generate args mode = lift (resolve_kind args.kind args.bits) >>= λ (kind, bits).
      let comment = unwrap_or args.comment default_comment in
      resolve_new_passphrase args.file_path args.passphrase args.no_passphrase >>= λ passphrase.
      T.generate kind bits comment >>= λ key. T.write_keypair key args.file_path passphrase >>= λ _.
      give
        (0, generated mode args kind passphrase (K.fingerprint (K.public_key key) sha256) comment)

  public_in : String → String → Result E.Error K.PublicKey
  public_in path raw = elim (K.parse_public (trim raw)) [
    | some key ↦ ok key
    | none ↦ elim (K.parse_private raw) [
      | ok key ↦ ok (K.public_key key)
      | err e ↦ err (E.invalid_config ("cannot parse key at " <> path <> ": " <> e))
    ]
  ]

  unfoldable pub load_public_key : String → Io W E.Error K.PublicKey
  unfolding public_in
  load_public_key path = read_text E K T path >>= λ raw. lift (public_in path raw)

  shown : OutputMode → FingerprintArgs → K.PublicKey → Output
  shown json args key = document "gitway keygen fingerprint" (
      fields (
        ("path", string args.file_path)
        ∷ ("fingerprint", string (K.fingerprint key (hashkind_to_sshkey args.hash)))
        ∷ ("algorithm", string (T.algorithm_name key))
        ∷ ("comment", string (T.comment key))
        ∷ []))
  shown human args key = lines (
      (K.fingerprint key (hashkind_to_sshkey args.hash)
        <> " "
        <> T.comment key
        <> " "
        <> T.algorithm_name key)
      ∷ [])

  unfoldable pub run_fingerprint : FingerprintArgs → OutputMode → Io W E.Error Printed
  unfolding load_public_key shown
  run_fingerprint args mode =
      load_public_key args.file_path >>= λ key. give (0, shown mode args key)

  extracted : OutputMode → ExtractPublicArgs → Output
  extracted human args = lines []
  extracted json args = document "gitway keygen extract-public" (
      fields (
        ("private_key_path", string args.file_path)
        ∷ ("public_key_path", string (unwrap_or args.output (pub_path_for args.file_path)))
        ∷ []))

  unfoldable pub run_extract_public : ExtractPublicArgs → OutputMode → Io W E.Error Printed
  unfolding extracted
  run_extract_public args mode =
      T.extract_public args.file_path args.output >>= λ _. give (0, extracted mode args)

  private_in : String → Result E.Error K.PrivateKey
  private_in pem = elim (K.parse_private pem) [
    | ok key ↦ ok key
    | err e ↦ err (E.invalid_config ("cannot parse private key: " <> e))
  ]

  pub typed_or_asked : Io W E.Error String → Option String → Io W E.Error (Option String)
  typed_or_asked ask (some p) = give (some p)
  typed_or_asked ask none = ask >>= λ p. give (some p)

  pub old_passphrase_of : ChangePassphraseArgs → K.PrivateKey → Io W E.Error (Option String)
  unfolding typed_or_asked
  old_passphrase_of args key =
      if K.is_encrypted key
      then typed_or_asked (prompt args.file_path) args.old_passphrase
      else give none

  pub new_passphrase_of : ChangePassphraseArgs → Io W E.Error (Option String)
  unfolding typed_or_asked prompt_new_passphrase
  new_passphrase_of args =
      if args.no_passphrase
      then give none
      else typed_or_asked (prompt_new_passphrase args.file_path) args.new_passphrase

  changed : OutputMode → ChangePassphraseArgs → Option String → Output
  changed human args new = lines []
  changed json args new =
      document "gitway keygen change-passphrase"
        (fields (("path", string args.file_path) ∷ ("encrypted", boolean (is_some new)) ∷ []))

  unfoldable pub run_change_passphrase : ChangePassphraseArgs → OutputMode → Io W E.Error Printed
  unfolding private_in old_passphrase_of new_passphrase_of changed
  run_change_passphrase args mode = read_text E K T args.file_path >>= λ pem.
      lift (private_in pem) >>= λ key. old_passphrase_of args key >>= λ old.
      new_passphrase_of args >>= λ new.
      T.change_passphrase args.file_path old new >>= λ _. give (0, changed mode args new)

  unfoldable pub open_input : Option String → Io W E.Error (Input T.Bytes)
  open_input none = give stdin
  open_input (some path) =
      if path == "-"
      then give stdin
      else ((λ w. (from_system E K T (T.open_file path w), w)) >>= λ _. give (file path))

  unfoldable pub write_output : Option String → String → Io W E.Error (Unit {0})
  write_output none content = system E K T (T.write_stdout content)
  write_output (some path) content =
      if path == "-"
      then system E K T (T.write_stdout content)
      else system E K T (T.write path content)
