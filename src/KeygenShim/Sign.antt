-- ===== src/KeygenShim/Sign.antt =====
-- `run_sign` of gitway-cli/src/bin/gitway-keygen.rs, by the agent or with the private key.
pub mod Laws
mod Tests
use gitway.Base.{
  ℕ, String, ◌<>◌, ◌==◌, not, Bool, true, false, Option, none, some, List, [], ◌∷◌, Result, ok, err,
  ok_or, any, if◌then◌else◌,
}
use gitway.Base.Io.{Io, ◌>>=◌, lift, give}
use gitway.Base.Text.{is_empty_text}
use gitway.Errors.{Errors}
use gitway.Keys.{Keys}
use gitway.KeygenShim.Args.{Parsed, sha256, sha512}
use gitway.KeygenShim.Resolve.{signing_text, resolve_signing_key_path, load_and_decrypt}
use gitway.Tools.{Tools, bytes, read_text, system, from_system}

-- An exit code and the lines that are printed.
abbrev pub Printed : Type 0
Printed = ℕ × List String

module _ {W : Type 0} (E : Errors) (K : Keys) (T : Tools W E K) where
  signing_key : String → Result E.Error K.PrivateKey
  signing_key raw = elim (K.parse_private raw) [
    | ok key ↦ ok key
    | err e ↦ err (E.invalid_config ("cannot parse signing key: " <> e))
  ]

  private_at : String → Io W E.Error K.PublicKey
  unfolding signing_key
  private_at path = resolve_signing_key_path E K T path >>= λ key_path.
      read_text E K T key_path >>= λ raw. lift (signing_key raw) >>= λ key. give (K.public_key key)

  public_at : String → String → Io W E.Error K.PublicKey
  unfolding private_at
  public_at path raw = elim (K.parse_public raw) [ some key ↦ give key | none ↦ private_at path ]

  unfoldable pub load_public_key_for_signing : String → Io W E.Error K.PublicKey
  unfolding public_at
  load_public_key_for_signing path =
      (λ w. (signing_text E K T (T.read_to_string path w), w)) >>= λ raw. public_at path raw

  module _ {A B : Type 0} where
    abbrev pub none_after :
        (A → Io W E.Error (Option B)) → Result E.Error A → Io W E.Error (Option B)
    none_after f (ok a) = f a
    none_after f (err e) = give none

    -- `let Ok(a) = … else { return Ok(None) }`
    abbrev pub or_none : Io W E.Error A → (A → Io W E.Error (Option B)) → Io W E.Error (Option B)
    or_none m f w = let (r, w') = m w in none_after f r w'

  abbrev pub has_socket : Option String → Bool
  has_socket none = false
  has_socket (some v) = not (is_empty_text v)

  unfoldable pub agent_holds : K.PublicKey → List String → Bool
  agent_holds key identities = any (λ id. id == K.fingerprint key sha256) identities

  pub signed_by_agent : T.Bytes → String → K.PublicKey → List String → Io W E.Error (Option String)
  unfolding agent_holds
  signed_by_agent content namespace key identities =
      if agent_holds key identities
      then (T.sign_with_agent (bytes content) key namespace sha512 >>= λ armored.
          give (some armored))
      else give none

  unfoldable pub try_sign_via_agent : String → T.Bytes → String → Io W E.Error (Option String)
  unfolding load_public_key_for_signing signed_by_agent
  try_sign_via_agent path content namespace =
      if has_socket (T.env "SSH_AUTH_SOCK")
      then or_none (load_public_key_for_signing path) (λ key. or_none T.agent_from_env (λ _.
        or_none T.agent_identities
          (λ identities. signed_by_agent content namespace key identities)))
      else give none

  unfoldable pub write_sig_output : String → Option String → Io W E.Error Printed
  write_sig_output armored (some path) = system E K T (T.write path armored) >>= λ _. give (0, [])
  write_sig_output armored none = system E K T (T.write_stdout armored) >>= λ _. give (0, [])

  sig_error : {A : Type 0} → String → Result String A → Result E.Error A
  sig_error context (ok a) = ok a
  sig_error context (err e) = err (E.signing (context <> e))

  unfoldable pub sign_with_key : String → Option String → T.Bytes → String → Io W E.Error String
  unfolding sig_error
  sign_with_key file old content namespace = resolve_signing_key_path E K T file >>= λ key_file.
      load_and_decrypt E K T key_file old >>= λ key.
      lift (sig_error "sshsig sign failed: " (T.sig_sign key namespace sha512 content)) >>= λ sig.
      lift (sig_error "armor failed: " (T.to_pem sig))

  pub armored_by : String → Option String → T.Bytes → String → Option String → Io W E.Error String
  unfolding sign_with_key
  armored_by file old content namespace (some armored) = give armored
  armored_by file old content namespace none = sign_with_key file old content namespace

  -- The message, and the file for its signature.
  unfoldable pub message : Option String → Io W E.Error (T.Bytes × Option String)
  message none = system E K T T.read_stdin >>= λ content. give (content, none)
  message (some path) = (λ w. (from_system E K T (T.read path w), w)) >>= λ content.
      give (content, some (path <> ".sig"))

  unfoldable pub run_sign : Parsed → Io W E.Error Printed
  unfolding message try_sign_via_agent armored_by write_sig_output
  run_sign p = lift (ok_or p.file (E.invalid_config "-f FILE is required for -Y sign")) >>= λ file.
      lift (ok_or p.namespace (E.invalid_config "-n NAMESPACE is required for -Y sign")) >>= λ ns.
      message p.message_file >>= λ (content, out). try_sign_via_agent file content ns >>= λ signed.
      armored_by file p.old_passphrase content ns signed >>= λ armored. write_sig_output armored out
