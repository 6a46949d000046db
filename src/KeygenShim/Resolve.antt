-- ===== src/KeygenShim/Resolve.antt =====
-- The helpers of gitway-cli/src/bin/gitway-keygen.rs that find and load keys.
pub mod Laws
use gitway.Base.{
  ℕ, ◌*◌, ◌^◌, ◌-◌, String, ◌<>◌, ◌==◌, Bool, true, false, Option, none, some, List, [], ◌∷◌,
  Result, ok, err, if◌then◌else◌, unwrap_or, or_else, ltb, nat_eq, is_ok, is_some,
}
use gitway.Base.Io.{Io, ◌>>=◌, lift, give}
use gitway.Base.Decimal.{decimal}
use gitway.Base.Text.{trim, lower_is, lower_text, strip_suffix}
use gitway.Errors.{Errors}
use gitway.Keys.{Keys}
use gitway.Tools.{
  IoError, KeyType, ed25519, rsa, ecdsa_p256, ecdsa_p384, ecdsa_p521, Algorithm, is_ed25519,
  is_p256, is_p384, is_p521, is_rsa, another, Tools, from_system, read_text,
}

root_cause : Option ℕ → String
root_cause none = "cannot read from the terminal"
root_cause (some n) = if nat_eq n 6 then "no terminal attached" else "cannot read from the terminal"

-- `saturating_mul(8)` on a word of 64 bits, then `u32::try_from`.
bits_of_length : ℕ → Option ℕ
bits_of_length n =
    let bits = if ltb (n * 8) (2 ^ 64) then n * 8 else 2 ^ 64 - 1 in
    if ltb bits (2 ^ 32) then some bits else none

modulus_bits : Option ℕ → Option ℕ
unfolding bits_of_length
modulus_bits none = none
modulus_bits (some n) = bits_of_length n

-- By the algorithm, with the bits of the modulus.
bits_for : Algorithm → Option ℕ → ℕ
bits_for is_ed25519 bits = 256
bits_for is_p256 bits = 256
bits_for is_p384 bits = 384
bits_for is_p521 bits = 521
bits_for is_rsa bits = unwrap_or bits 0
bits_for another bits = 0

module _ {W : Type 0} (E : Errors) (K : Keys) (T : Tools W E K) where
  unfoldable pub curve_of : ℕ → Result E.Error KeyType
  curve_of bits =
      if nat_eq bits 256
      then ok ecdsa_p256
      else if nat_eq bits 384
      then ok ecdsa_p384
      else if nat_eq bits 521
      then ok ecdsa_p521
      else err (E.invalid_config ("ECDSA requires -b 256|384|521, got " <> decimal bits))

  unfoldable pub parse_kind : String → Option ℕ → Result E.Error KeyType
  unfolding curve_of
  parse_kind name bits =
      if lower_is name "ed25519"
      then ok ed25519
      else if lower_is name "rsa"
      then ok rsa
      else if lower_is name "ecdsa"
      then curve_of (unwrap_or bits 256)
      else err (E.invalid_config ("unsupported key type: " <> lower_text name))

  -- A public key, or a private key with its public part.
  pub public_in : String → Result E.Error K.PublicKey
  public_in raw = elim (K.parse_public (trim raw)) [
    | some key ↦ ok key
    | none ↦ elim (K.parse_private raw) [
      | ok key ↦ ok (K.public_key key)
      | err e ↦ err (E.invalid_config ("cannot parse key: " <> e))
    ]
  ]

  unfoldable pub load_public_key : String → Io W E.Error K.PublicKey
  unfolding public_in
  load_public_key path = read_text E K T path >>= λ raw. lift (public_in raw)

  -- A file that is read for signing: one that is missing is a missing key.
  unfoldable pub signing_text : Result IoError String → Result E.Error String
  signing_text (ok raw) = ok raw
  signing_text (err e) = if e.not_found then err E.no_key_found else err (T.from_io e)

  pub stripped_path : String → Option String → W → Result E.Error String
  stripped_path path none w = err (
      E.invalid_config (
        "public-key path " <> path
        <> " given for signing, but does not end in `.pub`; cannot locate the matching private key"))
  stripped_path path (some candidate) w =
      if T.exists candidate w
      then ok candidate
      else err (
          E.invalid_config (
            "public-key path " <> path <> " given for signing, but no private key found at "
            <> candidate
            <> "; load the key into an agent (phase 2) or pass the private-key path directly"))

  pub path_of : String → String → W → Result E.Error String
  unfolding stripped_path
  path_of path raw w =
      if is_ok (K.parse_private raw)
      then ok path
      else if is_some (K.parse_public (trim raw))
      then stripped_path path (strip_suffix ".pub" path) w
      else err
          (E.invalid_config ("file " <> path <> " is neither a private nor public OpenSSH key"))

  unfoldable pub resolve_signing_key_path : String → Io W E.Error String
  unfolding signing_text path_of
  resolve_signing_key_path path =
      (λ w. (signing_text (T.read_to_string path w), w)) >>= λ raw. λ w. (path_of path raw w, w)

  unfoldable pub passphrase_prompt_failed : String → IoError → E.Error
  unfolding root_cause
  passphrase_prompt_failed key e =
      T.with_hint
        (E.invalid_config (
          "cannot prompt for the passphrase to decrypt "
          <> key
          <> ": "
          <> root_cause e.os_error
          <> " ("
          <> e.shown
          <> ")"))
        ("This is normal when git is invoked by an IDE, systemd, CI, or any non-interactive shell. Either load the key into the agent so gitway never needs the passphrase (`gitway-add "
          <> key
          <> "`), or set SSH_ASKPASS to a GUI passphrase helper such as ksshaskpass or ssh-askpass-gnome so the prompt opens a dialog.")

  prompted : String → Result IoError String → Result E.Error String
  unfolding passphrase_prompt_failed
  prompted path (ok p) = ok p
  prompted path (err e) = err (passphrase_prompt_failed path e)

  pub parsed_key : String → Result E.Error K.PrivateKey
  parsed_key pem = elim (K.parse_private pem) [
    | ok key ↦ ok key
    | err e ↦ err (E.invalid_config ("cannot parse key: " <> e))
  ]

  pub decrypted : K.PrivateKey → String → Result E.Error K.PrivateKey
  decrypted key p = elim (K.decrypt key p) [
    | ok plain ↦ ok plain
    | err e ↦ err (E.signing ("decrypt failed: " <> e))
  ]

  -- The passphrase that is given, or the one that the user types.
  pub passphrase_for : String → Option String → Io W E.Error String
  unfolding prompted
  passphrase_for path (some p) w = (ok p, w)
  passphrase_for path none w =
      let (r, w') = T.prompt_password ("Enter passphrase for " <> path <> ": ") w in
      (prompted path r, w')

  pub unlocked : String → Option String → K.PrivateKey → Io W E.Error K.PrivateKey
  unfolding passphrase_for decrypted
  unlocked path old key =
      if K.is_encrypted key
      then (passphrase_for path old >>= λ p. lift (decrypted key p))
      else give key

  unfoldable pub load_and_decrypt : String → Option String → Io W E.Error K.PrivateKey
  unfolding parsed_key unlocked
  load_and_decrypt path old =
      read_text E K T path >>= λ pem. lift (parsed_key pem) >>= λ key. unlocked path old key

  -- `user@host`
  unfoldable pub default_comment : String
  default_comment =
      unwrap_or (or_else (T.env "USER") (T.env "USERNAME")) "user"
      <> "@"
      <> unwrap_or (or_else (T.env "HOSTNAME") (T.env "COMPUTERNAME")) "localhost"

  unfoldable pub rsa_modulus_bits : K.PublicKey → Option ℕ
  unfolding modulus_bits
  rsa_modulus_bits key = modulus_bits (T.modulus_length key)

  unfoldable pub public_bit_estimate : K.PublicKey → ℕ
  unfolding rsa_modulus_bits bits_for
  public_bit_estimate key = bits_for (T.algorithm key) (rsa_modulus_bits key)
