-- ===== src/Tools.antt =====
-- What the commands on keys and signatures use of the system, of anvil-ssh and of ssh-key, none of
-- which is part of the repository. No law is assumed of them here.
pub mod Sample
use gitway.Base.{ℕ, String, Bool, true, false, Option, List, Result, ok, err}
use gitway.Base.Io.{Io}
use gitway.Errors.{Errors}
use gitway.Keys.{Keys}
use gitway.KeygenShim.Args.{HashAlg}

-- `std::io::Error`: whether its kind is NotFound, its number, and how it is shown.
pub record IoError : Type 0 where
  pub not_found : Bool
  pub os_error : Option ℕ
  pub shown : String

-- `KeyType` of anvil-ssh, and `Algorithm` of ssh-key.
pub data KeyType : Type 0 where
  ed25519 rsa ecdsa_p256 ecdsa_p384 ecdsa_p521 : KeyType

pub data Algorithm : Type 0 where
  is_ed25519 is_p256 is_p384 is_p521 is_rsa another : Algorithm

-- Where a message is read from.
pub data Input (B : Type 0) : Type 0 where
  stdin : Input B
  file : String → Input B
  bytes : B → Input B

pub record Verified : Type 0 where
  pub principal : String
  pub fingerprint : String

pub record Tools (W : Type 0) (E : Errors) (K : Keys) : Type 1 where
  pub from_io : IoError → E.Error
  pub with_hint : E.Error → String → E.Error
  -- `std::env::var`
  pub env : String → Option String
  pub Bytes : Type 0
  pub read_to_string : String → W → Result IoError String
  pub read : String → W → Result IoError Bytes
  -- `File::open`, which reads nothing.
  pub open_file : String → W → Result IoError (Unit {0})
  pub exists : String → W → Bool
  pub read_stdin : Io W IoError Bytes
  pub write : String → String → Io W IoError (Unit {0})
  -- `write_all` and `flush` on stdout.
  pub write_stdout : String → Io W IoError (Unit {0})
  pub stderr_is_terminal : W → Bool
  pub prompt_password : String → Io W IoError String
  -- anvil_ssh::keygen
  pub generate : KeyType → Option ℕ → String → Io W E.Error K.PrivateKey
  pub write_keypair : K.PrivateKey → String → Option String → Io W E.Error (Unit {0})
  pub change_passphrase : String → Option String → Option String → Io W E.Error (Unit {0})
  pub extract_public : String → Option String → Io W E.Error (Unit {0})
  pub cli_name : KeyType → String
  -- ssh_key
  pub comment : K.PublicKey → String
  pub algorithm_name : K.PublicKey → String
  pub algorithm : K.PublicKey → Algorithm
  -- The number of bytes of the `Mpint` of the modulus, a leading zero byte counted, of a key of RSA.
  pub modulus_length : K.PublicKey → Option ℕ
  pub Sig : Type 0
  pub sig_sign : K.PrivateKey → String → HashAlg → Bytes → Result String Sig
  pub to_pem : Sig → Result String String
  -- anvil_ssh::sshsig
  pub AllowedSigners : Type 0
  pub load_allowed : String → W → Result E.Error AllowedSigners
  pub sign : Input Bytes → K.PrivateKey → String → HashAlg → Io W E.Error String
  pub sign_with_agent : Input Bytes → K.PublicKey → String → HashAlg → Io W E.Error String
  pub verify : Input Bytes → String → String → String → AllowedSigners → Io W E.Error Verified
  pub check_novalidate : Input Bytes → String → String → Io W E.Error (Unit {0})
  pub find_principals : String → AllowedSigners → String → Result E.Error (List String)
  pub find_principals_any_ns : String → AllowedSigners → Result E.Error (List String)
  -- `Agent::from_env`, and the fingerprints of `Agent::list`.
  pub agent_from_env : Io W E.Error (Unit {0})
  pub agent_identities : Io W E.Error (List String)
  -- `find_identity` for the default configuration: the path of the key that it finds.
  pub find_identity : W → Result E.Error (Option String)

module _ {W : Type 0} (E : Errors) (K : Keys) (T : Tools W E K) {A : Type 0} where
  -- `?` and `map_err(AnvilError::from)` on an error of the system.
  abbrev pub from_system : Result IoError A → Result E.Error A
  from_system (ok a) = ok a
  from_system (err e) = err (T.from_io e)

  abbrev pub system : Io W IoError A → Io W E.Error A
  system step w = let (r, w') = step w in (from_system r, w')

module _ {W : Type 0} (E : Errors) (K : Keys) (T : Tools W E K) where
  -- `fs::read_to_string(path)?`
  abbrev pub read_text : String → Io W E.Error String
  read_text path w = (from_system E K T (T.read_to_string path w), w)
