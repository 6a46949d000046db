-- ===== src/AddShim/Run.antt =====
-- gitway-cli/src/bin/gitway-add.rs: `run` and its operations, over parameters for the agent, the
-- files and the prompts. A run that succeeds returns its exit code and the lines that it prints.
pub mod Loaded
mod Tests
use gitway.Base.{
  ℕ, String, ◌<>◌, ◌==◌, ◌&&◌, ◌||◌, not, Bool, true, false, Option, none, some, List, [], ◌∷◌,
  ◌++◌, map, Result, ok, err, if◌then◌else◌, any,
}
use gitway.Base.Io.{Io, ◌>>=◌, give, lift, fail}
use gitway.Errors.{Errors}
use gitway.Host.{Host}
use gitway.Keys.{Keys}
use gitway.KeygenShim.Args.{HashAlg, sha256}
use gitway.AddShim.Args.{Mode, list, remove_one, remove_all, lock, unlock, add, Parsed, from_args}
use gitway.Biometric.Vault.{BiometricVault, UnlockMode, auto, enroll, disabled, from_flags}
use gitway.Biometric.Unlock.{load_private_key}

-- The client of the agent, from anvil-ssh. A lifetime is in seconds.
pub record Agent (W : Type 0) (E : Errors) (K : Keys) : Type 0 where
  pub from_env : Io W E.Error (Unit {0})
  pub list : Io W E.Error (List (K.PublicKey × String))
  pub add : K.PrivateKey → Option ℕ → Bool → Io W E.Error (Unit {0})
  pub remove : K.PublicKey → Io W E.Error (Unit {0})
  pub remove_all : Io W E.Error (Unit {0})
  pub lock : String → Io W E.Error (Unit {0})
  pub unlock : String → Io W E.Error (Unit {0})

abbrev pub is_enroll : UnlockMode → Bool
is_enroll enroll = true
is_enroll auto = false
is_enroll disabled = false

-- `str::trim`, the files, and the prompts: for the passphrase of a file, and for a text.
pub record Console (W : Type 0) (E : Errors) : Type 0 where
  pub trim : String → String
  pub read_to_string : String → W → Result E.Error String
  pub prompt_passphrase : String → Io W E.Error String
  pub prompt_password : String → Io W E.Error String

module _ {W : Type 0} (E : Errors) (K : Keys) (A : Agent W E K) (C : Console W E)
    (v : BiometricVault W) where
  abbrev pub Printed : Type 0
  Printed = ℕ × List String

  -- `load_and_decrypt`
  unfoldable pub load_and_decrypt : String → K.PrivateKey → UnlockMode → Io W E.Error K.PrivateKey
  unfolding load_private_key
  load_and_decrypt path key mode =
      load_private_key K v E (C.prompt_passphrase path) "decrypt failed: " key mode

  pub parse_key : String → String → Result E.Error K.PrivateKey
  parse_key path pem = elim (K.parse_private pem) [
    | ok key ↦ ok key
    | err e ↦ err (E.invalid_config ("cannot parse " <> path <> ": " <> e))
  ]

  abbrev pub is_loaded : List (K.PublicKey × String) → K.PrivateKey → Bool
  is_loaded loaded key =
      any (λ (id, _). K.fingerprint id sha256 == K.fingerprint (K.public_key key) sha256) loaded

  module _ (loaded : List (K.PublicKey × String)) (lifetime : Option ℕ) (confirm : Bool)
      (mode : UnlockMode) where
    pub add_key : String → K.PrivateKey → Io W E.Error String
    unfolding load_and_decrypt
    add_key path key =
        if not (is_enroll mode) && is_loaded loaded key
        then give ("Identity already loaded: " <> path)
        else load_and_decrypt path key mode >>= λ k.
            A.add k lifetime confirm >>= λ _. give ("Identity added: " <> path)

    unfoldable pub add_one : String → Io W E.Error String
    unfolding add_key parse_key
    add_one path w =
        (lift (C.read_to_string path w) >>= λ pem.
        lift (parse_key path pem) >>= λ key. add_key path key)
          w

    -- The loop of `add`.
    unfoldable pub add_each : List String → Io W E.Error (List String)
    unfolding add_one
    add_each [] = give []
    add_each (path ∷ paths) =
        add_one path >>= λ line. add_each paths >>= λ lines. give (line ∷ lines)

  abbrev pub or_empty : Result E.Error (List (K.PublicKey × String)) → List (K.PublicKey × String)
  or_empty (ok ids) = ids
  or_empty (err e) = []

  unfoldable pub add_all : List String → Option ℕ → Bool → UnlockMode → Io W E.Error Printed
  unfolding add_each
  add_all paths lifetime confirm mode w =
      let (r, w') = A.list w in
      (add_each (or_empty r) lifetime confirm mode paths >>= λ lines. give (0, lines)) w'

  full_lines : List (K.PublicKey × String) → Result E.Error (List String)
  full_lines [] = ok []
  full_lines ((id, comment) ∷ ids) = elim (K.to_openssh id) [
    | err e ↦ err (E.signing ("serialize failed: " <> e))
    | ok line ↦ elim (full_lines ids) [ ok lines ↦ ok (line ∷ lines) | err e ↦ err e ]
  ]

  listed : Bool → HashAlg → List (K.PublicKey × String) → Result E.Error Printed
  unfolding full_lines
  listed full hash [] = ok (1, "The agent has no identities." ∷ [])
  listed true hash (id ∷ ids) = elim (full_lines (id ∷ ids)) [
    | ok lines ↦ ok (0, lines)
    | err e ↦ err e
  ]
  listed false hash (id ∷ ids) = ok (
    0,
    map
        (λ (key, comment).
          K.fingerprint key hash <> " " <> comment <> " (" <> K.algorithm key <> ")")
        (id ∷ ids),
  )

  unfoldable pub list_all : Bool → HashAlg → Io W E.Error Printed
  unfolding listed
  list_all full hash = A.list >>= λ ids. lift (listed full hash ids)

  public_of : String → String → Result E.Error K.PublicKey
  public_of path raw = elim (K.parse_public (C.trim raw)) [
    | some key ↦ ok key
    | none ↦ elim (K.parse_private raw) [
      | ok key ↦ ok (K.public_key key)
      | err e ↦ err (E.invalid_config ("cannot parse " <> path <> ": " <> e))
    ]
  ]

  unfoldable pub remove_file : String → Io W E.Error Printed
  unfolding public_of
  remove_file path w =
      (lift (C.read_to_string path w) >>= λ raw. lift (public_of path raw) >>= λ key.
      A.remove key >>= λ _. give (0, ("Identity removed: " <> K.fingerprint key sha256) ∷ []))
        w

  confirmed : String → String → Result E.Error String
  confirmed first second =
      if first == second then ok first else err (E.invalid_config "passphrases did not match")

  unfoldable pub lock_unlock : Bool → Io W E.Error Printed
  unfolding confirmed
  lock_unlock true = C.prompt_password "Enter lock passphrase: " >>= λ first.
      C.prompt_password "Confirm lock passphrase: " >>= λ second.
      lift (confirmed first second) >>= λ p. A.lock p >>= λ _. give (0, "Agent locked." ∷ [])
  lock_unlock false = C.prompt_password "Enter unlock passphrase: " >>= λ p.
      A.unlock p >>= λ _. give (0, "Agent unlocked." ∷ [])

  unfoldable pub perform : Parsed → Io W E.Error Printed
  unfolding add_all list_all remove_file lock_unlock from_flags
  perform p = elim (p.mode) [
    | list full ↦ list_all full p.hash
    | remove_one path ↦ remove_file path
    | remove_all ↦ A.remove_all >>= λ _. give (0, "All identities removed." ∷ [])
    | lock ↦ lock_unlock true
    | unlock ↦ lock_unlock false
    | add paths ↦ add_all paths p.lifetime p.confirm (from_flags p.biometric p.no_biometric)
  ]

  abbrev pub asks_help : List String → Bool
  asks_help args = any (λ a. a == "-h" || a == "--help" || a == "-?") args

  -- `help` is what `print_help` prints.
  unfoldable pub run : Host → List String → List String → Io W E.Error Printed
  unfolding perform from_args
  run host help args =
      if asks_help args
      then give (0, help)
      else (lift (from_args E host args) >>= λ p. A.from_env >>= λ _. perform p)
