-- ===== src/AgentCommand.antt =====
-- gitway-cli/src/agent.rs, the commands that talk to a running agent: `gitway agent add`, `list`, `remove`,
-- `lock` and `unlock`. What is written to stderr is left out.
pub mod Daemon
pub mod Run
use gitway.Base.{
  ℕ, String, ◌<>◌, ◌==◌, ◌&&◌, not, Bool, true, false, Option, none, some, List, [], ◌∷◌, map,
  length, Result, ok, err, ok_or, keep_if, any, if◌then◌else◌,
}
use gitway.Base.Io.{Io, ◌>>=◌, lift, give}
use gitway.Base.Json.{
  Json, null, string, number, boolean, array, object, Output, lines, document, items, fields,
}
use gitway.Base.Text.{trim}
use gitway.AddShim.Run.{Agent, is_enroll}
use gitway.Biometric.Vault.{BiometricVault, UnlockMode, from_flags}
use gitway.Biometric.Unlock.{load_private_key}
use gitway.Console.{OutputMode, human, json}
use gitway.Errors.{Errors}
use gitway.Host.{Host}
use gitway.Keys.{Keys}
use gitway.Keygen.{HashKind, hashkind_to_sshkey}
use gitway.KeygenShim.Args.{sha256}
use gitway.Tools.{Tools, read_text, system}

-- The arguments, from gitway-cli/src/cli.rs.
pub record AddArgs : Type 0 where
  pub files : List String
  pub lifetime : Option ℕ
  pub confirm : Bool
  pub biometric : Bool
  pub no_biometric : Bool

pub record ListArgs : Type 0 where
  pub full : Bool
  pub hash : HashKind

pub record RemoveArgs : Type 0 where
  pub file : Option String
  pub all : Bool

pub record LockArgs : Type 0 where
  pub passphrase : Option String

abbrev pub Printed : Type 0
Printed = ℕ × Output

module _ {W : Type 0} (E : Errors) (K : Keys) (T : Tools W E K) (A : Agent W E K)
    (v : BiometricVault W) (host : Host) (ask : String → Io W E.Error String) where
  some_found : List String → Result E.Error (List String)
  some_found [] = err E.no_key_found
  some_found (p ∷ paths) = ok (p ∷ paths)

  -- The default key files that exist.
  unfoldable pub default_key_paths : Result E.Error (List String)
  unfolding some_found
  default_key_paths = elim (host.home_dir) [
    | none ↦ err (E.invalid_config "cannot determine $HOME")
    | some home ↦ some_found (
        keep_if host.exists (
          map (λ name. host.join (host.join home ".ssh") name)
            ("id_ed25519" ∷ "id_ecdsa" ∷ "id_rsa" ∷ [])))
  ]

  paths_for : List String → Result E.Error (List String)
  unfolding default_key_paths
  paths_for [] = default_key_paths
  paths_for (f ∷ files) = ok (f ∷ files)

  parse_key : String → String → Result E.Error K.PrivateKey
  parse_key path pem = elim (K.parse_private pem) [
    | ok key ↦ ok key
    | err e ↦ err (E.invalid_config ("cannot parse " <> path <> ": " <> e))
  ]

  abbrev pub is_loaded : List (K.PublicKey × String) → K.PrivateKey → Bool
  is_loaded loaded key =
      any (λ (id, _). K.fingerprint id sha256 == K.fingerprint (K.public_key key) sha256) loaded

  module _ (loaded : List (K.PublicKey × String)) (args : AddArgs) where
    -- Whether the key was added, and not already loaded.
    pub add_key : String → K.PrivateKey → Io W E.Error Bool
    unfolding load_private_key
    add_key path key =
        if not (is_enroll (from_flags args.biometric args.no_biometric)) && is_loaded loaded key
        then give false
        else (load_private_key K v E (ask path) ("failed to decrypt " <> path <> ": ") key
              (from_flags args.biometric args.no_biometric)
            >>= λ plain. A.add plain args.lifetime args.confirm >>= λ _. give true)

    pub add_one : String → Io W E.Error Bool
    unfolding parse_key add_key
    add_one path =
        read_text E K T path >>= λ pem. lift (parse_key path pem) >>= λ key. add_key path key

    -- The loop of `run_add`: the paths that were added, and those that were already loaded.
    unfoldable pub add_each : List String → Io W E.Error (List String × List String)
    unfolding add_one
    add_each [] = give ([], [])
    add_each (path ∷ paths) = add_one path >>= λ fresh. add_each paths >>= λ (added, already).
        give (if fresh then (path ∷ added, already) else (added, path ∷ already))

  abbrev pub or_empty : Result E.Error (List (K.PublicKey × String)) → List (K.PublicKey × String)
  or_empty (ok ids) = ids
  or_empty (err e) = []

  lifetime_json : Option ℕ → Json
  lifetime_json none = null
  lifetime_json (some n) = number n

  added_output : OutputMode → AddArgs → List String → Output
  unfolding lifetime_json
  added_output human args added = lines []
  added_output json args added = document "gitway agent add" (
      fields (
        ("added", array (items string added))
        ∷ ("lifetime_seconds", lifetime_json args.lifetime)
        ∷ ("confirm", boolean args.confirm)
        ∷ []))

  unfoldable pub run_add : AddArgs → OutputMode → Io W E.Error Printed
  unfolding paths_for add_each added_output
  run_add args mode = lift (paths_for args.files) >>= λ paths. A.from_env >>= λ _.
      (λ w. let (r, w') = A.list w in (ok (or_empty r), w')) >>= λ loaded.
      add_each loaded args paths >>= λ (added, already). give (0, added_output mode args added)

  full_lines : List (K.PublicKey × String) → Result E.Error (List String)
  full_lines [] = ok []
  full_lines ((id, comment) ∷ ids) = elim (K.to_openssh id) [
    | err e ↦ err (E.signing ("failed to serialize public key: " <> e))
    | ok line ↦ elim (full_lines ids) [ ok rest ↦ ok (line ∷ rest) | err e ↦ err e ]
  ]

  identity_json : HashKind → K.PublicKey × String → Json
  identity_json hash (id, comment) = object (
      fields (
        ("fingerprint", string (K.fingerprint id (hashkind_to_sshkey hash)))
        ∷ ("algorithm", string (T.algorithm_name id))
        ∷ ("comment", string comment)
        ∷ []))

  identity_line : HashKind → K.PublicKey × String → String
  identity_line hash (id, comment) =
      K.fingerprint id (hashkind_to_sshkey hash) <> " " <> comment <> " (" <> K.algorithm id <> ")"

  as_lines : Result E.Error (List String) → Result E.Error Printed
  as_lines (ok shown) = ok (0, lines shown)
  as_lines (err e) = err e

  listed : OutputMode → ListArgs → List (K.PublicKey × String) → Result E.Error Printed
  unfolding full_lines identity_json identity_line as_lines
  listed json args ids = ok (
    0,
    document "gitway agent list" (
        fields (
          ("identity_count", number (length ids))
          ∷ ("identities", array (items (identity_json args.hash) ids))
          ∷ [])),
  )
  listed human args ids =
      if args.full
      then as_lines (full_lines ids)
      else ok (0, lines (map (identity_line args.hash) ids))

  unfoldable pub run_list : ListArgs → OutputMode → Io W E.Error Printed
  unfolding listed
  run_list args mode = A.from_env >>= λ _. A.list >>= λ ids. lift (listed mode args ids)

  public_of : String → String → Result E.Error K.PublicKey
  public_of path raw = elim (K.parse_public (trim raw)) [
    | some key ↦ ok key
    | none ↦ elim (K.parse_private raw) [
      | ok key ↦ ok (K.public_key key)
      | err e ↦ err (E.invalid_config ("cannot parse " <> path <> ": " <> e))
    ]
  ]

  unfoldable pub load_public_or_derive : String → Io W E.Error K.PublicKey
  unfolding public_of
  load_public_or_derive path = read_text E K T path >>= λ raw. lift (public_of path raw)

  remove_file : Option String → Io W E.Error (List String)
  unfolding load_public_or_derive
  remove_file (some path) = load_public_or_derive path >>= λ key.
      A.remove key >>= λ _. give (K.fingerprint key sha256 ∷ [])
  remove_file none =
      lift (err (E.invalid_config "`gitway agent remove` requires a <FILE> argument or `--all`"))

  unfoldable pub removing : RemoveArgs → Io W E.Error (List String)
  unfolding remove_file
  removing args =
      if args.all
      then (A.list >>= λ ids.
          A.remove_all >>= λ _. give (map (λ (id, comment). K.fingerprint id sha256) ids))
      else remove_file args.file

  removed_output : OutputMode → RemoveArgs → List String → Output
  removed_output human args removed = lines []
  removed_output json args removed =
      document "gitway agent remove"
        (fields (("removed", array (items string removed)) ∷ ("all", boolean args.all) ∷ []))

  unfoldable pub run_remove : RemoveArgs → OutputMode → Io W E.Error Printed
  unfolding removing removed_output
  run_remove args mode =
      A.from_env >>= λ _. removing args >>= λ removed. give (0, removed_output mode args removed)

  matching : String → String → Result E.Error String
  matching first second =
      if first == second
      then ok first
      else err (E.invalid_config "passphrases did not match — aborting")

  unfoldable pub prompt_lock_passphrase : Bool → Io W E.Error String
  unfolding matching
  prompt_lock_passphrase true =
      system E K T (T.prompt_password "Agent lock passphrase: ") >>= λ first.
      system E K T (T.prompt_password "Confirm lock passphrase: ") >>= λ second.
      lift (matching first second)
  prompt_lock_passphrase false = system E K T (T.prompt_password "Agent unlock passphrase: ")

  lock_passphrase : Option String → Bool → Io W E.Error String
  unfolding prompt_lock_passphrase
  lock_passphrase (some p) lock = give p
  lock_passphrase none lock = prompt_lock_passphrase lock

  apply_lock : Bool → String → Io W E.Error (Unit {0})
  apply_lock true = A.lock
  apply_lock false = A.unlock

  verb : Bool → String
  verb true = "locked"
  verb false = "unlocked"

  locked_output : OutputMode → Bool → Output
  unfolding verb
  locked_output human lock = lines []
  locked_output json lock =
      document ("gitway agent " <> verb lock) (fields (("state", string (verb lock)) ∷ []))

  unfoldable pub run_lock : LockArgs → OutputMode → Bool → Io W E.Error Printed
  unfolding lock_passphrase apply_lock locked_output
  run_lock args mode lock = A.from_env >>= λ _. lock_passphrase args.passphrase lock >>= λ p.
      apply_lock lock p >>= λ _. give (0, locked_output mode lock)
