-- ===== src/AddShim/Args.antt =====
-- `Mode`, `Parsed`, `Parsed::from_args` and its helpers of gitway-cli/src/bin/gitway-add.rs.
pub mod Laws
pub mod RoundTrip
use gitway.Base.{
  ℕ, ◌^◌, String, ◌<>◌, Bool, true, false, ◌&&◌, Option, none, some, List, [], ◌∷◌, ◌++◌, map,
  Result, ok, err, ◌>>=◌, ok_or, if◌then◌else◌, is_empty, keep_if,
}
use gitway.Base.Text.{codes, lower, lower_is, has_dash, parse_unsigned, lookup}
use gitway.Errors.{Errors}
use gitway.Host.{Host}
use gitway.KeygenShim.Args.{HashAlg, sha256, sha512}

pub data Mode : Type 0 where
  list : Bool → Mode
  remove_one : String → Mode
  remove_all lock unlock : Mode
  add : List String → Mode

-- A lifetime is a `Duration` of whole seconds.
pub record Parsed : Type 0 where
  pub mode : Mode
  pub hash : HashAlg
  pub lifetime : Option ℕ
  pub confirm : Bool
  pub biometric : Bool
  pub no_biometric : Bool

-- The variables of the loop.
pub record Scan : Type 0 where
  pub mode : Option Mode
  pub hash : HashAlg
  pub lifetime : Option ℕ
  pub confirm : Bool
  pub biometric : Bool
  pub no_biometric : Bool
  pub paths : List String

pub data ModeFlag : Type 0 where
  list_short list_full delete_all lock_agent unlock_agent : ModeFlag

pub data Valued : Type 0 where
  delete_value lifetime_value hash_value : Valued

pub data Switch : Type 0 where
  confirm_switch biometric_switch no_biometric_switch ignored_switch : Switch

pub data Token : Type 0 where
  mode_flag : ModeFlag → Token
  valued : Valued → Token
  switch : Switch → Token
  end_mark unsupported positional : Token

abbrev pub arms : List (String × Token)
arms =
    ("-l", mode_flag list_short)
    ∷ ("-L", mode_flag list_full)
    ∷ ("-D", mode_flag delete_all)
    ∷ ("-x", mode_flag lock_agent)
    ∷ ("-X", mode_flag unlock_agent)
    ∷ ("-c", switch confirm_switch)
    ∷ ("--biometric", switch biometric_switch)
    ∷ ("--no-biometric", switch no_biometric_switch)
    ∷ ("-d", valued delete_value)
    ∷ ("-t", valued lifetime_value)
    ∷ ("-E", valued hash_value)
    ∷ ("-q", switch ignored_switch)
    ∷ ("-v", switch ignored_switch)
    ∷ ("-vv", switch ignored_switch)
    ∷ ("-vvv", switch ignored_switch)
    ∷ ("-H", switch ignored_switch)
    ∷ ("-T", switch ignored_switch)
    ∷ ("-s", switch ignored_switch)
    ∷ ("-S", switch ignored_switch)
    ∷ ("-e", switch ignored_switch)
    ∷ ("-k", switch ignored_switch)
    ∷ ("--", end_mark)
    ∷ []

abbrev or_token : Option Token → Token → Token
or_token (some t) u = t
or_token none u = u

-- Which arm of the `match` an argument takes.
unfoldable pub token : String → Token
token a = or_token (lookup a arms) (if has_dash a then unsupported else positional)

abbrev pub flag_name : Valued → String
flag_name delete_value = "-d"
flag_name lifetime_value = "-t"
flag_name hash_value = "-E"

abbrev pub mode_name : ModeFlag → String
mode_name list_short = "-l"
mode_name list_full = "-L"
mode_name delete_all = "-D"
mode_name lock_agent = "-x"
mode_name unlock_agent = "-X"

abbrev pub mode_of : ModeFlag → Mode
mode_of list_short = list false
mode_of list_full = list true
mode_of delete_all = remove_all
mode_of lock_agent = lock
mode_of unlock_agent = unlock

unfoldable pub apply_switch : Switch → Scan → Scan
apply_switch confirm_switch s = record s { confirm = true }
apply_switch biometric_switch s = record s { biometric = true }
apply_switch no_biometric_switch s = record s { no_biometric = true }
apply_switch ignored_switch s = s

abbrev pub initial : Scan
initial = record {
  mode = none;
  hash = sha256;
  lifetime = none;
  confirm = false;
  biometric = false;
  no_biometric = false;
  paths = [];
}

module _ (E : Errors) where
  open E use {Error, invalid_config, debug, no_key_found}

  unfoldable pub parse_lifetime : String → Result Error ℕ
  parse_lifetime secs =
      ok_or (parse_unsigned (2 ^ 64) (codes secs))
        (invalid_config ("-t requires an integer number of seconds, got " <> debug (codes secs)))

  unfoldable pub parse_hash : String → Result Error HashAlg
  parse_hash value =
      if lower_is value "sha256"
      then ok sha256
      else if lower_is value "sha512"
      then ok sha512
      else err (invalid_config ("-E requires sha256 or sha512, got " <> debug (lower value)))

  -- The slot is filled once: a second mode flag is an error.
  unfoldable pub set_mode : Option Mode → Mode → String → Result Error (Option Mode)
  set_mode none new flag = ok (some new)
  set_mode (some m) new flag = err (invalid_config (flag <> " conflicts with a previous mode flag"))

  unfoldable pub apply_mode : Mode → String → Scan → Result Error Scan
  unfolding set_mode
  apply_mode new flag s = do slot ← set_mode s.mode new flag; ok (record s { mode = slot })

  unfoldable pub apply_value : Valued → String → Scan → Result Error Scan
  unfolding apply_mode parse_lifetime parse_hash
  apply_value delete_value v s = apply_mode (remove_one v) "-d" s
  apply_value lifetime_value v s = do n ← parse_lifetime v; ok (record s { lifetime = some n })
  apply_value hash_value v s = do h ← parse_hash v; ok (record s { hash = h })

  -- The loop over `args[i..]`. While a flag waits for the value that `take` gives it, the second
  -- argument is that flag.
  unfoldable pub scan : List String → Option Valued → Scan → Result Error Scan
  scan [] none s = ok s
  scan [] (some f) s = err (invalid_config (flag_name f <> " requires a value"))
  scan (v ∷ rest) (some f) s = apply_value f v s >>= λ s'. scan rest none s'
  scan (a ∷ rest) none s = elim (token a) [
    | mode_flag m ↦ apply_mode (mode_of m) (mode_name m) s >>= λ s'. scan rest none s'
    | valued f ↦ scan rest (some f) s
    | switch w ↦ scan rest none (apply_switch w s)
    | end_mark ↦ ok (record s { paths = s.paths ++ rest })
    | unsupported ↦ err (invalid_config ("unsupported flag: " <> a))
    | positional ↦ scan rest none (record s { paths = s.paths ++ a ∷ [] })
  ]

  module _ (host : Host) where
    open host use {home_dir, exists, join}

    abbrev found_or_none : List String → Result Error (List String)
    found_or_none found = if is_empty found then err no_key_found else ok found

    unfoldable pub default_key_paths : Result Error (List String)
    default_key_paths = do
      home ← ok_or home_dir (invalid_config "cannot determine $HOME")
      found_or_none (
          keep_if exists (
            map (λ name. join (join home ".ssh") name) ("id_ed25519" ∷ "id_ecdsa" ∷ "id_rsa" ∷ [])))

    -- The mode that was set, or the files to add, or the default files.
    unfoldable pub choose_mode : Option Mode → List String → Result Error Mode
    unfolding default_key_paths
    choose_mode (some m) paths = ok m
    choose_mode none [] = default_key_paths >>= λ paths. ok (add paths)
    choose_mode none (p ∷ paths) = ok (add (p ∷ paths))

    unfoldable pub finish : Scan → Result Error Parsed
    unfolding choose_mode
    finish s = choose_mode s.mode s.paths >>= λ m.
        if s.biometric && s.no_biometric
        then err (invalid_config "--biometric conflicts with --no-biometric")
        else ok (record {
          mode = m;
          hash = s.hash;
          lifetime = s.lifetime;
          confirm = s.confirm;
          biometric = s.biometric;
          no_biometric = s.no_biometric;
        })

    unfoldable pub from_args : List String → Result Error Parsed
    unfolding scan apply_value apply_mode apply_switch token lookup finish
    from_args args = scan args none initial >>= finish
