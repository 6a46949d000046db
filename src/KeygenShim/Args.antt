-- ===== src/KeygenShim/Args.antt =====
-- `Mode`, `Parsed` and `Parsed::from_args` of gitway-cli/src/bin/gitway-keygen.rs.
pub mod Tokens
pub mod RoundTrip
pub mod Positions
use gitway.Base.{
  ℕ, ◌^◌, String, ◌<>◌, Bool, true, false, Option, none, some, List, [], ◌∷◌, Result, ok, err,
  ◌>>=◌, ok_or, if◌then◌else◌,
}
use gitway.Base.Text.{
  codes, lower_is, lower, strip_prefix, has_dash, is_empty_text, parse_unsigned, lookup,
}
use gitway.Errors.{Errors}

pub data HashAlg : Type 0 where
  sha256 sha512 : HashAlg

pub data Mode : Type 0 where
  generate_key print_fingerprint extract_public change_passphrase : Mode
  ssh_sig_sign ssh_sig_verify ssh_sig_check_no_validate ssh_sig_find_principals : Mode

pub record Parsed : Type 0 where
  pub mode : Mode
  pub key_type : Option String
  pub bits : Option ℕ
  pub file : Option String
  pub new_passphrase : Option String
  pub old_passphrase : Option String
  pub comment : Option String
  pub namespace : Option String
  pub signer_identity : Option String
  pub signature_file : Option String
  pub allowed_signers : Option String
  pub fingerprint_hash : HashAlg
  pub message_file : Option String

-- The variables of the loop: the record that is filled, and the four locals beside it.
pub record Scan : Type 0 where
  pub p : Parsed
  pub open p use *
  pub saw_list : Bool
  pub saw_extract : Bool
  pub saw_change : Bool
  pub sshsig_op : Option String

-- The flags that take a value, in the order of the arms.
pub data Valued : Type 0 where
  type_value bits_value file_value new_value old_value comment_value : Valued
  namespace_value identity_value signature_value hash_value operation_value : Valued
  signers_value option_value : Valued

pub data Switch : Type 0 where
  list_switch extract_switch change_switch ignored_switch : Switch

pub data Token : Type 0 where
  valued : Valued → Token
  switch : Switch → Token
  end_mark unsupported positional : Token

-- The arms above the one for `-O<option>`, and those below it.
abbrev pub upper_arms : List (String × Token)
upper_arms =
    ("-t", valued type_value)
    ∷ ("-b", valued bits_value)
    ∷ ("-f", valued file_value)
    ∷ ("-N", valued new_value)
    ∷ ("-P", valued old_value)
    ∷ ("-C", valued comment_value)
    ∷ ("-n", valued namespace_value)
    ∷ ("-I", valued identity_value)
    ∷ ("-s", valued signature_value)
    ∷ ("-l", switch list_switch)
    ∷ ("-y", switch extract_switch)
    ∷ ("-p", switch change_switch)
    ∷ ("-E", valued hash_value)
    ∷ ("-Y", valued operation_value)
    ∷ ("--allowed-signers", valued signers_value)
    ∷ []

abbrev pub lower_arms : List (String × Token)
lower_arms =
    ("-O", valued option_value)
    ∷ ("-q", switch ignored_switch)
    ∷ ("-v", switch ignored_switch)
    ∷ ("-vv", switch ignored_switch)
    ∷ ("-vvv", switch ignored_switch)
    ∷ ("--", end_mark)
    ∷ []

-- `o.strip_prefix("-O").is_some_and(|rest| !rest.is_empty())`
abbrev is_packed : Option String → Bool
is_packed none = false
is_packed (some rest) = if is_empty_text rest then false else true

abbrev or_token : Option Token → Token → Token
or_token (some t) u = t
or_token none u = u

-- Which arm of the `match` an argument takes.
unfoldable pub token : String → Token
token a = or_token (lookup a upper_arms) (
    if is_packed (strip_prefix "-O" a)
    then switch ignored_switch
    else or_token (lookup a lower_arms) (if has_dash a then unsupported else positional))

-- How `take_value` names the flag in its error.
abbrev pub flag_name : Valued → String
flag_name type_value = "-t"
flag_name bits_value = "-b"
flag_name file_value = "-f"
flag_name new_value = "-N"
flag_name old_value = "-P"
flag_name comment_value = "-C"
flag_name namespace_value = "-n"
flag_name identity_value = "-I"
flag_name signature_value = "-s"
flag_name hash_value = "-E"
flag_name operation_value = "-Y"
flag_name signers_value = "--allowed-signers"
flag_name option_value = "-O"

abbrev pub set_parsed : Scan → Parsed → Scan
set_parsed s p = record s { p = p }

unfoldable pub apply_switch : Switch → Scan → Scan
apply_switch list_switch s = record s { saw_list = true }
apply_switch extract_switch s = record s { saw_extract = true }
apply_switch change_switch s = record s { saw_change = true }
apply_switch ignored_switch s = s

positional_into : String → Option String → Option String → Parsed → Parsed
positional_into a none file p = record p { message_file = some a }
positional_into a (some m) none p = record p { file = some a }
positional_into a (some m) (some f) p = p

-- The last arm: the message file, then `-f` if it is absent, then nothing.
unfoldable pub apply_positional : String → Scan → Scan
unfolding positional_into
apply_positional a s = set_parsed s (positional_into a s.message_file s.file s.p)

abbrev pub initial : Scan
initial = record {
  p = record {
    mode = generate_key;
    key_type = none;
    bits = none;
    file = none;
    new_passphrase = none;
    old_passphrase = none;
    comment = none;
    namespace = none;
    signer_identity = none;
    signature_file = none;
    allowed_signers = none;
    fingerprint_hash = sha256;
    message_file = none;
  };
  saw_list = false;
  saw_extract = false;
  saw_change = false;
  sshsig_op = none;
}

module _ (E : Errors) where
  open E use {Error, invalid_config, debug}

  parse_hash : String → Result Error HashAlg
  parse_hash v =
      if lower_is v "sha256"
      then ok sha256
      else if lower_is v "sha512"
      then ok sha512
      else err (invalid_config ("-E requires sha256 or sha512, got " <> debug (lower v)))

  unfoldable pub apply_value : Valued → String → Scan → Result Error Scan
  unfolding parse_hash
  apply_value type_value v s = ok (set_parsed s (record (s.p) { key_type = some v }))
  apply_value bits_value v s = do
    n ←
        ok_or (parse_unsigned (2 ^ 32) (codes v))
          (invalid_config ("-b requires an integer, got " <> debug (codes v)))
    ok (set_parsed s (record (s.p) { bits = some n }))
  apply_value file_value v s = ok (set_parsed s (record (s.p) { file = some v }))
  apply_value new_value v s = ok (set_parsed s (record (s.p) { new_passphrase = some v }))
  apply_value old_value v s = ok (set_parsed s (record (s.p) { old_passphrase = some v }))
  apply_value comment_value v s = ok (set_parsed s (record (s.p) { comment = some v }))
  apply_value namespace_value v s = ok (set_parsed s (record (s.p) { namespace = some v }))
  apply_value identity_value v s = ok (set_parsed s (record (s.p) { signer_identity = some v }))
  apply_value signature_value v s = ok (set_parsed s (record (s.p) { signature_file = some v }))
  apply_value hash_value v s = do
    h ← parse_hash v
    ok (set_parsed s (record (s.p) { fingerprint_hash = h }))
  apply_value operation_value v s = ok (record s { sshsig_op = some v })
  apply_value signers_value v s = ok (set_parsed s (record (s.p) { allowed_signers = some v }))
  apply_value option_value v s = ok s

  -- The loop over `args[i..]`. While a flag waits for the value that `take_value` gives it, the
  -- second argument is that flag.
  unfoldable pub scan : List String → Option Valued → Scan → Result Error Scan
  scan [] none s = ok s
  scan [] (some f) s = err (invalid_config (flag_name f <> " requires a value"))
  scan (v ∷ rest) (some f) s = apply_value f v s >>= λ s'. scan rest none s'
  scan (a ∷ rest) none s = elim (token a) [
    | valued f ↦ scan rest (some f) s
    | switch w ↦ scan rest none (apply_switch w s)
    | end_mark ↦ ok s
    | unsupported ↦ err (invalid_config ("unsupported flag: " <> a))
    | positional ↦ scan rest none (apply_positional a s)
  ]

  abbrev pub operations : List (String × Mode)
  operations =
      ("sign", ssh_sig_sign)
      ∷ ("verify", ssh_sig_verify)
      ∷ ("check-novalidate", ssh_sig_check_no_validate)
      ∷ ("find-principals", ssh_sig_find_principals)
      ∷ []

  abbrev unknown_operation : String → Error
  unknown_operation op =
      invalid_config
        ("-Y requires sign|verify|check-novalidate|find-principals, got " <> debug (codes op))

  -- What the code after the loop makes of the four locals.
  unfoldable pub choose_mode : Scan → Option String → Result Error Mode
  choose_mode s (some op) = ok_or (lookup op operations) (unknown_operation op)
  choose_mode s none = ok (
      if s.saw_list
      then print_fingerprint
      else if s.saw_extract
      then extract_public
      else if s.saw_change
      then change_passphrase
      else generate_key)

  unfoldable pub finish : Scan → Result Error Parsed
  unfolding choose_mode
  finish s = do m ← choose_mode s s.sshsig_op; ok (record (s.p) { mode = m })

  unfoldable pub from_args : List String → Result Error Parsed
  unfolding scan apply_value apply_switch apply_positional token lookup strip_prefix finish
  from_args args = scan args none initial >>= finish
