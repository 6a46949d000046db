-- ===== src/Biometric/Command.antt =====
-- gitway-cli/src/biometric_cmd.rs: `gitway biometric enroll`, `forget`, `list` and `status`. Each run
-- returns its exit code and what it reports; `human_lines` is the report on stderr and stdout.
pub mod Batch
pub mod Forget
pub mod Enroll
use gitway.Base.{
  ℕ, String, ◌<>◌, Bool, true, false, not, Option, none, some, List, [], ◌∷◌, ◌++◌, map, Result, ok,
  err, ok_or, if◌then◌else◌, is_empty, is_some, keep_if, length,
}
use gitway.Base.Io.{Io, ◌>>=◌, give, lift, fail}
use gitway.Errors.{Errors}
use gitway.Host.{Host}
use gitway.Keys.{Keys}
use gitway.Biometric.Vault.{
  BiometricVault, BiometricError, not_enrolled, cancelled, unavailable, backend, EnrolledKey, Tier,
  description, to_string,
}
use gitway.Biometric.Ids.{key_id, fingerprint_of, key_id_from_fingerprint}

abbrev pub exit_ok : ℕ
exit_ok = 0

abbrev pub exit_general : ℕ
exit_general = 1

abbrev pub exit_usage : ℕ
exit_usage = 2

abbrev pub exit_not_found : ℕ
exit_not_found = 3

abbrev pub exit_user_declined : ℕ
exit_user_declined = 73

abbrev pub exit_needs_interactive : ℕ
exit_needs_interactive = 78

unfoldable pub exit_for : BiometricError → ℕ
exit_for not_enrolled = exit_not_found
exit_for cancelled = exit_user_declined
exit_for (unavailable why) = exit_needs_interactive
exit_for (backend why) = exit_general

pub record Outcome : Type 0 where
  pub target : String
  pub succeeded : Bool
  pub message : String
  pub fingerprint : Option String
  pub exit_code : ℕ

-- `Outcome::ok`
abbrev pub success : String → String → Outcome
success target fingerprint = record {
  target = target;
  succeeded = true;
  message = "";
  fingerprint = some fingerprint;
  exit_code = exit_ok;
}

-- `Outcome::failed`
abbrev pub failed : String → String → ℕ → Outcome
failed target message exit_code = record {
  target = target;
  succeeded = false;
  message = message;
  fingerprint = none;
  exit_code = exit_code;
}

-- What a run reports: a batch with its verb, one error, the enrolled keys, or the status.
pub data Report : Type 0 where
  results : String → List Outcome → Report
  error : ℕ → String → Report
  enrolled : List EnrolledKey → Report
  status : Bool → Tier → Option ℕ → Report

unfoldable pub emit_error : BiometricError → ℕ × Report
emit_error e = (exit_for e, error (exit_for e) (to_string e))

unfoldable pub emit_unavailable : Tier → ℕ × Report
emit_unavailable tier = emit_error (unavailable (description tier))

outcome_line : String → Outcome → String
outcome_line verb o =
    if o.succeeded
    then "gitway: " <> verb <> " " <> o.target
    else "gitway: " <> o.target <> ": " <> o.message

-- `emit_results` in human mode.
unfoldable pub result_lines : String → List Outcome → List String
unfolding outcome_line
result_lines verb outcomes = map (outcome_line verb) outcomes

-- The exit code after one outcome: a failure replaces it, a success leaves it.
abbrev pub exit_after : ℕ → Outcome → ℕ
exit_after exit o = if o.succeeded then exit else o.exit_code

module _ {W : Type 0} (E : Errors) (K : Keys) (v : BiometricVault W) (host : Host)
    (read_to_string : String → W → Result String String)
    (prompt : String → Io W E.Error String) where
  -- `read_key`, with a message where it fails.
  unfoldable pub read_key : String → W → Result String K.PrivateKey
  read_key path w = elim (read_to_string path w) [
    | err e ↦ err ("cannot read " <> path <> ": " <> e)
    | ok pem ↦ elim (K.parse_private pem) [
      | err e ↦ err ("cannot parse " <> path <> ": " <> e)
      | ok key ↦ ok key
    ]
  ]

  unfoldable pub resolve_paths : List String → Result E.Error (List String)
  resolve_paths (f ∷ files) = ok (f ∷ files)
  resolve_paths [] = elim host.home_dir [
    | none ↦ err (E.invalid_config "cannot determine $HOME")
    | some home ↦
        let found = keep_if host.exists (
          map (λ name. host.join (host.join home ".ssh") name)
            ("id_ed25519" ∷ "id_ecdsa" ∷ "id_rsa" ∷ [])) in
        if is_empty found then err E.no_key_found else ok found
  ]

  stored_outcome : String → K.PrivateKey → Result BiometricError (Unit {0}) → Outcome
  stored_outcome path key (ok _) = success path (fingerprint_of (key_id K key))
  stored_outcome path key (err e) = failed path (to_string e) (exit_for e)

  -- The passphrase is stored only after it decrypted the key.
  pub store_checked :
      String → K.PrivateKey → String → Result String K.PrivateKey → Io W E.Error Outcome
  unfolding stored_outcome
  store_checked path key p (err e) w =
      (ok (failed path "passphrase did not decrypt the key; nothing was stored" exit_usage), w)
  store_checked path key p (ok k) w =
      let (r, w') = v.store (key_id K key) p w in (ok (stored_outcome path key r), w')

  pub enroll_key : String → Result String K.PrivateKey → Io W E.Error Outcome
  unfolding store_checked
  enroll_key path (err message) = give (failed path message exit_usage)
  enroll_key path (ok key) =
      if K.is_encrypted key
      then (prompt path >>= λ p. store_checked path key p (K.decrypt key p))
      else give (
          failed path
            "key is not passphrase-protected; biometric unlock only applies to encrypted keys"
            exit_usage)

  unfoldable pub enroll_one : String → Io W E.Error Outcome
  unfolding enroll_key read_key
  enroll_one path w = enroll_key path (read_key path w) w

  -- The loop of `run_enroll`: a prompt that fails ends the batch.
  unfoldable pub enroll_each : List String → ℕ → List Outcome → Io W E.Error (ℕ × List Outcome)
  enroll_each [] exit done = give (exit, done)
  enroll_each (path ∷ paths) exit done =
      enroll_one path >>= λ o. enroll_each paths (exit_after exit o) (done ++ o ∷ [])

  unfoldable pub run_enroll : List String → Io W E.Error (ℕ × Report)
  unfolding resolve_paths enroll_each
  run_enroll files w =
      if v.is_available w
      then (lift (resolve_paths files) >>= λ paths.
            enroll_each paths exit_ok [] >>= λ (exit, done). give (exit, results "enrolled" done))
          w
      else (ok (emit_unavailable v.binding_tier), w)

  pub deleted : String → String → Result BiometricError (Unit {0}) → Outcome
  deleted target fingerprint (ok _) = success target fingerprint
  deleted target fingerprint (err e) = failed target (to_string e) (exit_for e)

  -- The loop of `run_forget` under `--all`.
  unfoldable pub forget_each : List EnrolledKey → ℕ → List Outcome → W → (ℕ × List Outcome) × W
  unfolding deleted
  forget_each [] exit done w = ((exit, done), w)
  forget_each (key ∷ keys) exit done w =
      let (r, w') = v.delete (key_id_from_fingerprint key.fingerprint) w in
      let o = deleted key.fingerprint key.fingerprint r in
      forget_each keys (exit_after exit o) (done ++ o ∷ []) w'

  forget_file : String → Result String K.PrivateKey → W → Outcome × W
  unfolding deleted
  forget_file path (err message) w = (failed path message exit_usage, w)
  forget_file path (ok key) w =
      let (r, w') = v.delete (key_id K key) w in
      (deleted path (fingerprint_of (key_id K key)) r, w')

  -- The loop of `run_forget` over the files that are named.
  unfoldable pub forget_files : List String → ℕ → List Outcome → W → (ℕ × List Outcome) × W
  unfolding forget_file read_key
  forget_files [] exit done w = ((exit, done), w)
  forget_files (path ∷ paths) exit done w =
      let (o, w') = forget_file path (read_key path w) w in
      forget_files paths (exit_after exit o) (done ++ o ∷ []) w'

  abbrev reported : (ℕ × List Outcome) × W → Result E.Error (ℕ × Report) × W
  reported ((exit, done), w) = (ok (exit, results "forgot" done), w)

  forget_listed : Result BiometricError (List EnrolledKey) → Io W E.Error (ℕ × Report)
  unfolding forget_each
  forget_listed (err e) w = (ok (emit_error e), w)
  forget_listed (ok keys) w = reported (forget_each keys exit_ok [] w)

  unfoldable pub run_forget : Bool → List String → Io W E.Error (ℕ × Report)
  unfolding forget_listed forget_files
  run_forget true files w = let (r, w') = v.list w in forget_listed r w'
  run_forget false [] w =
      (err (E.invalid_config "specify one or more key files to forget, or pass --all"), w)
  run_forget false (f ∷ files) w = reported (forget_files (f ∷ files) exit_ok [] w)

  listed : Result BiometricError (List EnrolledKey) → ℕ × Report
  listed (err e) = emit_error e
  listed (ok keys) = (exit_ok, enrolled keys)

  unfoldable pub run_list : W → (ℕ × Report) × W
  unfolding listed
  run_list w = let (r, w') = v.list w in (listed r, w')

  abbrev count : Result BiometricError (List EnrolledKey) → Option ℕ
  count (ok keys) = some (length keys)
  count (err e) = none

  -- An error while listing does not fail the query.
  unfoldable pub run_status : W → (ℕ × Report) × W
  run_status w =
      let (r, w') = v.list w in
      if v.is_available w
      then ((exit_ok, status true v.binding_tier (count r)), w')
      else ((exit_ok, status false v.binding_tier none), w)
