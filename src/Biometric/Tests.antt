-- ===== src/Biometric/Tests.antt =====
-- The theorems on biometric unlock at concrete keys and keystores.
use gitway.Base.{ℕ, String, ◌≡◌, ◌≢◌, refl, true, none, some, List, [], ◌∷◌, map, Result, ok, All}
use gitway.Base.Text.{strip_prefix}
use gitway.KeygenShim.Args.{sha256}
use gitway.Samples.{
  text_errors, full_host, sample_keys, Memory, set, memory_vault, held, memory-IsLawful,
  types_secret, types_nothing, empty_memory,
}
use gitway.Biometric.Vault.{EnrolledKey, auto, enroll}
use gitway.Biometric.Ids.{key_id, fingerprint_of, key_id_from_fingerprint, key_id-fingerprint_of}
use gitway.Biometric.Unlock.{auto_unlock_passphrase, fallback, load_private_key}
use gitway.Biometric.Unlock.Laws.{auto_unlock_passphrase-released, auto_unlock_passphrase-stale}
use gitway.Biometric.Unlock.Load.{load_private_key-ok, load_private_key-enroll}
use gitway.Biometric.Command.{
  exit_ok, exit_usage, Outcome, Report, success, results, read_key, enroll_one, run_enroll,
  run_forget, resolve_paths,
}
use gitway.Biometric.Command.Forget.{run_forget-listed}
use gitway.Biometric.Command.Enroll.{enroll_one-checked, run_enroll-batch}

abbrev secret_key : EnrolledKey
secret_key = record { fingerprint = "SHA256:secret"; comment = none }

abbrev other_key : EnrolledKey
other_key = record { fingerprint = "SHA256:other"; comment = none }

abbrev known : List EnrolledKey
known = secret_key ∷ other_key ∷ []

-- The passphrase `secret` for the key `secret`.
abbrev enrolled_memory : Memory
enrolled_memory = set "gitway:ssh:SHA256:secret" (some "secret") empty_memory

-- An old passphrase for the key `secret`.
abbrev outdated_memory : Memory
outdated_memory = set "gitway:ssh:SHA256:secret" (some "before") empty_memory

-- Every file holds the key `secret`.
abbrev read_secret : String → Memory → Result String String
read_secret path w = ok "secret"

key_id-fingerprint_of_example :
    (key_id_from_fingerprint (fingerprint_of (key_id sample_keys "secret"))
      ≡ key_id sample_keys "secret")
    × (fingerprint_of (key_id sample_keys "secret") ≡ "SHA256:secret")
    × (key_id sample_keys "secret" ≡ key_id sample_keys "other"
        → sample_keys.fingerprint "secret" sha256 ≡ "SHA256:other")
key_id-fingerprint_of_example = key_id-fingerprint_of sample_keys "secret" "other"

auto_unlock_passphrase-released_example :
    (held enrolled_memory (key_id sample_keys "secret") ≡ some "secret")
    × ((k : String) × (sample_keys.decrypt "secret" "secret" ≡ ok k))
    × ((j : String)
        → held
            (auto_unlock_passphrase sample_keys (memory_vault known) "secret" enrolled_memory).1
            j
          ≡ enrolled_memory j)
unfolding auto_unlock_passphrase key_id
auto_unlock_passphrase-released_example =
    auto_unlock_passphrase-released sample_keys (memory_vault known) "secret"
      (memory-IsLawful known) enrolled_memory "secret" refl

auto_unlock_passphrase-stale_example :
    (held
        (auto_unlock_passphrase sample_keys (memory_vault known) "secret" outdated_memory).1
        (key_id sample_keys "secret")
      ≡ none)
    × ((j : String)
        → fingerprint_of (key_id sample_keys "secret") ≢ fingerprint_of j
        → held
            (auto_unlock_passphrase sample_keys (memory_vault known) "secret" outdated_memory).1
            j
          ≡ outdated_memory j)
    × ((auto_unlock_passphrase sample_keys
          (memory_vault known)
          "secret"
          (auto_unlock_passphrase sample_keys (memory_vault known) "secret" outdated_memory).1).0
        ≡ fallback)
unfolding auto_unlock_passphrase key_id
auto_unlock_passphrase-stale_example =
    auto_unlock_passphrase-stale sample_keys (memory_vault known) "secret" (memory-IsLawful known)
      outdated_memory refl refl

load_private_key-ok_example :
    (k : String) × ((load_private_key sample_keys
        (memory_vault known)
        text_errors
        types_secret
        "failed: "
        "secret"
        auto
        outdated_memory).0
      ≡ ok k)
load_private_key-ok_example =
    load_private_key-ok sample_keys (memory_vault known) "secret" text_errors types_secret
      "failed: " "secret" "plain" outdated_memory (λ u. refl) refl

load_private_key-enroll_example :
    ((load_private_key sample_keys
        (memory_vault known)
        text_errors
        types_secret
        "failed: "
        "secret"
        enroll
        empty_memory).0
      ≡ ok "plain")
    × ((load_private_key sample_keys
          (memory_vault known)
          text_errors
          types_nothing
          "failed: "
          "secret"
          auto
          (load_private_key sample_keys
            (memory_vault known)
            text_errors
            types_secret
            "failed: "
            "secret"
            enroll
            empty_memory).1).0
        ≡ ok "plain")
unfolding load_private_key key_id
load_private_key-enroll_example =
    load_private_key-enroll sample_keys (memory_vault known) "secret" text_errors
      (memory-IsLawful known) types_secret types_nothing "failed: " "failed: " "secret" "secret"
      "plain" empty_memory refl refl refl refl refl

abbrev forget_all : Result String (ℕ × Report) × Memory
forget_all =
    run_forget text_errors sample_keys (memory_vault known) full_host read_secret
      (λ path. types_secret) true [] enrolled_memory

run_forget-listed_example :
    (code : ℕ) × (outcomes : List Outcome) × (forget_all.0 ≡ ok (code, results "forgot" outcomes))
    × (map (λ (o : Outcome). o.target) outcomes ≡ "SHA256:secret" ∷ [])
    × (code ≡ exit_ok
        → All (λ o. o.succeeded ≡ true) outcomes
          × All
              (λ (k : EnrolledKey).
                held forget_all.1 (key_id_from_fingerprint k.fingerprint) ≡ none)
              (secret_key ∷ []))
    × ((j : String)
        → All
            (λ (k : EnrolledKey).
              fingerprint_of (key_id_from_fingerprint k.fingerprint) ≢ fingerprint_of j)
            (secret_key ∷ [])
        → held forget_all.1 j ≡ enrolled_memory j)
unfolding key_id_from_fingerprint run_forget
run_forget-listed_example =
    run_forget-listed text_errors sample_keys (memory_vault known) full_host read_secret
      (λ path. types_secret) (memory-IsLawful known) (secret_key ∷ []) [] enrolled_memory refl

enroll_one-checked_example :
    (true ≡ true
      → (key : String) × (p : String) × (k : String) × (read_key text_errors sample_keys
            (memory_vault known)
            full_host
            read_secret
            (λ path. types_secret)
            "id"
            empty_memory
          ≡ ok key)
        × (sample_keys.is_encrypted key ≡ true)
        × (◌≡◌ {A = Result String String} (ok "secret") (ok p))
        × (sample_keys.decrypt key p ≡ ok k)
        × (held
              (enroll_one text_errors sample_keys
                (memory_vault known)
                full_host
                read_secret
                (λ path. types_secret)
                "id"
                empty_memory).1
              (key_id sample_keys key)
            ≡ some p))
    × (exit_ok ≡ exit_usage
        → (j : String)
        → held
            (enroll_one text_errors sample_keys
              (memory_vault known)
              full_host
              read_secret
              (λ path. types_secret)
              "id"
              empty_memory).1
            j
          ≡ empty_memory j)
    × ((j : String)
        → ((key : String)
            → read_key text_errors sample_keys
                (memory_vault known)
                full_host
                read_secret
                (λ path. types_secret)
                "id"
                empty_memory
              ≡ ok key
            → fingerprint_of (key_id sample_keys key) ≢ fingerprint_of j)
        → held
            (enroll_one text_errors sample_keys
              (memory_vault known)
              full_host
              read_secret
              (λ path. types_secret)
              "id"
              empty_memory).1
            j
          ≡ empty_memory j)
unfolding enroll_one fingerprint_of strip_prefix key_id
enroll_one-checked_example =
    enroll_one-checked text_errors sample_keys (memory_vault known) full_host read_secret
      (λ path. types_secret) "id" empty_memory (memory-IsLawful known) (λ j. refl)
      (success "id" "SHA256:secret") refl

run_enroll-batch_example :
    (paths : List String) × (resolve_paths text_errors sample_keys
        (memory_vault known)
        full_host
        read_secret
        (λ path. types_secret)
        ("id" ∷ [])
      ≡ ok paths)
    × ("id" ∷ [] ≡ paths)
    × (exit_ok ≡ exit_ok → All (λ o. o.succeeded ≡ true) (success "id" "SHA256:secret" ∷ []))
    × (All (λ o. o.succeeded ≡ true) (success "id" "SHA256:secret" ∷ []) → exit_ok ≡ exit_ok)
unfolding run_enroll enroll_one fingerprint_of strip_prefix key_id
run_enroll-batch_example =
    run_enroll-batch text_errors sample_keys (memory_vault known) full_host read_secret
      (λ path. types_secret) ("id" ∷ []) empty_memory exit_ok (success "id" "SHA256:secret" ∷ [])
      refl refl
