-- ===== src/Biometric/Vault.antt =====
-- The types of gitway-cli/src/biometric/mod.rs and the trait `BiometricVault`, over the state `W`
-- of the machine, with what the trait's documentation promises.
use gitway.Base.{
  ℕ, ◌<◌, ◌↔◌, ◌⊎◌, true, is_some, map, String, ◌<>◌, Bool, Option, none, some, List, ok, err, ◌≡◌,
  ◌≢◌, if◌then◌else◌,
}
use gitway.Base.Io.{Io}
use gitway.Base.Listed.{Listed}
use gitway.Biometric.Ids.{fingerprint_of, key_id_from_fingerprint}

pub data Tier : Type 0 where
  hardware_bound dpapi_consent advisory unsupported : Tier

unfoldable pub as_str : Tier → String
as_str hardware_bound = "hardware-bound"
as_str dpapi_consent = "dpapi-consent"
as_str advisory = "advisory"
as_str unsupported = "unsupported"

unfoldable pub description : Tier → String
description hardware_bound =
    "hardware-bound (Secure Enclave); the secret is released only on a biometric or passcode match"
description dpapi_consent =
    "DPAPI-encrypted at rest; Windows Hello consent gates the read but is not cryptographically bound to it"
description advisory =
    "advisory gate — fprintd verifies your fingerprint, but the passphrase is protected by your login keyring, not by the fingerprint; a local attacker with an unlocked session can bypass the fingerprint check; treat this as convenience, not a security boundary"
description unsupported = "no biometric backend is available on this build"

pub data UnlockMode : Type 0 where
  auto enroll disabled : UnlockMode

unfoldable pub from_flags : Bool → Bool → UnlockMode
from_flags enrolls disables = if disables then disabled else if enrolls then enroll else auto

pub record EnrolledKey : Type 0 where
  pub fingerprint : String
  pub comment : Option String

pub data BiometricError : Type 0 where
  not_enrolled cancelled : BiometricError
  unavailable backend : String → BiometricError

-- `Display`
unfoldable pub to_string : BiometricError → String
to_string not_enrolled = "key is not enrolled for biometric unlock"
to_string cancelled = "biometric verification was cancelled or did not match"
to_string (unavailable why) = "biometric unlock is unavailable: " <> why
to_string (backend why) = "biometric backend error: " <> why

pub record BiometricVault (W : Type 0) : Type 0 where
  pub is_available : W → Bool
  pub binding_tier : Tier
  pub store : String → String → Io W BiometricError (Unit {0})
  pub retrieve : String → Io W BiometricError String
  pub delete : String → Io W BiometricError (Unit {0})
  pub list : Io W BiometricError (List EnrolledKey)

-- What the documentation of the trait says of the effects of its operations, in terms of the passphrase that the
-- keystore holds under each identifier: `store` sets one, `retrieve` releases one and changes none,
-- `delete` removes one and reports a missing one as `NotEnrolled`. An operation on one fingerprint
-- leaves the others alone. Nothing is said of an operation that fails otherwise; `Promises` has the rest of
-- the documentation.
pub record IsLawful {W : Type 0} (v : BiometricVault W) (stored : W → String → Option String)
    : Type 0 where
  pub store_ok :
      (k p : String) (w : W) → (v.store k p w).0 ≡ ok tt → stored (v.store k p w).1 k ≡ some p
  pub store_other :
      (k p j : String) (w : W)
      → fingerprint_of k ≢ fingerprint_of j
      → stored (v.store k p w).1 j ≡ stored w j
  pub retrieve_ok : (k p : String) (w : W) → (v.retrieve k w).0 ≡ ok p → stored w k ≡ some p
  pub retrieve_keeps : (k j : String) (w : W) → stored (v.retrieve k w).1 j ≡ stored w j
  pub delete_ok : (k : String) (w : W) → (v.delete k w).0 ≡ ok tt → stored (v.delete k w).1 k ≡ none
  pub delete_other :
      (k j : String) (w : W)
      → fingerprint_of k ≢ fingerprint_of j
      → stored (v.delete k w).1 j ≡ stored w j
  pub delete_missing :
      (k : String) (w : W) → (v.delete k w).0 ≡ err not_enrolled → stored (v.delete k w).1 k ≡ none

-- The fingerprints of a listing.
abbrev pub fingerprints : List EnrolledKey → List String
fingerprints keys = map (λ (key : EnrolledKey). key.fingerprint) keys

-- The errors that the documentation allows where the keystore does not do what it is asked.
pub data Failure : BiometricError → Type 0 where
  no_keystore : (why : String) → Failure (unavailable why)
  refused : (why : String) → Failure (backend why)

-- What the documentation of the trait says beyond that: which answers there are, where `prompts`
-- counts the prompts that were raised and `answers` holds of the states in which the keystore does
-- what it is asked. A passphrase is stored, also over an earlier one; a missing one is reported as
-- `NotEnrolled`, which stands for nothing else, and `retrieve` raises no prompt for it; one that is
-- released was prompted for; and a listing has the fingerprints of the passphrases that are held.
pub record Promises {W : Type 0} (v : BiometricVault W) (stored : W → String → Option String)
    (prompts : W → ℕ) (answers : W → Type 0) : Type 0 where
  pub lawful : IsLawful v stored
  pub store_accepts : (k p : String) (w : W) → answers w → (v.store k p w).0 ≡ ok tt
  pub retrieve_missing :
      (k : String) (w : W) → answers w → stored w k ≡ none → (v.retrieve k w).0 ≡ err not_enrolled
  pub retrieve_not_enrolled :
      (k : String) (w : W) → (v.retrieve k w).0 ≡ err not_enrolled → stored w k ≡ none
  pub retrieve_unprompted :
      (k : String) (w : W) → stored w k ≡ none → prompts (v.retrieve k w).1 ≡ prompts w
  pub retrieve_prompts :
      (k p : String) (w : W) → (v.retrieve k w).0 ≡ ok p → prompts w < prompts (v.retrieve k w).1
  pub delete_absent :
      (k : String) (w : W) → answers w → stored w k ≡ none → (v.delete k w).0 ≡ err not_enrolled
  pub list_shows :
      (keys : List EnrolledKey) (w : W)
      → (v.list w).0 ≡ ok keys
      → (f : String)
      → Listed f (fingerprints keys) ↔ (is_some (stored w (key_id_from_fingerprint f)) ≡ true)

-- The errors that the documentation allows of the operations other than `retrieve`, of which it
-- allows every one.
pub record AllowedErrors {W : Type 0} (v : BiometricVault W) : Type 0 where
  pub store_fails :
      (k p : String) (w : W) (e : BiometricError) → (v.store k p w).0 ≡ err e → Failure e
  pub delete_fails :
      (k : String) (w : W) (e : BiometricError)
      → (v.delete k w).0 ≡ err e
      → (e ≡ not_enrolled) ⊎ Failure e
  pub list_fails : (w : W) (e : BiometricError) → (v.list w).0 ≡ err e → Failure e
