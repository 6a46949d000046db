-- ===== src/Biometric/Windows/Promised.antt =====
-- `WindowsVault` of gitway-cli/src/biometric/windows.rs: the answers that the trait promises.
use gitway.Base.{
  ℕ, ◌<◌, ◌↔◌, String, ◌≡◌, ◌≢◌, true, Option, none, some, is_some, List, map, ok, err,
}
use gitway.Base.Io.{Io, ◌>>=◌, lift}
use gitway.Base.Listed.{Listed}
use gitway.Biometric.Vault.{BiometricError}
use gitway.Biometric.Ids.{fingerprint_of}
use gitway.Biometric.Windows.{
  WinError, Locker, Hello, as_backend, if_enrolled, verify_consent, not_empty,
}
use gitway.Biometric.Windows.Lawful.{IsLocker}

-- What the Credential Locker and Windows Hello document of their answers: `prompts` counts the requests to the
-- user, and `answers` holds of the states in which the locker grants what it is asked.
pub record Answers {W : Type 0} (L : Locker W) (H : Hello W) (held : W → String → Option String)
    (prompts : W → ℕ) (answers : W → Type 0) : Type 0 where
  pub opens : (w : W) → answers w → (L.open_locker w).0 ≡ ok tt
  pub open_answers : (w : W) → answers w → answers (L.open_locker w).1
  pub open_unprompted : (w : W) → prompts (L.open_locker w).1 ≡ prompts w
  pub find_held : (a : String) (c : L.Credential) (w : W) → (L.find a w).0 ≡ ok c → held w a ≢ none
  pub find_absent :
      (a : String) (w : W)
      → answers w
      → held w a ≡ none
      → (e : WinError) × ((L.find a w).0 ≡ err e) × (e.is_not_found ≡ true)
  pub find_present :
      (a p : String) (w : W)
      → answers w
      → held w a ≡ some p
      → (c : L.Credential) × ((L.find a w).0 ≡ ok c)
  pub find_answers : (a : String) (w : W) → answers w → answers (L.find a w).1
  pub find_unprompted : (a : String) (w : W) → prompts (L.find a w).1 ≡ prompts w
  pub removes : (c : L.Credential) (w : W) → answers w → (L.remove c w).0 ≡ ok tt
  pub remove_answers : (c : L.Credential) (w : W) → answers w → answers (L.remove c w).1
  pub creates : (a p : String) → (c : L.Credential) × (L.create a p ≡ ok c)
  -- Nothing is said of a second entry for a user name.
  pub adds :
      (a p : String) (c : L.Credential) (w : W)
      → answers w
      → L.create a p ≡ ok c
      → held w a ≡ none
      → (L.add c w).0 ≡ ok tt
  pub find_all_names :
      (found : List L.Credential) (w : W)
      → (L.find_all w).0 ≡ ok found
      → (names : List String) × (map (λ c. L.user_name c) found ≡ map (λ n. ok n) names)
        × ((a : String) → Listed a names ↔ (is_some (held w a) ≡ true))
  pub find_all_missing :
      (e : WinError) (w : W)
      → (L.find_all w).0 ≡ err e
      → e.is_not_found ≡ true
      → (a : String) → held w a ≡ none
  pub request_prompts :
      (text : String) (o : H.Operation) (w : W)
      → (H.request text w).0 ≡ ok o
      → prompts w < prompts (H.request text w).1
  pub result_unprompted : (o : H.Operation) (w : W) → prompts (H.result o w).1 ≡ prompts w

module _ {W : Type 0} (L : Locker W) (H : Hello W) {held : W → String → Option String}
    {prompts : W → ℕ} {answers : W → Type 0} (laws : IsLocker L H held)
    (replies : Answers L H held prompts answers) where
  module _ (k : String) where
    abbrev secret : L.Credential → Io W BiometricError String
    secret c =
        lift (as_backend "locker password: " (L.password c)) >>= λ text. lift (not_empty L H text)

    abbrev consented : L.Credential → Io W BiometricError String
    consented c = verify_consent L H >>= λ _. secret c

    abbrev looked_up : Io W BiometricError String
    looked_up = if_enrolled (L.find (fingerprint_of k)) >>= λ c. consented c
