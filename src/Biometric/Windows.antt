-- ===== src/Biometric/Windows.antt =====
-- `WindowsVault` of gitway-cli/src/biometric/windows.rs over the Credential Locker and Windows Hello, the
-- parameters `Locker` and `Hello`. `on_worker_thread` is left out: the operation runs the same on another
-- thread, which is taken not to panic.
pub mod Lawful
pub mod Consented
pub mod Errors
pub mod Promised
mod Tests
use gitway.Base.{
  ℕ, String, ◌<>◌, Bool, true, false, none, List, [], ◌∷◌, Result, ok, err, is_ok, if◌then◌else◌,
}
use gitway.Base.Io.{Io, ◌>>=◌, give, lift, fail}
use gitway.Base.Text.{is_empty_text}
use gitway.Biometric.Vault.{
  BiometricVault, BiometricError, not_enrolled, cancelled, unavailable, backend, EnrolledKey,
  dpapi_consent,
}
use gitway.Biometric.Ids.{fingerprint_of}

-- `windows::core::Error`: whether its code is ERROR_NOT_FOUND, and how it is shown.
pub record WinError : Type 0 where
  pub is_not_found : Bool
  pub shown : String

-- The entries of the resource that all of Gitway's passphrases share, by their user name.
pub record Locker (W : Type 0) : Type 1 where
  pub Credential : Type 0
  pub open_locker : Io W WinError (Unit {0})
  pub find : String → Io W WinError Credential
  pub remove : Credential → Io W WinError (Unit {0})
  -- User name and password.
  pub create : String → String → Result WinError Credential
  pub add : Credential → Io W WinError (Unit {0})
  pub password : Credential → Result WinError String
  pub find_all : Io W WinError (List Credential)
  pub user_name : Credential → Result WinError String

pub data Verification : Type 0 where
  verified not_verified : Verification

pub record Hello (W : Type 0) : Type 1 where
  pub Operation : Type 0
  -- Whether the availability is `Available`.
  pub check_availability : W → Result WinError Bool
  pub request : String → Io W WinError Operation
  pub result : Operation → Io W WinError Verification

unfoldable pub account_of : String → String
account_of id = fingerprint_of id

module _ {A : Type 0} where
  -- `map_err` to a back end error.
  abbrev pub as_backend : String → Result WinError A → Result BiometricError A
  as_backend context (ok a) = ok a
  as_backend context (err e) = err (backend (context <> e.shown))

  abbrev pub with_backend : {W : Type 0} → String → Io W WinError A → Io W BiometricError A
  with_backend context step w = let (r, w') = step w in (as_backend context r, w')

  -- The same, where a missing entry is a key that is not enrolled.
  abbrev pub enrolled : Result WinError A → Result BiometricError A
  enrolled (ok a) = ok a
  enrolled (err e) =
      if e.is_not_found then err not_enrolled else err (backend ("locker read: " <> e.shown))

  abbrev pub if_enrolled : {W : Type 0} → Io W WinError A → Io W BiometricError A
  if_enrolled step w = let (r, w') = step w in (enrolled r, w')

module _ {W : Type 0} (L : Locker W) (H : Hello W) where
  accepted : Verification → Result BiometricError (Unit {0})
  accepted verified = ok tt
  accepted not_verified = err cancelled

  unfoldable pub verify_consent : Io W BiometricError (Unit {0})
  unfolding accepted
  verify_consent = with_backend "hello request: " (H.request "Unlock your SSH key") >>= λ operation.
      with_backend "hello result: " (H.result operation) >>= λ v. lift (accepted v)

  abbrev pub opened : Io W BiometricError (Unit {0})
  opened = with_backend "credential locker: " L.open_locker

  abbrev removing : Result WinError L.Credential → W → W
  removing (ok existing) w = (L.remove existing w).1
  removing (err e) w = w

  -- An earlier entry is removed, and a failure to do so ignored.
  pub overwritten : String → Io W BiometricError (Unit {0})
  overwritten account w = let (r, w') = L.find account w in (ok tt, removing r w')

  unfoldable pub store : String → String → Io W BiometricError (Unit {0})
  unfolding account_of overwritten
  store id p = opened >>= λ _. overwritten (account_of id) >>= λ _.
      lift (as_backend "create credential: " (L.create (account_of id) p)) >>= λ credential.
      with_backend "locker write: " (L.add credential)

  not_empty : String → Result BiometricError String
  not_empty text =
      if is_empty_text text then err (backend "stored passphrase was empty") else ok text

  unfoldable pub retrieve : String → Io W BiometricError String
  unfolding account_of verify_consent not_empty
  retrieve id = opened >>= λ _. if_enrolled (L.find (account_of id)) >>= λ credential.
      verify_consent >>= λ _.
      lift (as_backend "locker password: " (L.password credential)) >>= λ text.
      lift (not_empty text)

  unfoldable pub delete : String → Io W BiometricError (Unit {0})
  unfolding account_of
  delete id = opened >>= λ _. if_enrolled (L.find (account_of id)) >>= λ credential.
      with_backend "locker delete: " (L.remove credential)

  unfoldable pub name_or_empty : Result WinError String → String
  name_or_empty (ok name) = name
  name_or_empty (err e) = ""

  unfoldable pub listed : List L.Credential → List EnrolledKey
  unfolding name_or_empty
  listed [] = []
  listed (c ∷ found) =
      record { fingerprint = name_or_empty (L.user_name c); comment = none } ∷ listed found

  unfoldable pub all_found :
      Result WinError (List L.Credential) → Result BiometricError (List EnrolledKey)
  unfolding listed
  all_found (ok found) = ok (listed found)
  all_found (err e) = if e.is_not_found then ok [] else err (backend ("locker list: " <> e.shown))

  unfoldable pub list : Io W BiometricError (List EnrolledKey)
  unfolding all_found
  list = opened >>= λ _. λ w. let (r, w') = L.find_all w in (all_found r, w')

  is_true : Result WinError Bool → Bool
  is_true (ok b) = b
  is_true (err e) = false

  unfoldable pub is_available : W → Bool
  unfolding is_true
  is_available w = is_true (H.check_availability w)

  unfoldable pub windows_vault : BiometricVault W
  unfolding is_available store retrieve delete list
  windows_vault = record {
    is_available = is_available;
    binding_tier = dpapi_consent;
    store = store;
    retrieve = retrieve;
    delete = delete;
    list = list;
  }
