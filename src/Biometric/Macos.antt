-- ===== src/Biometric/Macos.antt =====
-- `MacosVault` of gitway-cli/src/biometric/macos.rs over the Keychain, the parameter `Keychain`. A
-- status of the Keychain is its code in decimal.
pub mod Lawful
pub mod Promised
pub mod Sound
mod Tests
use gitway.Base.{
  String, ◌<>◌, ◌==◌, ◌||◌, Bool, true, Option, none, some, List, [], ◌∷◌, Result, ok, err,
  if◌then◌else◌, unwrap_or,
}
use gitway.Base.Io.{Io}
use gitway.Base.Text.{lookup}
use gitway.Biometric.Vault.{
  BiometricVault, BiometricError, not_enrolled, cancelled, backend, EnrolledKey, hardware_bound,
}
use gitway.Biometric.Ids.{fingerprint_of}

-- The items of the service that all of Gitway's passphrases share, by their account.
pub record Keychain (W : Type 0) : Type 0 where
  pub delete_password : String → Io W String (Unit {0})
  -- Label and account, with the user presence as access control.
  pub set_password : String → String → String → Io W String (Unit {0})
  -- The password as a text, or `none` where its bytes are not UTF-8.
  pub password : String → Io W String (Option String)
  -- The results with attributes: `none` for one that is no dictionary or cannot be simplified.
  pub search : Io W String (List (Option (List (String × String))))

abbrev err_sec_item_not_found : String
err_sec_item_not_found = "-25300"

abbrev err_sec_user_canceled : String
err_sec_user_canceled = "-128"

abbrev err_sec_auth_failed : String
err_sec_auth_failed = "-25293"

unfoldable pub account_of : String → String
account_of id = fingerprint_of id

unfoldable pub map_error : String → BiometricError
map_error code =
    if code == err_sec_item_not_found
    then not_enrolled
    else if code == err_sec_user_canceled || code == err_sec_auth_failed
    then cancelled
    else backend ("keychain error " <> code)

abbrev pub mapped : {A : Type 0} → Result String A → Result BiometricError A
mapped (ok a) = ok a
mapped (err code) = err (map_error code)

abbrev pub text_of : Result String (Option String) → Result BiometricError String
text_of (err code) = err (map_error code)
text_of (ok none) = err (backend "stored passphrase is not valid UTF-8")
text_of (ok (some text)) = ok text

abbrev key_of : List (String × String) → EnrolledKey
key_of attributes = record {
  fingerprint = unwrap_or (lookup "acct" attributes) "";
  comment = lookup "icmt" attributes;
}

enrolled_keys : List (Option (List (String × String))) → List EnrolledKey
enrolled_keys [] = []
enrolled_keys (none ∷ results) = enrolled_keys results
enrolled_keys (some attributes ∷ results) = key_of attributes ∷ enrolled_keys results

-- An empty Keychain reports an error, which means no entries.
listed :
    Result String (List (Option (List (String × String))))
    → Result BiometricError (List EnrolledKey)
unfolding enrolled_keys
listed (ok results) = ok (enrolled_keys results)
listed (err code) = if code == err_sec_item_not_found then ok [] else err (map_error code)

module _ {W : Type 0} (C : Keychain W) where
  -- A prior enrollment is removed first, whatever comes of that.
  unfoldable pub store : String → String → Io W BiometricError (Unit {0})
  unfolding account_of
  store id passphrase w =
      let account = account_of id in
      let (r, w') =
        C.set_password ("Gitway SSH passphrase (" <> account <> ")") account passphrase
          (C.delete_password account w).1 in
      (mapped r, w')

  unfoldable pub retrieve : String → Io W BiometricError String
  unfolding account_of
  retrieve id w = let (r, w') = C.password (account_of id) w in (text_of r, w')

  unfoldable pub delete : String → Io W BiometricError (Unit {0})
  unfolding account_of
  delete id w = let (r, w') = C.delete_password (account_of id) w in (mapped r, w')

  unfoldable pub list : Io W BiometricError (List EnrolledKey)
  unfolding listed
  list w = let (r, w') = C.search w in (listed r, w')

  unfoldable pub macos_vault : BiometricVault W
  unfolding store retrieve delete list
  macos_vault = record {
    is_available = λ w. true;
    binding_tier = hardware_bound;
    store = store;
    retrieve = retrieve;
    delete = delete;
    list = list;
  }
