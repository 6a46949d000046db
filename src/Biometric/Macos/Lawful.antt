-- ===== src/Biometric/Macos/Lawful.antt =====
-- The laws of the trait for `MacosVault` of gitway-cli/src/biometric/macos.rs.
use gitway.Base.{String, eq_iff, ◌≡◌, ◌≢◌, refl, ◌∙◌, Option, none, some, Result, ok, err, arith}
use gitway.Biometric.Vault.{IsLawful, not_enrolled}
use gitway.Biometric.Ids.{fingerprint_of}
use gitway.Biometric.Macos.{
  Keychain, err_sec_item_not_found, map_error, mapped, text_of, account_of, store, retrieve, delete,
  macos_vault,
}

-- What the Keychain documents, in terms of the password that it holds for each account.
pub record IsKeychain {W : Type 0} (C : Keychain W) (held : W → String → Option String)
    : Type 0 where
  pub set_ok :
      (label a p : String) (w : W)
      → (C.set_password label a p w).0 ≡ ok tt
      → held (C.set_password label a p w).1 a ≡ some p
  pub set_other :
      (label a p b : String) (w : W) → a ≢ b → held (C.set_password label a p w).1 b ≡ held w b
  pub delete_ok :
      (a : String) (w : W)
      → (C.delete_password a w).0 ≡ ok tt
      → held (C.delete_password a w).1 a ≡ none
  pub delete_missing :
      (a : String) (w : W)
      → (C.delete_password a w).0 ≡ err err_sec_item_not_found
      → held (C.delete_password a w).1 a ≡ none
  pub delete_other : (a b : String) (w : W) → a ≢ b → held (C.delete_password a w).1 b ≡ held w b
  pub password_ok : (a p : String) (w : W) → (C.password a w).0 ≡ ok (some p) → held w a ≡ some p
  pub password_keeps : (a b : String) (w : W) → held (C.password a w).1 b ≡ held w b

mapped-ok : (r : Result String (Unit {0})) → mapped r ≡ ok tt → r ≡ ok tt
mapped-ok (ok _) h = refl
mapped-ok (err code) h = cc

pub map_error-not_enrolled :
    (code : String) → map_error code ≡ not_enrolled → code ≡ err_sec_item_not_found
unfolding map_error
map_error-not_enrolled code h = (eq_iff code err_sec_item_not_found).0 (ground arith)

mapped-not_enrolled :
    (r : Result String (Unit {0})) → mapped r ≡ err not_enrolled → r ≡ err err_sec_item_not_found
mapped-not_enrolled (ok _) h = cc
mapped-not_enrolled (err code) h =
    let same : map_error code ≡ not_enrolled = cc in rw (map_error-not_enrolled code same)

text_of-ok : (r : Result String (Option String)) (p : String) → text_of r ≡ ok p → r ≡ ok (some p)
text_of-ok (err code) p h = cc
text_of-ok (ok none) p h = cc
text_of-ok (ok (some text)) p h = cc

-- Over a Keychain that does what it documents, the macOS back end keeps what the trait promises of its effects,
-- with the passphrase of a key under the account of its fingerprint.
pub macos_vault-IsLawful :
    {W : Type 0} (C : Keychain W) {held : W → String → Option String}
    → IsKeychain C held
    → IsLawful (macos_vault C) (λ w id. held w (account_of id))
unfolding macos_vault store retrieve delete account_of
macos_vault-IsLawful C laws = record {
  store_ok = λ k p w h. laws.set_ok _ (fingerprint_of k) p _ (mapped-ok _ h);
  store_other = λ k p j w differs.
      laws.set_other _ (fingerprint_of k) p (fingerprint_of j) _ differs
      ∙ laws.delete_other (fingerprint_of k) (fingerprint_of j) w differs;
  retrieve_ok = λ k p w h. laws.password_ok (fingerprint_of k) p w (text_of-ok _ p h);
  retrieve_keeps = λ k j w. laws.password_keeps (fingerprint_of k) (fingerprint_of j) w;
  delete_ok = λ k w h. laws.delete_ok (fingerprint_of k) w (mapped-ok _ h);
  delete_other = λ k j w differs. laws.delete_other (fingerprint_of k) (fingerprint_of j) w differs;
  delete_missing = λ k w h. laws.delete_missing (fingerprint_of k) w (mapped-not_enrolled _ h);
}
