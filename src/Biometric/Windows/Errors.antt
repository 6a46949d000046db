-- ===== src/Biometric/Windows/Errors.antt =====
-- `WindowsVault` of gitway-cli/src/biometric/windows.rs: which errors its operations end with.
use gitway.Base.{
  ◌⊎◌, inl, inr, String, ◌<>◌, ◌≡◌, ◌≢◌, refl, sym, ◌∙◌, Bool-cases, Option, none, List, Result, ok,
  err,
}
use gitway.Base.Io.{Io, bind-run, ◌>>=◌, lift}
use gitway.Base.Text.{is_empty_text}
use gitway.Biometric.Vault.{
  AllowedErrors, Failure, refused, BiometricError, not_enrolled, cancelled, backend,
}
use gitway.Biometric.Ids.{fingerprint_of}
use gitway.Biometric.Windows.{
  WinError, Locker, Hello, Verification, verified, not_verified, account_of, as_backend, enrolled,
  with_backend, if_enrolled, accepted, verify_consent, opened, overwritten, not_empty, store,
  retrieve, delete, all_found, list, windows_vault,
}
use gitway.Biometric.Windows.Lawful.{IsLocker, missing}

-- The errors that a result may be.
abbrev pub Errs : {A : Type 0} → (BiometricError → Type 0) → Result BiometricError A → Type 0
Errs P r = (e : BiometricError) → r ≡ err e → P e

module _ {A : Type 0} (P : BiometricError → Type 0)
    (backends : (why : String) → P (backend why)) where
  as_backend-Errs : (context : String) (r : Result WinError A) → Errs P (as_backend context r)
  as_backend-Errs context (ok a) e h = cc
  as_backend-Errs context (err x) e h =
      let same : backend (context <> x.shown) ≡ e = cc in rw same at (backends (context <> x.shown))

  enrolled-Errs : P not_enrolled → (r : Result WinError A) → Errs P (enrolled r)
  enrolled-Errs unknown (ok a) e h = cc
  enrolled-Errs unknown (err x) e h = elim (Bool-cases x.is_not_found) [
    | inl gone ↦ let same : not_enrolled ≡ e = cc (rw gone at h) in rw same at unknown
    | inr other ↦
        let same : backend ("locker read: " <> x.shown) ≡ e = cc (rw other at h) in
        rw same at (backends ("locker read: " <> x.shown))
  ]

module _ {W : Type 0} (L : Locker W) (H : Hello W) where
  module _ {A B : Type 0} (P : BiometricError → Type 0) where
    bind-Errs :
        (m : Io W BiometricError A) (f : A → Io W BiometricError B)
        → ((w : W) → Errs P (m w).0)
        → ((a : A) (w : W) → Errs P (f a w).0)
        → (w : W) → Errs P ((m >>= f) w).0
    bind-Errs m f first second w =
        bind-run (λ (r, _). Errs P r) m f w
          (λ e failed x h. let same : e ≡ x = cc in rw same at (first w e failed))
          (λ a _. second a (m w).1)

  accepted-Errs :
      (P : BiometricError → Type 0) → P cancelled → (v : Verification) → Errs P (accepted L H v)
  unfolding accepted
  accepted-Errs P dismissed verified e h = cc
  accepted-Errs P dismissed not_verified e h = let same : cancelled ≡ e = cc in rw same at dismissed

  not_empty-Errs :
      (P : BiometricError → Type 0)
      → ((why : String) → P (backend why))
      → (text : String) → Errs P (not_empty L H text)
  unfolding not_empty
  not_empty-Errs P backends text e h = elim (Bool-cases (is_empty_text text)) [
    | inl empty ↦
        let same : backend "stored passphrase was empty" ≡ e = cc (rw (not_empty, empty) at h) in
        rw same at (backends "stored passphrase was empty")
    | inr solid ↦ cc (rw (not_empty, solid) at h)
  ]

  verify_consent-Errs :
      (P : BiometricError → Type 0)
      → ((why : String) → P (backend why))
      → P cancelled
      → (w : W) → Errs P (verify_consent L H w).0
  unfolding verify_consent
  verify_consent-Errs P backends dismissed =
      bind-Errs P (with_backend "hello request: " (H.request "Unlock your SSH key"))
        (λ o. with_backend "hello result: " (H.result o) >>= λ v. lift (accepted L H v))
        (λ w. as_backend-Errs P backends "hello request: " _)
        (λ o.
          bind-Errs P (with_backend "hello result: " (H.result o)) (λ v. lift (accepted L H v))
            (λ w. as_backend-Errs P backends "hello result: " _)
            (λ v w. accepted-Errs P dismissed v))

  store-Failure : (k p : String) (w : W) → Errs Failure (store L H k p w).0
  unfolding store account_of overwritten
  store-Failure k p =
      bind-Errs Failure (opened L H)
        (λ _. overwritten L H (fingerprint_of k) >>= λ _.
          lift (as_backend "create credential: " (L.create (fingerprint_of k) p)) >>= λ c.
          with_backend "locker write: " (L.add c))
        (λ w. as_backend-Errs Failure refused "credential locker: " _)
        (λ _.
          bind-Errs Failure (overwritten L H (fingerprint_of k))
            (λ _. lift (as_backend "create credential: " (L.create (fingerprint_of k) p)) >>= λ c.
              with_backend "locker write: " (L.add c))
            (λ w e h. cc)
            (λ _.
              bind-Errs Failure
                (lift (as_backend "create credential: " (L.create (fingerprint_of k) p)))
                (λ c. with_backend "locker write: " (L.add c))
                (λ w. as_backend-Errs Failure refused "create credential: " _)
                (λ c w. as_backend-Errs Failure refused "locker write: " _)))

  abbrev Deleting : BiometricError → Type 0
  Deleting e = (e ≡ not_enrolled) ⊎ Failure e

  delete-Deleting : (k : String) (w : W) → Errs Deleting (delete L H k w).0
  unfolding delete account_of
  delete-Deleting k =
      bind-Errs Deleting (opened L H)
        (λ _. if_enrolled (L.find (fingerprint_of k)) >>= λ c.
          with_backend "locker delete: " (L.remove c))
        (λ w. as_backend-Errs Deleting (λ why. inr (refused why)) "credential locker: " _)
        (λ _.
          bind-Errs Deleting (if_enrolled (L.find (fingerprint_of k)))
            (λ c. with_backend "locker delete: " (L.remove c))
            (λ w. enrolled-Errs Deleting (λ why. inr (refused why)) (inl refl) _)
            (λ c w. as_backend-Errs Deleting (λ why. inr (refused why)) "locker delete: " _))

  all_found-Failure : (r : Result WinError (List L.Credential)) → Errs Failure (all_found L H r)
  unfolding all_found
  all_found-Failure (ok found) e h = cc
  all_found-Failure (err x) e h = elim (Bool-cases x.is_not_found) [
    | inl gone ↦ cc (rw gone at h)
    | inr other ↦
        let same : backend ("locker list: " <> x.shown) ≡ e = cc (rw other at h) in
        rw same at (refused ("locker list: " <> x.shown))
  ]

  list-Failure : (w : W) → Errs Failure (list L H w).0
  unfolding list
  list-Failure =
      bind-Errs Failure (opened L H) (λ _. λ w. let (r, w') = L.find_all w in (all_found L H r, w'))
        (λ w. as_backend-Errs Failure refused "credential locker: " _) (λ _ w. all_found-Failure _)

  -- The errors of the Windows back end are those that the trait allows, whatever the services do.
  pub windows_vault-AllowedErrors : AllowedErrors (windows_vault L H)
  unfolding windows_vault
  windows_vault-AllowedErrors = record {
    store_fails = λ k p w e h. store-Failure k p w e h;
    delete_fails = λ k w e h. delete-Deleting k w e h;
    list_fails = λ w e h. list-Failure w e h;
  }

  backend-differs : (why : String) → backend why ≢ not_enrolled
  backend-differs why same = cc

  cancelled-differs : cancelled ≢ not_enrolled
  cancelled-differs same = cc

  module _ {held : W → String → Option String} (laws : IsLocker L H held) (k : String) where
    -- What `NotEnrolled` says.
    abbrev Says : W → BiometricError → Type 0
    Says w e = e ≡ not_enrolled → held w (fingerprint_of k) ≡ none

    backends : (w : W) (why : String) → Says w (backend why)
    backends w why same = absurd (backend-differs why same)

    consented-Errs :
        (c : L.Credential) (u : W) {w : W}
        → Errs
            (Says w)
            ((verify_consent L H >>= λ _.
                lift (as_backend "locker password: " (L.password c)) >>= λ text.
                lift (not_empty L H text))
              u).0
    consented-Errs c u {w} =
        bind-Errs (Says w) (verify_consent L H)
          (λ _. lift (as_backend "locker password: " (L.password c)) >>= λ text.
            lift (not_empty L H text))
          (verify_consent-Errs (Says w) (backends w) (λ same. absurd (cancelled-differs same)))
          (λ _.
            bind-Errs (Says w) (lift (as_backend "locker password: " (L.password c)))
              (λ text. lift (not_empty L H text))
              (λ v. as_backend-Errs (Says w) (backends w) "locker password: " _)
              (λ text v. not_empty-Errs (Says w) (backends w) text))
          u

    pub retrieve-not_enrolled :
        (w : W) → (retrieve L H k w).0 ≡ err not_enrolled → held w (fingerprint_of k) ≡ none
    unfolding retrieve account_of
    retrieve-not_enrolled w h = says not_enrolled h refl
      where
        says : Errs (Says w) (retrieve L H k w).0
        says =
            bind-run (λ (r, _). Errs (Says w) r) (opened L H)
              (λ _. if_enrolled (L.find (fingerprint_of k)) >>= λ c. verify_consent L H >>= λ _.
                lift (as_backend "locker password: " (L.password c)) >>= λ text.
                lift (not_empty L H text))
              w
              (λ e failed x same.
                let equal : e ≡ x = cc in
                rw equal at
                  (as_backend-Errs (Says w) (backends w) "credential locker: " _ e failed))
              (λ _ _.
                bind-run (λ (r, _). Errs (Says w) r) (if_enrolled (L.find (fingerprint_of k)))
                  (λ c. verify_consent L H >>= λ _.
                    lift (as_backend "locker password: " (L.password c)) >>= λ text.
                    lift (not_empty L H text))
                  _
                  (λ e failed x same unknown.
                    let equal : e ≡ x = cc in
                    sym (laws.open_keeps (fingerprint_of k) w)
                    ∙ missing L H laws k _ _ refl failed (equal ∙ unknown))
                  (λ c found. consented-Errs c _))
