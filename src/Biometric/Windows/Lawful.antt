-- ===== src/Biometric/Windows/Lawful.antt =====
-- The laws of the trait for `WindowsVault` of gitway-cli/src/biometric/windows.rs.
use gitway.Base.{
  String, ◌≡◌, ◌≢◌, refl, sym, ◌∙◌, true, Option, none, some, Result, ok, err, Bool-cases, inl, inr,
}
use gitway.Base.Io.{Io, bind-eq-ok, bind_keeps, bind-run, ◌>>=◌, lift}
use gitway.Biometric.Vault.{IsLawful, BiometricError, not_enrolled}
use gitway.Biometric.Ids.{fingerprint_of}
use gitway.Biometric.Windows.{
  WinError, Locker, Hello, account_of, as_backend, enrolled, with_backend, if_enrolled, accepted,
  verify_consent, opened, removing, overwritten, not_empty, store, retrieve, delete, windows_vault,
}
use gitway.Biometric.Windows.Consented.{as_backend-ok, enrolled-ok, retrieve-Consented}

-- What the Credential Locker documents, in terms of the password that it holds for each user name, and
-- that Windows Hello leaves it alone.
pub record IsLocker {W : Type 0} (L : Locker W) (H : Hello W) (held : W → String → Option String)
    : Type 0 where
  pub name : L.Credential → String
  pub open_keeps : (b : String) (w : W) → held (L.open_locker w).1 b ≡ held w b
  pub find_keeps : (a b : String) (w : W) → held (L.find a w).1 b ≡ held w b
  pub find_name : (a : String) (c : L.Credential) (w : W) → (L.find a w).0 ≡ ok c → name c ≡ a
  pub find_ok :
      (a p : String) (c : L.Credential) (w : W)
      → (L.find a w).0 ≡ ok c
      → L.password c ≡ ok p
      → held w a ≡ some p
  pub find_missing :
      (a : String) (e : WinError) (w : W)
      → (L.find a w).0 ≡ err e
      → e.is_not_found ≡ true
      → held w a ≡ none
  pub remove_ok :
      (c : L.Credential) (w : W) → (L.remove c w).0 ≡ ok tt → held (L.remove c w).1 (name c) ≡ none
  pub remove_other :
      (c : L.Credential) (b : String) (w : W) → name c ≢ b → held (L.remove c w).1 b ≡ held w b
  pub add_ok :
      (a p : String) (c : L.Credential) (w : W)
      → L.create a p ≡ ok c
      → (L.add c w).0 ≡ ok tt
      → held (L.add c w).1 a ≡ some p
  pub add_other :
      (a p b : String) (c : L.Credential) (w : W)
      → L.create a p ≡ ok c
      → a ≢ b
      → held (L.add c w).1 b ≡ held w b
  pub request_keeps : (text b : String) (w : W) → held (H.request text w).1 b ≡ held w b
  pub result_keeps : (o : H.Operation) (b : String) (w : W) → held (H.result o w).1 b ≡ held w b

backend-only :
    {A : Type 0} (context : String) (r : Result WinError A) {e : BiometricError}
    → as_backend context r ≡ err e
    → e ≢ not_enrolled
backend-only context (ok a) h same = cc
backend-only context (err e) h same = cc

err-injective :
    {A : Type 0} {d e : BiometricError} → ◌≡◌ {A = Result BiometricError A} (err d) (err e) → d ≡ e
err-injective same = cc

module _ {W : Type 0} (L : Locker W) (H : Hello W) {held : W → String → Option String}
    (laws : IsLocker L H held) where
  abbrev view : String → W → Option String
  view b w = held w b

  removing_keeps :
      (a b : String) (w : W) (r : Result WinError L.Credential)
      → a ≢ b
      → (L.find a w).0 ≡ r
      → held (removing L H r (L.find a w).1) b ≡ held w b
  removing_keeps a b w (ok c) differs found =
      laws.remove_other c b _ (λ same. differs (sym (laws.find_name a c w found) ∙ same))
      ∙ laws.find_keeps a b w
  removing_keeps a b w (err e) differs found = laws.find_keeps a b w

  created-ok :
      (a p : String) (w : W)
      → (store L H a p w).0 ≡ ok tt
      → held (store L H a p w).1 (fingerprint_of a) ≡ some p
  unfolding store account_of
  created-ok a p w h =
      let (_, _, second, state1) =
        bind-eq-ok (opened L H)
          (λ _. overwritten L H (fingerprint_of a) >>= λ _.
            lift (as_backend "create credential: " (L.create (fingerprint_of a) p))
            >>= λ credential. with_backend "locker write: " (L.add credential))
          w h in
      let (_, _, third, state2) =
        bind-eq-ok (overwritten L H (fingerprint_of a))
          (λ _.
            lift (as_backend "create credential: " (L.create (fingerprint_of a) p))
            >>= λ credential. with_backend "locker write: " (L.add credential))
          _ second in
      let (c, made, fourth, state3) =
        bind-eq-ok (lift (as_backend "create credential: " (L.create (fingerprint_of a) p)))
          (λ credential. with_backend "locker write: " (L.add credential)) _ third in
      rw (state1 ∙ (state2 ∙ state3)) (
        laws.add_ok (fingerprint_of a) p c _ (as_backend-ok L H _ _ made)
          (as_backend-ok L H _ _ fourth))

  store_keeps :
      (a p b : String) → fingerprint_of a ≢ b → (w : W) → held (store L H a p w).1 b ≡ held w b
  unfolding store account_of overwritten
  store_keeps a p b differs =
      bind_keeps (view b) (opened L H)
        (λ _. overwritten L H (fingerprint_of a) >>= λ _.
          lift (as_backend "create credential: " (L.create (fingerprint_of a) p)) >>= λ credential.
          with_backend "locker write: " (L.add credential))
        (laws.open_keeps b)
        (λ _.
          bind_keeps (view b) (overwritten L H (fingerprint_of a))
            (λ _.
              lift (as_backend "create credential: " (L.create (fingerprint_of a) p))
              >>= λ credential. with_backend "locker write: " (L.add credential))
            (λ w. removing_keeps (fingerprint_of a) b w _ differs refl)
            (λ _ w.
              bind-run (λ (_, u). held u b ≡ held w b)
                (lift (as_backend "create credential: " (L.create (fingerprint_of a) p)))
                (λ credential. with_backend "locker write: " (L.add credential)) w
                (λ e failed. refl)
                (λ c made.
                  laws.add_other (fingerprint_of a) p b c w (as_backend-ok L H _ _ made) differs)))

  verify_keeps : (b : String) (w : W) → held (verify_consent L H w).1 b ≡ held w b
  unfolding verify_consent
  verify_keeps b =
      bind_keeps (view b) (with_backend "hello request: " (H.request "Unlock your SSH key"))
        (λ operation.
          with_backend "hello result: " (H.result operation) >>= λ v. lift (accepted L H v))
        (laws.request_keeps _ b)
        (λ operation.
          bind_keeps (view b) (with_backend "hello result: " (H.result operation))
            (λ v. lift (accepted L H v)) (laws.result_keeps operation b) (λ v w. refl))

  retrieve_keeps : (a b : String) (w : W) → held (retrieve L H a w).1 b ≡ held w b
  unfolding retrieve account_of
  retrieve_keeps a b =
      bind_keeps (view b) (opened L H)
        (λ _. if_enrolled (L.find (fingerprint_of a)) >>= λ credential. verify_consent L H >>= λ _.
          lift (as_backend "locker password: " (L.password credential)) >>= λ text.
          lift (not_empty L H text))
        (laws.open_keeps b)
        (λ _.
          bind_keeps (view b) (if_enrolled (L.find (fingerprint_of a)))
            (λ credential. verify_consent L H >>= λ _.
              lift (as_backend "locker password: " (L.password credential)) >>= λ text.
              lift (not_empty L H text))
            (laws.find_keeps (fingerprint_of a) b)
            (λ credential.
              bind_keeps (view b) (verify_consent L H)
                (λ _. lift (as_backend "locker password: " (L.password credential)) >>= λ text.
                  lift (not_empty L H text))
                (verify_keeps b)
                (λ _.
                  bind_keeps (view b)
                    (lift (as_backend "locker password: " (L.password credential)))
                    (λ text. lift (not_empty L H text)) (λ w. refl) (λ text w. refl))))

  retrieve-held :
      (a p : String) (w : W) → (retrieve L H a w).0 ≡ ok p → held w (fingerprint_of a) ≡ some p
  unfolding account_of
  retrieve-held a p w h =
      let c = retrieve-Consented L H a p w h in
      sym (laws.open_keeps (fingerprint_of a) w)
      ∙ laws.find_ok (fingerprint_of a) p c.credential _ c.found c.password

  module _ (a : String) where
    abbrev found_then : L.Credential → Io W BiometricError (Unit {0})
    found_then credential = with_backend "locker delete: " (L.remove credential)

    abbrev opened_then : Io W BiometricError (Unit {0})
    opened_then = if_enrolled (L.find (fingerprint_of a)) >>= λ credential. found_then credential

    delete-held :
        (w : W) → (delete L H a w).0 ≡ ok tt → held (delete L H a w).1 (fingerprint_of a) ≡ none
    unfolding delete account_of
    delete-held w h =
        let (_, _, second, state1) = bind-eq-ok (opened L H) (λ _. opened_then) w h in
        let (c, found, last, state2) =
          bind-eq-ok (if_enrolled (L.find (fingerprint_of a))) found_then _ second in
        let named = laws.find_name (fingerprint_of a) c _ (enrolled-ok L H _ found) in
        let gone = laws.remove_ok c _ (as_backend-ok L H _ _ last) in
        rw (state1 ∙ state2) (rw named at gone)

    delete_keeps :
        (b : String) → fingerprint_of a ≢ b → (w : W) → held (delete L H a w).1 b ≡ held w b
    unfolding delete account_of
    delete_keeps b differs =
        bind_keeps (view b) (opened L H) (λ _. opened_then) (laws.open_keeps b)
          (λ _ w.
            bind-run (λ (_, u). held u b ≡ held w b) (if_enrolled (L.find (fingerprint_of a)))
              found_then w (λ e failed. laws.find_keeps (fingerprint_of a) b w)
              (λ c found.
                laws.remove_other c b _ (λ same.
                  differs
                    (sym (laws.find_name (fingerprint_of a) c w (enrolled-ok L H _ found)) ∙ same))
                ∙ laws.find_keeps (fingerprint_of a) b w))

    pub missing :
        (w : W) (r : Result WinError L.Credential) {e : BiometricError}
        → (L.find (fingerprint_of a) w).0 ≡ r
        → enrolled r ≡ err e
        → e ≡ not_enrolled
        → held w (fingerprint_of a) ≡ none
    missing w (ok c) found h same = cc
    missing w (err e) found h same = elim (Bool-cases e.is_not_found) [
      | inl gone ↦ laws.find_missing (fingerprint_of a) e w found gone
      | inr other ↦ cc (rw other at h)
    ]

    delete-missing :
        (w : W)
        → (delete L H a w).0 ≡ err not_enrolled
        → held (delete L H a w).1 (fingerprint_of a) ≡ none
    unfolding delete account_of
    delete-missing w =
        bind-run (λ (r, u). r ≡ err not_enrolled → held u (fingerprint_of a) ≡ none) (opened L H)
          (λ _. opened_then) w
          (λ e failed same. absurd (backend-only _ _ failed (err-injective same)))
          (λ _ _.
            bind-run (λ (r, u). r ≡ err not_enrolled → held u (fingerprint_of a) ≡ none)
              (if_enrolled (L.find (fingerprint_of a))) found_then _
              (λ e failed same.
                laws.find_keeps (fingerprint_of a) (fingerprint_of a) _
                ∙ missing _ _ refl failed (err-injective same))
              (λ c found same. absurd (backend-only _ _ same refl)))

  -- Over a Credential Locker that does what it documents, the Windows back end keeps what the trait promises of its effects,
  -- with the passphrase of a key under the user name of its fingerprint.
  pub windows_vault-IsLawful : IsLawful (windows_vault L H) (λ w id. held w (account_of id))
  unfolding windows_vault account_of
  windows_vault-IsLawful = record {
    store_ok = λ k p w h. created-ok k p w h;
    store_other = λ k p j w differs. store_keeps k p (fingerprint_of j) differs w;
    retrieve_ok = λ k p w h. retrieve-held k p w h;
    retrieve_keeps = λ k j w. retrieve_keeps k (fingerprint_of j) w;
    delete_ok = λ k w h. delete-held k w h;
    delete_other = λ k j w differs. delete_keeps k (fingerprint_of j) differs w;
    delete_missing = λ k w h. delete-missing k w h;
  }
