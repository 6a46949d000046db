-- ===== src/Biometric/Command/Forget.antt =====
-- `gitway biometric forget --all` of gitway-cli/src/biometric_cmd.rs over a lawful keystore.
use gitway.Base.{
  ℕ, String, ◌≡◌, ◌≢◌, refl, ◌∙◌, true, Option, none, List, [], ◌∷◌, ◌++◌, map, Result, ok, err,
  All, Bool-cases, inl, inr, eq_iff, ◌==◌,
}
use gitway.Base.Io.{Io}
use gitway.Errors.{Errors}
use gitway.Host.{Host}
use gitway.Keys.{Keys}
use gitway.Biometric.Vault.{BiometricVault, IsLawful, BiometricError, EnrolledKey}
use gitway.Biometric.Ids.{
  fingerprint_of, fingerprint_of-key_id_from_fingerprint, key_id_from_fingerprint,
}
use gitway.Biometric.Command.{
  exit_ok, Outcome, exit_after, deleted, forget_each, forget_listed, run_forget, results,
}
use gitway.Biometric.Command.Batch.{exit_of-eq-ok, exit_for-ne-ok, forget_each-Batch}

module _ {W : Type 0} (E : Errors) (K : Keys) (v : BiometricVault W) (host : Host)
    (read : String → W → Result String String) (prompt : String → Io W E.Error String) where
  abbrev id_of : EnrolledKey → String
  id_of key = key_id_from_fingerprint key.fingerprint

  abbrev forget_code : List EnrolledKey → ℕ → List Outcome → W → ℕ
  forget_code keys exit done w = (forget_each E K v host read prompt keys exit done w).0.0

  abbrev forget_end : List EnrolledKey → ℕ → List Outcome → W → W
  forget_end keys exit done w = (forget_each E K v host read prompt keys exit done w).1

  forget_code-started_ok :
      (keys : List EnrolledKey) (exit : ℕ) (done : List Outcome) (w : W)
      → forget_code keys exit done w ≡ exit_ok
      → exit ≡ exit_ok
  forget_code-started_ok keys exit done w e =
      let b = forget_each-Batch E K v host read prompt keys exit done w in
      (exit_of-eq-ok exit b.fresh b.honest (cc b.code_of)).0

  deleted-ok :
      (target : String) (exit : ℕ) (r : Result BiometricError (Unit {0}))
      → exit_after exit (deleted E K v host read prompt target target r) ≡ exit_ok
      → r ≡ ok tt
  unfolding deleted
  deleted-ok target exit (ok _) e = refl
  deleted-ok target exit (err x) e = absurd (exit_for-ne-ok x e)

  module _ {stored : W → String → Option String} (lawful : IsLawful v stored) where
    delete-gone :
        (f g : String) (w : W)
        → (v.delete (key_id_from_fingerprint f) w).0 ≡ ok tt
        → stored w (key_id_from_fingerprint g) ≡ none
        → stored (v.delete (key_id_from_fingerprint f) w).1 (key_id_from_fingerprint g) ≡ none
    delete-gone f g w d h = elim (Bool-cases (f == g)) [
      | inl same ↦
          let eq : f ≡ g = (eq_iff f g).0 same in
          rw (← eq) (lawful.delete_ok (key_id_from_fingerprint f) w d)
      | inr other ↦
          let apart : f ≢ g = λ eq. cc ((eq_iff f g).1 eq) in
          let differs =
            rw
              (
                ← fingerprint_of-key_id_from_fingerprint f,
                ← fingerprint_of-key_id_from_fingerprint g,
              )
              at apart in
          lawful.delete_other (key_id_from_fingerprint f) (key_id_from_fingerprint g) w differs ∙ h
    ]

    forget_each-gone :
        (keys : List EnrolledKey) (exit : ℕ) (done : List Outcome) (w : W)
        → forget_code keys exit done w ≡ exit_ok
        → ((g : String)
            → stored w (key_id_from_fingerprint g) ≡ none
            → stored (forget_end keys exit done w) (key_id_from_fingerprint g) ≡ none)
          × All (λ k. stored (forget_end keys exit done w) (id_of k) ≡ none) keys
    unfolding forget_each
    forget_each-gone [] exit done w e = (λ j h. h, tt)
    forget_each-gone (key ∷ keys) exit done w e =
        let r = (v.delete (id_of key) w).0 in
        let w' = (v.delete (id_of key) w).1 in
        let o = deleted E K v host read prompt key.fingerprint key.fingerprint r in
        let (later, gone) = forget_each-gone keys (exit_after exit o) (done ++ o ∷ []) w' e in
        let first = forget_code-started_ok keys (exit_after exit o) (done ++ o ∷ []) w' e in
        let d : r ≡ ok tt = deleted-ok key.fingerprint exit r first in
        (
          λ g h. later g (delete-gone key.fingerprint g w d h),
          (later key.fingerprint (lawful.delete_ok (id_of key) w d), gone),
        )

    forget_each-others :
        (keys : List EnrolledKey) (exit : ℕ) (done : List Outcome) (w : W) (j : String)
        → All (λ k. fingerprint_of (id_of k) ≢ fingerprint_of j) keys
        → stored (forget_end keys exit done w) j ≡ stored w j
    unfolding forget_each
    forget_each-others [] exit done w j h = refl
    forget_each-others (key ∷ keys) exit done w j (differs, h) =
        let (r, w') = v.delete (id_of key) w in
        let o = deleted E K v host read prompt key.fingerprint key.fingerprint r in
        forget_each-others keys (exit_after exit o) (done ++ o ∷ []) w' j h
        ∙ lawful.delete_other (id_of key) j w differs

    -- `gitway biometric forget --all`, where the keystore lists its keys, reports one outcome for
    -- each of them in their order. If its exit code is 0, every outcome is a success and the keystore
    -- holds a passphrase for none of them. Whatever the code, no enrollment of another fingerprint
    -- changes.
    pub run_forget-listed :
        (keys : List EnrolledKey) (files : List String) (w : W)
        → (v.list w).0 ≡ ok keys
        → (code : ℕ) × (outcomes : List Outcome) × ((run_forget E K v host read prompt true files
              w).0
            ≡ ok (code, results "forgot" outcomes))
          × (map (λ (o : Outcome). o.target) outcomes
              ≡ map (λ (k : EnrolledKey). k.fingerprint) keys)
          × (code ≡ exit_ok
              → All (λ o. o.succeeded ≡ true) outcomes
                × All
                    (λ k.
                      stored (run_forget E K v host read prompt true files w).1 (id_of k) ≡ none)
                    keys)
          × ((j : String)
              → All (λ k. fingerprint_of (id_of k) ≢ fingerprint_of j) keys
              → stored (run_forget E K v host read prompt true files w).1 j ≡ stored (v.list w).1 j)
    unfolding run_forget forget_listed
    run_forget-listed keys files w h =
        let start = (v.list w).1 in
        let b = forget_each-Batch E K v host read prompt keys exit_ok [] start in
        (
          forget_code keys exit_ok [] start,
          b.fresh,
          rw (h, b.appended),
          b.in_order,
          λ e. (
            (exit_of-eq-ok exit_ok b.fresh b.honest (cc b.code_of)).1,
            rw h (forget_each-gone keys exit_ok [] start e).1,
          ),
          λ j other. rw h (forget_each-others keys exit_ok [] start j other),
        )
