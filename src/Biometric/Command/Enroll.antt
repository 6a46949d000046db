-- ===== src/Biometric/Command/Enroll.antt =====
-- `gitway biometric enroll` of gitway-cli/src/biometric_cmd.rs over a lawful keystore.
use mathlib.Core.List.{append-nil}
use gitway.Base.{
  ℕ, String, ◌≡◌, ◌≢◌, refl, ◌∙◌, true, false, Option, some, List, [], ◌∷◌, ◌++◌, map, Result, ok,
  err, All, Bool-cases, inl, inr,
}
use gitway.Base.Io.{Io, bind-eq-ok, lift, give, ◌>>=◌}
use gitway.Errors.{Errors}
use gitway.Host.{Host}
use gitway.Keys.{Keys}
use gitway.Biometric.Vault.{BiometricVault, IsLawful, BiometricError, to_string}
use gitway.Biometric.Ids.{key_id, fingerprint_of}
use gitway.Biometric.Command.{
  exit_ok, exit_usage, exit_for, success, failed, Outcome, exit_after, read_key, stored_outcome,
  store_checked, enroll_key, enroll_one, enroll_each, run_enroll, resolve_paths, Report, results,
}
use gitway.Biometric.Command.Batch.{
  IsHonest, exit_of, exit_of-eq-ok, exit_of-All, Batch, Batch-cons, exit_for-ne-ok,
  exit_for-ne-usage,
}

module _ {W : Type 0} (E : Errors) (K : Keys) (v : BiometricVault W) (host : Host)
    (read : String → W → Result String String) (prompt : String → Io W E.Error String) where
  -- The ways in which the enrollment of `path` from the state `w` can go: its result, and the
  -- state after it.
  data Enrolls (path : String) (w : W) : Result E.Error Outcome → W → Type 0 where
    not_a_key :
        {m : String}
        → read_key E K v host read prompt path w ≡ err m
        → Enrolls path w (ok (failed path m exit_usage)) w
    not_encrypted :
        (key : K.PrivateKey) {m : String}
        → read_key E K v host read prompt path w ≡ ok key
        → K.is_encrypted key ≡ false
        → Enrolls path w (ok (failed path m exit_usage)) w
    not_asked : {x : E.Error} → Enrolls path w (err x) (prompt path w).1
    not_opened : {m : String} → Enrolls path w (ok (failed path m exit_usage)) (prompt path w).1
    not_kept :
        (key : K.PrivateKey) (p : String) {e : BiometricError}
        → read_key E K v host read prompt path w ≡ ok key
        → (v.store (key_id K key) p (prompt path w).1).0 ≡ err e
        → Enrolls path w
            (ok (failed path (to_string e) (exit_for e)))
            (v.store (key_id K key) p (prompt path w).1).1
    kept :
        (key : K.PrivateKey) (p : String) (k : K.PrivateKey)
        → read_key E K v host read prompt path w ≡ ok key
        → K.is_encrypted key ≡ true
        → (prompt path w).0 ≡ ok p
        → K.decrypt key p ≡ ok k
        → (v.store (key_id K key) p (prompt path w).1).0 ≡ ok tt
        → Enrolls path w
            (ok (success path (fingerprint_of (key_id K key))))
            (v.store (key_id K key) p (prompt path w).1).1

  module _ (path : String) (w : W) where
    abbrev Goes : Result E.Error Outcome × W → Type 0
    Goes (r, w') = Enrolls path w r w'

    module _ (key : K.PrivateKey) (is_key : read_key E K v host read prompt path w ≡ ok key)
        (encrypted : K.is_encrypted key ≡ true) (p : String)
        (asked : (prompt path w).0 ≡ ok p) where
      after_store :
          (k : K.PrivateKey) (r : Result BiometricError (Unit {0}))
          → K.decrypt key p ≡ ok k
          → (v.store (key_id K key) p (prompt path w).1).0 ≡ r
          → Enrolls path w
              (ok (stored_outcome E K v host read prompt path key r))
              (v.store (key_id K key) p (prompt path w).1).1
      unfolding stored_outcome
      after_store k (ok _) d s = kept key p k is_key encrypted asked d s
      after_store k (err e) d s = not_kept key p is_key s

      after_decrypt :
          (d : Result String K.PrivateKey)
          → K.decrypt key p ≡ d
          → Goes (store_checked E K v host read prompt path key p d (prompt path w).1)
      unfolding store_checked
      after_decrypt (err e) d = not_opened
      after_decrypt (ok k) d = after_store k (v.store (key_id K key) p (prompt path w).1).0 d refl

    after_prompt :
        (key : K.PrivateKey) (r : Result E.Error String)
        → read_key E K v host read prompt path w ≡ ok key
        → K.is_encrypted key ≡ true
        → (prompt path w).0 ≡ r
        → Goes (enroll_key E K v host read prompt path (ok key) w)
    unfolding enroll_key
    after_prompt key (ok p) h c a = rw (c, a) (after_decrypt key h c p a (K.decrypt key p) refl)
    after_prompt key (err x) h c a = rw (c, a) not_asked

    after_read :
        (r : Result String K.PrivateKey)
        → read_key E K v host read prompt path w ≡ r
        → Goes (enroll_key E K v host read prompt path r w)
    unfolding enroll_key
    after_read (err m) h = not_a_key h
    after_read (ok key) h = elim (Bool-cases (K.is_encrypted key)) [
      | inl c ↦ after_prompt key (prompt path w).0 h c refl
      | inr c ↦ rw c (not_encrypted key h c)
    ]

    enroll_one-Enrolls : Goes (enroll_one E K v host read prompt path w)
    unfolding enroll_one
    enroll_one-Enrolls = after_read (read_key E K v host read prompt path w) refl

    -- What a result tells: an outcome names its path, and carries the exit code 0 only if it is a
    -- success.
    abbrev Told : Result E.Error Outcome → Type 0
    Told (ok o) = IsHonest o × (o.target ≡ path)
    Told (err x) = Unit

    Enrolls-Told : {r : Result E.Error Outcome} {w' : W} → Enrolls path w r w' → Told r
    Enrolls-Told (not_a_key h) = ((λ _ e. cc), refl)
    Enrolls-Told (not_encrypted key h c) = ((λ _ e. cc), refl)
    Enrolls-Told not_asked = tt
    Enrolls-Told not_opened = ((λ _ e. cc), refl)
    Enrolls-Told (not_kept key p {e = x} h s) = ((λ _. exit_for-ne-ok x), refl)
    Enrolls-Told (kept key p k h c a d s) = ((λ e _. cc), refl)

    enroll_one-Told :
        {o : Outcome}
        → (enroll_one E K v host read prompt path w).0 ≡ ok o
        → IsHonest o × (o.target ≡ path)
    enroll_one-Told h =
        let told : Told (enroll_one E K v host read prompt path w).0 =
          Enrolls-Told enroll_one-Enrolls in
        rw h at told

    module _ {stored : W → String → Option String} (lawful : IsLawful v stored) where
      -- What a result means: a success is a passphrase that opens the key and is stored for it, and
      -- with exit code 2 no enrollment changed.
      abbrev Means : Result E.Error Outcome → W → Type 0
      Means (err x) w' = Unit
      Means (ok o) w' =
          (o.succeeded ≡ true
            → (key : K.PrivateKey) × (p : String) × (k : K.PrivateKey) × (read_key E K v host read
                  prompt path w
                ≡ ok key)
              × (K.is_encrypted key ≡ true)
              × ((prompt path w).0 ≡ ok p)
              × (K.decrypt key p ≡ ok k)
              × (stored w' (key_id K key) ≡ some p))
          × (o.exit_code ≡ exit_usage → (j : String) → stored w' j ≡ stored w j)

      -- The enrollments that are not of the key in the file are as before.
      abbrev OthersKept : W → Type 0
      OthersKept w' =
          (j : String)
          → ((key : K.PrivateKey)
              → read_key E K v host read prompt path w ≡ ok key
              → fingerprint_of (key_id K key) ≢ fingerprint_of j)
          → stored w' j ≡ stored w j

      module _ (asking : (j : String) → stored (prompt path w).1 j ≡ stored w j) where
        Enrolls-Means : {r : Result E.Error Outcome} {w' : W} → Enrolls path w r w' → Means r w'
        Enrolls-Means (not_a_key h) = ((λ e. cc), λ _ j. refl)
        Enrolls-Means (not_encrypted key h c) = ((λ e. cc), λ _ j. refl)
        Enrolls-Means not_asked = tt
        Enrolls-Means not_opened = ((λ e. cc), λ _. asking)
        Enrolls-Means (not_kept key p {e = x} h s) =
            ((λ e. cc), λ usage. absurd (exit_for-ne-usage x usage))
        Enrolls-Means (kept key p k h c a d s) =
            ((λ _. (key, p, k, h, c, a, d, lawful.store_ok (key_id K key) p _ s)), λ e. cc)

        Enrolls-OthersKept :
            {r : Result E.Error Outcome} {w' : W} → Enrolls path w r w' → OthersKept w'
        Enrolls-OthersKept (not_a_key h) j differs = refl
        Enrolls-OthersKept (not_encrypted key h c) j differs = refl
        Enrolls-OthersKept not_asked j differs = asking j
        Enrolls-OthersKept not_opened j differs = asking j
        Enrolls-OthersKept (not_kept key p h s) j differs =
            lawful.store_other (key_id K key) p j _ (differs key h) ∙ asking j
        Enrolls-OthersKept (kept key p k h c a d s) j differs =
            lawful.store_other (key_id K key) p j _ (differs key h) ∙ asking j

        -- Where the prompt changes no enrollment, enrolling a file ends in a success only if the
        -- file is an encrypted key that the typed passphrase decrypts, and this passphrase is then
        -- stored for the key. With exit code 2, every enrollment is as before. However it ends, the
        -- enrollments whose fingerprint is not that of a key in the file are as before.
        pub enroll_one-checked :
            (o : Outcome)
            → (enroll_one E K v host read prompt path w).0 ≡ ok o
            → (o.succeeded ≡ true
                → (key : K.PrivateKey) × (p : String) × (k : K.PrivateKey) × (read_key E K v host
                      read prompt path w
                    ≡ ok key)
                  × (K.is_encrypted key ≡ true)
                  × ((prompt path w).0 ≡ ok p)
                  × (K.decrypt key p ≡ ok k)
                  × (stored (enroll_one E K v host read prompt path w).1 (key_id K key) ≡ some p))
              × (o.exit_code ≡ exit_usage
                  → (j : String)
                  → stored (enroll_one E K v host read prompt path w).1 j ≡ stored w j)
              × OthersKept (enroll_one E K v host read prompt path w).1
        enroll_one-checked o h =
            let (r, w') = enroll_one E K v host read prompt path w in
            let means : Means r w' = Enrolls-Means enroll_one-Enrolls in
            let (stores, usage) = rw h at means in
            (stores, usage, Enrolls-OthersKept enroll_one-Enrolls)

  enroll_each-Batch :
      (paths : List String) (exit : ℕ) (done : List Outcome) (w : W) (code : ℕ)
      (outcomes : List Outcome)
      → (enroll_each E K v host read prompt paths exit done w).0 ≡ ok (code, outcomes)
      → Batch E K v host read prompt paths exit done code outcomes
  unfolding enroll_each
  enroll_each-Batch [] exit done w code outcomes h =
      let same : code ≡ exit = cc in
      let all : outcomes ≡ done = cc in
      record {
        fresh = [];
        appended = rw (all, append-nil);
        in_order = refl;
        honest = tt;
        code_of = same;
      }
  enroll_each-Batch (path ∷ paths) exit done w code outcomes h =
      let (o, one, rest, _) =
        bind-eq-ok (enroll_one E K v host read prompt path)
          (λ o. enroll_each E K v host read prompt paths (exit_after exit o) (done ++ o ∷ [])) w
          h in
      let (honest, same) = enroll_one-Told path w one in
      Batch-cons E K v host read prompt o honest same
        (enroll_each-Batch paths (exit_after exit o) (done ++ o ∷ []) _ code outcomes rest)

  abbrev paths_done : ℕ × List Outcome → Io W E.Error (ℕ × Report)
  paths_done (exit, done) = give (exit, results "enrolled" done)

  abbrev batch_of :
      (ℕ × List Outcome → Io W E.Error (ℕ × Report)) → List String → Io W E.Error (ℕ × Report)
  batch_of f paths = enroll_each E K v host read prompt paths exit_ok [] >>= f

  -- A run of `gitway biometric enroll` that reports a batch enrolled the paths that
  -- `resolve_paths` gave: one outcome for each, in their order, and its exit code is 0 exactly
  -- if every outcome is a success.
  pub run_enroll-batch :
      (files : List String) (w : W) (code : ℕ) (outcomes : List Outcome)
      → v.is_available w ≡ true
      → (run_enroll E K v host read prompt files w).0 ≡ ok (code, results "enrolled" outcomes)
      → (paths : List String) × (resolve_paths E K v host read prompt files ≡ ok paths)
        × (map (λ (o : Outcome). o.target) outcomes ≡ paths)
        × (code ≡ exit_ok → All (λ o. o.succeeded ≡ true) outcomes)
        × (All (λ o. o.succeeded ≡ true) outcomes → code ≡ exit_ok)
  unfolding run_enroll
  run_enroll-batch files w code outcomes available h =
      let run = rw available at h in
      let (paths, resolved, each, _) =
        bind-eq-ok (lift (resolve_paths E K v host read prompt files)) (batch_of paths_done) w
          run in
      let (out, looped, last, _) =
        bind-eq-ok (enroll_each E K v host read prompt paths exit_ok []) paths_done w each in
      let b = enroll_each-Batch paths exit_ok [] w out.0 out.1 looped in
      let coded : code ≡ exit_of exit_ok b.fresh = cc b.code_of in
      let all_fresh : outcomes ≡ b.fresh = cc b.appended in
      (
        paths,
        resolved,
        rw all_fresh b.in_order,
        λ e. rw all_fresh (exit_of-eq-ok exit_ok b.fresh b.honest (cc coded)).1,
        λ all. coded ∙ exit_of-All b.fresh (rw all_fresh at all),
      )
