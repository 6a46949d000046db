-- ===== src/Biometric/Command/Batch.antt =====
-- The batches of gitway-cli/src/biometric_cmd.rs: their outcomes and their exit code.
use mathlib.Core.List.{append-nil, append_assoc}
use gitway.Base.{
  ℕ, String, ◌≡◌, ◌≢◌, refl, ◌∙◌, true, false, List, [], ◌∷◌, ◌++◌, map, Result, ok, err, arith,
  All,
}
use gitway.Base.Io.{Io}
use gitway.Errors.{Errors}
use gitway.Host.{Host}
use gitway.Keys.{Keys}
use gitway.Biometric.Vault.{
  BiometricVault, BiometricError, not_enrolled, cancelled, unavailable, backend, EnrolledKey,
}
use gitway.Biometric.Ids.{key_id_from_fingerprint}
use gitway.Biometric.Command.{
  exit_ok, exit_usage, exit_for, Outcome, exit_after, deleted, forget_each,
}

pub exit_for-ne-ok : (e : BiometricError) → exit_for e ≢ exit_ok
unfolding exit_for
exit_for-ne-ok not_enrolled h = cc
exit_for-ne-ok cancelled h = absurd (omega arith)
exit_for-ne-ok (unavailable why) h = absurd (omega arith)
exit_for-ne-ok (backend why) h = absurd (omega arith)

pub exit_for-ne-usage : (e : BiometricError) → exit_for e ≢ exit_usage
unfolding exit_for
exit_for-ne-usage not_enrolled h = absurd (omega arith)
exit_for-ne-usage cancelled h = absurd (omega arith)
exit_for-ne-usage (unavailable why) h = absurd (omega arith)
exit_for-ne-usage (backend why) h = absurd (omega arith)

-- A failed outcome never carries the exit code of success.
abbrev pub IsHonest : Outcome → Type 0
IsHonest o = o.succeeded ≡ false → o.exit_code ≢ exit_ok

-- The exit code after a batch.
abbrev pub exit_of : ℕ → List Outcome → ℕ
exit_of exit [] = exit
exit_of exit (o ∷ os) = exit_of (exit_after exit o) os

pub exit_of-ne-ok :
    (exit : ℕ) (os : List Outcome) → All IsHonest os → exit ≢ exit_ok → exit_of exit os ≢ exit_ok
exit_of-ne-ok exit [] h n = n
exit_of-ne-ok exit (o ∷ os) (honest, h) n = exit_of-ne-ok (exit_after exit o) os h (ground arith)

pub exit_of-eq-ok :
    (exit : ℕ) (os : List Outcome)
    → All IsHonest os
    → exit_of exit os ≡ exit_ok
    → (exit ≡ exit_ok) × All (λ o. o.succeeded ≡ true) os
exit_of-eq-ok exit [] h e = (e, tt)
exit_of-eq-ok exit (o ∷ os) (honest, h) e =
    let (first, rest) = exit_of-eq-ok (exit_after exit o) os h e in ground arith

pub exit_of-All :
    (os : List Outcome) → All (λ o. o.succeeded ≡ true) os → exit_of exit_ok os ≡ exit_ok
exit_of-All [] h = refl
exit_of-All (o ∷ os) (e, h) = ground (arith, exit_of-All os h)

module _ {W : Type 0} (E : Errors) (K : Keys) (v : BiometricVault W) (host : Host)
    (read : String → W → Result String String) (prompt : String → Io W E.Error String) where
  -- What a batch over `targets` adds to the outcomes `done` and makes of the exit code.
  pub record Batch (targets : List String) (exit : ℕ) (done : List Outcome) (code : ℕ)
      (outcomes : List Outcome) : Type 0 where
    pub fresh : List Outcome
    pub appended : outcomes ≡ done ++ fresh
    pub in_order : map (λ (o : Outcome). o.target) fresh ≡ targets
    pub honest : All IsHonest fresh
    pub code_of : code ≡ exit_of exit fresh

  pub Batch-cons :
      {target : String} {targets : List String} {exit code : ℕ} {done outcomes : List Outcome}
      → (o : Outcome) → IsHonest o
      → o.target ≡ target
      → Batch targets (exit_after exit o) (done ++ o ∷ []) code outcomes
      → Batch (target ∷ targets) exit done code outcomes
  Batch-cons {done} o honest same b = record {
    fresh = o ∷ b.fresh;
    appended = b.appended ∙ append_assoc done (o ∷ []) b.fresh;
    in_order = rw (same, b.in_order);
    honest = (honest, b.honest);
    code_of = b.code_of;
  }

  pub deleted-IsHonest :
      (target fingerprint : String) (r : Result BiometricError (Unit {0}))
      → IsHonest (deleted E K v host read prompt target fingerprint r)
        × ((deleted E K v host read prompt target fingerprint r).target ≡ target)
  unfolding deleted
  deleted-IsHonest target fingerprint (ok _) = ((λ h. cc), refl)
  deleted-IsHonest target fingerprint (err e) = ((λ h. exit_for-ne-ok e), refl)

  pub forget_each-Batch :
      (keys : List EnrolledKey) (exit : ℕ) (done : List Outcome) (w : W)
      → Batch
          (map (λ (k : EnrolledKey). k.fingerprint) keys)
          exit
          done
          (forget_each E K v host read prompt keys exit done w).0.0
          (forget_each E K v host read prompt keys exit done w).0.1
  unfolding forget_each
  forget_each-Batch [] exit done w = record {
    fresh = [];
    appended = rw append-nil;
    in_order = refl;
    honest = tt;
    code_of = refl;
  }
  forget_each-Batch (key ∷ keys) exit done w =
      let (r, w') = v.delete (key_id_from_fingerprint key.fingerprint) w in
      let o = deleted E K v host read prompt key.fingerprint key.fingerprint r in
      let (honest, same) = deleted-IsHonest key.fingerprint key.fingerprint r in
      Batch-cons o honest same (forget_each-Batch keys (exit_after exit o) (done ++ o ∷ []) w')
