-- ===== src/Biometric/Fingerprint/Released.antt =====
-- The device that `verify_fingerprint` of gitway-cli/src/biometric/linux.rs claims.
use gitway.Base.{String, ◌<>◌, ◌≡◌, refl, ◌∙◌, Bool, false, List, [], ◌∷◌, Result, ok, err}
use gitway.Base.Io.{Io, bind-state, ◌>>=◌}
use gitway.Biometric.Vault.{BiometricError, backend}
use gitway.Biometric.Fingerprint.{
  Fprint, relabel, with_error, scan_released, claiming, checking_fingers, with_device,
  verify_fingerprint,
}

-- What fprintd documents of the claim on its devices: a claim that is refused changes nothing,
-- `Release` gives the device back, and the queries before the claim leave it alone.
pub record Claims {W : Type 0} (F : Fprint W) (claimed : W → Bool) : Type 0 where
  pub bus_keeps : (w : W) → claimed (F.system_bus w).1 ≡ claimed w
  pub manager_keeps : (w : W) → claimed (F.manager w).1 ≡ claimed w
  pub default_keeps : (w : W) → claimed (F.default_device w).1 ≡ claimed w
  pub path_keeps : (d : F.Device) (w : W) → claimed (F.device_path d w).1 ≡ claimed w
  pub proxy_keeps : (d : F.Device) (w : W) → claimed (F.device_proxy d w).1 ≡ claimed w
  pub fingers_keep : (d : F.Device) (w : W) → claimed (F.list_enrolled_fingers d w).1 ≡ claimed w
  pub claim_err :
      (d : F.Device) (w : W) (e : String)
      → (F.claim d w).0 ≡ err e
      → claimed (F.claim d w).1 ≡ claimed w
  pub release_ok :
      (d : F.Device) (w : W) → (F.release d w).0 ≡ ok tt → claimed (F.release d w).1 ≡ false

relabel-err :
    {A : Type 0} (f : String → BiometricError) (r : Result String A) (e : BiometricError)
    → relabel f r ≡ err e
    → (x : String) × (r ≡ err x)
relabel-err f (ok a) e h = cc
relabel-err f (err x) e h = (x, refl)

module _ {W : Type 0} (F : Fprint W) {claimed : W → Bool} (laws : Claims F claimed)
    (gives_back : (d : F.Device) (w : W) → (F.release d w).0 ≡ ok tt) where
  abbrev Free : W → Type 0
  Free w = claimed w ≡ false

  -- A step that leaves the claim alone, and then one that ends with a free device.
  then-Free :
      {A B : Type 0} (f : String → BiometricError) (m : Io W String A)
      (next : A → Io W BiometricError B)
      → (w : W) → claimed (m w).1 ≡ claimed w
      → Free w
      → ((a : A) → Free (m w).1 → Free (next a (m w).1).1)
      → Free ((with_error f m >>= next) w).1
  then-Free f m next w keeps free rest =
      bind-state Free (with_error f m) next w (λ e h. keeps ∙ free) (λ a. rest a (keeps ∙ free))

  scan_released-Free : (d : F.Device) (w : W) → Free (scan_released F d w).1
  unfolding scan_released
  scan_released-Free d w = laws.release_ok d _ (gives_back d _)

  claiming-Free : (d : F.Device) (w : W) → Free w → Free (claiming F d w).1
  unfolding claiming
  claiming-Free d w free =
      bind-state Free (with_error (λ e. backend ("claim device: " <> e)) (F.claim d))
        (λ _. scan_released F d) w
        (λ e h.
          let (x, failed) =
            relabel-err (λ e. backend ("claim device: " <> e)) (F.claim d w).0 e h in
          laws.claim_err d w x failed ∙ free)
        (λ _. scan_released-Free d (F.claim d w).1)

  checking_fingers-Free :
      (d : F.Device) (names : List String) (w : W) → Free w → Free (checking_fingers F d names w).1
  unfolding checking_fingers
  checking_fingers-Free d [] w free = free
  checking_fingers-Free d (f ∷ names) w free = claiming-Free d w free

  with_device-Free : (d : F.Device) (w : W) → Free w → Free (with_device F d w).1
  unfolding with_device
  with_device-Free d w free =
      then-Free _ (F.device_path d) _ w (laws.path_keeps d w) free (λ _ free₁.
        then-Free _ (F.device_proxy d) _ _ (laws.proxy_keeps d _) free₁
          (λ _ free₂. checking_fingers-Free d _ _ (laws.fingers_keep d _ ∙ free₂)))

  -- The device is never left claimed: where releasing it works, `verify_fingerprint` ends with the
  -- device free if it began so, with a match, without one, and on every error.
  pub verify_fingerprint-released :
      (w : W) → claimed w ≡ false → claimed (verify_fingerprint F w).1 ≡ false
  unfolding verify_fingerprint
  verify_fingerprint-released w free =
      then-Free _ F.system_bus _ w (laws.bus_keeps w) free (λ _ free₁.
        then-Free _ F.manager _ _ (laws.manager_keeps _) free₁ (λ _ free₂.
          then-Free _ F.default_device _ _ (laws.default_keeps _) free₂
            (λ d free₃. with_device-Free d _ free₃)))
