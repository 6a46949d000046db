-- ===== src/Biometric/Fingerprint.antt =====
-- The fingerprint check of gitway-cli/src/biometric/linux.rs: `verify_fingerprint` and `scan` over
-- fprintd, the parameter `Fprint`, whose errors are their texts. A signal stream that ends and one
-- that reaches the deadline are one case here, as they are in the code: the list of the signals that
-- arrive in time.
pub mod Released
use gitway.Base.{
  ℕ, String, ◌<>◌, ◌==◌, Bool, true, false, Option, none, some, List, [], ◌∷◌, ◌++◌, map, Result,
  ok, err, if◌then◌else◌, or_else, unwrap_or,
}
use gitway.Base.Io.{Io, ◌>>=◌, give, lift, fail}
use gitway.Base.Text.{lookup}
use gitway.Biometric.Vault.{
  BiometricVault, BiometricError, not_enrolled, cancelled, unavailable, backend, EnrolledKey,
  advisory,
}
use gitway.Biometric.Ids.{fingerprint_of}

-- `VerifyStatus`: the result and whether it is the last, or why the arguments cannot be read.
abbrev pub Signal : Type 0
Signal = Result String (String × Bool)

-- fprintd: the system bus with the default device, and the operations on that device.
pub record Fprint (W : Type 0) : Type 1 where
  pub Device : Type 0
  pub system_bus : Io W String (Unit {0})
  pub manager : Io W String (Unit {0})
  pub default_device : Io W String Device
  pub device_path : Device → Io W String (Unit {0})
  pub device_proxy : Device → Io W String (Unit {0})
  pub list_enrolled_fingers : Device → Io W String (List String)
  pub claim : Device → Io W String (Unit {0})
  pub receive_verify_status : Device → Io W String (Unit {0})
  pub verify_start : Device → Io W String (Unit {0})
  pub signals : Device → W → List Signal × W
  pub verify_stop : Device → Io W String (Unit {0})
  pub release : Device → Io W String (Unit {0})
  pub hint : String → W → W
  -- The default device within the deadline of the probe: an expiry is the outer error.
  pub probe_device : Io W (Unit {0}) (Result String (Unit {0}))

abbrev pub verify_match : String
verify_match = "verify-match"

unfoldable pub retry_message : String → Option String
unfolding lookup
retry_message result = lookup result (
    ("verify-retry-scan", "Fingerprint not read cleanly — touch the sensor again.")
    ∷ ("verify-swipe-too-short", "Swipe was too short — touch the sensor again.")
    ∷ ("verify-finger-not-centered", "Center your finger on the sensor and try again.")
    ∷ ("verify-remove-and-retry", "Remove your finger, then touch the sensor again.")
    ∷ [])

abbrev pub relabel :
    {A : Type 0} → (String → BiometricError) → Result String A → Result BiometricError A
relabel f (ok a) = ok a
relabel f (err e) = err (f e)

module _ {W : Type 0} where
  -- `map_err`
  abbrev pub with_error :
      {A : Type 0} → (String → BiometricError) → Io W String A → Io W BiometricError A
  with_error f m w = let (r, w') = m w in (relabel f r, w')

  -- The operation runs, and its result is dropped.
  abbrev pub ignoring : {A : Type 0} → Io W String A → W → W
  ignoring m w = (m w).1

  module _ (F : Fprint W) where
    module _ (device : F.Device) where
      -- The `while let` of `scan`, over the signals that arrive before the deadline.
      unfoldable pub watch : List Signal → Io W BiometricError Bool
      unfolding retry_message
      watch [] w = (ok false, w)
      watch (err e ∷ rest) w = (err (backend ("verify args: " <> e)), w)
      watch (ok (result, true) ∷ rest) w = (ok (result == verify_match), w)
      watch (ok (result, false) ∷ rest) w = elim (retry_message result) [
        | none ↦ watch rest w
        | some message ↦ watch rest (F.hint message w)
      ]

      unfoldable pub watching : Io W BiometricError Bool
      unfolding watch
      watching w =
          let (signals, w') =
            F.signals device (F.hint "Touch the fingerprint sensor to unlock the SSH key…" w) in
          watch signals w'

      unfoldable pub scan : Io W BiometricError Bool
      unfolding watching
      scan =
          with_error (λ e. backend ("verify signal: " <> e)) (F.receive_verify_status device)
          >>= λ _.
              with_error (λ e. backend ("verify start: " <> e)) (F.verify_start device) >>= λ _.
              watching

      abbrev pub verdict : Result BiometricError Bool → Result BiometricError (Unit {0})
      verdict (ok true) = ok tt
      verdict (ok false) = err cancelled
      verdict (err e) = err e

      -- From the claim on: the scan, and then always the stop and the release.
      unfoldable pub scan_released : Io W BiometricError (Unit {0})
      unfolding scan
      scan_released w =
          let (r, w') = scan w in
          (verdict r, ignoring (F.release device) (ignoring (F.verify_stop device) w'))

      unfoldable pub claiming : Io W BiometricError (Unit {0})
      unfolding scan_released
      claiming =
          with_error (λ e. backend ("claim device: " <> e)) (F.claim device) >>= λ _. scan_released

      abbrev pub fingers : Result String (List String) → List String
      fingers (ok names) = names
      fingers (err e) = []

      unfoldable pub checking_fingers : List String → Io W BiometricError (Unit {0})
      unfolding claiming
      checking_fingers [] =
          fail (unavailable "no fingerprints are enrolled with fprintd (run `fprintd-enroll`)")
      checking_fingers (f ∷ names) = claiming

      unfoldable pub with_device : Io W BiometricError (Unit {0})
      unfolding checking_fingers
      with_device = with_error (λ e. backend ("device path: " <> e)) (F.device_path device) >>= λ _.
          with_error (λ e. backend ("device proxy: " <> e)) (F.device_proxy device) >>= λ _.
          λ w. let (r, w') = F.list_enrolled_fingers device w in checking_fingers (fingers r) w'

    unfoldable pub verify_fingerprint : Io W BiometricError (Unit {0})
    unfolding with_device
    verify_fingerprint = with_error (λ e. unavailable ("system bus: " <> e)) F.system_bus >>= λ _.
        with_error (λ e. unavailable ("fprintd manager: " <> e)) F.manager >>= λ _.
        with_error (λ e. unavailable ("no fingerprint device: " <> e)) F.default_device
        >>= λ device. with_device device
