-- ===== src/Biometric/Linux/Matched.antt =====
-- `scan` and `retrieve` of gitway-cli/src/biometric/linux.rs: what stands before a passphrase.
use gitway.Base.{
  String, ◌<>◌, eq_iff, ◌≡◌, refl, Bool, true, false, List, [], ◌∷◌, ◌++◌, Result, ok, err, All,
  Option-cases, inl, inr, arith,
}
use gitway.Base.Io.{bind-eq-ok, ◌>>=◌, lift}
use gitway.Biometric.Vault.{BiometricError, unavailable, backend}
use gitway.Biometric.Fingerprint.{
  Signal, Fprint, verify_match, retry_message, relabel, with_error, watch, watching, scan, verdict,
  scan_released, claiming, checking_fingers, with_device, fingers, verify_fingerprint,
}
use gitway.Biometric.Linux.{
  Keyring, attributes, text_of, open_keyring, search, released_item, retrieve,
}

-- A signal that is not the last.
abbrev pub IsProgress : Signal → Type 0
IsProgress (ok (result, done)) = done ≡ false
IsProgress (err e) = ⊥

-- The last signal, after progress only, says that the finger matched.
pub record EndsInMatch (signals : List Signal) : Type 0 where
  pub before : List Signal
  pub after : List Signal
  pub progress : All IsProgress before
  pub split : signals ≡ before ++ ok (verify_match, true) ∷ after

one_more :
    (s : Signal) {signals : List Signal}
    → IsProgress s
    → EndsInMatch signals
    → EndsInMatch (s ∷ signals)
one_more s h m = record {
  before = s ∷ m.before;
  after = m.after;
  progress = (h, m.progress);
  split = rw (m.split);
}

relabel-ok :
    {A : Type 0} (f : String → BiometricError) (r : Result String A) {a : A}
    → relabel f r ≡ ok a
    → r ≡ ok a
relabel-ok f (ok a) h = cc
relabel-ok f (err e) h = cc

module _ {W : Type 0} (F : Fprint W) (device : F.Device) where
  watch-EndsInMatch :
      (signals : List Signal) (w : W) → (watch F device signals w).0 ≡ ok true → EndsInMatch signals
  unfolding watch
  watch-EndsInMatch [] w h = cc
  watch-EndsInMatch (err e ∷ rest) w h = cc
  watch-EndsInMatch (ok (result, true) ∷ rest) w h =
      let same : result ≡ verify_match = (eq_iff result verify_match).0 (ground arith) in
      record { before = []; after = rest; progress = tt; split = rw same }
  watch-EndsInMatch (ok (result, false) ∷ rest) w h = elim (Option-cases (retry_message result)) [
    | inl quiet ↦
        one_more (ok (result, false)) refl (watch-EndsInMatch rest w (rw (watch, quiet) at h))
    | inr (message, told) ↦
        one_more (ok (result, false)) refl
          (watch-EndsInMatch rest (F.hint message w) (rw (watch, told) at h))
  ]

  -- The state in which the signals are read, if the scan begins in `w`.
  abbrev pub armed : W → W
  armed w =
      F.hint "Touch the fingerprint sensor to unlock the SSH key…"
        (F.verify_start device (F.receive_verify_status device w).1).1

  -- The same, if `w` is the state in which the device was found.
  abbrev pub started : W → W
  started w =
      armed
        (F.claim device
          (F.list_enrolled_fingers device (F.device_proxy device (F.device_path device w).1).1).1).1

  -- The signals that are read there end in a match.
  abbrev pub Matches : W → Type 0
  Matches w = EndsInMatch ((F.signals device w).0)

  scan-Matches : (w : W) → (scan F device w).0 ≡ ok true → Matches (armed w)
  unfolding scan watching
  scan-Matches w h =
      let (_, _, second, _) =
        bind-eq-ok
          (with_error (λ e. backend ("verify signal: " <> e)) (F.receive_verify_status device))
          (λ _. with_error (λ e. backend ("verify start: " <> e)) (F.verify_start device) >>= λ _.
            watching F device)
          w h in
      let (_, _, third, _) =
        bind-eq-ok (with_error (λ e. backend ("verify start: " <> e)) (F.verify_start device))
          (λ _. watching F device) _ second in
      watch-EndsInMatch _ _ third

  verdict-ok : (r : Result BiometricError Bool) → verdict F device r ≡ ok tt → r ≡ ok true
  verdict-ok (ok true) h = refl
  verdict-ok (ok false) h = cc
  verdict-ok (err e) h = cc

  claiming-Matches :
      (w : W) → (claiming F device w).0 ≡ ok tt → Matches (armed (F.claim device w).1)
  unfolding claiming scan_released
  claiming-Matches w h =
      let (_, _, scanned, _) =
        bind-eq-ok (with_error (λ e. backend ("claim device: " <> e)) (F.claim device))
          (λ _. scan_released F device) w h in
      scan-Matches _ (verdict-ok _ scanned)

  checking_fingers-Matches :
      (names : List String) (w : W)
      → (checking_fingers F device names w).0 ≡ ok tt
      → Matches (armed (F.claim device w).1)
  unfolding checking_fingers
  checking_fingers-Matches [] w h = cc
  checking_fingers-Matches (f ∷ names) w h = claiming-Matches w h

  with_device-Matches : (w : W) → (with_device F device w).0 ≡ ok tt → Matches (started w)
  unfolding with_device
  with_device-Matches w h =
      let (_, _, second, _) =
        bind-eq-ok (with_error (λ e. backend ("device path: " <> e)) (F.device_path device))
          (λ _. with_error (λ e. backend ("device proxy: " <> e)) (F.device_proxy device) >>= λ _.
            λ w. listing (F.list_enrolled_fingers device w))
          w h in
      let (_, _, third, _) =
        bind-eq-ok (with_error (λ e. backend ("device proxy: " <> e)) (F.device_proxy device))
          (λ _. λ w. listing (F.list_enrolled_fingers device w)) _ second in
      checking_fingers-Matches _ _ third
    where
      listing : Result String (List String) × W → Result BiometricError (Unit {0}) × W
      listing (r, w') = checking_fingers F device (fingers F device r) w'

module _ {W : Type 0} (F : Fprint W) where
  -- The state in which the default device is asked for, if the check begins in `w`.
  abbrev pub asked : W → W
  asked w = (F.manager (F.system_bus w).1).1

  -- The check that begins in `w` found a device, and the signals read from it end in a match.
  pub record Verified (w : W) : Type 0 where
    pub device : F.Device
    pub found : (F.default_device (asked w)).0 ≡ ok device
    pub matched : Matches F device (started F device (F.default_device (asked w)).1)

  verify_fingerprint-Verified : (w : W) → (verify_fingerprint F w).0 ≡ ok tt → Verified w
  unfolding verify_fingerprint
  verify_fingerprint-Verified w h =
      let (_, _, second, _) =
        bind-eq-ok (with_error (λ e. unavailable ("system bus: " <> e)) F.system_bus)
          (λ _. with_error (λ e. unavailable ("fprintd manager: " <> e)) F.manager >>= λ _.
            with_error (λ e. unavailable ("no fingerprint device: " <> e)) F.default_device
            >>= λ device. with_device F device)
          w h in
      let (_, _, third, _) =
        bind-eq-ok (with_error (λ e. unavailable ("fprintd manager: " <> e)) F.manager)
          (λ _.
            with_error (λ e. unavailable ("no fingerprint device: " <> e)) F.default_device
            >>= λ device. with_device F device)
          _ second in
      let (device, there, fourth, _) =
        bind-eq-ok (with_error (λ e. unavailable ("no fingerprint device: " <> e)) F.default_device)
          (λ device. with_device F device) _ third in
      record {
        device = device;
        found = relabel-ok (λ e. unavailable ("no fingerprint device: " <> e)) _ there;
        matched = with_device-Matches F device _ fourth;
      }

  module _ (S : Keyring W) where
    released_item-Verified :
        (items : List S.Item) (w : W) (p : String)
        → (released_item F S items w).0 ≡ ok p
        → Verified w
    unfolding released_item
    released_item-Verified [] w p h = cc
    released_item-Verified (item ∷ items) w p h =
        let (_, verified, _, _) =
          bind-eq-ok (verify_fingerprint F)
            (λ _. with_error (λ e. backend ("keyring read: " <> e)) (S.secret item) >>= λ text.
              lift (text_of F S text))
            w h in
        verify_fingerprint-Verified w verified

    -- The Linux back end releases no passphrase without a match: where `retrieve` gives one, the
    -- check that it made after it had searched the keyring found a device, and the signals that it
    -- read from that device are progress and then a last one that says `verify-match`.
    pub retrieve-Verified :
        (id : String) (w : W) (p : String)
        → (retrieve F S id w).0 ≡ ok p
        → Verified (S.search_items (attributes id) (open_keyring F S w).1).1
    unfolding retrieve
    retrieve-Verified id w p h =
        let (_, _, second, _) =
          bind-eq-ok (open_keyring F S)
            (λ _. search F S (attributes id) >>= λ items. released_item F S items) w h in
        let (items, _, third, _) =
          bind-eq-ok (search F S (attributes id)) (λ items. released_item F S items) _ second in
        released_item-Verified items _ p third
