-- ===== src/Biometric/Linux/Tests.antt =====
-- The Linux back end at a sensor that matches at the second touch. The state says whether the device
-- is claimed.
use gitway.Base.{String, ◌≡◌, refl, Bool, true, false, some, List, [], ◌∷◌, ok, err}
use gitway.Base.Text.{lookup}
use gitway.Biometric.Vault.{cancelled}
use gitway.Biometric.Fingerprint.{Fprint, Signal, verify_fingerprint, retry_message}
use gitway.Biometric.Linux.{Keyring, attributes, open_keyring, retrieve}
use gitway.Biometric.Linux.Matched.{Verified, retrieve-Verified}
use gitway.Biometric.Fingerprint.Released.{Claims, verify_fingerprint-released}

abbrev sensor : List Signal → Fprint Bool
sensor given = record {
  Device = String;
  system_bus = λ w. (ok tt, w);
  manager = λ w. (ok tt, w);
  default_device = λ w. (ok "/dev/0", w);
  device_path = λ d w. (ok tt, w);
  device_proxy = λ d w. (ok tt, w);
  list_enrolled_fingers = λ d w. (ok ("right-index-finger" ∷ []), w);
  claim = λ d w. (ok tt, true);
  receive_verify_status = λ d w. (ok tt, w);
  verify_start = λ d w. (ok tt, w);
  signals = λ d w. (given, w);
  verify_stop = λ d w. (ok tt, w);
  release = λ d w. (ok tt, false);
  hint = λ message w. w;
  probe_device = λ w. (ok (ok tt), w);
}

abbrev keyring : Keyring Bool
keyring = record {
  Item = String;
  open_default = λ w. (ok tt, w);
  probe_default = λ w. (ok (ok tt), w);
  unlock = λ w. (ok tt, w);
  create_item = λ label attrs secret replace w. (ok tt, w);
  search_items = λ query w. (ok ("secret" ∷ []), w);
  delete = λ query w. (ok tt, w);
  secret = λ item w. (ok (some item), w);
  attributes_of = λ item w. (ok [], w);
}

abbrev second_touch : List Signal
second_touch = ok ("verify-retry-scan", false) ∷ ok ("verify-match", true) ∷ []

sensor-Claims : Claims (sensor second_touch) (λ w. w)
sensor-Claims = record {
  bus_keeps = λ w. refl;
  manager_keeps = λ w. refl;
  default_keeps = λ w. refl;
  path_keeps = λ d w. refl;
  proxy_keeps = λ d w. refl;
  fingers_keep = λ d w. refl;
  claim_err = λ d w e h. cc;
  release_ok = λ d w h. refl;
}

no_match :
    verify_fingerprint
      (sensor (ok ("verify-no-match", true) ∷ ok ("verify-match", true) ∷ []))
      false
    ≡ (err cancelled, false)
unfolding verify_fingerprint
no_match = refl

retrieve-Verified_example :
    Verified
      (sensor second_touch)
      (keyring.search_items
        (attributes "gitway:ssh:SHA256:secret")
        (open_keyring (sensor second_touch) keyring false).1).1
unfolding retrieve open_keyring retry_message lookup
retrieve-Verified_example =
    retrieve-Verified (sensor second_touch) keyring "gitway:ssh:SHA256:secret" false "secret" refl

verify_fingerprint-released_example : (verify_fingerprint (sensor second_touch) false).1 ≡ false
verify_fingerprint-released_example =
    verify_fingerprint-released (sensor second_touch) sensor-Claims (λ d w. refl) false refl
