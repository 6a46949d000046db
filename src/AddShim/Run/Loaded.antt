-- ===== src/AddShim/Run/Loaded.antt =====
-- `add` of gitway-cli/src/bin/gitway-add.rs at keys that the agent already holds.
use gitway.Base.{ℕ, String, ◌<>◌, ◌≡◌, refl, Bool, true, false, Option, List, [], ◌∷◌, map, ok, All}
use gitway.Errors.{Errors}
use gitway.Keys.{Keys}
use gitway.Biometric.Vault.{BiometricVault, UnlockMode}
use gitway.AddShim.Run.{
  Agent, Console, is_enroll, is_loaded, parse_key, add_key, add_one, add_each, add_all,
}

abbrev pub already : String → String
already path = "Identity already loaded: " <> path

module _ {W : Type 0} (E : Errors) (K : Keys) (A : Agent W E K) (C : Console W E)
    (v : BiometricVault W) (lifetime : Option ℕ) (confirm : Bool) (mode : UnlockMode) where
  -- The file holds a key that is among `loaded`.
  pub record Held (loaded : List (K.PublicKey × String)) (w : W) (path : String) : Type 0 where
    pub pem : String
    pub key : K.PrivateKey
    pub reads : C.read_to_string path w ≡ ok pem
    pub parses : K.parse_private pem ≡ ok key
    pub is_held : is_loaded E K A C v loaded key ≡ true

  module _ (loaded : List (K.PublicKey × String)) (adds : is_enroll mode ≡ false) where
    add_one-already :
        (path : String) (w : W)
        → Held loaded w path
        → add_one E K A C v loaded lifetime confirm mode path w ≡ (ok (already path), w)
    unfolding add_one
    add_one-already path w h = rw (h.reads, parse_key, h.parses, add_key, adds, h.is_held) refl

    add_each-already :
        (paths : List String) (w : W)
        → All (Held loaded w) paths
        → add_each E K A C v loaded lifetime confirm mode paths w ≡ (ok (map already paths), w)
    unfolding add_each
    add_each-already [] w h = refl
    add_each-already (path ∷ paths) w (first, rest) =
        rw (add_one-already path w first, add_each-already paths w rest) refl

  -- Without `--biometric`, adding only files whose keys the agent lists changes nothing: no
  -- passphrase is asked for, no keystore and no agent is written to. The state is the one after the
  -- agent was listed, and each file is reported as loaded.
  pub add_all-already :
      (paths : List String) (loaded : List (K.PublicKey × String)) (w : W)
      → is_enroll mode ≡ false
      → (A.list w).0 ≡ ok loaded
      → All (Held loaded (A.list w).1) paths
      → add_all E K A C v paths lifetime confirm mode w ≡ (ok (0, map already paths), (A.list w).1)
  unfolding add_all
  add_all-already paths loaded w adds listed h =
      rw (listed, add_each-already loaded adds paths (A.list w).1 h) refl
