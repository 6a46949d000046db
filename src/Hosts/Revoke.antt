-- ===== src/Hosts/Revoke.antt =====
-- `run_revoke` of gitway-cli/src/hosts.rs: what is revoked.
use gitway.Base.{
  ℕ, String, ◌≡◌, refl, ◌∙◌, true, false, some, List, [], ◌∷◌, Result, ok, err, Bool-cases, inl,
  inr, is_some,
}
use gitway.Base.Io.{bind-eq-ok, ◌>>=◌, give, lift}
use gitway.Base.Json.{Output}
use gitway.Base.Text.{trim, strip_prefix}
use gitway.Errors.{Errors}
use gitway.Console.{OutputMode}
use gitway.Hosts.{
  RevokeArgs, Network, Machine, resolve_path, first_of, trusted, classify, revoked_output,
  run_revoke,
}

module _ {W : Type 0} (E : Errors) (N : Network W E) (M : Machine W) where
  -- What an input stands for: a fingerprint, for every host, or the first fingerprint that is trusted for
  -- the host.
  pub data Names (path input : String) (w : W) : String → String → Type 0 where
    a_fingerprint : is_some (strip_prefix "SHA256:" input) ≡ true → Names path input w "*" input
    a_host :
        (fingerprint : String) (others : List String)
        → is_some (strip_prefix "SHA256:" input) ≡ false
        → N.host_key_trust input (some path) w ≡ ok (fingerprint ∷ others)
        → Names path input w input fingerprint

  first_of-Names :
      (path input : String) (w : W) (fingerprints : List String) {pattern fingerprint : String}
      → is_some (strip_prefix "SHA256:" input) ≡ false
      → N.host_key_trust input (some path) w ≡ ok fingerprints
      → first_of E N M input fingerprints ≡ ok (pattern, fingerprint)
      → Names path input w pattern fingerprint
  unfolding first_of
  first_of-Names path input w [] host trust h = cc
  first_of-Names path input w (f ∷ others) {pattern} {fingerprint} host trust h =
      let same : input ≡ pattern = cc in
      let shown : f ≡ fingerprint = cc in rw⁻¹ (same, shown) (a_host f others host trust)

  trusted-Names :
      (path input : String) (w : W) (r : Result E.Error (List String))
      {pattern fingerprint : String}
      → is_some (strip_prefix "SHA256:" input) ≡ false
      → N.host_key_trust input (some path) w ≡ r
      → trusted E N M input r ≡ ok (pattern, fingerprint)
      → Names path input w pattern fingerprint
  unfolding trusted
  trusted-Names path input w (ok fingerprints) host trust h =
      first_of-Names path input w fingerprints host trust h
  trusted-Names path input w (err e) host trust h = cc

  classify-Names :
      (path input : String) (w : W) {pattern fingerprint : String}
      → classify E N M path input w ≡ ok (pattern, fingerprint)
      → Names path input w pattern fingerprint
  unfolding classify
  classify-Names path input w {pattern} {fingerprint} h =
      elim (Bool-cases (is_some (strip_prefix "SHA256:" input))) [
        | inl prefixed ↦
            let given : ◌≡◌ {A = Result E.Error (String × String)} (ok ("*", input))
                (ok (pattern, fingerprint)) =
              rw (classify, prefixed) at h in
            let same : "*" ≡ pattern = cc in
            let shown : input ≡ fingerprint = cc in rw⁻¹ (same, shown) (a_fingerprint prefixed)
        | inr host ↦ trusted-Names path input w _ host refl (rw (classify, host) at h)
      ]

  -- A run of `gitway hosts revoke` that succeeds.
  pub record Revoked (args : RevokeArgs) (mode : OutputMode) (code : ℕ) (out : Output) (w : W)
      : Type 0 where
    pub path : String
    pub pattern : String
    pub fingerprint : String
    pub resolved : resolve_path E N M args.known_hosts w ≡ ok path
    pub names : Names path (trim args.input) w pattern fingerprint
    pub prepended : (N.prepend_revoked path pattern fingerprint w).0 ≡ ok tt
    pub state : (run_revoke E N M args mode w).1 ≡ (N.prepend_revoked path pattern fingerprint w).1
    pub is_zero : code ≡ 0

  -- `gitway hosts revoke` that succeeds has exit code 0 and has prepended one line, to the file that the arguments
  -- name: for a trimmed input that starts with SHA256: this fingerprint for every host, and for any other
  -- the first fingerprint that is trusted for this host. Nothing else has changed.
  pub run_revoke-Revoked :
      (args : RevokeArgs) (mode : OutputMode) (code : ℕ) (out : Output) (w : W)
      → (run_revoke E N M args mode w).0 ≡ ok (code, out)
      → Revoked args mode code out w
  unfolding run_revoke
  run_revoke-Revoked args mode code out w h =
      let (path, resolved, second, state) =
        bind-eq-ok (lift (resolve_path E N M args.known_hosts w))
          (λ path. (λ u. (classify E N M path (trim args.input) u, u)) >>= λ (pattern, fingerprint).
            N.prepend_revoked path pattern fingerprint >>= λ _.
            give (0, revoked_output mode pattern fingerprint path))
          w h in
      let ((pattern, fingerprint), named, third, state2) =
        bind-eq-ok (λ u. (classify E N M path (trim args.input) u, u))
          (λ (pattern, fingerprint). N.prepend_revoked path pattern fingerprint >>= λ _.
            give (0, revoked_output mode pattern fingerprint path))
          w second in
      let (_, prepended, last, state3) =
        bind-eq-ok (N.prepend_revoked path pattern fingerprint)
          (λ _. give (0, revoked_output mode pattern fingerprint path)) w third in
      record {
        path = path;
        pattern = pattern;
        fingerprint = fingerprint;
        resolved = resolved;
        names = classify-Names path (trim args.input) w named;
        prepended = prepended;
        state = state ∙ (state2 ∙ state3);
        is_zero = cc;
      }
