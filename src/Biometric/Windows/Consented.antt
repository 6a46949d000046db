-- ===== src/Biometric/Windows/Consented.antt =====
-- `retrieve` of gitway-cli/src/biometric/windows.rs: what stands before a passphrase is released.
use gitway.Base.{
  String, ◌≡◌, refl, ap, ◌∙◌, false, Result, ok, err, Bool-cases, inl, inr, ok-injective, arith,
}
use gitway.Base.Io.{bind-eq-ok, ◌>>=◌, lift}
use gitway.Base.Text.{is_empty_text}
use gitway.Biometric.Windows.{
  WinError, Locker, Hello, Verification, verified, not_verified, account_of, as_backend, enrolled,
  with_backend, if_enrolled, accepted, verify_consent, opened, not_empty, retrieve,
}

module _ {W : Type 0} (L : Locker W) (H : Hello W) where
  -- A release of the passphrase `p`.
  pub record Consented (id p : String) (w : W) : Type 0 where
    pub credential : L.Credential
    pub operation : H.Operation
    pub found : (L.find (account_of id) (L.open_locker w).1).0 ≡ ok credential
    pub requested :
        (H.request "Unlock your SSH key" (L.find (account_of id) (L.open_locker w).1).1).0
        ≡ ok operation
    pub consented :
        (H.result operation
          (H.request "Unlock your SSH key" (L.find (account_of id) (L.open_locker w).1).1).1).0
        ≡ ok verified
    pub password : L.password credential ≡ ok p
    pub solid : is_empty_text p ≡ false

  pub as_backend-ok :
      {A : Type 0} (context : String) (r : Result WinError A) {a : A}
      → as_backend context r ≡ ok a
      → r ≡ ok a
  as_backend-ok context (ok a) h = ap ok (ok-injective h)
  as_backend-ok context (err e) h = cc

  pub enrolled-ok : {A : Type 0} (r : Result WinError A) {a : A} → enrolled r ≡ ok a → r ≡ ok a
  enrolled-ok (ok a) h = ap ok (ok-injective h)
  enrolled-ok (err e) h = ground arith

  accepted-ok : (v : Verification) → accepted L H v ≡ ok tt → v ≡ verified
  unfolding accepted
  accepted-ok verified h = refl
  accepted-ok not_verified h = cc

  not_empty-ok :
      (text : String) {p : String}
      → not_empty L H text ≡ ok p
      → (text ≡ p) × (is_empty_text p ≡ false)
  unfolding not_empty
  not_empty-ok text {p} h = elim (Bool-cases (is_empty_text text)) [
    | inl empty ↦ cc (rw (not_empty, empty) at h)
    | inr solid ↦
        let same : text ≡ p = ok-injective (rw (not_empty, solid) at h) in (same, rw⁻¹ same solid)
  ]

  verify_consent-ok :
      (w : W)
      → (verify_consent L H w).0 ≡ ok tt
      → (operation : H.Operation) × ((H.request "Unlock your SSH key" w).0 ≡ ok operation)
        × ((H.result operation (H.request "Unlock your SSH key" w).1).0 ≡ ok verified)
  unfolding verify_consent
  verify_consent-ok w h =
      let (operation, requested, second, _) =
        bind-eq-ok (with_backend "hello request: " (H.request "Unlock your SSH key"))
          (λ operation.
            with_backend "hello result: " (H.result operation) >>= λ v. lift (accepted L H v))
          w h in
      let (v, answered, last, _) =
        bind-eq-ok (with_backend "hello result: " (H.result operation)) (λ v. lift (accepted L H v))
          _ second in
      (
        operation,
        as_backend-ok _ _ requested,
        as_backend-ok _ _ answered ∙ ap ok (accepted-ok v last),
      )

  -- A passphrase is released only when the entry of the key was found, and then Windows Hello was asked and has
  -- verified the user, in this order. It is the password of this entry and not empty.
  pub retrieve-Consented : (id p : String) (w : W) → (retrieve L H id w).0 ≡ ok p → Consented id p w
  unfolding retrieve
  retrieve-Consented id p w h =
      let (_, _, second, _) =
        bind-eq-ok (opened L H)
          (λ _. if_enrolled (L.find (account_of id)) >>= λ credential. verify_consent L H >>= λ _.
            lift (as_backend "locker password: " (L.password credential)) >>= λ text.
            lift (not_empty L H text))
          w h in
      let (credential, found, third, _) =
        bind-eq-ok (if_enrolled (L.find (account_of id)))
          (λ credential. verify_consent L H >>= λ _.
            lift (as_backend "locker password: " (L.password credential)) >>= λ text.
            lift (not_empty L H text))
          _ second in
      let (_, verified_user, fourth, _) =
        bind-eq-ok (verify_consent L H)
          (λ _. lift (as_backend "locker password: " (L.password credential)) >>= λ text.
            lift (not_empty L H text))
          _ third in
      let (text, read, last, _) =
        bind-eq-ok (lift (as_backend "locker password: " (L.password credential)))
          (λ text. lift (not_empty L H text)) _ fourth in
      let (operation, requested, answer) = verify_consent-ok _ verified_user in
      let (same, solid) = not_empty-ok text last in
      record {
        credential = credential;
        operation = operation;
        found = enrolled-ok _ found;
        requested = requested;
        consented = answer;
        password = as_backend-ok _ _ read ∙ ap ok same;
        solid = solid;
      }
