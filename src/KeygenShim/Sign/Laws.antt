-- ===== src/KeygenShim/Sign/Laws.antt =====
-- `run_sign` of gitway-cli/src/bin/gitway-keygen.rs: whose signature is written, and where.
use gitway.Base.{
  ap, ℕ, String, ◌≡◌, refl, ◌∙◌, true, Option, none, some, List, [], Result, ok, err, Bool-cases,
  inl, inr, sym, ok_or, ok_or-eq-ok, ok-injective,
}
use gitway.Base.Io.{Io, bind-eq-ok, ◌>>=◌, give, lift}
use gitway.Base.Listed.{Listed, any-Listed}
use gitway.Errors.{Errors}
use gitway.Keys.{Keys}
use gitway.KeygenShim.Args.{Parsed, sha256, sha512}
use gitway.KeygenShim.Resolve.{resolve_signing_key_path, load_and_decrypt}
use gitway.KeygenShim.Sign.{
  Printed, load_public_key_for_signing, none_after, or_none, has_socket, agent_holds,
  signed_by_agent, try_sign_via_agent, sign_with_key, armored_by, sig_error, message,
  write_sig_output, run_sign,
}
use gitway.Tools.{Tools, bytes, system}

module _ {W : Type 0} (E : Errors) (K : Keys) (T : Tools W E K) where
  agent_holds-Listed :
      (key : K.PublicKey) (identities : List String)
      → agent_holds E K T key identities ≡ true
      → Listed (K.fingerprint key sha256) identities
  unfolding agent_holds
  agent_holds-Listed key identities h = any-Listed (K.fingerprint key sha256) identities h

  -- The ways to a signature of a message.
  pub data Signs (file : String) (old : Option String) (content : T.Bytes)
      (namespace armored : String) : Type 0 where
    by_agent :
        (key : K.PublicKey) (identities : List String) (u v w : W)
        → has_socket E K T (T.env "SSH_AUTH_SOCK") ≡ true
        → (load_public_key_for_signing E K T file u).0 ≡ ok key
        → (T.agent_identities v).0 ≡ ok identities
        → Listed (K.fingerprint key sha256) identities
        → (T.sign_with_agent (bytes content) key namespace sha512 w).0 ≡ ok armored
        → Signs file old content namespace armored
    by_key :
        (path : String) (key : K.PrivateKey) (sig : T.Sig) (u v : W)
        → (resolve_signing_key_path E K T file u).0 ≡ ok path
        → (load_and_decrypt E K T path old v).0 ≡ ok key
        → T.sig_sign key namespace sha512 content ≡ ok sig
        → T.to_pem sig ≡ ok armored
        → Signs file old content namespace armored

  none_after-some :
      {A B : Type 0} (f : A → Io W E.Error (Option B)) (r : Result E.Error A) (w : W) {b : B}
      → (none_after E K T f r w).0 ≡ ok (some b)
      → (a : A) × (r ≡ ok a) × ((f a w).0 ≡ ok (some b))
  none_after-some f (ok a) w h = (a, refl, h)
  none_after-some f (err e) w h = cc

  module _ (file namespace : String) (old : Option String) (content : T.Bytes) where
    signed_by_agent-some :
        (key : K.PublicKey) (identities : List String) (armored : String) (w : W)
        → (signed_by_agent E K T content namespace key identities w).0 ≡ ok (some armored)
        → Listed (K.fingerprint key sha256) identities
          × ((T.sign_with_agent (bytes content) key namespace sha512 w).0 ≡ ok armored)
    unfolding signed_by_agent
    signed_by_agent-some key identities armored w h =
        elim (Bool-cases (agent_holds E K T key identities)) [
          | inr other ↦ cc (rw (signed_by_agent, other) at h)
          | inl holds ↦
              let (by, signed, last, _) =
                bind-eq-ok (T.sign_with_agent (bytes content) key namespace sha512)
                  (λ a. give (some a)) w (rw (signed_by_agent, holds) at h) in
              let same : by ≡ armored = cc in
              (agent_holds-Listed key identities holds, signed ∙ ap ok same)
        ]

    try_sign_via_agent-Signs :
        (armored : String) (w : W)
        → (try_sign_via_agent E K T file content namespace w).0 ≡ ok (some armored)
        → Signs file old content namespace armored
    unfolding try_sign_via_agent
    try_sign_via_agent-Signs armored w h =
        elim (Bool-cases (has_socket E K T (T.env "SSH_AUTH_SOCK"))) [
          | inr off ↦ cc (rw (try_sign_via_agent, off) at h)
          | inl on ↦
              let reached : (or_none E K T (load_public_key_for_signing E K T file)
                    (λ key. or_none E K T T.agent_from_env (λ _.
                      or_none E K T T.agent_identities
                        (λ identities. signed_by_agent E K T content namespace key identities)))
                    w).0
                  ≡ ok (some armored) =
                rw (try_sign_via_agent, on) at h in
              let (key, loaded, second) =
                none_after-some
                  (λ key. or_none E K T T.agent_from_env (λ _.
                    or_none E K T T.agent_identities
                      (λ identities. signed_by_agent E K T content namespace key identities)))
                  _ _ reached in
              let (_, connected, third) =
                none_after-some
                  (λ _.
                    or_none E K T T.agent_identities
                      (λ identities. signed_by_agent E K T content namespace key identities))
                  _ _ second in
              let (identities, listed, fourth) =
                none_after-some
                  (λ identities. signed_by_agent E K T content namespace key identities) _ _
                  third in
              let (holds, signed) = signed_by_agent-some key identities armored _ fourth in
              by_agent key identities _ _ _ on loaded listed holds signed
        ]

    sig_error-ok :
        {A : Type 0} (context : String) (r : Result String A) {a : A}
        → sig_error E K T context r ≡ ok a
        → r ≡ ok a
    unfolding sig_error
    sig_error-ok context (ok a) h = cc
    sig_error-ok context (err e) h = cc

    sign_with_key-Signs :
        (armored : String) (w : W)
        → (sign_with_key E K T file old content namespace w).0 ≡ ok armored
        → Signs file old content namespace armored
    unfolding sign_with_key
    sign_with_key-Signs armored w h =
        let (path, resolved, second, _) =
          bind-eq-ok (resolve_signing_key_path E K T file)
            (λ path. load_and_decrypt E K T path old >>= λ key.
              lift
                (sig_error E K T "sshsig sign failed: " (T.sig_sign key namespace sha512 content))
              >>= λ sig. lift (sig_error E K T "armor failed: " (T.to_pem sig)))
            w h in
        let (key, loaded, third, _) =
          bind-eq-ok (load_and_decrypt E K T path old)
            (λ key.
              lift
                (sig_error E K T "sshsig sign failed: " (T.sig_sign key namespace sha512 content))
              >>= λ sig. lift (sig_error E K T "armor failed: " (T.to_pem sig)))
            _ second in
        let (sig, signed, fourth, _) =
          bind-eq-ok
            (lift
              (sig_error E K T "sshsig sign failed: " (T.sig_sign key namespace sha512 content)))
            (λ sig. lift (sig_error E K T "armor failed: " (T.to_pem sig))) _ third in
        by_key path key sig _ _ resolved loaded (sig_error-ok _ _ signed) (sig_error-ok _ _ fourth)

    armored_by-Signs :
        (o : Option String) (armored : String) (v w : W)
        → (try_sign_via_agent E K T file content namespace v).0 ≡ ok o
        → (armored_by E K T file old content namespace o w).0 ≡ ok armored
        → Signs file old content namespace armored
    unfolding armored_by
    armored_by-Signs none armored v w tried h = sign_with_key-Signs armored w h
    armored_by-Signs (some a) armored v w tried h =
        let same : a ≡ armored = ok-injective h in
        try_sign_via_agent-Signs armored v (tried ∙ ap (λ x. ok (some x)) same)

  -- The steps of `run_sign` after each other.
  module _ (p : Parsed) (file namespace : String) where
    abbrev pub on_tried : T.Bytes → Option String → Option String → Io W E.Error Printed
    on_tried content out signed =
        armored_by E K T file p.old_passphrase content namespace signed >>= λ armored.
        write_sig_output E K T armored out

    abbrev on_content : T.Bytes → Option String → Io W E.Error Printed
    on_content content out =
        try_sign_via_agent E K T file content namespace >>= λ signed. on_tried content out signed

    abbrev on_message : Io W E.Error Printed
    on_message = message E K T p.message_file >>= λ (content, out). on_content content out

  abbrev in_named : Parsed → String → Io W E.Error Printed
  in_named p file =
      lift (ok_or p.namespace (E.invalid_config "-n NAMESPACE is required for -Y sign")) >>= λ ns.
      on_message p file ns

  -- A run of `-Y sign` that succeeds.
  pub record Signed (p : Parsed) (w : W) : Type 0 where
    pub file : String
    pub namespace : String
    pub content : T.Bytes
    pub out : Option String
    pub armored : String
    pub named : p.file ≡ some file
    pub in_namespace : p.namespace ≡ some namespace
    pub taken : (message E K T p.message_file w).0 ≡ ok (content, out)
    pub signs : Signs file p.old_passphrase content namespace armored
    pub last_state : W
    pub written : (write_sig_output E K T armored out last_state).0 ≡ ok (0, [])
    pub state : (run_sign E K T p w).1 ≡ (write_sig_output E K T armored out last_state).1

  only_zero :
      {r : Result E.Error Printed} {code : ℕ} {printed : List String}
      → ◌≡◌ {A = Result E.Error Printed} (ok (0, [])) (ok (code, printed))
      → r ≡ ok (code, printed)
      → (code ≡ 0) × (printed ≡ []) × (r ≡ ok (0, []))
  only_zero last h =
      let same = sym (ok-injective last) in
      (ap (λ (c, _). c) same, ap (λ (_, lines). lines) same, h ∙ sym last)

  write_sig_output-zero :
      (armored : String) (out : Option String) (w : W) {code : ℕ} {printed : List String}
      → (write_sig_output E K T armored out w).0 ≡ ok (code, printed)
      → (code ≡ 0) × (printed ≡ []) × ((write_sig_output E K T armored out w).0 ≡ ok (0, []))
  unfolding write_sig_output
  write_sig_output-zero armored none w h =
      let (_, done, last, _) =
        bind-eq-ok (system E K T (T.write_stdout armored)) (λ _. give (0, [])) w h in
      only_zero last h
  write_sig_output-zero armored (some path) w h =
      let (_, done, last, _) =
        bind-eq-ok (system E K T (T.write path armored)) (λ _. give (0, [])) w h in
      only_zero last h

  -- `-Y sign` that succeeds has exit code 0 and prints no lines of its own. What it has written last, to the
  -- message's file with .sig or to stdout, is a signature of the message in the namespace:
  -- one by the agent, which holds the key that belongs to the file of -f, or one by the private key that is
  -- resolved for this file.
  pub run_sign-Signed :
      (p : Parsed) (code : ℕ) (printed : List String) (w : W)
      → (run_sign E K T p w).0 ≡ ok (code, printed)
      → (code ≡ 0) × (printed ≡ []) × Signed p w
  unfolding run_sign
  run_sign-Signed p code printed w h =
      let (file, named, second, state1) =
        bind-eq-ok (lift (ok_or p.file (E.invalid_config "-f FILE is required for -Y sign")))
          (λ file. in_named p file) w h in
      let (namespace, in_namespace, third, state2) =
        bind-eq-ok
          (lift (ok_or p.namespace (E.invalid_config "-n NAMESPACE is required for -Y sign")))
          (λ ns. on_message p file ns) w second in
      let ((content, out), taken, fourth, state3) =
        bind-eq-ok (message E K T p.message_file)
          (λ (content, out). on_content p file namespace content out) w third in
      let (signed, tried, fifth, state4) =
        bind-eq-ok (try_sign_via_agent E K T file content namespace)
          (λ signed. on_tried p file namespace content out signed) _ fourth in
      let (armored, by, sixth, state5) =
        bind-eq-ok (armored_by E K T file p.old_passphrase content namespace signed)
          (λ armored. write_sig_output E K T armored out) _ fifth in
      let (zero_code, no_lines, written) = write_sig_output-zero armored out _ sixth in
      (
        zero_code,
        no_lines,
        record {
          file = file;
          namespace = namespace;
          content = content;
          out = out;
          armored = armored;
          named = ok_or-eq-ok _ _ named;
          in_namespace = ok_or-eq-ok _ _ in_namespace;
          taken = taken;
          signs =
              armored_by-Signs file namespace p.old_passphrase content signed armored _ _ tried by;
          last_state = _;
          written = written;
          state = state1 ∙ (state2 ∙ (state3 ∙ (state4 ∙ state5)));
        },
      )
