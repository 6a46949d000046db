-- ===== src/Session/Auth.antt =====
-- What stands before a command that gitway-cli/src/main.rs runs on the host, and how `run_test` ends.
use gitway.Base.{
  ℕ, String, ◌≡◌, refl, sym, ◌∙◌, Bool, true, false, Option, none, some, List, Result, ok, err, ap,
  Bool-cases, inl, inr,
}
use gitway.Base.Io.{Io, bind-eq-ok, ◌>>=◌, give}
use gitway.Session.{
  Ssh, Identity, found, encrypted, not_found, join, connect_session, maybe_collect_passphrase,
  unlocking, after_best, authenticate_with_prompt, authenticate, run_exec, concluded, run_test,
}

module _ {W : Type 0} (S : Ssh W) (prompt : String → Io W S.Error String) where
  -- What anvil-ssh documents of a session: its two ways to authenticate return `Ok` once the server
  -- has accepted a key.
  pub record Authenticates (authed : W → S.Session → Bool) : Type 0 where
    pub best :
        (s : S.Session) (c : S.Config) (w : W)
        → (S.authenticate_best s c w).0 ≡ ok tt
        → authed (S.authenticate_best s c w).1 s ≡ true
    pub with_passphrase :
        (s : S.Session) (c : S.Config) (path p : String) (w : W)
        → (S.authenticate_with_passphrase s c path p w).0 ≡ ok tt
        → authed (S.authenticate_with_passphrase s c path p w).1 s ≡ true

  module _ {authed : W → S.Session → Bool} (laws : Authenticates authed) (s : S.Session)
      (c : S.Config) where
    abbrev Sound : Result S.Error (Unit {0}) × W → Type 0
    Sound (r, w) = r ≡ ok tt → authed w s ≡ true

    unlocking-Sound : (i : Result S.Error Identity) (w : W) → Sound (unlocking S prompt s c i w)
    unfolding unlocking
    unlocking-Sound (err e) w h = cc
    unlocking-Sound (ok not_found) w h = cc
    unlocking-Sound (ok (found path)) w h = cc
    unlocking-Sound (ok (encrypted path)) w h =
        let (p, _, given, same) =
          bind-eq-ok (prompt path) (λ p. S.authenticate_with_passphrase s c path p) w h in
        rw same (laws.with_passphrase s c path p _ given)

    after_best-Sound :
        (r : Result S.Error (Unit {0})) (w : W)
        → (r ≡ ok tt → authed w s ≡ true)
        → Sound (after_best S prompt s c r w)
    unfolding after_best
    after_best-Sound (ok _) w best h = best refl
    after_best-Sound (err e) w best h = elim (Bool-cases (S.is_key_encrypted e)) [
      | inl locked ↦
          rw locked (unlocking-Sound (S.find_identity c w) w (rw (after_best, locked) at h))
      | inr other ↦ elim (Bool-cases (S.is_no_key_found e)) [
        | inl missing ↦ cc (rw (after_best, other, missing) at h)
        | inr present ↦ cc (rw (after_best, other, present) at h)
      ]
    ]

    authenticate-Sound :
        (pre : Option (String × String)) (w : W) → Sound (authenticate S prompt s c pre w)
    unfolding authenticate authenticate_with_prompt
    authenticate-Sound none w h =
        after_best-Sound (S.authenticate_best s c w).0 (S.authenticate_best s c w).1
          (laws.best s c w) h
    authenticate-Sound (some (p, path)) w h = laws.with_passphrase s c path p w h

  -- The states and results of a run of `run_exec` that gives an exit code, in their order.
  pub record Ran (config : S.Config) (parts : List String) (alias : String) (proxy : Option String)
      (hosts : List S.JumpHost) (code : ℕ) (authed : W → S.Session → Bool) (w : W) : Type 0 where
    pub pre : Option (String × String)
    pub session : S.Session
    pub asked_before : (maybe_collect_passphrase S prompt config w).0 ≡ ok pre
    pub connected :
        (connect_session S config alias proxy hosts
          (maybe_collect_passphrase S prompt config w).1).0
        ≡ ok session
    pub ready : W
    pub authenticated :
        authenticate S prompt session config pre
          (connect_session S config alias proxy hosts
            (maybe_collect_passphrase S prompt config w).1).1
        ≡ (ok tt, ready)
    pub allowed : authed ready session ≡ true
    pub executed : (S.exec session (join " " parts) ready).0 ≡ ok code
    pub closed : (S.close session (S.exec session (join " " parts) ready).1).0 ≡ ok tt

  -- An exit code that `run_exec` gives is the one of the joined command, which ran once on the
  -- session that was connected after the passphrase was collected, in a state in which the server
  -- had accepted a key of this session; and the session was closed after it.
  pub run_exec-Ran :
      {authed : W → S.Session → Bool}
      → Authenticates authed
      → (config : S.Config) (parts : List String) (alias : String) (proxy : Option String)
        (hosts : List S.JumpHost) (code : ℕ) (w : W)
      → (run_exec S prompt config parts alias proxy hosts w).0 ≡ ok code
      → Ran config parts alias proxy hosts code authed w
  unfolding run_exec
  run_exec-Ran laws config parts alias proxy hosts code w h =
      let (pre, asked, second, _) =
        bind-eq-ok (maybe_collect_passphrase S prompt config)
          (λ pre. connect_session S config alias proxy hosts >>= λ session.
            authenticate S prompt session config pre >>= λ _.
            S.exec session (join " " parts) >>= λ code. S.close session >>= λ _. give code)
          w h in
      let (session, connected, third, _) =
        bind-eq-ok (connect_session S config alias proxy hosts)
          (λ session. authenticate S prompt session config pre >>= λ _.
            S.exec session (join " " parts) >>= λ code. S.close session >>= λ _. give code)
          _ second in
      let (_, authenticated, fourth, _) =
        bind-eq-ok (authenticate S prompt session config pre)
          (λ _. S.exec session (join " " parts) >>= λ code. S.close session >>= λ _. give code) _
          third in
      let (out, executed, fifth, _) =
        bind-eq-ok (S.exec session (join " " parts)) (λ code. S.close session >>= λ _. give code) _
          fourth in
      let (_, closed, last, _) = bind-eq-ok (S.close session) (λ _. give out) _ fifth in
      let start =
        (connect_session S config alias proxy hosts
          (maybe_collect_passphrase S prompt config w).1).1 in
      let ready = (authenticate S prompt session config pre start).1 in
      let same : out ≡ code = cc in
      let ran : (S.exec session (join " " parts) ready).0 ≡ ok code = executed ∙ ap ok same in
      record {
        pre = pre;
        session = session;
        asked_before = asked;
        connected = connected;
        ready = ready;
        authenticated = λ i. (authenticated i, ready);
        allowed = authenticate-Sound laws session config pre _ authenticated;
        executed = ran;
        closed = closed;
      }

  module _ (closes : (s : S.Session) (u : W) → (S.close s u).0 ≡ ok tt) where
    after_close :
        (s : S.Session) (n : ℕ) (w : W) → (S.close s >>= λ _. give n) w ≡ (ok n, (S.close s w).1)
    after_close s n w = rw (◌>>=◌, closes s w) refl

    concluded-modes :
        (s : S.Session) (r : Result S.Error (Unit {0})) (w : W)
        → concluded S prompt true s r w ≡ concluded S prompt false s r w
    unfolding concluded
    concluded-modes s (ok _) w = refl
    concluded-modes s (err e) w = elim (Bool-cases (S.is_no_key_found e)) [
      | inl missing ↦ rw (concluded, closes s w, missing) (sym (after_close s 0 w))
      | inr present ↦ rw (concluded, closes s w, present)
    ]

    -- Where closing a session works, `run_test` has the same result and leaves the same state
    -- whether it writes for a human or as JSON.
    pub run_test-modes :
        (config : S.Config) (alias : String) (proxy : Option String) (hosts : List S.JumpHost)
        (w : W)
        → run_test S prompt config alias proxy hosts true w
          ≡ run_test S prompt config alias proxy hosts false w
    unfolding run_test
    run_test-modes config alias proxy hosts w i =
        (maybe_collect_passphrase S prompt config >>= λ pre.
        connect_session S config alias proxy hosts >>= λ session. λ u.
          let (r, u') = authenticate S prompt session config pre u in
          concluded-modes session r u' i)
          w
