-- ===== src/Hosts/Add.antt =====
-- `run_add` of gitway-cli/src/hosts.rs: every way in which it ends.
use gitway.Base.{
  ap, String, ◌≡◌, refl, ◌∙◌, Bool, true, false, some, [], Result, ok, err, Bool-cases, ok_or-eq-ok,
  inl, inr,
}
use gitway.Base.Io.{bind-eq-ok, bind-run, bind_keeps, after, ◌>>=◌, give, lift}
use gitway.Base.Json.{lines}
use gitway.Errors.{Errors, with_context, in_context-eq-ok}
use gitway.Console.{OutputMode, human, json}
use gitway.Hosts.{
  AddArgs, Network, Machine, probe_config, resolve_path, probe, choose_hashed, is_yes, Answer,
  confirmed, declined, unavailable, answered, is_json, confirm, append, added, act_on, Printed,
  exit_needs_yes, exit_user_declined, run_add, captured,
}

module _ {W : Type 0} (E : Errors) (N : Network W E) (M : Machine W) where
  -- What leaves the files of known hosts alone: a new directory, the session with the host, and the
  -- reading of a line.
  pub record Quiet {F : Type 0} (files : W → F) : Type 0 where
    pub tempdir_keeps : (w : W) → files (M.tempdir w).1 ≡ files w
    pub connect_keeps : (c : _) (w : W) → files (N.connect c w).1 ≡ files w
    pub close_keeps : (s : N.Session) (w : W) → files (N.close s w).1 ≡ files w
    pub read_line_keeps : (w : W) → files (M.read_line w).1 ≡ files w

  -- The fingerprint is the one that the session with the host shows.
  pub record Shown (host fingerprint : String) (w : W) : Type 0 where
    pub dir : String
    pub session : N.Session
    pub connected : (N.connect (probe_config E N M host dir) (M.tempdir w).1).0 ≡ ok session
    pub shown :
        N.verified_fingerprint session (N.connect (probe_config E N M host dir) (M.tempdir w).1).1
        ≡ some fingerprint

  -- The user agrees: by `--yes`, or by an answer at a terminal.
  pub data Agreed (yes : Bool) (mode : OutputMode) (w : W) : Type 0 where
    by_flag : yes ≡ true → Agreed yes mode w
    by_answer :
        (line : String)
        → mode ≡ human
        → M.stdin_is_terminal w ≡ true
        → (M.read_line w).0 ≡ ok line
        → is_yes line ≡ true
        → Agreed yes mode w

  module _ {F : Type 0} (files : W → F) where
    abbrev Same : W → W → Type 0
    Same u w = files u ≡ files w

    -- The ways in which the confirmation ends.
    data Asked (yes : Bool) (mode : OutputMode) (w : W) : Result E.Error Answer × W → Type 0 where
      unreadable : (e : E.Error) (u : W) → Same u w → Asked yes mode w (err e, u)
      agrees : (u : W) → Same u w → Agreed yes mode w → Asked yes mode w (ok confirmed, u)
      disagrees :
          (u : W) → Same u w → mode ≡ human → yes ≡ false → Asked yes mode w (ok declined, u)
      not_asked : (u : W) → Same u w → yes ≡ false → Asked yes mode w (ok unavailable, u)

    -- The ways in which `gitway hosts add` ends. `v` is the state in which the user was asked.
    pub data Ends (args : AddArgs) (mode : OutputMode) (w : W)
        : Result E.Error Printed × W → Type 0 where
      fails : (e : E.Error) (u : W) → files u ≡ files w → Ends args mode w (err e, u)
      needs_yes :
          (u : W)
          → files u ≡ files w
          → args.yes ≡ false
          → Ends args mode w (ok (exit_needs_yes, lines []), u)
      declines :
          (u : W)
          → files u ≡ files w
          → args.yes ≡ false
          → mode ≡ human
          → Ends args mode w (ok (exit_user_declined, lines []), u)
      appends :
          (path fingerprint : String) (as_hashed : Bool) (v u : W)
          → resolve_path E N M args.known_hosts w ≡ ok path
          → Shown args.host fingerprint w
          → Agreed args.yes mode v
          → files v ≡ files w
          → files u ≡ files w
          → Ends args mode w (
              (append E N M as_hashed path args.host fingerprint >>= λ _.
              give (0, added mode args.host fingerprint path as_hashed))
                u)

    module _ (quiet : Quiet files) where
      probe-keeps : (host : String) (w : W) → files (probe E N M host w).1 ≡ files w
      unfolding probe captured
      probe-keeps host =
          bind_keeps files (with_context E "could not create temp dir for probe: " M.tempdir)
            (λ dir. N.connect (probe_config E N M host dir) >>= λ session.
              captured E N M session >>= λ fingerprint. N.close session >>= λ _. give fingerprint)
            quiet.tempdir_keeps
            (λ dir.
              bind_keeps files (N.connect (probe_config E N M host dir))
                (λ session. captured E N M session >>= λ fingerprint.
                  N.close session >>= λ _. give fingerprint)
                (quiet.connect_keeps _)
                (λ session.
                  bind_keeps files (captured E N M session)
                    (λ fingerprint. N.close session >>= λ _. give fingerprint) (λ w. refl)
                    (λ fingerprint.
                      bind_keeps files (N.close session) (λ _. give fingerprint)
                        (quiet.close_keeps session) (λ _ w. refl))))

      probe-Shown :
          (host fingerprint : String) (w : W)
          → (probe E N M host w).0 ≡ ok fingerprint
          → Shown host fingerprint w
      unfolding probe captured
      probe-Shown host fingerprint w h =
          let (dir, _, second, _) =
            bind-eq-ok (with_context E "could not create temp dir for probe: " M.tempdir)
              (λ dir. N.connect (probe_config E N M host dir) >>= λ session.
                captured E N M session >>= λ f. N.close session >>= λ _. give f)
              w h in
          let (session, connected, third, _) =
            bind-eq-ok (N.connect (probe_config E N M host dir))
              (λ session. captured E N M session >>= λ f. N.close session >>= λ _. give f) _
              second in
          let (f, shown, fourth, _) =
            bind-eq-ok (captured E N M session) (λ f. N.close session >>= λ _. give f) _ third in
          let (_, _, last, _) = bind-eq-ok (N.close session) (λ _. give f) _ fourth in
          let same : f ≡ fingerprint = cc in
          record {
            dir = dir;
            session = session;
            connected = connected;
            shown = ok_or-eq-ok _ _ shown ∙ ap some same;
          }

      confirm-read_line :
          (w : W) → M.stdin_is_terminal w ≡ true → Asked false human w (confirm E N M false human w)
      unfolding confirm answered is_json
      confirm-read_line w tty = rw tty (
          bind-run (Asked false human w) (with_context E "could not read stdin: " M.read_line)
            (λ line. give (answered line)) w (λ e failed. unreadable e _ (quiet.read_line_keeps w))
            (λ line read. elim (Bool-cases (is_yes line)) [
              | inl agreed ↦ rw agreed (
                  agrees _ (quiet.read_line_keeps w)
                    (by_answer line refl tty (in_context-eq-ok E _ (M.read_line w).0 read) agreed))
              | inr other ↦ rw other (disagrees _ (quiet.read_line_keeps w) refl refl)
            ]))

      confirm-Asked :
          (yes : Bool) (mode : OutputMode) (w : W) → Asked yes mode w (confirm E N M yes mode w)
      unfolding confirm is_json
      confirm-Asked true mode w = agrees w refl (by_flag refl)
      confirm-Asked false json w = not_asked w refl refl
      confirm-Asked false human w = elim (Bool-cases (M.stdin_is_terminal w)) [
        | inl tty ↦ confirm-read_line w tty
        | inr no_tty ↦ rw no_tty (not_asked w refl refl)
      ]

      module _ (args : AddArgs) (mode : OutputMode) (w : W) (path fingerprint : String)
          (as_hashed : Bool) (resolved : resolve_path E N M args.known_hosts w ≡ ok path)
          (seen : Shown args.host fingerprint w) where
        after_asking :
            (v : W) (asked : Result E.Error Answer × W)
            → files v ≡ files w
            → Asked args.yes mode v asked
            → Ends args mode w
                (after (act_on E N M args mode path fingerprint as_hashed) asked.0 asked.1)
        unfolding act_on
        after_asking v asked kept (unreadable e u same) = fails e u (same ∙ kept)
        after_asking v asked kept (agrees u same agreed) =
            appends path fingerprint as_hashed v u resolved seen agreed kept (same ∙ kept)
        after_asking v asked kept (disagrees u same is_human flag) =
            declines u (same ∙ kept) flag is_human
        after_asking v asked kept (not_asked u same flag) = needs_yes u (same ∙ kept) flag

      -- `gitway hosts add` ends in one of these ways, where the session and the terminal do not touch
      -- the files of known hosts. It fails before it appends, or it refuses with exit code 78, without
      -- `--yes`, or the user declines, with exit code 73; in these three the files are as before. Or it
      -- appends to the file that the arguments name, for the host, the fingerprint that the
      -- session with the host showed, after the user agreed by `--yes` or by an answer at a terminal, and
      -- the exit code is 0 where the appending works.
      pub run_add-Ends :
          (args : AddArgs) (mode : OutputMode) (w : W)
          → Ends args mode w (run_add E N M args mode w)
      unfolding run_add choose_hashed
      run_add-Ends args mode w =
          bind-run (Ends args mode w) (lift (resolve_path E N M args.known_hosts w))
            (λ path. probe E N M args.host >>= λ fingerprint.
              choose_hashed E N M args path >>= λ as_hashed.
              confirm E N M args.yes mode >>= λ answer.
              act_on E N M args mode path fingerprint as_hashed answer)
            w (λ e failed. fails e w refl)
            (λ path resolved.
              bind-run (Ends args mode w) (probe E N M args.host)
                (λ fingerprint. choose_hashed E N M args path >>= λ as_hashed.
                  confirm E N M args.yes mode >>= λ answer.
                  act_on E N M args mode path fingerprint as_hashed answer)
                w (λ e failed. fails e _ (probe-keeps args.host w))
                (λ fingerprint probed.
                  bind-run (Ends args mode w) (choose_hashed E N M args path)
                    (λ as_hashed. confirm E N M args.yes mode >>= λ answer.
                      act_on E N M args mode path fingerprint as_hashed answer)
                    (probe E N M args.host w).1 (λ e failed. fails e _ (probe-keeps args.host w))
                    (λ as_hashed _.
                      after_asking args mode w path fingerprint as_hashed resolved
                        (probe-Shown args.host fingerprint w probed) _ _ (probe-keeps args.host w)
                        (confirm-Asked args.yes mode _))))
