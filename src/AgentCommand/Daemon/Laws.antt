-- ===== src/AgentCommand/Daemon/Laws.antt =====
-- `gitway agent start` and `gitway agent stop` of gitway-cli/src/agent.rs: the waiting for the socket, and the
-- number of the process.
use gitway.Base.{
  ap, ℕ, zero, suc, ◌+◌, ◌*◌, ◌≤◌, String, ◌≡◌, ◌⊎◌, inl, inr, sym, ◌∙◌, true, false, Option, none,
  some, Result, ok, err, ok-injective, ok_or-eq-ok, ltb, Bool-cases, arith,
}
use gitway.Base.Io.{Io, bind-eq-ok, ◌>>=◌, lift}
use gitway.Base.Json.{Output, lines}
use gitway.Base.Signed.{ℤ, InRange, parse_i32, parse_i32-InRange}
use gitway.Base.Text.{codes, trim}
use gitway.Errors.{Errors}
use gitway.AgentCommand.Daemon.{
  StartArgs, System, poll, rounds, ready, wait_for, spawn_child, run_background_start, emit_eval,
  child_args, daemonized_marker, of_env, of_file, from_pid_file, pid_from, pid_file_for,
  resolve_daemon_pid, socket_for, absolute_path, absolute_option, unless_taken, with_text, Printed,
}

module _ {W : Type 0} (E : Errors) (S : System W E) where
  -- Sleeping takes at least the time that is asked for.
  abbrev pub Sleeps : Type 0
  Sleeps = (ms : ℕ) (w : W) → S.now w + ms ≤ S.now (S.sleep ms w)

  module _ (deadline : ℕ) (socket : String) where
    -- Why the loop ends: the time is over, or the socket is there.
    abbrev Over : W → Type 0
    Over w = (deadline ≤ S.now w) ⊎ (S.exists socket w ≡ true)

    poll-Over :
        Sleeps
        → (fuel : ℕ) (w : W) → deadline ≤ S.now w + 50 * fuel
        → Over (poll E S fuel deadline socket w)
    unfolding poll
    poll-Over sleeps zero w enough = inl (omega arith)
    poll-Over sleeps (suc fuel) w enough = elim (Bool-cases (ltb (S.now w) deadline)) [
      | inr late ↦ rw (late) (inl (ground arith))
      | inl early ↦ elim (Bool-cases (S.exists socket w)) [
        | inl there ↦ rw (early, there) (inr there)
        | inr missing ↦
            let later = sleeps 50 w in
            rw (early, missing) (poll-Over sleeps fuel (S.sleep 50 w) (omega arith))
      ]
    ]

  -- The waiting for the socket ends: after at most 100 sleeps of 50 milliseconds,
  -- each of which takes at least this time, the socket is there or the five seconds are over, so the
  -- condition of the loop does not hold any more.
  pub poll-ends :
      (sleeps : Sleeps) (socket : String) (w : W)
      → (S.now w + 5000 ≤ S.now (poll E S rounds (S.now w + 5000) socket w))
        ⊎ (S.exists socket (poll E S rounds (S.now w + 5000) socket w) ≡ true)
  poll-ends sleeps socket w = poll-Over (S.now w + 5000) socket sleeps rounds w (omega arith)

  from_pid_file-InRange :
      (path : Option String) {pid : ℤ} (w : W) → (from_pid_file E S path w).0 ≡ ok pid → InRange pid
  unfolding from_pid_file of_file
  from_pid_file-InRange none w h = cc
  from_pid_file-InRange (some path) w h =
      let (contents, read, last, _) =
        bind-eq-ok (λ u. (S.read_to_string path u, u))
          (λ contents. lift (of_file E S path (parse_i32 (codes (trim contents))))) w h in
      parse_i32-InRange _ (ok_or-eq-ok _ _ last)

  pid_from-InRange :
      (set pid_file : Option String) (pid : ℤ) (w : W)
      → (pid_from E S set pid_file w).0 ≡ ok pid
      → InRange pid
  unfolding pid_from of_env
  pid_from-InRange none pid_file pid w h =
      from_pid_file-InRange (pid_file_for E S pid_file w).0 (pid_file_for E S pid_file w).1 h
  pid_from-InRange (some s) pid_file pid w h = parse_i32-InRange _ (ok_or-eq-ok _ _ h)

  -- The number of the process that `gitway agent stop` signals is one of 32 bits.
  pub resolve_daemon_pid-InRange :
      (pid_file : Option String) (pid : ℤ) (w : W)
      → (resolve_daemon_pid E S pid_file w).0 ≡ ok pid
      → InRange pid
  unfolding resolve_daemon_pid
  resolve_daemon_pid-InRange pid_file pid w h =
      pid_from-InRange (S.env "SSH_AGENT_PID") pid_file pid w h

  -- A `gitway agent start` in the background that succeeds.
  pub record Started (args : StartArgs) (code : ℕ) (out : Output) (w : W) : Type 0 where
    pub socket : String
    pub exe : String
    pub pid_file : Option String
    pub pid : ℕ
    pub before : W
    pub was_free : S.exists socket before ≡ false
    pub spawned :
        (S.spawn exe
          (child_args E S socket args.default_ttl pid_file)
          (daemonized_marker, "1")
          before).0
        ≡ ok pid
    pub listens : S.exists socket (run_background_start E S args w).1 ≡ true
    pub is_zero : code ≡ 0
    pub printed : out ≡ lines (emit_eval E S socket pid args.sh args.csh)

  ready-there :
      (args : StartArgs) (socket : String) (pid : ℕ) (w : W) {code : ℕ} {out : Output}
      → ready E S args socket pid w ≡ ok (code, out)
      → (S.exists socket w ≡ true)
        × (◌≡◌ {A = Printed} (0, lines (emit_eval E S socket pid args.sh args.csh)) (code, out))
  unfolding ready
  ready-there args socket pid w h = elim (Bool-cases (S.exists socket w)) [
    | inl there ↦ (there, ok-injective (rw (ready, there) at h))
    | inr missing ↦ cc (rw (ready, missing) at h)
  ]

  unless_taken-free :
      (socket : String) (w : W) → unless_taken E S socket w ≡ ok tt → S.exists socket w ≡ false
  unfolding unless_taken
  unless_taken-free socket w h = elim (Bool-cases (S.exists socket w)) [
    | inl there ↦ cc (rw (unless_taken, there) at h)
    | inr missing ↦ missing
  ]

  with_text-ok :
      {A : Type 0} (context : String) (r : Result String A) {a : A}
      → with_text E S context r ≡ ok a
      → r ≡ ok a
  unfolding with_text
  with_text-ok context (ok a) h = ap ok (ok-injective h)
  with_text-ok context (err e) h = cc

  module _ (args : StartArgs) (socket : String) (pid_file : Option String) where
    abbrev find_exe : Io W E.Error String
    find_exe w =
        (with_text E S "cannot locate the gitway binary for re-exec: " (S.current_exe w), w)

    abbrev start_child : String → Io W E.Error ℕ
    start_child exe w =
        let (r, w') =
          S.spawn exe (child_args E S socket args.default_ttl pid_file) (daemonized_marker, "1")
            w in
        (with_text E S "failed to spawn background agent: " r, w')

    abbrev free : Io W E.Error (Unit {0})
    free w = (unless_taken E S socket w, w)

  -- `gitway agent start` in the background that succeeds has exit code 0. Nothing was
  -- at the path of the socket when the child was spawned for it, something is there at the end, and what is
  -- printed for the shell has this path and the number of this child.
  pub run_background_start-Started :
      (args : StartArgs) (code : ℕ) (out : Output) (w : W)
      → (run_background_start E S args w).0 ≡ ok (code, out)
      → Started args code out w
  unfolding run_background_start spawn_child wait_for
  run_background_start-Started args code out w h =
      let (raw, w') = socket_for E S args.sock w in
      let (socket, _, second, state1) =
        bind-eq-ok (λ u. (absolute_path E S raw u, u))
          (λ socket. (λ u. (absolute_option E S args.pid_file u, u)) >>= λ pid_file.
            spawn_child E S args socket pid_file)
          w' h in
      let (pid_file, _, third, state2) =
        bind-eq-ok (λ u. (absolute_option E S args.pid_file u, u))
          (λ pid_file. spawn_child E S args socket pid_file) w' second in
      let (_, is_free, fourth, state3) =
        bind-eq-ok (free args socket pid_file)
          (λ _. find_exe args socket pid_file >>= λ exe.
            start_child args socket pid_file exe >>= λ pid. wait_for E S args socket pid)
          w' third in
      let (exe, _, fifth, state4) =
        bind-eq-ok (find_exe args socket pid_file)
          (λ exe. start_child args socket pid_file exe >>= λ pid. wait_for E S args socket pid) w'
          fourth in
      let (pid, spawned, sixth, state5) =
        bind-eq-ok (start_child args socket pid_file exe) (λ pid. wait_for E S args socket pid) w'
          fifth in
      let (there, same) = ready-there args socket pid _ sixth in
      record {
        socket = socket;
        exe = exe;
        pid_file = pid_file;
        pid = pid;
        before = w';
        was_free = unless_taken-free socket w' is_free;
        spawned = with_text-ok _ _ spawned;
        listens = rw (state1 ∙ (state2 ∙ (state3 ∙ (state4 ∙ state5)))) there;
        is_zero = ap (λ (c, _). c) (sym same);
        printed = ap (λ (_, o). o) (sym same);
      }
