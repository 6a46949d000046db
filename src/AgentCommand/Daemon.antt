-- ===== src/AgentCommand/Daemon.antt =====
-- gitway-cli/src/agent.rs, `gitway agent start` and `gitway agent stop` and their helpers, on Unix.
pub mod Laws
pub mod Shell
mod Tests
use gitway.Base.{
  ℕ, zero, suc, ◌+◌, String, ◌<>◌, ◌&&◌, ◌||◌, not, Bool, true, false, Option, none, some, List, [],
  ◌∷◌, ◌++◌, Result, ok, err, ok_or, or_else, unwrap_or, is_some, ltb, if◌then◌else◌,
}
use gitway.Base.Decimal.{decimal}
use gitway.Base.Io.{Io, ◌>>=◌, lift, give}
use gitway.Base.Json.{string, signed, Output, lines, document, fields}
use gitway.Base.Signed.{ℤ, pos, negsuc, parse_i32}
use gitway.Base.Text.{codes, trim, strip_suffix}
use gitway.Console.{OutputMode, human, json}
use gitway.Errors.{Errors}

-- The arguments, from gitway-cli/src/cli.rs, and `AgentDaemonConfig` of anvil-ssh.
pub record StartArgs : Type 0 where
  pub sock : Option String
  pub default_ttl : Option ℕ
  pub pid_file : Option String
  pub foreground : Bool
  pub sh : Bool
  pub csh : Bool

pub record StopArgs : Type 0 where
  pub pid_file : Option String

pub record DaemonConfig : Type 0 where
  pub socket_path : String
  pub pid_file : Option String
  pub default_ttl : Option ℕ

-- The machine that the daemon runs on. Errors of the system are their texts, but for those of files that
-- `?` passes on. A time is in milliseconds.
pub record System (W : Type 0) (E : Errors) : Type 0 where
  pub env : String → Option String
  pub process_id : ℕ
  pub parent : String → Option String
  pub join : String → String → String
  pub is_absolute : String → Bool
  pub current_dir : W → Result String String
  pub current_exe : W → Result String String
  pub exists : String → W → Bool
  pub read_to_string : String → W → Result E.Error String
  -- `create_dir_all` and `set_permissions` with the mode 0700, whose errors are ignored.
  pub make_private_dir : String → W → W
  -- The program, its arguments, and the variable that is set for it; the result is the number of the process.
  pub spawn : String → List String → String × String → Io W String ℕ
  pub now : W → ℕ
  pub sleep : ℕ → W → W
  pub finalize_detach : W → W
  pub daemon_run : DaemonConfig → Io W E.Error (Unit {0})
  -- `kill` with SIGTERM.
  pub terminate : ℤ → Io W String (Unit {0})

abbrev pub daemonized_marker : String
daemonized_marker = "GITWAY_AGENT_DAEMONIZED"

abbrev pub Printed : Type 0
Printed = ℕ × Output

abbrev pub ends_with : String → String → Bool
ends_with suffix s = is_some (strip_suffix suffix s)

abbrev pub is_csh : Option String → Bool
is_csh none = false
is_csh (some shell) = ends_with "csh" shell || ends_with "tcsh" shell

-- 5 seconds have 100 rounds of 50 milliseconds.
abbrev pub rounds : ℕ
rounds = 100

show_signed : ℤ → String
show_signed (pos n) = decimal n
show_signed (negsuc n) = "-" <> decimal (suc n)

module _ {W : Type 0} (E : Errors) (S : System W E) where
  -- The lines for the shell.
  unfoldable pub emit_eval : String → ℕ → Bool → Bool → List String
  emit_eval socket pid bourne csh_forced =
      if csh_forced || (not bourne && is_csh (S.env "SHELL"))
      then ("setenv SSH_AUTH_SOCK " <> socket <> ";")
        ∷ ("setenv SSH_AGENT_PID " <> decimal pid <> ";")
        ∷ ("echo Agent pid " <> decimal pid <> ";")
        ∷ []
      else ("SSH_AUTH_SOCK=" <> socket <> "; export SSH_AUTH_SOCK;")
        ∷ ("SSH_AGENT_PID=" <> decimal pid <> "; export SSH_AGENT_PID;")
        ∷ ("echo Agent pid " <> decimal pid <> ";")
        ∷ []

  in_runtime_dir : Option String → W → String × W
  in_runtime_dir (some runtime) w =
      (S.join runtime ("gitway-agent." <> decimal S.process_id <> ".sock"), w)
  in_runtime_dir none w =
      let parent =
        S.join (unwrap_or (S.env "TMPDIR") "/tmp")
          ("gitway-agent-" <> unwrap_or (S.env "USER") "default") in
      (S.join parent ("agent." <> decimal S.process_id), S.make_private_dir parent w)

  unfoldable pub default_socket_path : W → String × W
  unfolding in_runtime_dir
  default_socket_path w = in_runtime_dir (S.env "XDG_RUNTIME_DIR") w

  unfoldable pub default_pid_path : String → Option String
  default_pid_path socket = elim (S.parent socket) [
    | none ↦ none
    | some dir ↦ some (S.join dir "gitway-agent.pid")
  ]

  pub socket_for : Option String → W → String × W
  unfolding default_socket_path
  socket_for (some path) w = (path, w)
  socket_for none w = default_socket_path w

  unfoldable pub run_daemon_loop : StartArgs → Io W E.Error Printed
  unfolding socket_for emit_eval default_pid_path
  run_daemon_loop args w =
      let (socket, w') = socket_for args.sock w in
      (S.daemon_run (record {
        socket_path = socket;
        pid_file = or_else args.pid_file (default_pid_path socket);
        default_ttl = args.default_ttl;
      })
          >>= λ _. give (
            0,
            lines (
                if is_some (S.env daemonized_marker)
                then []
                else emit_eval socket S.process_id args.sh args.csh),
          ))
        w'

  unfoldable pub absolute_path : String → W → Result E.Error String
  absolute_path path w = if S.is_absolute path then ok path else elim (S.current_dir w) [
    | ok cwd ↦ ok (S.join cwd path)
    | err e ↦ err (E.invalid_config ("cannot resolve " <> path <> " to an absolute path: " <> e))
  ]

  absolute_option : Option String → W → Result E.Error (Option String)
  unfolding absolute_path
  absolute_option none w = ok none
  absolute_option (some path) w = elim (absolute_path path w) [
    | ok absolute ↦ ok (some absolute)
    | err e ↦ err e
  ]

  -- The arguments of the child.
  unfoldable pub child_args : String → Option ℕ → Option String → List String
  child_args socket ttl pid_file =
      ("agent" ∷ "start" ∷ "-D" ∷ "-a" ∷ socket ∷ [])
      ++ elim ttl as (λ _. List String) [ none ↦ [] | some n ↦ "-t" ∷ decimal n ∷ [] ]
      ++ elim pid_file as (λ _. List String) [ none ↦ [] | some path ↦ "--pid-file" ∷ path ∷ [] ]

  -- The loop that waits until the deadline for the socket, on fuel.
  unfoldable pub poll : ℕ → ℕ → String → W → W
  poll zero deadline socket w = w
  poll (suc fuel) deadline socket w =
      let rest = poll fuel deadline socket (S.sleep 50 w) in
      if ltb (S.now w) deadline && not (S.exists socket w) then rest else w

  with_text : {A : Type 0} → String → Result String A → Result E.Error A
  with_text context (ok a) = ok a
  with_text context (err e) = err (E.invalid_config (context <> e))

  pub unless_taken : String → W → Result E.Error (Unit {0})
  unless_taken socket w =
      if S.exists socket w
      then err (
          E.invalid_config (
            "socket " <> socket
            <> " already exists; another agent may be running. Run `gitway agent stop` first, or pass a different `-a <PATH>`."))
      else ok tt

  pub ready : StartArgs → String → ℕ → W → Result E.Error Printed
  unfolding emit_eval
  ready args socket pid w =
      if S.exists socket w
      then ok (0, lines (emit_eval socket pid args.sh args.csh))
      else err (
          E.invalid_config (
            "background agent did not bind " <> socket
            <> " within 5s — try `gitway agent start -D` to see the underlying error"))

  unfoldable pub wait_for : StartArgs → String → ℕ → Io W E.Error Printed
  unfolding poll ready
  wait_for args socket pid w =
      let w' = poll rounds (S.now w + 5000) socket w in (ready args socket pid w', w')

  unfoldable pub spawn_child : StartArgs → String → Option String → Io W E.Error Printed
  unfolding unless_taken child_args with_text wait_for
  spawn_child args socket pid_file = (λ w. (unless_taken socket w, w)) >>= λ _.
      (λ w. (with_text "cannot locate the gitway binary for re-exec: " (S.current_exe w), w))
      >>= λ exe.
          (λ w.
            let (r, w') =
              S.spawn exe (child_args socket args.default_ttl pid_file) (daemonized_marker, "1")
                w in
            (with_text "failed to spawn background agent: " r, w'))
          >>= λ pid. wait_for args socket pid

  unfoldable pub run_background_start : StartArgs → Io W E.Error Printed
  unfolding socket_for absolute_path absolute_option spawn_child
  run_background_start args w =
      let (raw, w') = socket_for args.sock w in
      ((λ u. (absolute_path raw u, u)) >>= λ socket.
      (λ u. (absolute_option args.pid_file u, u)) >>= λ pid_file. spawn_child args socket pid_file)
        w'

  unfoldable pub run_start : StartArgs → Io W E.Error Printed
  unfolding run_daemon_loop run_background_start
  run_start args w =
      if args.foreground || is_some (S.env daemonized_marker)
      then run_daemon_loop args
          (if is_some (S.env daemonized_marker) then S.finalize_detach w else w)
      else run_background_start args w

  of_env : String → Option ℤ → Result E.Error ℤ
  of_env s o = ok_or o (E.invalid_config ("SSH_AGENT_PID is not an integer: " <> E.debug (codes s)))

  of_file : String → Option ℤ → Result E.Error ℤ
  of_file path o =
      ok_or o (E.invalid_config ("pid file " <> path <> " does not contain a valid integer"))

  from_pid_file : Option String → Io W E.Error ℤ
  unfolding of_file
  from_pid_file none = lift (
      err (
        E.invalid_config
          "no running agent to stop: neither SSH_AGENT_PID nor a pid file are available"))
  from_pid_file (some path) = (λ w. (S.read_to_string path w, w)) >>= λ contents.
      lift (of_file path (parse_i32 (codes (trim contents))))

  pid_file_for : Option String → W → Option String × W
  unfolding default_socket_path default_pid_path
  pid_file_for (some path) w = (some path, w)
  pid_file_for none w = let (socket, w') = default_socket_path w in (default_pid_path socket, w')

  pid_from : Option String → Option String → Io W E.Error ℤ
  unfolding of_env from_pid_file pid_file_for
  pid_from (some s) pid_file w = (of_env s (parse_i32 (codes (trim s))), w)
  pid_from none pid_file w = let (path, w') = pid_file_for pid_file w in from_pid_file path w'

  unfoldable pub resolve_daemon_pid : Option String → Io W E.Error ℤ
  unfolding pid_from
  resolve_daemon_pid pid_file = pid_from (S.env "SSH_AGENT_PID") pid_file

  stopped_output : OutputMode → ℤ → Output
  stopped_output human pid = lines []
  stopped_output json pid =
      document "gitway agent stop" (fields (("signalled_pid", signed pid) ∷ []))

  unfoldable pub run_stop : StopArgs → OutputMode → Io W E.Error Printed
  unfolding show_signed resolve_daemon_pid with_text stopped_output
  run_stop args mode = resolve_daemon_pid args.pid_file >>= λ pid.
      (λ w.
        let (r, w') = S.terminate pid w in
        (with_text ("failed to signal pid " <> show_signed pid <> ": ") r, w'))
      >>= λ _. give (0, stopped_output mode pid)
