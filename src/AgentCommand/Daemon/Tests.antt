-- ===== src/AgentCommand/Daemon/Tests.antt =====
-- `gitway agent start` and `stop` on a machine whose state is its clock; the child binds its socket after 300
-- milliseconds.
use gitway.Base.{
  ℕ, ◌+◌, ◌≤◌, String, ◌<>◌, ◌==◌, ◌≡◌, ◌⊎◌, refl, true, false, Option, none, some, ok, leb,
  if◌then◌else◌, arith,
}
use gitway.Base.Decimal.{decimal}
use gitway.Base.Json.{lines}
use gitway.Samples.{text_errors}
use gitway.AgentCommand.Daemon.{StartArgs, System, poll, rounds, emit_eval, run_background_start}
use gitway.AgentCommand.Daemon.Laws.{Sleeps, Started, poll-ends, run_background_start-Started}

abbrev variables : String → Option String
variables name = if name == "SSH_AGENT_PID" then some (decimal 4711) else none

abbrev clockwork : System ℕ text_errors
clockwork = record {
  env = variables;
  process_id = 4000;
  parent = λ path. some "/tmp";
  join = λ a b. a <> "/" <> b;
  is_absolute = λ path. true;
  current_dir = λ w. ok "/";
  current_exe = λ w. ok "/usr/bin/gitway";
  exists = λ path w. leb 300 w;
  read_to_string = λ path w. ok "12";
  make_private_dir = λ path w. w;
  spawn = λ exe args variable w. (ok 4711, w);
  now = λ w. w;
  sleep = λ ms w. w + ms;
  finalize_detach = λ w. w;
  daemon_run = λ config w. (ok tt, w);
  terminate = λ pid w. (ok tt, w);
}

clockwork-Sleeps : Sleeps text_errors clockwork
clockwork-Sleeps ms w = omega arith

poll-ends_example :
    (0 + 5000 ≤ poll text_errors clockwork rounds 5000 "/run/agent" 0)
    ⊎ (leb 300 (poll text_errors clockwork rounds 5000 "/run/agent" 0) ≡ true)
poll-ends_example = poll-ends text_errors clockwork clockwork-Sleeps "/run/agent" 0

abbrev start_args : StartArgs
start_args = record {
  sock = some "/run/agent";
  default_ttl = none;
  pid_file = none;
  foreground = false;
  sh = true;
  csh = false;
}

run_background_start-Started_example :
    Started text_errors clockwork start_args 0
      (lines (emit_eval text_errors clockwork "/run/agent" 4711 true false))
      0
unfolding run_background_start
run_background_start-Started_example =
    run_background_start-Started text_errors clockwork start_args 0
      (lines (emit_eval text_errors clockwork "/run/agent" 4711 true false)) 0 refl
