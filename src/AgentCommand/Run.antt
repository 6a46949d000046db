-- ===== src/AgentCommand/Run.antt =====
-- `run` of gitway-cli/src/agent.rs.
use gitway.Base.{String, true, false}
use gitway.Base.Io.{Io}
use gitway.AddShim.Run.{Agent}
use gitway.AgentCommand.{
  AddArgs, ListArgs, RemoveArgs, LockArgs, Printed, run_add, run_list, run_remove, run_lock,
}
use gitway.AgentCommand.Daemon.{StartArgs, StopArgs, System, run_start, run_stop}
use gitway.Biometric.Vault.{BiometricVault}
use gitway.Console.{OutputMode}
use gitway.Errors.{Errors}
use gitway.Host.{Host}
use gitway.Keys.{Keys}
use gitway.Tools.{Tools}

-- `AgentSubcommand`
pub data Subcommand : Type 0 where
  add : AddArgs → Subcommand
  list : ListArgs → Subcommand
  remove : RemoveArgs → Subcommand
  lock unlock : LockArgs → Subcommand
  start : StartArgs → Subcommand
  stop : StopArgs → Subcommand

module _ {W : Type 0} (E : Errors) (K : Keys) (T : Tools W E K) (A : Agent W E K)
    (v : BiometricVault W) (host : Host) (ask : String → Io W E.Error String) (S : System W E) where
  unfoldable pub run : Subcommand → OutputMode → Io W E.Error Printed
  run (add args) mode = run_add E K T A v host ask args mode
  run (list args) mode = run_list E K T A v host ask args mode
  run (remove args) mode = run_remove E K T A v host ask args mode
  run (lock args) mode = run_lock E K T A v host ask args mode true
  run (unlock args) mode = run_lock E K T A v host ask args mode false
  run (start args) mode = run_start E S args
  run (stop args) mode = run_stop E S args mode
