-- ===== src/AgentCommand/Daemon/Shell.antt =====
-- What a shell makes of the lines of `gitway agent start` (`emit_eval` of gitway-cli/src/agent.rs), and what
-- `gitway agent stop` makes of that.
use gitway.Base.{
  String, ◌<>◌, Bool, true, false, Option, none, List, [], ◌∷◌, or_else, nat_eq, if◌then◌else◌,
}
use gitway.Base.Text.{strip_prefix}
use gitway.Errors.{Errors}
use mathlib.Core.Option
use Prim.Native.Char.{code}

-- The text before the first semicolon.
unfoldable pub until_semicolon : String → String
until_semicolon String.[] = String.[]
until_semicolon (String.◌∷◌ c s) =
    let rest = until_semicolon s in if nat_eq (code c) b';' then String.[] else String.◌∷◌ c rest

-- The value that a line gives to a variable, as `NAME=value;` or as `setenv NAME value;`.
abbrev value_in : String → String → Option String
value_in name line =
    or_else (Option.map until_semicolon (strip_prefix (name <> "=") line))
      (Option.map until_semicolon (strip_prefix ("setenv " <> name <> " ") line))

-- The value of a variable after a shell has read the lines, of which one at most sets it.
abbrev pub shell_value : String → List String → Option String
shell_value name [] = none
shell_value name (line ∷ lines) = or_else (value_in name line) (shell_value name lines)

-- Whether two texts differ in a character that both have.
abbrev apart : String → String → Bool
apart String.[] s = false
apart (String.◌∷◌ c p) String.[] = false
apart (String.◌∷◌ c p) (String.◌∷◌ d s) =
    let rest = apart p s in if nat_eq (code c) (code d) then rest else true
