-- ===== src/Askpass.antt =====
-- gitway-cli/src/main.rs: the passphrase prompts, `try_askpass`, `prompt_passphrase_interactive`,
-- `biometric_auto_unlock` and `prompt_passphrase`. The machine is the parameter `Machine`.
pub mod Laws
mod Tests
use Prim.Native.Nat.{◌/◌, ◌%◌}
use gitway.Base.{
  ℕ, String, ◌<>◌, ◌==◌, ◌&&◌, ◌||◌, not, Bool, true, false, Option, none, some, Result, ok, err,
  if◌then◌else◌, is_some, nat_eq,
}
use gitway.Base.Io.{Io, ◌>>=◌, give, lift, fail}
use gitway.Base.Text.{is_empty_text, lower_is, trim_end_matches}
use gitway.Errors.{Errors}
use gitway.Keys.{Keys}
use gitway.Console.{Env}
use gitway.Biometric.Vault.{BiometricVault}
use gitway.Biometric.Unlock.{AutoUnlock, passphrase, stale, fallback, auto_unlock_passphrase}

-- What a program that was run gave: its exit status as a text, whether it succeeded, and its
-- output, `none` where it is not UTF-8.
pub record Output : Type 0 where
  pub status : String
  pub succeeded : Bool
  pub stdout : Option String

pub record Machine (W : Type 0) (E : Type 0) : Type 0 where
  pub env : Env
  pub is_absolute : String → Bool
  pub stderr_is_terminal : Bool
  -- The permission bits of a file, `none` where it cannot be read.
  pub permissions : String → W → Option ℕ
  -- The program and its argument.
  pub run : String → String → Io W String Output
  pub read_to_string : String → W → Result String String
  -- `rpassword::prompt_password`, its error as the code makes it.
  pub prompt_password : String → Io W E String

-- `mode & 0o002 != 0`
abbrev pub world_writable : ℕ → Bool
world_writable mode = nat_eq ((mode / 2) % 2) 1

abbrev pub untrusted : Option ℕ → Bool
untrusted none = false
untrusted (some mode) = world_writable mode

abbrev pub is_set : Option String → Bool
is_set none = false
is_set (some v) = true

abbrev pub value : Option String → String
value none = ""
value (some v) = v

module _ {W : Type 0} (E : Errors) (M : Machine W E.Error) where
  unfoldable pub use_askpass : Bool
  unfolding lower_is
  use_askpass =
      let require = value (M.env "SSH_ASKPASS_REQUIRE") in
      if lower_is require "force" || lower_is require "prefer"
      then true
      else (is_set (M.env "DISPLAY") || is_set (M.env "WAYLAND_DISPLAY"))
        && not M.stderr_is_terminal

  abbrev pub given : String → Result E.Error (Option String)
  given text =
      if is_empty_text text
      then err (
          E.invalid_config
            "SSH_ASKPASS program returned an empty passphrase — the dialog was cancelled or the program does not support SSH key passphrase prompts; run `ssh-add ~/.ssh/id_ed25519` to load the key into the SSH agent, or set SSH_ASKPASS to a dedicated passphrase helper (e.g. ksshaskpass, ssh-askpass-gnome)")
      else ok (some text)

  abbrev pub text_given : Option String → Result E.Error (Option String)
  text_given none = err (E.invalid_config "SSH_ASKPASS program returned non-UTF-8 output")
  text_given (some raw) = given (trim_end_matches b'\n' raw)

  unfoldable pub answer : String → Result String Output → Result E.Error (Option String)
  unfolding trim_end_matches
  answer program (err e) =
      err (E.invalid_config ("SSH_ASKPASS program " <> program <> " could not be launched: " <> e))
  answer program (ok output) =
      if output.succeeded
      then text_given output.stdout
      else err (
          E.invalid_config
            ("SSH_ASKPASS program " <> program <> " exited with status " <> output.status))

  pub running : String → String → Io W E.Error (Option String)
  unfolding answer
  running program prompt w =
      if untrusted (M.permissions program w)
      then (
        err (
            E.invalid_config
              ("SSH_ASKPASS " <> program <> " is world-writable and cannot be trusted")),
        w,
      )
      else (let (r, w') = M.run program prompt w in (answer program r, w'))

  pub asking : Option String → String → Io W E.Error (Option String)
  unfolding use_askpass running
  asking none prompt w = (ok none, w)
  asking (some program) prompt w =
      if M.is_absolute program
      then (if use_askpass then running program prompt w else (ok none, w))
      else (err (E.invalid_config ("SSH_ASKPASS " <> program <> " must be an absolute path")), w)

  unfoldable pub try_askpass : String → Io W E.Error (Option String)
  unfolding asking
  try_askpass prompt = asking (M.env "SSH_ASKPASS") prompt

  abbrev pub or_terminal : String → Option String → Io W E.Error String
  or_terminal prompt (some p) = give p
  or_terminal prompt none = M.prompt_password prompt

  unfoldable pub prompt_passphrase_interactive : String → Io W E.Error String
  unfolding try_askpass
  prompt_passphrase_interactive path =
      let prompt = "Enter passphrase for " <> path <> ": " in
      try_askpass prompt >>= λ o. or_terminal prompt o

  module _ (K : Keys) (v : BiometricVault W) where
    abbrev unlocked : AutoUnlock → Option String
    unlocked (passphrase p) = some p
    unlocked stale = none
    unlocked fallback = none

    with_key : Result String K.PrivateKey → W → Option String × W
    unfolding auto_unlock_passphrase
    with_key (err e) w = (none, w)
    with_key (ok key) w = let (a, w') = auto_unlock_passphrase K v key w in (unlocked a, w')

    with_pem : Result String String → W → Option String × W
    unfolding with_key
    with_pem (err e) w = (none, w)
    with_pem (ok pem) w = with_key (K.parse_private pem) w

    unfoldable pub biometric_auto_unlock : String → W → Option String × W
    unfolding with_pem
    biometric_auto_unlock path w = with_pem (M.read_to_string path w) w

    abbrev or_interactive : String → Option String → Io W E.Error String
    or_interactive path (some p) = give p
    or_interactive path none = prompt_passphrase_interactive path

    unfoldable pub prompt_passphrase : String → Io W E.Error String
    unfolding biometric_auto_unlock
    prompt_passphrase path w =
        let (o, w') = biometric_auto_unlock path w in or_interactive path o w'
