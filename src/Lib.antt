-- ===== src/Lib.antt =====
-- Gitway's command-line programs: gitway, and the shims gitway-keygen and gitway-add, which take
-- the place of ssh-keygen and ssh-add. The paths below start at the repository's root.
--
-- The parts and how they meet. The two shims read their arguments by hand (gitway-cli/src/bin);
-- `gitway keygen`, `gitway sign` and `gitway agent` do the same work behind the arguments of
-- gitway-cli/src/cli.rs. `gitway hosts` (gitway-cli/src/hosts.rs) writes the files of known
-- hosts. The agent commands load a private key through an unlock mode, which may ask a keystore
-- for the passphrase behind a biometric check (gitway-cli/src/biometric), and `gitway biometric`
-- (gitway-cli/src/biometric_cmd.rs) enrolls keys in that keystore and forgets them. `gitway`
-- itself (gitway-cli/src/main.rs) asks for a passphrase through the same keystore, SSH_ASKPASS
-- or the terminal, connects, authenticates and runs the command of Git.
--
-- Which file models which part:
--   KeygenShim/Args.antt   `Parsed::from_args` of gitway-cli/src/bin/gitway-keygen.rs
--   KeygenShim/Resolve.antt
--                          the helpers of that file that find and load keys
--   KeygenShim/Sign.antt   `run_sign` and `try_sign_via_agent` of that file
--   KeygenShim/Run.antt    its other operations and `run`
--   Keygen.antt            gitway-cli/src/keygen.rs; Keygen/Run.antt has `run_verify`, `run` and
--                          gitway-cli/src/sign.rs
--   AgentCommand.antt      gitway-cli/src/agent.rs: add, list, remove, lock and unlock;
--                          AgentCommand/Daemon.antt has start and stop, on Unix, and
--                          AgentCommand/Run.antt `run`
--   Hosts.antt             gitway-cli/src/hosts.rs
--   Config.antt            gitway-cli/src/config.rs; Config/Paths.antt has its redaction of paths
--   Algorithms.antt        gitway-cli/src/algorithms.rs
--   AddShim/Args.antt      `Parsed::from_args` of gitway-cli/src/bin/gitway-add.rs, with
--                          `set_mode`, `parse_lifetime`, `parse_hash` and `default_key_paths`
--   AddShim/Run.antt       `run` of that file and its operations on the agent
--   Biometric/Vault.antt   the types of gitway-cli/src/biometric/mod.rs and the trait
--                          `BiometricVault`, a record of operations on a state `W`; `IsLawful` is
--                          what the trait's documentation promises of their effects, `Promises`
--                          and `AllowedErrors` what it promises of their answers
--   Biometric/Ids.antt     `key_id`, `fingerprint_of`, `key_id_from_fingerprint` of that file
--   Biometric/Unlock.antt  `auto_unlock_passphrase` of that file, and `load_private_key` of
--                          gitway-cli/src/agent.rs
--   Biometric/Fingerprint.antt
--                          `verify_fingerprint` of gitway-cli/src/biometric/linux.rs over
--                          fprintd
--   Biometric/Linux.antt   `LinuxVault` of that file over the Secret Service
--   Biometric/Macos.antt   `MacosVault` of gitway-cli/src/biometric/macos.rs over the Keychain
--   Biometric/Windows.antt `WindowsVault` of gitway-cli/src/biometric/windows.rs over the
--                          Credential Locker and Windows Hello
--   Biometric/Unsupported.antt
--                          `UnsupportedVault` of gitway-cli/src/biometric/unsupported.rs
--   Biometric/Command.antt gitway-cli/src/biometric_cmd.rs: enroll, forget, list, status
--   Console.antt           gitway-cli/src/main.rs: `detect_output_mode`, `build_filter_directive`,
--                          `parse_user_host`
--   Askpass.antt           the prompts of that file, with `try_askpass`
--   Session.antt           `resolve_proxy_directives`, `connect_session`, the authentication,
--                          `run_exec` and the result of `run_test` of that file
--   Startup.antt           `run` of that file where there is no subcommand, with the
--                          configuration of the session, and `run_install`
-- Base.antt holds what they share; the modules below these hold the proofs, and the modules
-- called Tests run the code and the theorems at the values of Samples.antt.
--
-- How the code is read. A function that may fail returns a `Result`; a function that also
-- changes the machine is a step `W → Result E A × W`. A loop over the arguments is a recursion
-- on the list of those that remain, so no fuel is needed. The one loop on fuel is `poll` in
-- AgentCommand/Daemon.antt, which waits five seconds in rounds of 50 milliseconds: 100 rounds
-- are enough where each sleep takes its time. A number for `-b` is read as a u32, one for `-t`
-- as a u64 and the number of a process as an i32, with Rust's refusal of what does not fit. A
-- command that succeeds returns its exit code and what it prints: lines for a human, or the
-- `data` of its JSON document.
--
-- Parameters, for code that is not in the repository: Errors.antt has the constructors of
-- `AnvilError`, Keys.antt the keys of the crate ssh-key, Host.antt the home directory and the
-- paths that exist, `Machine` in Askpass.antt the environment and the running of a program,
-- `Agent` in AddShim/Run.antt the agent, and `Ssh` in Session.antt the crate anvil-ssh, on Unix;
-- `Tools` in Tools.antt the files, anvil_ssh::keygen and anvil_ssh::sshsig, `Network` and
-- `Machine` in Hosts.antt a session that is not authenticated and the files of known hosts,
-- `System` in AgentCommand/Daemon.antt processes and the clock, `Locker` and `Hello` in
-- Biometric/Windows.antt the two services of Windows, `Resolver` in Config/Types.antt what
-- anvil-ssh reads of ssh_config, and `Builders` in Startup.antt the builder of a configuration;
-- the keystore, the prompt and the reading of files are arguments. No law is assumed of them but
-- that a call of the Keychain that fails changes nothing, and documented ones of the keystore,
-- of fprintd, of the Keychain, of the Credential Locker, of the clock and of anvil-ssh, where a
-- theorem says so.
--
-- Not modelled: what is written to stderr, the metadata of a JSON document, and what a command
-- that fails has printed before; zeroizing of memory; what `run_test` prints; `run_schema` and
-- `run_describe`, which print one text; the installing of the tracing subscriber; the dispatch
-- of `gitway` on its subcommands, since the parts have parameters of their own;
-- `finalize_detach` and the agent's daemon; the threads on which the Linux and the Windows back
-- end run, which are taken not to panic; the clap declarations of gitway-cli/src/cli.rs, from
-- which the parser is generated, but for the records that it fills; gitway-lib, which re-exports
-- another crate; the fuzz targets.
pub mod AddShim
pub mod AgentCommand
pub mod Algorithms
pub mod Askpass
pub mod Base
pub mod Biometric
pub mod Config
pub mod Console
pub mod Errors
pub mod Host
pub mod Hosts
pub mod Keygen
pub mod KeygenShim
pub mod Keys
pub mod Samples
pub mod Session
pub mod Startup
pub mod Tools
