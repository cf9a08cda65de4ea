-- ===== src/Lib.antt =====
-- SSHakku: a program that keeps one ssh-agent per login on a fixed socket, loads the keys of an
-- account into it with passphrases from a wallet, and wires itself into the shells.
--
-- The parts and the files that model them:
--
-- Agent models internal/agent. EnsureAgent (ensure.go) probes the fixed socket; where nothing
-- answers it takes the lock, probes again, reaps the dead agents of the account (Manager.Reap of
-- manage.go), and then adopts a healthy agent through a symlink or starts one of its own
-- (Manager.Start). Agent.Proc has the processes and their readers (inspect/inspect.go), Agent.State
-- the state file, Agent.Ports what a Manager reaches outside (Prober, ProcLister, Runner, Signaler,
-- Locker and package os) as a record of operations on a world, Agent.Reap the operations of
-- manage.go with the file helpers, and Agent.Ensure the run as a whole. Agent.Ensure.Trace records
-- each call that a run makes and says which calls are allowed; its children follow a run. Agent.Service
-- has ensureServiceRunning of service.go, whose loop is given a number of rounds; one round more than
-- the waits that its deadline leaves is enough.
--
-- Config models internal/config. Config.File has File and Merge, Config.Durations and Config.Choices the
-- single settings of config.go and file.go, Config.Settings the Settings with Resolve, StoresWallet,
-- AutoLoads and KeyEnumerator, Config.Sources the files of a configuration directory (sources.go, Load),
-- Config.Provenance and Config.Table the report (provenance.go), and Config.Editor the command line of
-- editor.go. Config.Usable states what Resolve returns, Config.Precedence which
-- file decides a setting, and Config.Truth follows each row of the table
-- from its sources to its line of the report. Config.Write has WithKeyDir, SetKeyDir and WritableConfig
-- of write.go.
--
-- Keys.Load models internal/keys/load.go: LoadKeys lists the keys, reads what the agent holds, and for
-- each key that is missing spends the passphrase of the wallet and then asks. Its collaborators are
-- the record Ports, its state beside the world is whether the wallet was unlocked. Keys.Load.Attempts has
-- the attempts at one key, Keys.Load.Batch the rest, Keys.Load.Trace the record of what is asked,
-- spent, stored and locked. Keys.Fingerprint models internal/keys/fingerprint.go. Keys.Move models
-- internal/keys/move/move.go, the move of all keys to another directory, with rename and permit as
-- parameters; Keys.Move.PutBack states what it relies on of a file system (the record Disk),
-- Keys.Move.Planned what a plan holds, and Keys.Move.Listed what a failed move reports.
--
-- Keys.Enumerate models internal/keys/enum.go, Keys.Giveup internal/giveup/giveup.go, Keys.Lifetimes
-- internal/keystate/keystate.go, Keys.Expire internal/keys/expire.go, and Keys.Askpass the broker of
-- internal/keys/askpass.go; their files, clocks, globs, terminals and wallets are ports. Keys.Giveup.Standing and
-- Keys.Lifetimes.RoundTrip state what their records rely on of files and of the format of a time.
--
-- Keys.Protect models internal/keys/protect/protect.go: the survey, the plan and Apply, over a look and
-- an attempt. Keys.Wallet has the command-line wallets: Keys.Wallet.OnePassword models
-- internal/keys/wallet/onepassword.go, with the vault that it shares with its owner in
-- Keys.Wallet.OnePassword.Vault, and Keys.Wallet.Bitwarden models bitwarden.go, whose session is a
-- handle that is passed on beside the world. The programs op and bw are operations on a world, and the
-- formats that they print are functions.
--
-- Cli.Shell models internal/cli/shell/dialect.go, the assignments that are printed for a shell.
-- Cli.Shell.Reading has the two languages as a shell reads them, with the quotes that PowerShell documents.
--
-- Install.Hook models the marked block of internal/install/hookfile.go, Install.Hook.Replace an install over an older block, Install.Files the
-- writing of the files there, Install.Placement internal/install/placement.go, and Install.PathList the
-- directory lists of internal/install/pathlist.go. Session models the log of
-- internal/sessionlog/sessionlog.go.
--
-- FilePath has the functions of Go's path/filepath that the code calls, on paths with a slash, and
-- Prelude the texts (lists of code points), decimal numbers, results and triples that all share.
--
-- Loops of the source are structural recursion, over the list that the source ranges over or over the
-- rounds that are left: no fuel is needed, but for the digits that show_nat prints, which are no more
-- than the number itself, and for the rounds of Agent.Service.
--
-- Not modelled: contexts, timeouts and cancellation, which only turn a call into one that fails;
-- the system behind the ports; concurrent runs, between which the lock of a port stands.
-- The decoder of TOML, time.ParseDuration and filepath.Match stand behind ports, as do JSON and base64.
-- The diagnosis, the commands, the wallets of D-Bus, of the systems and
-- of KeePassXC, and the prompts are not modelled.
pub mod Prelude
pub mod FilePath
pub mod Install
pub mod Agent
pub mod Cli
pub mod Config
pub mod Keys
pub mod Session
