-- ===== src/Keys/Wallet.antt =====
-- internal/keys/wallet: the stores that passphrases are kept in.
pub mod OnePassword
pub mod Bitwarden
use sshakku.Prelude.{Text, codes, text_eq, has_prefix, List, [], ◌∷◌, ◌++◌, ℤ, if◌then◌else◌, Exec}

-- run.Cmd, with the name of the program, its arguments and what it reads, without its timeout.
pub record Cmd : Type 0 where
  pub name : Text
  pub args : List Text
  pub env : List Text
  pub stdin : Text

-- run.Result
pub record RunResult : Type 0 where
  pub code : ℤ
  pub stdout : Text
  pub stderr : Text

-- What a wallet reports: exitError with its command, and the errors of what it calls.
pub data WalletError (E : Type 0) : Type 0 where
  call_failed : E → WalletError E
  exited : Text → ℤ → Text → WalletError E
  item_not_ours : Text → Text → WalletError E

-- ServicePrefixOrDefault
unfoldable pub service_prefix_or_default : Text → Text
service_prefix_or_default prefix = if text_eq prefix [] then codes "SSHakku-Key" else prefix

-- ownServices
unfoldable pub own_services : List Text → Text → List Text
unfolding service_prefix_or_default
own_services [] prefix = []
own_services (name ∷ names) prefix =
    let rest = own_services names prefix in
    if has_prefix name (service_prefix_or_default prefix ++ codes "-") then name ∷ rest else rest
