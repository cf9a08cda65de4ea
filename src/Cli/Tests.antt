-- ===== src/Cli/Tests.antt =====
-- Lines for shells.
use sshakku.Cli.Shell.{
  posix_dialect, power_shell_dialect, from_args, set_var, set_env, posix_quote,
  power_shell_single_quote, is_quote, shell_requires_value,
}
use sshakku.Cli.Shell.Reading as Reading
use sshakku.Cli.Shell.Reading.{ReadsBack}
use sshakku.Prelude.{codes, newline, [], ◌∷◌, ◌++◌, ok, err, ◌≡◌, refl}

exported :
    set_env posix_dialect (codes "SSH_AUTH_SOCK") (codes "/o'brien")
    ≡ codes "export SSH_AUTH_SOCK='/o'" ++ 92 ∷ codes "''brien'" ++ newline ∷ []
unfolding set_env posix_quote
exported = refl

curly :
    set_var power_shell_dialect (codes "a") (0x2019 ∷ codes "$x")
    ≡ codes "$a = '" ++ 0x2019 ∷ 0x2019 ∷ codes "$x'" ++ newline ∷ []
unfolding set_var power_shell_single_quote is_quote
curly = refl

value_missing : from_args (codes "--shell" ∷ []) ≡ err shell_requires_value
unfolding from_args
value_missing = refl

last_one_counts :
    from_args (codes "--shell=posix" ∷ codes "--shell" ∷ codes "powershell" ∷ [])
    ≡ ok power_shell_dialect
unfolding from_args
last_one_counts = refl

from_args-ReadsBack_example : ReadsBack power_shell_dialect
from_args-ReadsBack_example =
    Reading.from_args-ReadsBack (codes "--shell=posix" ∷ codes "--shell" ∷ codes "powershell" ∷ [])
      power_shell_dialect last_one_counts
