-- ===== src/Config/Truth/Wallets.antt =====
-- The rows of internal/config/provenance.go for one wallet or dialog, which only a file can state.
use sshakku.Config.Choices.{
  Platform, Lookup, auto, choose, deref_string, keepassxc_routes, dismissals, resolve_gui_prompter,
  resolve_on_dismiss, resolve_keepassxc_route,
}
use sshakku.Config.Settings.{Readers, settings_of, problems_of, true_or_unset}
use sshakku.Config.Sources.{Source}
use sshakku.Config.File.{merge}
use sshakku.Config.Durations.{invalid_value, no_such_prompter}
use sshakku.Config.Table.{file_row, or_else, bool_text}
use sshakku.Config.Truth.Fallbacks as Falls
use sshakku.Config.Truth.Refusals.{or_rest-none}
use sshakku.Config.Truth.Rows.{TruthOf, file_truth, plain_truth}
use sshakku.Prelude.{codes, List, refl}

module _ {E : Type 0} (lib : Readers E) (p : Platform) (sources : List (Source E))
    (lookup : Lookup) where
  pub onepassword_vault-truth : TruthOf lib p sources lookup (
      file_row
        (codes "onepassword_vault")
        (λ f. f.one_password_vault)
        (λ s. or_else s.one_password_vault (codes "(unset)")))
  unfolding settings_of problems_of merge
  onepassword_vault-truth =
      plain_truth lib p sources lookup (codes "onepassword_vault") (λ f. f.one_password_vault)
        (λ s. or_else s.one_password_vault (codes "(unset)")) (λ f g. refl) refl
        (λ x. or_else (deref_string x) (codes "(unset)")) (λ f l. refl) (λ f l. refl)

  pub bitwarden_email-truth : TruthOf lib p sources lookup (
      file_row
        (codes "bitwarden_email")
        (λ f. f.bitwarden_email)
        (λ s. or_else s.bitwarden_email (codes "(unset)")))
  unfolding settings_of problems_of merge
  bitwarden_email-truth =
      plain_truth lib p sources lookup (codes "bitwarden_email") (λ f. f.bitwarden_email)
        (λ s. or_else s.bitwarden_email (codes "(unset)")) (λ f g. refl) refl
        (λ x. or_else (deref_string x) (codes "(unset)")) (λ f l. refl) (λ f l. refl)

  pub bitwarden_server-truth : TruthOf lib p sources lookup (
      file_row
        (codes "bitwarden_server")
        (λ f. f.bitwarden_server)
        (λ s. or_else s.bitwarden_server (codes "bitwarden.com")))
  unfolding settings_of problems_of merge
  bitwarden_server-truth =
      plain_truth lib p sources lookup (codes "bitwarden_server") (λ f. f.bitwarden_server)
        (λ s. or_else s.bitwarden_server (codes "bitwarden.com")) (λ f g. refl) refl
        (λ x. or_else (deref_string x) (codes "bitwarden.com")) (λ f l. refl) (λ f l. refl)

  pub keepassxc_route-truth :
      TruthOf lib p sources lookup
        (file_row (codes "keepassxc_route") (λ f. f.keepassxc_route) (λ s. s.keepassxc_route))
  unfolding settings_of problems_of merge resolve_keepassxc_route
  keepassxc_route-truth =
      file_truth lib p sources lookup (codes "keepassxc_route") (λ f. f.keepassxc_route)
        (λ s. s.keepassxc_route) (λ f g. refl) refl
        (λ x. (choose {E = E} keepassxc_routes auto invalid_value x).0)
        (λ x. (choose {E = E} keepassxc_routes auto invalid_value x).1) (λ f l. refl)
        (λ f l. or_rest-none _)
        (λ x q h. Falls.choose_falls q keepassxc_routes auto invalid_value x h)

  pub keepassxc_database-truth : TruthOf lib p sources lookup (
      file_row
        (codes "keepassxc_database")
        (λ f. f.keepassxc_database)
        (λ s. or_else s.keepassxc_database (codes "(unset)")))
  unfolding settings_of problems_of merge
  keepassxc_database-truth =
      plain_truth lib p sources lookup (codes "keepassxc_database") (λ f. f.keepassxc_database)
        (λ s. or_else s.keepassxc_database (codes "(unset)")) (λ f g. refl) refl
        (λ x. or_else (deref_string x) (codes "(unset)")) (λ f l. refl) (λ f l. refl)

  pub keepassxc_key_file-truth : TruthOf lib p sources lookup (
      file_row
        (codes "keepassxc_key_file")
        (λ f. f.keepassxc_key_file)
        (λ s. or_else s.keepassxc_key_file (codes "(unset)")))
  unfolding settings_of problems_of merge
  keepassxc_key_file-truth =
      plain_truth lib p sources lookup (codes "keepassxc_key_file") (λ f. f.keepassxc_key_file)
        (λ s. or_else s.keepassxc_key_file (codes "(unset)")) (λ f g. refl) refl
        (λ x. or_else (deref_string x) (codes "(unset)")) (λ f l. refl) (λ f l. refl)

  pub keepassxc_no_password-truth : TruthOf lib p sources lookup (
      file_row
        (codes "keepassxc_no_password")
        (λ f. f.keepassxc_no_password)
        (λ s. bool_text s.keepassxc_no_password))
  unfolding settings_of problems_of merge
  keepassxc_no_password-truth =
      plain_truth lib p sources lookup (codes "keepassxc_no_password")
        (λ f. f.keepassxc_no_password) (λ s. bool_text s.keepassxc_no_password) (λ f g. refl) refl
        (λ x. bool_text (true_or_unset x)) (λ f l. refl) (λ f l. refl)

  pub gui_prompter-truth :
      TruthOf lib p sources lookup
        (file_row (codes "gui_prompter") (λ f. f.gui_prompter) (λ s. s.gui_prompter))
  unfolding settings_of problems_of merge resolve_gui_prompter
  gui_prompter-truth =
      file_truth lib p sources lookup (codes "gui_prompter") (λ f. f.gui_prompter)
        (λ s. s.gui_prompter) (λ f g. refl) refl
        (λ x. (choose {E = E} p.gui_prompters auto no_such_prompter x).0)
        (λ x. (choose {E = E} p.gui_prompters auto no_such_prompter x).1) (λ f l. refl)
        (λ f l. or_rest-none _)
        (λ x q h. Falls.choose_falls q p.gui_prompters auto no_such_prompter x h)

  pub on_dismiss-truth :
      TruthOf lib p sources lookup
        (file_row (codes "on_dismiss") (λ f. f.on_dismiss) (λ s. s.on_dismiss))
  unfolding settings_of problems_of merge resolve_on_dismiss
  on_dismiss-truth =
      file_truth lib p sources lookup (codes "on_dismiss") (λ f. f.on_dismiss) (λ s. s.on_dismiss)
        (λ f g. refl) refl (λ x. (choose {E = E} dismissals (codes "stop") invalid_value x).0)
        (λ x. (choose {E = E} dismissals (codes "stop") invalid_value x).1) (λ f l. refl)
        (λ f l. or_rest-none _)
        (λ x q h. Falls.choose_falls q dismissals (codes "stop") invalid_value x h)
