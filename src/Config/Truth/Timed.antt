-- ===== src/Config/Truth/Timed.antt =====
-- The rows of internal/config/provenance.go with a variable of their own.
use sshakku.Config.Choices.{Platform, Lookup, variable_or_file, coalesce, truth_from, resolve_bool}
use sshakku.Config.Durations.{
  key_lifetime_of, giveup_ttl_of, positive_duration, command_timeout_of, interactive_timeout_of,
  default_command_timeout, default_interactive_timeout,
}
use sshakku.Config.File.{merge}
use sshakku.Config.Provenance.{Machine}
use sshakku.Config.Settings.{Readers, settings_of, problems_of}
use sshakku.Config.Sources.{Source}
use sshakku.Config.Table.{env_row, duration, bool_text}
use sshakku.Config.Truth.Fallbacks as Falls
use sshakku.Config.Truth.Refusals.{or_rest-none}
use sshakku.Config.Truth.Rows.{TruthOf, env_truth, none-ne-some}
use sshakku.Prelude.{codes, List, none, refl}

module _ {E : Type 0} (lib : Readers E) (p : Platform) (m : Machine) (sources : List (Source E))
    (lookup : Lookup) where
  pub key_lifetime-truth : TruthOf lib p sources lookup (
      env_row
        (codes "key_lifetime")
        (codes "SSHAKKU_KEY_LIFETIME")
        (λ f. f.key_lifetime)
        (λ s. duration m s.key_lifetime (codes "no expiry")))
  unfolding settings_of problems_of merge coalesce key_lifetime_of
  key_lifetime-truth =
      env_truth lib p sources lookup (codes "key_lifetime") (λ f. f.key_lifetime)
        (λ s. duration m s.key_lifetime (codes "no expiry")) (λ f g. refl) refl
        (codes "SSHAKKU_KEY_LIFETIME")
        (λ e x.
          duration m (key_lifetime_of lib.parse_duration (variable_or_file e x)).0
            (codes "no expiry"))
        (λ e x. (key_lifetime_of lib.parse_duration (variable_or_file e x)).1) (λ f l. refl)
        (λ f l. or_rest-none _)
        (λ e x q h.
          rw (Falls.key_lifetime_of_falls q lib.parse_duration (variable_or_file e x) h) refl)
        (λ e x. refl)

  pub giveup_ttl-truth : TruthOf lib p sources lookup (
      env_row
        (codes "giveup_ttl")
        (codes "SSHAKKU_GIVEUP_TTL")
        (λ f. f.giveup_ttl)
        (λ s. duration m s.giveup_ttl (codes "never expires")))
  unfolding settings_of problems_of merge coalesce giveup_ttl_of
  giveup_ttl-truth =
      env_truth lib p sources lookup (codes "giveup_ttl") (λ f. f.giveup_ttl)
        (λ s. duration m s.giveup_ttl (codes "never expires")) (λ f g. refl) refl
        (codes "SSHAKKU_GIVEUP_TTL")
        (λ e x.
          duration m (giveup_ttl_of lib.parse_duration (variable_or_file e x)).0
            (codes "never expires"))
        (λ e x. (giveup_ttl_of lib.parse_duration (variable_or_file e x)).1) (λ f l. refl)
        (λ f l. or_rest-none _)
        (λ e x q h.
          rw (Falls.giveup_ttl_of_falls q lib.parse_duration (variable_or_file e x) h) refl)
        (λ e x. refl)

  pub command_timeout-truth : TruthOf lib p sources lookup (
      env_row
        (codes "command_timeout")
        (codes "SSHAKKU_COMMAND_TIMEOUT")
        (λ f. f.command_timeout)
        (λ s. m.show_duration s.command_timeout))
  unfolding settings_of problems_of merge coalesce positive_duration command_timeout_of
  command_timeout-truth =
      env_truth lib p sources lookup (codes "command_timeout") (λ f. f.command_timeout)
        (λ s. m.show_duration s.command_timeout) (λ f g. refl) refl
        (codes "SSHAKKU_COMMAND_TIMEOUT")
        (λ e x.
          m.show_duration
            (positive_duration lib.parse_duration (variable_or_file e x) default_command_timeout).0)
        (λ e x.
          (positive_duration lib.parse_duration (variable_or_file e x) default_command_timeout).1)
        (λ f l. refl) (λ f l. or_rest-none _)
        (λ e x q h.
          rw
            (Falls.positive_duration_falls q lib.parse_duration (variable_or_file e x)
              default_command_timeout h)
            refl)
        (λ e x. refl)

  pub interactive_timeout-truth : TruthOf lib p sources lookup (
      env_row
        (codes "interactive_timeout")
        (codes "SSHAKKU_INTERACTIVE_TIMEOUT")
        (λ f. f.interactive_timeout)
        (λ s. m.show_duration s.interactive_timeout))
  unfolding settings_of problems_of merge coalesce positive_duration interactive_timeout_of
  interactive_timeout-truth =
      env_truth lib p sources lookup (codes "interactive_timeout") (λ f. f.interactive_timeout)
        (λ s. m.show_duration s.interactive_timeout) (λ f g. refl) refl
        (codes "SSHAKKU_INTERACTIVE_TIMEOUT")
        (λ e x.
          m.show_duration
            (positive_duration lib.parse_duration (variable_or_file e x)
              default_interactive_timeout).0)
        (λ e x.
          (positive_duration lib.parse_duration (variable_or_file e x)
            default_interactive_timeout).1)
        (λ f l. refl) (λ f l. or_rest-none _)
        (λ e x q h.
          rw
            (Falls.positive_duration_falls q lib.parse_duration (variable_or_file e x)
              default_interactive_timeout h)
            refl)
        (λ e x. refl)

  pub no_giveup-truth : TruthOf lib p sources lookup (
      env_row
        (codes "no_giveup")
        (codes "SSHAKKU_NO_GIVEUP")
        (λ f. f.no_giveup)
        (λ s. bool_text s.no_giveup))
  unfolding settings_of problems_of merge resolve_bool
  no_giveup-truth =
      env_truth lib p sources lookup (codes "no_giveup") (λ f. f.no_giveup)
        (λ s. bool_text s.no_giveup) (λ f g. refl) refl (codes "SSHAKKU_NO_GIVEUP")
        (λ e x. bool_text (truth_from e x)) (λ e x. none) (λ f l. refl) (λ f l. refl)
        (λ e x q h. absurd (none-ne-some h)) (λ e x. refl)

  pub quiet-truth :
      TruthOf lib p sources lookup
        (env_row (codes "quiet") (codes "SSHAKKU_QUIET") (λ f. f.quiet) (λ s. bool_text s.quiet))
  unfolding settings_of problems_of merge resolve_bool
  quiet-truth =
      env_truth lib p sources lookup (codes "quiet") (λ f. f.quiet) (λ s. bool_text s.quiet)
        (λ f g. refl) refl (codes "SSHAKKU_QUIET") (λ e x. bool_text (truth_from e x)) (λ e x. none)
        (λ f l. refl) (λ f l. refl) (λ e x q h. absurd (none-ne-some h)) (λ e x. refl)
