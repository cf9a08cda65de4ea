-- ===== src/Config/Truth/Policies.antt =====
-- The rows of internal/config/provenance.go that only a file can state.
use sshakku.Config.Choices.{
  Platform, Lookup, choose, items_of, deref_string, policy_modes, resolve_wallet_store_mode,
  resolve_auto_load_mode, resolve_secret_backend, resolve_service_prefix, resolve_secret_container,
  resolve_key_patterns,
}
use sshakku.Config.Settings.{Readers, settings_of, problems_of, key_dir_name}
use sshakku.Config.Sources.{Source}
use sshakku.Config.File.{merge}
use sshakku.Config.Durations.{invalid_value, no_such_wallet}
use sshakku.Config.Table.{file_row, or_else, list_text, patterns_text}
use sshakku.Config.Truth.Fallbacks as Falls
use sshakku.Config.Truth.Refusals.{or_rest-none}
use sshakku.Config.Truth.Rows.{TruthOf, file_truth, plain_truth}
use sshakku.FilePath
use sshakku.Prelude.{codes, List, refl, ap}

module _ {E : Type 0} (lib : Readers E) (p : Platform) (sources : List (Source E))
    (lookup : Lookup) where
  pub secret_backend-truth :
      TruthOf lib p sources lookup
        (file_row (codes "secret_backend") (λ f. f.secret_backend) (λ s. s.secret_backend))
  unfolding settings_of problems_of merge resolve_secret_backend
  secret_backend-truth =
      file_truth lib p sources lookup (codes "secret_backend") (λ f. f.secret_backend)
        (λ s. s.secret_backend) (λ f g. refl) refl
        (λ x. (choose {E = E} p.secret_backends p.default_backend no_such_wallet x).0)
        (λ x. (choose {E = E} p.secret_backends p.default_backend no_such_wallet x).1) (λ f l. refl)
        (λ f l. or_rest-none _)
        (λ x q h. Falls.choose_falls q p.secret_backends p.default_backend no_such_wallet x h)

  pub service_prefix-truth :
      TruthOf lib p sources lookup
        (file_row (codes "service_prefix") (λ f. f.service_prefix) (λ s. s.service_prefix))
  unfolding settings_of problems_of merge resolve_service_prefix
  service_prefix-truth =
      file_truth lib p sources lookup (codes "service_prefix") (λ f. f.service_prefix)
        (λ s. s.service_prefix) (λ f g. refl) refl (λ x. (resolve_service_prefix {E = E} x).0)
        (λ x. (resolve_service_prefix {E = E} x).1) (λ f l. refl) (λ f l. or_rest-none _)
        (λ x q h. Falls.resolve_service_prefix_falls q x h)

  pub secret_container-truth : TruthOf lib p sources lookup (
      file_row
        (codes "secret_container")
        (λ f. f.secret_container)
        (λ s. or_else s.secret_container (codes "(the wallet's own)")))
  unfolding settings_of problems_of merge resolve_secret_container
  secret_container-truth =
      file_truth lib p sources lookup (codes "secret_container") (λ f. f.secret_container)
        (λ s. or_else s.secret_container (codes "(the wallet's own)")) (λ f g. refl) refl
        (λ x. or_else (resolve_secret_container {E = E} x).0 (codes "(the wallet's own)"))
        (λ x. (resolve_secret_container {E = E} x).1) (λ f l. refl) (λ f l. or_rest-none _)
        (λ x q h.
          ap (λ t. or_else t (codes "(the wallet's own)"))
            (Falls.resolve_secret_container_falls q x h))

  pub key_dir-truth : TruthOf lib p sources lookup (
      file_row
        (codes "key_dir")
        (λ f. f.key_dir)
        (λ s. or_else s.key_dir (FilePath.join (codes "~") key_dir_name)))
  unfolding settings_of problems_of merge
  key_dir-truth =
      plain_truth lib p sources lookup (codes "key_dir") (λ f. f.key_dir)
        (λ s. or_else s.key_dir (FilePath.join (codes "~") key_dir_name)) (λ f g. refl) refl
        (λ x. or_else (deref_string x) (FilePath.join (codes "~") key_dir_name)) (λ f l. refl)
        (λ f l. refl)

  pub key_patterns-truth :
      TruthOf lib p sources lookup
        (file_row (codes "key_patterns") (λ f. f.key_patterns) (λ s. patterns_text s.key_patterns))
  unfolding settings_of problems_of merge resolve_key_patterns
  key_patterns-truth =
      file_truth lib p sources lookup (codes "key_patterns") (λ f. f.key_patterns)
        (λ s. patterns_text s.key_patterns) (λ f g. refl) refl
        (λ x. patterns_text (resolve_key_patterns lib.match_error x).0)
        (λ x. (resolve_key_patterns lib.match_error x).1) (λ f l. refl) (λ f l. or_rest-none _)
        (λ x q h. ap patterns_text (Falls.resolve_key_patterns_falls q lib.match_error x h))

  pub wallet_store_mode-truth :
      TruthOf lib p sources lookup
        (file_row (codes "wallet_store_mode") (λ f. f.wallet_store_mode) (λ s. s.wallet_store_mode))
  unfolding settings_of problems_of merge resolve_wallet_store_mode
  wallet_store_mode-truth =
      file_truth lib p sources lookup (codes "wallet_store_mode") (λ f. f.wallet_store_mode)
        (λ s. s.wallet_store_mode) (λ f g. refl) refl
        (λ x. (choose {E = E} policy_modes (codes "all") invalid_value x).0)
        (λ x. (choose {E = E} policy_modes (codes "all") invalid_value x).1) (λ f l. refl)
        (λ f l. or_rest-none _)
        (λ x q h. Falls.choose_falls q policy_modes (codes "all") invalid_value x h)

  pub wallet_store_include-truth : TruthOf lib p sources lookup (
      file_row
        (codes "wallet_store_include")
        (λ f. f.wallet_store_include)
        (λ s. list_text s.wallet_store_include))
  unfolding settings_of problems_of merge
  wallet_store_include-truth =
      plain_truth lib p sources lookup (codes "wallet_store_include") (λ f. f.wallet_store_include)
        (λ s. list_text s.wallet_store_include) (λ f g. refl) refl (λ x. list_text (items_of x))
        (λ f l. refl) (λ f l. refl)

  pub wallet_store_exclude-truth : TruthOf lib p sources lookup (
      file_row
        (codes "wallet_store_exclude")
        (λ f. f.wallet_store_exclude)
        (λ s. list_text s.wallet_store_exclude))
  unfolding settings_of problems_of merge
  wallet_store_exclude-truth =
      plain_truth lib p sources lookup (codes "wallet_store_exclude") (λ f. f.wallet_store_exclude)
        (λ s. list_text s.wallet_store_exclude) (λ f g. refl) refl (λ x. list_text (items_of x))
        (λ f l. refl) (λ f l. refl)

  pub auto_load_mode-truth :
      TruthOf lib p sources lookup
        (file_row (codes "auto_load_mode") (λ f. f.auto_load_mode) (λ s. s.auto_load_mode))
  unfolding settings_of problems_of merge resolve_auto_load_mode
  auto_load_mode-truth =
      file_truth lib p sources lookup (codes "auto_load_mode") (λ f. f.auto_load_mode)
        (λ s. s.auto_load_mode) (λ f g. refl) refl
        (λ x. (choose {E = E} policy_modes (codes "all") invalid_value x).0)
        (λ x. (choose {E = E} policy_modes (codes "all") invalid_value x).1) (λ f l. refl)
        (λ f l. or_rest-none _)
        (λ x q h. Falls.choose_falls q policy_modes (codes "all") invalid_value x h)

  pub auto_load_include-truth : TruthOf lib p sources lookup (
      file_row
        (codes "auto_load_include")
        (λ f. f.auto_load_include)
        (λ s. list_text s.auto_load_include))
  unfolding settings_of problems_of merge
  auto_load_include-truth =
      plain_truth lib p sources lookup (codes "auto_load_include") (λ f. f.auto_load_include)
        (λ s. list_text s.auto_load_include) (λ f g. refl) refl (λ x. list_text (items_of x))
        (λ f l. refl) (λ f l. refl)

  pub auto_load_exclude-truth : TruthOf lib p sources lookup (
      file_row
        (codes "auto_load_exclude")
        (λ f. f.auto_load_exclude)
        (λ s. list_text s.auto_load_exclude))
  unfolding settings_of problems_of merge
  auto_load_exclude-truth =
      plain_truth lib p sources lookup (codes "auto_load_exclude") (λ f. f.auto_load_exclude)
        (λ s. list_text s.auto_load_exclude) (λ f g. refl) refl (λ x. list_text (items_of x))
        (λ f l. refl) (λ f l. refl)
