-- ===== src/Config/Truth/Report.antt =====
-- The whole report of internal/config/provenance.go.
use sshakku.Config.Choices.{Platform, Lookup}
use sshakku.Config.Provenance.{Machine, SettingDesc, is_set, explain_each}
use sshakku.Config.Settings.{Readers, resolve}
use sshakku.Config.Sources.{Source, merged}
use sshakku.Config.Table.{explain, setting_table, names_editor}
use sshakku.Config.Truth.Particular.{max_attempts-truth, editor-truth}
use sshakku.Config.Truth.Policies as Policies
use sshakku.Config.Truth.Row.{IsTruthful}
use sshakku.Config.Truth.Rows.{TruthOf}
use sshakku.Config.Truth.Timed as Timed
use sshakku.Config.Truth.Wallets as Wallets
use sshakku.Prelude.{List, [], ◌∷◌, All, ◌≡◌}

-- A relation between the items of two lists, one by one.
abbrev pub Pairwise : {A B : Type 0} → (A → B → Type 0) → List A → List B → Type 0
Pairwise R [] [] = Unit
Pairwise R [] (b ∷ bs) = ⊥
Pairwise R (a ∷ as') [] = ⊥
Pairwise R (a ∷ as') (b ∷ bs) = R a b × Pairwise R as' bs

infixr 20 ◌also◌
◌also◌ : {A B : Type 0} → A → B → A × B
a also b = (a, b)

module _ {E : Type 0} (lib : Readers E) (p : Platform) (m : Machine) (sources : List (Source E))
    (lookup : Lookup) where
  explain_each-IsTruthful :
      (ds : List SettingDesc)
      → All (TruthOf lib p sources lookup) ds
      → Pairwise (IsTruthful lib p sources lookup) ds (
          explain_each sources lookup
            (resolve lib p (merged sources) lookup).0
            (resolve lib p (merged sources) lookup).1
            ds)
  unfolding explain_each
  explain_each-IsTruthful [] h = tt
  explain_each-IsTruthful (d ∷ ds) h = (h.0, explain_each-IsTruthful ds h.1)

  -- Where no file states a blank editor, the report has one line for each setting of the table, and
  -- each is truthful: the value that it shows is the one that what it names puts in force with
  -- nothing beside it, which is the defaults, a file that was read and sets it, or one variable.
  pub explain-IsTruthful :
      All (λ s. names_editor s.file.editor ≡ is_set s.file.editor) sources
      → Pairwise
          (IsTruthful lib p sources lookup)
          (setting_table m)
          (explain lib p m sources lookup)
  unfolding explain
  explain-IsTruthful plain = explain_each-IsTruthful (setting_table m) (
      Timed.key_lifetime-truth lib p m sources lookup
      also max_attempts-truth lib p m sources lookup
      also Timed.giveup_ttl-truth lib p m sources lookup
      also Timed.no_giveup-truth lib p m sources lookup
      also Timed.quiet-truth lib p m sources lookup
      also Timed.command_timeout-truth lib p m sources lookup
      also Timed.interactive_timeout-truth lib p m sources lookup
      also Policies.secret_backend-truth lib p sources lookup
      also Policies.service_prefix-truth lib p sources lookup
      also Policies.secret_container-truth lib p sources lookup
      also Policies.key_dir-truth lib p sources lookup
      also Policies.key_patterns-truth lib p sources lookup
      also Policies.wallet_store_mode-truth lib p sources lookup
      also Policies.wallet_store_include-truth lib p sources lookup
      also Policies.wallet_store_exclude-truth lib p sources lookup
      also Policies.auto_load_mode-truth lib p sources lookup
      also Policies.auto_load_include-truth lib p sources lookup
      also Policies.auto_load_exclude-truth lib p sources lookup
      also Wallets.onepassword_vault-truth lib p sources lookup
      also Wallets.bitwarden_email-truth lib p sources lookup
      also Wallets.bitwarden_server-truth lib p sources lookup
      also Wallets.keepassxc_route-truth lib p sources lookup
      also Wallets.keepassxc_database-truth lib p sources lookup
      also Wallets.keepassxc_key_file-truth lib p sources lookup
      also Wallets.keepassxc_no_password-truth lib p sources lookup
      also Wallets.gui_prompter-truth lib p sources lookup
      also Wallets.on_dismiss-truth lib p sources lookup
      also editor-truth lib p m sources lookup plain
      also tt)
