-- ===== src/Config/Precedence.antt =====
-- Which file decides each setting of internal/config/file.go: Merge and Merged, setting by setting.
use sshakku.Config.File.{File, no_file, merge, override}
use sshakku.Config.Sources.{Source, merged_onto, merged}
use sshakku.Prelude.{Text, ℤ, List, [], ◌∷◌, Bool, Option, none, some, All, ◌≡◌, refl, ap, ◌∙◌}

-- The settings of a file, by the type of what they state.
abbrev pub text_fields : List (File → Option Text)
text_fields =
    (λ f. f.key_lifetime)
    ∷ (λ f. f.giveup_ttl)
    ∷ (λ f. f.wallet_store_mode)
    ∷ (λ f. f.auto_load_mode)
    ∷ (λ f. f.command_timeout)
    ∷ (λ f. f.interactive_timeout)
    ∷ (λ f. f.service_prefix)
    ∷ (λ f. f.secret_container)
    ∷ (λ f. f.key_dir)
    ∷ (λ f. f.secret_backend)
    ∷ (λ f. f.one_password_vault)
    ∷ (λ f. f.bitwarden_email)
    ∷ (λ f. f.bitwarden_server)
    ∷ (λ f. f.keepassxc_route)
    ∷ (λ f. f.keepassxc_database)
    ∷ (λ f. f.keepassxc_key_file)
    ∷ (λ f. f.gui_prompter)
    ∷ (λ f. f.on_dismiss)
    ∷ (λ f. f.editor)
    ∷ []

abbrev pub number_fields : List (File → Option ℤ)
number_fields = (λ f. f.max_attempts) ∷ []

abbrev pub flag_fields : List (File → Option Bool)
flag_fields = (λ f. f.no_giveup) ∷ (λ f. f.quiet) ∷ (λ f. f.keepassxc_no_password) ∷ []

abbrev pub list_fields : List (File → Option (List Text))
list_fields =
    (λ f. f.wallet_store_include)
    ∷ (λ f. f.wallet_store_exclude)
    ∷ (λ f. f.auto_load_include)
    ∷ (λ f. f.auto_load_exclude)
    ∷ (λ f. f.key_patterns)
    ∷ []

-- The later of two statements, where there is one.
abbrev pub later_or : {A : Type 0} → Option A → Option A → Option A
later_or (some v) earlier = some v
later_or none earlier = earlier

-- What the last of the files that states the setting says, where one does.
abbrev pub last_stated : {A : Type 0} {E : Type 0} → (File → Option A) → List (Source E) → Option A
last_stated field [] = none
last_stated field (s ∷ ss) = later_or (last_stated field ss) (field s.file)

abbrev pub IsDecidedByLast :
    {A : Type 0} {E : Type 0} → List (Source E) → (File → Option A) → Type 0
IsDecidedByLast ss field = field (merged ss) ≡ last_stated field ss

override-later_or :
    {A : Type 0} (a b c : Option A) → later_or c (override a b) ≡ later_or (later_or c b) a
unfolding override
override-later_or a none (some v) = refl
override-later_or a (some w) (some v) = refl
override-later_or a none none = refl
override-later_or a (some w) none = refl

later_or-none : {A : Type 0} (c : Option A) → later_or c none ≡ c
later_or-none none = refl
later_or-none (some v) = refl

module _ {A E : Type 0} (field : File → Option A)
    (merges : (f g : File) → field (merge f g) ≡ override (field f) (field g)) where
  merged_onto-last_stated :
      (f : File) (ss : List (Source E))
      → field (merged_onto f ss) ≡ later_or (last_stated field ss) (field f)
  merged_onto-last_stated f [] = refl
  merged_onto-last_stated f (s ∷ ss) =
      merged_onto-last_stated (merge f s.file) ss
      ∙ ap (later_or (last_stated field ss)) (merges f s.file)
      ∙ override-later_or (field f) (field s.file) (last_stated field ss)

  decided_by_last : (ss : List (Source E)) → field no_file ≡ none → IsDecidedByLast ss field
  unfolding merged
  decided_by_last ss zero =
      merged_onto-last_stated no_file ss
      ∙ ap (later_or (last_stated field ss)) zero
      ∙ later_or-none (last_stated field ss)

-- Each of the 28 settings of the merged files is what the last file that states it says, and stays unset
-- where none does.
pub merged-last_stated :
    {E : Type 0} (ss : List (Source E))
    → All (IsDecidedByLast ss) text_fields
      × All (IsDecidedByLast ss) list_fields
      × All (IsDecidedByLast ss) flag_fields
      × All (IsDecidedByLast ss) number_fields
unfolding merge
merged-last_stated ss = (
  (
    decided_by_last (λ f. f.key_lifetime) (λ f g. refl) ss refl,
    (
      decided_by_last (λ f. f.giveup_ttl) (λ f g. refl) ss refl,
      (
        decided_by_last (λ f. f.wallet_store_mode) (λ f g. refl) ss refl,
        (
          decided_by_last (λ f. f.auto_load_mode) (λ f g. refl) ss refl,
          (
            decided_by_last (λ f. f.command_timeout) (λ f g. refl) ss refl,
            (
              decided_by_last (λ f. f.interactive_timeout) (λ f g. refl) ss refl,
              (
                decided_by_last (λ f. f.service_prefix) (λ f g. refl) ss refl,
                (
                  decided_by_last (λ f. f.secret_container) (λ f g. refl) ss refl,
                  (
                    decided_by_last (λ f. f.key_dir) (λ f g. refl) ss refl,
                    (
                      decided_by_last (λ f. f.secret_backend) (λ f g. refl) ss refl,
                      (
                        decided_by_last (λ f. f.one_password_vault) (λ f g. refl) ss refl,
                        (
                          decided_by_last (λ f. f.bitwarden_email) (λ f g. refl) ss refl,
                          (
                            decided_by_last (λ f. f.bitwarden_server) (λ f g. refl) ss refl,
                            (
                              decided_by_last (λ f. f.keepassxc_route) (λ f g. refl) ss refl,
                              (
                                decided_by_last (λ f. f.keepassxc_database) (λ f g. refl) ss refl,
                                (
                                  decided_by_last (λ f. f.keepassxc_key_file) (λ f g. refl) ss refl,
                                  (
                                    decided_by_last (λ f. f.gui_prompter) (λ f g. refl) ss refl,
                                    (
                                      decided_by_last (λ f. f.on_dismiss) (λ f g. refl) ss refl,
                                      (decided_by_last (λ f. f.editor) (λ f g. refl) ss refl, tt),
                                    ),
                                  ),
                                ),
                              ),
                            ),
                          ),
                        ),
                      ),
                    ),
                  ),
                ),
              ),
            ),
          ),
        ),
      ),
    ),
  ),
  (
    decided_by_last (λ f. f.wallet_store_include) (λ f g. refl) ss refl,
    (
      decided_by_last (λ f. f.wallet_store_exclude) (λ f g. refl) ss refl,
      (
        decided_by_last (λ f. f.auto_load_include) (λ f g. refl) ss refl,
        (
          decided_by_last (λ f. f.auto_load_exclude) (λ f g. refl) ss refl,
          (decided_by_last (λ f. f.key_patterns) (λ f g. refl) ss refl, tt),
        ),
      ),
    ),
  ),
  (
    decided_by_last (λ f. f.no_giveup) (λ f g. refl) ss refl,
    (
      decided_by_last (λ f. f.quiet) (λ f g. refl) ss refl,
      (decided_by_last (λ f. f.keepassxc_no_password) (λ f g. refl) ss refl, tt),
    ),
  ),
  (decided_by_last (λ f. f.max_attempts) (λ f g. refl) ss refl, tt),
)
