-- ===== src/Config/Truth/Blank.antt =====
-- An editor that a later file leaves blank, in internal/config/provenance.go and file.go.
use sshakku.Config.Choices.{Platform, deref_string, stated_editor, first_named}
use sshakku.Config.File.{File, no_file, merge, override}
use sshakku.Config.Provenance.{
  Machine, Setting, Origin, from_file, explain_one, explained, stated_by, stated_in_files,
  refusal_of,
}
use sshakku.Config.Settings.{Readers, resolve, settings_of, problems_of}
use sshakku.Config.Sources.{Source, merged, merged_onto}
use sshakku.Config.Table.{editor_row, names_editor, editor_in_force, first_editor_found, not_blank}
use sshakku.Config.Truth.Origins.{no_lookup}
use sshakku.Config.Truth.Rows.{refusal_of-resolve}
use sshakku.Prelude.{
  codes, Text, text_eq, trim_space, trim_left, trim_right, List, ◌++◌, [], ◌∷◌, true, false, none,
  some, ◌≡◌, refl, sym, ap, ◌∙◌, arith,
}

module _ {E : Type 0} (lib : Readers E) (p : Platform) (m : Machine) (earlier : List (Source E))
    (a b : Source E) (v w : Text) (names : a.file.editor ≡ some v) (named : not_blank v ≡ true)
    (blanks : b.file.editor ≡ some w) (blank : not_blank w ≡ false) where
  abbrev pub sources : List (Source E)
  sources = earlier ++ a ∷ b ∷ []

  merged_onto-editor :
      (f : File) (ss : List (Source E)) → (merged_onto f (ss ++ a ∷ b ∷ [])).editor ≡ some w
  unfolding merge override
  merged_onto-editor f [] = rw blanks refl
  merged_onto-editor f (s ∷ ss) = merged_onto-editor (merge f s.file) ss

  merged_editor : (merged sources).editor ≡ some w
  unfolding merged
  merged_editor = merged_onto-editor no_file earlier

  last_named :
      (ss : List (Source E))
      → stated_in_files (λ f. names_editor f.editor) (ss ++ a ∷ b ∷ []) ≡ some (from_file a.path)
  unfolding stated_in_files
  last_named [] = rw (names, blanks, blank, named) refl
  last_named (s ∷ ss) = rw (last_named ss) refl

  trim-blank : text_eq (trim_space w) [] ≡ true
  trim-blank = ground arith

  no_editor : stated_editor (some w) no_lookup ≡ []
  unfolding stated_editor deref_string first_named
  no_editor = rw trim-blank refl

  credited : stated_by (editor_row m) (sources) no_lookup ≡ from_file a.path
  unfolding stated_by
  credited = rw (last_named earlier) refl

  -- The line of the report that has nothing refused.
  abbrev editor_line : Text → Origin → Setting E
  editor_line value from = record {
    name = codes "editor";
    value = value;
    from = from;
    refused = none;
  }

  found_here : first_editor_found m.platform_editors m.find_editor ≡ editor_in_force m []
  unfolding editor_in_force trim_space trim_left trim_right
  found_here = refl

  not_refused : refusal_of (resolve lib p (merged (sources)) no_lookup).1 (codes "editor") ≡ none
  unfolding problems_of
  not_refused = refusal_of-resolve lib p (merged (sources)) no_lookup (codes "editor")

  value_here :
      editor_in_force m (settings_of lib p (merged (sources)) no_lookup).editor
      ≡ first_editor_found m.platform_editors m.find_editor
  unfolding settings_of
  value_here =
      ap (λ o. editor_in_force m (stated_editor o no_lookup)) merged_editor
      ∙ ap (editor_in_force m) no_editor
      ∙ sym found_here

  -- Where the last file states a blank editor and the one before it names an editor, whatever the
  -- files before those state, and no variable is set at all: the editor in force is the machine's
  -- own, and the report's line for the editor says that it comes from the file that named one.
  pub blank_editor_misattributed :
      explain_one
        (sources)
        no_lookup
        (resolve lib p (merged (sources)) no_lookup).0
        (resolve lib p (merged (sources)) no_lookup).1
        (editor_row m)
      ≡ record {
        name = codes "editor";
        value = first_editor_found m.platform_editors m.find_editor;
        from = from_file a.path;
        refused = none;
      }
  unfolding explain_one resolve
  blank_editor_misattributed =
      ap
        (explained (sources) no_lookup (settings_of lib p (merged (sources)) no_lookup)
          (editor_row m))
        not_refused
      ∙ ap (λ t. editor_line t (stated_by (editor_row m) (sources) no_lookup)) value_here
      ∙ ap (editor_line (first_editor_found m.platform_editors m.find_editor)) credited
