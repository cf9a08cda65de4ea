-- ===== src/Config/Truth/Particular.antt =====
-- The two rows of internal/config/provenance.go with an order of their own: the attempts, whose
-- variable counts only with a number that can be used, and the editor, whose file comes first.
use sshakku.Config.Choices.{
  Platform, Lookup, attempts_from, positive_or_zero, resolve_max_attempts, deref_string, named_by,
  first_named, stated_editor,
}
use sshakku.Config.Durations.{env_int}
use sshakku.Config.File.{merge}
use sshakku.Config.Provenance.{Machine, is_set, or_rest, used_value}
use sshakku.Config.Settings.{Readers, settings_of, problems_of}
use sshakku.Config.Sources.{Source}
use sshakku.Config.Table.{
  max_attempts_row, editor_row, attempts_text, editor_in_force, names_editor, not_blank,
}
use sshakku.Config.Truth.Origins.{first_used}
use sshakku.Config.Truth.Row.{IsRow, explain_one-IsTruthful}
use sshakku.Config.Truth.Rows.{TruthOf, refusal_of-resolve, set_or_not, none-ne-some}
use sshakku.Prelude.{
  ltb, Text, codes, text_eq, trim_space, ℤ, List, [], ◌∷◌, Bool, true, false, Bool-cases, Option,
  none, some, Option-cases, if◌then◌else◌, All, ◌≡◌, inl, inr, refl, ap, arith,
}

counts : Text → Bool
counts v = ltb 0 (env_int v)

attempts_unused :
    (e : Text) (x : Option ℤ)
    → ltb 0 (env_int e) ≡ false
    → attempts_from (some e) x ≡ positive_or_zero x
attempts_unused e x h = ground arith

attempts_used :
    (e : Text) (x : Option ℤ)
    → ltb 0 (env_int e) ≡ true
    → attempts_from (some e) x ≡ attempts_from (some e) none
attempts_used e x h = ground arith

-- What the first used variable holds is used.
first_used-Used :
    (used : Text → Bool) (o : Option Text) (e : Text)
    → or_rest (used_value used o) none ≡ some e
    → used e ≡ true
first_used-Used used none e h = cc
first_used-Used used (some v) e h = elim (Bool-cases (used v)) [
  | inl k ↦ let same : v ≡ e = (let z = rw k at h in cc) in rw (← same) k
  | inr k ↦ absurd (let z = rw k at h in cc)
]

attempts_read :
    (o : Option Text) (x : Option ℤ)
    → attempts_from o x ≡ attempts_from (or_rest (used_value (λ v. ltb 0 (env_int v)) o) none) x
attempts_read none x = refl
attempts_read (some e) x = elim (Bool-cases (ltb 0 (env_int e))) [
  | inl k ↦ rw k refl
  | inr k ↦ rw k (attempts_unused e x k)
]

-- The editor, from the variable that is used and from the file.
abbrev editor_of : Option Text → Option Text → Text
editor_of e x =
    let named = trim_space (deref_string x) in if text_eq named [] then named_by e else named

first_named-first_used :
    (lookup : Lookup) (names : List Text)
    → first_named lookup names ≡ named_by (first_used not_blank names lookup)
unfolding first_named
first_named-first_used lookup [] = refl
first_named-first_used lookup (name ∷ names) = elim (Option-cases (lookup name)) [
  | inl e ↦ rw e (first_named-first_used lookup names)
  | inr (v, e) ↦ elim (Bool-cases (text_eq (trim_space v) [])) [
    | inl k ↦ rw (e, k) (first_named-first_used lookup names)
    | inr k ↦ rw (e, k) refl
  ]
]

names_editor-deref :
    (x : Option Text) → names_editor x ≡ true → text_eq (trim_space (deref_string x)) [] ≡ false
unfolding deref_string
names_editor-deref none h = cc
names_editor-deref (some v) h = ground arith

module _ {E : Type 0} (lib : Readers E) (p : Platform) (m : Machine) (sources : List (Source E))
    (lookup : Lookup) where
  max_attempts-IsRow :
      IsRow lib p
        (λ f. f.max_attempts)
        (λ e x. attempts_text (attempts_from e x))
        (λ e x. none)
        (max_attempts_row m)
  unfolding settings_of problems_of merge resolve_max_attempts
  max_attempts-IsRow = record {
    reads =
        λ f l. ap attempts_text (attempts_read (l (codes "SSHAKKU_MAX_ATTEMPTS")) f.max_attempts);
    refuses = λ f l. refusal_of-resolve lib p f l (codes "max_attempts");
    refused_default = λ e x q h. absurd (none-ne-some h);
    merges = λ f g. refl;
    starts = refl;
    env_wins = λ l e x h k. ap attempts_text (
        attempts_used e x
          (first_used-Used (λ v. ltb 0 (env_int v)) (l (codes "SSHAKKU_MAX_ATTEMPTS")) e h));
    file_wins = λ e f h k. absurd (let z : false ≡ true = h in cc);
  }

  pub max_attempts-truth : TruthOf lib p sources lookup (max_attempts_row m)
  max_attempts-truth =
      explain_one-IsTruthful lib p (λ f. f.max_attempts) _ _ (max_attempts_row m) max_attempts-IsRow
        sources lookup (set_or_not lib p (λ f. f.max_attempts) sources)

  editor-IsRow :
      IsRow lib p
        (λ f. f.editor)
        (λ e x. editor_in_force m (editor_of e x))
        (λ e x. none)
        (editor_row m)
  unfolding settings_of problems_of merge stated_editor
  editor-IsRow = record {
    reads = λ f l.
        ap
          (λ t. editor_in_force m (
            if text_eq (trim_space (deref_string f.editor)) []
            then t
            else trim_space (deref_string f.editor)))
          (first_named-first_used l (codes "EDITOR" ∷ codes "VISUAL" ∷ []));
    refuses = λ f l. refusal_of-resolve lib p f l (codes "editor");
    refused_default = λ e x q h. absurd (none-ne-some h);
    merges = λ f g. refl;
    starts = refl;
    env_wins = λ l e x h k. absurd (let z : true ≡ false = k in cc);
    file_wins = λ e f h k. rw (names_editor-deref f.editor k) refl;
  }

  -- No file states a blank editor.
  pub editor-truth :
      All (λ s. names_editor s.file.editor ≡ is_set s.file.editor) sources
      → TruthOf lib p sources lookup (editor_row m)
  editor-truth plain =
      explain_one-IsTruthful lib p (λ f. f.editor) _ _ (editor_row m) editor-IsRow sources lookup
        plain
