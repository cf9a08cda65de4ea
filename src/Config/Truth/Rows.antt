-- ===== src/Config/Truth/Rows.antt =====
-- The rows of the table of internal/config/provenance.go, one by one.
use sshakku.Config.Choices.{Platform, Lookup}
use sshakku.Config.Durations.{Problem}
use sshakku.Config.File.{File, no_file, merge, override}
use sshakku.Config.Provenance.{SettingDesc, is_set, or_rest, used_value, refusal_of, explain_one}
use sshakku.Config.Settings.{Settings, Readers, resolve, settings_of, problems_of}
use sshakku.Config.Sources.{Source, merged}
use sshakku.Config.Table.{file_row, env_row}
use sshakku.Config.Truth.Refusals.{find_problem, refusal_of-refuse_each}
use sshakku.Config.Truth.Row.{IsRow, IsTruthful, explain_one-IsTruthful}
use sshakku.Prelude.{Text, List, [], ◌∷◌, true, false, Option, none, some, All, ◌≡◌, refl, ◌∙◌}

pub none-ne-some : {A : Type 0} {a : A} → none ≡ some a → ⊥
none-ne-some h = cc

module _ {E : Type 0} (lib : Readers E) (p : Platform) where
  -- The refusal of a setting in terms of the problems.
  pub refusal_of-resolve :
      (f : File) (l : Lookup) (name : Text)
      → refusal_of (resolve lib p f l).1 name ≡ find_problem (problems_of lib p f l) name
  unfolding resolve refusal_of
  refusal_of-resolve f l name = refusal_of-refuse_each [] (problems_of lib p f l) name

  module _ {A : Type 0} (name : Text) (field : File → Option A) (value : Settings → Text)
      (merges : (f g : File) → field (merge f g) ≡ override (field f) (field g))
      (starts : field no_file ≡ none) (v : Option A → Text)
      (problem : Option A → Option (Problem E))
      (reads : (f : File) (l : Lookup) → value (settings_of lib p f l) ≡ v (field f))
      (refuses : (f : File) (l : Lookup)
        → find_problem (problems_of lib p f l) name ≡ problem (field f))
      (falls : (x : Option A) (q : Problem E) → problem x ≡ some q → v x ≡ v none) where
    pub file_row-IsRow : IsRow lib p field (λ e. v) (λ e. problem) (file_row name field value)
    file_row-IsRow = record {
      reads = reads;
      refuses = λ f l. refusal_of-resolve f l name ∙ refuses f l;
      refused_default = λ e. falls;
      merges = merges;
      starts = starts;
      env_wins = λ l e x h k. cc;
      file_wins = λ e f h k. refl;
    }

  used_any : (o : Option Text) → or_rest (used_value (λ v. true) o) none ≡ o
  used_any none = refl
  used_any (some v) = refl

  module _ {A : Type 0} (name env : Text) (field : File → Option A) (value : Settings → Text)
      (merges : (f g : File) → field (merge f g) ≡ override (field f) (field g))
      (starts : field no_file ≡ none) (v : Option Text → Option A → Text)
      (problem : Option Text → Option A → Option (Problem E))
      (reads : (f : File) (l : Lookup) → value (settings_of lib p f l) ≡ v (l env) (field f))
      (refuses : (f : File) (l : Lookup)
        → find_problem (problems_of lib p f l) name ≡ problem (l env) (field f))
      (falls : (e : Option Text) (x : Option A) (q : Problem E)
        → problem e x ≡ some q
        → v e x ≡ v none none)
      (env_wins : (e : Text) (x : Option A) → v (some e) x ≡ v (some e) none) where
    pub env_row-IsRow : IsRow lib p field v problem (env_row name env field value)
    env_row-IsRow = record {
      reads = λ f l. rw (used_any (l env)) (reads f l);
      refuses = λ f l. rw (used_any (l env)) (refusal_of-resolve f l name ∙ refuses f l);
      refused_default = falls;
      merges = merges;
      starts = starts;
      env_wins = λ l e x h k. env_wins e x;
      file_wins = λ e f h k. absurd (let z : false ≡ true = h in cc);
    }

  -- A setting that no more is known of than that it is set or not.
  pub set_or_not :
      {A : Type 0} (field : File → Option A) (sources : List (Source E))
      → All (λ s. is_set (field s.file) ≡ is_set (field s.file)) sources
  set_or_not field [] = tt
  set_or_not field (s ∷ ss) = (refl, set_or_not field ss)

  module _ (sources : List (Source E)) (lookup : Lookup) where
    -- A row, and that its line of the report is truthful.
    abbrev pub TruthOf : SettingDesc → Type 0
    TruthOf d = IsTruthful lib p sources lookup d (
        explain_one sources lookup (resolve lib p (merged sources) lookup).0
          (resolve lib p (merged sources) lookup).1 d)

    module _ {A : Type 0} (name : Text) (field : File → Option A) (value : Settings → Text)
        (merges : (f g : File) → field (merge f g) ≡ override (field f) (field g))
        (starts : field no_file ≡ none) where
      pub file_truth :
          (v : Option A → Text) (problem : Option A → Option (Problem E))
          → ((f : File) (l : Lookup) → value (settings_of lib p f l) ≡ v (field f))
          → ((f : File) (l : Lookup)
              → find_problem (problems_of lib p f l) name ≡ problem (field f))
          → ((x : Option A) (q : Problem E) → problem x ≡ some q → v x ≡ v none)
          → TruthOf (file_row name field value)
      file_truth v problem reads refuses falls =
          explain_one-IsTruthful lib p field (λ e. v) (λ e. problem) (file_row name field value)
            (file_row-IsRow name field value merges starts v problem reads refuses falls) sources
            lookup (set_or_not field sources)

      -- A row whose setting is never refused.
      pub plain_truth :
          (v : Option A → Text)
          → ((f : File) (l : Lookup) → value (settings_of lib p f l) ≡ v (field f))
          → ((f : File) (l : Lookup) → find_problem (problems_of lib p f l) name ≡ none)
          → TruthOf (file_row name field value)
      plain_truth v reads refuses =
          file_truth v (λ x. none) reads refuses (λ x q h. absurd (none-ne-some h))

      pub env_truth :
          (env : Text) (v : Option Text → Option A → Text)
          (problem : Option Text → Option A → Option (Problem E))
          → ((f : File) (l : Lookup) → value (settings_of lib p f l) ≡ v (l env) (field f))
          → ((f : File) (l : Lookup)
              → find_problem (problems_of lib p f l) name ≡ problem (l env) (field f))
          → ((e : Option Text) (x : Option A) (q : Problem E)
              → problem e x ≡ some q
              → v e x ≡ v none none)
          → ((e : Text) (x : Option A) → v (some e) x ≡ v (some e) none)
          → TruthOf (env_row name env field value)
      env_truth env v problem reads refuses falls env_wins =
          explain_one-IsTruthful lib p field v problem (env_row name env field value)
            (env_row-IsRow name env field value merges starts v problem reads refuses falls
              env_wins)
            sources lookup (set_or_not field sources)
