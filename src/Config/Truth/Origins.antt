-- ===== src/Config/Truth/Origins.antt =====
-- Which source of internal/config a value comes from: one of the files, or a variable.
use sshakku.Config.Choices.{Lookup}
use sshakku.Config.File.{File, merge, override}
use sshakku.Config.Provenance.{
  Origin, from_file, from_env, is_set, or_rest, when, used_value, env_origin, stated_in_env,
  stated_in_files,
}
use sshakku.Config.Sources.{Source, merged_onto}
use sshakku.Prelude.{
  Text, text_eq, text_eq_refl, List, [], ◌∷◌, Bool, true, false, Bool-cases, Option, none, some,
  Option-cases, if◌then◌else◌, All, ◌≡◌, ◌⊎◌, inl, inr, refl, sym, ◌∙◌,
}

abbrev pub no_lookup : Lookup
no_lookup name = none

-- The environment with one variable of it.
abbrev pub only : Text → Lookup → Lookup
only name lookup n = if text_eq n name then lookup n else none

-- A predicate that holds of some item.
abbrev pub AnyOf : {A : Type 0} → (A → Type 0) → List A → Type 0
AnyOf P [] = ⊥
AnyOf P (x ∷ xs) = P x ⊎ AnyOf P xs

pub AnyOf-map :
    {A : Type 0} (P Q : A → Type 0) (xs : List A) → ((x : A) → P x → Q x) → AnyOf P xs → AnyOf Q xs
AnyOf-map P Q [] f h = h
AnyOf-map P Q (x ∷ xs) f (inl h) = inl (f x h)
AnyOf-map P Q (x ∷ xs) f (inr h) = inr (AnyOf-map P Q xs f h)

pub AnyOf-none : {A : Type 0} {P : A → Type 0} (xs : List A) → ((x : A) → P x → ⊥) → AnyOf P xs → ⊥
AnyOf-none [] f h = h
AnyOf-none (x ∷ xs) f (inl h) = f x h
AnyOf-none (x ∷ xs) f (inr h) = AnyOf-none xs f h

-- The first of the variables with a value that is used.
abbrev pub first_used : (Text → Bool) → List Text → Lookup → Option Text
first_used used [] lookup = none
first_used used (name ∷ names) lookup =
    or_rest (used_value used (lookup name)) (first_used used names lookup)

-- Where the field of the merged files comes from.
module _ {A : Type 0} (field : File → Option A) (set : File → Bool) where
  abbrev pub IsFound : {E : Type 0} → File → List (Source E) → Option Origin → Type 0
  IsFound f ss none = field (merged_onto f ss) ≡ field f
  IsFound f ss (some o) =
      AnyOf
        (λ s.
          (o ≡ from_file s.path) × (set s.file ≡ true) × (field (merged_onto f ss) ≡ field s.file))
        ss

module _ {A : Type 0} (field : File → Option A) (set : File → Bool)
    (merges : (f g : File) → field (merge f g) ≡ override (field f) (field g)) where
  field-merge_set : (f g : File) → is_set (field g) ≡ true → field (merge f g) ≡ field g
  unfolding override
  field-merge_set f g h = elim (Option-cases (field g)) [
    | inl e ↦ absurd (let k = rw e at h in cc)
    | inr (a, e) ↦ rw (merges f g, e) refl
  ]

  field-merge_unset : (f g : File) → is_set (field g) ≡ false → field (merge f g) ≡ field f
  unfolding override
  field-merge_unset f g h = elim (Option-cases (field g)) [
    | inl e ↦ rw (merges f g, e) refl
    | inr (a, e) ↦ absurd (let k = rw e at h in cc)
  ]

  IsFound-cons :
      {E : Type 0} (f : File) (s : Source E) (ss : List (Source E)) (o : Option Origin) (b : Bool)
      → set s.file ≡ b
      → is_set (field s.file) ≡ b
      → IsFound field set (merge f s.file) ss o
      → IsFound field set f (s ∷ ss) (or_rest o (when b (from_file s.path)))
  IsFound-cons f s ss (some o) b e k h = inr h
  IsFound-cons f s ss none true e k h = inl (refl, e, h ∙ field-merge_set f s.file k)
  IsFound-cons f s ss none false e k h = h ∙ field-merge_unset f s.file k

  pub stated_in_files-IsFound :
      {E : Type 0} (f : File) (ss : List (Source E))
      → All (λ s. set s.file ≡ is_set (field s.file)) ss
      → IsFound field set f ss (stated_in_files set ss)
  unfolding stated_in_files
  stated_in_files-IsFound f [] h = refl
  stated_in_files-IsFound f (s ∷ ss) h =
      IsFound-cons f s ss (stated_in_files set ss) (set s.file) refl (sym h.0)
        (stated_in_files-IsFound (merge f s.file) ss h.1)

pub first_used-no_lookup :
    (used : Text → Bool) (names : List Text) → first_used used names no_lookup ≡ none
first_used-no_lookup used [] = refl
first_used-no_lookup used (name ∷ names) = first_used-no_lookup used names

-- Where the value of the environment comes from.
module _ (used : Text → Bool) (lookup : Lookup) where
  abbrev pub IsFirst : List Text → Option Origin → Option Text → Type 0
  IsFirst names none u = u ≡ none
  IsFirst names (some o) u =
      (n : Text) × (e : Text) × (o ≡ from_env n)
      × (u ≡ some e)
      × (first_used used names (only n lookup) ≡ some e)

  used_value-only :
      (n name : Text)
      → used_value used (lookup name) ≡ none
      → used_value used (only n lookup name) ≡ none
  used_value-only n name h = elim (Bool-cases (text_eq name n)) [
    | inl e ↦ rw e h
    | inr e ↦ rw e refl
  ]

  IsFirst-cons :
      (name : Text) (names : List Text) (u : Option Text) (o : Option Origin)
      → used_value used (lookup name) ≡ u
      → IsFirst names o (first_used used names lookup)
      → IsFirst
          (name ∷ names)
          (or_rest (env_origin name u) o)
          (or_rest u (first_used used names lookup))
  IsFirst-cons name names (some e) o h k = (name, e, refl, refl, rw (text_eq_refl name, h) refl)
  IsFirst-cons name names none none h k = k
  IsFirst-cons name names none (some o) h (n, e, is_o, found, alone) =
      (n, e, is_o, found, rw (used_value-only n name h) alone)

  pub stated_in_env-IsFirst :
      (names : List Text)
      → IsFirst names (stated_in_env used names lookup) (first_used used names lookup)
  unfolding stated_in_env
  stated_in_env-IsFirst [] = refl
  stated_in_env-IsFirst (name ∷ names) =
      IsFirst-cons name names (used_value used (lookup name)) (stated_in_env used names lookup) refl
        (stated_in_env-IsFirst names)
