-- ===== src/Config/Truth/Refusals.antt =====
-- Which refusal internal/config/provenance.go finds for a setting among those of Resolve.
use sshakku.Config.Durations.{Problem}
use sshakku.Config.Provenance.{or_rest, refusal_of}
use sshakku.Config.Settings.{SettingError, refused, refuse_each}
use sshakku.Prelude.{
  Text, text_eq, List, [], ◌∷◌, ◌++◌, Bool-cases, Option, none, some, if◌then◌else◌, ◌≡◌, inl, inr,
  refl, sym, ◌∙◌,
}

pub or_rest-none : {A : Type 0} (o : Option A) → or_rest o none ≡ o
or_rest-none none = refl
or_rest-none (some a) = refl

or_rest_assoc : {A : Type 0} (a b c : Option A) → or_rest (or_rest a b) c ≡ or_rest a (or_rest b c)
or_rest_assoc none b c = refl
or_rest_assoc (some a) b c = refl

module _ {E : Type 0} where
  -- The problem that stands beside a name.
  abbrev pub find_problem : List (Text × Option (Problem E)) → Text → Option (Problem E)
  find_problem [] name = none
  find_problem ((n, o) ∷ rest) name =
      if text_eq n name then or_rest o (find_problem rest name) else find_problem rest name

  refusal_of-append :
      (errs : List (SettingError E)) (n : Text) (p : Problem E) (name : Text)
      → refusal_of (errs ++ (n, p) ∷ []) name
        ≡ or_rest (refusal_of errs name) (if text_eq n name then some p else none)
  unfolding refusal_of
  refusal_of-append [] n p name = refl
  refusal_of-append ((m, q) ∷ errs) n p name = elim (Bool-cases (text_eq m name)) [
    | inl e ↦ rw e refl
    | inr e ↦ rw e (refusal_of-append errs n p name)
  ]

  refusal_of-refused :
      (errs : List (SettingError E)) (n : Text) (o : Option (Problem E)) (name : Text)
      → refusal_of (refused errs n o) name
        ≡ or_rest (refusal_of errs name) (if text_eq n name then o else none)
  unfolding refused
  refusal_of-refused errs n none name = elim (Bool-cases (text_eq n name)) [
    | inl e ↦ rw e (sym (or_rest-none (refusal_of errs name)))
    | inr e ↦ rw e (sym (or_rest-none (refusal_of errs name)))
  ]
  refusal_of-refused errs n (some p) name = refusal_of-append errs n p name

  -- The refusals of Resolve are looked up by the first problem of the setting.
  pub refusal_of-refuse_each :
      (errs : List (SettingError E)) (problems : List (Text × Option (Problem E))) (name : Text)
      → refusal_of (refuse_each errs problems) name
        ≡ or_rest (refusal_of errs name) (find_problem problems name)
  unfolding refuse_each
  refusal_of-refuse_each errs [] name = sym (or_rest-none (refusal_of errs name))
  refusal_of-refuse_each errs ((n, o) ∷ rest) name =
      refusal_of-refuse_each (refused errs n o) rest name ∙ elim (Bool-cases (text_eq n name)) [
        | inl e ↦
            rw (refusal_of-refused errs n o name, e) (or_rest_assoc (refusal_of errs name) o _)
        | inr e ↦ rw (refusal_of-refused errs n o name, e, or_rest-none (refusal_of errs name)) refl
      ]
