-- ===== src/Config/Write/Laws.antt =====
-- What internal/config/write.go makes of a body, over its lines.
use sshakku.Config.Write.{
  is_key_dir_assignment, cons_line, replace_first, assignment_of, with_newline, append_assignment,
  replaced_or_appended, with_key_dir,
}
use sshakku.Config.Write.Replaced.{
  assignment_of-IsAssignment, replace_first-append, replace_first-none, replaced_twice,
}
use sshakku.Prelude.{
  ℕ, Text, codes, newline, ends_with, trim_left, split, join, split-append, split_of_Lacks,
  join-split, Lacks, All-append, List, [], ◌∷◌, ◌++◌, append_assoc, true, Bool-cases, Option, none,
  some, Option-cases, ◌≡◌, ◌≢◌, ◌⊎◌, inl, inr, refl, sym, ap, ◌∙◌, arith,
}

-- An empty line behind lines without an assignment.
replace_first-none_append :
    (a : Text) (lines : List Text)
    → replace_first a lines ≡ none
    → replace_first a (lines ++ [] ∷ []) ≡ none
unfolding replace_first is_key_dir_assignment trim_left
replace_first-none_append a [] h = refl
replace_first-none_append a (line ∷ lines) h = elim (Bool-cases (is_key_dir_assignment line)) [
  | inl e ↦ absurd (let k = rw e at h in cc)
  | inr e ↦ elim (Option-cases (replace_first a lines)) [
    | inl n ↦ rw e (ap (cons_line line) (replace_first-none_append a lines n))
    | inr (ms, n) ↦ absurd (let k = rw (e, n) at h in cc)
  ]
]

with_newline-none :
    (a body : Text)
    → replace_first a (split newline body) ≡ none
    → replace_first a (split newline (with_newline body)) ≡ none
unfolding split
with_newline-none a body h = elim (Bool-cases (ends_with newline body)) [
  | inl e ↦ rw e h
  | inr e ↦
      rw (e, split-append newline body []) (replace_first-none_append a (split newline body) h)
]

split-last : (a : Text) → Lacks newline a → split newline (a ++ newline ∷ []) ≡ a ∷ [] ∷ []
unfolding split
split-last a la = split-append newline a [] ∙ ap (λ ls. ls ++ [] ∷ []) (split_of_Lacks newline a la)

split-append_assignment :
    (a : Text) (c : ℕ) (body : Text)
    → Lacks newline a
    → split newline (append_assignment a (c ∷ body))
      ≡ split newline (with_newline (c ∷ body)) ++ a ∷ [] ∷ []
split-append_assignment a c body la =
    ap (split newline) (append_assoc (with_newline (c ∷ body)) (newline ∷ a) (newline ∷ []))
    ∙ split-append newline (with_newline (c ∷ body)) (a ++ newline ∷ [])
    ∙ ap (λ ls. split newline (with_newline (c ∷ body)) ++ ls) (split-last a la)

module _ (a b : Text) (is_a : is_key_dir_assignment a ≡ true) (la : Lacks newline a)
    (lb : Lacks newline b) (is_b : is_key_dir_assignment b ≡ true) where
  -- A body that an assignment was appended to.
  appended_twice :
      (body : Text)
      → replace_first a (split newline body) ≡ none
      → replace_first b (split newline (append_assignment a body))
        ≡ some (split newline (append_assignment b body))
  unfolding replace_first
  appended_twice [] h =
      ap (replace_first b) (split-last a la)
      ∙ replace_first-append a b is_a [] ([] ∷ []) refl
      ∙ ap (λ ls. some ls) (sym (split-last b lb))
  appended_twice (c ∷ body) h =
      ap (replace_first b) (split-append_assignment a c body la)
      ∙ replace_first-append a b is_a (split newline (with_newline (c ∷ body))) ([] ∷ [])
          (with_newline-none a (c ∷ body) h)
      ∙ ap (λ ls. some ls) (sym (split-append_assignment b c body lb))

  replaced_or_appended_twice :
      (body : Text) (o : Option (List Text))
      → replace_first a (split newline body) ≡ o
      → replaced_or_appended b
          (replaced_or_appended a body o)
          (replace_first b (split newline (replaced_or_appended a body o)))
        ≡ replaced_or_appended b body (replace_first b (split newline body))
  replaced_or_appended_twice body none h =
      rw (appended_twice body h, replace_first-none a b is_a (split newline body) h)
        (join-split newline (append_assignment b body))
  replaced_or_appended_twice body (some ls) h =
      rw (replaced_twice a b is_a la lb body ls h)
        (same (Option-cases (replace_first b (split newline body))))
    where
      same :
          (replace_first b (split newline body) ≡ none)
            ⊎ ((ms : List Text) × (replace_first b (split newline body) ≡ some ms))
          → replaced_or_appended b (join newline ls) (replace_first b (split newline body))
            ≡ replaced_or_appended b body (replace_first b (split newline body))
      same (inl n) = absurd (let k = replace_first-none b a is_b (split newline body) n in cc)
      same (inr (ms, e)) = rw e refl

key_dir_lead : Lacks newline (codes "key_dir = ")
key_dir_lead = (
  omega arith,
  (
    omega arith,
    (
      omega arith,
      (
        omega arith,
        (
          omega arith,
          (omega arith, (omega arith, (omega arith, (omega arith, (omega arith, tt))))),
        ),
      ),
    ),
  ),
)

-- Of two directories that are written into a body one after the other, only the second counts: the
-- result is what writing the second alone makes of the body, whether there was an assignment to
-- replace or none. Neither directory has a line end in it when it is quoted.
pub with_key_dir-with_key_dir :
    (quote : Text → Text) (body d e : Text)
    → Lacks newline (quote d)
    → Lacks newline (quote e)
    → with_key_dir quote (with_key_dir quote body d) e ≡ with_key_dir quote body e
unfolding with_key_dir
with_key_dir-with_key_dir quote body d e ld le =
    replaced_or_appended_twice (assignment_of quote d) (assignment_of quote e)
      (assignment_of-IsAssignment quote d)
      (All-append (λ c. c ≢ newline) (codes "key_dir = ") (quote d) key_dir_lead ld)
      (All-append (λ c. c ≢ newline) (codes "key_dir = ") (quote e) key_dir_lead le)
      (assignment_of-IsAssignment quote e) body
      (replace_first (assignment_of quote d) (split newline body)) refl
