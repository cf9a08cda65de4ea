-- ===== src/Config/Write/Replaced.antt =====
-- The lines of a body whose first assignment was replaced (internal/config/write.go).
use sshakku.Config.Write.{is_key_dir_assignment, cons_line, replace_first, assignment_of}
use mathlib.Core.Path.{subst}
use sshakku.Prelude.{
  Text, newline, trim_left, split, join, split-join, split-Lacks, Lacks, All, List, [], ◌∷◌, ◌++◌,
  true, Bool-cases, none, some, Option-cases, ◌≡◌, inl, inr, refl, sym, ap, ◌∙◌,
}

pub assignment_of-IsAssignment :
    (quote : Text → Text) (dir : Text) → is_key_dir_assignment (assignment_of quote dir) ≡ true
unfolding is_key_dir_assignment trim_left
assignment_of-IsAssignment quote dir = refl

module _ (a b : Text) (is_a : is_key_dir_assignment a ≡ true) where
  -- An assignment that replaced the first one is replaced itself.
  pub replace_first-replace_first :
      (lines ls : List Text)
      → replace_first a lines ≡ some ls
      → replace_first b ls ≡ replace_first b lines
  unfolding replace_first
  replace_first-replace_first [] ls h = cc
  replace_first-replace_first (line ∷ lines) ls h = elim (Bool-cases (is_key_dir_assignment line)) [
    | inl e ↦ let same : a ∷ lines ≡ ls = (let k = rw e at h in cc) in rw (← same, is_a, e) refl
    | inr e ↦ elim (Option-cases (replace_first a lines)) [
      | inl n ↦ absurd (let k = rw (e, n) at h in cc)
      | inr (ms, n) ↦
          let same : line ∷ ms ≡ ls = (let k = rw (e, n) at h in cc) in
          rw (← same, e) (ap (cons_line line) (replace_first-replace_first lines ms n))
    ]
  ]

  -- Where there is none, the one behind is the first.
  pub replace_first-append :
      (lines tail : List Text)
      → replace_first a lines ≡ none
      → replace_first b (lines ++ a ∷ tail) ≡ some (lines ++ b ∷ tail)
  unfolding replace_first
  replace_first-append [] tail h = rw is_a refl
  replace_first-append (line ∷ lines) tail h = elim (Bool-cases (is_key_dir_assignment line)) [
    | inl e ↦ absurd (let k = rw e at h in cc)
    | inr e ↦ elim (Option-cases (replace_first a lines)) [
      | inl n ↦ rw e (ap (cons_line line) (replace_first-append lines tail n))
      | inr (ms, n) ↦ absurd (let k = rw (e, n) at h in cc)
    ]
  ]

  -- Where there is none, there is none for another value either.
  pub replace_first-none :
      (lines : List Text) → replace_first a lines ≡ none → replace_first b lines ≡ none
  unfolding replace_first
  replace_first-none [] h = refl
  replace_first-none (line ∷ lines) h = elim (Bool-cases (is_key_dir_assignment line)) [
    | inl e ↦ absurd (let k = rw e at h in cc)
    | inr e ↦ elim (Option-cases (replace_first a lines)) [
      | inl n ↦ rw e (ap (cons_line line) (replace_first-none lines n))
      | inr (ms, n) ↦ absurd (let k = rw (e, n) at h in cc)
    ]
  ]

-- The lines with an assignment in them are lines.
replace_first-Lacks :
    (a : Text) (lines ls : List Text)
    → Lacks newline a
    → All (Lacks newline) lines
    → replace_first a lines ≡ some ls
    → (l : Text) × (rest : List Text) × (ls ≡ l ∷ rest) × All (Lacks newline) ls
unfolding replace_first
replace_first-Lacks a [] ls la h r = cc
replace_first-Lacks a (line ∷ lines) ls la h r = elim (Bool-cases (is_key_dir_assignment line)) [
  | inl e ↦
      let same : a ∷ lines ≡ ls = (let k = rw e at r in cc) in
      (a, lines, sym same, rw (← same) (la, h.1))
  | inr e ↦ elim (Option-cases (replace_first a lines)) [
    | inl n ↦ absurd (let k = rw (e, n) at r in cc)
    | inr (ms, n) ↦
        let same : line ∷ ms ≡ ls = (let k = rw (e, n) at r in cc) in
        let (m, rest, is_ms, inner) = replace_first-Lacks a lines ms la h.1 n in
        (line, ms, sym same, rw (← same) (h.0, inner))
  ]
]

module _ (a b : Text) (is_a : is_key_dir_assignment a ≡ true) (la : Lacks newline a)
    (lb : Lacks newline b) where
  -- A body whose first assignment was replaced.
  pub replaced_twice :
      (body : Text) (ls : List Text)
      → replace_first a (split newline body) ≡ some ls
      → replace_first b (split newline (join newline ls)) ≡ replace_first b (split newline body)
  replaced_twice body ls h =
      let (l, rest, is_ls, lacks) =
        replace_first-Lacks a (split newline body) ls la (split-Lacks newline body) h in
      ap (replace_first b) (lines_back l rest is_ls lacks)
      ∙ replace_first-replace_first a b is_a (split newline body) ls h
    where
      lines_back :
          (l : Text) (rest : List Text)
          → ls ≡ l ∷ rest
          → All (Lacks newline) ls
          → split newline (join newline ls) ≡ ls
      lines_back l rest is_ls lacks =
          rw is_ls (split-join newline l rest (subst (All (Lacks newline)) is_ls lacks))
