-- ===== src/Install/Hook/Lines.antt =====
-- Lines read from a content and written back: `lines` and `write_lines` of hookfile.go, and the
-- lines that the loops of StripBlock let through.
use sshakku.Prelude.{
  ℕ, Text, newline, split, split-Lacks, trim_last, trim_last-append, Lacks, All, List, [], ◌∷◌,
  ◌++◌, Bool, true, false, Bool-cases, ◌≡◌, ◌≢◌, refl, ap, ◌∙◌, sym, inl, inr, arith, append_assoc,
  join, split-join,
}
use sshakku.Install.Hook.{
  is_marker, next_skipping, keeps, outside_block, is_blank, cons_unless_blank_tail, trim_blank_tail,
  write_lines, lines,
}

pub write_lines-append :
    (xs ys : List Text) → write_lines (xs ++ ys) ≡ write_lines xs ++ write_lines ys
unfolding write_lines
write_lines-append [] ys = refl
write_lines-append (x ∷ xs) ys = simp (write_lines-append xs ys, append_assoc)

-- Written lines are the joined lines with one more newline.
pub write_lines-join :
    (l : Text) (ls : List Text) → write_lines (l ∷ ls) ≡ join newline (l ∷ ls) ++ (newline ∷ [])
unfolding write_lines join
write_lines-join l [] = refl
write_lines-join l (m ∷ ls) =
    rw (write_lines-join m ls)
      (sym (append_assoc l (newline ∷ join newline (m ∷ ls)) (newline ∷ [])))

pub append-cons-ne-nil : (s : Text) (c : ℕ) (t : Text) → s ++ c ∷ t ≢ []
append-cons-ne-nil [] c t h = cc
append-cons-ne-nil (x ∷ s) c t h = cc

lines_of_ne_nil : (t : Text) → t ≢ [] → lines t ≡ split newline (trim_last newline t)
unfolding lines
lines_of_ne_nil [] h = absurd (h refl)
lines_of_ne_nil (c ∷ t) h = refl

-- What is written from lines is read back as those lines.
pub lines-write_lines : (ls : List Text) → All (Lacks newline) ls → lines (write_lines ls) ≡ ls
lines-write_lines [] h = unfold write_lines lines in refl
lines-write_lines (l ∷ ls) h = rw write_lines-join (
    lines_of_ne_nil _ (append-cons-ne-nil (join newline (l ∷ ls)) newline [])
    ∙ rw trim_last-append (split-join newline l ls h))

pub lines-Lacks : (t : Text) → All (Lacks newline) (lines t)
unfolding lines
lines-Lacks [] = tt
lines-Lacks (c ∷ t) = split-Lacks newline (trim_last newline (c ∷ t))

-- The value of `skipping` behind some lines.
abbrev pub skipping_after : Bool → List Text → Bool
skipping_after skipping [] = skipping
skipping_after skipping (l ∷ ls) = skipping_after (next_skipping skipping l) ls

pub outside_block-append :
    (b : Bool) (xs ys : List Text)
    → outside_block b (xs ++ ys) ≡ outside_block b xs ++ outside_block (skipping_after b xs) ys
unfolding outside_block
outside_block-append b [] ys = refl
outside_block-append b (x ∷ xs) ys = elim (Bool-cases (keeps b x)) [
  | inl e ↦ rw e (ap (λ (r : List Text). x ∷ r) (outside_block-append (next_skipping b x) xs ys))
  | inr e ↦ rw e (outside_block-append (next_skipping b x) xs ys)
]

-- The line is neither marker.
abbrev pub IsOrdinary : Text → Type 0
IsOrdinary line = is_marker line ≡ false

-- No marker is kept.
pub outside_block-IsOrdinary : (b : Bool) (ls : List Text) → All IsOrdinary (outside_block b ls)
unfolding outside_block
outside_block-IsOrdinary b [] = tt
outside_block-IsOrdinary b (l ∷ ls) = elim (Bool-cases (keeps b l)) [
  | inl e ↦ rw e (ground arith, outside_block-IsOrdinary (next_skipping b l) ls)
  | inr e ↦ rw e (outside_block-IsOrdinary (next_skipping b l) ls)
]

-- What is kept is kept line by line: a property of every line holds of the lines kept.
pub outside_block-All {κ} :
    (P : Text → Type κ) (b : Bool) (ls : List Text) → All P ls → All P (outside_block b ls)
unfolding outside_block
outside_block-All P b [] h = tt
outside_block-All P b (l ∷ ls) h = elim (Bool-cases (keeps b l)) [
  | inl e ↦ rw e (h.0, outside_block-All P (next_skipping b l) ls h.1)
  | inr e ↦ rw e (outside_block-All P (next_skipping b l) ls h.1)
]

next_skipping_of_IsOrdinary : (b : Bool) (l : Text) → IsOrdinary l → next_skipping b l ≡ b
next_skipping_of_IsOrdinary b l h = ground arith

-- Lines that are no markers all stay where nothing is being skipped.
pub outside_block_of_IsOrdinary :
    (ls : List Text)
    → All IsOrdinary ls
    → (outside_block false ls ≡ ls) × (skipping_after false ls ≡ false)
unfolding outside_block
outside_block_of_IsOrdinary [] h = (refl, refl)
outside_block_of_IsOrdinary (l ∷ ls) h =
    rw (next_skipping_of_IsOrdinary false l h.0)
      (rw (h.0) (ground (arith, outside_block_of_IsOrdinary ls h.1)))

cons_unless_blank_tail-All {κ} :
    (P : Text → Type κ) (l : Text) (ls : List Text)
    → P l
    → All P ls
    → All P (cons_unless_blank_tail l ls)
cons_unless_blank_tail-All P l [] p h = elim (Bool-cases (is_blank l)) [
  | inl e ↦ rw e tt
  | inr e ↦ rw e (p, tt)
]
cons_unless_blank_tail-All P l (m ∷ ls) p h = (p, h)

pub trim_blank_tail-All {κ} :
    (P : Text → Type κ) (ls : List Text) → All P ls → All P (trim_blank_tail ls)
unfolding trim_blank_tail
trim_blank_tail-All P [] h = tt
trim_blank_tail-All P (l ∷ ls) h =
    cons_unless_blank_tail-All P l (trim_blank_tail ls) h.0 (trim_blank_tail-All P ls h.1)

-- A blank line more at the end makes no difference.
pub trim_blank_tail-append_blank :
    (ls : List Text) (l : Text)
    → is_blank l ≡ true
    → trim_blank_tail (ls ++ l ∷ []) ≡ trim_blank_tail ls
unfolding trim_blank_tail
trim_blank_tail-append_blank [] l h = rw h
trim_blank_tail-append_blank (x ∷ xs) l h =
    ap (cons_unless_blank_tail x) (trim_blank_tail-append_blank xs l h)

trim_blank_tail-cons_unless_blank_tail :
    (l : Text) (ls : List Text)
    → trim_blank_tail ls ≡ ls
    → trim_blank_tail (cons_unless_blank_tail l ls) ≡ cons_unless_blank_tail l ls
unfolding trim_blank_tail
trim_blank_tail-cons_unless_blank_tail l [] h = elim (Bool-cases (is_blank l)) [
  | inl e ↦ rw e
  | inr e ↦ rw e (rw e)
]
trim_blank_tail-cons_unless_blank_tail l (m ∷ ls) h = ap (cons_unless_blank_tail l) h

pub trim_blank_tail_idem :
    (ls : List Text) → trim_blank_tail (trim_blank_tail ls) ≡ trim_blank_tail ls
unfolding trim_blank_tail
trim_blank_tail_idem [] = refl
trim_blank_tail_idem (l ∷ ls) =
    trim_blank_tail-cons_unless_blank_tail l (trim_blank_tail ls) (trim_blank_tail_idem ls)
