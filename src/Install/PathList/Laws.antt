-- ===== src/Install/PathList/Laws.antt =====
-- What Add and Remove of pathlist.go do to the entries of a list.
use sshakku.Prelude.{
  ℕ, ◌<◌, ◌≤◌, Text, text_eq_iff, split, split-append, split-Lacks, split-join, split_of_Lacks,
  join, join-split, trim_space, ends_with, Lacks, All, ◌==◌, ==_iff, List, [], ◌∷◌, ◌++◌, true,
  false, Bool-cases, ◌||◌, length, length-append, ◌≡◌, ◌≢◌, refl, ap, ◌∙◌, inl, inr, arith,
  append-nil, append_assoc,
}
use sshakku.Install.PathList.{PathList, same, any_same, has, add, others, remove}

ends_with-append : (c : ℕ) (s : Text) → ends_with c s ≡ true → (r : Text) × (s ≡ r ++ c ∷ [])
ends_with-append c [] h = cc
ends_with-append c (x ∷ []) h = ([], ground arith)
ends_with-append c (x ∷ y ∷ r) h =
    let (r', e) = ends_with-append c (y ∷ r) h in (x ∷ r', ap (λ (t : Text). x ∷ t) e)

module _ (l : PathList) where
  any_same-append :
      (xs ys : List Text) (dir : Text)
      → any_same l (xs ++ ys) dir ≡ (any_same l xs dir || any_same l ys dir)
  unfolding any_same
  any_same-append [] ys dir = refl
  any_same-append (x ∷ xs) ys dir = ground (arith, any_same-append xs ys dir)

  any_same-others : (es : List Text) (dir : Text) → any_same l (others l es dir) dir ≡ false
  unfolding any_same others
  any_same-others [] dir = refl
  any_same-others (e ∷ es) dir = ground (arith, any_same-others es dir)

  -- A list that does not name the directory is kept whole.
  others_of_absent :
      (es : List Text) (dir : Text) → any_same l es dir ≡ false → others l es dir ≡ es
  unfolding any_same others
  others_of_absent [] dir h = refl
  others_of_absent (e ∷ es) dir h = ground (arith, others_of_absent es dir)

  others-append :
      (xs ys : List Text) (dir : Text)
      → others l (xs ++ ys) dir ≡ others l xs dir ++ others l ys dir
  unfolding others
  others-append [] ys dir = refl
  others-append (x ∷ xs) ys dir = ground (arith, others-append xs ys dir)

  length-others-le : (es : List Text) (dir : Text) → length (others l es dir) ≤ length es
  unfolding others
  length-others-le [] dir = omega arith
  length-others-le (e ∷ es) dir = ground (arith, length-others-le es dir)

  length-others-lt :
      (es : List Text) (dir : Text)
      → any_same l es dir ≡ true
      → length (others l es dir) < length es
  unfolding any_same others
  length-others-lt [] dir h = cc
  length-others-lt (e ∷ es) dir h = ground (arith, length-others-lt es dir, length-others-le es dir)

  -- A directory added to a list that ends in the separator takes the empty entry's place.
  split-added :
      (raw dir : Text)
      → Lacks l.separator dir
      → ends_with l.separator raw ≡ true
      → (old : List Text) × (split l.separator raw ≡ old ++ [] ∷ [])
        × (split l.separator (raw ++ dir) ≡ old ++ dir ∷ [])
  split-added raw dir k h =
      let (r, e) = ends_with-append l.separator raw h in
      (
        split l.separator r,
        ap (split l.separator) e ∙ split-append l.separator r [] ∙ unfold split in refl,
        ap (λ (t : Text). split l.separator (t ++ dir)) e
            ∙ ap (split l.separator) (append_assoc r (l.separator ∷ []) dir)
            ∙ split-append l.separator r dir
            ∙ rw (split_of_Lacks l.separator dir k),
      )

  any_same_last :
      (old : List Text) (dir : Text)
      → same l dir dir ≡ true
      → any_same l (old ++ dir ∷ []) dir ≡ true
  unfolding any_same
  any_same_last [] dir h = rw h
  any_same_last (e ∷ old) dir h = ground (arith, any_same_last old dir h)

  has_of_entry :
      (old : List Text) (raw dir : Text)
      → same l dir dir ≡ true
      → split l.separator raw ≡ old ++ dir ∷ []
      → has l raw dir ≡ true
  unfolding has
  has_of_entry old raw dir s e =
      ap (λ (es : List Text). any_same l es dir) e ∙ any_same_last old dir s

  has_added_alone :
      (dir : Text) → Lacks l.separator dir → same l dir dir ≡ true → has l dir dir ≡ true
  has_added_alone dir k s = has_of_entry [] dir dir s (split_of_Lacks l.separator dir k)

  has_added_behind :
      (raw dir : Text)
      → Lacks l.separator dir
      → same l dir dir ≡ true
      → has l (raw ++ l.separator ∷ dir) dir ≡ true
  has_added_behind raw dir k s =
      has_of_entry (split l.separator raw) _ dir s
        (split-append l.separator raw dir ∙ rw (split_of_Lacks l.separator dir k))

  has_added_at_end :
      (raw dir : Text)
      → Lacks l.separator dir
      → same l dir dir ≡ true
      → ends_with l.separator raw ≡ true
      → has l (raw ++ dir) dir ≡ true
  has_added_at_end raw dir k s h =
      let (old, before, after) = split-added raw dir k h in has_of_entry old _ dir s after

  -- A non-empty directory without the separator in it, which the comparison finds equal to itself,
  -- is in the list once it was added.
  pub has-add :
      (raw dir : Text)
      → dir ≢ []
      → Lacks l.separator dir
      → same l dir dir ≡ true
      → has l (add l raw dir).0 dir ≡ true
  unfolding add
  has-add raw dir n k s = ground (
    arith,
    text_eq_iff dir [],
    has_added_alone dir k s,
    has_added_behind raw dir k s,
    has_added_at_end raw dir k s,
  )

  add_of_has : (raw dir : Text) → has l raw dir ≡ true → add l raw dir ≡ (raw, false)
  unfolding add
  add_of_has raw dir h = ground arith

  -- Adding such a directory a second time changes nothing, and says so: one that is non-empty, has
  -- no separator in it, and is found equal to itself.
  pub add-add :
      (raw dir : Text)
      → dir ≢ []
      → Lacks l.separator dir
      → same l dir dir ≡ true
      → add l (add l raw dir).0 dir ≡ ((add l raw dir).0, false)
  add-add raw dir n k s = add_of_has (add l raw dir).0 dir (has-add raw dir n k s)

  others-All {κ} :
      (P : Text → Type κ) (es : List Text) (dir : Text) → All P es → All P (others l es dir)
  unfolding others
  others-All P [] dir h = tt
  others-All P (e ∷ es) dir h = elim (Bool-cases (same l e dir)) [
    | inl q ↦ rw q (others-All P es dir h.1)
    | inr q ↦ rw q (h.0, others-All P es dir h.1)
  ]

  -- Entries that were joined are read back, but for none at all, which reads as one empty entry.
  has-join :
      (es : List Text) (dir : Text)
      → All (Lacks l.separator) es
      → same l [] dir ≡ false
      → any_same l es dir ≡ false
      → has l (join l.separator es) dir ≡ false
  unfolding has
  has-join [] dir k n h = unfold join split any_same in rw n
  has-join (e ∷ es) dir k n h = rw (split-join l.separator e es k) h

  absent_of_length :
      (es : List Text) (dir : Text)
      → (length (others l es dir) == length es) ≡ true
      → any_same l es dir ≡ false
  absent_of_length es dir h = elim (Bool-cases (any_same l es dir)) [
    | inl q ↦ absurd (omega (arith, length-others-lt es dir q, (==_iff _ _).0 h))
    | inr q ↦ q
  ]

  has_nothing : (dir : Text) → same l [] dir ≡ false → has l [] dir ≡ false
  unfolding has split any_same
  has_nothing dir h = rw h

  has_unchanged :
      (raw dir : Text)
      → (length (others l (split l.separator raw) dir) == length (split l.separator raw)) ≡ true
      → has l raw dir ≡ false
  unfolding has
  has_unchanged raw dir h = absent_of_length (split l.separator raw) dir h

  -- A non-empty directory that was removed is not in the list, however often it was there before,
  -- where the comparison does not take an empty entry for it.
  pub has-remove :
      (raw dir : Text) → dir ≢ [] → same l [] dir ≡ false → has l (remove l raw dir).0 dir ≡ false
  unfolding remove
  has-remove raw dir n e = ground (
    arith,
    text_eq_iff dir [],
    text_eq_iff raw [],
    has_nothing dir e,
    has_unchanged raw dir,
    has-join (others l (split l.separator raw) dir) dir
        (others-All (Lacks l.separator) (split l.separator raw) dir (split-Lacks l.separator raw)) e
        (any_same-others (split l.separator raw) dir),
  )

  others_last :
      (old : List Text) (dir : Text)
      → same l dir dir ≡ true
      → any_same l old dir ≡ false
      → others l (old ++ dir ∷ []) dir ≡ old
  unfolding others
  others_last old dir s a =
      others-append old (dir ∷ []) dir ∙ rw (others_of_absent old dir a) (rw s (append-nil old))

  remove_last :
      (old : List Text) (raw dir : Text)
      → dir ≢ []
      → raw ≢ []
      → same l dir dir ≡ true
      → any_same l old dir ≡ false
      → split l.separator raw ≡ old ++ dir ∷ []
      → remove l raw dir ≡ (join l.separator old, true)
  unfolding remove
  remove_last old raw dir n r s a e =
      rw (e, others_last old dir s a)
        (ground (arith, text_eq_iff dir [], text_eq_iff raw [], length-append old (dir ∷ [])))

  behind-ne-nil : (raw : Text) (c : ℕ) (dir : Text) → raw ++ c ∷ dir ≢ []
  behind-ne-nil [] c dir h = cc
  behind-ne-nil (x ∷ raw) c dir h = cc

  -- Removing a directory from the list that it was added to gives back the list character for
  -- character, where that did not name it, was not blank and did not end in a separator, and the
  -- directory is non-empty, has no separator in it, and is found equal to itself.
  pub remove-add :
      (raw dir : Text)
      → dir ≢ []
      → Lacks l.separator dir
      → same l dir dir ≡ true
      → has l raw dir ≡ false
      → trim_space raw ≢ []
      → ends_with l.separator raw ≡ false
      → remove l (add l raw dir).0 dir ≡ (raw, true)
  unfolding add has
  remove-add raw dir n k s a b t =
      let added =
        remove_last (split l.separator raw) (raw ++ l.separator ∷ dir) dir n
          (behind-ne-nil raw l.separator dir) s a
          (split-append l.separator raw dir ∙ rw (split_of_Lacks l.separator dir k)) in
      ground (
        arith,
        text_eq_iff dir [],
        text_eq_iff (trim_space raw) [],
        added,
        join-split l.separator raw,
      )
