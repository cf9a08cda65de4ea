-- ===== src/Prelude/Lines.antt =====
-- The laws of splitting text at a separator and of joining it again.
use Prim.Native.Nat.{ℕ}
use mathlib.Core.Path.{◌≡◌, refl, ap, ◌∙◌}
use mathlib.Core.Logic.{◌≢◌, inl, inr}
use mathlib.Core.List.{List, [], ◌∷◌, ◌++◌}
use native.Mathlib.Omega.{arith}
use sshakku.Prelude.Tests.{◌==◌, ==_iff, Bool-cases, All}
use sshakku.Prelude.Texts.{Text, push, split, join, trim_last, Lacks}

module _ (sep : ℕ) where
  pub split-ne-nil : (s : Text) → split sep s ≢ []
  unfolding split
  split-ne-nil [] h = cc
  split-ne-nil (c ∷ s) h = ground (arith, split-ne-nil s)

  -- The text before a separator and the text behind it are split apart from one another.
  pub split-append : (s t : Text) → split sep (s ++ sep ∷ t) ≡ split sep s ++ split sep t
  unfolding split
  split-append [] t = ground arith
  split-append (c ∷ s) t = ground (arith, split-append s t, split-ne-nil s)

  pub split_of_Lacks : (s : Text) → Lacks sep s → split sep s ≡ s ∷ []
  unfolding split
  split_of_Lacks [] h = refl
  split_of_Lacks (c ∷ s) h = ground (arith, split_of_Lacks s h.1)

  -- Text that was joined from lines comes apart into them.
  pub split-join :
      (l : Text) (ls : List Text)
      → All (Lacks sep) (l ∷ ls)
      → split sep (join sep (l ∷ ls)) ≡ l ∷ ls
  unfolding join
  split-join l [] h = split_of_Lacks l h.0
  split-join l (m ∷ ls) h =
      split-append l (join sep (m ∷ ls)) ∙ cc (split_of_Lacks l h.0, split-join m ls h.1)

  join-push : (c : ℕ) (ls : List Text) → ls ≢ [] → join sep (push c ls) ≡ c ∷ join sep ls
  unfolding join
  join-push c [] h = absurd (h refl)
  join-push c (l ∷ []) h = refl
  join-push c (l ∷ m ∷ ls) h = refl

  join-cons_nil : (ls : List Text) → ls ≢ [] → join sep ([] ∷ ls) ≡ sep ∷ join sep ls
  unfolding join
  join-cons_nil [] h = absurd (h refl)
  join-cons_nil (m ∷ ls) h = refl

  -- Splitting loses nothing.
  pub join-split : (s : Text) → join sep (split sep s) ≡ s
  unfolding split
  join-split [] = unfold join in refl
  join-split (c ∷ s) = elim (Bool-cases (c == sep)) [
    | inl e ↦
        rw e (join-cons_nil (split sep s) (split-ne-nil s) ∙ cc (join-split s, (==_iff c sep).0 e))
    | inr e ↦ rw e (join-push c (split sep s) (split-ne-nil s) ∙ cc (join-split s))
  ]

  push-Lacks : (c : ℕ) (ls : List Text) → c ≢ sep → All (Lacks sep) ls → All (Lacks sep) (push c ls)
  push-Lacks c [] h k = ((h, tt), tt)
  push-Lacks c (l ∷ ls) h k = ((h, k.0), k.1)

  -- No line of a split text has the separator in it.
  pub split-Lacks : (s : Text) → All (Lacks sep) (split sep s)
  unfolding split
  split-Lacks [] = (tt, tt)
  split-Lacks (c ∷ s) = elim (Bool-cases (c == sep)) [
    | inl e ↦ rw e (tt, split-Lacks s)
    | inr e ↦ rw e (push-Lacks c (split sep s) (λ p. ground arith) (split-Lacks s))
  ]

pub trim_last-append : (c : ℕ) (s : Text) → trim_last c (s ++ c ∷ []) ≡ s
unfolding trim_last
trim_last-append c [] = ground arith
trim_last-append c (x ∷ []) = ap (λ (r : Text). x ∷ r) (trim_last-append c [])
trim_last-append c (x ∷ y ∷ r) = ap (λ (t : Text). x ∷ t) (trim_last-append c (y ∷ r))

pub trim_last-Lacks : (sep c : ℕ) (s : Text) → Lacks sep s → Lacks sep (trim_last c s)
unfolding trim_last
trim_last-Lacks sep c [] h = h
trim_last-Lacks sep c (x ∷ []) h = elim (Bool-cases (x == c)) [ inl e ↦ rw e tt | inr e ↦ rw e h ]
trim_last-Lacks sep c (x ∷ y ∷ r) h = (h.0, trim_last-Lacks sep c (y ∷ r) h.1)
