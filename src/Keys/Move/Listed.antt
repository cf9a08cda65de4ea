-- ===== src/Keys/Move/Listed.antt =====
-- What the result of a failed Apply of move.go lists.
use sshakku.Prelude.{
  Text, List, [], ◌∷◌, ◌++◌, Option, some, Option-cases, ◌≡◌, refl, ap, ◌∙◌, sym, inl, inr,
  append_assoc, append-nil,
}
use sshakku.Keys.Move.{
  Move, Plan, Kind, Result, move_failed, fail_rename, fail_permit, apply_from, apply,
}
use sshakku.Keys.Move.Outcome.{destinations}
use sshakku.Keys.Move.PutBack.{Disk, IsFree, apply-RolledBack}

module _ {W E : Type 0} (rename : Text → Text → W → Option E × W)
    (permit : Text → Kind → W → Option E × W) where
  -- The moves before the one that failed, whose destinations the result lists.
  abbrev pub ListsMade : List Text → List Move → Text → Result → Type 0
  ListsMade moved ms from r =
      (before : List Move) × (n : Move) × (after : List Move) × (ms ≡ before ++ n ∷ after)
      × (n.from ≡ from)
      × (r.moved ≡ moved ++ destinations before)

  fail_rename-ListsMade :
      (m : Move) (ms done : List Move) (moved : List Text) (c : E) (w : W) (from : Text) (e : E)
      → (fail_rename rename done moved m.from c w).1 ≡ some (move_failed from e)
      → ListsMade moved (m ∷ ms) from (fail_rename rename done moved m.from c w).0
  unfolding fail_rename
  fail_rename-ListsMade m ms done moved c w from e h = ([], m, ms, refl, cc, sym (append-nil moved))

  fail_permit-ListsMade :
      (ms done : List Move) (moved : List Text) (to : Text) (c : E) (w : W) (from : Text) (e : E)
      → (fail_permit rename done to c w).1 ≡ some (move_failed from e)
      → ListsMade moved ms from (fail_permit rename done to c w).0
  unfolding fail_permit
  fail_permit-ListsMade ms done moved to c w from e h = absurd cc

  apply_from-ListsMade :
      (ms done : List Move) (moved : List Text) (w : W) (from : Text) (e : E)
      → (apply_from rename permit ms done moved w).1 ≡ some (move_failed from e)
      → ListsMade moved ms from (apply_from rename permit ms done moved w).0
  unfolding apply_from
  apply_from-ListsMade [] done moved w from e = λ h. absurd cc
  apply_from-ListsMade (m ∷ ms) done moved w from e = elim (Option-cases (rename m.from m.to w).0) [
    | inr (c, p) ↦
        rw (p, apply_from) (fail_rename-ListsMade m ms done moved c (rename m.from m.to w).1 from e)
    | inl p ↦
        let w' = (rename m.from m.to w).1 in
        let w'' = (permit m.to m.kind w').1 in
        rw (p, apply_from)
          (elim (Option-cases (permit m.to m.kind w').0) [
            | inr (c, q) ↦
                rw (q, apply_from)
                  (fail_permit-ListsMade (m ∷ ms) (done ++ m ∷ []) moved m.to c w'' from e)
            | inl q ↦
                rw (q, apply_from)
                  (λ h.
                    let (before, n, after, split_at, is_from, listed) =
                      apply_from-ListsMade ms (done ++ m ∷ []) (moved ++ m.to ∷ []) w'' from e h in
                    (
                      m ∷ before,
                      n,
                      after,
                      ap (λ (l : List Move). m ∷ l) split_at,
                      is_from,
                      listed ∙ append_assoc moved (m.to ∷ []) (destinations before),
                    ))
          ])
  ]

  -- On a file system as Disk describes it, where no destination was taken: a run that fails because a
  -- file could not be moved, and strands none, has left every path as it was, though the files before
  -- that one in the plan are all listed as moved.
  pub apply_lists_put_back :
      {C : Type 0} (d : Disk C rename permit) (p : Plan) (w : W) (from : Text) (e : E)
      → IsFree (d.view w) p.moves
      → (apply rename permit p w).1 ≡ some (move_failed from e)
      → (apply rename permit p w).0.stranded ≡ []
      → (d.view (apply rename permit p w).2 ≡ d.view w)
        × ListsMade [] p.moves from (apply rename permit p w).0
  unfolding apply
  apply_lists_put_back d p w from e free failed nothing = (
    apply-RolledBack rename permit d p w free (λ n. cc) nothing,
    apply_from-ListsMade p.moves [] [] w from e failed,
  )
