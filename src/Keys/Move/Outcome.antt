-- ===== src/Keys/Move/Outcome.antt =====
-- What Apply of move.go reports and does where it succeeds, and what Blocked tells of a plan.
use sshakku.Prelude.{
  Text, List, [], ◌∷◌, ◌++◌, Bool, false, Bool-cases, Option, none, Option-cases, map, All, All-map,
  ◌≡◌, ◌≢◌, refl, ap, ◌∙◌, sym, inl, inr, append_assoc, append-nil,
}
use sshakku.Keys.Move.{
  Move, Plan, Kind, Result, Failure, taken_of, blocked, fail_rename, fail_permit, apply_from, apply,
}
use sshakku.Keys.Move.PutBack.{View, renamed, Disk, IsFree}

abbrev pub destinations : List Move → List Text
destinations = map (λ m. m.to)

-- The view after every move, in order.
abbrev pub all_renamed : {C : Type 0} → List Move → View C → View C
all_renamed [] v = v
all_renamed (m ∷ ms) v = all_renamed ms (renamed m.from m.to v)

module _ {W E C : Type 0} (rename : Text → Text → W → Option E × W) where
  module _ (permit : Text → Kind → W → Option E × W) (d : Disk C rename permit) where
    open d use {view, rename_moves, permit_keeps}

    abbrev Completes : List Move → List Text → W → Result × Option (Failure E) × W → Type 0
    Completes ms moved w r =
        r.1 ≡ none
        → (r.0.moved ≡ moved ++ destinations ms)
          × (r.0.stranded ≡ [])
          × (view r.2 ≡ all_renamed ms (view w))

    fail_rename-Completes :
        (ms done : List Move) (moved given : List Text) (from : Text) (e : E) (w w' : W)
        → Completes ms moved w (fail_rename rename done given from e w')
    unfolding fail_rename
    fail_rename-Completes ms done moved given from e w w' h = cc

    fail_permit-Completes :
        (ms done : List Move) (moved : List Text) (to : Text) (e : E) (w w' : W)
        → Completes ms moved w (fail_permit rename done to e w')
    unfolding fail_permit
    fail_permit-Completes ms done moved to e w w' h = cc

    apply_from-Completes :
        (ms done : List Move) (moved : List Text) (w : W)
        → Completes ms moved w (apply_from rename permit ms done moved w)
    unfolding apply_from
    apply_from-Completes [] done moved w = λ h. (sym (append-nil moved), refl, refl)
    apply_from-Completes (m ∷ ms) done moved w = elim (Option-cases (rename m.from m.to w).0) [
      | inr (e, p) ↦
          rw (p, apply_from) (fail_rename-Completes (m ∷ ms) done moved moved m.from e w _)
      | inl p ↦
          let w' = (rename m.from m.to w).1 in
          let w'' = (permit m.to m.kind w').1 in
          rw (p, apply_from)
            (elim (Option-cases (permit m.to m.kind w').0) [
              | inr (e, q) ↦
                  rw (q, apply_from)
                    (fail_permit-Completes (m ∷ ms) (done ++ m ∷ []) moved m.to e w w'')
              | inl q ↦
                  rw (q, apply_from)
                    (λ h.
                      let (all, nothing, after) =
                        apply_from-Completes ms (done ++ m ∷ []) (moved ++ m.to ∷ []) w'' h in
                      (
                        all ∙ append_assoc moved (m.to ∷ []) (destinations ms),
                        nothing,
                        after
                            ∙ ap (all_renamed ms)
                                (permit_keeps m.to m.kind w' ∙ rename_moves m.from m.to w p),
                      ))
            ])
    ]

    -- On a file system as Disk describes it, a run that reports success has moved every file of the
    -- plan, in order, names each, and strands none.
    pub apply_complete :
        (p : Plan) (w : W)
        → (apply rename permit p w).1 ≡ none
        → ((apply rename permit p w).0.moved ≡ destinations p.moves)
          × ((apply rename permit p w).0.stranded ≡ [])
          × (view (apply rename permit p w).2 ≡ all_renamed p.moves (view w))
    unfolding apply
    apply_complete p w = apply_from-Completes p.moves [] [] w

taken_of-nil :
    (ms : List Move) (there : Text → Bool)
    → taken_of ms there ≡ []
    → All (λ m. there m.to ≡ false) ms
unfolding taken_of
taken_of-nil [] there h = tt
taken_of-nil (m ∷ ms) there h = elim (Bool-cases (there m.to)) [
  | inl e ↦ absurd (let k = rw e at h in cc)
  | inr e ↦ (e, taken_of-nil ms there (rw e at h))
]

-- The destinations differ from one another.
abbrev pub AreDistinct : List Move → Type 0
AreDistinct [] = Unit
AreDistinct (m ∷ ms) = All (λ n. n.to ≢ m.to) ms × AreDistinct ms

IsFree-of_absent :
    {C : Type 0} (v : View C) (ms : List Move)
    → All (λ m. v m.to ≡ none) ms
    → AreDistinct ms
    → IsFree v ms
IsFree-of_absent v [] h d = tt
IsFree-of_absent v (m ∷ ms) h d = (h.0, d.0, IsFree-of_absent v ms h.1 d.1)

-- Where `there` tells what is at a path, a plan that Blocked names nothing of, and whose
-- destinations differ from one another, moves every file onto a free path.
pub blocked-IsFree :
    {C : Type 0} (v : View C) (p : Plan) (there : Text → Bool)
    → ((q : Text) → there q ≡ false → v q ≡ none)
    → blocked p there ≡ []
    → AreDistinct p.moves
    → IsFree v p.moves
unfolding blocked
blocked-IsFree v p there tells h d =
    IsFree-of_absent v p.moves
      (All-map (λ (m : Move). there m.to ≡ false) (λ m. v m.to ≡ none) p.moves (λ m. tells m.to)
        (taken_of-nil p.moves there h))
      d
