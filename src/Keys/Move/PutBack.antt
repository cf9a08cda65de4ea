-- ===== src/Keys/Move/PutBack.antt =====
-- A failed Apply of move.go puts back what it moved.
use mathlib.Core.List.{reverse, reverse-append}
use mathlib.Core.Path.{fun_ext, subst}
use sshakku.Prelude.{
  Text, text_eq, text_eq_iff, List, [], ◌∷◌, ◌++◌, Option, none, some, Option-cases, All, ◌≡◌, ◌≢◌,
  refl, ap, ◌∙◌, sym, inl, inr, arith, if◌then◌else◌,
}
use sshakku.Keys.Move.{
  Move, Plan, Kind, Result, Failure, put_back_each, put_back, fail_rename, fail_permit, apply_from,
  apply,
}

-- What stands at each path of a file system.
abbrev pub View : Type 0 → Type 0
View C = Text → Option C

-- A file system in which the file at `a` has become the one at `b`.
abbrev pub renamed : {C : Type 0} → Text → Text → View C → View C
renamed a b v p = if text_eq p b then v a else if text_eq p a then none else v p

-- What Apply relies on: a rename that succeeds moves one file that is there, one that fails
-- changes nothing, and setting permissions moves nothing.
pub record Disk {W E : Type 0} (C : Type 0) (rename : Text → Text → W → Option E × W)
    (permit : Text → Kind → W → Option E × W) : Type 0 where
  pub view : W → View C
  pub rename_there : (a b : Text) (w : W) → (rename a b w).0 ≡ none → view w a ≢ none
  pub rename_moves :
      (a b : Text) (w : W) → (rename a b w).0 ≡ none → view (rename a b w).1 ≡ renamed a b (view w)
  pub rename_fails :
      (a b : Text) (w : W) {e : E} → (rename a b w).0 ≡ some e → view (rename a b w).1 ≡ view w
  pub permit_keeps : (a : Text) (k : Kind) (w : W) → view (permit a k w).1 ≡ view w

-- No destination is taken, by a file or by another move.
abbrev pub IsFree : {C : Type 0} → View C → List Move → Type 0
IsFree v [] = Unit
IsFree v (m ∷ ms) = (v m.to ≡ none) × All (λ n. n.to ≢ m.to) ms × IsFree v ms

-- The moves, the last one first, that lead from one view to another, each onto a free path.
abbrev Trail : {C : Type 0} → View C → List Move → View C → Type 0
Trail {C} u [] v = v ≡ u
Trail {C} u (m ∷ ms) v =
    (t : View C) × Trail u ms t × (t m.to ≡ none) × (t m.from ≢ none) × (v ≡ renamed m.from m.to t)

-- Moving a file back from a path that was free restores the view.
renamed-renamed :
    {C : Type 0} (v : View C) (a b : Text)
    → v b ≡ none
    → v a ≢ none
    → renamed b a (renamed a b v) ≡ v
renamed-renamed v a b h k = fun_ext λ p. ground (
  arith,
  text_eq_iff p a,
  text_eq_iff p b,
  text_eq_iff b b,
  text_eq_iff a a,
  text_eq_iff a b,
  text_eq_iff b a,
)

IsFree-renamed :
    {C : Type 0} (v : View C) (m : Move) (ms : List Move)
    → All (λ n. n.to ≢ m.to) ms
    → IsFree v ms
    → IsFree (renamed m.from m.to v) ms
IsFree-renamed v m [] d f = tt
IsFree-renamed v m (n ∷ ns) d f =
    (ground (arith, text_eq_iff n.to m.to), f.1, IsFree-renamed v m ns d.1 f.2)

module _ {W E C : Type 0} (rename : Text → Text → W → Option E × W) where
  module _ (permit : Text → Kind → W → Option E × W) (d : Disk C rename permit) where
    open d use {view, rename_there, rename_moves, rename_fails, permit_keeps}

    put_back_each-restores :
        (u : View C) (ms : List Move) (w : W)
        → Trail u ms (view w)
        → (put_back_each rename ms w).0 ≡ []
        → view (put_back_each rename ms w).1 ≡ u
    unfolding put_back_each
    put_back_each-restores u [] w t h = t
    put_back_each-restores u (m ∷ ms) w (t, before, free, there, after) h =
        elim (Option-cases (rename m.to m.from w).0) [
          | inl e ↦
              let undone : view (rename m.to m.from w).1 ≡ t =
                rename_moves m.to m.from w e
                ∙ ap (renamed m.to m.from) after
                ∙ renamed-renamed t m.from m.to free there in
              put_back_each-restores u ms (rename m.to m.from w).1
                (subst (λ v. Trail u ms v) (sym undone) before) (rw e at h)
          | inr (err, e) ↦ absurd (let k = rw e at h in cc)
        ]

    -- What the loop of Apply keeps of the moves made so far.
    abbrev Made : View C → List Move → W → Type 0
    Made u done w = Trail u (reverse done) (view w)

    Made-one_more :
        (u : View C) (done : List Move) (m : Move) (w : W)
        → Made u done w
        → view w m.to ≡ none
        → (rename m.from m.to w).0 ≡ none
        → Made u (done ++ m ∷ []) (rename m.from m.to w).1
    Made-one_more u done m w t f e =
        rw reverse-append (view w, t, f, rename_there m.from m.to w e, rename_moves m.from m.to w e)

    Made-permitted :
        (u : View C) (done : List Move) (m : Move) (w : W)
        → Made u done w
        → Made u done (permit m.to m.kind w).1
    Made-permitted u done m w t =
        subst (Trail u (reverse done)) (sym (permit_keeps m.to m.kind w)) t

    -- The run failed, and stranded nothing.
    abbrev RolledBack : View C → Result × Option (Failure E) × W → Type 0
    RolledBack u r = r.1 ≢ none → r.0.stranded ≡ [] → view r.2 ≡ u

    put_back-restores :
        (u : View C) (done : List Move) (w : W)
        → Made u done w
        → (put_back rename done w).0 ≡ []
        → view (put_back rename done w).1 ≡ u
    unfolding put_back
    put_back-restores u done w t = put_back_each-restores u (reverse done) w t

    fail_rename-RolledBack :
        (u : View C) (done : List Move) (moved : List Text) (from : Text) (e : E) (w : W)
        → Made u done w
        → RolledBack u (fail_rename rename done moved from e w)
    unfolding fail_rename
    fail_rename-RolledBack u done moved from e w t _ h = put_back-restores u done w t h

    fail_permit-RolledBack :
        (u : View C) (done : List Move) (to : Text) (e : E) (w : W)
        → Made u done w
        → RolledBack u (fail_permit rename done to e w)
    unfolding fail_permit
    fail_permit-RolledBack u done to e w t _ h = put_back-restores u done w t h

    apply_from-RolledBack :
        (u : View C) (ms done : List Move) (moved : List Text) (w : W)
        → Made u done w
        → IsFree (view w) ms
        → RolledBack u (apply_from rename permit ms done moved w)
    unfolding apply_from
    apply_from-RolledBack u [] done moved w t f = λ n _. absurd (n refl)
    apply_from-RolledBack u (m ∷ ms) done moved w t f =
        elim (Option-cases (rename m.from m.to w).0) [
          | inr (e, p) ↦
              rw (p, apply_from)
                (fail_rename-RolledBack u done moved m.from e (rename m.from m.to w).1
                  (subst (Trail u (reverse done)) (sym (rename_fails m.from m.to w p)) t))
          | inl p ↦
              let w' = (rename m.from m.to w).1 in
              let w'' = (permit m.to m.kind w').1 in
              let made =
                Made-permitted u (done ++ m ∷ []) m w' (Made-one_more u done m w t f.0 p) in
              let free : IsFree (view w'') ms =
                subst (λ v. IsFree v ms)
                  (sym (permit_keeps m.to m.kind w' ∙ rename_moves m.from m.to w p))
                  (IsFree-renamed (view w) m ms f.1 f.2) in
              rw (p, apply_from)
                (elim (Option-cases (permit m.to m.kind w').0) [
                  | inr (e, q) ↦
                      rw (q, apply_from) (fail_permit-RolledBack u (done ++ m ∷ []) m.to e w'' made)
                  | inl q ↦
                      rw (q, apply_from)
                        (apply_from-RolledBack u ms (done ++ m ∷ []) (moved ++ m.to ∷ []) w'' made
                          free)
                ])
        ]

    -- On a file system as Disk describes it, a run that fails and strands nothing leaves every path
    -- as it was, where no destination was taken.
    pub apply-RolledBack :
        (p : Plan) (w : W)
        → IsFree (view w) p.moves
        → (apply rename permit p w).1 ≢ none
        → (apply rename permit p w).0.stranded ≡ []
        → view (apply rename permit p w).2 ≡ view w
    unfolding apply
    apply-RolledBack p w f = apply_from-RolledBack (view w) p.moves [] [] w refl f
