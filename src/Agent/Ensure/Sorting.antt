-- ===== src/Agent/Ensure/Sorting.antt =====
-- The order in which ensure.go considers the agents that it may adopt.
use mathlib.Core.List.{Perm}
use mathlib.Core.List.Perm
use sshakku.Agent.Proc.{AgentProc}
use sshakku.Agent.Ports.{Ports}
use sshakku.Agent.Reap.{ours}
use sshakku.Agent.Ensure.{
  insert_by_pid, sort_by_pid, cons_kept, foreign_one, foreign_loop, healthy_foreign,
}
use sshakku.Prelude.{
  ℤ, int_ltb, int_eq, Text, text_eq, Bool, not, ◌&&◌, if◌then◌else◌, ok, refl, List, [], ◌∷◌, true,
  false, Bool-cases, All, All-map, ◌≡◌, inl, inr, arith,
}

-- No process of the list has a smaller pid.
abbrev pub IsFirst : AgentProc → List AgentProc → Type 0
IsFirst p ps = All (λ q. int_ltb q.pid p.pid ≡ false) ps

abbrev pub IsSorted : List AgentProc → Type 0
IsSorted [] = Unit
IsSorted (p ∷ ps) = IsFirst p ps × IsSorted ps

int_ltb_asymm : (a b : ℤ) → int_ltb a b ≡ true → int_ltb b a ≡ false
int_ltb_asymm a b h = ground arith

int_ltb_trans : (a b c : ℤ) → int_ltb a b ≡ false → int_ltb b c ≡ false → int_ltb a c ≡ false
int_ltb_trans a b c h k = ground arith

IsFirst-insert :
    (q p : AgentProc) (ps : List AgentProc)
    → int_ltb p.pid q.pid ≡ false
    → IsFirst q ps
    → IsFirst q (insert_by_pid p ps)
unfolding insert_by_pid
IsFirst-insert q p [] h k = (h, tt)
IsFirst-insert q p (r ∷ rs) h k = elim (Bool-cases (int_ltb r.pid p.pid)) [
  | inl e ↦ rw e (k.0, IsFirst-insert q p rs h k.1)
  | inr e ↦ rw e (h, k)
]

insert-IsSorted :
    (p : AgentProc) (ps : List AgentProc) → IsSorted ps → IsSorted (insert_by_pid p ps)
unfolding insert_by_pid
insert-IsSorted p [] h = (tt, tt)
insert-IsSorted p (q ∷ qs) h = elim (Bool-cases (int_ltb q.pid p.pid)) [
  | inl e ↦ rw e (IsFirst-insert q p qs (int_ltb_asymm q.pid p.pid e) h.0, insert-IsSorted p qs h.1)
  | inr e ↦ rw e (
    (
      e,
      All-map (λ r. int_ltb r.pid q.pid ≡ false) (λ r. int_ltb r.pid p.pid ≡ false) qs
          (λ r k. int_ltb_trans r.pid q.pid p.pid k e) h.0,
    ),
    h,
  )
]

insert-perm : (p : AgentProc) (ps : List AgentProc) → Perm (insert_by_pid p ps) (p ∷ ps)
unfolding insert_by_pid
insert-perm p [] = Perm.refl (p ∷ [])
insert-perm p (q ∷ qs) = elim (Bool-cases (int_ltb q.pid p.pid)) [
  | inl e ↦ rw e (Perm.trans (Perm.cons q (insert-perm p qs)) (Perm.swap p q qs))
  | inr e ↦ rw e (Perm.refl (p ∷ q ∷ qs))
]

-- What is sorted is what was there, the lowest pid first.
sort_by_pid_lem : (ps : List AgentProc) → IsSorted (sort_by_pid ps) × Perm (sort_by_pid ps) ps
unfolding sort_by_pid
sort_by_pid_lem [] = (tt, Perm.refl [])
sort_by_pid_lem (p ∷ ps) =
    let (sorted, same) = sort_by_pid_lem ps in
    (
      insert-IsSorted p (sort_by_pid ps) sorted,
      Perm.trans (insert-perm p (sort_by_pid ps)) (Perm.cons p same),
    )

-- An agent of the account, on a socket other than the fixed one, which answers.
abbrev pub is_choice : (Text → Bool) → Text → ℤ → AgentProc → Bool
is_choice answers fixed_sock our_uid p =
    not (text_eq p.socket [])
    && (not (text_eq p.socket fixed_sock) && (int_eq p.uid our_uid && answers p.socket))

abbrev pub choices : (AgentProc → Bool) → List AgentProc → List AgentProc
choices fits [] = []
choices fits (p ∷ ps) = if fits p then p ∷ choices fits ps else choices fits ps

module _ {W E : Type 0} (io : Ports W E) (answers : Text → Bool)
    (steady : (s : Text) (w : W) → (io.reachable s w).0 ≡ answers s) (fixed_sock : Text)
    (our_uid : ℤ) where
  foreign_one-IsChoice :
      (p : AgentProc) (w : W)
      → (foreign_one io p fixed_sock our_uid w).0.0 ≡ is_choice answers fixed_sock our_uid p
  unfolding foreign_one ours
  foreign_one-IsChoice p w = ground (arith, steady p.socket w)

  foreign_loop-choices :
      (ps : List AgentProc) (w : W)
      → (foreign_loop io ps fixed_sock our_uid w).0.0
        ≡ choices (is_choice answers fixed_sock our_uid) ps
  unfolding foreign_loop
  foreign_loop-choices [] w = refl
  foreign_loop-choices (p ∷ ps) w =
      let w' = (foreign_one io p fixed_sock our_uid w).1 in
      rw (foreign_one-IsChoice p w, foreign_loop-choices ps w')
        (cons_kept-choices (is_choice answers fixed_sock our_uid p))
    where
      cons_kept-choices :
          (b : Bool)
          → cons_kept b p (choices (is_choice answers fixed_sock our_uid) ps) ≡ (
              if b
              then p ∷ choices (is_choice answers fixed_sock our_uid) ps
              else choices (is_choice answers fixed_sock our_uid) ps)
      cons_kept-choices true = refl
      cons_kept-choices false = refl

  -- Where the agents can be listed, and a probe of a socket is always answered the same: the agents to
  -- choose from are exactly those of the account that answer on a socket other than the fixed one, and
  -- they are given with the lowest pid first.
  pub healthy_foreign-IsSorted :
      (procs : List AgentProc) (w : W)
      → (io.agents w).0 ≡ ok procs
      → (ps : List AgentProc) × ((healthy_foreign io fixed_sock our_uid w).0 ≡ ok ps)
        × IsSorted ps
        × Perm ps (choices (is_choice answers fixed_sock our_uid) procs)
  unfolding healthy_foreign
  healthy_foreign-IsSorted procs w h =
      let found = choices (is_choice answers fixed_sock our_uid) procs in
      let (sorted, same) = sort_by_pid_lem found in
      (sort_by_pid found, rw (h, foreign_loop-choices procs (io.agents w).1) refl, sorted, same)
