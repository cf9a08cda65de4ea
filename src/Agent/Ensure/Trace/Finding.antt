-- ===== src/Agent/Ensure/Trace/Finding.antt =====
-- The loop of healthyForeign: the agents that it keeps may be adopted.
use sshakku.Agent.Ports.{passed_over, Ports}
use sshakku.Agent.Proc.{AgentProc}
use sshakku.Agent.Reap.{ours}
use sshakku.Agent.Ensure.{
  insert_by_pid, sort_by_pid, foreign_one, foreign_loop, healthy_foreign, cons_kept, inspect_failed,
}
use sshakku.Agent.Ensure.Trace.{probed, Trace, traced}
use sshakku.Agent.Ensure.Trace.Reaping.{Listed-cons, Ready, AreListed, AreListed-cons, agents-Ready}
use sshakku.Prelude.{
  Text, text_eq, text_eq_iff, ℤ, int_eq_iff, int_ltb, List, [], ◌∷◌, Bool, true, false, Bool-cases,
  ltb, ◌||◌, ◌≡◌, ◌≢◌, refl, inl, inr, arith, pure, lift, wrap, Triple, Triple-bind, Triple-wrap,
}
use sshakku.Agent.Ensure.Trace.Holding.{
  IsTrusted, AreTrusted, Holds, Careful, Holding-say, AreTrusted-cons,
}

-- What a process that the loop of healthyForeign saw leaves behind.
kept-AreTrusted :
    (uid : ℤ) (fixed_sock : Text) (b : Bool) (p : AgentProc) (ps : List AgentProc) (t : Trace)
    → (b ≡ true → IsTrusted uid fixed_sock p t)
    → AreTrusted uid fixed_sock ps t
    → AreTrusted uid fixed_sock (cons_kept b p ps) t
kept-AreTrusted uid fixed_sock true p ps t h k = (h refl, k)
kept-AreTrusted uid fixed_sock false p ps t h k = k

insert-AreTrusted :
    (uid : ℤ) (fixed_sock : Text) (p : AgentProc) (ps : List AgentProc) (t : Trace)
    → IsTrusted uid fixed_sock p t
    → AreTrusted uid fixed_sock ps t
    → AreTrusted uid fixed_sock (insert_by_pid p ps) t
unfolding insert_by_pid
insert-AreTrusted uid fixed_sock p [] t h k = (h, tt)
insert-AreTrusted uid fixed_sock p (q ∷ qs) t h k = elim (Bool-cases (int_ltb q.pid p.pid)) [
  | inl e ↦ rw e (k.0, insert-AreTrusted uid fixed_sock p qs t h k.1)
  | inr e ↦ rw e (h, k)
]

sort-AreTrusted :
    (uid : ℤ) (fixed_sock : Text) (ps : List AgentProc) (t : Trace)
    → AreTrusted uid fixed_sock ps t
    → AreTrusted uid fixed_sock (sort_by_pid ps) t
unfolding sort_by_pid
sort-AreTrusted uid fixed_sock [] t h = tt
sort-AreTrusted uid fixed_sock (p ∷ ps) t h =
    insert-AreTrusted uid fixed_sock p (sort_by_pid ps) t h.0
      (sort-AreTrusted uid fixed_sock ps t h.1)

module _ {W E : Type 0} (io : Ports W E) (uid : ℤ) (fixed_sock : Text) where
  -- What a round of the loop of healthyForeign leaves, for agents found before.
  record Seen (p : AgentProc) (ps acc : List AgentProc) (b : Bool) (w : W × Trace) : Type 0 where
    still : Holds io uid fixed_sock acc w
    left : AreListed ps w.1
    kept : b ≡ true → IsTrusted uid fixed_sock p w.1

  probed-Seen :
      (p : AgentProc) (ps acc : List AgentProc) (there : Bool) (v : W) (t : Trace)
      → AreListed (p ∷ ps) t
      → Holds io uid fixed_sock acc (v, t)
      → ours p uid ≡ true
      → p.socket ≢ []
      → p.socket ≢ fixed_sock
      → Seen p ps acc there (v, probed p.socket there ∷ t)
  unfolding ours
  probed-Seen p ps acc there v t l h o s f = record {
    still = (h.0, AreTrusted-cons uid fixed_sock acc (probed p.socket there) t h.1);
    left = AreListed-cons ps (probed p.socket there) t l.1;
    kept = λ e. record {
      was_listed = Listed-cons p (probed p.socket there) t l.0;
      of_account = (int_eq_iff p.uid uid).0 o;
      has_socket = s;
      elsewhere = f;
      answered = inl (refl, e);
    };
  }

  foreign_one-Seen :
      (p : AgentProc) (ps acc : List AgentProc) (w : W × Trace)
      → AreListed (p ∷ ps) w.1
      → Holds io uid fixed_sock acc w
      → Seen p ps acc
          (foreign_one (traced io) p fixed_sock uid w).0.0
          (foreign_one (traced io) p fixed_sock uid w).1
  unfolding foreign_one
  foreign_one-Seen p ps acc w l h =
      elim (Bool-cases (text_eq p.socket [] || text_eq p.socket fixed_sock)) [
        | inl e ↦ rw e (record { still = h; left = l.1; kept = λ k. cc })
        | inr e ↦ rw e (elim (Bool-cases (ours p uid)) [
          | inr o ↦ rw o (record { still = h; left = l.1; kept = λ k. cc })
          | inl o ↦ rw o (
              probed-Seen p ps acc (io.reachable p.socket w.0).0 (io.reachable p.socket w.0).1 w.1 l
                h o (λ s. ground (arith, text_eq_iff p.socket []))
                (λ s. ground (arith, text_eq_iff p.socket fixed_sock)))
        ])
      ]

  foreign_loop-Holds :
      (ps acc : List AgentProc) (w : W × Trace)
      → AreListed ps w.1
      → Holds io uid fixed_sock acc w
      → Holds io uid fixed_sock acc (foreign_loop (traced io) ps fixed_sock uid w).1
        × AreTrusted uid fixed_sock
            (foreign_loop (traced io) ps fixed_sock uid w).0.0
            (foreign_loop (traced io) ps fixed_sock uid w).1.1
  unfolding foreign_loop
  foreign_loop-Holds [] acc w l h = (h, tt)
  foreign_loop-Holds (p ∷ ps) acc w l h =
      let (seen, w') = foreign_one (traced io) p fixed_sock uid w in
      let s = foreign_one-Seen p ps acc w l h in
      elim (Bool-cases seen.0) [
        | inl e ↦
            let (after, rest) =
              foreign_loop-Holds ps (p ∷ acc) w' s.left (s.still.0, (s.kept e, s.still.1)) in
            rw e ((after.0, after.1.1), (after.1.0, rest))
        | inr e ↦ rw e (foreign_loop-Holds ps acc w' s.left s.still)
      ]

  found-Triple :
      {F : Type 0} (ps : List AgentProc)
      → Triple {E = F}
          (Ready io uid fixed_sock ps)
          (λ found w. Holds io uid fixed_sock found.0 w)
          (Careful io uid fixed_sock)
          (lift (foreign_loop (traced io) ps fixed_sock uid))
  found-Triple ps = record {
    at = λ w h. let (after, kept) = foreign_loop-Holds ps [] w h.1 (h.0, tt) in (after.0, kept);
  }

  agents_wrapped-Ready :
      {F : Type 0} (f : E → F)
      → Triple
          (Careful io uid fixed_sock)
          (Ready io uid fixed_sock)
          (Careful io uid fixed_sock)
          (wrap f (traced io).agents)
  agents_wrapped-Ready f = Triple-wrap f (traced io).agents (agents-Ready io uid fixed_sock)

  sorted-Triple :
      {F : Type 0} (ps : List AgentProc)
      → Triple {E = F}
          (Holds io uid fixed_sock ps)
          (Holds io uid fixed_sock)
          (Careful io uid fixed_sock)
          (pure (sort_by_pid ps))
  sorted-Triple ps = record { at = λ w h. (h.0, sort-AreTrusted uid fixed_sock ps w.1 h.1) }

  pub healthy_foreign-Triple :
      Triple
        (Careful io uid fixed_sock)
        (Holds io uid fixed_sock)
        (Careful io uid fixed_sock)
        (healthy_foreign (traced io) fixed_sock uid)
  unfolding healthy_foreign
  healthy_foreign-Triple = Triple-bind _ _ (agents_wrapped-Ready inspect_failed) (λ procs.
      Triple-bind _ _ (found-Triple procs) (λ found.
        Triple-bind {mid = λ _. Holds io uid fixed_sock found.0} _ _
          (Holding-say io uid fixed_sock found.0 (ltb 0 found.1) (passed_over found.1))
          (λ _. sorted-Triple found.0)))
