-- ===== src/Agent/Ensure/Trace/Reaping.antt =====
-- Reap signals nobody else's process and no healthy one, and unlinks sockets only.
use mathlib.Core.List.{Memᴰ}
use sshakku.Agent.Ports.{Ports, Shape, a_socket}
use sshakku.Agent.Proc.{AgentProc}
use sshakku.Agent.Reap.{
  ours, remove_socket, is_dead, reap_one, reap_loop, reap, is_socket, remove_if,
}
use sshakku.Agent.Ensure.Trace.{
  Effect, probed, listed, signalled, looked, unlinked, Trace, traced, Listed, IsCareful,
  with_listed,
}
use sshakku.Prelude.{
  Text, text_eq, text_eq_iff, ℤ, int_eq_iff, List, [], ◌∷◌, Bool, true, false, Bool-cases, not,
  ◌&&◌, All, All-map, if◌then◌else◌, ◌≡◌, ◌≢◌, refl, inl, inr, arith, Result, ok, err, Triple,
  Triple-bind, Triple-lift, Outcome, lift,
}

-- What was listed stays listed.
pub Listed-cons : (p : AgentProc) (e : Effect) (t : Trace) → Listed p t → Listed p (e ∷ t)
Listed-cons p (listed ps) t h = inr h
Listed-cons p (probed _ _) t h = h
Listed-cons p _ t h = h

-- Processes that are all listed.
abbrev pub AreListed : List AgentProc → Trace → Type 0
AreListed ps t = All (λ p. Listed p t) ps

pub AreListed-cons :
    (ps : List AgentProc) (e : Effect) (t : Trace) → AreListed ps t → AreListed ps (e ∷ t)
AreListed-cons ps e t =
    All-map (λ p. Listed p t) (λ p. Listed p (e ∷ t)) ps (λ p. Listed-cons p e t)

AreListed-of_mem :
    (qs ps : List AgentProc) (t : Trace)
    → ((p : AgentProc) → Memᴰ p qs → Memᴰ p ps)
    → AreListed qs (listed ps ∷ t)
AreListed-of_mem [] ps t f = tt
AreListed-of_mem (q ∷ qs) ps t f =
    (inl (f q (Memᴰ.head refl)), AreListed-of_mem qs ps t (λ p m. f p (Memᴰ.tail m)))

AreListed-listed : (ps : List AgentProc) (t : Trace) → AreListed ps (listed ps ∷ t)
AreListed-listed ps t = AreListed-of_mem ps ps t (λ p m. m)

module _ {W E : Type 0} (io : Ports W E) (uid : ℤ) (fixed_sock : Text) where
  -- A record that is careful, and has the processes listed.
  abbrev pub Ready : List AgentProc → W × Trace → Type 0
  Ready ps w = IsCareful uid fixed_sock w.1 × AreListed ps w.1

  remove_if_socket-Ready :
      (ps : List AgentProc) (path : Text) (shape : Shape) (v : W) (t : Trace)
      → Ready ps (v, looked path shape ∷ t)
      → Ready ps (remove_if (traced io) (is_socket shape) path (v, looked path shape ∷ t)).1
  remove_if_socket-Ready ps path a_socket v t h =
      ((inl (refl, tt), h.0), AreListed-cons ps (unlinked path) (looked path a_socket ∷ t) h.1)
  remove_if_socket-Ready ps path _ v t h = h

  pub remove_socket-Ready :
      (ps : List AgentProc) (path : Text) (w : W × Trace)
      → Ready ps w
      → Ready ps (remove_socket (traced io) path w).1
  unfolding remove_socket
  remove_socket-Ready ps path w h =
      let (shape, v) = io.lstat path w.0 in
      remove_if_socket-Ready ps path shape v w.1
        (h.0, AreListed-cons ps (looked path shape) w.1 h.1)

  reap_one-Ready :
      (p : AgentProc) (ps : List AgentProc) (v : W) (t : Trace)
      → Ready (p ∷ ps) (v, probed p.socket false ∷ t)
      → p.uid ≡ uid
      → p.socket ≢ []
      → Ready ps (reap_one (traced io) p (v, probed p.socket false ∷ t)).1
  unfolding reap_one
  reap_one-Ready p ps v t h o s =
      remove_socket-Ready ps p.socket
        ((io.terminate p.pid v).1, signalled p.pid ∷ probed p.socket false ∷ t)
        (
          ((p, h.1.0, refl, o, s, (refl, refl)), h.0),
          AreListed-cons ps (signalled p.pid) (probed p.socket false ∷ t) h.1.1,
        )

  ours-eq : (p : AgentProc) → ours p uid ≡ true → p.uid ≡ uid
  unfolding ours
  ours-eq p h = (int_eq_iff p.uid uid).0 h

  -- What a round of the loop does behind its probe.
  abbrev act : AgentProc → Bool → W × Trace → (Bool × Bool) × (W × Trace)
  act p dead w = if dead && ours p uid then reap_one (traced io) p w else ((false, false), w)

  act-Ready :
      (p : AgentProc) (ps : List AgentProc) (there : Bool) (v : W) (t : Trace)
      → p.socket ≢ []
      → Ready (p ∷ ps) (v, probed p.socket there ∷ t)
      → Ready ps (act p (not there) (v, probed p.socket there ∷ t)).1
  act-Ready p ps true v t s h = (h.0, h.1.1)
  act-Ready p ps false v t s h = elim (Bool-cases (ours p uid)) [
    | inl e ↦ rw e (reap_one-Ready p ps v t h (ours-eq p e) s)
    | inr e ↦ rw e (h.0, h.1.1)
  ]

  -- One round of the loop of Reap, as the loop makes it.
  abbrev round : AgentProc → W × Trace → (Bool × Bool) × (W × Trace)
  round p w = let (dead, w') = is_dead (traced io) p w in act p dead w'

  round-Ready :
      (p : AgentProc) (ps : List AgentProc) (w : W × Trace)
      → Ready (p ∷ ps) w
      → Ready ps (round p w).1
  unfolding is_dead
  round-Ready p ps w h = elim (Bool-cases (text_eq p.socket [])) [
    | inl e ↦ rw e (h.0, h.1.1)
    | inr e ↦ rw e (
        act-Ready p ps (io.reachable p.socket w.0).0 (io.reachable p.socket w.0).1 w.1
          (λ s. ground (arith, text_eq_iff p.socket []))
          (h.0, AreListed-cons (p ∷ ps) (probed p.socket (io.reachable p.socket w.0).0) w.1 h.1))
  ]

  reap_loop-Ready :
      (ps : List AgentProc) (w : W × Trace)
      → Ready ps w
      → IsCareful uid fixed_sock (reap_loop (traced io) ps uid w).1.1
  unfolding reap_loop
  reap_loop-Ready [] w h = h.0
  reap_loop-Ready (p ∷ ps) w h = reap_loop-Ready ps (round p w).1 (round-Ready p ps w h)

  listed-Ready :
      (r : Result E (List AgentProc)) (v : W) (t : Trace)
      → IsCareful uid fixed_sock t
      → Outcome Ready (λ w. IsCareful uid fixed_sock w.1) r (v, with_listed r t)
  listed-Ready (ok ps) v t h = (h, AreListed-listed ps t)
  listed-Ready (err e) v t h = h

  pub agents-Ready :
      Triple
        (λ w. IsCareful uid fixed_sock w.1)
        Ready
        (λ w. IsCareful uid fixed_sock w.1)
        (traced io).agents
  agents-Ready = record { at = λ w h. listed-Ready (io.agents w.0).0 (io.agents w.0).1 w.1 h }

  -- However the ports answer, the calls that Reap makes leave a careful record careful.
  pub reap-IsCareful :
      Triple
        (λ w. IsCareful uid fixed_sock w.1)
        (λ _ w. IsCareful uid fixed_sock w.1)
        (λ w. IsCareful uid fixed_sock w.1)
        (reap (traced io) uid)
  unfolding reap
  reap-IsCareful =
      Triple-bind {mid = Ready} (traced io).agents (λ ps. lift (reap_loop (traced io) ps uid))
        agents-Ready (λ ps. Triple-lift (reap_loop (traced io) ps uid) (reap_loop-Ready ps))
