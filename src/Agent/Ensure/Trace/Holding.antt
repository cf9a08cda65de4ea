-- ===== src/Agent/Ensure/Trace/Holding.antt =====
-- The rules for what an action keeps: a careful record, and agents that may be adopted by it.
use sshakku.Agent.Ports.{Note, Ports, Shape, a_socket, a_symlink}
use sshakku.Agent.Proc.{AgentProc}
use sshakku.Agent.Reap.{
  is_socket_or_symlink, remove_if, remove_socket, clear_stale_path, is_stale_socket_or_symlink,
  clear_unless,
}
use sshakku.Agent.Ensure.{say_if}
use sshakku.Agent.Ensure.Trace.{
  Effect, probed, listed, looked, unlinked, spawned, linked, wrote, Trace, traced, recorded_answer,
  Listed, Answered, IsCareful,
}
use sshakku.Agent.Ensure.Trace.Reaping.{Listed-cons, remove_socket-Ready}
use sshakku.Prelude.{
  Text, codes, ℤ, List, [], ◌∷◌, ◌++◌, Bool, true, false, All, All-map, ◌≡◌, ◌≢◌, refl, inl, inr,
  Exec, Result, ok, err, ◌>>=◌, pure, lift, wrap, Triple, Triple-bind, Triple-wrap, Outcome,
}

pub Answered-cons : (s : Text) (e : Effect) (t : Trace) → Answered s t → Answered s (e ∷ t)
Answered-cons s (probed _ _) t h = inr h
Answered-cons s (listed _) t h = h
Answered-cons s _ t h = h

-- An agent that may be adopted: listed, of this account, on another socket, which answered.
pub record IsTrusted (uid : ℤ) (fixed_sock : Text) (p : AgentProc) (t : Trace) : Type 0 where
  pub was_listed : Listed p t
  pub of_account : p.uid ≡ uid
  pub has_socket : p.socket ≢ []
  pub elsewhere : p.socket ≢ fixed_sock
  pub answered : Answered p.socket t

module _ (uid : ℤ) (fixed_sock : Text) where
  abbrev pub AreTrusted : List AgentProc → Trace → Type 0
  AreTrusted ps t = All (λ p. IsTrusted uid fixed_sock p t) ps

  pub AreTrusted-cons :
      (ps : List AgentProc) (e : Effect) (t : Trace) → AreTrusted ps t → AreTrusted ps (e ∷ t)
  AreTrusted-cons ps e t =
      All-map (λ p. IsTrusted uid fixed_sock p t) (λ p. IsTrusted uid fixed_sock p (e ∷ t)) ps
        (λ p h. record {
          was_listed = Listed-cons p e t h.was_listed;
          of_account = h.of_account;
          has_socket = h.has_socket;
          elsewhere = h.elsewhere;
          answered = Answered-cons p.socket e t h.answered;
        })

  -- An effect that is allowed behind any record.
  abbrev pub IsHarmless : Effect → Type 0
  IsHarmless e = (t : Trace) → IsCareful uid fixed_sock t → IsCareful uid fixed_sock (e ∷ t)

module _ {W E : Type 0} (io : Ports W E) (uid : ℤ) (fixed_sock : Text) where
  -- A careful record, and agents that may be adopted by it.
  abbrev pub Holds : List AgentProc → W × Trace → Type 0
  Holds ps w = IsCareful uid fixed_sock w.1 × AreTrusted uid fixed_sock ps w.1

  abbrev pub Careful : W × Trace → Type 0
  Careful w = IsCareful uid fixed_sock w.1

  abbrev pub Holding : {F A : Type 0} → List AgentProc → Exec (W × Trace) F A → Type 0
  Holding ps m = Triple (Holds ps) (λ _. Holds ps) Careful m

  pub Holding-bind :
      {F A B : Type 0} (ps : List AgentProc) (m : Exec (W × Trace) F A)
      (f : A → Exec (W × Trace) F B)
      → Holding ps m
      → ((a : A) → Holding ps (f a))
      → Holding ps (m >>= f)
  Holding-bind ps m f t k = Triple-bind {mid = λ _. Holds ps} m f t k

  pub Holding-pure : {F A : Type 0} (ps : List AgentProc) (a : A) → Holding {F = F} ps (pure a)
  Holding-pure ps a = record { at = λ w h. h }

  pub Holding-say :
      {F : Type 0} (ps : List AgentProc) (b : Bool) (note : Note)
      → Holding {F = F} ps (lift (say_if (traced io) b note))
  Holding-say ps true note = record { at = λ w h. h }
  Holding-say ps false note = record { at = λ w h. h }

  pub answer-Holds :
      {A : Type 0} (ps : List AgentProc) (m : W → A × W) (note : A → Effect)
      → ((a : A) → IsHarmless uid fixed_sock (note a))
      → (w : W × Trace) → Holds ps w
      → Holds ps (recorded_answer m note w).1
  answer-Holds ps m note k w h =
      let (a, w') = m w.0 in (k a w.1 h.0, AreTrusted-cons uid fixed_sock ps (note a) w.1 h.1)

  pub Outcome-Holds :
      {F A : Type 0} (ps : List AgentProc) (r : Result F A) (w : W × Trace)
      → Holds ps w
      → Outcome (λ _. Holds ps) Careful r w
  Outcome-Holds ps (ok a) w h = h
  Outcome-Holds ps (err e) w h = h.0

  pub recorded-Holds :
      {A : Type 0} (ps : List AgentProc) (m : Exec W E A) (e : Effect)
      → IsHarmless uid fixed_sock e
      → (w : W × Trace) → Holds ps w
      → Outcome (λ _. Holds ps) Careful (m w.0).0 ((m w.0).1, e ∷ w.1)
  recorded-Holds ps m e k w h =
      Outcome-Holds ps (m w.0).0 ((m w.0).1, e ∷ w.1)
        (k w.1 h.0, AreTrusted-cons uid fixed_sock ps e w.1 h.1)

  pub remove_if_leftover-Holds :
      (ps : List AgentProc) (path : Text) (shape : Shape) (v : W) (t : Trace)
      → Holds ps (v, looked path shape ∷ t)
      → Holds ps
          (remove_if (traced io) (is_socket_or_symlink shape) path (v, looked path shape ∷ t)).1
  remove_if_leftover-Holds ps path a_socket v t h =
      ((inl (refl, tt), h.0), AreTrusted-cons uid fixed_sock ps (unlinked path) _ h.1)
  remove_if_leftover-Holds ps path a_symlink v t h =
      ((inl (refl, tt), h.0), AreTrusted-cons uid fixed_sock ps (unlinked path) _ h.1)
  remove_if_leftover-Holds ps path _ v t h = h

  pub stale-Holds :
      (ps : List AgentProc) (path : Text) (w : W × Trace)
      → Holds ps w
      → Holds ps (is_stale_socket_or_symlink (traced io) path w).1
  unfolding is_stale_socket_or_symlink
  stale-Holds ps path w h = answer-Holds ps (io.lstat path) (looked path) (λ a t c. c) w h

  pub clear_stale_path-Holds :
      (ps : List AgentProc) (path : Text) (w : W × Trace)
      → Holds ps w
      → Holds ps (clear_stale_path (traced io) path w).1
  unfolding clear_stale_path
  clear_stale_path-Holds ps path w h =
      let (shape, v) = io.lstat path w.0 in
      remove_if_leftover-Holds ps path shape v w.1
        (answer-Holds ps (io.lstat path) (looked path) (λ a t c. c) w h)

  -- The temporary link may be unlinked at any time.
  pub unlink_adopt-Holds :
      (ps : List AgentProc) (w : W × Trace)
      → Holds ps w
      → Holds ps ((traced io).remove (fixed_sock ++ codes ".adopt") w).1
  unlink_adopt-Holds ps w h =
      answer-Holds ps (io.remove (fixed_sock ++ codes ".adopt"))
        (λ _. unlinked (fixed_sock ++ codes ".adopt")) (λ a t c. (inr refl, c)) w h

  -- The agents found so far do not matter to what a removal of a socket may do.
  pub remove_socket-Holds :
      (path : Text) (w : W × Trace) → Holds [] w → Holds [] (remove_socket (traced io) path w).1
  remove_socket-Holds path w h = ((remove_socket-Ready io uid fixed_sock [] path w (h.0, tt)).0, tt)

  pub clear_unless-Holds :
      (b : Bool) (path : Text) (w : W × Trace)
      → Holds [] w
      → Holds [] (clear_unless (traced io) b path w).1
  clear_unless-Holds true path w h = h
  clear_unless-Holds false path w h = remove_socket-Holds path w h

  pub probe-Holding :
      {F : Type 0} (ps : List AgentProc) (s : Text)
      → Holding {F = F} ps (lift ((traced io).reachable s))
  probe-Holding ps s = record { at = answer-Holds ps (io.reachable s) (probed s) (λ a t c. c) }

  pub clear_unless-Holding :
      {F : Type 0} (b : Bool) (path : Text)
      → Holding {F = F} [] (lift (clear_unless (traced io) b path))
  clear_unless-Holding b path = record { at = clear_unless-Holds b path }

  pub clear_stale_path-Holding :
      {F : Type 0} (ps : List AgentProc) (path : Text)
      → Holding {F = F} ps (lift (clear_stale_path (traced io) path))
  clear_stale_path-Holding ps path = record { at = clear_stale_path-Holds ps path }

  pub stale-Holding :
      {F : Type 0} (ps : List AgentProc) (path : Text)
      → Holding {F = F} ps (lift (is_stale_socket_or_symlink (traced io) path))
  stale-Holding ps path = record { at = stale-Holds ps path }

  pub unlink_adopt-Holding :
      {F : Type 0} (ps : List AgentProc)
      → Holding {F = F} ps (lift ((traced io).remove (fixed_sock ++ codes ".adopt")))
  unlink_adopt-Holding ps = record { at = unlink_adopt-Holds ps }

  pub spawn-Holding : (ps : List AgentProc) (s : Text) → Holding ps ((traced io).start s)
  spawn-Holding ps s = record { at = recorded-Holds ps (io.start s) (spawned s) (λ t c. c) }

  pub write-Holding :
      (ps : List AgentProc) (path text : Text) → Holding ps ((traced io).write_file path text)
  write-Holding ps path text = record {
    at = recorded-Holds ps (io.write_file path text) (wrote path text) (λ t c. c);
  }

  pub symlink-Holding : (ps : List AgentProc) (a b : Text) → Holding ps ((traced io).symlink a b)
  symlink-Holding ps a b = record {
    at = recorded-Holds ps (io.symlink a b) (linked a b) (λ t c. c);
  }

  pub Holding-wrap :
      {F G A : Type 0} (ps : List AgentProc) (f : F → G) (m : Exec (W × Trace) F A)
      → Holding ps m
      → Holding ps (wrap f m)
  Holding-wrap ps f m h = Triple-wrap f m h

  pub ruleset holding_rules = (
    Holding-bind, Holding-pure, Holding-say, Holding-wrap, probe-Holding, clear_unless-Holding,
    clear_stale_path-Holding, stale-Holding, unlink_adopt-Holding, spawn-Holding, write-Holding,
    symlink-Holding,
  )
