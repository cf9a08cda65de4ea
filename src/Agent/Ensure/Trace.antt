-- ===== src/Agent/Ensure/Trace.antt =====
-- The calls that internal/agent makes of its ports, recorded in order, and what is demanded of
-- such a record.
pub mod Reaping
pub mod Holding
pub mod Finding
pub mod Adopting
use mathlib.Core.List.{Memᴰ}
use sshakku.Agent.Ports.{Ports, Shape, a_socket, a_symlink}
use sshakku.Agent.Proc.{AgentProc}
use sshakku.Prelude.{
  Text, codes, ℤ, List, [], ◌∷◌, ◌++◌, Bool, true, false, Option, none, some, ◌≡◌, ◌≢◌, ◌⊎◌, inl,
  inr, Exec, Result, ok, err,
}

-- A call that was made, with its answer where it is one that decides something.
pub data Effect : Type 0 where
  probed : Text → Bool → Effect
  listed : List AgentProc → Effect
  signalled : ℤ → Effect
  looked : Text → Shape → Effect
  unlinked : Text → Effect
  spawned : Text → Effect
  linked : Text → Text → Effect
  renamed : Text → Text → Effect
  wrote : Text → Text → Effect

-- The latest call comes first.
abbrev pub Trace : Type 0
Trace = List Effect

abbrev pub with_listed : {E : Type 0} → Result E (List AgentProc) → Trace → Trace
with_listed (ok ps) t = listed ps ∷ t
with_listed (err e) t = t

abbrev pub recorded :
    {W E A : Type 0} → Exec W E A → (Result E A → Trace → Trace) → Exec (W × Trace) E A
recorded m note w = let (r, w') = m w.0 in (r, (w', note r w.1))

abbrev pub recorded_answer :
    {W A : Type 0} → (W → A × W) → (A → Effect) → W × Trace → A × (W × Trace)
recorded_answer m note w = let (a, w') = m w.0 in (a, (w', note a ∷ w.1))

abbrev pub recorded_unlock : {W E : Type 0} → Result E (W → W) → Result E (W × Trace → W × Trace)
recorded_unlock (ok unlock) = ok (λ w. (unlock w.0, w.1))
recorded_unlock (err e) = err e

abbrev pub recorded_lock :
    {W E : Type 0}
    → Option (Text → Exec W E (W → W))
    → Option (Text → Exec (W × Trace) E (W × Trace → W × Trace))
recorded_lock none = none
recorded_lock (some lock) =
    some (λ path w. let (r, w') = lock path w.0 in (recorded_unlock r, (w', w.1)))

-- The same ports, recording what is asked of them.
abbrev pub traced : {W E : Type 0} → Ports W E → Ports (W × Trace) E
traced io = record {
  reachable = λ s. recorded_answer (io.reachable s) (probed s);
  agents = recorded io.agents with_listed;
  start = λ s. recorded (io.start s) (λ _ t. spawned s ∷ t);
  terminate = λ pid. recorded_answer (io.terminate pid) (λ _. signalled pid);
  locker = recorded_lock io.locker;
  lstat = λ path. recorded_answer (io.lstat path) (looked path);
  remove = λ path. recorded_answer (io.remove path) (λ _. unlinked path);
  symlink = λ target path. recorded (io.symlink target path) (λ _ t. linked target path ∷ t);
  rename = λ from to. recorded (io.rename from to) (λ _ t. renamed from to ∷ t);
  write_file = λ path text. recorded (io.write_file path text) (λ _ t. wrote path text ∷ t);
  log = λ note w. (io.log note w.0, w.1);
}

-- The process was in a list that the host gave.
abbrev pub Listed : AgentProc → Trace → Type 0
Listed p [] = ⊥
Listed p (listed ps ∷ t) = Memᴰ p ps ⊎ Listed p t
Listed p (_ ∷ t) = Listed p t

-- The last call was a probe of the socket, which nothing answered.
abbrev pub SilentBefore : Text → Trace → Type 0
SilentBefore s (probed s' b ∷ t) = (s' ≡ s) × (b ≡ false)
SilentBefore s _ = ⊥

-- A probe of the socket was answered.
abbrev pub Answered : Text → Trace → Type 0
Answered s [] = ⊥
Answered s (probed s' b ∷ t) = ((s' ≡ s) × (b ≡ true)) ⊎ Answered s t
Answered s (_ ∷ t) = Answered s t

abbrev pub IsLeftover : Shape → Type 0
IsLeftover a_socket = Unit
IsLeftover a_symlink = Unit
IsLeftover _ = ⊥

-- The last call found a socket or a symlink at the path.
abbrev pub LeftoverBefore : Text → Trace → Type 0
LeftoverBefore path (looked path' shape ∷ t) = (path' ≡ path) × IsLeftover shape
LeftoverBefore path _ = ⊥

-- A signal goes to a listed process of the account, whose socket was just found silent.
abbrev pub MaySignal : ℤ → ℤ → Trace → Type 0
MaySignal uid pid t =
    (p : AgentProc) × Listed p t
    × (p.pid ≡ pid)
    × (p.uid ≡ uid)
    × (p.socket ≢ [])
    × SilentBefore p.socket t

-- What is unlinked was just seen to be a socket or a symlink, or is the temporary link.
abbrev pub MayUnlink : Text → Text → Trace → Type 0
MayUnlink fixed_sock path t = LeftoverBefore path t ⊎ (path ≡ fixed_sock ++ codes ".adopt")

-- Every signal and every unlinking of a record was allowed when it was made.
abbrev pub IsCareful : ℤ → Text → Trace → Type 0
IsCareful uid fixed_sock [] = Unit
IsCareful uid fixed_sock (signalled pid ∷ t) = MaySignal uid pid t × IsCareful uid fixed_sock t
IsCareful uid fixed_sock (unlinked path ∷ t) =
    MayUnlink fixed_sock path t × IsCareful uid fixed_sock t
IsCareful uid fixed_sock (_ ∷ t) = IsCareful uid fixed_sock t
