-- ===== src/Agent/Ports.antt =====
-- What internal/agent reaches outside of itself: the interfaces of a Manager (Prober, ProcLister,
-- Runner, Signaler, Locker), the calls of package os, and the session log. Each operation takes
-- the world that it finds and returns the one that it leaves.
use sshakku.Agent.Proc.{AgentProc}
use sshakku.Prelude.{ℕ, Text, ℤ, List, Option, Bool, Exec}

-- What os.Lstat finds at a path.
pub data Shape : Type 0 where
  absent a_socket a_symlink another : Shape

-- ReapResult
pub record ReapResult : Type 0 where
  pub terminated : List ℤ
  pub removed_sockets : List Text

-- Situation
pub data Situation : Type 0 where
  healthy clean zombie foreign disaster : Situation

-- What the lifecycle logs, by the values that each line shows.
pub data Note : Type 0 where
  reaped : ReapResult → Note
  removed_stale : Text → Note
  replacing_stale : Text → Note
  started : ℤ → Text → Situation → Note
  adopted : Text → Note
  passed_over : ℕ → Note

pub record Ports (W E : Type 0) : Type 0 where
  -- Prober
  pub reachable : Text → W → Bool × W
  -- ProcLister
  pub agents : Exec W E (List AgentProc)
  -- Runner
  pub start : Text → Exec W E ℤ
  -- Signaler: whether the signal was delivered
  pub terminate : ℤ → W → Bool × W
  -- Locker: none disables locking; the result releases the lock
  pub locker : Option (Text → Exec W E (W → W))
  -- os.Lstat, os.Remove (whether it removed), os.Symlink, os.Rename, os.WriteFile
  pub lstat : Text → W → Shape × W
  pub remove : Text → W → Bool × W
  pub symlink : Text → Text → Exec W E (Unit {0})
  pub rename : Text → Text → Exec W E (Unit {0})
  pub write_file : Text → Text → Exec W E (Unit {0})
  pub log : Note → W → W
