-- ===== src/Agent/Tests.antt =====
-- Agents on a host, and what the lifecycle makes of them.
use sshakku.Agent.Ports.{Ports, disaster, a_socket, absent}
use sshakku.Agent.Proc.{AgentProc}
use sshakku.Agent.State.{state_text, read_state}
use sshakku.Agent.State.RoundTrip as RoundTrip
use sshakku.Agent.Ensure.{EnsureConfig, EnsureResult, ensure_agent, sort_by_pid}
use sshakku.Agent.Ensure as Ensure
use sshakku.Agent.Ensure.Outcome as Outcome
use sshakku.Agent.Ensure.Outcome.{IsTold}
use sshakku.Agent.Ensure.Sorting as Sorting
use sshakku.Agent.Ensure.Sorting.{IsSorted, choices, is_choice}
use sshakku.Agent.Ensure.Trace.{traced, IsCareful}
use sshakku.Agent.Ensure.Trace.Adopting as Adopting
use sshakku.Agent.Ensure.Trace.Adopting.{EndsTrusted}
use mathlib.Core.List.{Perm}
use sshakku.Prelude.{
  List, arith, codes, text_eq, pos, [], ◌∷◌, Bool, true, none, some, ◌≡◌, refl, ok, err,
  if◌then◌else◌,
}

-- Two agents of the account: one that answers on its socket, and one that is dead.
abbrev alive : AgentProc
alive = record { pid = pos 40; uid = pos 7; socket = codes "/tmp/alive"; args = [] }

abbrev dead : AgentProc
dead = record { pid = pos 20; uid = pos 7; socket = codes "/tmp/dead"; args = [] }

abbrev host : Bool → Ports (Unit {0}) Bool
host writable = record {
  reachable = λ s w. (text_eq s (codes "/tmp/alive"), w);
  agents = λ w. (ok (alive ∷ dead ∷ []), w);
  start = λ s w. (ok (pos 50), w);
  terminate = λ pid w. (true, w);
  locker = none;
  lstat = λ path w. (if text_eq path (codes "/tmp/dead") then a_socket else absent, w);
  remove = λ path w. (true, w);
  symlink = λ target path w. (ok tt, w);
  rename = λ from to w. (ok tt, w);
  write_file = λ path text w. (if writable then ok tt else err true, w);
  log = λ note w. w;
}

abbrev config : EnsureConfig
config = record {
  fixed_sock = codes "/run/agent";
  legacy_dir = codes "/old";
  state_path = codes "/run/state";
  lock_path = [];
  our_uid = pos 7;
}

ensure_agent-IsSafe_example :
    let (r, after) = ensure_agent (traced (host true)) config (tt, []) in
    IsCareful (pos 7) (codes "/run/agent") after.1 × EndsTrusted config r after.1
ensure_agent-IsSafe_example = Adopting.ensure_agent-IsSafe (host true) config tt

-- What the run on this host returns.
abbrev result : EnsureResult
result = record {
  situation = disaster;
  live = Ensure.socket_endpoint (codes "/run/agent");
  started_pid = pos 0;
  adopted_proc = some alive;
  reaped_result = record { terminated = pos 20 ∷ []; removed_sockets = codes "/tmp/dead" ∷ [] };
  anomaly = Ensure.anomaly_text config alive 1;
}

host-result : (ensure_agent (host true) config tt).0 ≡ ok result
unfolding ensure_agent Ensure.anomaly_text
host-result = refl

ensure_agent-IsTold_example : IsTold config result
ensure_agent-IsTold_example = Outcome.ensure_agent-IsTold (host true) config tt result host-result

healthy_foreign-IsSorted_example :
    (ps : List AgentProc) × ((Ensure.healthy_foreign (host true) (codes "/run/agent") (pos 7) tt).0
      ≡ ok ps)
    × IsSorted ps
    × Perm ps (
        choices
          (is_choice (λ s. text_eq s (codes "/tmp/alive")) (codes "/run/agent") (pos 7))
          (alive ∷ dead ∷ []))
healthy_foreign-IsSorted_example =
    Sorting.healthy_foreign-IsSorted (host true) (λ s. text_eq s (codes "/tmp/alive")) (λ s w. refl)
      (codes "/run/agent") (pos 7) (alive ∷ dead ∷ []) tt refl

read_state-state_text_example :
    read_state (state_text (record { pid = pos 4711; socket = codes "/run/agent" }))
    ≡ record { pid = pos 4711; socket = codes "/run/agent" }
read_state-state_text_example =
    RoundTrip.read_state-state_text 4711 (codes "/run/agent") (omega arith) (omega arith)
