-- ===== src/Agent/Ensure.antt =====
-- EnsureAgent of internal/agent/ensure.go: the fixed socket is driven to a healthy ssh-agent.
pub mod Sorting
pub mod Trace
pub mod Outcome
use sshakku.Agent.Ports.{
  Ports, ReapResult, Situation, healthy, clean, zombie, foreign, disaster, Note, reaped,
  removed_stale, replacing_stale, started, adopted, passed_over,
}
use sshakku.Agent.Proc as Proc
use sshakku.Agent.Proc.{AgentProc, ProcKind, classify}
use sshakku.Agent.Reap.{
  StartError, AdoptError, ours, is_stale_socket_or_symlink, clear_stale_path, start, reap,
  adopt_symlink,
}
use sshakku.Prelude.{
  ℕ, ◌+◌, ltb, Text, codes, text_eq, join, ℤ, pos, int_ltb, show_int, show_nat, List, [], ◌∷◌, ◌++◌,
  length, Bool, true, false, not, ◌&&◌, ◌||◌, Option, none, some, if◌then◌else◌, Exec, Result, ok,
  err, continue, ◌>>=◌, ◌>>◌, pure, throw, lift, wrap,
}

-- Endpoint of internal/agent/endpoint.go
pub record Endpoint : Type 0 where
  pub native : Text
  pub posix : Text

-- SocketEndpoint
unfoldable pub socket_endpoint : Text → Endpoint
socket_endpoint path = record { native = path; posix = path }

pub record EnsureConfig : Type 0 where
  pub fixed_sock : Text
  pub legacy_dir : Text
  pub state_path : Text
  pub lock_path : Text
  pub our_uid : ℤ

-- `started` is 0 where no agent was started, and `anomaly` empty where there was none.
pub record EnsureResult : Type 0 where
  pub situation : Situation
  pub live : Endpoint
  pub started_pid : ℤ
  pub adopted_proc : Option AgentProc
  pub reaped_result : ReapResult
  pub anomaly : Text

pub data EnsureError (E : Type 0) : Type 0 where
  lock_failed reap_failed inspect_failed : E → EnsureError E
  start_failed : StartError E → EnsureError E
  adopt_failed : ℤ → AdoptError E → EnsureError E

abbrev pub nothing_reaped : ReapResult
nothing_reaped = record { terminated = []; removed_sockets = [] }

abbrev pub healthy_result : EnsureConfig → EnsureResult
healthy_result cfg = record {
  situation = healthy;
  live = socket_endpoint cfg.fixed_sock;
  started_pid = pos 0;
  adopted_proc = none;
  reaped_result = nothing_reaped;
  anomaly = [];
}

-- Sorting by pid. A process in front of sorted ones goes behind those with a smaller pid.
unfoldable pub insert_by_pid : AgentProc → List AgentProc → List AgentProc
insert_by_pid p [] = p ∷ []
insert_by_pid p (q ∷ qs) =
    let rest = insert_by_pid p qs in if int_ltb q.pid p.pid then q ∷ rest else p ∷ q ∷ qs

unfoldable pub sort_by_pid : List AgentProc → List AgentProc
unfolding insert_by_pid
sort_by_pid [] = []
sort_by_pid (p ∷ ps) = insert_by_pid p (sort_by_pid ps)

abbrev pub is_empty : {A : Type 0} → List A → Bool
is_empty [] = true
is_empty (a ∷ rest) = false

-- Whether a reaping did anything.
abbrev pub has_reaped : ReapResult → Bool
has_reaped res = not (is_empty res.terminated) || not (is_empty res.removed_sockets)

-- What the report of an adoption calls the agent.
abbrev pub kind_name : ProcKind → Text
kind_name ProcKind.ours = codes "ours"
kind_name ProcKind.legacy = codes "legacy"
kind_name ProcKind.foreign = codes "foreign"

-- The anomaly text of adoptOne, for a number of healthy agents.
unfoldable pub anomaly_text : EnsureConfig → AgentProc → ℕ → Text
anomaly_text cfg p present =
    codes "adopted "
    ++ (kind_name (classify p cfg.fixed_sock cfg.legacy_dir)
        ++ (codes " ssh-agent pid "
            ++ (show_int p.pid
                ++ (codes " (uid "
                    ++ (show_int p.uid
                        ++ (codes ") on "
                            ++ (p.socket
                                ++ (codes " via the fixed socket; argv: "
                                    ++ (join 32 p.args
                                        ++ (if ltb 1 present
                                            then codes "; "
                                              ++ (show_nat present
                                                  ++ codes " healthy agents were present")
                                            else []))))))))))

abbrev pub cons_kept : Bool → AgentProc → List AgentProc → List AgentProc
cons_kept true p rest = p ∷ rest
cons_kept false p rest = rest

abbrev pub count_passed : Bool → ℕ → ℕ
count_passed true n = n + 1
count_passed false n = n

abbrev pub with_stale : Bool → Text → ReapResult → ReapResult
with_stale true path res = record res { removed_sockets = res.removed_sockets ++ path ∷ [] }
with_stale false path res = res

module _ {W E : Type 0} (io : Ports W E) where
  abbrev pub say : Note → W → Unit {0} × W
  say note w = (tt, io.log note w)

  abbrev pub say_if : Bool → Note → W → Unit {0} × W
  say_if true note w = say note w
  say_if false note w = (tt, w)

  -- Whether the loop of healthyForeign keeps the process, and whether it passes it over.
  unfoldable pub foreign_one : AgentProc → Text → ℤ → W → (Bool × Bool) × W
  unfolding ours
  foreign_one p fixed_sock our_uid w =
      if text_eq p.socket [] || text_eq p.socket fixed_sock
      then ((false, false), w)
      else if not (ours p our_uid)
      then ((false, true), w)
      else let (there, w') = io.reachable p.socket w in ((there, false), w')

  -- The loop of healthyForeign: what it keeps, and how many it passes over.
  unfoldable pub foreign_loop : List AgentProc → Text → ℤ → W → (List AgentProc × ℕ) × W
  unfolding foreign_one
  foreign_loop [] fixed_sock our_uid w = (([], 0), w)
  foreign_loop (p ∷ ps) fixed_sock our_uid w =
      let (seen, w') = foreign_one p fixed_sock our_uid w in
      let (rest, w'') = foreign_loop ps fixed_sock our_uid w' in
      ((cons_kept seen.0 p rest.0, count_passed seen.1 rest.1), w'')

  -- healthyForeign
  unfoldable pub healthy_foreign : Text → ℤ → Exec W (EnsureError E) (List AgentProc)
  unfolding foreign_loop sort_by_pid
  healthy_foreign fixed_sock our_uid = do
    procs ← wrap inspect_failed io.agents
    found ← lift (foreign_loop procs fixed_sock our_uid)
    lift (say_if (ltb 0 found.1) (passed_over found.1))
    pure (sort_by_pid found.0)

  -- startOurOwn
  unfoldable pub start_our_own :
      EnsureConfig → ReapResult → Bool → Exec W (EnsureError E) EnsureResult
  unfolding clear_stale_path start
  start_our_own cfg reap_result was_reaped = do
    cleared ← lift (clear_stale_path io cfg.fixed_sock)
    lift (say_if cleared (removed_stale cfg.fixed_sock))
    pid ← wrap start_failed (start io cfg.fixed_sock cfg.state_path)
    let sit = if was_reaped || cleared then zombie else clean
    lift (say (started pid cfg.fixed_sock sit))
    pure (record {
      situation = sit;
      live = socket_endpoint cfg.fixed_sock;
      started_pid = pid;
      adopted_proc = none;
      reaped_result = with_stale cleared cfg.fixed_sock reap_result;
      anomaly = [];
    })

  -- adoptOne, of the first of the healthy agents and the others
  unfoldable pub adopt_one :
      EnsureConfig
      → AgentProc
      → List AgentProc
      → ReapResult
      → Bool
      → Exec W (EnsureError E) EnsureResult
  unfolding is_stale_socket_or_symlink adopt_symlink anomaly_text
  adopt_one cfg adopt others reap_result was_reaped = do
    stale ← lift (is_stale_socket_or_symlink io cfg.fixed_sock)
    lift (say_if stale (replacing_stale cfg.fixed_sock))
    wrap (adopt_failed adopt.pid) (adopt_symlink io cfg.fixed_sock adopt.socket)
    let anomaly = anomaly_text cfg adopt (length (adopt ∷ others))
    lift (say (adopted anomaly))
    pure (record {
      situation = if not (is_empty others) || (was_reaped || stale) then disaster else foreign;
      live = socket_endpoint cfg.fixed_sock;
      started_pid = pos 0;
      adopted_proc = some adopt;
      reaped_result = with_stale stale cfg.fixed_sock reap_result;
      anomaly = anomaly;
    })

  abbrev pub start_or_adopt :
      EnsureConfig → List AgentProc → ReapResult → Bool → Exec W (EnsureError E) EnsureResult
  start_or_adopt cfg [] reap_result was_reaped = start_our_own cfg reap_result was_reaped
  start_or_adopt cfg (adopt ∷ others) reap_result was_reaped =
      adopt_one cfg adopt others reap_result was_reaped

  -- EnsureAgent from the reaping on.
  unfoldable pub recover : EnsureConfig → Exec W (EnsureError E) EnsureResult
  unfolding reap healthy_foreign start_our_own adopt_one
  recover cfg = do
    reap_result ← wrap reap_failed (reap io cfg.our_uid)
    lift (say_if (has_reaped reap_result) (reaped reap_result))
    others ← healthy_foreign cfg.fixed_sock cfg.our_uid
    start_or_adopt cfg others reap_result (has_reaped reap_result)

  abbrev pub healthy_or :
      EnsureConfig
      → Exec W (EnsureError E) EnsureResult
      → Bool
      → Exec W (EnsureError E) EnsureResult
  healthy_or cfg m true = pure (healthy_result cfg)
  healthy_or cfg m false = m

  -- A probe of the fixed socket, and what is done where nothing answers on it.
  unfoldable pub unless_healthy :
      EnsureConfig → Exec W (EnsureError E) EnsureResult → Exec W (EnsureError E) EnsureResult
  unless_healthy cfg m = do there ← lift (io.reachable cfg.fixed_sock); healthy_or cfg m there

  -- What runs under the lock, and the release behind it.
  abbrev pub released :
      Exec W (EnsureError E) EnsureResult → Result E (W → W) → Exec W (EnsureError E) EnsureResult
  released m (err e) w = (err (lock_failed e), w)
  released m (ok unlock) w = let (r, w') = m w in (r, unlock w')

  abbrev pub locked :
      Option (Text → Exec W E (W → W)) → EnsureConfig → Exec W (EnsureError E) EnsureResult
  locked none cfg = recover cfg
  locked (some lock) cfg = if text_eq cfg.lock_path [] then recover cfg else λ w.
      let (r, w') = lock cfg.lock_path w in released (unless_healthy cfg (recover cfg)) r w'

  -- EnsureAgent
  unfoldable pub ensure_agent : EnsureConfig → Exec W (EnsureError E) EnsureResult
  unfolding unless_healthy recover
  ensure_agent cfg = unless_healthy cfg (locked io.locker cfg)
