-- ===== src/Agent/Reap.antt =====
-- Manager.Start and Manager.Reap of internal/agent/manage.go, and the file helpers of ensure.go.
use sshakku.Agent.Ports.{Ports, Shape, a_socket, a_symlink, ReapResult}
use sshakku.Agent.Proc.{AgentProc}
use sshakku.Agent.State.{state_text}
use sshakku.Prelude.{
  Text, codes, text_eq, ℤ, int_eq, List, [], ◌∷◌, ◌++◌, Bool, true, false, not, ◌&&◌, if◌then◌else◌,
  Exec, Result, ok, err, ◌>>=◌, ◌>>◌, pure, lift, wrap,
}

-- ours
unfoldable pub ours : AgentProc → ℤ → Bool
ours p our_uid = int_eq p.uid our_uid

-- Why Start failed. An agent whose recording failed is up, and has its pid.
pub data StartError (E : Type 0) : Type 0 where
  not_started : E → StartError E
  not_recorded : ℤ → E → StartError E

-- Why adoptSymlink failed.
pub data AdoptError (E : Type 0) : Type 0 where
  symlink_failed : Text → E → AdoptError E
  activate_failed : Text → E → AdoptError E

abbrev pub is_socket : Shape → Bool
is_socket a_socket = true
is_socket _ = false

abbrev pub is_socket_or_symlink : Shape → Bool
is_socket_or_symlink a_socket = true
is_socket_or_symlink a_symlink = true
is_socket_or_symlink _ = false

abbrev pub cons_if : {A : Type 0} → Bool → A → List A → List A
cons_if true a rest = a ∷ rest
cons_if false a rest = rest

module _ {W E : Type 0} (io : Ports W E) where
  abbrev pub remove_if : Bool → Text → W → Bool × W
  remove_if true path w = io.remove path w
  remove_if false path w = (false, w)

  -- removeSocket
  unfoldable pub remove_socket : Text → W → Bool × W
  remove_socket path w = let (shape, w') = io.lstat path w in remove_if (is_socket shape) path w'

  -- isStaleSocketOrSymlink
  unfoldable pub is_stale_socket_or_symlink : Text → W → Bool × W
  is_stale_socket_or_symlink path w =
      let (shape, w') = io.lstat path w in (is_socket_or_symlink shape, w')

  -- clearStalePath
  unfoldable pub clear_stale_path : Text → W → Bool × W
  unfolding is_stale_socket_or_symlink
  clear_stale_path path w =
      let (stale, w') = is_stale_socket_or_symlink path w in remove_if stale path w'

  abbrev pub clear_unless : Bool → Text → W → Bool × W
  clear_unless true socket w = (false, w)
  clear_unless false socket w = remove_socket socket w

  -- Start
  unfoldable pub start : Text → Text → Exec W (StartError E) ℤ
  unfolding remove_socket
  start socket state_path = do
    there ← lift (io.reachable socket)
    lift (clear_unless there socket)
    pid ← wrap not_started (io.start socket)
    wrap (not_recorded pid)
        (io.write_file state_path (state_text (record { pid = pid; socket = socket })))
    pure pid

  -- The body of Reap's loop, for a process that is dead and ours: what it adds to the result.
  unfoldable pub reap_one : AgentProc → W → (Bool × Bool) × W
  unfolding remove_socket
  reap_one p w =
      let (signalled, w') = io.terminate p.pid w in
      let (removed, w'') = remove_socket p.socket w' in ((signalled, removed), w'')

  -- Whether the loop of Reap goes on to the signal. A process without a socket is not probed.
  unfoldable pub is_dead : AgentProc → W → Bool × W
  is_dead p w =
      if text_eq p.socket []
      then (false, w)
      else let (there, w') = io.reachable p.socket w in (not there, w')

  -- The loop of Reap.
  unfoldable pub reap_loop : List AgentProc → ℤ → W → ReapResult × W
  unfolding reap_one is_dead ours
  reap_loop [] our_uid w = (record { terminated = []; removed_sockets = [] }, w)
  reap_loop (p ∷ ps) our_uid w =
      let (dead, w') = is_dead p w in
      let (done, w'') = if dead && ours p our_uid then reap_one p w' else ((false, false), w') in
      let (res, w''') = reap_loop ps our_uid w'' in
      (
        record {
          terminated = cons_if done.0 p.pid res.terminated;
          removed_sockets = cons_if done.1 p.socket res.removed_sockets;
        },
        w''',
      )

  -- Reap
  unfoldable pub reap : ℤ → Exec W E ReapResult
  unfolding reap_loop
  reap our_uid = do procs ← io.agents; lift (reap_loop procs our_uid)

  abbrev pub activated : Text → Text → Result E (Unit {0}) → Exec W (AdoptError E) (Unit {0})
  activated tmp fixed_sock (ok done) w = (ok tt, w)
  activated tmp fixed_sock (err e) w =
      let (_, w') = io.remove tmp w in (err (activate_failed fixed_sock e), w')

  -- The last step of adoptSymlink: a rename that fails leaves no temporary link.
  unfoldable pub activate : Text → Text → Exec W (AdoptError E) (Unit {0})
  activate tmp fixed_sock w =
      let (r, w') = io.rename tmp fixed_sock w in activated tmp fixed_sock r w'

  -- adoptSymlink
  unfoldable pub adopt_symlink : Text → Text → Exec W (AdoptError E) (Unit {0})
  unfolding activate
  adopt_symlink fixed_sock target = do
    let tmp = fixed_sock ++ codes ".adopt"
    lift (io.remove tmp)
    wrap (symlink_failed target) (io.symlink target tmp)
    activate tmp fixed_sock
