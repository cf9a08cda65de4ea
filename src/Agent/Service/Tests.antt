-- ===== src/Agent/Service/Tests.antt =====
-- A service that comes up one wait after it was started.
use sshakku.Agent.Service.{
  ServiceState, something_else, stopped, starting, running, ServiceControl, refused,
  ensure_service_running,
}
use sshakku.Agent.Service.Outcome as Outcome
use sshakku.Agent.Service.Outcome.{Deadline}
use sshakku.Prelude.{
  ℕ, zero, suc, ◌<◌, Bool, true, false, none, some, Result, ok, err, ◌≡◌, refl, arith,
}

-- The waits that are left, and what the service is doing.
abbrev World : Type 0
World = ℕ × ServiceState

abbrev come_up : ServiceState → ServiceState
come_up starting = running
come_up running = running
come_up stopped = stopped
come_up something_else = stopped

abbrev wait_once : World → Result Bool (Unit {0}) × World
wait_once (zero, s) = (err true, (zero, s))
wait_once (suc n, s) = (ok tt, (n, come_up s))

abbrev service : ServiceControl World Bool
service = record {
  state = λ w. (ok w.1, w);
  start = λ w. (ok tt, (w.0, starting));
  wait = wait_once;
}

wait_once-lt : (w : World) → (wait_once w).0 ≡ ok tt → (wait_once w).1.0 < w.0
wait_once-lt (zero, s) h = cc
wait_once-lt (suc n, s) h = omega arith

abbrev ten_waits : Deadline service
ten_waits = record {
  left = λ w. w.0;
  wait_takes = wait_once-lt;
  state_keeps = λ w. omega arith;
  start_keeps = λ w. omega arith;
}

brought_up : ensure_service_running service 4 (10, stopped) ≡ some ((true, none), (9, running))
unfolding ensure_service_running
brought_up = refl

too_late :
    ensure_service_running service 4 (0, starting)
    ≡ some ((false, some (refused true)), (0, starting))
unfolding ensure_service_running
too_late = refl
