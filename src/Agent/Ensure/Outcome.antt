-- ===== src/Agent/Ensure/Outcome.antt =====
-- What EnsureAgent returns: the endpoint, and a situation that tells what was done.
use sshakku.Agent.Ports.{Ports, ReapResult, Situation, healthy, clean, zombie, foreign, disaster}
use sshakku.Agent.Proc.{AgentProc}
use sshakku.Agent.Ensure.{
  socket_endpoint, EnsureConfig, EnsureResult, EnsureError, is_empty, has_reaped, with_stale,
  start_our_own, adopt_one, start_or_adopt, recover, healthy_or, unless_healthy, released, locked,
  ensure_agent,
}
use sshakku.Prelude.{
  Text, text_eq, ℤ, pos, List, [], ◌∷◌, ◌++◌, Bool, true, false, Bool-cases, not, ◌||◌, Option,
  none, some, ◌≡◌, ◌≢◌, refl, inl, inr, arith, Exec, Result, ok, err, pure, lift, Triple-ok,
  Outcome, Gives, Gives-then, if◌then◌else◌,
}

-- What each situation says of the rest of a result.
abbrev pub Tells : Situation → EnsureResult → Type 0
Tells healthy r =
    (r.adopted_proc ≡ none)
    × (r.started_pid ≡ pos 0)
    × (r.anomaly ≡ [])
    × (has_reaped r.reaped_result ≡ false)
Tells clean r = (r.adopted_proc ≡ none) × (r.anomaly ≡ []) × (has_reaped r.reaped_result ≡ false)
Tells zombie r = (r.adopted_proc ≡ none) × (r.anomaly ≡ []) × (has_reaped r.reaped_result ≡ true)
Tells foreign r =
    (r.adopted_proc ≢ none) × (r.started_pid ≡ pos 0) × (has_reaped r.reaped_result ≡ false)
Tells disaster r = (r.adopted_proc ≢ none) × (r.started_pid ≡ pos 0)

abbrev pub IsTold : EnsureConfig → EnsureResult → Type 0
IsTold cfg r = (r.live ≡ socket_endpoint cfg.fixed_sock) × Tells r.situation r

is_empty-append_last : {A : Type 0} (xs : List A) (x : A) → is_empty (xs ++ x ∷ []) ≡ false
is_empty-append_last [] x = refl
is_empty-append_last (y ∷ xs) x = refl

has_reaped-with_stale :
    (b : Bool) (path : Text) (res : ReapResult)
    → has_reaped (with_stale b path res) ≡ (has_reaped res || b)
has_reaped-with_stale true path res = ground (arith, is_empty-append_last res.removed_sockets path)
has_reaped-with_stale false path res = ground arith

module _ {W E : Type 0} (io : Ports W E) (cfg : EnsureConfig) where
  abbrev Told : {F : Type 0} → Exec W F EnsureResult → Type 0
  Told m = Gives (IsTold cfg) m

  started_result-IsTold :
      {F : Type 0} (pid : ℤ) (cleared : Bool) (res : ReapResult)
      → Told {F = F} (
          pure (record {
            situation = if has_reaped res || cleared then zombie else clean;
            live = socket_endpoint cfg.fixed_sock;
            started_pid = pid;
            adopted_proc = none;
            reaped_result = with_stale cleared cfg.fixed_sock res;
            anomaly = [];
          }))
  started_result-IsTold pid cleared res = record {
    at = λ w h. ground (arith, has_reaped-with_stale cleared cfg.fixed_sock res);
  }

  start_our_own-IsTold : (res : ReapResult) → Told (start_our_own io cfg res (has_reaped res))
  unfolding start_our_own
  start_our_own-IsTold res = search (Gives-then, started_result-IsTold) depth 10

  adopted_result-IsTold :
      {F : Type 0} (p : AgentProc) (ps : List AgentProc) (stale : Bool) (res : ReapResult)
      (text : Text)
      → Told {F = F} (
          pure (record {
            situation =
                if not (is_empty ps) || (has_reaped res || stale) then disaster else foreign;
            live = socket_endpoint cfg.fixed_sock;
            started_pid = pos 0;
            adopted_proc = some p;
            reaped_result = with_stale stale cfg.fixed_sock res;
            anomaly = text;
          }))
  adopted_result-IsTold p ps stale res text = record {
    at = λ w h. ground (arith, has_reaped-with_stale stale cfg.fixed_sock res);
  }

  adopt_one-IsTold :
      (p : AgentProc) (ps : List AgentProc) (res : ReapResult)
      → Told (adopt_one io cfg p ps res (has_reaped res))
  unfolding adopt_one
  adopt_one-IsTold p ps res = search (Gives-then, adopted_result-IsTold) depth 10

  start_or_adopt-IsTold :
      (ps : List AgentProc) (res : ReapResult)
      → Told (start_or_adopt io cfg ps res (has_reaped res))
  start_or_adopt-IsTold [] res = start_our_own-IsTold res
  start_or_adopt-IsTold (p ∷ ps) res = adopt_one-IsTold p ps res

  recover-IsTold : Told (recover io cfg)
  unfolding recover
  recover-IsTold = search (Gives-then, start_or_adopt-IsTold) depth 10

  healthy_or-IsTold :
      (m : Exec W (EnsureError E) EnsureResult) (b : Bool) → Told m → Told (healthy_or io cfg m b)
  healthy_or-IsTold m true t = record { at = λ w h. (refl, (refl, refl, refl, refl)) }
  healthy_or-IsTold m false t = t

  unless_healthy-IsTold :
      (m : Exec W (EnsureError E) EnsureResult) → Told m → Told (unless_healthy io cfg m)
  unfolding unless_healthy
  unless_healthy-IsTold m t =
      Gives-then (lift (io.reachable cfg.fixed_sock)) (λ there. healthy_or io cfg m there)
        (λ there. healthy_or-IsTold m there t)

  Outcome-unlocked :
      {F : Type 0} (r : Result F EnsureResult) (unlock : W → W) (w : W)
      → Outcome (λ a _. IsTold cfg a) (λ _. Unit) r w
      → Outcome (λ a _. IsTold cfg a) (λ _. Unit) r (unlock w)
  Outcome-unlocked (ok a) unlock w h = h
  Outcome-unlocked (err e) unlock w h = h

  released-IsTold :
      (m : Exec W (EnsureError E) EnsureResult) (r : Result E (W → W)) (w : W)
      → Told m
      → Outcome (λ a _. IsTold cfg a) (λ _. Unit) (released io m r w).0 (released io m r w).1
  released-IsTold m (ok unlock) w t = Outcome-unlocked (m w).0 unlock (m w).1 (t.at w tt)
  released-IsTold m (err e) w t = tt

  locked-IsTold : (l : Option (Text → Exec W E (W → W))) → Told (locked io l cfg)
  locked-IsTold none = recover-IsTold
  locked-IsTold (some lock) = elim (Bool-cases (text_eq cfg.lock_path [])) [
    | inl e ↦ rw e recover-IsTold
    | inr e ↦ rw e (record {
      at = λ w h.
          released-IsTold (unless_healthy io cfg (recover io cfg)) (lock cfg.lock_path w).0
            (lock cfg.lock_path w).1 (unless_healthy-IsTold (recover io cfg) recover-IsTold);
    })
  ]

  -- A run of EnsureAgent that succeeds points the session at the fixed socket, and the rest of its
  -- result agrees with its situation: an agent is named as adopted under foreign and disaster, and
  -- then none is named as started, and under the others none is named as adopted and there is no
  -- anomaly; nothing is named as started under healthy; and what the result itself lists as
  -- terminated and removed is nothing under healthy, clean and foreign, and something under zombie.
  pub ensure_agent-IsTold :
      (w : W) (r : EnsureResult) → (ensure_agent io cfg w).0 ≡ ok r → IsTold cfg r
  unfolding ensure_agent
  ensure_agent-IsTold w r e =
      Triple-ok (ensure_agent io cfg) w r
        (unless_healthy-IsTold (locked io io.locker cfg) (locked-IsTold io.locker)) tt e
