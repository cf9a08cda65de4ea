-- ===== src/Agent/Ensure/Trace/Adopting.antt =====
-- EnsureAgent as a whole: it signals nobody else's process, unlinks nothing but sockets and links,
-- and points the session at no agent of another account.
use sshakku.Agent.Ports.{Situation, Note, reaped, ReapResult, Ports}
use sshakku.Agent.Proc.{AgentProc}
use sshakku.Agent.Reap.{start, activate, activated, adopt_symlink}
use sshakku.Agent.Ensure.{
  has_reaped, Endpoint, EnsureConfig, EnsureResult, EnsureError, say_if, start_our_own, adopt_one,
  start_or_adopt, recover, healthy_or, unless_healthy, released, locked, ensure_agent, reap_failed,
}
use sshakku.Agent.Ensure.Trace.{renamed, Trace, traced, recorded_unlock, recorded_lock, IsCareful}
use sshakku.Agent.Ensure.Trace.Reaping.{reap-IsCareful}
use sshakku.Prelude.{
  Text, codes, text_eq, ℤ, List, [], ◌∷◌, ◌++◌, Bool, true, false, Bool-cases, Option, none, some,
  inl, inr, Exec, Result, ok, err, ◌>>=◌, pure, lift, Triple, Triple-pure, Triple-bind, Triple-wrap,
  Outcome,
}
use sshakku.Agent.Ensure.Trace.Holding.{
  IsTrusted, Holds, Careful, Holding, holding_rules, AreTrusted-cons, unlink_adopt-Holds,
}
use sshakku.Agent.Ensure.Trace.Finding.{healthy_foreign-Triple}

-- The agent that a result names as adopted may be adopted.
abbrev pub AdoptsTrusted : ℤ → Text → Option AgentProc → Trace → Type 0
AdoptsTrusted uid fixed_sock none t = Unit
AdoptsTrusted uid fixed_sock (some p) t = IsTrusted uid fixed_sock p t

-- The same of what a run ends in.
abbrev pub EndsTrusted : {F : Type 0} → EnsureConfig → Result F EnsureResult → Trace → Type 0
EndsTrusted cfg (ok r) t = AdoptsTrusted cfg.our_uid cfg.fixed_sock r.adopted_proc t
EndsTrusted cfg (err e) t = Unit

module _ {W E : Type 0} (io : Ports W E) (uid : ℤ) (fixed_sock : Text) where
  abbrev Hold : {F A : Type 0} → List AgentProc → Exec (W × Trace) F A → Type 0
  Hold ps m = Holding io uid fixed_sock ps m

  start-Holding : (socket state_path : Text) → Hold [] (start (traced io) socket state_path)
  unfolding start
  start-Holding socket state_path = search holding_rules depth 12

  abbrev Safe : EnsureResult → W × Trace → Type 0
  Safe r w = IsCareful uid fixed_sock w.1 × AdoptsTrusted uid fixed_sock r.adopted_proc w.1

  -- The action ends in a safe result, from agents that may be adopted.
  abbrev Ends : {F : Type 0} → List AgentProc → Exec (W × Trace) F EnsureResult → Type 0
  Ends ps m = Triple (Holds io uid fixed_sock ps) Safe (Careful io uid fixed_sock) m

  Ends-bind :
      {F A : Type 0} (ps : List AgentProc) (m : Exec (W × Trace) F A)
      (f : A → Exec (W × Trace) F EnsureResult)
      → Hold ps m
      → ((a : A) → Ends ps (f a))
      → Ends ps (m >>= f)
  Ends-bind ps m f t k = Triple-bind m f t k

  start_our_own-Ends :
      (cfg : EnsureConfig) (res : ReapResult) (b : Bool)
      → Ends [] (start_our_own (traced io) cfg res b)
  unfolding start_our_own
  start_our_own-Ends cfg res b =
      search (holding_rules, Ends-bind, start-Holding, Triple-pure) depth 12

  activated-Hold :
      (ps : List AgentProc) (r : Result E (Unit {0})) (w : W × Trace)
      → Holds io uid fixed_sock ps w
      → Outcome
          (λ _. Holds io uid fixed_sock ps)
          (Careful io uid fixed_sock)
          (activated (traced io) (fixed_sock ++ codes ".adopt") fixed_sock r w).0
          (activated (traced io) (fixed_sock ++ codes ".adopt") fixed_sock r w).1
  activated-Hold ps (ok done) w h = h
  activated-Hold ps (err e) w h = (unlink_adopt-Holds io uid fixed_sock ps w h).0

  activate-Hold :
      (ps : List AgentProc)
      → Hold ps (activate (traced io) (fixed_sock ++ codes ".adopt") fixed_sock)
  unfolding activate
  activate-Hold ps = record {
    at = λ w h.
        let tmp = fixed_sock ++ codes ".adopt" in
        let (r, v) = io.rename tmp fixed_sock w.0 in
        activated-Hold ps r (v, renamed tmp fixed_sock ∷ w.1)
          (h.0, AreTrusted-cons uid fixed_sock ps (renamed tmp fixed_sock) w.1 h.1);
  }

  adopt_symlink-Hold :
      (ps : List AgentProc) (target : Text) → Hold ps (adopt_symlink (traced io) fixed_sock target)
  unfolding adopt_symlink
  adopt_symlink-Hold ps target = search (holding_rules, activate-Hold) depth 12

module _ {W E : Type 0} (io : Ports W E) (cfg : EnsureConfig) where
  abbrev CarefulNow : W × Trace → Type 0
  CarefulNow = Careful io cfg.our_uid cfg.fixed_sock

  adopted-Ends :
      {F : Type 0} (p : AgentProc) (ps : List AgentProc) (sit : Situation) (live : Endpoint)
      (pid : ℤ) (res : ReapResult) (text : Text)
      → Ends io cfg.our_uid cfg.fixed_sock {F = F} (p ∷ ps) (
          pure (record {
            situation = sit;
            live = live;
            started_pid = pid;
            adopted_proc = some p;
            reaped_result = res;
            anomaly = text;
          }))
  adopted-Ends p ps sit live pid res text = record { at = λ w h. (h.0, h.1.0) }

  adopt_one-Ends :
      (p : AgentProc) (ps : List AgentProc) (res : ReapResult) (b : Bool)
      → Ends io cfg.our_uid cfg.fixed_sock (p ∷ ps) (adopt_one (traced io) cfg p ps res b)
  unfolding adopt_one
  adopt_one-Ends p ps res b =
      search (holding_rules, Ends-bind, adopt_symlink-Hold, adopted-Ends) depth 12

  -- The result is safe whether or not agents of others were found.
  start_or_adopt-Ends :
      (ps : List AgentProc) (res : ReapResult) (b : Bool)
      → Ends io cfg.our_uid cfg.fixed_sock ps (start_or_adopt (traced io) cfg ps res b)
  start_or_adopt-Ends [] res b = start_our_own-Ends io cfg.our_uid cfg.fixed_sock cfg res b
  start_or_adopt-Ends (p ∷ ps) res b = adopt_one-Ends p ps res b

  abbrev SafeRun : {F : Type 0} → Exec (W × Trace) F EnsureResult → Type 0
  SafeRun m = Triple CarefulNow (Safe io cfg.our_uid cfg.fixed_sock) CarefulNow m

  say_if-Careful :
      {F : Type 0} (b : Bool) (note : Note)
      → Triple {E = F} CarefulNow (λ _. CarefulNow) CarefulNow (lift (say_if (traced io) b note))
  say_if-Careful true note = record { at = λ w h. h }
  say_if-Careful false note = record { at = λ w h. h }

  recover-Triple : SafeRun (recover (traced io) cfg)
  unfolding recover
  recover-Triple =
      Triple-bind {mid = λ _. CarefulNow} _ _
        (Triple-wrap reap_failed _ (reap-IsCareful io cfg.our_uid cfg.fixed_sock))
        (λ res.
          Triple-bind {mid = λ _. CarefulNow} _ _ (say_if-Careful (has_reaped res) (reaped res))
            (λ _.
              Triple-bind _ _ (healthy_foreign-Triple io cfg.our_uid cfg.fixed_sock)
                (λ others. start_or_adopt-Ends others res (has_reaped res))))

  healthy_or-Triple :
      (m : Exec (W × Trace) (EnsureError E) EnsureResult) (b : Bool)
      → SafeRun m
      → SafeRun (healthy_or (traced io) cfg m b)
  healthy_or-Triple m true t = record { at = λ w h. (h, tt) }
  healthy_or-Triple m false t = t

  unless_healthy-Triple :
      (m : Exec (W × Trace) (EnsureError E) EnsureResult)
      → SafeRun m
      → SafeRun (unless_healthy (traced io) cfg m)
  unfolding unless_healthy
  unless_healthy-Triple m t =
      Triple-bind {mid = λ _. CarefulNow} (lift ((traced io).reachable cfg.fixed_sock)) _
        (record { at = λ w h. h }) (λ there. healthy_or-Triple m there t)

  Safe-ends :
      {F : Type 0} (r : Result F EnsureResult) (w : W × Trace)
      → Outcome (Safe io cfg.our_uid cfg.fixed_sock) CarefulNow r w
      → IsCareful cfg.our_uid cfg.fixed_sock w.1 × EndsTrusted cfg r w.1
  Safe-ends (ok r) w h = h
  Safe-ends (err e) w h = (h, tt)

  -- Releasing the lock changes the world and not the record.
  Outcome-unlocked :
      {F : Type 0} (r : Result F EnsureResult) (unlock : W → W) (w : W × Trace)
      → Outcome (Safe io cfg.our_uid cfg.fixed_sock) CarefulNow r w
      → Outcome (Safe io cfg.our_uid cfg.fixed_sock) CarefulNow r (unlock w.0, w.1)
  Outcome-unlocked (ok a) unlock w h = h
  Outcome-unlocked (err e) unlock w h = h

  released-Outcome :
      (m : Exec (W × Trace) (EnsureError E) EnsureResult) (r : Result E (W → W)) (w : W × Trace)
      → SafeRun m
      → CarefulNow w
      → Outcome
          (Safe io cfg.our_uid cfg.fixed_sock)
          CarefulNow
          (released (traced io) m (recorded_unlock r) w).0
          (released (traced io) m (recorded_unlock r) w).1
  released-Outcome m (ok unlock) w t h = Outcome-unlocked (m w).0 unlock (m w).1 (t.at w h)
  released-Outcome m (err e) w t h = h

  locked-Triple :
      (l : Option (Text → Exec W E (W → W))) → SafeRun (locked (traced io) (recorded_lock l) cfg)
  locked-Triple none = recover-Triple
  locked-Triple (some lock) = elim (Bool-cases (text_eq cfg.lock_path [])) [
    | inl e ↦ rw e recover-Triple
    | inr e ↦ rw e (record {
      at = λ w h.
          released-Outcome (unless_healthy (traced io) cfg (recover (traced io) cfg))
            (lock cfg.lock_path w.0).0 ((lock cfg.lock_path w.0).1, w.1)
            (unless_healthy-Triple (recover (traced io) cfg) recover-Triple) h;
    })
  ]

  ensure_agent-Triple : SafeRun (ensure_agent (traced io) cfg)
  unfolding ensure_agent
  ensure_agent-Triple = unless_healthy-Triple _ (locked-Triple io.locker)

  -- However the ports answer, and whether or not it succeeds, a run of EnsureAgent signals only
  -- processes of the account that were listed and have just been found silent, and unlinks only
  -- what it has just seen to be a socket or a symlink, and its own temporary link. Where it
  -- succeeds and names an agent as adopted, that agent was listed, is of the account, and
  -- answered on a socket of its own other than the fixed one.
  pub ensure_agent-IsSafe :
      (w : W)
      → let (r, after) = ensure_agent (traced io) cfg (w, []) in
        IsCareful cfg.our_uid cfg.fixed_sock after.1 × EndsTrusted cfg r after.1
  ensure_agent-IsSafe w =
      Safe-ends (ensure_agent (traced io) cfg (w, [])).0 (ensure_agent (traced io) cfg (w, [])).1
        (ensure_agent-Triple.at (w, []) tt)
