-- ===== src/Keys/Load/Trace/Whole.antt =====
-- The batch as a whole: what LoadKeys asks, spends, stores and locks.
use sshakku.FilePath.{base}
use sshakku.Keys.Fingerprint.{agent_fingerprints, ssh_add_or_default}
use sshakku.Keys.Load.{
  Ports, Session, Config, LoadError, no_ssh_add, fingerprints_failed, enumerate_failed, Step,
  log_failure,
}
use sshakku.Keys.Load.Batch.{
  load_one, unless_ended, load_each, locked_if, lock_after, within, must_ask, load_some,
  some_or_none, load_keys,
}
use sshakku.Keys.Load.Trace.{closed, Trace, traced, traced_session, asked_count, is_open, IsHonest}
use sshakku.Keys.Load.Trace.Rounds.{Held, IsSound}
use sshakku.Prelude.{
  ℕ, Text, codes, List, [], ◌∷◌, Bool, true, false, Option, none, some, ◌≡◌, refl, ap, ◌∙◌, Exec,
  Result, ok, err, wrapped, ◌>>=◌, lift, Outcome, Triple, Triple-bind, Triple-pre,
}
use sshakku.Keys.Load.Trace.OneKey.{
  Between, Bounded, Closed, load_one-Bounded, log_failure-keeps, pured-keeps,
}

module _ {W E : Type 0} (io : Ports W E) (cfg : Config) where
  module _ (fail : Held io cfg → Type 0) where
    Outcome-Between :
        (k : Text) (n : ℕ) (r : Result (LoadError E) Bool) (h : Held io cfg)
        → Outcome (Bounded io cfg k n) fail r h
        → Outcome (Between io cfg) fail r h
    Outcome-Between k n (ok b) h q = q.0
    Outcome-Between k n (err e) h q = q

    load_one-Between :
        (keyfile : Text) (loaded : List Text)
        → Triple
            (Between io cfg false)
            (Between io cfg)
            fail
            (load_one (traced io) cfg keyfile loaded)
    load_one-Between keyfile loaded = record {
      at = λ h p. Outcome-Between (base keyfile) _ _ _ (
          (load_one-Bounded io cfg fail keyfile loaded (asked_count (base keyfile) h.0.1)).at h
            (p, refl));
    }

    unless_ended-IsSound :
        (rest : Step (traced io) (Unit {0})) (b : Bool)
        → Triple (Between io cfg false) (λ _. IsSound io cfg) fail rest
        → Triple (Between io cfg b) (λ _. IsSound io cfg) fail (unless_ended (traced io) cfg rest b)
    unless_ended-IsSound rest true t = record { at = λ h p. p }
    unless_ended-IsSound rest false t = t

    load_each-IsSound :
        (keyfiles loaded : List Text)
        → Triple
            (Between io cfg false)
            (λ _. IsSound io cfg)
            fail
            (load_each (traced io) cfg keyfiles loaded)
    unfolding load_each
    load_each-IsSound [] loaded = record { at = λ h p. p.0 }
    load_each-IsSound (keyfile ∷ keyfiles) loaded =
        Triple-bind _ _ (load_one-Between keyfile loaded)
          (λ ended. unless_ended-IsSound _ ended (load_each-IsSound keyfiles loaded))

  -- The state in front of the batch.
  abbrev Fresh : Held io cfg → Type 0
  Fresh h = (h.0.1 ≡ []) × (h.1 ≡ false)

  Fresh-Closed : (h : Held io cfg) → Fresh h → Closed io cfg h
  Fresh-Closed h f = rw (f.0) (tt, refl)

  wrapped-Fresh :
      {F A : Type 0} (wrong : F → LoadError E) (r : Result F A) (h : Held io cfg)
      → Fresh h
      → Outcome (λ _. Fresh) (Closed io cfg) (wrapped wrong r) h
  wrapped-Fresh wrong (ok a) h f = f
  wrapped-Fresh wrong (err e) h f = Fresh-Closed h f

  within-Fresh :
      {A : Type 0} (wrong : E → LoadError E) (m : Exec (W × Trace) E A)
      → ((w : W × Trace) → (m w).1.1 ≡ w.1)
      → Triple Fresh (λ _. Fresh) (Closed io cfg) (within (traced io) cfg wrong m)
  within-Fresh wrong m q = record {
    at = λ h f. wrapped-Fresh wrong (m h.0).0 ((m h.0).1, h.1) (q h.0 ∙ f.0, f.1);
  }

  must_ask-Fresh :
      (o : Option E) → Triple Fresh (λ _. Fresh) (Closed io cfg) (must_ask (traced io) cfg o)
  must_ask-Fresh none = record { at = λ h f. f }
  must_ask-Fresh (some e) = record { at = λ h f. Fresh-Closed h f }

  agent_fingerprints-keeps :
      (name : Text) (w : W × Trace) → (agent_fingerprints (traced io).run name w).1.1 ≡ w.1
  unfolding agent_fingerprints
  agent_fingerprints-keeps name w =
      let (r, w') = io.run (ssh_add_or_default name) (codes "-l" ∷ []) w.0 in
      ap (λ (v : W × Trace). v.1) (pured-keeps io cfg (Closed io cfg) _ r (w', w.1))

  -- CanAsk leaves the record as it is.
  asked-Fresh :
      Triple {E = LoadError E} Fresh
        (λ _. Fresh)
        (Closed io cfg)
        (lift (λ (h : Held io cfg). let (o, w) = (traced io).can_ask h.0 in (o, (w, h.1))))
  asked-Fresh = record { at = λ h f. f }

  Fresh-Between : (h : Held io cfg) → Fresh h → Between io cfg false h
  Fresh-Between h f = rw (f.0, f.1) ((tt, refl), tt)

  module _ (post : Held io cfg → Type 0) where
    load_some-Triple :
        (keyfiles : List Text)
        → Triple (IsSound io cfg) (λ _. post) (Closed io cfg) (lock_after (traced io) cfg)
        → Triple Fresh (λ _. post) (Closed io cfg) (load_some (traced io) cfg keyfiles)
    unfolding load_some
    load_some-Triple keyfiles t =
        Triple-bind {mid = λ _. Fresh} _ _
          (within-Fresh no_ssh_add (traced io).ssh_add_name (λ w. refl))
          (λ name. Triple-bind {mid = λ _. Fresh} _ _ asked-Fresh (λ refusal.
            Triple-bind {mid = λ _. Fresh} _ _ (must_ask-Fresh refusal) (λ _.
              Triple-bind {mid = λ _. Fresh} _ _
                (within-Fresh fingerprints_failed (agent_fingerprints (traced io).run name)
                  (agent_fingerprints-keeps name))
                (λ loaded.
                  Triple-bind {mid = λ _. IsSound io cfg} _ _
                    (Triple-pre _ (load_each-IsSound (Closed io cfg) keyfiles loaded) Fresh-Between)
                    (λ _. t)))))

    some_or_none-Triple :
        (keyfiles : List Text)
        → ((h : Held io cfg) → Closed io cfg h → post h)
        → Triple (IsSound io cfg) (λ _. post) (Closed io cfg) (lock_after (traced io) cfg)
        → Triple Fresh (λ _. post) (Closed io cfg) (some_or_none (traced io) cfg keyfiles)
    some_or_none-Triple [] c t = record { at = λ h f. c _ (Fresh-Closed h f) }
    some_or_none-Triple (keyfile ∷ keyfiles) c t = load_some-Triple (keyfile ∷ keyfiles) t

    load_keys-Outcome :
        (w : W)
        → ((h : Held io cfg) → Closed io cfg h → post h)
        → Triple (IsSound io cfg) (λ _. post) (Closed io cfg) (lock_after (traced io) cfg)
        → let m =
            within (traced io) cfg enumerate_failed (traced io).keys
            >>= some_or_none (traced io) cfg in
          Outcome (λ _. post) (Closed io cfg) (m ((w, []), false)).0 (m ((w, []), false)).1
    load_keys-Outcome w c t =
        (Triple-bind {mid = λ _. Fresh} _ (some_or_none (traced io) cfg)
            (within-Fresh enumerate_failed (traced io).keys (λ w. refl))
            (λ keyfiles. some_or_none-Triple keyfiles c t)).at
          ((w, []), false) (refl, refl)

  lock_failure-keeps :
      (r : Result E (Unit {0})) (h : Held io cfg)
      → (log_failure (traced io) (codes "lock secret store" ∷ []) r h).1.0.1 ≡ h.0.1
  lock_failure-keeps (ok a) h = refl
  lock_failure-keeps (err e) h = refl

  locked-IsHonest :
      (s : Option (Session W E)) (b : Bool) (h : Held io cfg)
      → IsHonest cfg h.0.1
      → is_open h.0.1 ≡ b
      → Outcome
          (λ _ h. IsHonest cfg h.0.1)
          (Closed io cfg)
          (locked_if (traced io) cfg (traced_session s) b h).0
          (locked_if (traced io) cfg (traced_session s) b h).1
  locked-IsHonest none b h p q = p
  locked-IsHonest (some s) false h p q = p
  locked-IsHonest (some s) true h p q =
      let (r, w) = s.lock h.0.0 in
      (log_failure-keeps io cfg (Closed io cfg) (λ t b. IsHonest cfg t)
          (codes "lock secret store" ∷ []) r).at
        ((w, closed ∷ h.0.1), h.1) (q, p)

  locked-Closed :
      (s : Session W E) (b : Bool) (h : Held io cfg)
      → IsHonest cfg h.0.1
      → is_open h.0.1 ≡ b
      → Outcome
          (λ _. Closed io cfg)
          (Closed io cfg)
          (locked_if (traced io) cfg (traced_session (some s)) b h).0
          (locked_if (traced io) cfg (traced_session (some s)) b h).1
  locked-Closed s false h p q = (p, q)
  locked-Closed s true h p q =
      let (r, w) = s.lock h.0.0 in
      (log_failure-keeps io cfg (Closed io cfg) (λ t b. IsHonest cfg t × (is_open t ≡ false))
          (codes "lock secret store" ∷ []) r).at
        ((w, closed ∷ h.0.1), h.1) ((q, p), refl)

  IsHonest-either_way :
      (r : Result (LoadError E) (Unit {0})) (h : Held io cfg)
      → Outcome (λ _ h. IsHonest cfg h.0.1) (Closed io cfg) r h
      → IsHonest cfg h.0.1
  IsHonest-either_way (ok a) h p = p
  IsHonest-either_way (err e) h p = p.0

  Closed-either_way :
      (r : Result (LoadError E) (Unit {0})) (h : Held io cfg)
      → Outcome (λ _. Closed io cfg) (Closed io cfg) r h
      → is_open h.0.1 ≡ false
  Closed-either_way (ok a) h p = p.1
  Closed-either_way (err e) h p = p.1

  -- However the collaborators answer, and whether or not it succeeds, a run of LoadKeys is honest:
  -- ssh-add is given a passphrase for a file only where it is non-empty and was typed for the
  -- file's key, or is not blank and came from the wallet under the key's service; what is stored
  -- was accepted by ssh-add, and the policy lets it be stored; a key is given up only once it was
  -- asked for as often as is allowed; after a prompt was closed nothing more is asked where that
  -- means to stop; and the wallet is unlocked only where each unlock before was followed by a call
  -- of Lock, and Lock is called only where one was not.
  pub load_keys-IsHonest : (w : W) → IsHonest cfg (load_keys (traced io) cfg (w, [])).1.1
  unfolding load_keys lock_after
  load_keys-IsHonest w = IsHonest-either_way _ _ (
      load_keys-Outcome (λ h. IsHonest cfg h.0.1) w (λ h c. c.0)
        (record { at = λ h p. locked-IsHonest io.session h.1 h p.0 p.1 }))

  -- With a wallet that is unlocked for a session, a run of LoadKeys, whether or not it succeeds, ends
  -- with every unlock that succeeded followed by a call of Lock, which may itself fail.
  pub load_keys_locks :
      (s : Session W E) (w : W)
      → io.session ≡ some s
      → is_open (load_keys (traced io) cfg (w, [])).1.1 ≡ false
  unfolding load_keys lock_after
  load_keys_locks s w e = Closed-either_way _ _ (
      load_keys-Outcome (Closed io cfg) w (λ h c. c)
        (record { at = λ h p. rw e (locked-Closed s h.1 h p.0 p.1) }))
