-- ===== src/Keys/Load/Trace/Asking.antt =====
-- The attempts at one key: what is asked, what is spent and what is stored.
use mathlib.Core.List.{Memᴰ}
use sshakku.FilePath.{base}
use sshakku.Keys.Load.{
  Ports, PromptError, on_dismiss_of, Config, wallet_stores, service_of, label_of, KeyOutcome,
  key_loaded, Step, ensure_unlocked, session_store, fail_add,
}
use sshakku.Keys.Load.Attempts.{stored_note, store_passphrase, spent_typed, answered, prompt_loop}
use sshakku.Keys.Load.Trace.{
  Reply, typed, asked, spent, kept, Trace, reply_of, accepted_by, traced, traced_session,
  asked_count, is_open, MayAsk, dismissed, unanswered, IsHonest,
}
use sshakku.Prelude.{
  ℕ, zero, suc, ◌+◌, ◌≤◌, Text, text_eq, text_eq_iff, text_eq_refl, ℤ, pos, int_eq, [], ◌∷◌, Bool,
  true, false, Bool-cases, ◌≡◌, ◌≢◌, refl, inl, inr, arith, Result, ok, err, ◌>>◌, pure, Outcome,
  Triple, Triple-bind,
}
use sshakku.Keys.Load.Trace.Rounds.{
  Held, Round, Left, MayAskBehind, Prompted, ensure_unlocked-keeps, opened-IsSound, settled_or-Left,
  prompt_failure_outcome-Settles,
}

module _ {W E : Type 0} (io : Ports W E) (cfg : Config) where
  module _ (fail : Held io cfg → Type 0) where
    stored_note-keeps :
        (P : Trace → Bool → Type 0) (keyname : Text) (r : Result E (Unit {0})) (h : Held io cfg)
        → P h.0.1 h.1
        → Outcome
            (λ _ h. P h.0.1 h.1)
            fail
            (stored_note (traced io) cfg keyname r h).0
            (stored_note (traced io) cfg keyname r h).1
    stored_note-keeps P keyname (ok done) h p = p
    stored_note-keeps P keyname (err e) h p = p

    -- The key is open by a passphrase.
    abbrev Opened : Text → Text → ℕ → Trace → Bool → Type 0
    Opened keyfile pass hi t b =
        IsHonest cfg t
        × (is_open t ≡ b)
        × (asked_count (base keyfile) t ≤ hi)
        × MayAsk (on_dismiss_of cfg.on_dismiss) t
        × Memᴰ (spent keyfile pass true) t

    -- A passphrase that ssh-add accepted is stored where the policy lets it.
    store_passphrase-Opened :
        (keyfile pass : Text) (hi : ℕ)
        → Triple
            (λ h. Opened keyfile pass hi h.0.1 h.1)
            (λ _ h. Opened keyfile pass hi h.0.1 h.1)
            fail
            (store_passphrase (traced io) cfg (service_of cfg (base keyfile)) (base keyfile) pass)
    unfolding store_passphrase session_store
    store_passphrase-Opened keyfile pass hi = record {
      at = λ h p. elim (Bool-cases (wallet_stores cfg (base keyfile))) [
        | inr e ↦ rw e p
        | inl e ↦ rw e (
            let (w, b) = ensure_unlocked (traced io) (traced_session io.session) h in
            let q =
              ensure_unlocked-keeps io cfg fail (Opened keyfile pass hi)
                (λ t b q.
                  let (s, o) = opened-IsSound io cfg fail t b (q.0, q.1) in
                  (s, o, q.2, q.3, Memᴰ.tail q.4))
                io.session h p in
            let (r, w') =
              io.store (service_of cfg (base keyfile)) (label_of (base keyfile)) pass w.0 in
            stored_note-keeps (Opened keyfile pass hi) (base keyfile) r
              ((w', kept (service_of cfg (base keyfile)) pass ∷ w.1), b)
              (((keyfile, q.4, refl, e), q.0), q.1, q.2, q.3, Memᴰ.tail q.4))
      ];
    }

    stored_and_loaded :
        (keyfile pass : Text) (hi : ℕ)
        → Triple
            (λ h. Opened keyfile pass hi h.0.1 h.1)
            (Left io cfg (base keyfile) hi)
            fail
            (store_passphrase (traced io) cfg (service_of cfg (base keyfile)) (base keyfile) pass
              >> pure key_loaded)
    stored_and_loaded keyfile pass hi =
        Triple-bind _ _ (store_passphrase-Opened keyfile pass hi)
          (λ _. record { at = λ h q. ((q.0, q.1), q.2, q.3) })

    -- The record when ssh-add was given a passphrase that was typed.
    typed-IsHonest :
        (keyfile pass : Text) (hi left : ℕ) (b : Bool) (h : Held io cfg)
        → Prompted io cfg (base keyfile) hi left (typed pass) h
        → pass ≢ []
        → IsHonest cfg (spent keyfile pass b ∷ h.0.1)
    typed-IsHonest keyfile pass hi left b h p n = (inl (n, p.there), p.sound.0)

    -- ssh-add's answer to a passphrase that was typed, with the record of it.
    spent_typed-Left :
        (keyfile pass : Text) (hi left attempt max : ℕ) (again : Step (traced io) KeyOutcome)
        → Triple (Round io cfg (base keyfile) hi left) (Left io cfg (base keyfile) hi) fail again
        → (r : Result E ℤ) (h : Held io cfg) → Prompted io cfg (base keyfile) hi left (typed pass) h
        → pass ≢ []
        → let h' : Held io cfg = ((h.0.0, spent keyfile pass (accepted_by r) ∷ h.0.1), h.1) in
          let m =
            spent_typed
              (traced io)
              cfg
              (service_of cfg (base keyfile))
              (base keyfile)
              pass
              attempt
              max
              again
              r in
          Outcome (Left io cfg (base keyfile) hi) fail (m h').0 (m h').1
    unfolding fail_add
    spent_typed-Left keyfile pass hi left attempt max again t (err e) h p n =
        let c = p.counted in
        ((typed-IsHonest keyfile pass hi left false h p n, p.sound.1), omega arith, p.may)
    spent_typed-Left keyfile pass hi left attempt max again t (ok rc) h p n =
        let c = p.counted in
        elim (Bool-cases (int_eq rc (pos 0))) [
          | inl e ↦ rw e (
              (stored_and_loaded keyfile pass hi).at _ (
                typed-IsHonest keyfile pass hi left true h p n,
                p.sound.1,
                omega arith,
                p.may,
                Memᴰ.head refl,
              ))
          | inr e ↦
              rw e (t.at _ ((typed-IsHonest keyfile pass hi left false h p n, p.sound.1), p.may, c))
        ]

    -- One round, behind the prompt.
    answered-Left :
        (keyfile : Text) (hi left attempt max : ℕ) (again : Step (traced io) KeyOutcome)
        → Triple (Round io cfg (base keyfile) hi left) (Left io cfg (base keyfile) hi) fail again
        → (r : Result (PromptError E) Text)
        → Triple
            (Prompted io cfg (base keyfile) hi left (reply_of r))
            (Left io cfg (base keyfile) hi)
            fail
            (answered
              (traced io)
              cfg
              (service_of cfg (base keyfile))
              keyfile
              (base keyfile)
              attempt
              max
              again
              r)
    answered-Left keyfile hi left attempt max again t (err e) =
        Triple-bind _ _
          (prompt_failure_outcome-Settles io cfg fail (base keyfile) hi left attempt max e)
          (λ out. settled_or-Left io cfg fail (base keyfile) hi left again out t)
    answered-Left keyfile hi left attempt max again t (ok pass) = record {
      at = λ h p. elim (Bool-cases (text_eq pass [])) [
        | inl e ↦ rw e (t.at _ (p.sound, p.may, p.counted))
        | inr e ↦ rw e (
            spent_typed-Left keyfile pass hi left attempt max again t (io.add keyfile pass h.0.0).0
              (((io.add keyfile pass h.0.0).1, h.0.1), h.1)
              (record { sound = p.sound; counted = p.counted; may = p.may; there = p.there })
              (λ q. ground (arith, text_eq_iff pass [])))
      ];
    }

    asked-Prompted :
        (k : Text) (hi left : ℕ) (r : Reply) (w : W) (h : Held io cfg)
        → Round io cfg k hi (suc left) h
        → Prompted io cfg k hi left r ((w, asked k r ∷ h.0.1), h.1)
    asked-Prompted k hi left r w h p = record {
      sound = ((p.1, p.0.0), p.0.1);
      counted = rw (text_eq_refl k) (let c = p.2 in omega arith);
      may = behind r;
      there = Memᴰ.head refl;
    }
      where
        behind : (r : Reply) → MayAskBehind io cfg r (asked k r ∷ h.0.1)
        behind (typed pass) = p.1
        behind dismissed = tt
        behind unanswered = p.1

    pub prompt_loop-Left :
        (keyfile : Text) (hi left attempt max : ℕ)
        → Triple (Round io cfg (base keyfile) hi left) (Left io cfg (base keyfile) hi) fail (
            prompt_loop
              (traced io)
              cfg
              left
              attempt
              max
              (service_of cfg (base keyfile))
              keyfile
              (base keyfile))
    unfolding prompt_loop
    prompt_loop-Left keyfile hi zero attempt max = record {
      at = λ h p. let c = p.2 in (p.0, omega arith, (p.1, omega arith));
    }
    prompt_loop-Left keyfile hi (suc left) attempt max = record {
      at = λ h p.
          let (r, w) = io.prompt (base keyfile) h.0.0 in
          (answered-Left keyfile hi left attempt max _
              (prompt_loop-Left keyfile hi left (attempt + 1) max) r).at
            _ (asked-Prompted (base keyfile) hi left (reply_of r) w h p);
    }
