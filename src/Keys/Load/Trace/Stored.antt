-- ===== src/Keys/Load/Trace/Stored.antt =====
-- One key as a whole: the passphrase that the wallet holds, then the attempts.
use mathlib.Core.List.{Memᴰ}
use sshakku.FilePath.{base}
use sshakku.Keys.Load.{
  Ports, on_dismiss_of, Config, service_of, ensure_unlocked, session_lookup, fail_add,
}
use sshakku.Keys.Load.Attempts.{
  stored_of, stored_passphrase, spent_stored, try_held, try_stored_passphrase,
  load_via_vault_then_prompt,
}
use sshakku.Keys.Load.Trace.{
  spent, looked, accepted_by, held_by, traced, traced_session, asked_count, is_open, MayAsk,
  IsHonest,
}
use sshakku.Prelude.{
  ℕ, ◌+◌, Text, text_eq, trim_space, ℤ, pos, int_eq, [], ◌∷◌, Bool, true, false, Bool-cases, some,
  ◌≡◌, refl, inl, inr, arith, Result, ok, err, Outcome, Triple, Triple-bind,
}
use sshakku.Keys.Load.Trace.Rounds.{
  Held, Round, Left, Settles, ensure_unlocked-keeps, opened-IsSound, settled_or-Left,
}
use sshakku.Keys.Load.Trace.Asking.{prompt_loop-Left}

module _ {W E : Type 0} (io : Ports W E) (cfg : Config) (fail : Held io cfg → Type 0) where
  -- What the wallet was found to hold for a key.
  abbrev HasStored : Text → ℕ → ℕ → Text × Bool → Held io cfg → Type 0
  HasStored k hi left (pass, true) h =
      Round io cfg k hi left h
      × (text_eq (trim_space pass) [] ≡ false)
      × Memᴰ (looked (service_of cfg k) (some pass)) h.0.1
  HasStored k hi left (pass, false) h = Round io cfg k hi left h

  stored_of-HasStored :
      (k : Text) (hi left : ℕ) (r : Result E (Text × Bool))
      → Triple
          (λ h. Round io cfg k hi left h × Memᴰ (looked (service_of cfg k) (held_by r)) h.0.1)
          (HasStored k hi left)
          fail
          (stored_of (traced io) cfg k r)
  stored_of-HasStored k hi left (err e) = record { at = λ h p. p.0 }
  stored_of-HasStored k hi left (ok (pass, false)) = record { at = λ h p. p.0 }
  stored_of-HasStored k hi left (ok (pass, true)) = record {
    at = λ h p. elim (Bool-cases (text_eq (trim_space pass) [])) [
      | inl e ↦ rw e p.0
      | inr e ↦ rw e (p.0, e, p.1)
    ];
  }

  stored_passphrase-HasStored :
      (k : Text) (hi left : ℕ)
      → Triple
          (Round io cfg k hi left)
          (HasStored k hi left)
          fail
          (stored_passphrase (traced io) cfg (service_of cfg k) k)
  unfolding stored_passphrase session_lookup
  stored_passphrase-HasStored k hi left = record {
    at = λ h p.
        let (w, b) = ensure_unlocked (traced io) (traced_session io.session) h in
        let q =
          ensure_unlocked-keeps io cfg fail
            (λ t b.
              IsHonest cfg t
              × (is_open t ≡ b)
              × MayAsk (on_dismiss_of cfg.on_dismiss) t
              × (asked_count k t + left ≡ hi))
            (λ t b q. let (s, o) = opened-IsSound io cfg fail t b (q.0, q.1) in (s, o, q.2, q.3))
            io.session h (p.0.0, p.0.1, p.1, p.2) in
        let (r, w') = io.lookup (service_of cfg k) w.0 in
        (stored_of-HasStored k hi left r).at ((w', looked (service_of cfg k) (held_by r) ∷ w.1), b)
          ((((tt, q.0), q.1), q.2, q.3), Memᴰ.head refl);
  }

  spent_stored-Settles :
      (keyfile pass : Text) (hi left : ℕ) (r : Result E ℤ) (h : Held io cfg)
      → HasStored (base keyfile) hi left (pass, true) h
      → let h' : Held io cfg = ((h.0.0, spent keyfile pass (accepted_by r) ∷ h.0.1), h.1) in
        let m = spent_stored (traced io) cfg (base keyfile) r in
        Outcome (Settles io cfg (base keyfile) hi left) fail (m h').0 (m h').1
  unfolding fail_add
  spent_stored-Settles keyfile pass hi left (err e) h p =
      let c = p.0.2 in (((inr (p.1, p.2), p.0.0.0), p.0.0.1), omega arith, p.0.1)
  spent_stored-Settles keyfile pass hi left (ok rc) h p =
      let c = p.0.2 in
      elim (Bool-cases (int_eq rc (pos 0))) [
        | inl e ↦ rw e (((inr (p.1, p.2), p.0.0.0), p.0.0.1), omega arith, p.0.1)
        | inr e ↦ rw e (((inr (p.1, p.2), p.0.0.0), p.0.0.1), p.0.1, c)
      ]

  try_held-Settles :
      (keyfile : Text) (hi left : ℕ) (held : Text × Bool)
      → Triple
          (HasStored (base keyfile) hi left held)
          (Settles io cfg (base keyfile) hi left)
          fail
          (try_held (traced io) cfg keyfile (base keyfile) held)
  try_held-Settles keyfile hi left (pass, false) = record { at = λ h p. p }
  try_held-Settles keyfile hi left (pass, true) = record {
    at = λ h p.
        let (r, w) = io.add keyfile pass h.0.0 in
        spent_stored-Settles keyfile pass hi left r ((w, h.0.1), h.1) p;
  }

  try_stored_passphrase-Settles :
      (keyfile : Text) (hi left : ℕ)
      → Triple (Round io cfg (base keyfile) hi left) (Settles io cfg (base keyfile) hi left) fail (
          try_stored_passphrase
            (traced io)
            cfg
            (service_of cfg (base keyfile))
            keyfile
            (base keyfile))
  unfolding try_stored_passphrase
  try_stored_passphrase-Settles keyfile hi left =
      Triple-bind _ _ (stored_passphrase-HasStored (base keyfile) hi left)
        (λ held. try_held-Settles keyfile hi left held)

  pub load_via-Left :
      (keyfile : Text) (hi max : ℕ)
      → Triple
          (Round io cfg (base keyfile) hi max)
          (Left io cfg (base keyfile) hi)
          fail
          (load_via_vault_then_prompt (traced io) cfg keyfile (base keyfile) max)
  unfolding load_via_vault_then_prompt
  load_via-Left keyfile hi max =
      Triple-bind _ _ (try_stored_passphrase-Settles keyfile hi max) (λ out.
        settled_or-Left io cfg fail (base keyfile) hi max _ out
          (prompt_loop-Left io cfg fail keyfile hi max 1 max))
