-- ===== src/Keys/Askpass/Storing.antt =====
-- What the broker of askpass.go stores: a record of the checks that it makes and of what it keeps.
use mathlib.Core.List.{Memᴰ}
use sshakku.FilePath.{base}
use sshakku.Keys.Load.{Config, wallet_stores, service_of}
use sshakku.Keys.Askpass.{
  Ports, is_wrong, store_noted, store_unless_wrong, store_typed, typed_for, ask, ask_if_wrong,
  from_wallet, relayed, answer_for, answer, parse_passphrase_prompt,
}
use sshakku.Prelude.{
  Text, text_eq, trim_space, List, [], ◌∷◌, Bool, true, false, Bool-cases, not, ◌&&◌, Option, none,
  some, ◌≡◌, refl, inl, inr, Result, ok, err,
}

pub data Event : Type 0 where
  -- A passphrase tried on a file, and whether it was wrong for it.
  checked : Text → Text → Bool → Event
  kept : Text → Text → Event

-- The last event comes first.
abbrev pub Trace : Type 0
Trace = List Event

abbrev pub quiet : {W A : Type 0} → (W → A × W) → W × Trace → A × (W × Trace)
quiet m w = let (a, w') = m w.0 in (a, (w', w.1))

abbrev pub noted : {W A : Type 0} → (W → A × W) → (A → Event) → W × Trace → A × (W × Trace)
noted m note w = let (a, w') = m w.0 in (a, (w', note a ∷ w.1))

-- The same collaborators, recording what is tried and what is kept.
abbrev pub traced : {W E : Type 0} → Ports W E → Ports (W × Trace) E
traced io = record {
  lookup = λ service. quiet (io.lookup service);
  store = λ service label pass. noted (io.store service label pass) (λ _. kept service pass);
  prompt = λ question hidden. quiet (io.prompt question hidden);
  passphrase_opens = λ keyfile pass.
      noted (io.passphrase_opens keyfile pass) (λ v. checked keyfile pass (is_wrong v));
  match_prompt = io.match_prompt;
  to_lower = io.to_lower;
  log = λ line w. (io.log line w.0, w.1);
}

-- A passphrase was tried on a file of the service and was not wrong for it, and the policy lets it
-- be stored.
abbrev pub MayKeep : Config → Text → Text → Trace → Type 0
MayKeep cfg service pass t =
    (keyfile : Text) × Memᴰ (checked keyfile pass false) t
    × (service ≡ service_of cfg (base keyfile))
    × (wallet_stores cfg (base keyfile) ≡ true)

-- Each passphrase of a record was kept where it might be.
abbrev pub KeepsOpening : Config → Trace → Type 0
KeepsOpening cfg [] = Unit
KeepsOpening cfg (checked f p b ∷ t) = KeepsOpening cfg t
KeepsOpening cfg (kept s p ∷ t) = MayKeep cfg s p t × KeepsOpening cfg t

module _ {W E : Type 0} (io : Ports W E) (cfg : Config) where
  abbrev Keeps : W × Trace → Type 0
  Keeps w = KeepsOpening cfg w.1

  store_noted-Keeps :
      (k : Text) (r : Result E (Unit {0})) (w : W × Trace)
      → Keeps w
      → Keeps (store_noted (traced io) cfg k r w)
  store_noted-Keeps k (ok done) w h = h
  store_noted-Keeps k (err e) w h = h

  store_unless_wrong-Keeps :
      (keyfile pass : Text) (b : Bool) (w : W × Trace)
      → Keeps w
      → Memᴰ (checked keyfile pass b) w.1
      → wallet_stores cfg (base keyfile) ≡ true
      → Keeps (
          store_unless_wrong
            (traced io)
            cfg
            (service_of cfg (base keyfile))
            (base keyfile)
            pass
            b
            w)
  store_unless_wrong-Keeps keyfile pass true w h m s = h
  store_unless_wrong-Keeps keyfile pass false w h m s =
      let k = base keyfile in
      let (r, w') = io.store (service_of cfg k) (sshakku.Keys.Load.label_of k) pass w.0 in
      store_noted-Keeps k r (w', kept (service_of cfg k) pass ∷ w.1) ((keyfile, m, refl, s), h)

  store_typed-Keeps :
      (keyfile pass : Text) (w : W × Trace)
      → Keeps w
      → Keeps (
          store_typed (traced io) cfg (service_of cfg (base keyfile)) (base keyfile) keyfile pass w)
  unfolding store_typed
  store_typed-Keeps keyfile pass w h = elim (Bool-cases (wallet_stores cfg (base keyfile))) [
    | inr n ↦ rw n h
    | inl s ↦ rw s (
        let (v, w') = io.passphrase_opens keyfile pass w.0 in
        store_unless_wrong-Keeps keyfile pass (is_wrong v)
          (w', checked keyfile pass (is_wrong v) ∷ w.1) h (Memᴰ.head refl) s)
  ]

  typed_for-Keeps :
      (keyfile : Text) (r : Result E Text) (w : W × Trace)
      → Keeps w
      → Keeps
          (typed_for (traced io) cfg (service_of cfg (base keyfile)) (base keyfile) keyfile r w).1
  typed_for-Keeps keyfile (err e) w h = h
  typed_for-Keeps keyfile (ok typed) w h = elim (Bool-cases (text_eq (trim_space typed) [])) [
    | inl e ↦ rw e h
    | inr e ↦ rw e (store_typed-Keeps keyfile typed w h)
  ]

  ask-Keeps :
      (question keyfile : Text) (w : W × Trace)
      → Keeps w
      → Keeps
          (ask (traced io) cfg question (service_of cfg (base keyfile)) (base keyfile) keyfile w).1
  unfolding ask
  ask-Keeps question keyfile w h =
      let (r, w') = io.prompt question true w.0 in typed_for-Keeps keyfile r (w', w.1) h

  ask_if_wrong-Keeps :
      (question keyfile pass : Text) (b : Bool) (w : W × Trace)
      → Keeps w
      → Keeps
          (ask_if_wrong
            (traced io)
            cfg
            question
            (service_of cfg (base keyfile))
            (base keyfile)
            keyfile
            pass
            b
            w).1
  ask_if_wrong-Keeps question keyfile pass false w h = h
  ask_if_wrong-Keeps question keyfile pass true w h = ask-Keeps question keyfile (_, w.1) h

  from_wallet-Keeps :
      (question keyfile : Text) (r : Result E (Text × Bool)) (w : W × Trace)
      → Keeps w
      → Keeps
          (from_wallet
            (traced io)
            cfg
            question
            (service_of cfg (base keyfile))
            (base keyfile)
            keyfile
            r
            w).1
  from_wallet-Keeps question keyfile (err e) w h = ask-Keeps question keyfile (_, w.1) h
  from_wallet-Keeps question keyfile (ok (pass, found)) w h =
      elim (Bool-cases (found && not (text_eq (trim_space pass) []))) [
        | inr e ↦ rw e (ask-Keeps question keyfile w h)
        | inl e ↦ rw e (
            let (v, w') = io.passphrase_opens keyfile pass w.0 in
            ask_if_wrong-Keeps question keyfile pass (is_wrong v)
              (w', checked keyfile pass (is_wrong v) ∷ w.1) h)
      ]

  relayed-Keeps :
      (r : Result E Text) (w : W × Trace) → Keeps w → Keeps (relayed (traced io) cfg r w).1
  relayed-Keeps (ok a) w h = h
  relayed-Keeps (err e) w h = h

  answer_for-Keeps :
      (question : Text) (o : Option Text) (w : W × Trace)
      → Keeps w
      → Keeps (answer_for (traced io) cfg question o w).1
  answer_for-Keeps question none w h = relayed-Keeps _ (_, w.1) h
  answer_for-Keeps question (some keyfile) w h =
      let (r, w') = io.lookup (service_of cfg (base keyfile)) w.0 in
      from_wallet-Keeps question keyfile r (w', w.1) h

  -- However the collaborators answer, the broker stores a passphrase only where it was tried on a
  -- key's file and was not found wrong for it, under that key's service, and where the policy lets
  -- it be stored.
  pub answer-KeepsOpening :
      (question : Text) (w : W) → KeepsOpening cfg (answer (traced io) cfg question (w, [])).1.1
  unfolding answer
  answer-KeepsOpening question w =
      answer_for-Keeps question (parse_passphrase_prompt (traced io) cfg question) (w, []) tt
