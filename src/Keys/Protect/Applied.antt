-- ===== src/Keys/Protect/Applied.antt =====
-- What Apply of internal/keys/protect reports of each target.
use sshakku.FilePath.{base}
use sshakku.Keys.Protect.{
  Look, authorized_keys, answer_for, is_protected, Reason, attempt_failed, not_protected_after_all,
  Outcome, nothing_done, reason_of, attempted, unless_said, read_back, apply_to, apply_each,
  apply_protection,
}
use sshakku.Prelude.{
  Text, text_eq, text_eq_refl, List, [], ◌∷◌, ◌++◌, append-nil, append_assoc, Bool, true, false,
  Bool-cases, Option, none, some, Result, ok, err, All, All-append, All-map, ◌≡◌, inl, inr, refl,
  sym, ap, ◌∙◌,
}

-- Each target is in one of three lists, in order: only authorized_keys files are skipped, and
-- nothing else.
pub data Sorted : List Text → List Text → List Text → List Text → Type 0 where
  none_left : Sorted [] [] [] []
  skip :
      (t : Text) {ts ps fs ss : List Text}
      → text_eq (base t) authorized_keys ≡ true
      → Sorted ts ps fs ss
      → Sorted (t ∷ ts) ps fs (t ∷ ss)
  protect_one :
      (t : Text) {ts ps fs ss : List Text}
      → text_eq (base t) authorized_keys ≡ false
      → Sorted ts ps fs ss
      → Sorted (t ∷ ts) (t ∷ ps) fs ss
  fail_one :
      (t : Text) {ts ps fs ss : List Text}
      → text_eq (base t) authorized_keys ≡ false
      → Sorted ts ps fs ss
      → Sorted (t ∷ ts) ps (t ∷ fs) ss

-- A reason is there for a path.
abbrev pub HasReason : {E : Type 0} → List (Text × Reason E) → Text → Type 0
HasReason reasons path = (reason : Reason _) × (reason_of reasons path ≡ some reason)

module _ {W E : Type 0} (protect : Text → W → Result E (Unit {0}) × W) (look : Look W E) where
  -- A path that is found protected stays so, whatever is looked at and attempted.
  pub record StaysProtected : Type 0 where
    pub attempt_keeps :
        (p q : Text) (w : W)
        → (look p w).0 ≡ ok (some true)
        → (look p (protect q w).1).0 ≡ ok (some true)
    pub look_keeps :
        (p q : Text) (w : W)
        → (look p w).0 ≡ ok (some true)
        → (look p (look q w).1).0 ≡ ok (some true)

  abbrev pub IsCovered : W → List Text → Type 0
  IsCovered w = All (λ p. (look p w).0 ≡ ok (some true))

  pub record IsSound (targets : List Text) (res : Outcome E) (w : W) : Type 0 where
    pub sorted : Sorted targets res.protected res.failed res.skipped
    pub covered : IsCovered w res.protected
    pub explained : All (HasReason res.reasons) res.failed

  reason_of-cons :
      (reasons : List (Text × Reason E)) (q : Text) (r : Reason E) (path : Text)
      → HasReason reasons path
      → HasReason ((q, r) ∷ reasons) path
  unfolding reason_of
  reason_of-cons reasons q r path (s, h) = elim (Bool-cases (text_eq q path)) [
    | inl e ↦ (r, rw e refl)
    | inr e ↦ (s, rw e h)
  ]

  reason_of-here :
      (reasons : List (Text × Reason E)) (r : Reason E) (path : Text)
      → HasReason ((path, r) ∷ reasons) path
  unfolding reason_of
  reason_of-here reasons r path = (r, rw (text_eq_refl path) refl)

  -- What a step adds to an outcome, and that it keeps what was there.
  pub record Grows (t : Text) (res res' : Outcome E) (w' : W) : Type 0 where
    pub ps : List Text
    pub fs : List Text
    pub ss : List Text
    pub is_protected_by : res'.protected ≡ res.protected ++ ps
    pub is_failed_by : res'.failed ≡ res.failed ++ fs
    pub is_skipped_by : res'.skipped ≡ res.skipped ++ ss
    pub sorts :
        {ts ps' fs' ss' : List Text}
        → Sorted ts ps' fs' ss'
        → Sorted (t ∷ ts) (ps ++ ps') (fs ++ fs') (ss ++ ss')
    pub covers : IsCovered w' ps
    pub explains : All (HasReason res'.reasons) fs
    pub keeps_reasons : (p : Text) → HasReason res.reasons p → HasReason res'.reasons p

  attempted-keeps :
      (t : Text) (r : Result E (Unit {0})) (res : Outcome E) (p : Text)
      → HasReason res.reasons p
      → HasReason (attempted t r res).reasons p
  attempted-keeps t (ok done) res p h = h
  attempted-keeps t (err e) res p h = reason_of-cons res.reasons t (attempt_failed e) p h

  unless_said-keeps :
      (t : Text) (o : Option (Reason E)) (reasons : List (Text × Reason E)) (p : Text)
      → HasReason reasons p
      → HasReason (unless_said t o reasons) p
  unless_said-keeps t none reasons p h = reason_of-cons reasons t not_protected_after_all p h
  unless_said-keeps t (some r) reasons p h = h

  unless_said-here :
      (t : Text) (o : Option (Reason E)) (reasons : List (Text × Reason E))
      → reason_of reasons t ≡ o
      → HasReason (unless_said t o reasons) t
  unless_said-here t none reasons h = reason_of-here reasons not_protected_after_all t
  unless_said-here t (some r) reasons h = (r, h)

  attempted-lists :
      (t : Text) (r : Result E (Unit {0})) (res : Outcome E)
      → ((attempted t r res).protected ≡ res.protected)
        × ((attempted t r res).failed ≡ res.failed)
        × ((attempted t r res).skipped ≡ res.skipped)
  attempted-lists t (ok done) res = (refl, refl, refl)
  attempted-lists t (err e) res = (refl, refl, refl)

  read_back-Grows :
      (t : Text) (res : Outcome E) (w' : W) (r : Result E (Unit {0})) (b : Bool)
      → text_eq (base t) authorized_keys ≡ false
      → (b ≡ true → (look t w').0 ≡ ok (some true))
      → Grows t res (read_back t b (attempted t r res)) w'
  read_back-Grows t res w' r true e h = record {
    ps = t ∷ [];
    fs = [];
    ss = [];
    is_protected_by = ap (λ l. l ++ t ∷ []) (attempted-lists t r res).0;
    is_failed_by = (attempted-lists t r res).1 ∙ sym (append-nil res.failed);
    is_skipped_by = (attempted-lists t r res).2 ∙ sym (append-nil res.skipped);
    sorts = protect_one t e;
    covers = (h refl, tt);
    explains = tt;
    keeps_reasons = attempted-keeps t r res;
  }
  read_back-Grows t res w' r false e h =
      let said = reason_of (attempted t r res).reasons t in
      let reasons = (attempted t r res).reasons in
      record {
        ps = [];
        fs = t ∷ [];
        ss = [];
        is_protected_by = (attempted-lists t r res).0 ∙ sym (append-nil res.protected);
        is_failed_by = ap (λ l. l ++ t ∷ []) (attempted-lists t r res).1;
        is_skipped_by = (attempted-lists t r res).2 ∙ sym (append-nil res.skipped);
        sorts = fail_one t e;
        covers = tt;
        explains = (unless_said-here t said reasons refl, tt);
        keeps_reasons = λ p k. unless_said-keeps t said reasons p (attempted-keeps t r res p k);
      }

  skip-Grows :
      (t : Text) (res : Outcome E) (w : W)
      → text_eq (base t) authorized_keys ≡ true
      → Grows t res (record res { skipped = res.skipped ++ t ∷ [] }) w
  skip-Grows t res w e = record {
    ps = [];
    fs = [];
    ss = t ∷ [];
    is_protected_by = sym (append-nil res.protected);
    is_failed_by = sym (append-nil res.failed);
    is_skipped_by = refl;
    sorts = skip t e;
    covers = tt;
    explains = tt;
    keeps_reasons = λ p k. k;
  }

  answered-yes :
      (r : Result E (Option Bool)) → is_protected (answer_for r) ≡ true → r ≡ ok (some true)
  unfolding answer_for
  answered-yes (ok none) h = cc
  answered-yes (ok (some true)) h = refl
  answered-yes (ok (some false)) h = cc
  answered-yes (err e) h = cc

  module _ (stays : StaysProtected) where
    apply_to-Grows :
        (b : Bool) (t : Text) (res : Outcome E) (w : W)
        → text_eq (base t) authorized_keys ≡ b
        → Grows t res (apply_to protect look b t res w).0 (apply_to protect look b t res w).1
    apply_to-Grows true t res w e = skip-Grows t res w e
    apply_to-Grows false t res w e =
        let w' = (protect t w).1 in
        read_back-Grows t res (look t w').1 (protect t w).0
          (is_protected (answer_for (look t w').0)) e
          (λ h. stays.look_keeps t t w' (answered-yes (look t w').0 h))

    apply_to-keeps :
        (b : Bool) (t : Text) (res : Outcome E) (w : W) (p : Text)
        → (look p w).0 ≡ ok (some true)
        → (look p (apply_to protect look b t res w).1).0 ≡ ok (some true)
    apply_to-keeps true t res w p h = h
    apply_to-keeps false t res w p h = stays.look_keeps p t _ (stays.attempt_keeps p t w h)

    -- The rest of a run, as what it adds to an outcome.
    record Adds (ts : List Text) (res : Outcome E) (w : W) (res' : Outcome E) (w' : W)
        : Type 0 where
      ps : List Text
      fs : List Text
      ss : List Text
      is_protected_by : res'.protected ≡ res.protected ++ ps
      is_failed_by : res'.failed ≡ res.failed ++ fs
      is_skipped_by : res'.skipped ≡ res.skipped ++ ss
      sorts : Sorted ts ps fs ss
      covers : IsCovered w' ps
      explains : All (HasReason res'.reasons) fs
      keeps_reasons : (p : Text) → HasReason res.reasons p → HasReason res'.reasons p
      keeps : (p : Text) → (look p w).0 ≡ ok (some true) → (look p w').0 ≡ ok (some true)

    regroup : (a b c d e : List Text) → d ≡ a ++ b → e ≡ d ++ c → e ≡ a ++ (b ++ c)
    regroup a b c d e h k = k ∙ ap (λ l. l ++ c) h ∙ append_assoc a b c

    apply_each-Adds :
        (ts : List Text) (res : Outcome E) (w : W)
        → Adds ts res w (apply_each protect look ts res w).0 (apply_each protect look ts res w).1
    unfolding apply_each
    apply_each-Adds [] res w = record {
      ps = [];
      fs = [];
      ss = [];
      is_protected_by = sym (append-nil res.protected);
      is_failed_by = sym (append-nil res.failed);
      is_skipped_by = sym (append-nil res.skipped);
      sorts = none_left;
      covers = tt;
      explains = tt;
      keeps_reasons = λ p k. k;
      keeps = λ p k. k;
    }
    apply_each-Adds (t ∷ ts) res w =
        let b = text_eq (base t) authorized_keys in
        let step = apply_to protect look b t res w in
        let g = apply_to-Grows b t res w refl in
        let a = apply_each-Adds ts step.0 step.1 in
        record {
          ps = g.ps ++ a.ps;
          fs = g.fs ++ a.fs;
          ss = g.ss ++ a.ss;
          is_protected_by = regroup _ _ _ _ _ g.is_protected_by a.is_protected_by;
          is_failed_by = regroup _ _ _ _ _ g.is_failed_by a.is_failed_by;
          is_skipped_by = regroup _ _ _ _ _ g.is_skipped_by a.is_skipped_by;
          sorts = g.sorts a.sorts;
          covers = All-append _ g.ps a.ps (All-map _ _ g.ps a.keeps g.covers) a.covers;
          explains =
              All-append _ g.fs a.fs (All-map _ _ g.fs a.keeps_reasons g.explains) a.explains;
          keeps_reasons = λ p k. a.keeps_reasons p (g.keeps_reasons p k);
          keeps = λ p k. a.keeps p (apply_to-keeps b t res w p k);
        }

    -- Where a path that is found protected stays so, each target of Apply ends in exactly one of
    -- three lists, in order: it is skipped if and only if it is an authorized_keys file, every path
    -- that is reported protected is found so in the end, and every one that failed has a reason.
    pub apply_protection-IsSound :
        (targets : List Text) (w : W)
        → IsSound targets
            (apply_protection protect look targets w).0
            (apply_protection protect look targets w).1
    unfolding apply_protection
    apply_protection-IsSound targets w =
        let a = apply_each-Adds targets nothing_done w in
        record {
          sorted = rw (a.is_protected_by, a.is_failed_by, a.is_skipped_by) a.sorts;
          covered = rw a.is_protected_by a.covers;
          explained = rw a.is_failed_by a.explains;
        }
