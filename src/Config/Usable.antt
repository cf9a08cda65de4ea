-- ===== src/Config/Usable.antt =====
-- What Resolve may be relied on to return: for internal/config/file.go, whatever the files and
-- the environment say.
use sshakku.Config.Choices.{
  Platform, choose, chosen, unusable_name, desktop_own_wallets, policy_modes, keepassxc_routes,
  dismissals, resolve_wallet_store_mode, resolve_auto_load_mode, resolve_secret_backend,
  resolve_gui_prompter, resolve_on_dismiss, resolve_keepassxc_route, resolve_service_prefix,
  resolve_secret_container, resolve_key_patterns, first_problem, pattern_problem, patterns_unless,
  Lookup, deref_string, auto, coalesce,
}
use sshakku.Config.Durations.{
  Problem, at_least_zero, above_zero, key_lifetime_of, giveup_ttl_of, positive_duration,
  default_command_timeout, default_interactive_timeout, command_timeout_of, interactive_timeout_of,
  one_of, to_lower,
}
use sshakku.Config.File.{File}
use sshakku.Config.Settings.{Settings, Readers, resolve}
use sshakku.Prelude.{
  zero, suc, ℕ, contains, Lacks, All, Option-cases, ◌≢◌, Text, codes, text_eq, ℤ, pos, negsuc,
  int_ltb, List, [], ◌∷◌, true, false, Bool-cases, Option, none, some, Result, ok, err, ◌≡◌, inl,
  inr, refl, arith,
}

-- A pattern for the name of a file: it is not empty, it has no slash, and it is well-formed.
abbrev pub IsPattern : {E : Type 0} → (Text → Option E) → Text → Type 0
IsPattern match_error p = (p ≢ []) × Lacks 47 p × (match_error p ≡ none)

-- Settings that the rest of the program can act on.
pub record IsUsable {E : Type 0} (lib : Readers E) (p : Platform) (s : Settings) : Type 0 where
  pub lifetime_not_negative : int_ltb s.key_lifetime (pos 0) ≡ false
  pub ttl_not_negative : int_ltb s.giveup_ttl (pos 0) ≡ false
  pub command_bounded : int_ltb (pos 0) s.command_timeout ≡ true
  pub interactive_bounded : int_ltb (pos 0) s.interactive_timeout ≡ true
  pub store_policy_known : one_of policy_modes s.wallet_store_mode ≡ true
  pub load_policy_known : one_of policy_modes s.auto_load_mode ≡ true
  pub prefix_set : text_eq s.service_prefix [] ≡ false
  pub prefix_usable : unusable_name s.service_prefix ≡ false
  pub container_usable : unusable_name s.secret_container ≡ false
  pub container_own : one_of desktop_own_wallets (to_lower s.secret_container) ≡ false
  pub patterns_usable : All (IsPattern lib.match_error) s.key_patterns
  pub backend_here : one_of p.secret_backends s.secret_backend ≡ true
  pub route_known : one_of keepassxc_routes s.keepassxc_route ≡ true
  pub prompter_here : one_of p.gui_prompters s.gui_prompter ≡ true
  pub dismissal_known : one_of dismissals s.on_dismiss ≡ true

resolve_service_prefix-Usable :
    (E : Type 0) (v : Option Text)
    → (text_eq (resolve_service_prefix {E = E} v).0 [] ≡ false)
      × (unusable_name (resolve_service_prefix {E = E} v).0 ≡ false)
unfolding resolve_service_prefix
resolve_service_prefix-Usable E v = elim (Bool-cases (text_eq (deref_string v) [])) [
  | inl e ↦ rw e (refl, refl)
  | inr e ↦ elim (Bool-cases (unusable_name (deref_string v))) [
    | inl k ↦ rw (e, k) (refl, refl)
    | inr k ↦ rw (e, k) (e, k)
  ]
]

resolve_secret_container-Usable :
    (E : Type 0) (v : Option Text)
    → (unusable_name (resolve_secret_container {E = E} v).0 ≡ false)
      × (one_of desktop_own_wallets (to_lower (resolve_secret_container {E = E} v).0) ≡ false)
unfolding resolve_secret_container to_lower
resolve_secret_container-Usable E v = elim (Bool-cases (text_eq (deref_string v) [])) [
  | inl e ↦ rw e (refl, refl)
  | inr e ↦ elim (Bool-cases (unusable_name (deref_string v))) [
    | inl k ↦ rw (e, k) (refl, refl)
    | inr k ↦ elim (Bool-cases (one_of desktop_own_wallets (to_lower (deref_string v)))) [
      | inl o ↦ rw (e, k, o) (refl, refl)
      | inr o ↦ rw (e, k, o) (k, o)
    ]
  ]
]

contains-Lacks : (c : ℕ) (s : Text) → contains (c ∷ []) s ≡ false → Lacks c s
contains-Lacks c [] h = tt
contains-Lacks c (d ∷ s) h = elim (Bool-cases (contains (c ∷ []) s)) [
  | inl e ↦ absurd (ground arith)
  | inr e ↦ (ground arith, contains-Lacks c s e)
]

module _ {E : Type 0} where
  at_least_zero-Fits :
      (d : ℤ) (r : Result E ℤ) (raw : Text)
      → int_ltb d (pos 0) ≡ false
      → int_ltb (at_least_zero d r raw).0 (pos 0) ≡ false
  at_least_zero-Fits d (err e) raw h = h
  at_least_zero-Fits d (ok (pos n)) raw h = ground arith
  at_least_zero-Fits d (ok (negsuc n)) raw h = refl

  above_zero-Fits :
      (d : ℤ) (r : Result E ℤ) (raw : Text)
      → int_ltb (pos 0) d ≡ true
      → int_ltb (pos 0) (above_zero d r raw).0 ≡ true
  above_zero-Fits d (err e) raw h = h
  above_zero-Fits d (ok (pos zero)) raw h = h
  above_zero-Fits d (ok (pos (suc n))) raw h = ground arith
  above_zero-Fits d (ok (negsuc n)) raw h = h

  chosen-one_of :
      (known : List Text) (fallback : Text) (refuse : Text → Problem E) (v : Text)
      → one_of known fallback ≡ true
      → one_of known (chosen known fallback refuse v).0 ≡ true
  chosen-one_of known fallback refuse v h = elim (Bool-cases (text_eq v [])) [
    | inl e ↦ rw e h
    | inr e ↦ elim (Bool-cases (one_of known v)) [ inl k ↦ rw (e, k) k | inr k ↦ rw (e, k) h ]
  ]

  choose-one_of :
      (known : List Text) (fallback : Text) (refuse : Text → Problem E) (v : Option Text)
      → one_of known fallback ≡ true
      → one_of known (choose known fallback refuse v).0 ≡ true
  choose-one_of known fallback refuse none h = h
  choose-one_of known fallback refuse (some v) h = chosen-one_of known fallback refuse v h

  pattern_problem-Usable :
      (p : Text) (o : Option E) → pattern_problem p o ≡ none → (p ≢ []) × Lacks 47 p × (o ≡ none)
  pattern_problem-Usable [] none h = absurd cc
  pattern_problem-Usable [] (some e) h = absurd cc
  pattern_problem-Usable (c ∷ p) none h = elim (Bool-cases (contains (47 ∷ []) (c ∷ p))) [
    | inl e ↦ absurd (let k = rw e at h in cc)
    | inr e ↦ (λ n. cc, contains-Lacks 47 (c ∷ p) e, refl)
  ]
  pattern_problem-Usable (c ∷ p) (some e) h = elim (Bool-cases (contains (47 ∷ []) (c ∷ p))) [
    | inl k ↦ absurd (let z = rw k at h in cc)
    | inr k ↦ absurd (let z = rw k at h in cc)
  ]

  first_problem-Usable :
      (match_error : Text → Option E) (ps : List Text)
      → first_problem match_error ps ≡ none
      → All (IsPattern match_error) ps
  unfolding first_problem
  first_problem-Usable match_error [] h = tt
  first_problem-Usable match_error (p ∷ ps) h =
      elim (Option-cases (pattern_problem p (match_error p))) [
        | inl e ↦ (
          pattern_problem-Usable p (match_error p) e,
          first_problem-Usable match_error ps (rw e at h),
        )
        | inr (q, e) ↦ absurd (let k = rw e at h in cc)
      ]

  patterns_unless-Usable :
      (match_error : Text → Option E) (ps : List Text) (o : Option (Problem E))
      → first_problem match_error ps ≡ o
      → All (IsPattern match_error) (patterns_unless ps o).0
  patterns_unless-Usable match_error ps none h = first_problem-Usable match_error ps h
  patterns_unless-Usable match_error ps (some q) h = tt

  resolve_key_patterns-Usable :
      (match_error : Text → Option E) (v : Option (List Text))
      → All (IsPattern match_error) (resolve_key_patterns match_error v).0
  unfolding resolve_key_patterns
  resolve_key_patterns-Usable match_error none = tt
  resolve_key_patterns-Usable match_error (some []) = tt
  resolve_key_patterns-Usable match_error (some (q ∷ qs)) =
      patterns_unless-Usable match_error (q ∷ qs) _ refl

  key_lifetime_of-Fits :
      (parse : Text → Result E ℤ) (raw : Text)
      → int_ltb (key_lifetime_of parse raw).0 (pos 0) ≡ false
  unfolding key_lifetime_of
  key_lifetime_of-Fits parse raw = elim (Bool-cases (text_eq raw [])) [
    | inl e ↦ rw e refl
    | inr e ↦ rw e (at_least_zero-Fits _ (parse raw) raw refl)
  ]

  giveup_ttl_of-Fits :
      (parse : Text → Result E ℤ) (raw : Text) → int_ltb (giveup_ttl_of parse raw).0 (pos 0) ≡ false
  unfolding giveup_ttl_of
  giveup_ttl_of-Fits parse raw = elim (Bool-cases (text_eq raw [])) [
    | inl e ↦ rw e refl
    | inr e ↦ rw e (at_least_zero-Fits _ (parse raw) raw refl)
  ]

  positive_duration-Fits :
      (parse : Text → Result E ℤ) (raw : Text) (d : ℤ)
      → int_ltb (pos 0) d ≡ true
      → int_ltb (pos 0) (positive_duration parse raw d).0 ≡ true
  unfolding positive_duration
  positive_duration-Fits parse raw d h = elim (Bool-cases (text_eq raw [])) [
    | inl e ↦ rw e h
    | inr e ↦ rw e (above_zero-Fits d (parse raw) raw h)
  ]

-- Whatever the files state and the environment holds, Resolve returns settings that can be acted
-- on, where the system's own lists hold its default wallet and "auto": no lifetime is below zero,
-- both budgets are above it, each policy, wallet, route, dialog and dismissal is one of those
-- there are, no name of an entry or of a compartment is unusable or the desktop's own, and every
-- pattern is not empty, has no slash and is one that filepath.Match finds well-formed.
pub resolve-IsUsable :
    {E : Type 0} (lib : Readers E) (p : Platform) (file : File) (lookup : Lookup)
    → one_of p.secret_backends p.default_backend ≡ true
    → one_of p.gui_prompters auto ≡ true
    → IsUsable lib p (resolve lib p file lookup).0
unfolding resolve resolve_wallet_store_mode resolve_auto_load_mode resolve_secret_backend
    resolve_gui_prompter resolve_on_dismiss resolve_keepassxc_route command_timeout_of
    interactive_timeout_of
resolve-IsUsable lib p file lookup backend prompter = record {
  lifetime_not_negative = key_lifetime_of-Fits lib.parse_duration _;
  ttl_not_negative = giveup_ttl_of-Fits lib.parse_duration _;
  command_bounded =
      positive_duration-Fits lib.parse_duration
        (coalesce lookup (codes "SSHAKKU_COMMAND_TIMEOUT") file.command_timeout)
        default_command_timeout refl;
  interactive_bounded =
      positive_duration-Fits lib.parse_duration
        (coalesce lookup (codes "SSHAKKU_INTERACTIVE_TIMEOUT") file.interactive_timeout)
        default_interactive_timeout refl;
  store_policy_known = choose-one_of policy_modes _ _ file.wallet_store_mode refl;
  load_policy_known = choose-one_of policy_modes _ _ file.auto_load_mode refl;
  prefix_set = (resolve_service_prefix-Usable _ file.service_prefix).0;
  prefix_usable = (resolve_service_prefix-Usable _ file.service_prefix).1;
  container_usable = (resolve_secret_container-Usable _ file.secret_container).0;
  container_own = (resolve_secret_container-Usable _ file.secret_container).1;
  patterns_usable = resolve_key_patterns-Usable lib.match_error file.key_patterns;
  backend_here = choose-one_of p.secret_backends _ _ file.secret_backend backend;
  route_known = choose-one_of keepassxc_routes _ _ file.keepassxc_route refl;
  prompter_here = choose-one_of p.gui_prompters _ _ file.gui_prompter prompter;
  dismissal_known = choose-one_of dismissals _ _ file.on_dismiss refl;
}
