-- ===== src/Config/Truth/Fallbacks.antt =====
-- A value that internal/config refuses leaves the default in force.
use sshakku.Config.Choices.{
  choose, deref_string, unusable_name, desktop_own_wallets, resolve_service_prefix,
  resolve_secret_container, resolve_key_patterns, patterns_unless, default_service_prefix,
}
use sshakku.Config.Durations.{
  Problem, at_least_zero, above_zero, key_lifetime_of, giveup_ttl_of, positive_duration,
  default_key_lifetime, default_giveup_ttl, one_of, to_lower,
}
use sshakku.Prelude.{
  zero, suc, Text, text_eq, ℤ, pos, negsuc, List, [], ◌∷◌, Bool-cases, Option, none, some, Result,
  ok, err, ◌≡◌, inl, inr, refl, arith,
}

module _ {E : Type 0} (q : Problem E) where
  pub choose_falls :
      (known : List Text) (fallback : Text) (refuse : Text → Problem E) (v : Option Text)
      → (choose known fallback refuse v).1 ≡ some q
      → (choose known fallback refuse v).0 ≡ fallback
  choose_falls known fallback refuse none h = refl
  choose_falls known fallback refuse (some v) h = ground arith

  pub resolve_service_prefix_falls :
      (v : Option Text)
      → (resolve_service_prefix {E = E} v).1 ≡ some q
      → (resolve_service_prefix {E = E} v).0 ≡ default_service_prefix
  unfolding resolve_service_prefix
  resolve_service_prefix_falls v h = elim (Bool-cases (text_eq (deref_string v) [])) [
    | inl e ↦ rw e refl
    | inr e ↦ elim (Bool-cases (unusable_name (deref_string v))) [
      | inl k ↦ rw (e, k) refl
      | inr k ↦ absurd (let z = rw (e, k) at h in cc)
    ]
  ]

  pub resolve_secret_container_falls :
      (v : Option Text)
      → (resolve_secret_container {E = E} v).1 ≡ some q
      → (resolve_secret_container {E = E} v).0 ≡ []
  unfolding resolve_secret_container
  resolve_secret_container_falls v h = elim (Bool-cases (text_eq (deref_string v) [])) [
    | inl e ↦ rw e refl
    | inr e ↦ elim (Bool-cases (unusable_name (deref_string v))) [
      | inl k ↦ rw (e, k) refl
      | inr k ↦ elim (Bool-cases (one_of desktop_own_wallets (to_lower (deref_string v)))) [
        | inl o ↦ rw (e, k, o) refl
        | inr o ↦ absurd (let z = rw (e, k, o) at h in cc)
      ]
    ]
  ]

  patterns_unless_falls :
      (ps : List Text) (o : Option (Problem E))
      → (patterns_unless ps o).1 ≡ some q
      → (patterns_unless ps o).0 ≡ []
  patterns_unless_falls ps none h = cc
  patterns_unless_falls ps (some p) h = refl

  pub resolve_key_patterns_falls :
      (match_error : Text → Option E) (v : Option (List Text))
      → (resolve_key_patterns match_error v).1 ≡ some q
      → (resolve_key_patterns match_error v).0 ≡ []
  unfolding resolve_key_patterns
  resolve_key_patterns_falls match_error none h = refl
  resolve_key_patterns_falls match_error (some []) h = refl
  resolve_key_patterns_falls match_error (some (p ∷ ps)) h = patterns_unless_falls (p ∷ ps) _ h

  at_least_zero_falls :
      (d : ℤ) (r : Result E ℤ) (raw : Text)
      → (at_least_zero d r raw).1 ≡ some q
      → (at_least_zero d r raw).0 ≡ d
  at_least_zero_falls d (err e) raw h = refl
  at_least_zero_falls d (ok (pos n)) raw h = cc
  at_least_zero_falls d (ok (negsuc n)) raw h = cc

  above_zero_falls :
      (d : ℤ) (r : Result E ℤ) (raw : Text)
      → (above_zero d r raw).1 ≡ some q
      → (above_zero d r raw).0 ≡ d
  above_zero_falls d (err e) raw h = refl
  above_zero_falls d (ok (pos zero)) raw h = refl
  above_zero_falls d (ok (pos (suc n))) raw h = cc
  above_zero_falls d (ok (negsuc n)) raw h = refl

  module _ (parse : Text → Result E ℤ) (raw : Text) where
    pub key_lifetime_of_falls :
        (key_lifetime_of parse raw).1 ≡ some q
        → (key_lifetime_of parse raw).0 ≡ default_key_lifetime
    unfolding key_lifetime_of
    key_lifetime_of_falls h = elim (Bool-cases (text_eq raw [])) [
      | inl e ↦ rw e refl
      | inr e ↦ rw e (at_least_zero_falls _ (parse raw) raw (let k = rw e at h in k))
    ]

    pub giveup_ttl_of_falls :
        (giveup_ttl_of parse raw).1 ≡ some q → (giveup_ttl_of parse raw).0 ≡ default_giveup_ttl
    unfolding giveup_ttl_of
    giveup_ttl_of_falls h = elim (Bool-cases (text_eq raw [])) [
      | inl e ↦ rw e refl
      | inr e ↦ rw e (at_least_zero_falls _ (parse raw) raw (let k = rw e at h in k))
    ]

    pub positive_duration_falls :
        (d : ℤ) → (positive_duration parse raw d).1 ≡ some q → (positive_duration parse raw d).0 ≡ d
    unfolding positive_duration
    positive_duration_falls d h = elim (Bool-cases (text_eq raw [])) [
      | inl e ↦ rw e refl
      | inr e ↦ rw e (above_zero_falls d (parse raw) raw (let k = rw e at h in k))
    ]
