-- ===== src/Keys/Move/Planned.antt =====
-- What PlanFor of move.go plans.
use mathlib.Core.List.{Mem, mem-cons_self, mem-cons_of_mem, mem-append_right}
use sshakku.FilePath
use sshakku.FilePath.{base}
use sshakku.Prelude.{
  Text, text_eq, text_eq_iff, List, [], ◌∷◌, ◌++◌, Bool, true, false, Bool-cases, All, All-append,
  All-map, if◌then◌else◌, ◌≡◌, ◌≢◌, refl, inl, inr, arith, ◌⊎◌,
}
use sshakku.Keys.Move.{
  Move, private_key, public_key, public_suffix, authorized_keys, moves_of, plan_moves, plan_for,
}

module _ (dir : Text) (there : Text → Bool) where
  -- A file, and where it goes under its own name.
  abbrev pub private_move : Text → Move
  private_move key = record { from = key; to = FilePath.join dir (base key); kind = private_key }

  abbrev pub public_move : Text → Move
  public_move key = record {
    from = key ++ public_suffix;
    to = FilePath.join dir (base (key ++ public_suffix));
    kind = public_key;
  }

  -- The files of a key: itself, and its public half where that is there.
  abbrev pub IsFileOf : Text → Move → Type 0
  IsFileOf key m =
      (m ≡ private_move key) ⊎ ((there (key ++ public_suffix) ≡ true) × (m ≡ public_move key))

  -- A move of one of the keys that are to be moved.
  abbrev pub IsPlanned : List Text → Move → Type 0
  IsPlanned keys m = (key : Text) × Mem key keys × (base key ≢ authorized_keys) × IsFileOf key m

  -- Both files of a key are moved.
  abbrev pub IsTaken : List Move → Text → Type 0
  IsTaken ms key =
      base key ≢ authorized_keys
      → Mem (private_move key) ms × (there (key ++ public_suffix) ≡ true → Mem (public_move key) ms)

  IsPlanned-more :
      (k : Text) (keys : List Text) (m : Move) → IsPlanned keys m → IsPlanned (k ∷ keys) m
  IsPlanned-more k keys m (key, listed, other, is) = (key, mem-cons_of_mem k listed, other, is)

  IsTaken-more : (ns ms : List Move) (key : Text) → IsTaken ms key → IsTaken (ns ++ ms) key
  IsTaken-more ns ms key h n = (mem-append_right ns (h n).0, λ t. mem-append_right ns ((h n).1 t))

  moves_of-IsPlanned :
      (key : Text) (keys : List Text) (b : Bool)
      → base key ≢ authorized_keys
      → there (key ++ public_suffix) ≡ b
      → All (IsPlanned (key ∷ keys)) (moves_of dir key b)
  moves_of-IsPlanned key keys true h t =
      ((key, mem-cons_self, h, inl refl), ((key, mem-cons_self, h, inr (t, refl)), tt))
  moves_of-IsPlanned key keys false h t = ((key, mem-cons_self, h, inl refl), tt)

  moves_of-IsTaken :
      (key : Text) (ms : List Move) (b : Bool)
      → there (key ++ public_suffix) ≡ b
      → IsTaken (moves_of dir key b ++ ms) key
  moves_of-IsTaken key ms true t h =
      (mem-cons_self, λ _. mem-cons_of_mem (private_move key) mem-cons_self)
  moves_of-IsTaken key ms false t h = (mem-cons_self, λ k. absurd cc)

  plan_moves-IsPlanned : (keys : List Text) → All (IsPlanned keys) (plan_moves dir keys there)
  unfolding plan_moves
  plan_moves-IsPlanned [] = tt
  plan_moves-IsPlanned (key ∷ keys) =
      let more =
        All-map (IsPlanned keys) (IsPlanned (key ∷ keys)) (plan_moves dir keys there)
          (IsPlanned-more key keys) (plan_moves-IsPlanned keys) in
      elim (Bool-cases (text_eq (base key) authorized_keys)) [
        | inl e ↦ rw e more
        | inr e ↦ rw e (
            All-append (IsPlanned (key ∷ keys)) (moves_of dir key (there (key ++ public_suffix)))
              (plan_moves dir keys there)
              (moves_of-IsPlanned key keys (there (key ++ public_suffix))
                (λ p. ground (arith, text_eq_iff (base key) authorized_keys)) refl)
              more)
      ]

  plan_moves-IsTaken_if :
      (key : Text) (keys : List Text) (ms : List Move) (b : Bool)
      → text_eq (base key) authorized_keys ≡ b
      → All (IsTaken ms) keys
      → All
          (IsTaken (if b then ms else moves_of dir key (there (key ++ public_suffix)) ++ ms))
          (key ∷ keys)
  plan_moves-IsTaken_if key keys ms true e h =
      (λ n. absurd (n (ground (arith, text_eq_iff (base key) authorized_keys))), h)
  plan_moves-IsTaken_if key keys ms false e h =
      let taken = moves_of dir key (there (key ++ public_suffix)) in
      (
        moves_of-IsTaken key ms (there (key ++ public_suffix)) refl,
        All-map (IsTaken ms) (IsTaken (taken ++ ms)) keys (IsTaken-more taken ms) h,
      )

  plan_moves-IsTaken : (keys : List Text) → All (IsTaken (plan_moves dir keys there)) keys
  unfolding plan_moves
  plan_moves-IsTaken [] = tt
  plan_moves-IsTaken (key ∷ keys) =
      plan_moves-IsTaken_if key keys (plan_moves dir keys there) _ refl (plan_moves-IsTaken keys)

-- A plan moves each key but authorized_keys, and each public half of one that is there, and it moves
-- nothing else: every move is of such a file, under its own name into the directory.
pub plan_for-IsPlanned :
    (dir : Text) (keys : List Text) (there : Text → Bool)
    → All (IsPlanned dir there keys) (plan_for dir keys there).moves
      × All (IsTaken dir there (plan_for dir keys there).moves) keys
unfolding plan_for
plan_for-IsPlanned dir keys there =
    (plan_moves-IsPlanned dir there keys, plan_moves-IsTaken dir there keys)
