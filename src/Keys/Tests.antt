-- ===== src/Keys/Tests.antt =====
-- Keys in a directory that is moved, and keys that are loaded.
use sshakku.FilePath.{base}
use sshakku.Keys.Load.{Ports, Session, Config}
use sshakku.Keys.Askpass as Askpass
use sshakku.Keys.Askpass.Storing as Storing
use sshakku.Keys.Enumerate as Enumerate
use sshakku.Keys.Load as Load
use sshakku.Keys.Load.Batch as Batch
use sshakku.Keys.Load.Trace.{traced, IsHonest, is_open, asked_count}
use sshakku.Keys.Load.Trace.OneKey as OneKey
use sshakku.Keys.Load.Trace.Whole as Whole
use sshakku.Keys.Move.{Move, Plan, Kind, private_key, Result, apply, plan_for, blocked, move_failed}
use sshakku.Keys.Move as Moving
use sshakku.Keys.Move.PutBack.{View, renamed, Disk, IsFree}
use sshakku.Keys.Move.PutBack as PutBack
use sshakku.Keys.Move.Outcome.{destinations, all_renamed, AreDistinct}
use sshakku.Keys.Move.Outcome as Outcome
use sshakku.Keys.Move.Planned as Planned
use sshakku.Keys.Move.Planned.{IsPlanned, IsTaken}
use sshakku.Keys.Move.Listed as Listed
use sshakku.Keys.Move.Listed.{ListsMade}
use sshakku.Prelude.{
  List, ◌+◌, ◌≤◌, Text, codes, text_eq, text_eq_iff, pos, [], ◌∷◌, Bool, true, false, Option, none,
  some, Option-cases, All, ◌≡◌, ◌≢◌, refl, inl, inr, arith, ok, if◌then◌else◌,
}

-- A file system: what stands at each path. A rename fails where nothing is there.
abbrev Files : Type 0
Files = View Bool

abbrev rename_found : Option Bool → Text → Text → Files → Option Bool × Files
rename_found none a b v = (some true, v)
rename_found (some c) a b v = (none, renamed a b v)

abbrev rename : Text → Text → Files → Option Bool × Files
rename a b v = rename_found (v a) a b v

abbrev permit : Text → Kind → Files → Option Bool × Files
permit a k v = (none, v)

rename-there : (a b : Text) (v : Files) → (rename a b v).0 ≡ none → v a ≢ none
rename-there a b v h = elim (Option-cases (v a)) [
  | inl e ↦ absurd (let k = rw e at h in cc)
  | inr (c, e) ↦ λ n. cc
]

rename-moves : (a b : Text) (v : Files) → (rename a b v).0 ≡ none → (rename a b v).1 ≡ renamed a b v
rename-moves a b v h = elim (Option-cases (v a)) [
  | inl e ↦ absurd (let k = rw e at h in cc)
  | inr (c, e) ↦ rw e refl
]

rename-fails :
    (a b : Text) (v : Files) {e : Bool} → (rename a b v).0 ≡ some e → (rename a b v).1 ≡ v
rename-fails a b v h = elim (Option-cases (v a)) [
  | inl e ↦ rw e refl
  | inr (c, e) ↦ absurd (let k = rw e at h in cc)
]

abbrev files_disk : Disk Bool rename permit
files_disk = record {
  view = λ v. v;
  rename_there = rename-there;
  rename_moves = rename-moves;
  rename_fails = rename-fails;
  permit_keeps = λ a k v. refl;
}

abbrev key_a : Text
key_a = codes "a/id_a"

abbrev key_b : Text
key_b = codes "a/id_b"

abbrev move_a : Move
move_a = record { from = key_a; to = codes "b/id_a"; kind = private_key }

abbrev move_b : Move
move_b = record { from = key_b; to = codes "b/id_b"; kind = private_key }

abbrev plan : Plan
plan = record { dir = codes "b"; moves = move_a ∷ move_b ∷ [] }

abbrev one_file : Files
one_file p = if text_eq p key_a then some true else none

abbrev two_files : Files
two_files p = if text_eq p key_a then some true else if text_eq p key_b then some false else none

differ : (a b : Text) → text_eq a b ≡ false → a ≢ b
differ a b h e = ground (arith, text_eq_iff a b)

one_file-IsFree : IsFree one_file plan.moves
one_file-IsFree = (refl, (differ (codes "b/id_b") (codes "b/id_a") refl, tt), (refl, tt, tt))

two_files-IsFree : IsFree two_files plan.moves
two_files-IsFree = (refl, (differ (codes "b/id_b") (codes "b/id_a") refl, tt), (refl, tt, tt))

one_file_fails : (apply rename permit plan one_file).1 ≡ some (move_failed key_b true)
unfolding apply Moving.apply_from Moving.fail_rename Moving.put_back Moving.put_back_each
one_file_fails = refl

one_file_strands_nothing : (apply rename permit plan one_file).0.stranded ≡ []
unfolding apply Moving.apply_from Moving.fail_rename Moving.put_back Moving.put_back_each
one_file_strands_nothing = refl

apply-RolledBack_example : (apply rename permit plan one_file).2 ≡ one_file
apply-RolledBack_example =
    PutBack.apply-RolledBack rename permit files_disk plan one_file one_file-IsFree
      (λ e. let k = one_file_fails in cc) one_file_strands_nothing

two_files_move : (apply rename permit plan two_files).1 ≡ none
unfolding apply Moving.apply_from
two_files_move = refl

apply_complete_example :
    ((apply rename permit plan two_files).0.moved ≡ destinations plan.moves)
    × ((apply rename permit plan two_files).0.stranded ≡ [])
    × ((apply rename permit plan two_files).2 ≡ all_renamed plan.moves two_files)
apply_complete_example =
    Outcome.apply_complete rename permit files_disk plan two_files two_files_move

apply_lists_put_back_example :
    ((apply rename permit plan one_file).2 ≡ one_file)
    × ListsMade rename permit [] plan.moves key_b (apply rename permit plan one_file).0
apply_lists_put_back_example =
    Listed.apply_lists_put_back rename permit files_disk plan one_file key_b true one_file-IsFree
      one_file_fails one_file_strands_nothing

abbrev there_first : Text → Bool
there_first p = text_eq p (codes "a/id_a.pub")

plan_for-IsPlanned_example :
    All
      (IsPlanned (codes "b") there_first (key_a ∷ key_b ∷ []))
      (plan_for (codes "b") (key_a ∷ key_b ∷ []) there_first).moves
    × All
        (IsTaken
          (codes "b")
          there_first
          (plan_for (codes "b") (key_a ∷ key_b ∷ []) there_first).moves)
        (key_a ∷ key_b ∷ [])
plan_for-IsPlanned_example = Planned.plan_for-IsPlanned (codes "b") (key_a ∷ key_b ∷ []) there_first

abbrev there_in : Text → Bool
there_in p = text_eq p key_a

none_elsewhere : (p : Text) → there_in p ≡ false → one_file p ≡ none
none_elsewhere p h = rw h refl

nothing_blocked : blocked plan there_in ≡ []
unfolding blocked Moving.taken_of
nothing_blocked = refl

plan-AreDistinct : AreDistinct plan.moves
plan-AreDistinct = ((differ (codes "b/id_b") (codes "b/id_a") refl, tt), (tt, tt))

blocked-IsFree_example : IsFree one_file plan.moves
blocked-IsFree_example =
    Outcome.blocked-IsFree one_file plan there_in none_elsewhere nothing_blocked plan-AreDistinct

-- Two keys, of which ssh-add takes the passphrase "pw"; the wallet holds nothing, and is unlocked
-- for the batch.
abbrev demo_session : Session (Unit {0}) Bool
demo_session = record { unlock = λ w. (ok tt, w); lock = λ w. (ok tt, w) }

abbrev demo : Ports (Unit {0}) Bool
demo = record {
  keys = λ w. (ok (key_a ∷ key_b ∷ []), w);
  ssh_add_name = λ w. (ok (codes "ssh-add"), w);
  run = λ name args w. (ok (record { code = pos 1; stdout = [] }), w);
  can_ask = λ w. (none, w);
  add = λ keyfile pass w. (ok (if text_eq pass (codes "pw") then pos 0 else pos 1), w);
  prompt = λ keyname w. (ok (codes "pw"), w);
  lookup = λ service w. (ok ([], false), w);
  store = λ service label pass w. (ok tt, w);
  session = some demo_session;
  giveup = none;
  save_state = none;
  log = λ level line w. w;
  notify = λ line w. w;
  shown = λ e. [];
}

abbrev demo_config : Config
demo_config = record {
  service_prefix = [];
  max_attempts = pos 2;
  wallet_store = none;
  auto_load = none;
  key_lifetime = 0;
  on_dismiss = codes "stop";
}

load_keys-IsHonest_example :
    IsHonest demo_config (Batch.load_keys (traced demo) demo_config (tt, [])).1.1
load_keys-IsHonest_example = Whole.load_keys-IsHonest demo demo_config tt

load_keys_locks_example : is_open (Batch.load_keys (traced demo) demo_config (tt, [])).1.1 ≡ false
load_keys_locks_example = Whole.load_keys_locks demo demo_config demo_session tt refl

load_one_asks_at_most_example :
    let after = (Batch.load_one (traced demo) demo_config key_a [] ((tt, []), false)).1 in
    (asked_count (base key_a) after.0.1 ≤ 0 + Load.attempts_of (pos 2))
    × IsHonest demo_config after.0.1
load_one_asks_at_most_example =
    OneKey.load_one_asks_at_most demo demo_config key_a [] ((tt, []), false) (tt, refl) tt

-- A directory with a key, its public half, and a file of OpenSSH's own.
abbrev demo_entries : List Enumerate.Entry
demo_entries =
    record { name = codes "id_a"; is_regular = true }
    ∷ record { name = codes "id_a.pub"; is_regular = true }
    ∷ record { name = codes "config"; is_regular = true }
    ∷ []

abbrev any_name : Text → Text → Bool
any_name pattern name = true

keys_among-IsKey_example :
    All
      (Enumerate.IsKey any_name (codes "ssh") [] demo_entries)
      (Enumerate.keys_among any_name (codes "ssh") [] demo_entries)
keys_among-IsKey_example = Enumerate.keys_among-IsKey any_name (codes "ssh") [] demo_entries

-- A broker whose wallet holds nothing, and whose terminal gives a passphrase that opens the key.
abbrev broker : Askpass.Ports (Unit {0}) Bool
broker = record {
  lookup = λ service w. (ok ([], false), w);
  store = λ service label pass w. (ok tt, w);
  prompt = λ question hidden w. (ok (codes "pw"), w);
  passphrase_opens = λ keyfile pass w. (Askpass.opens, w);
  match_prompt = λ question. some (codes "a/id_a");
  to_lower = λ question. question;
  log = λ line w. w;
}

answer-KeepsOpening_example :
    Storing.KeepsOpening demo_config
      (Askpass.answer
        (Storing.traced broker)
        demo_config
        (codes "Enter passphrase for a/id_a")
        (tt, [])).1.1
answer-KeepsOpening_example =
    Storing.answer-KeepsOpening broker demo_config (codes "Enter passphrase for a/id_a") tt
