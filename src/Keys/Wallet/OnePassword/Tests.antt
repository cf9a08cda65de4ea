-- ===== src/Keys/Wallet/OnePassword/Tests.antt =====
-- A vault with an item of its owner, and one of the program's that is there or not.
use native.Mathlib.Decide.{ℕ_discrete}
use sshakku.Keys.Wallet.{RunResult, item_not_ours}
use sshakku.Keys.Wallet.OnePassword.{Item, Ports, tag, item_of, lookup, store, delete, get_item}
use sshakku.Keys.Wallet.OnePassword.Foreign as Foreign
use sshakku.Keys.Wallet.OnePassword.Foreign.{Leaves}
use sshakku.Keys.Wallet.OnePassword.Vault.{IsOnly, IsVault}
use sshakku.Prelude.{
  Text, codes, text_eq, text_eq_iff, int_eq, pos, List, [], ◌∷◌, ◌++◌, Bool, true, false,
  Bool-cases, if◌then◌else◌, Result, ok, err, ◌≡◌, ◌≢◌, ◌⊎◌, inl, inr, refl, sym, ap, ◌∙◌, All,
}

abbrev service : Text
service = codes "k"

abbrev other_title : Text
other_title = codes "m"

abbrev own_item : Item
own_item = item_of service [] (codes "p")

abbrev owners_item : Item
owners_item = record { title = other_title; tags = []; fields = [] }

abbrev items : Bool → List Item
items false = owners_item ∷ []
items true = own_item ∷ owners_item ∷ []

abbrev answer : Bool → Text → RunResult
answer true stdout = record { code = pos 0; stdout = stdout; stderr = [] }
answer false stdout = record { code = pos 1; stdout = stdout; stderr = [] }

abbrev get : Text → Bool → Result Text RunResult × Bool
get title w = (
  ok (
      if text_eq title service
      then answer w (codes "1")
      else answer (text_eq title other_title) (codes "0")),
  w,
)

abbrev remove : Text → Bool → Result Text RunResult × Bool
remove title w =
    if text_eq title service then (ok (answer w []), false) else (ok (answer false []), w)

abbrev create : Bool → Result Text RunResult × Bool
create w = (ok (answer true []), true)

abbrev op : List Text → Bool → Result Text RunResult × Bool
op (a ∷ verb ∷ title ∷ rest) w =
    if text_eq verb (codes "get")
    then get title w
    else if text_eq verb (codes "delete")
    then remove title w
    else create w
op args w = (ok (answer false []), w)

Item-discrete : Discrete Item
Item-discrete = hlevel (ℕ_discrete)

abbrev encode_if : {i : Item} → Dec (i ≡ own_item) → Result Text Text
encode_if (yes same) = ok []
encode_if (no other) = err []

abbrev decode : Text → Result Text Item
decode stdout =
    ok (record {
      title = [];
      tags = if text_eq stdout (codes "1") then tag ∷ [] else [];
      fields = [];
    })

abbrev io : Ports Bool Text
io = record {
  run = λ c. op c.args;
  decode_item = decode;
  decode_titles = λ stdout. err [];
  encode_item = λ i. encode_if (Item-discrete i own_item);
}

ne-of_text_eq : (s t : Text) → text_eq s t ≡ false → s ≢ t
ne-of_text_eq s t h = λ same. absurd (let k = (text_eq_iff s t).1 same in cc)

tags_of : Result Text Item → List Text
tags_of (ok i) = i.tags
tags_of (err e) = []

run_of : Result Text RunResult → RunResult
run_of (ok res) = res
run_of (err e) = answer false []

abbrev got : Bool → Bool → Bool → RunResult
got is_own is_owners w = if is_own then answer w (codes "1") else answer is_owners (codes "0")

abbrev Found : Text → Bool → Item → Type 0
Found title w item = (stored : Item) × (stored.tags ≡ item.tags) × IsOnly (items w) title stored

-- The item that is got, with the ones on either side of it.
found_by :
    (is_own is_owners w : Bool) (title : Text) (item : Item)
    → text_eq title service ≡ is_own
    → text_eq title other_title ≡ is_owners
    → int_eq (got is_own is_owners w).code (pos 0) ≡ true
    → decode (got is_own is_owners w).stdout ≡ ok item
    → Found title w item
unfolding tags_of
found_by true is_owners true title item e f s d = (
  own_item,
  ap tags_of d,
  record {
    before = [];
    after = owners_item ∷ [];
    is_among = refl;
    is_titled = sym ((text_eq_iff title service).0 e);
    no_other =
        (λ k. ne-of_text_eq other_title service refl (k ∙ (text_eq_iff title service).0 e), tt);
  },
)
found_by true is_owners false title item e f s d = absurd (let k = s in cc)
found_by false true w title item e f s d = owners w
  where
    titled : other_title ≡ title
    titled = sym ((text_eq_iff title other_title).0 f)

    owners : (w : Bool) → Found title w item
    owners true = (
      owners_item,
      ap tags_of d,
      record {
        before = own_item ∷ [];
        after = [];
        is_among = refl;
        is_titled = titled;
        no_other = (λ k. ne-of_text_eq service other_title refl (k ∙ sym titled), tt);
      },
    )
    owners false = (
      owners_item,
      ap tags_of d,
      record { before = []; after = []; is_among = refl; is_titled = titled; no_other = tt },
    )
found_by false false w title item e f s d = absurd (let k = s in cc)

found :
    (title : Text) (reveal : Bool) (w : Bool) (res : RunResult) (item : Item)
    → (io.run (get_item [] title reveal) w).0 ≡ ok res
    → int_eq res.code (pos 0) ≡ true
    → decode res.stdout ≡ ok item
    → Found title w item
unfolding run_of
found title reveal w res item h s d =
    let same : got (text_eq title service) (text_eq title other_title) w ≡ res = ap run_of h in
    found_by (text_eq title service) (text_eq title other_title) w title item refl refl (rw same s)
      (rw same d)

-- What is left where the program's own item stood before.
left_by :
    (title : Text) (item : Item) (before after : List Item)
    → text_eq title service ≡ true
    → items true ≡ before ++ item ∷ after
    → All (λ i. i.title ≢ title) (before ++ after)
    → items false ≡ before ++ after
left_by title item [] after e h others = cc
left_by title item (b ∷ before) after e h others =
    let head : own_item ≡ b = cc in
    absurd (others.0 (ap (λ i. i.title) (sym head) ∙ sym ((text_eq_iff title service).0 e)))

taken :
    (w : Bool) (title : Text) (item : Item) (only : IsOnly (items w) title item)
    → (items (remove title w).1 ≡ items w) ⊎ (items (remove title w).1 ≡ only.before ++ only.after)
taken w title item only = elim (Bool-cases (text_eq title service)) [
  | inl e ↦ rw e (of_own w e only)
  | inr e ↦ rw e (inl refl)
]
  where
    of_own :
        (w : Bool)
        → text_eq title service ≡ true
        → (only : IsOnly (items w) title item)
        → (items false ≡ items w) ⊎ (items false ≡ only.before ++ only.after)
    of_own false e only = inl refl
    of_own true e only =
        inr (left_by title item only.before only.after e only.is_among only.no_other)

encoded :
    (i : Item) (d : Dec (i ≡ own_item)) (payload : Text) → encode_if d ≡ ok payload → i ≡ own_item
encoded i (yes same) payload h = same
encoded i (no other) payload h = cc

added :
    (w : Bool) (payload : Text) (item : Item)
    → io.encode_item item ≡ ok payload
    → (items (create w).1 ≡ items w) ⊎ (items (create w).1 ≡ item ∷ items w)
added true payload item h = inl refl
added false payload item h =
    inr
      (ap (λ i. i ∷ owners_item ∷ []) (sym (encoded item (Item-discrete item own_item) payload h)))

abbrev vault : IsVault io []
vault = record {
  items = items;
  get_keeps = λ title reveal w. refl;
  get_tells = found;
  remove_takes = λ title w item only. taken w title item only;
  create_adds = λ payload w item h. added w payload item h;
}

stored : (store io [] service [] (codes "p") true).1 ≡ true
unfolding store Item-discrete ℕ_discrete
stored = refl

refused : (store io [] other_title [] (codes "p") false).0 ≡ err (item_not_ours [] other_title)
unfolding store
refused = refl

vault-Leaves_example :
    Leaves items (lookup io [] service) false
    × Leaves items (store io [] service [] (codes "p")) false
    × Leaves items (delete io [] service) false
vault-Leaves_example = Foreign.vault-Leaves io [] vault false service [] (codes "p")
