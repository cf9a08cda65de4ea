-- ===== src/Keys/Wallet/OnePassword/Vault.antt =====
-- The vault behind the command op, which internal/keys/wallet/onepassword.go shares with its owner.
use sshakku.Keys.Wallet.{RunResult}
use sshakku.Keys.Wallet.OnePassword.{
  Item, Ports, ours, get_item, create_item, remove_item, succeeded,
}
use sshakku.Prelude.{
  Text, List, [], ◌∷◌, ◌++◌, Bool, true, Bool-cases, if◌then◌else◌, ok, All, ◌≡◌, ◌≢◌, ◌⊎◌, inl,
  inr, refl,
}

-- The one item with a title, among the others.
pub record IsOnly (items : List Item) (title : Text) (item : Item) : Type 0 where
  pub before : List Item
  pub after : List Item
  pub is_among : items ≡ before ++ item ∷ after
  pub is_titled : item.title ≡ title
  pub no_other : All (λ i. i.title ≢ title) (before ++ after)

-- What op documents: it gets and deletes an item by a title only where no other item has that title,
-- it answers with the item's own tags, and it creates the item that it is sent. A call that fails may
-- or may not have done what it was asked.
pub record IsVault {W E : Type 0} (io : Ports W E) (vault : Text) : Type 0 where
  pub items : W → List Item
  pub get_keeps :
      (service : Text) (reveal : Bool) (w : W)
      → items (io.run (get_item vault service reveal) w).1 ≡ items w
  pub get_tells :
      (service : Text) (reveal : Bool) (w : W) (res : RunResult) (item : Item)
      → (io.run (get_item vault service reveal) w).0 ≡ ok res
      → succeeded io vault res ≡ true
      → io.decode_item res.stdout ≡ ok item
      → (stored : Item) × (stored.tags ≡ item.tags) × IsOnly (items w) service stored
  pub remove_takes :
      (service : Text) (w : W) (item : Item) (only : IsOnly (items w) service item)
      → (items (io.run (remove_item vault service) w).1 ≡ items w)
        ⊎ (items (io.run (remove_item vault service) w).1 ≡ only.before ++ only.after)
  pub create_adds :
      (payload : Text) (w : W) (item : Item)
      → io.encode_item item ≡ ok payload
      → (items (io.run (create_item vault payload) w).1 ≡ items w)
        ⊎ (items (io.run (create_item vault payload) w).1 ≡ item ∷ items w)

-- The items that the program did not put there.
unfoldable pub foreign : List Item → List Item
foreign [] = []
foreign (i ∷ is) = let rest = foreign is in if ours i then rest else i ∷ rest

pub foreign-own :
    (before : List Item) (item : Item) (after : List Item)
    → ours item ≡ true
    → foreign (before ++ item ∷ after) ≡ foreign (before ++ after)
unfolding foreign
foreign-own [] item after h = rw h refl
foreign-own (i ∷ is) item after h = elim (Bool-cases (ours i)) [
  | inl e ↦ rw e (foreign-own is item after h)
  | inr e ↦ rw (e, foreign-own is item after h) refl
]
