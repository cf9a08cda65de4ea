-- ===== src/Keys/Wallet/OnePassword/Foreign.antt =====
-- What internal/keys/wallet/onepassword.go leaves of an owner's vault.
use sshakku.Keys.Wallet.{Cmd, RunResult, WalletError, call_failed}
use sshakku.Keys.Wallet.OnePassword.{
  Item, Ports, ours, has_tag, get_item, create_item, remove_item, succeeded, read_item, item_at,
  unless_exited, delete_item, own_password, lookup, make_room, returned, create, store, delete_own,
  delete, item_of, call,
}
use sshakku.Keys.Wallet.OnePassword.Vault.{IsOnly, IsVault, foreign, foreign-own}
use sshakku.Prelude.{
  Text, codes, List, ◌∷◌, Bool, true, false, Bool-cases, Option, none, some, Exec, Result, ok, err,
  ◌>>=◌, ◌>>◌, pure, wrapped, continue, Outcome, Triple, Triple-bind, Triple-pure, Triple-throw,
  Triple-wrap, ◌≡◌, inl, inr, refl, sym, ap, ◌∙◌,
}

ours-tags : (i j : Item) → i.tags ≡ j.tags → ours j ≡ true → ours i ≡ true
unfolding ours
ours-tags i j same h = ap has_tag same ∙ h

item_of-ours : (service label passphrase : Text) → ours (item_of service label passphrase) ≡ true
unfolding ours
item_of-ours service label passphrase = refl

foreign-ours : (i : Item) (is : List Item) → ours i ≡ true → foreign (i ∷ is) ≡ foreign is
unfolding foreign
foreign-ours i is h = rw h refl

module _ {W E : Type 0} (io : Ports W E) (vault : Text) (v : IsVault io vault)
    (kept : List Item) where
  -- The owner's items are those that there were.
  abbrev Kept : W → Type 0
  Kept w = foreign (v.items w) ≡ kept

  -- An item that was read is the only one with its title, with the tags that were read.
  abbrev Told : Text → Option Item → W → Type 0
  Told service none w = Unit
  Told service (some item) w =
      (stored : Item) × (stored.tags ≡ item.tags) × IsOnly (v.items w) service stored

  abbrev KeptAndTold : Text → Option Item → W → Type 0
  KeptAndTold service o w = Kept w × Told service o w

  abbrev Keeps : {A : Type 0} → Exec W (WalletError E) A → Type 0
  Keeps m = Triple Kept (λ _. Kept) Kept m

  read_item-Told :
      (service : Text) (reveal : Bool) (w w' : W) (res : RunResult) (b : Bool) (r : Result E Item)
      → Kept w
      → v.items w' ≡ v.items w
      → (io.run (get_item vault service reveal) w).0 ≡ ok res
      → succeeded io vault res ≡ b
      → io.decode_item res.stdout ≡ r
      → Outcome
          (KeptAndTold service)
          Kept
          (read_item io vault b r w').0
          (read_item io vault b r w').1
  read_item-Told service reveal w w' res false r k same h s d = (ap foreign same ∙ k, tt)
  read_item-Told service reveal w w' res true (err e) k same h s d = ap foreign same ∙ k
  read_item-Told service reveal w w' res true (ok item) k same h s d =
      let (stored, tags, only) = v.get_tells service reveal w res item h s d in
      (ap foreign same ∙ k, (stored, tags, rw same only))

  abbrev read_result : RunResult → Exec W (WalletError E) (Option Item)
  read_result res = read_item io vault (succeeded io vault res) (io.decode_item res.stdout)

  after_get-Told :
      (service : Text) (reveal : Bool) (w : W) (r : Result E RunResult)
      → Kept w
      → (io.run (get_item vault service reveal) w).0 ≡ r
      → Outcome
          (KeptAndTold service)
          Kept
          (continue
            (wrapped call_failed r)
            read_result
            (io.run (get_item vault service reveal) w).1).0
          (continue
            (wrapped call_failed r)
            read_result
            (io.run (get_item vault service reveal) w).1).1
  after_get-Told service reveal w (err e) k h = ap foreign (v.get_keeps service reveal w) ∙ k
  after_get-Told service reveal w (ok res) k h =
      read_item-Told service reveal w (io.run (get_item vault service reveal) w).1 res
        (succeeded io vault res) (io.decode_item res.stdout) k (v.get_keeps service reveal w) h refl
        refl

  item_at-Told :
      (service : Text) (reveal : Bool)
      → Triple Kept (KeptAndTold service) Kept (item_at io vault service reveal)
  unfolding item_at
  item_at-Told service reveal = record {
    at = λ w k. after_get-Told service reveal w (io.run (get_item vault service reveal) w).0 k refl;
  }

  unless_exited-Keeps :
      (command : Text) (res : RunResult) → Keeps (unless_exited io vault command res)
  unless_exited-Keeps command res = elim (Bool-cases (succeeded io vault res)) [
    | inl e ↦ rw e (Triple-pure tt (λ w k. k))
    | inr e ↦ rw e (Triple-throw _ (λ w k. k))
  ]

  -- A call after which the world satisfies what is wanted, whether or not it failed.
  abbrev Leads : (W → Type 0) → Cmd → Type 0
  Leads pre c = Triple {A = RunResult} pre (λ _. Kept) Kept (io.run c)

  run-Outcome :
      (w : W) (r : Result E RunResult) → Kept w → Outcome {A = RunResult} (λ _. Kept) Kept r w
  run-Outcome w (ok res) k = k
  run-Outcome w (err e) k = k

  delete_item-Keeps :
      (service : Text) (item : Item)
      → ours item ≡ true
      → Triple (KeptAndTold service (some item)) (λ _. Kept) Kept (delete_item io vault service)
  unfolding delete_item
  delete_item-Keeps service item own =
      Triple-bind (call io vault (remove_item vault service))
        (unless_exited io vault (codes "op item delete"))
        (Triple-wrap call_failed (io.run (remove_item vault service))
          (record { at = λ w h. run-Outcome _ _ (removed w h) }))
        (unless_exited-Keeps (codes "op item delete"))
    where
      removed :
          (w : W)
          → KeptAndTold service (some item) w
          → Kept (io.run (remove_item vault service) w).1
      removed w (k, (stored, tags, only)) = elim (v.remove_takes service w stored only) [
        | inl same ↦ ap foreign same ∙ k
        | inr taken ↦
            ap foreign taken
            ∙ sym (foreign-own only.before stored only.after (ours-tags stored item tags own))
            ∙ ap foreign (sym only.is_among)
            ∙ k
      ]

  make_room-Keeps :
      (service : Text) (o : Option Item)
      → Triple (KeptAndTold service o) (λ _. Kept) Kept (make_room io vault service o)
  make_room-Keeps service none = Triple-pure tt (λ w h. h.0)
  make_room-Keeps service (some item) = elim (Bool-cases (ours item)) [
    | inl e ↦ rw e (delete_item-Keeps service item e)
    | inr e ↦ rw e (Triple-throw _ (λ w h. h.0))
  ]

  delete_own-Keeps :
      (service : Text) (o : Option Item)
      → Triple (KeptAndTold service o) (λ _. Kept) Kept (delete_own io vault service o)
  delete_own-Keeps service none = Triple-pure tt (λ w h. h.0)
  delete_own-Keeps service (some item) = elim (Bool-cases (ours item)) [
    | inl e ↦ rw e (delete_item-Keeps service item e)
    | inr e ↦ rw e (Triple-pure tt (λ w h. h.0))
  ]

  create-Keeps :
      (payload : Text) (item : Item)
      → ours item ≡ true
      → io.encode_item item ≡ ok payload
      → Keeps (create io vault payload)
  create-Keeps payload item own encoded =
      Triple-bind (call io vault (create_item vault payload))
        (unless_exited io vault (codes "op item create"))
        (Triple-wrap call_failed (io.run (create_item vault payload))
          (record { at = λ w k. run-Outcome _ _ (created w k) }))
        (unless_exited-Keeps (codes "op item create"))
    where
      created : (w : W) → Kept w → Kept (io.run (create_item vault payload) w).1
      created w k = elim (v.create_adds payload w item encoded) [
        | inl same ↦ ap foreign same ∙ k
        | inr added ↦ ap foreign added ∙ foreign-ours item (v.items w) own ∙ k
      ]

  create_encoded-Keeps :
      (item : Item) (r : Result E Text)
      → ours item ≡ true
      → io.encode_item item ≡ r
      → Keeps (returned io vault r >>= create io vault)
  create_encoded-Keeps item (err e) own h = Triple-throw (call_failed e) (λ w k. k)
  create_encoded-Keeps item (ok payload) own h = create-Keeps payload item own h

  store-Keeps : (service label passphrase : Text) → Keeps (store io vault service label passphrase)
  unfolding store
  store-Keeps service label passphrase =
      let item = item_of service label passphrase in
      Triple-bind (item_at io vault service false)
        (λ o.
          make_room io vault service o
          >> (returned io vault (io.encode_item item) >>= create io vault))
        (item_at-Told service false)
        (λ o.
          Triple-bind (make_room io vault service o)
            (λ _. returned io vault (io.encode_item item) >>= create io vault)
            (make_room-Keeps service o)
            (λ _.
              create_encoded-Keeps item (io.encode_item item)
                (item_of-ours service label passphrase) refl))

  delete-Keeps : (service : Text) → Keeps (delete io vault service)
  unfolding delete
  delete-Keeps service =
      Triple-bind (item_at io vault service false) (delete_own io vault service)
        (item_at-Told service false) (delete_own-Keeps service)

  lookup-Keeps : (service : Text) → Keeps (lookup io vault service)
  unfolding lookup
  lookup-Keeps service =
      Triple-bind (item_at io vault service true) (λ o. pure (own_password o))
        (item_at-Told service true) (λ o. Triple-pure (own_password o) (λ w h. h.0))

-- The items of the owner, before and after.
abbrev pub Leaves : {W E A : Type 0} → (W → List Item) → Exec W E A → W → Type 0
Leaves items m w = foreign (items (m w).1) ≡ foreign (items w)

Outcome-always :
    {W E A : Type 0} (P : W → Type 0) (r : Result E A) (w : W) → Outcome (λ _. P) P r w → P w
Outcome-always P (ok a) w h = h
Outcome-always P (err e) w h = h

module _ {W E : Type 0} (io : Ports W E) (vault : Text) (v : IsVault io vault) (w : W) where
  Keeps-Leaves :
      {A : Type 0} (m : Exec W (WalletError E) A)
      → Keeps io vault v (foreign (v.items w)) m
      → Leaves v.items m w
  Keeps-Leaves m t =
      Outcome-always (Kept io vault v (foreign (v.items w))) (m w).0 (m w).1 (t.at w refl)

-- In a vault that op serves as it documents, whatever fails on the way: Lookup, Store and Delete
-- leave each item that the program did not put there as it was, and add none.
pub vault-Leaves :
    {W E : Type 0} (io : Ports W E) (vault : Text) (v : IsVault io vault) (w : W)
    (service label passphrase : Text)
    → Leaves v.items (lookup io vault service) w
      × Leaves v.items (store io vault service label passphrase) w
      × Leaves v.items (delete io vault service) w
vault-Leaves io vault v w service label passphrase = (
  Keeps-Leaves io vault v w (lookup io vault service) (lookup-Keeps io vault v _ service),
  Keeps-Leaves io vault v w (store io vault service label passphrase)
      (store-Keeps io vault v _ service label passphrase),
  Keeps-Leaves io vault v w (delete io vault service) (delete-Keeps io vault v _ service),
)
