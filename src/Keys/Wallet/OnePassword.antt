-- ===== src/Keys/Wallet/OnePassword.antt =====
-- internal/keys/wallet/onepassword.go: passphrases as items of a vault, through the command op. The
-- program op, and the reading and writing of JSON, are parameters.
pub mod Vault
pub mod Foreign
mod Tests
use sshakku.Keys.Wallet.{Cmd, RunResult, WalletError, call_failed, exited, item_not_ours}
use sshakku.Prelude.{
  Text, codes, text_eq, trim_space, ℤ, int_eq, pos, List, [], ◌∷◌, ◌++◌, Bool, true, false, not,
  ◌||◌, Option, none, some, if◌then◌else◌, Exec, Result, ok, err, ◌>>=◌, ◌>>◌, pure, throw, wrap,
}

-- onePasswordField
pub record Field : Type 0 where
  pub id : Text
  pub type : Text
  pub purpose : Text
  pub label : Text
  pub value : Text

-- onePasswordItemTemplate, and onePasswordItem with the category left out
pub record Item : Type 0 where
  pub title : Text
  pub tags : List Text
  pub fields : List Field

abbrev pub tag : Text
tag = codes "sshakku"

abbrev pub password_field : Text
password_field = codes "password"

abbrev pub has_tag : List Text → Bool
has_tag [] = false
has_tag (t ∷ ts) = text_eq t tag || has_tag ts

-- ours
unfoldable pub ours : Item → Bool
ours i = has_tag i.tags

-- The loop of password.
unfoldable pub password_among : List Field → Option Text
password_among [] = none
password_among (f ∷ fs) =
    let rest = password_among fs in if text_eq f.id password_field then some f.value else rest

-- password
unfoldable pub password : Item → Option Text
unfolding password_among
password i = password_among i.fields

pub record Ports (W E : Type 0) : Type 0 where
  pub run : Cmd → Exec W E RunResult
  pub decode_item : Text → Result E Item
  pub decode_titles : Text → Result E (List Text)
  pub encode_item : Item → Result E Text

abbrev pub op : List Text → Text → Cmd
op args stdin = record { name = codes "op"; args = args; env = []; stdin = stdin }

abbrev pub reveal_args : Bool → List Text
reveal_args true = codes "--reveal" ∷ []
reveal_args false = []

-- The command lines, for the vault they are confined to.
abbrev pub get_item : Text → Text → Bool → Cmd
get_item vault service reveal =
    op
      (codes "item"
        ∷ codes "get"
        ∷ service
        ∷ codes "--vault"
        ∷ vault
        ∷ codes "--format"
        ∷ codes "json"
        ∷ reveal_args reveal)
      []

abbrev pub create_item : Text → Text → Cmd
create_item vault payload =
    op (codes "item" ∷ codes "create" ∷ codes "--vault" ∷ vault ∷ codes "-" ∷ []) payload

abbrev pub remove_item : Text → Text → Cmd
remove_item vault service =
    op (codes "item" ∷ codes "delete" ∷ service ∷ codes "--vault" ∷ vault ∷ []) []

abbrev pub list_items : Text → Cmd
list_items vault =
    op
      (codes "item"
        ∷ codes "list"
        ∷ codes "--vault"
        ∷ vault
        ∷ codes "--tags"
        ∷ tag
        ∷ codes "--format"
        ∷ codes "json"
        ∷ [])
      []

-- The item that Store sends to op.
abbrev pub item_of : Text → Text → Text → Item
item_of service label passphrase = record {
  title = service;
  tags = tag ∷ [];
  fields =
      record {
        id = codes "label";
        type = codes "STRING";
        purpose = [];
        label = codes "label";
        value = label;
      }
      ∷ record {
        id = password_field;
        type = codes "CONCEALED";
        purpose = codes "PASSWORD";
        label = password_field;
        value = passphrase;
      }
      ∷ [];
}

abbrev pub own_password : Option Item → Option Text
own_password none = none
own_password (some item) = if ours item then password item else none

module _ {W E : Type 0} (io : Ports W E) (vault : Text) where
  abbrev pub succeeded : RunResult → Bool
  succeeded res = int_eq res.code (pos 0)

  abbrev pub call : Cmd → Exec W (WalletError E) RunResult
  call c = wrap call_failed (io.run c)

  abbrev pub returned : {A : Type 0} → Result E A → Exec W (WalletError E) A
  returned (ok a) = pure a
  returned (err e) = throw (call_failed e)

  abbrev pub read_item : Bool → Result E Item → Exec W (WalletError E) (Option Item)
  read_item false decoded = pure none
  read_item true (ok item) = pure (some item)
  read_item true (err e) = throw (call_failed e)

  -- itemAt
  unfoldable pub item_at : Text → Bool → Exec W (WalletError E) (Option Item)
  item_at service reveal = do
    res ← call (get_item vault service reveal)
    read_item (succeeded res) (io.decode_item res.stdout)

  abbrev pub unless_exited : Text → RunResult → Exec W (WalletError E) (Unit {0})
  unless_exited command res =
      if succeeded res then pure tt else throw (exited command res.code (trim_space res.stderr))

  -- deleteItem
  unfoldable pub delete_item : Text → Exec W (WalletError E) (Unit {0})
  delete_item service = do
    res ← call (remove_item vault service)
    unless_exited (codes "op item delete") res

  -- Lookup
  unfoldable pub lookup : Text → Exec W (WalletError E) (Option Text)
  unfolding item_at ours password
  lookup service = do item ← item_at service true; pure (own_password item)

  -- What Store does with the item that stands under the name.
  abbrev pub make_room : Text → Option Item → Exec W (WalletError E) (Unit {0})
  make_room service none = pure tt
  make_room service (some item) =
      if ours item then delete_item service else throw (item_not_ours vault service)

  abbrev pub create : Text → Exec W (WalletError E) (Unit {0})
  create payload = do
    res ← call (create_item vault payload)
    unless_exited (codes "op item create") res

  -- Store
  unfoldable pub store : Text → Text → Text → Exec W (WalletError E) (Unit {0})
  unfolding item_at ours delete_item
  store service label passphrase = do
    item ← item_at service false
    make_room service item
    payload ← returned (io.encode_item (item_of service label passphrase))
    create payload

  abbrev pub delete_own : Text → Option Item → Exec W (WalletError E) (Unit {0})
  delete_own service none = pure tt
  delete_own service (some item) = if ours item then delete_item service else pure tt

  -- Delete
  unfoldable pub delete : Text → Exec W (WalletError E) (Unit {0})
  unfolding item_at ours delete_item
  delete service = do item ← item_at service false; delete_own service item

  abbrev pub read_titles : RunResult → Exec W (WalletError E) (List Text)
  read_titles res =
      if succeeded res
      then returned (io.decode_titles res.stdout)
      else throw (exited (codes "op item list") res.code (trim_space res.stderr))

  -- List
  unfoldable pub list : Exec W (WalletError E) (List Text)
  list = call (list_items vault) >>= read_titles
