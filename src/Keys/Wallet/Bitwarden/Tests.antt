-- ===== src/Keys/Wallet/Bitwarden/Tests.antt =====
-- A bw that counts the commands it was sent, unlocks with "p" alone and holds no item.
use sshakku.Keys.Wallet.{RunResult}
use sshakku.Keys.Wallet.Bitwarden as Bitwarden
use sshakku.Keys.Wallet.Bitwarden.{Account, Handle, closed, Item, Ports, password_variable}
use sshakku.Keys.Wallet.Bitwarden.Session as Session
use sshakku.Keys.Wallet.Bitwarden.Session.{Leaves}
use sshakku.Prelude.{
  ℕ, ◌+◌, Text, codes, text_eq, trim_space, trim_left, trim_right, pos, List, [], ◌∷◌, true,
  if◌then◌else◌, ok, ◌≡◌, inr, refl,
}

abbrev answer : List Text → List Text → RunResult
answer (verb ∷ args) env =
    if text_eq verb (codes "unlock")
    then record { code = pos 0; stdout = codes "key "; stderr = [] }
    else if text_eq verb (codes "get")
    then record { code = pos 1; stdout = []; stderr = [] }
    else record { code = pos 0; stdout = []; stderr = [] }
answer [] env = record { code = pos 1; stdout = []; stderr = [] }

abbrev io : Ports ℕ Text
io = record {
  run = λ c w. (ok (answer c.args c.env), w + 1);
  prompt = λ question w. (ok (codes "p"), w);
  decode_id = λ printed. ok printed;
  decode_names = λ printed. ok [];
  encode_item = λ i. ok i.name;
  base64 = λ payload. payload;
}

abbrev account : Account
account = record { email = codes "me@example.org"; server = []; service_prefix = [] }

abbrev held : Handle
held = record { session = codes "key"; held = true }

-- It is logged in, unlocked, asked for the item, asked to create it, and locked.
stores :
    Bitwarden.store io account (codes "k") (codes "l") (codes "s") (0, closed)
    ≡ (ok tt, (5, closed))
unfolding Bitwarden.store trim_space trim_left trim_right
stores = refl

stores_held :
    Bitwarden.store io account (codes "k") (codes "l") (codes "s") (0, held) ≡ (ok tt, (2, held))
unfolding Bitwarden.store
stores_held = refl

session-Leaves_example :
    Leaves io account (Bitwarden.lookup io account (codes "k")) (0, closed)
    × Leaves io account (Bitwarden.store io account (codes "k") (codes "l") (codes "s")) (0, closed)
    × Leaves io account (Bitwarden.delete io account (codes "k")) (0, closed)
    × Leaves io account (Bitwarden.list io account) (0, closed)
session-Leaves_example =
    Session.session-Leaves io account (0, closed) (codes "k") (codes "l") (codes "s") (inr refl)
