-- ===== src/Examples/OwnIdentity.antt =====
-- The identity that the stores answer behind a link, at a concrete input.
use sigchat.Base.{ℕ, ◌<◌, ◌≡◌, refl, [], ◌∷◌, some, ok, arith}
use sigchat.Text.{Bytes, codes}
use sigchat.Account.Fields.{is_primary_device, is_registered}
use sigchat.Account.Link.{link}
use sigchat.Account.Link.Asked.{Requested}
use sigchat.Account.Link.Known.{link-own_identity}
use sigchat.Outgoing.Peer.{account_dict}
use sigchat.Stores.Own.{
  OwnKeys, IsShort, plain-IsShort, get_local_registration_id, get_identity_key_pair,
}
use sigchat.Examples.Database.{database, database_laws}
use sigchat.Examples.Provision.{message}
use sigchat.Examples.LinkDevice.{linking, world, linked, asked}

-- Keys that are their own bytes.
abbrev own : OwnKeys
own = record {
  PrivateKey = Bytes;
  IdentityKey = Bytes;
  url_safe_decode = some;
  private_deserialize = ok;
  identity_decode = ok;
}

one_letter : (c : ℕ) → 0x20 < c → c < 0x80 → IsShort (c ∷ [])
one_letter c lo hi = plain-IsShort (c ∷ []) ((lo, hi), tt) (omega arith)

link-own_identity_example :
    (let s = (link linking (codes "desk") message world).1.store in
      Requested linking message linked world.net (link linking (codes "desk") message world).1.net
      × ((get_local_registration_id database account_dict s).0 ≡ ok 2)
      × ((get_identity_key_pair database own account_dict s).0 ≡ ok (codes "A", codes "a")))
unfolding is_primary_device is_registered
link-own_identity_example =
    link-own_identity linking database_laws (codes "desk") message world linked own (codes "a")
      (codes "A") (codes "a") (codes "A") refl refl asked
      (one_letter b'a' (omega arith) (omega arith)) (one_letter b'A' (omega arith) (omega arith))
      refl refl refl refl
