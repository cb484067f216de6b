-- ===== src/Account/Link/Known.antt =====
-- What the protocol stores of src/manager/stores.rs know of an account behind a link.
use sigchat.Base.{
  ◌<◌, ◌^◌, ◌≡◌, refl, ap, ◌∙◌, Bool, true, false, some, Result, ok, err, pure, map_err, continue,
  subst, ◌>>◌,
}
use sigchat.Text.{Bytes, bytes_eq}
use sigchat.Pddb.{PddbLaws}
use sigchat.Account.Fields.{Account, failed, is_primary_device}
use sigchat.Text.Decimal.{show, parse_u32-show}
use sigchat.Provision.Types.{ProvisionMessage}
use sigchat.Account.Keys.{registration_id_key, aci_identity_private_key, aci_identity_public_key}
use sigchat.Account.Link.Registered.{set_all-link_entries, Yields-ask_server}
use sigchat.Account.Link.Asked.{Requested, link-Requested}
use sigchat.Account.Link.Untouched.{Keeps-ask_server}
use sigchat.Outgoing.Peer.{account_dict}
use sigchat.Io.{ErrorKind}
use sigchat.Stores.Own.{
  OwnKeys, IsShort, show-IsShort, get_local_registration_id, get_identity_key_pair,
  get_local_registration_id-contents, get_identity_key_pair-contents,
}
use sigchat.PreKeys.Save.{signed_prekey_dict, kyber_prekey_dict, save_to_pddb}
use sigchat.PreKeys.Elsewhere.{contents-save_to_pddb}
use sigchat.Account.Link.{
  World, on_store, signed_codec, kyber_codec, ask_server, store_link, link, Linking, Linked,
  set_all, link_entries,
}
use sigchat.Account.Link.Entries.{
  last_value, or_held, contents-set_all, link_registration_id, link_private_key, link_public_key,
}

other_dicts :
    (bytes_eq signed_prekey_dict account_dict ≡ false)
    × (bytes_eq kyber_prekey_dict account_dict ≡ false)
unfolding bytes_eq
other_dicts = (refl, refl)

module _ {Host : Type 0} (x : Linking Host) (l : PddbLaws x.pddb) where
  open x use {pddb, keys}
  open l use {contents}

  after_saved :
      (r : Result ErrorKind (Unit {0})) (w : World x)
      → (continue {B = Bool} (map_err failed r) (λ _. pure true) w).1.store ≡ w.store
  after_saved (ok u) w = refl
  after_saved (err e) w = refl

  store_link_value :
      (m : ProvisionMessage) (r : Linked keys) (w : World x) (key v : Bytes)
      → w.account.pddb_dict ≡ account_dict
      → r.response.device_id < 2 ^ 32
      → last_value key (link_entries m r) ≡ some (some v)
      → contents (store_link x m r w).1.store account_dict key ≡ some v
  unfolding store_link
  store_link_value m r w key v dict small last =
      let entries = link_entries m r in
      let w1 : World x = record w {
        account = (set_all x entries (w.account, w.store)).1.0;
        store = (set_all x entries (w.account, w.store)).1.1;
      } in
      let saved =
        save_to_pddb pddb (signed_codec x) (kyber_codec x) x.signed_id x.kyber_id
          r.generated.aci_signed_record r.generated.pni_signed_record r.generated.aci_kyber_record
          r.generated.pni_kyber_record in
      let set_entries = set_all-link_entries x m r w.account w.store small in
      let unsaved =
        contents-save_to_pddb pddb l account_dict key (signed_codec x) (kyber_codec x) x.signed_id
          x.kyber_id other_dicts.0 other_dicts.1 r.generated.aci_signed_record
          r.generated.pni_signed_record r.generated.aci_kyber_record r.generated.pni_kyber_record
          w1.store in
      let held =
        subst
          (λ d. contents w1.store d key ≡ or_held (last_value key entries) (contents w.store d key))
          dict (contents-set_all x l entries w.account w.store key set_entries) in
      ap
        (λ q.
          contents (continue {B = Bool} q (λ _. on_store x saved >> pure true) w1).1.store
            account_dict key)
        set_entries
      ∙ (ap (λ st. contents st account_dict key)
            (after_saved (saved w1.store).0 (record w1 { store = (saved w1.store).1 }))
          ∙ (unsaved ∙ (held ∙ ap (λ o. or_held o (contents w.store account_dict key)) last)))

  link_value :
      (device_name : Bytes) (m : ProvisionMessage) (w : World x) (r : Linked keys) (key v : Bytes)
      → w.account.pddb_dict ≡ account_dict
      → is_primary_device w.account ≡ false
      → (ask_server x device_name m w).0 ≡ ok r
      → last_value key (link_entries m r) ≡ some (some v)
      → contents (link x device_name m w).1.store account_dict key ≡ some v
  unfolding link
  link_value device_name m w r key v dict secondary asked last =
      let w1 = (ask_server x device_name m w).1 in
      let same = ((Keeps-ask_server x device_name m).kept w).0 in
      let range = (Yields-ask_server x device_name m).yielded w r asked in
      rw (secondary, asked)
        (store_link_value m r w1 key v (ap (λ (a : Account Host). a.pddb_dict) same ∙ dict) range.0
          last)

  -- Behind a link that the server has answered, of a device that is not primary, the identity store
  -- answers the registration id that stands in the attributes of the request that the server was sent and
  -- has answered, and the key pair of the provisioning message, also where the saving of the pre-keys
  -- fails. The account is in the dictionary that the store reads, the two keys are plain texts of at most
  -- 256 characters, and the store's libraries decode them.
  pub link-own_identity :
      (device_name : Bytes) (m : ProvisionMessage) (w : World x) (r : Linked keys) (k : OwnKeys)
      (private_bytes public_bytes : Bytes) (private_key : k.PrivateKey)
      (identity_key : k.IdentityKey)
      → w.account.pddb_dict ≡ account_dict
      → is_primary_device w.account ≡ false
      → (ask_server x device_name m w).0 ≡ ok r
      → IsShort m.aci.djb_private_key.key
      → IsShort m.aci.djb_identity_key.key
      → k.url_safe_decode m.aci.djb_private_key.key ≡ some private_bytes
      → k.url_safe_decode m.aci.djb_identity_key.key ≡ some public_bytes
      → k.private_deserialize private_bytes ≡ ok private_key
      → k.identity_decode public_bytes ≡ ok identity_key
      → (let s = (link x device_name m w).1.store in
          Requested x m r w.net (link x device_name m w).1.net
          × ((get_local_registration_id pddb account_dict s).0 ≡ ok r.registration_id)
          × ((get_identity_key_pair pddb k account_dict s).0 ≡ ok (identity_key, private_key)))
  link-own_identity device_name m w r k private_bytes public_bytes private_key identity_key dict
        secondary asked short_private short_public dp db sp sb =
      let s = (link x device_name m w).1.store in
      let holds = λ (key v : Bytes). link_value device_name m w r key v dict secondary asked in
      let small = ((Yields-ask_server x device_name m).yielded w r asked).1 in
      (
        link-Requested x device_name m w r secondary asked,
        get_local_registration_id-contents pddb l account_dict (show r.registration_id)
            r.registration_id s
            (holds registration_id_key (show r.registration_id) (link_registration_id m r))
            (show-IsShort r.registration_id small) (parse_u32-show r.registration_id small),
        get_identity_key_pair-contents pddb l k account_dict m.aci.djb_private_key.key
            m.aci.djb_identity_key.key private_bytes public_bytes private_key identity_key s
            (holds aci_identity_private_key m.aci.djb_private_key.key (link_private_key m r))
            (holds aci_identity_public_key m.aci.djb_identity_key.key (link_public_key m r))
            short_private short_public dp db sp sb,
      )
