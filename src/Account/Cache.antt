-- ===== src/Account/Cache.antt =====
-- The fields that hold a text: a set of one keeps the cached value and the stored one together.
use sigchat.Base.{◌≡◌, refl, Option, ok, arith}
use sigchat.Text.{Bytes, bytes_eq, bytes_eq_refl}
use sigchat.Pddb.{Pddb, PddbLaws}
use sigchat.Account.Keys.{
  aci_identity_private_key, aci_identity_public_key, aci_service_id_key, encrypted_device_name_key,
  number_key, password_key, pin_master_key_key, pni_identity_private_key, pni_identity_public_key,
  pni_service_id_key, profile_key_key, storage_key_key,
}
use sigchat.Account.Values
use sigchat.Account.Fields.{Account, assign, updated, set}

-- The optional texts of the struct that `set` updates, each with its key and its field.
pub data TextField : Type 0 where
  the_aci_identity_private the_aci_identity_public the_aci_service_id the_encrypted_device_name
        the_number the_password the_pin_master_key the_pni_identity_private the_pni_identity_public
        the_pni_service_id the_profile_key the_storage_key :
      TextField

unfoldable pub key_of : TextField → Bytes
key_of the_aci_identity_private = aci_identity_private_key
key_of the_aci_identity_public = aci_identity_public_key
key_of the_aci_service_id = aci_service_id_key
key_of the_encrypted_device_name = encrypted_device_name_key
key_of the_number = number_key
key_of the_password = password_key
key_of the_pin_master_key = pin_master_key_key
key_of the_pni_identity_private = pni_identity_private_key
key_of the_pni_identity_public = pni_identity_public_key
key_of the_pni_service_id = pni_service_id_key
key_of the_profile_key = profile_key_key
key_of the_storage_key = storage_key_key

unfoldable pub value_of : {Host : Type 0} → TextField → Account Host → Option Bytes
value_of the_aci_identity_private a = a.aci_identity_private
value_of the_aci_identity_public a = a.aci_identity_public
value_of the_aci_service_id a = a.aci_service_id
value_of the_encrypted_device_name a = a.encrypted_device_name
value_of the_number a = a.number
value_of the_password a = a.password
value_of the_pin_master_key a = a.pin_master_key
value_of the_pni_identity_private a = a.pni_identity_private
value_of the_pni_identity_public a = a.pni_identity_public
value_of the_pni_service_id a = a.pni_service_id
value_of the_profile_key a = a.profile_key
value_of the_storage_key a = a.storage_key

-- The field takes the value, whatever the database did.
assign-key_of :
    {Host : Type 0} (f : TextField) (a : Account Host) (value : Option Bytes)
    → (a' : Account Host) × (assign a (key_of f) value ≡ updated a')
      × (value_of f a' ≡ value)
      × (a'.pddb_dict ≡ a.pddb_dict)
unfolding assign key_of value_of bytes_eq
assign-key_of the_aci_identity_private a value = (_, refl, refl, refl)
assign-key_of the_aci_identity_public a value = (_, refl, refl, refl)
assign-key_of the_aci_service_id a value = (_, refl, refl, refl)
assign-key_of the_encrypted_device_name a value = (_, refl, refl, refl)
assign-key_of the_number a value = (_, refl, refl, refl)
assign-key_of the_password a value = (_, refl, refl, refl)
assign-key_of the_pin_master_key a value = (_, refl, refl, refl)
assign-key_of the_pni_identity_private a value = (_, refl, refl, refl)
assign-key_of the_pni_identity_public a value = (_, refl, refl, refl)
assign-key_of the_pni_service_id a value = (_, refl, refl, refl)
assign-key_of the_profile_key a value = (_, refl, refl, refl)
assign-key_of the_storage_key a value = (_, refl, refl, refl)

module _ (p : Pddb) {Host : Type 0} where
  open p use {Store}

  -- A text field takes the value that it is set to, whatever the database answers to the writes.
  pub set-key_of :
      (f : TextField) (value : Option Bytes) (a : Account Host) (s : Store)
      → (a' : Account Host) × (value_of f a' ≡ value)
        × (a'.pddb_dict ≡ a.pddb_dict)
        × (set p (key_of f) value (a, s)
            ≡ (ok tt, (a', (Values.set p a.pddb_dict (key_of f) value s).1)))
  unfolding set
  set-key_of f value a s =
      let (a', e, v, d) = assign-key_of f a value in
      (a', v, d, ground (arith, e, (Values.get-set_ok p a.pddb_dict (key_of f) value s).0))

  -- A database that answers: the cached text of each text field is what the next read of its key in the
  -- account's dictionary finds, for a value of at most 256 bytes of UTF-8 or for none.
  pub get-set-key_of :
      (l : PddbLaws p) (f : TextField) (value : Option Bytes) (a : Account Host) (s : Store)
      → Values.read_back value ≡ value
      → (a' : Account Host) × (s' : Store) × (set p (key_of f) value (a, s) ≡ (ok tt, (a', s')))
        × ((Values.get p a'.pddb_dict (key_of f) s').0 ≡ ok (value_of f a'))
  get-set-key_of l f value a s short =
      let (a', v, d, e) = set-key_of f value a s in
      (
        a',
        (Values.set p a.pddb_dict (key_of f) value s).1,
        e,
        ground (
          arith,
          v,
          d,
          short,
          Values.get-set p l s a.pddb_dict (key_of f) value a.pddb_dict (key_of f),
          bytes_eq_refl a.pddb_dict,
          bytes_eq_refl (key_of f),
        ),
      )
