-- ===== src/Account/Link.antt =====
-- The method `link` of src/account.rs, with `chat_url` and `decode_private_key`.
pub mod Untouched
pub mod Registered
pub mod Entries
pub mod Known
pub mod Asked
use sigchat.Base.{
  ℕ, ◌≡◌, Bool, true, false, [], ◌∷◌, ◌++◌, List, Option, none, some, Result, ok, err, Exec, pure,
  lift, map_err, map_error, ok_or, ◌>>=◌, ◌>>◌, if◌then◌else◌,
}
use sigchat.Text.{Bytes, codes}
use sigchat.Text.Decimal.{show}
use sigchat.Io.{ErrorKind}
use sigchat.Pddb.{Pddb}
use sigchat.Signal.{Codec, SignalProtocolError}
use sigchat.PreKeys.Generate.{KeyLibrary, Prekeys, generate_registration_id, generate_prekeys}
use sigchat.PreKeys.Save.{save_to_pddb}
use sigchat.Provision.Types.{IdentityKey, ProvisionMessage, Ciphers}
use sigchat.Provision.Cipher.{required, invalid}
use sigchat.Provision.DeviceNameUtil.{encrypt_device_name}
use sigchat.AccountAttrs.{
  Sealing, AccountAttributes, generate_link_password, build_account_attributes,
}
use sigchat.Rest.{Http, LinkDeviceResponse, from_parts, put_devices_link}
use sigchat.Account.Environment.{bool_text}
use sigchat.Account.Keys.{
  account_entropy_pool_key, aci_identity_private_key, aci_identity_public_key, aci_service_id_key,
  device_id_key, encrypted_device_name_key, is_multi_device_key, number_key, password_key,
  pni_identity_private_key, pni_identity_public_key, pni_registration_id_key, pni_service_id_key,
  profile_key_key, registered_key, registration_id_key, storage_key_key,
  store_last_receive_timestamp_key, store_manifest_version_key, store_manifest_key,
}
use sigchat.Account.Fields.{Account, Failure, failed, set, is_primary_device, chat_host}

-- What `link` works on: the database, the keys and ciphers, the network, and the two kinds of record
-- that the pre-keys are saved as.
pub record Linking (Host : Type 0) : Type 1 where
  pub pddb : Pddb
  pub keys : KeyLibrary
  pub ciphers : Ciphers keys
  pub sealing : Sealing keys
  pub http : Http
  -- `self.host.to_string()`
  pub host_text : Host → Bytes
  pub serialize_signed : keys.SignedPreKeyRecord → Result SignalProtocolError Bytes
  pub deserialize_signed : Bytes → Result SignalProtocolError keys.SignedPreKeyRecord
  pub serialize_kyber : keys.KyberPreKeyRecord → Result SignalProtocolError Bytes
  pub deserialize_kyber : Bytes → Result SignalProtocolError keys.KyberPreKeyRecord
  pub signed_id : keys.SignedPreKeyRecord → Result SignalProtocolError ℕ
  pub kyber_id : keys.KyberPreKeyRecord → Result SignalProtocolError ℕ

-- What the provisioning message and the server made, before anything is stored.
pub record Linked (k : KeyLibrary) : Type 0 where
  pub password : Bytes
  pub registration_id : ℕ
  pub pni_registration_id : ℕ
  pub encrypted_name : Bytes
  pub profile_key_b64 : Bytes
  pub generated : Prekeys k
  pub response : LinkDeviceResponse

-- One entry of what is stored, where it is there.
abbrev pub optional_entry : Bytes → Option Bytes → List (Bytes × Option Bytes)
optional_entry key none = []
optional_entry key (some value) = (key, some value) ∷ []

-- The keys and values that a link sets, in order: those of the identity, and the last ones.
abbrev pub last_entries : {k : KeyLibrary} → Linked k → List (Bytes × Option Bytes)
last_entries r =
    (registration_id_key, some (show r.registration_id))
    ∷ (pni_registration_id_key, some (show r.pni_registration_id))
    ∷ (storage_key_key, none)
    ∷ (store_last_receive_timestamp_key, some (codes "0"))
    ∷ (store_manifest_version_key, some (codes "-1"))
    ∷ (store_manifest_key, none)
    ∷ (registered_key, some (bool_text true))
    ∷ []

abbrev pub identity_entries :
    {k : KeyLibrary} → ProvisionMessage → Linked k → List (Bytes × Option Bytes)
identity_entries m r =
    (aci_identity_private_key, some m.aci.djb_private_key.key)
    ∷ (aci_identity_public_key, some m.aci.djb_identity_key.key)
    ∷ (aci_service_id_key, some m.aci.service_id)
    ∷ (pni_identity_private_key, some m.pni.djb_private_key.key)
    ∷ (pni_identity_public_key, some m.pni.djb_identity_key.key)
    ∷ (pni_service_id_key, some m.pni.service_id)
    ∷ (encrypted_device_name_key, some r.encrypted_name)
    ∷ (is_multi_device_key, some (bool_text true))
    ∷ (number_key, some m.number)
    ∷ (profile_key_key, some r.profile_key_b64)
    ∷ (optional_entry account_entropy_pool_key m.account_entropy_pool ++ last_entries r)

unfoldable pub link_entries :
    {k : KeyLibrary} → ProvisionMessage → Linked k → List (Bytes × Option Bytes)
link_entries m r =
    (password_key, some r.password)
    ∷ (device_id_key, some (show r.response.device_id))
    ∷ identity_entries m r

module _ {Host : Type 0} (x : Linking Host) where
  open x use {pddb, keys, ciphers, sealing, http}

  pub record World : Type 0 where
    pub account : Account Host
    pub store : pddb.Store
    pub rng : keys.Rng
    pub net : http.Net

  abbrev pub on_rng : {A : Type 0} → Exec ErrorKind keys.Rng A → Exec ErrorKind World A
  on_rng m w = let (r, rng') = m w.rng in (r, record w { rng = rng' })

  abbrev pub on_net : {A : Type 0} → Exec ErrorKind http.Net A → Exec ErrorKind World A
  on_net m w = let (r, net') = m w.net in (r, record w { net = net' })

  abbrev pub on_store : {A : Type 0} → Exec ErrorKind pddb.Store A → Exec Failure World A
  on_store m w = let (r, store') = m w.store in (map_err failed r, record w { store = store' })

  abbrev pub on_account :
      {A : Type 0} → Exec Failure (Account Host × pddb.Store) A → Exec Failure World A
  on_account m w =
      let (r, state) = m (w.account, w.store) in
      (r, record w { account = state.0; store = state.1 })

  abbrev pub signed_codec : Codec
  signed_codec = record {
    Item = keys.SignedPreKeyRecord;
    serialize = x.serialize_signed;
    deserialize = x.deserialize_signed;
  }

  abbrev pub kyber_codec : Codec
  kyber_codec = record {
    Item = keys.KyberPreKeyRecord;
    serialize = x.serialize_kyber;
    deserialize = x.deserialize_kyber;
  }

  unfoldable pub chat_url : Account Host → Result ErrorKind http.Url
  chat_url a = required (http.parse_url (codes "https://" ++ chat_host (x.host_text a.host) a))

  abbrev decoded_key : Option Bytes → Result ErrorKind keys.PrivateKey
  decoded_key none = err ErrorKind.invalid_data
  decoded_key (some bytes) = invalid (ciphers.private_key bytes)

  unfoldable pub decode_private_key : Bytes → Result ErrorKind keys.PrivateKey
  decode_private_key key_b64url = decoded_key (ciphers.decode key_b64url)

  abbrev pub this_account : Exec ErrorKind World (Account Host)
  this_account w = (ok w.account, w)

  -- The pre-keys and the request; `log_identity_chain` only logs.
  unfoldable pub send_link :
      ProvisionMessage
      → Bytes
      → Bytes
      → ℕ
      → ℕ
      → Bytes
      → Bytes
      → AccountAttributes
      → Exec ErrorKind World (Linked keys)
  send_link m verification_code password registration_id pni_registration_id encrypted_name
        profile_key_b64 attrs =
      do
        aci_priv ← lift (decode_private_key m.aci.djb_private_key.key)
        pni_priv ← lift (decode_private_key m.pni.djb_private_key.key)
        generated ← on_rng (generate_prekeys keys aci_priv pni_priv)
        account ← this_account
        base_url ← lift (chat_url account)
        response ← on_net (
            put_devices_link http base_url m.number password
              (from_parts keys verification_code attrs generated))
        pure (record {
          password = password;
          registration_id = registration_id;
          pni_registration_id = pni_registration_id;
          encrypted_name = encrypted_name;
          profile_key_b64 = profile_key_b64;
          generated = generated;
          response = response;
        })

  -- Up to the server's answer.
  unfoldable pub ask_server : Bytes → ProvisionMessage → Exec ErrorKind World (Linked keys)
  ask_server device_name m = do
    verification_code ← lift (required m.provisioning_code)
    profile_key_b64 ← lift (required m.profile_key)
    profile_key_bytes ← lift (required (ciphers.decode profile_key_b64))
    password ← on_rng (generate_link_password keys ciphers sealing)
    registration_id ← on_rng (generate_registration_id keys)
    pni_registration_id ← on_rng (generate_registration_id keys)
    encrypted_name ← on_rng (encrypt_device_name keys ciphers device_name m.aci.djb_private_key)
    attrs ← lift (
        build_account_attributes keys ciphers sealing encrypted_name profile_key_bytes
          registration_id pni_registration_id)
    send_link m verification_code password registration_id pni_registration_id encrypted_name
        profile_key_b64 attrs

  unfoldable pub set_all :
      List (Bytes × Option Bytes) → Exec Failure (Account Host × pddb.Store) (Unit {0})
  set_all [] = pure tt
  set_all ((key, value) ∷ entries) = set pddb key value >> set_all entries

  -- From the server's answer on.
  unfoldable pub store_link : ProvisionMessage → Linked keys → Exec Failure World Bool
  store_link m r = do
    on_account (set_all (link_entries m r))
    on_store (
        save_to_pddb pddb signed_codec kyber_codec x.signed_id x.kyber_id
          r.generated.aci_signed_record r.generated.pni_signed_record r.generated.aci_kyber_record
          r.generated.pni_kyber_record)
    pure true

  abbrev pub link_device : Bytes → ProvisionMessage → Exec Failure World Bool
  link_device device_name m = map_error failed (ask_server device_name m) >>= store_link m

  unfoldable pub link : Bytes → ProvisionMessage → Exec Failure World Bool
  link device_name m w =
      if is_primary_device w.account then (ok false, w) else link_device device_name m w
