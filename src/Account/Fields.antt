-- ===== src/Account/Fields.antt =====
-- The struct `Account` of src/account.rs, its questions, and its method `set`.
use sigchat.Base.{
  ℕ, Bool, ◌&&◌, ◌||◌, not, ◌++◌, Option, none, some, is_some, Result, ok, err, Exec, ◌==◌,
  if◌then◌else◌,
}
use sigchat.Text.{Bytes, codes, bytes_eq}
use sigchat.Text.Decimal.{parse_u32}
use sigchat.Io.{ErrorKind}
use sigchat.Pddb.{Pddb}
use sigchat.Account.Environment.{ServiceEnvironment, live, staging, from_str, parse_bool, I64}
use sigchat.Account.Keys.{
  account_entropy_pool_key, aci_identity_private_key, aci_identity_public_key, aci_service_id_key,
  device_id_key, encrypted_device_name_key, is_multi_device_key, number_key, password_key,
  pin_master_key_key, pni_identity_private_key, pni_identity_public_key, pni_registration_id_key,
  pni_service_id_key, profile_key_key, registered_key, registration_id_key, service_environment_key,
  storage_key_key, store_last_receive_timestamp_key, store_manifest_version_key, store_manifest_key,
}
use sigchat.Account.Values

-- The handle of the database is not a field: it is the state that the operations work on.
pub record Account (Host : Type 0) : Type 0 where
  pub pddb_dict : Bytes
  pub aci_identity_private : Option Bytes
  pub aci_identity_public : Option Bytes
  pub aci_service_id : Option Bytes
  pub device_id : ℕ
  pub encrypted_device_name : Option Bytes
  pub host : Host
  pub is_multi_device : Bool
  pub number : Option Bytes
  pub password : Option Bytes
  pub pin_master_key : Option Bytes
  pub pni_identity_private : Option Bytes
  pub pni_identity_public : Option Bytes
  pub pni_service_id : Option Bytes
  pub profile_key : Option Bytes
  pub registered : Bool
  pub service_environment : ServiceEnvironment
  pub storage_key : Option Bytes
  pub store_last_receive_timestamp : I64
  pub store_manifest_version : I64
  pub store_manifest : Option Bytes

-- `SignalServiceAddress::DEFAULT_DEVICE_ID`
abbrev pub default_device_id : ℕ
default_device_id = 1

-- An error, or the panic of an `unwrap`.
pub data Failure : Type 0 where
  failed : ErrorKind → Failure
  panicked : Failure

-- What the match of `set` makes of a key and its new value.
pub data Assigned (Host : Type 0) : Type 0 where
  updated : Account Host → Assigned Host
  invalid_key unwrap_failed : Assigned Host

-- The keys that are stored and have no field to update.
abbrev unmirrored : Bytes → Bool
unmirrored key =
    bytes_eq key account_entropy_pool_key
    || bytes_eq key registration_id_key
    || bytes_eq key pni_registration_id_key
    || bytes_eq key store_last_receive_timestamp_key
    || bytes_eq key store_manifest_version_key
    || bytes_eq key store_manifest_key

module _ {Host : Type 0} where
  unfoldable pub is_registered : Account Host → Bool
  is_registered a =
      a.registered || (not (a.device_id == 0) && is_some a.aci_service_id && is_some a.password)

  unfoldable pub is_primary_device : Account Host → Bool
  is_primary_device a = is_registered a && (a.device_id == default_device_id)

  -- `host_s` is the host's text, which the url crate makes.
  unfoldable pub chat_host : Bytes → Account Host → Bytes
  chat_host host_s a = elim a.service_environment [
    | live ↦ codes "chat." ++ host_s
    | staging ↦ codes "chat.staging." ++ host_s
  ]

  abbrev pub parsed :
      {A : Type 0} → (Bytes → Option A) → Option Bytes → (A → Account Host) → Assigned Host
  parsed parse none f = unwrap_failed
  parsed parse (some value) f = elim (parse value) [ none ↦ unwrap_failed | some x ↦ updated (f x) ]

  unfoldable pub assign : Account Host → Bytes → Option Bytes → Assigned Host
  assign a key value =
      if bytes_eq key aci_identity_private_key
      then updated (record a { aci_identity_private = value })
      else if bytes_eq key aci_identity_public_key
      then updated (record a { aci_identity_public = value })
      else if bytes_eq key aci_service_id_key
      then updated (record a { aci_service_id = value })
      else if bytes_eq key device_id_key
      then parsed parse_u32 value (λ n. record a { device_id = n })
      else if bytes_eq key encrypted_device_name_key
      then updated (record a { encrypted_device_name = value })
      else if bytes_eq key is_multi_device_key
      then parsed parse_bool value (λ b. record a { is_multi_device = b })
      else if bytes_eq key number_key
      then updated (record a { number = value })
      else if bytes_eq key password_key
      then updated (record a { password = value })
      else if bytes_eq key pin_master_key_key
      then updated (record a { pin_master_key = value })
      else if bytes_eq key pni_identity_private_key
      then updated (record a { pni_identity_private = value })
      else if bytes_eq key pni_identity_public_key
      then updated (record a { pni_identity_public = value })
      else if bytes_eq key pni_service_id_key
      then updated (record a { pni_service_id = value })
      else if bytes_eq key profile_key_key
      then updated (record a { profile_key = value })
      else if bytes_eq key registered_key
      then parsed parse_bool value (λ b. record a { registered = b })
      else if bytes_eq key service_environment_key
      then parsed from_str value (λ e. record a { service_environment = e })
      else if bytes_eq key storage_key_key
      then updated (record a { storage_key = value })
      else if unmirrored key
      then updated a
      else invalid_key

module _ (p : Pddb) {Host : Type 0} where
  open p use {Store}

  abbrev after_assign :
      Assigned Host
      → Bytes
      → Account Host
      → Store
      → Result Failure (Unit {0}) × (Account Host × Store)
  after_assign (updated a') key a s = (ok tt, (a', s))
  after_assign invalid_key key a s =
      (err (failed ErrorKind.not_found), (a, (p.delete_key a.pddb_dict key s).1))
  after_assign unwrap_failed key a s = (err panicked, (a, s))

  abbrev after_set :
      Result ErrorKind (Unit {0})
      → Bytes
      → Option Bytes
      → Account Host
      → Store
      → Result Failure (Unit {0}) × (Account Host × Store)
  after_set (ok _) key value a s = after_assign (assign a key value) key a s
  after_set (err e) key value a s = (err (failed e), (a, s))

  unfoldable pub set : Bytes → Option Bytes → Exec Failure (Account Host × Store) (Unit {0})
  set key value (a, s) =
      let (r, s') = Values.set p a.pddb_dict key value s in after_set r key value a s'

  abbrev after_set_number :
      Result Failure (Unit {0}) × (Account Host × Store)
      → Bytes
      → Result Failure (Unit {0}) × (Account Host × Store)
  after_set_number (ok _, (a, s)) value = (ok tt, (record a { number = some value }, s))
  after_set_number (err (failed e), (a, s)) value = (ok tt, (a, s))
  after_set_number (err panicked, (a, s)) value = (err panicked, (a, s))

  -- An error of `set` is only logged.
  unfoldable pub set_number : Bytes → Exec Failure (Account Host × Store) (Unit {0})
  set_number value state = after_set_number (set number_key (some value) state) value
