-- ===== src/Account/Stored.antt =====
-- What `Account::read` of src/account.rs makes of the texts that it found.
use sigchat.Base.{List, [], ◌∷◌, Option, none, some, Result, ok, err, ok_or, unwrap_or}
use sigchat.Base.Try.{◌>>=◌}
use sigchat.Text.{Bytes}
use sigchat.Text.Decimal.{parse_u32}
use sigchat.Io.{ErrorKind}
use sigchat.Account.Environment.{from_str, parse_bool, parse_i64, I64, plus}
use sigchat.Account.Fields.{Account, Failure, failed, panicked}

-- A key that must be there, and `unwrap()` of what is parsed.
abbrev pub required : Option Bytes → Result Failure Bytes
required value = ok_or value (failed ErrorKind.invalid_data)

abbrev pub unwrap : {A : Type 0} → Option A → Result Failure A
unwrap value = ok_or value panicked

abbrev pub timestamp_of : Option Bytes → Option I64
timestamp_of none = none
timestamp_of (some text) = parse_i64 text

-- One value per key, in the order of the source; the list of another length is no case of it.
unfoldable pub build :
    {Host : Type 0}
    → (Bytes → Option Host)
    → Bytes
    → List (Option Bytes)
    → Result Failure (Account Host)
build parse_host pddb_dict
      (the_aci_identity_private ∷ the_aci_identity_public ∷ the_aci_service_id ∷ the_device_id
        ∷ the_encrypted_device_name ∷ the_host ∷ the_is_multi_device ∷ the_number ∷ the_password
        ∷ the_pin_master_key ∷ the_pni_identity_private ∷ the_pni_identity_public
        ∷ the_pni_service_id ∷ the_profile_key ∷ the_registered ∷ the_service_environment
        ∷ the_storage_key ∷ the_store_last_receive_timestamp ∷ the_store_manifest_version
        ∷ the_store_manifest ∷ []) =
    do
      device_id_text ← required the_device_id
      host_text ← required the_host
      is_multi_device_text ← required the_is_multi_device
      registered_text ← required the_registered
      service_environment_text ← required the_service_environment
      store_manifest_version_text ← required the_store_manifest_version
      a_device_id ← unwrap (parse_u32 device_id_text)
      a_host ← unwrap (parse_host host_text)
      a_is_multi_device ← unwrap (parse_bool is_multi_device_text)
      a_registered ← unwrap (parse_bool registered_text)
      a_service_environment ← unwrap (from_str service_environment_text)
      a_store_manifest_version ← unwrap (parse_i64 store_manifest_version_text)
      ok (record {
        pddb_dict = pddb_dict;
        aci_identity_private = the_aci_identity_private;
        aci_identity_public = the_aci_identity_public;
        aci_service_id = the_aci_service_id;
        device_id = a_device_id;
        encrypted_device_name = the_encrypted_device_name;
        host = a_host;
        is_multi_device = a_is_multi_device;
        number = the_number;
        password = the_password;
        pin_master_key = the_pin_master_key;
        pni_identity_private = the_pni_identity_private;
        pni_identity_public = the_pni_identity_public;
        pni_service_id = the_pni_service_id;
        profile_key = the_profile_key;
        registered = a_registered;
        service_environment = a_service_environment;
        storage_key = the_storage_key;
        store_last_receive_timestamp =
            unwrap_or (timestamp_of the_store_last_receive_timestamp) (plus 0);
        store_manifest_version = a_store_manifest_version;
        store_manifest = the_store_manifest;
      })
build parse_host pddb_dict _ = err (failed ErrorKind.invalid_data)
