-- ===== src/Account/Keys.antt =====
-- The keys of an account's dictionary in src/account.rs.
use sigchat.Text.{Bytes, codes}

abbrev pub account_entropy_pool_key : Bytes
account_entropy_pool_key = codes "aep"

abbrev pub aci_identity_private_key : Bytes
aci_identity_private_key = codes "aci.identity.private"

abbrev pub aci_identity_public_key : Bytes
aci_identity_public_key = codes "aci.identity.public"

abbrev pub aci_service_id_key : Bytes
aci_service_id_key = codes "aci.service_id"

abbrev pub device_id_key : Bytes
device_id_key = codes "device_id"

abbrev pub encrypted_device_name_key : Bytes
encrypted_device_name_key = codes "encrypted_device_name"

abbrev pub host_key : Bytes
host_key = codes "host"

abbrev pub is_multi_device_key : Bytes
is_multi_device_key = codes "is_multi_device"

abbrev pub number_key : Bytes
number_key = codes "number"

abbrev pub password_key : Bytes
password_key = codes "password"

abbrev pub pin_master_key_key : Bytes
pin_master_key_key = codes "pin_master_key"

abbrev pub pni_identity_private_key : Bytes
pni_identity_private_key = codes "pni.identity.private"

abbrev pub pni_identity_public_key : Bytes
pni_identity_public_key = codes "pni.identity.public"

abbrev pub pni_registration_id_key : Bytes
pni_registration_id_key = codes "pni.registration_id"

abbrev pub pni_service_id_key : Bytes
pni_service_id_key = codes "pni.service_id"

abbrev pub profile_key_key : Bytes
profile_key_key = codes "profile_key"

abbrev pub registered_key : Bytes
registered_key = codes "registered"

abbrev pub registration_id_key : Bytes
registration_id_key = codes "registration_id"

abbrev pub service_environment_key : Bytes
service_environment_key = codes "service_environment"

abbrev pub storage_key_key : Bytes
storage_key_key = codes "storage_key"

abbrev pub store_last_receive_timestamp_key : Bytes
store_last_receive_timestamp_key = codes "store_last_receive_timestamp"

abbrev pub store_manifest_version_key : Bytes
store_manifest_version_key = codes "store_manifest_version"

abbrev pub store_manifest_key : Bytes
store_manifest_key = codes "store_manifest"
