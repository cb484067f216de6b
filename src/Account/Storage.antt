-- ===== src/Account/Storage.antt =====
-- `Account::new`, `Account::read` and `Account::delete` of src/account.rs.
pub mod Fresh
use sigchat.Base.{
  ◌≡◌, refl, ap, Bool, true, false, List, [], ◌∷◌, Option, none, some, Result, ok, err, map_err,
  arith, Exec, pure, lift, map_error, ◌>>=◌, ◌>>◌, if◌then◌else◌,
}
use sigchat.Text.{Bytes, codes, bytes_eq, bytes_eq_refl}
use sigchat.Io.{ErrorKind}
use sigchat.Pddb.{Pddb, PddbLaws, same_key}
use sigchat.Account.Environment.{ServiceEnvironment, environment_text, bool_text, plus, minus}
use sigchat.Account.Keys.{
  aci_identity_private_key, aci_identity_public_key, aci_service_id_key, device_id_key,
  encrypted_device_name_key, host_key, is_multi_device_key, number_key, password_key,
  pin_master_key_key, pni_identity_private_key, pni_identity_public_key, pni_service_id_key,
  profile_key_key, registered_key, service_environment_key, storage_key_key,
  store_last_receive_timestamp_key, store_manifest_version_key, store_manifest_key,
}
use sigchat.Account.Values.{get, set, read_back, contents-set, set_ok}
use sigchat.Account.Fields.{Account, Failure, failed}
use sigchat.Account.Stored.{build}

-- The keys that are read, in order.
abbrev pub keys : List Bytes
keys =
    aci_identity_private_key ∷ aci_identity_public_key ∷ aci_service_id_key ∷ device_id_key
    ∷ encrypted_device_name_key ∷ host_key ∷ is_multi_device_key ∷ number_key ∷ password_key
    ∷ pin_master_key_key ∷ pni_identity_private_key ∷ pni_identity_public_key ∷ pni_service_id_key
    ∷ profile_key_key ∷ registered_key ∷ service_environment_key ∷ storage_key_key
    ∷ store_last_receive_timestamp_key ∷ store_manifest_version_key ∷ store_manifest_key ∷ []

-- The values that a new account starts with.
abbrev pub defaults : Bytes → ServiceEnvironment → List (Bytes × Option Bytes)
defaults host_text env =
    (aci_identity_private_key, none)
    ∷ (aci_identity_public_key, none)
    ∷ (aci_service_id_key, none)
    ∷ (device_id_key, some (codes "0"))
    ∷ (encrypted_device_name_key, none)
    ∷ (host_key, some host_text)
    ∷ (is_multi_device_key, some (bool_text false))
    ∷ (number_key, none)
    ∷ (password_key, none)
    ∷ (pin_master_key_key, none)
    ∷ (pni_identity_private_key, none)
    ∷ (pni_identity_public_key, none)
    ∷ (pni_service_id_key, none)
    ∷ (profile_key_key, none)
    ∷ (registered_key, some (bool_text false))
    ∷ (service_environment_key, some (environment_text env))
    ∷ (storage_key_key, none)
    ∷ (store_last_receive_timestamp_key, some (codes "0"))
    ∷ (store_manifest_version_key, some (codes "-1"))
    ∷ (store_manifest_key, none)
    ∷ []

-- The first error of the results, or all values.
abbrev pub collect : {A : Type 0} → List (Result ErrorKind A) → Result ErrorKind (List A)
collect [] = ok []
collect (err e ∷ results) = err e
collect (ok a ∷ results) = elim (collect results) [ ok values ↦ ok (a ∷ values) | err e ↦ err e ]

module _ (p : Pddb) where
  open p use {Store}

  unfoldable pub get_all :
      Bytes → List Bytes → Store → List (Result ErrorKind (Option Bytes)) × Store
  get_all dict [] s = ([], s)
  get_all dict (key ∷ rest) s =
      let (r, s1) = get p dict key s in
      let (results, s2) = get_all dict rest s1 in (r ∷ results, s2)

  unfoldable pub set_all : Bytes → List (Bytes × Option Bytes) → Exec ErrorKind Store (Unit {0})
  set_all dict [] = pure tt
  set_all dict ((key, value) ∷ rest) = do set p dict key value; set_all dict rest

  module _ {Host : Type 0} (parse_host : Bytes → Option Host) where
    abbrev pub built :
        Bytes → Result ErrorKind (List (Option Bytes)) → Result Failure (Account Host)
    built dict (ok values) = build parse_host dict values
    built dict (err e) = err (failed e)

    unfoldable pub read : Bytes → Exec Failure Store (Account Host)
    read dict s = let (results, s') = get_all dict keys s in (built dict (collect results), s')

    -- `host_text` is `host.to_string()`.
    unfoldable pub new : Bytes → Bytes → ServiceEnvironment → Exec Failure Store (Account Host)
    new dict host_text env = do map_error failed (set_all dict (defaults host_text env)); read dict

  unfoldable pub delete : Bytes → Exec ErrorKind Store (Unit {0})
  delete dict = do p.delete_dict dict; pure tt
