-- ===== src/Account/Storage/Fresh.antt =====
-- A new account is read back with its defaults, and what is gone is not read.
use sigchat.Base.{
  ◌≡◌, refl, ap, ◌∙◌, false, List, [], ◌∷◌, Option, none, some, ok, err, arith, if◌then◌else◌,
  continue, map_err,
}
use sigchat.Text.{Bytes, bytes_eq, bytes_eq_refl}
use sigchat.Text.Decimal.{parse_u32_zero}
use sigchat.Text.Utf8.{from_utf8, is_utf8}
use sigchat.Io.{ErrorKind}
use sigchat.Pddb.{Pddb, PddbLaws}
use sigchat.Account.Environment.{
  ServiceEnvironment, environment_text, bool_text, plus, minus, live, staging, from_str,
  parse_i64_zero, parse_i64_minus_one, parse_bool,
}
use sigchat.Account.Values.{get, set, read_back, get_found, contents-get, contents-set, set_ok}
use sigchat.Account.Fields.{failed}
use sigchat.Account.Stored.{build}
use sigchat.Account.Storage.{keys, defaults, collect, get_all, set_all, read, new, built}

abbrev map : {A B : Type 0} → (A → B) → List A → List B
map f [] = []
map f (x ∷ xs) = f x ∷ map f xs

-- The value of a key after the sets.
abbrev assigned : List (Bytes × Option Bytes) → Bytes → Option Bytes → Option Bytes
assigned [] k old = old
assigned ((key, value) ∷ rest) k old = assigned rest k (if bytes_eq key k then value else old)

collect-ok : {A : Type 0} (values : List A) → collect (map (λ v. ok v) values) ≡ ok values
collect-ok [] = refl
collect-ok (v ∷ values) = grind (arith, collect-ok values)

module _ (p : Pddb) (l : PddbLaws p) where
  open p use {Store}
  open l use {contents}

  get_all-contents :
      (d : Bytes) (ks : List Bytes) (s : Store) (view : Bytes → Option Bytes)
      → ((k : Bytes) → contents s d k ≡ view k)
      → (get_all p d ks s).0 ≡ map (λ k. ok (read_back (view k))) ks
  unfolding get_all
  get_all-contents d [] s view same = refl
  get_all-contents d (k ∷ ks) s view same = grind (
    arith,
    get_found p l s d k (view k) (same k),
    get_all-contents d ks (get p d k s).1 view (λ k'. contents-get p l s d k d k' ∙ same k'),
  )

  set_all-ok :
      (d : Bytes) (values : List (Bytes × Option Bytes)) (s : Store)
      → (set_all p d values s).0 ≡ ok tt
  unfolding set_all
  set_all-ok d [] s = refl
  set_all-ok d ((key, value) ∷ rest) s =
      ground (arith, set_ok p d key value s, set_all-ok d rest (set p d key value s).1)

  contents-set_all :
      (d : Bytes) (values : List (Bytes × Option Bytes)) (s : Store) (k : Bytes)
      → contents (set_all p d values s).1 d k ≡ assigned values k (contents s d k)
  unfolding set_all
  contents-set_all d [] s k = refl
  contents-set_all d ((key, value) ∷ rest) s k =
      let stored : contents (set p d key value s).1 d k
          ≡ (if bytes_eq key k then value else contents s d k) =
        ground (arith, contents-set p l s d key value d k, bytes_eq_refl d) in
      let next : (set_all p d ((key, value) ∷ rest) s).1
          ≡ (set_all p d rest (set p d key value s).1).1 =
        ground (arith, set_ok p d key value s) in
      ap (λ t. contents t d k) next
      ∙ (contents-set_all d rest (set p d key value s).1 k ∙ ap (assigned rest k) stored)

  module _ {Host : Type 0} (parse_host : Bytes → Option Host) where
    -- A dictionary without a value, such as a deleted one, is refused as invalid data; `read` does not
    -- panic on it.
    pub read-absent :
        (d : Bytes) (s : Store)
        → ((k : Bytes) → contents s d k ≡ none)
        → (read p parse_host d s).0 ≡ err (failed ErrorKind.invalid_data)
    unfolding read build
    read-absent d s gone =
        ap (λ r. built p parse_host d (collect r)) (get_all-contents d keys s (λ k. none) gone)

    built-defaults :
        (d host_text : Bytes) (host : Host) (env : ServiceEnvironment) (old : Bytes → Option Bytes)
        → read_back (some host_text) ≡ some host_text
        → parse_host host_text ≡ some host
        → built p parse_host d
            (collect (map (λ k. ok (read_back (assigned (defaults host_text env) k (old k)))) keys))
          ≡ ok (record {
            pddb_dict = d;
            aci_identity_private = none;
            aci_identity_public = none;
            aci_service_id = none;
            device_id = 0;
            encrypted_device_name = none;
            host = host;
            is_multi_device = false;
            number = none;
            password = none;
            pin_master_key = none;
            pni_identity_private = none;
            pni_identity_public = none;
            pni_service_id = none;
            profile_key = none;
            registered = false;
            service_environment = env;
            storage_key = none;
            store_last_receive_timestamp = plus 0;
            store_manifest_version = minus 1;
            store_manifest = none;
          })
    unfolding build bytes_eq from_utf8 is_utf8 parse_bool bool_text environment_text from_str
    built-defaults d host_text host live old short parsed =
        ground (arith, short, parsed, parse_u32_zero, parse_i64_zero, parse_i64_minus_one)
    built-defaults d host_text host staging old short parsed =
        ground (arith, short, parsed, parse_u32_zero, parse_i64_zero, parse_i64_minus_one)

    -- A new account, whatever was in its dictionary before, is returned with the host and the environment
    -- that it was given and the default of every other field, the host's text being at most 256 bytes of
    -- UTF-8 that parse back as the host.
    pub read-new :
        (d host_text : Bytes) (host : Host) (env : ServiceEnvironment) (s : Store)
        → read_back (some host_text) ≡ some host_text
        → parse_host host_text ≡ some host
        → (new p parse_host d host_text env s).0
          ≡ ok (record {
            pddb_dict = d;
            aci_identity_private = none;
            aci_identity_public = none;
            aci_service_id = none;
            device_id = 0;
            encrypted_device_name = none;
            host = host;
            is_multi_device = false;
            number = none;
            password = none;
            pin_master_key = none;
            pni_identity_private = none;
            pni_identity_public = none;
            pni_service_id = none;
            profile_key = none;
            registered = false;
            service_environment = env;
            storage_key = none;
            store_last_receive_timestamp = plus 0;
            store_manifest_version = minus 1;
            store_manifest = none;
          })
    unfolding read new
    read-new d host_text host env s short parsed =
        let s1 = (set_all p d (defaults host_text env) s).1 in
        let view = λ (k : Bytes). assigned (defaults host_text env) k (contents s d k) in
        let all : (get_all p d keys s1).0 ≡ map (λ k. ok (read_back (view k))) keys =
          get_all-contents d keys s1 view (λ k. contents-set_all d (defaults host_text env) s k) in
        ap (λ r. (continue (map_err failed r) (λ _. read p parse_host d) s1).0)
          (set_all-ok d (defaults host_text env) s)
        ∙ (ap (λ r. built p parse_host d (collect r)) all
            ∙ built-defaults d host_text host env (λ k. contents s d k) short parsed)
