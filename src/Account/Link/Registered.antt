-- ===== src/Account/Link/Registered.antt =====
-- What a link that the server has answered makes of an account.
use sigchat.Base.{
  ℕ, ◌<◌, ◌^◌, ◌≡◌, ◌⊎◌, inl, inr, refl, ap, ◌∙◌, Bool, true, false, [], ◌∷◌, ◌++◌, List, Option,
  none, some, Result, ok, err, Exec, pure, lift, map_err, continue, ◌>>=◌, arith,
}
use sigchat.Text.{Bytes, bytes_eq}
use sigchat.Text.Decimal.{show, parse_u32-show}
use sigchat.Io.{ErrorKind}
use sigchat.Provision.Types.{ProvisionMessage}
use sigchat.PreKeys.Generate.{
  generate_registration_id, generate_prekeys, random_prekey_id-generate_registration_id,
}
use sigchat.Provision.Cipher.{required}
use sigchat.Provision.DeviceNameUtil.{encrypt_device_name}
use sigchat.AccountAttrs.{AccountAttributes, generate_link_password, build_account_attributes}
use sigchat.Rest.{from_parts, put_devices_link}
use sigchat.Account.Environment.{bool_text, parse_bool}
use sigchat.Account.Keys
use sigchat.Account.Values
use sigchat.Account.Fields.{
  Account, Assigned, Failure, updated, assign, parsed, failed, set, is_primary_device,
  is_registered,
}
use sigchat.Account.Link.{
  this_account, send_link, identity_entries, last_entries, Linking, Linked, on_rng, World,
  link_entries, ask_server, set_all, store_link, link, chat_url, decode_private_key, optional_entry,
}
use sigchat.Account.Link.Untouched.{Keeps-ask_server}
use sigchat.Rest.Requests.{put_devices_link_lt}
use sigchat.Base.{continue_ok, with_ok, subst}

module _ {Host : Type 0} (x : Linking Host) where
  open x use {pddb, keys, ciphers, sealing, http}

  abbrev with_assigned :
      Assigned Host → (Account Host → Option (Account Host)) → Option (Account Host)
  with_assigned (updated a) f = f a
  with_assigned _ f = none

  unfoldable assign_all : List (Bytes × Option Bytes) → Account Host → Option (Account Host)
  assign_all [] a = some a
  assign_all ((key, value) ∷ entries) a = with_assigned (assign a key value) (assign_all entries)

  abbrev identified : ProvisionMessage → Linked keys → Account Host → Account Host
  identified m r a = record a {
    password = some r.password;
    device_id = r.response.device_id;
    aci_identity_private = some m.aci.djb_private_key.key;
    aci_identity_public = some m.aci.djb_identity_key.key;
    aci_service_id = some m.aci.service_id;
    pni_identity_private = some m.pni.djb_private_key.key;
    pni_identity_public = some m.pni.djb_identity_key.key;
    pni_service_id = some m.pni.service_id;
    encrypted_device_name = some r.encrypted_name;
    is_multi_device = true;
    number = some m.number;
    profile_key = some r.profile_key_b64;
  }

  -- The account that a link makes of an account.
  abbrev pub linked_account : ProvisionMessage → Linked keys → Account Host → Account Host
  linked_account m r a = record (identified m r a) { storage_key = none; registered = true }

  assign_all-optional :
      (o : Option Bytes) (rest : List (Bytes × Option Bytes)) (a : Account Host)
      → assign_all (optional_entry Keys.account_entropy_pool_key o ++ rest) a ≡ assign_all rest a
  unfolding assign_all assign bytes_eq
  assign_all-optional none rest a = refl
  assign_all-optional (some v) rest a = refl

  assign-device_id :
      (n : ℕ) (a : Account Host)
      → n < 2 ^ 32
      → assign a Keys.device_id_key (some (show n)) ≡ updated (record a { device_id = n })
  unfolding assign bytes_eq
  assign-device_id n a lt =
      ap (λ o. parsed (λ s. o) (some []) (λ i. record a { device_id = i })) (parse_u32-show n lt)

  assign_all-device_id :
      (n : ℕ) (rest : List (Bytes × Option Bytes)) (a : Account Host)
      → n < 2 ^ 32
      → assign_all ((Keys.device_id_key, some (show n)) ∷ rest) a
        ≡ assign_all rest (record a { device_id = n })
  unfolding assign_all
  assign_all-device_id n rest a lt =
      ap (λ r. with_assigned r (assign_all rest)) (assign-device_id n a lt)

  assign_all-link_entries :
      (m : ProvisionMessage) (r : Linked keys) (a : Account Host)
      → r.response.device_id < 2 ^ 32
      → assign_all (link_entries m r) a ≡ some (linked_account m r a)
  unfolding link_entries assign_all assign bytes_eq bool_text parse_bool
  assign_all-link_entries m r a lt =
      assign_all-device_id r.response.device_id (identity_entries m r)
        (record a { password = some r.password }) lt
      ∙ assign_all-optional m.account_entropy_pool (last_entries r) (identified m r a)

  set-assign :
      (key : Bytes) (value : Option Bytes) (a a' : Account Host) (s : pddb.Store)
      → assign a key value ≡ updated a'
      → (s' : pddb.Store) × (set pddb key value (a, s) ≡ (ok tt, (a', s')))
  unfolding set
  set-assign key value a a' s h = (
    (Values.set pddb a.pddb_dict key value s).1,
    ground (arith, h, (Values.get-set_ok pddb a.pddb_dict key value s).0),
  )

  Assigned-cases :
      (r : Assigned Host) (f : Account Host → Option (Account Host)) (b : Account Host)
      → with_assigned r f ≡ some b
      → (a' : Account Host) × (r ≡ updated a') × (f a' ≡ some b)
  Assigned-cases (updated a') f b h = (a', refl, h)
  Assigned-cases Assigned.invalid_key f b h = cc
  Assigned-cases Assigned.unwrap_failed f b h = cc

  -- Where each entry is assigned, all sets succeed, whatever the database answers.
  set_all-assign_all :
      (entries : List (Bytes × Option Bytes)) (a b : Account Host) (s : pddb.Store)
      → assign_all entries a ≡ some b
      → (s' : pddb.Store) × (set_all x entries (a, s) ≡ (ok tt, (b, s')))
  unfolding assign_all set_all
  set_all-assign_all [] a b s h = (s, cc)
  set_all-assign_all ((key, value) ∷ entries) a b s h =
      let (a', e, h') = Assigned-cases (assign a key value) (assign_all entries) b h in
      let (s1, e1) = set-assign key value a a' s e in
      let (s2, e2) = set_all-assign_all entries a' b s1 h' in (s2, rw e1 e2)

  -- The sets of a link all succeed.
  pub set_all-link_entries :
      (m : ProvisionMessage) (r : Linked keys) (a : Account Host) (s : pddb.Store)
      → r.response.device_id < 2 ^ 32
      → (set_all x (link_entries m r) (a, s)).0 ≡ ok tt
  set_all-link_entries m r a s lt =
      let (s', e) =
        set_all-assign_all (link_entries m r) a (linked_account m r a) s
          (assign_all-link_entries m r a lt) in
      ap (λ (o : Result Failure (Unit {0}) × (Account Host × pddb.Store)). o.0) e

  saved-cases :
      (r : Result ErrorKind (Unit {0})) (w : World x)
      → ((continue {B = Bool} (map_err failed r) (λ _. pure true) w).1 ≡ w)
        × (((continue {B = Bool} (map_err failed r) (λ _. pure true) w).0 ≡ ok true)
            ⊎ ((e : ErrorKind) × ((continue {B = Bool} (map_err failed r) (λ _. pure true) w).0
                  ≡ err (failed e))))
  saved-cases (ok u) w = (refl, inl refl)
  saved-cases (err e) w = (refl, inr (e, refl))

  ok_same : {A : Type 0} {a b : A} → Path (Result ErrorKind A) (ok a) (ok b) → a ≡ b
  ok_same e = cc

  -- What a chain that succeeds returns, from what its rest returns.
  pub record Yields {A : Type 0} (P : A → Type 0) (m : Exec ErrorKind (World x) A) : Type 0 where
    pub yielded : (w : World x) (a : A) → (m w).0 ≡ ok a → P a

  Yields-bind :
      {A B : Type 0} {P : B → Type 0} (m : Exec ErrorKind (World x) A)
      {f : A → Exec ErrorKind (World x) B}
      → ((a : A) → Yields P (f a))
      → Yields P (m >>= f)
  Yields-bind m {f} h = record {
    yielded =
        λ w b e. with_ok (continue_ok (m w).0 f (m w).1 b e) λ a _ e'. (h a).yielded (m w).1 b e';
  }

  -- The same where the rest depends on what the first step returned.
  Yields-from :
      {A B : Type 0} {P : B → Type 0} (m : Exec ErrorKind (World x) A)
      {f : A → Exec ErrorKind (World x) B}
      → ((w : World x) (a : A) → (m w).0 ≡ ok a → Yields P (f a))
      → Yields P (m >>= f)
  Yields-from m {f} h = record {
    yielded = λ w b e.
        with_ok (continue_ok (m w).0 f (m w).1 b e) λ a e1 e'. (h w a e1).yielded (m w).1 b e';
  }

  abbrev pub InRange : Linked keys → Type 0
  InRange r = (r.response.device_id < 2 ^ 32) × (r.registration_id < 2 ^ 32)

  drawn_lt :
      (w : World x) (id : ℕ) → (on_rng x (generate_registration_id keys) w).0 ≡ ok id → id < 2 ^ 32
  drawn_lt w id e =
      let (id', e', lo, hi) = (random_prekey_id-generate_registration_id keys w.rng).1 in
      let same : id ≡ id' = cc (e, e') in omega (arith, same, hi)

  linked_response :
      {a b : Linked keys}
      → Path (Result ErrorKind (Linked keys)) (ok a) (ok b)
      → InRange a
      → InRange b
  linked_response e h = subst InRange (ok_same e) h

  Yields-send_link :
      (m : ProvisionMessage) (verification_code password : Bytes)
      (registration_id pni_registration_id : ℕ) (encrypted_name profile_key_b64 : Bytes)
      (attrs : AccountAttributes)
      → registration_id < 2 ^ 32
      → Yields InRange (
          send_link x m verification_code password registration_id pni_registration_id
            encrypted_name profile_key_b64 attrs)
  unfolding send_link
  Yields-send_link m verification_code password registration_id pni_registration_id encrypted_name
        profile_key_b64 attrs small =
      Yields-bind (lift (decode_private_key x m.aci.djb_private_key.key)) λ aci_priv.
        Yields-bind (lift (decode_private_key x m.pni.djb_private_key.key)) λ pni_priv.
          Yields-bind (on_rng x (generate_prekeys keys aci_priv pni_priv)) λ generated.
            Yields-bind (this_account x) λ account.
              Yields-bind (lift (chat_url x account)) λ base_url. record {
                yielded = λ w r e.
                    let body = from_parts keys verification_code attrs generated in
                    with_ok
                      (continue_ok (put_devices_link http base_url m.number password body w.net).0 _
                        _ _ e)
                      λ response e1 e2. linked_response e2 (
                        put_devices_link_lt http base_url m.number password body w.net response e1,
                        small,
                      );
              }

  pub Yields-ask_server :
      (device_name : Bytes) (m : ProvisionMessage) → Yields InRange (ask_server x device_name m)
  unfolding ask_server
  Yields-ask_server device_name m =
      Yields-bind (lift (required m.provisioning_code)) λ verification_code.
        Yields-bind (lift (required m.profile_key)) λ profile_key_b64.
          Yields-bind (lift (required (ciphers.decode profile_key_b64))) λ profile_key_bytes.
            Yields-bind (on_rng x (generate_link_password keys ciphers sealing)) λ password.
              Yields-from (on_rng x (generate_registration_id keys)) λ w registration_id drawn.
                Yields-bind (on_rng x (generate_registration_id keys)) λ pni_registration_id.
                  Yields-bind
                    (on_rng x (encrypt_device_name keys ciphers device_name m.aci.djb_private_key))
                    λ encrypted_name.
                      Yields-bind
                        (lift (
                          build_account_attributes keys ciphers sealing encrypted_name
                            profile_key_bytes registration_id pni_registration_id))
                        λ attrs.
                          Yields-send_link m verification_code password registration_id
                            pni_registration_id encrypted_name profile_key_b64 attrs
                            (drawn_lt w registration_id drawn)

  store_link-linked_account :
      (m : ProvisionMessage) (w : World x) (r : Linked keys)
      → r.response.device_id < 2 ^ 32
      → ((store_link x m r w).1.account ≡ linked_account m r w.account)
        × (((store_link x m r w).0 ≡ ok true)
            ⊎ ((e : ErrorKind) × ((store_link x m r w).0 ≡ err (failed e))))
  unfolding store_link
  store_link-linked_account m w r lt =
      let (s', e) =
        set_all-assign_all (link_entries m r) w.account (linked_account m r w.account) w.store
          (assign_all-link_entries m r w.account lt) in
      rw e
        (let (same, outcome) = saved-cases _ _ in (ap (λ (v : World x). v.account) same, outcome))

  -- Once the server has answered, a link of a device that is not primary leaves the account registered
  -- as a secondary device, with the password that was made, the device id of the answer and the keys,
  -- ids and number of the provisioning message, whatever the database answers, and also where the saving
  -- of the pre-keys fails, whose error is then the result.
  pub link-linked_account :
      (device_name : Bytes) (m : ProvisionMessage) (w : World x) (r : Linked keys)
      → is_primary_device w.account ≡ false
      → (ask_server x device_name m w).0 ≡ ok r
      → ((link x device_name m w).1.account ≡ linked_account m r w.account)
        × (is_registered (link x device_name m w).1.account ≡ true)
        × (((link x device_name m w).0 ≡ ok true)
            ⊎ ((e : ErrorKind) × ((link x device_name m w).0 ≡ err (failed e))))
  unfolding link store_link is_registered
  link-linked_account device_name m w r secondary asked =
      let w1 = (ask_server x device_name m w).1 in
      let same = ((Keeps-ask_server x device_name m).kept w).0 in
      let (stored, outcome) =
        store_link-linked_account m w1 r ((Yields-ask_server device_name m).yielded w r asked).0 in
      let whole : (store_link x m r w1).1.account ≡ linked_account m r w.account =
        stored ∙ ap (linked_account m r) same in
      rw (secondary, asked) (whole, ap is_registered whole, outcome)
