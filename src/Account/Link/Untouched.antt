-- ===== src/Account/Link/Untouched.antt =====
-- A link that fails before the server has answered changes nothing.
use sigchat.Base.{
  ℕ, ◌≡◌, ◌≢◌, ◌⊎◌, inl, inr, refl, ◌∙◌, Bool, true, false, Result, ok, err, Exec, lift, continue,
  ◌>>=◌, Bool-cases,
}
use sigchat.Text.{Bytes}
use sigchat.Io.{ErrorKind}
use sigchat.Provision.Types.{ProvisionMessage}
use sigchat.PreKeys.Generate.{generate_registration_id, generate_prekeys}
use sigchat.Provision.Cipher.{required}
use sigchat.Provision.DeviceNameUtil.{encrypt_device_name}
use sigchat.AccountAttrs.{AccountAttributes, generate_link_password, build_account_attributes}
use sigchat.Rest.{from_parts, put_devices_link}
use sigchat.Account.Fields.{Failure, is_primary_device}
use sigchat.Account.Link.{
  this_account, send_link, Linking, on_rng, on_net, World, ask_server, link, chat_url,
  decode_private_key,
}

module _ {Host : Type 0} (x : Linking Host) where
  open x use {pddb, keys, ciphers, sealing, http}

  -- A step that changes neither the account nor the database.
  pub record Keeps {A : Type 0} (m : Exec ErrorKind (World x) A) : Type 0 where
    pub kept : (w : World x) → ((m w).1.account ≡ w.account) × ((m w).1.store ≡ w.store)

  Keeps-continue :
      {A B : Type 0} (r : Result ErrorKind A) (f : A → Exec ErrorKind (World x) B) (w : World x)
      → ((a : A) → Keeps (f a))
      → ((continue r f w).1.account ≡ w.account) × ((continue r f w).1.store ≡ w.store)
  Keeps-continue (ok a) f w h = (h a).kept w
  Keeps-continue (err e) f w h = (refl, refl)

  Keeps-bind :
      {A B : Type 0} (m : Exec ErrorKind (World x) A) {f : A → Exec ErrorKind (World x) B}
      → Keeps m
      → ((a : A) → Keeps (f a))
      → Keeps (m >>= f)
  Keeps-bind m {f} hm hf = record {
    kept = λ w.
        let (a, s) = Keeps-continue (m w).0 f (m w).1 hf in (a ∙ (hm.kept w).0, s ∙ (hm.kept w).1);
  }

  Keeps-lift : {A : Type 0} (r : Result ErrorKind A) → Keeps (lift r)
  Keeps-lift r = record { kept = λ w. (refl, refl) }

  Keeps-rng : {A : Type 0} (m : Exec ErrorKind keys.Rng A) → Keeps (on_rng x m)
  Keeps-rng m = record { kept = λ w. (refl, refl) }

  Keeps-send_link :
      (m : ProvisionMessage) (verification_code password : Bytes)
      (registration_id pni_registration_id : ℕ) (encrypted_name profile_key_b64 : Bytes)
      (attrs : AccountAttributes)
      → Keeps (
          send_link x m verification_code password registration_id pni_registration_id
            encrypted_name profile_key_b64 attrs)
  unfolding send_link
  Keeps-send_link m verification_code password registration_id pni_registration_id encrypted_name
        profile_key_b64 attrs =
      Keeps-bind (lift (decode_private_key x m.aci.djb_private_key.key)) (Keeps-lift _) λ aci_priv.
        Keeps-bind (lift (decode_private_key x m.pni.djb_private_key.key)) (Keeps-lift _)
          λ pni_priv.
            Keeps-bind (on_rng x (generate_prekeys keys aci_priv pni_priv)) (Keeps-rng _)
              λ generated.
                Keeps-bind (this_account x) (record { kept = λ w. (refl, refl) })
                  λ account. Keeps-bind (lift (chat_url x account)) (Keeps-lift _) λ base_url.
                    Keeps-bind
                      (on_net x (
                        put_devices_link http base_url m.number password
                          (from_parts keys verification_code attrs generated)))
                      (record { kept = λ w. (refl, refl) })
                      λ response. record { kept = λ w. (refl, refl) }

  -- Nothing is stored before the server has answered.
  pub Keeps-ask_server :
      (device_name : Bytes) (m : ProvisionMessage) → Keeps (ask_server x device_name m)
  unfolding ask_server
  Keeps-ask_server device_name m =
      Keeps-bind (lift (required m.provisioning_code)) (Keeps-lift _) λ verification_code.
        Keeps-bind (lift (required m.profile_key)) (Keeps-lift _) λ profile_key_b64.
          Keeps-bind (lift (required (ciphers.decode profile_key_b64))) (Keeps-lift _)
            λ profile_key_bytes.
              Keeps-bind (on_rng x (generate_link_password keys ciphers sealing)) (Keeps-rng _)
                λ password.
                  Keeps-bind (on_rng x (generate_registration_id keys)) (Keeps-rng _)
                    λ registration_id.
                      Keeps-bind (on_rng x (generate_registration_id keys)) (Keeps-rng _)
                        λ pni_registration_id.
                          Keeps-bind
                            (on_rng x
                              (encrypt_device_name keys ciphers device_name m.aci.djb_private_key))
                            (Keeps-rng _)
                            λ encrypted_name.
                              Keeps-bind
                                (lift (
                                  build_account_attributes keys ciphers sealing encrypted_name
                                    profile_key_bytes registration_id pni_registration_id))
                                (Keeps-lift _)
                                λ attrs.
                                  Keeps-send_link m verification_code password registration_id
                                    pni_registration_id encrypted_name profile_key_b64 attrs

  link_primary :
      (device_name : Bytes) (m : ProvisionMessage) (w : World x)
      → is_primary_device w.account ≡ true
      → ((link x device_name m w).0 ≢ ok true)
        × ((link x device_name m w).1.account ≡ w.account)
        × ((link x device_name m w).1.store ≡ w.store)
  unfolding link
  link_primary device_name m w primary =
      rw primary ((λ (e : Path (Result Failure Bool) (ok false) (ok true)). cc), refl, refl)

  -- A link of a primary device, and one that fails before or at the server's answer, does not succeed
  -- and leaves the account and the database as they were.
  pub link-ask_server :
      (device_name : Bytes) (m : ProvisionMessage) (w : World x)
      → (is_primary_device w.account ≡ true)
        ⊎ ((e : ErrorKind) × ((ask_server x device_name m w).0 ≡ err e))
      → ((link x device_name m w).0 ≢ ok true)
        × ((link x device_name m w).1.account ≡ w.account)
        × ((link x device_name m w).1.store ≡ w.store)
  unfolding link
  link-ask_server device_name m w (inl primary) = link_primary device_name m w primary
  link-ask_server device_name m w (inr (e, h)) = elim (Bool-cases (is_primary_device w.account)) [
    | inl primary ↦ link_primary device_name m w primary
    | inr secondary ↦
        rw (secondary, h)
          (
            (λ (e : Path (Result Failure Bool) (err _) (ok true)). cc),
            ((Keeps-ask_server device_name m).kept w).0,
            ((Keeps-ask_server device_name m).kept w).1,
          )
  ]
