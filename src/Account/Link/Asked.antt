-- ===== src/Account/Link/Asked.antt =====
-- The request by which `link` of src/account.rs asks the server.
use sigchat.Base.{
  ℕ, ◌≡◌, refl, ap, ◌∙◌, subst, sym, some, Result, ok, err, Exec, lift, continue, ◌>>=◌,
  continue_ok, with_ok, false, pure,
}
use sigchat.Base.Try.{bind_ok, ok_or_ok}
use sigchat.Text.{Bytes}
use sigchat.Io.{ErrorKind}
use sigchat.Provision.Types.{ProvisionMessage}
use sigchat.PreKeys.Generate.{Prekeys, generate_registration_id, generate_prekeys}
use sigchat.Provision.Cipher.{required}
use sigchat.Provision.DeviceNameUtil.{encrypt_device_name}
use sigchat.AccountAttrs.{
  AccountAttributes, generate_link_password, build_account_attributes,
  derive_unidentified_access_key,
}
use sigchat.PreKeys.Save.{save_to_pddb}
use sigchat.Rest.{LinkDeviceResponse, from_parts, put_devices_link}
use sigchat.Account.Fields.{Failure, is_primary_device}
use sigchat.Account.Link.{
  this_account, send_link, Linking, Linked, on_rng, on_net, World, ask_server, store_link, link,
  chat_url, decode_private_key, set_all, link_entries, on_store, on_account, signed_codec,
  kyber_codec,
}

module _ {Host : Type 0} (x : Linking Host) where
  open x use {pddb, keys, ciphers, sealing, http}

  -- The attributes that the server is sent say of the device what the link keeps of it.
  abbrev Describes : Linked keys → AccountAttributes → Type 0
  Describes r attrs =
      (attrs.registration_id ≡ r.registration_id)
      × (attrs.pni_registration_id ≡ r.pni_registration_id)
      × (attrs.name ≡ r.encrypted_name)

  -- From one state of the network to another, the server was asked with the verification code of the
  -- message, for its number, with the password, the pre-keys and the attributes of the device, and gave the
  -- response.
  abbrev pub Requested : ProvisionMessage → Linked keys → http.Net → http.Net → Type 0
  Requested m r net net' =
      (verification_code : Bytes) × (attrs : AccountAttributes) × (base_url : http.Url)
      × (m.provisioning_code ≡ some verification_code)
      × Describes r attrs
      × (put_devices_link http base_url m.number r.password
            (from_parts keys verification_code attrs r.generated) net
          ≡ (ok r.response, net'))

  -- A chain whose success has asked the server so.
  record Asks (m : ProvisionMessage) (run : Exec ErrorKind (World x) (Linked keys)) : Type 0 where
    asked : (w : World x) (r : Linked keys) → (run w).0 ≡ ok r → Requested m r w.net (run w).1.net

  -- A step that leaves the network alone.
  record IsQuiet {E A : Type 0} (step : Exec E (World x) A) : Type 0 where
    quiet : (w : World x) → (step w).1.net ≡ w.net

  IsQuiet-lift : {A : Type 0} (r : Result ErrorKind A) → IsQuiet (lift r)
  IsQuiet-lift r = record { quiet = λ w. refl }

  IsQuiet-rng : {A : Type 0} (step : Exec ErrorKind keys.Rng A) → IsQuiet (on_rng x step)
  IsQuiet-rng step = record { quiet = λ w. refl }

  Asks-continue :
      {A : Type 0} (m : ProvisionMessage) (a : A) (q : Result ErrorKind A)
      (f : A → Exec ErrorKind (World x) (Linked keys)) (w : World x) (r : Linked keys)
      → q ≡ ok a
      → Asks m (f a)
      → (f a w).0 ≡ ok r
      → Requested m r w.net (continue q f w).1.net
  Asks-continue m a q f w r e h ran =
      subst (λ p. Requested m r w.net (continue p f w).1.net) (sym e) (h.asked w r ran)

  Asks-bind :
      {A : Type 0} {m : ProvisionMessage} (step : Exec ErrorKind (World x) A)
      {f : A → Exec ErrorKind (World x) (Linked keys)}
      → IsQuiet step
      → ((w : World x) (a : A) → (step w).0 ≡ ok a → Asks m (f a))
      → Asks m (step >>= f)
  Asks-bind {m = m} step {f} still h = record {
    asked = λ w r e. with_ok (continue_ok (step w).0 f (step w).1 r e) λ a e1 e2.
        subst (λ net. Requested m r net (continue (step w).0 f (step w).1).1.net) (still.quiet w)
          (Asks-continue m a (step w).0 f (step w).1 r e1 (h w a e1) e2);
  }

  ok_same : {A : Type 0} {a b : A} → Path (Result ErrorKind A) (ok a) (ok b) → a ≡ b
  ok_same e = cc

  build_account_attributes-fields :
      (name profile_key : Bytes) (id pni_id : ℕ) (attrs : AccountAttributes)
      → build_account_attributes keys ciphers sealing name profile_key id pni_id ≡ ok attrs
      → (attrs.registration_id ≡ id) × (attrs.pni_registration_id ≡ pni_id) × (attrs.name ≡ name)
  unfolding build_account_attributes
  build_account_attributes-fields name profile_key id pni_id attrs e =
      let (uak, h, built) =
        bind_ok (derive_unidentified_access_key keys ciphers sealing profile_key) _ attrs e in
      let same = sym (ok_same built) in
      (
        ap (λ (a : AccountAttributes). a.registration_id) same,
        ap (λ (a : AccountAttributes). a.pni_registration_id) same,
        ap (λ (a : AccountAttributes). a.name) same,
      )

  -- What the link keeps, once the server has answered.
  abbrev made : Bytes → ℕ → ℕ → Bytes → Bytes → Prekeys keys → LinkDeviceResponse → Linked keys
  made password registration_id pni_registration_id encrypted_name profile_key_b64 generated
        response =
      record {
        password = password;
        registration_id = registration_id;
        pni_registration_id = pni_registration_id;
        encrypted_name = encrypted_name;
        profile_key_b64 = profile_key_b64;
        generated = generated;
        response = response;
      }

  answered :
      (m : ProvisionMessage) (make : LinkDeviceResponse → Linked keys)
      (answer : Result ErrorKind LinkDeviceResponse × http.Net) (w : World x) (r : Linked keys)
      → ((response : LinkDeviceResponse)
          → answer.0 ≡ ok response
          → Requested m (make response) w.net answer.1)
      → (continue {E = ErrorKind} {S = World x} answer.0
          (λ response. pure (make response))
          (record w { net = answer.1 })).0
        ≡ ok r
      → Requested m r w.net
          (continue {E = ErrorKind} {S = World x} answer.0
            (λ response. pure (make response))
            (record w { net = answer.1 })).1.net
  answered m make (ok response, net) w r h e =
      subst (λ v. Requested m v w.net net) (ok_same e) (h response refl)
  answered m make (err error, net) w r h e = cc

  Asks-put :
      (m : ProvisionMessage) (verification_code password : Bytes)
      (registration_id pni_registration_id : ℕ) (encrypted_name profile_key_b64 : Bytes)
      (attrs : AccountAttributes) (generated : Prekeys keys) (base_url : http.Url)
      → m.provisioning_code ≡ some verification_code
      → (attrs.registration_id ≡ registration_id)
        × (attrs.pni_registration_id ≡ pni_registration_id)
        × (attrs.name ≡ encrypted_name)
      → Asks m (
          on_net x (
            put_devices_link http base_url m.number password
              (from_parts keys verification_code attrs generated))
          >>= λ response. pure (
              made password registration_id pni_registration_id encrypted_name profile_key_b64
                generated response))
  Asks-put m verification_code password registration_id pni_registration_id encrypted_name
        profile_key_b64 attrs generated base_url code described =
      record {
        asked = λ w r e.
            let body = from_parts keys verification_code attrs generated in
            let answer = put_devices_link http base_url m.number password body w.net in
            answered m
              (made password registration_id pni_registration_id encrypted_name profile_key_b64
                generated)
              answer w r
              (λ response ok_answer. (
                verification_code,
                attrs,
                base_url,
                code,
                described,
                ap (λ q. (q, answer.1)) ok_answer,
              ))
              e;
      }

  Asks-send_link :
      (m : ProvisionMessage) (verification_code password : Bytes)
      (registration_id pni_registration_id : ℕ) (encrypted_name profile_key_b64 : Bytes)
      (attrs : AccountAttributes)
      → m.provisioning_code ≡ some verification_code
      → (attrs.registration_id ≡ registration_id)
        × (attrs.pni_registration_id ≡ pni_registration_id)
        × (attrs.name ≡ encrypted_name)
      → Asks m (
          send_link x m verification_code password registration_id pni_registration_id
            encrypted_name profile_key_b64 attrs)
  unfolding send_link
  Asks-send_link m verification_code password registration_id pni_registration_id encrypted_name
        profile_key_b64 attrs code described =
      Asks-bind (lift (decode_private_key x m.aci.djb_private_key.key)) (IsQuiet-lift _)
        λ _ aci_priv _.
          Asks-bind (lift (decode_private_key x m.pni.djb_private_key.key)) (IsQuiet-lift _)
            λ _ pni_priv _.
              Asks-bind (on_rng x (generate_prekeys keys aci_priv pni_priv)) (IsQuiet-rng _)
                λ _ generated _.
                  Asks-bind (this_account x) (record { quiet = λ w. refl })
                    λ _ account _.
                      Asks-bind (lift (chat_url x account)) (IsQuiet-lift _) λ _ base_url _.
                        Asks-put m verification_code password registration_id pni_registration_id
                          encrypted_name profile_key_b64 attrs generated base_url code described

  Asks-ask_server :
      (device_name : Bytes) (m : ProvisionMessage) → Asks m (ask_server x device_name m)
  unfolding ask_server
  Asks-ask_server device_name m =
      Asks-bind (lift (required m.provisioning_code)) (IsQuiet-lift _) λ _ verification_code code.
        Asks-bind (lift (required m.profile_key)) (IsQuiet-lift _) λ _ profile_key_b64 _.
          Asks-bind (lift (required (ciphers.decode profile_key_b64))) (IsQuiet-lift _)
            λ _ profile_key_bytes _.
              Asks-bind (on_rng x (generate_link_password keys ciphers sealing)) (IsQuiet-rng _)
                λ _ password _.
                  Asks-bind (on_rng x (generate_registration_id keys)) (IsQuiet-rng _)
                    λ _ registration_id _.
                      Asks-bind (on_rng x (generate_registration_id keys)) (IsQuiet-rng _)
                        λ _ pni_registration_id _.
                          Asks-bind
                            (on_rng x
                              (encrypt_device_name keys ciphers device_name m.aci.djb_private_key))
                            (IsQuiet-rng _)
                            λ _ encrypted_name _.
                              Asks-bind
                                (lift (
                                  build_account_attributes keys ciphers sealing encrypted_name
                                    profile_key_bytes registration_id pni_registration_id))
                                (IsQuiet-lift _)
                                λ _ attrs built.
                                  Asks-send_link m verification_code password registration_id
                                    pni_registration_id encrypted_name profile_key_b64 attrs
                                    (ok_or_ok m.provisioning_code ErrorKind.invalid_data
                                      verification_code code)
                                    (build_account_attributes-fields encrypted_name
                                      profile_key_bytes registration_id pni_registration_id attrs
                                      built)

  continue-IsQuiet :
      {A B : Type 0} (q : Result Failure A) (f : A → Exec Failure (World x) B) (w : World x)
      → ((a : A) → IsQuiet (f a))
      → (continue q f w).1.net ≡ w.net
  continue-IsQuiet (ok a) f w h = (h a).quiet w
  continue-IsQuiet (err e) f w h = refl

  IsQuiet-bind :
      {A B : Type 0} (step : Exec Failure (World x) A) {f : A → Exec Failure (World x) B}
      → IsQuiet step
      → ((a : A) → IsQuiet (f a))
      → IsQuiet (step >>= f)
  IsQuiet-bind step {f} still h = record {
    quiet = λ w. continue-IsQuiet (step w).0 f (step w).1 h ∙ still.quiet w;
  }

  IsQuiet-store_link : (m : ProvisionMessage) (r : Linked keys) → IsQuiet (store_link x m r)
  unfolding store_link
  IsQuiet-store_link m r =
      IsQuiet-bind (on_account x (set_all x (link_entries m r))) (record { quiet = λ w. refl })
        λ _.
          IsQuiet-bind
            (on_store x (
              save_to_pddb pddb (signed_codec x) (kyber_codec x) x.signed_id x.kyber_id
                r.generated.aci_signed_record r.generated.pni_signed_record
                r.generated.aci_kyber_record r.generated.pni_kyber_record))
            (record { quiet = λ w. refl }) λ _. record { quiet = λ w. refl }

  -- A link of a device that is not primary, which the server has answered, has asked it so, and asks for
  -- nothing more.
  pub link-Requested :
      (device_name : Bytes) (m : ProvisionMessage) (w : World x) (r : Linked keys)
      → is_primary_device w.account ≡ false
      → (ask_server x device_name m w).0 ≡ ok r
      → Requested m r w.net (link x device_name m w).1.net
  unfolding link
  link-Requested device_name m w r secondary asked =
      rw (secondary, asked)
        (subst (Requested m r w.net)
          (sym ((IsQuiet-store_link m r).quiet (ask_server x device_name m w).1))
          ((Asks-ask_server device_name m).asked w r asked))
