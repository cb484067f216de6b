-- ===== src/Examples/LinkDevice.antt =====
-- The theorems on the linking request and on `link` at concrete inputs.
use sigchat.Base.{
  ℕ, zero, suc, ◌≡◌, ◌≢◌, ◌⊎◌, inr, refl, true, false, [], ◌∷◌, ◌++◌, none, some, ok, err, arith,
}
use sigchat.Text.{Bytes, codes}
use sigchat.Text.Decimal.{parse_u32}
use sigchat.Io.{ErrorKind}
use sigchat.Provision.DeviceNameUtil.{conceal, encrypt_device_name}
use sigchat.Provision.Ctr.{aes256_ctr_encrypt}
use sigchat.Provision.Types.{ProvisionMessage}
use sigchat.AccountAttrs.{
  Sealing, generate_link_password, derive_unidentified_access_key, build_account_attributes,
}
use sigchat.Rest.{
  PreKeyEntity, json_string, de_u32_from_str_or_num, Http, Reply, LinkDeviceRequestBody,
  LinkDeviceResponse, response, status, try_put, put_devices_link, parsed_reply, basic_auth_header,
}
use sigchat.Rest.Requests.{recorded, request, put_devices_link_requests}
use sigchat.Rest.Redact.{
  redact_verification_code, code_key, quotation_mark, redact_verification_code_lem,
}
use sigchat.PreKeys.Generate.{
  PreKeyJson, generate_registration_id, random_prekey_id, generate_signed_prekey,
  generate_kyber_last_resort, generate_prekeys,
}
use sigchat.Account.Environment.{live, plus}
use sigchat.Account.Fields.{Account, failed, is_registered, is_primary_device, chat_host}
use sigchat.Account.Link.{
  Linking, Linked, World, send_link, chat_url, decode_private_key, ask_server, link,
}
use sigchat.Account.Link.Untouched.{link-ask_server}
use sigchat.Account.Link.Registered.{link-linked_account, linked_account}
use sigchat.Examples.Database.{database, empty}
use sigchat.Examples.PreKeys.{counting}
use sigchat.Examples.Wire.{zeros, plain, encode_device_name}
use sigchat.Examples.Provision.{message, name_text}

redact_verification_code_lem_example :
    redact_verification_code
      (codes "{" ++ code_key ++ (codes "12-34" ++ quotation_mark ∷ codes "}"))
    ≡ codes "{" ++ code_key ++ codes "<redacted>" ++ quotation_mark ∷ codes "}"
redact_verification_code_lem_example =
    redact_verification_code_lem (codes "{") (codes "12-34") (codes "}") (omega arith, tt)
      (omega arith, (omega arith, (omega arith, (omega arith, (omega arith, tt)))))

-- A server that denies its first request and answers the second.
abbrev reply_at : ℕ → Reply
reply_at zero = status 403
reply_at (suc n) = response (some (codes "2"))

abbrev answer : LinkDeviceResponse
answer = record { uuid = codes "u"; pni = codes "p"; device_id = 2 }

abbrev entity : PreKeyEntity
entity = record { key_id = 1; public_key = []; signature = [] }

abbrev body : LinkDeviceRequestBody
body = record {
  verification_code = codes "12-34";
  account_attributes = record {
    signaling_key = none;
    registration_id = 1;
    voice = true;
    video = true;
    fetches_messages = true;
    registration_lock = none;
    unidentified_access_key = [];
    unrestricted_unidentified_access = false;
    discoverable_by_phone_number = false;
    capabilities = record {
      storage = true;
      versioned_expiration_timer = true;
      attachment_backfill = true;
      ssre2 = true;
      spqr = true;
    };
    name = [];
    pni_registration_id = 1;
    recovery_password = none;
  };
  aci_signed_pre_key = entity;
  pni_signed_pre_key = entity;
  aci_pq_last_resort_pre_key = entity;
  pni_pq_last_resort_pre_key = entity;
  gcm_token = none;
}

abbrev server : Http
server = record {
  Net = ℕ;
  put = λ url authorization body n. (reply_at n, suc n);
  body_json = λ b. some b.verification_code;
  parse_json =
      λ text. some (record { uuid = codes "u"; pni = codes "p"; device_id = json_string text });
  encode = λ b. b;
  Url = Bytes;
  parse_url = some;
  text_at = λ url path. url ++ path;
}

put_devices_link_requests_example :
    let url = codes "https://x/v1/devices/link" in
    let suffixed = basic_auth_header server (codes "+1.-1") (codes "pw") in
    let bare = basic_auth_header server (codes "+1") (codes "pw") in
    let outcome =
      put_devices_link
        (recorded server)
        (codes "https://x")
        (codes "+1")
        (codes "pw")
        body
        (0, []) in
    ((server.body_json body ≡ none) × (outcome ≡ (err ErrorKind.other, (0, []))))
    ⊎ ((text : Bytes) × (server.body_json body ≡ some text)
        × (((status 403 ≢ status 403)
              × (outcome ≡ (parsed_reply server (status 403), (1, request url suffixed text ∷ []))))
            ⊎ ((status 403 ≡ status 403)
                × (outcome ≡ (
                  parsed_reply server (reply_at 1),
                  (2, request url bare text ∷ request url suffixed text ∷ []),
                )))))
put_devices_link_requests_example =
    put_devices_link_requests server (codes "https://x") (codes "+1") (codes "pw") body 0

abbrev sealing : Sealing counting
sealing = record {
  fill_bytes = λ n rng. (some (zeros n), suc rng);
  gcm_encrypt = λ key nonce m. some (m ++ zeros 16);
}

abbrev pub linking : Linking (Unit {0})
linking = record {
  pddb = database;
  keys = counting;
  ciphers = plain;
  sealing = sealing;
  http = server;
  host_text = λ h. codes "signal.org";
  serialize_signed = λ n. ok (n ∷ []);
  deserialize_signed = λ b. ok 0;
  serialize_kyber = λ n. ok (n ∷ []);
  deserialize_kyber = λ b. ok 0;
  signed_id = λ n. ok n;
  kyber_id = λ n. ok n;
}

abbrev account : Account (Unit {0})
account = record {
  pddb_dict = codes "sigchat.account";
  aci_identity_private = none;
  aci_identity_public = none;
  aci_service_id = none;
  device_id = 0;
  encrypted_device_name = none;
  host = tt;
  is_multi_device = false;
  number = none;
  password = none;
  pin_master_key = none;
  pni_identity_private = none;
  pni_identity_public = none;
  pni_service_id = none;
  profile_key = none;
  registered = false;
  service_environment = live;
  storage_key = none;
  store_last_receive_timestamp = plus 0;
  store_manifest_version = plus 0;
  store_manifest = none;
}

abbrev pub world : World linking
world = record { account = account; store = empty; rng = 0; net = 0 }

-- A message without the code of the request.
abbrev codeless : ProvisionMessage
codeless = record message { provisioning_code = none }

link-ask_server_example :
    ((link linking (codes "desk") codeless world).0 ≢ ok true)
    × ((link linking (codes "desk") codeless world).1.account ≡ account)
    × ((link linking (codes "desk") codeless world).1.store ≡ empty)
unfolding ask_server
link-ask_server_example =
    link-ask_server linking (codes "desk") codeless world (inr (ErrorKind.invalid_data, refl))

abbrev json : ℕ → PreKeyJson
json n = record { key_id = n; public_key_b64url = n ∷ []; signature_b64url = n ∷ [] }

abbrev pub linked : Linked counting
linked = record {
  password = zeros 18;
  registration_id = 2;
  pni_registration_id = 3;
  encrypted_name = name_text;
  profile_key_b64 = zeros 32;
  generated = record {
    aci_signed = json 5;
    pni_signed = json 7;
    aci_kyber_last_resort = json 9;
    pni_kyber_last_resort = json 10;
    aci_signed_record = 5;
    pni_signed_record = 7;
    aci_kyber_record = 9;
    pni_kyber_record = 10;
  };
  response = answer;
}

pub asked : (ask_server linking (codes "desk") message world).0 ≡ ok linked
unfolding ask_server plain generate_link_password generate_registration_id encrypt_device_name
    conceal aes256_ctr_encrypt build_account_attributes derive_unidentified_access_key send_link
    decode_private_key generate_prekeys generate_signed_prekey random_prekey_id
    generate_kyber_last_resort chat_url put_devices_link try_put chat_host encode_device_name
    de_u32_from_str_or_num parse_u32 basic_auth_header
asked = refl

link-linked_account_example :
    ((link linking (codes "desk") message world).1.account
      ≡ linked_account linking message linked account)
    × (is_registered (link linking (codes "desk") message world).1.account ≡ true)
    × (((link linking (codes "desk") message world).0 ≡ ok true)
        ⊎ ((e : ErrorKind) × ((link linking (codes "desk") message world).0 ≡ err (failed e))))
unfolding is_primary_device is_registered
link-linked_account_example =
    link-linked_account linking (codes "desk") message world linked refl asked
