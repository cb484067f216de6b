-- ===== src/Provision/Cipher.antt =====
-- `PrimaryProvisioningCipher::decrypt`, `ProvisionMessage::decode`, `ProvisioningUuid::decode` and
-- `generate_identity_key_pair` of src/manager/libsignal.rs.
use sigchat.Base.{
  ◌-◌, Bool, true, false, [], ◌∷◌, Option, none, some, Result, ok, err, map_err, ok_or, unwrap_or,
  ltb, ◌==◌, if◌then◌else◌, length, take, drop,
}
use sigchat.Base.Try.{◌>>=◌}
use sigchat.Text.{Bytes, codes}
use sigchat.Io.{ErrorKind}
use sigchat.Signal.{SignalProtocolError}
use sigchat.PreKeys.Generate.{KeyLibrary}
use sigchat.Provision.Types.{
  WebSocketRequestMessage, ProvisionMessageProto, IdentityKey, IdentityKeyPair, ProvisionMessage,
  ProvisioningUuid, Ciphers,
}

-- Every error of these functions has the kind `InvalidData`.
abbrev pub required {ℓ} : {A : Type ℓ} → Option A → Result ErrorKind A
required o = ok_or o ErrorKind.invalid_data

abbrev pub invalid {ℓ} : {A : Type ℓ} → Result SignalProtocolError A → Result ErrorKind A
invalid r = map_err (λ _. ErrorKind.invalid_data) r

-- `body[0] != 0x01`; an index past the end is not reached.
abbrev pub version_is_one : Bytes → Bool
version_is_one [] = false
version_is_one (version ∷ rest) = version == 1

-- The guards on the length and the version of a body.
unfoldable pub checked_body : Bytes → Result ErrorKind Bytes
checked_body body =
    if ltb (length body) 65
    then err ErrorKind.invalid_data
    else if version_is_one body
    then ok body
    else err ErrorKind.invalid_data

abbrev pub accept_tag : Bool → Result ErrorKind (Unit {0})
accept_tag true = ok tt
accept_tag false = err ErrorKind.invalid_data

abbrev pub hkdf_info : Bytes
hkdf_info = codes "TextSecure Provisioning Message"

-- `.request.and_then(|r| r.body)`
abbrev pub request_body : Option WebSocketRequestMessage → Option Bytes
request_body none = none
request_body (some r) = r.body

module _ (k : KeyLibrary) (l : Ciphers k) where
  -- The ephemeral public key and the body of an envelope.
  unfoldable pub envelope_parts : Bytes → Result ErrorKind (Bytes × Bytes)
  envelope_parts bytes = do
    envelope ← required (l.decode_envelope bytes)
    ephemeral_pub_bytes ← required envelope.public_key
    body ← required envelope.body
    body ← checked_body body
    ok (ephemeral_pub_bytes, body)

  -- The two keys: for AES and for the MAC.
  unfoldable pub derive_keys : IdentityKeyPair → Bytes → Result ErrorKind (Bytes × Bytes)
  derive_keys temp_identity ephemeral_pub_bytes = do
    priv_bytes ← required (l.decode temp_identity.djb_private_key.key)
    our_private_key ← invalid (l.private_key priv_bytes)
    their_pub_key ← invalid (l.public_key ephemeral_pub_bytes)
    shared_secret ← invalid (l.agree our_private_key their_pub_key)
    derived ← required (l.hkdf shared_secret hkdf_info 64)
    ok (take 32 derived, drop 32 derived)

  -- The tag is verified before anything is decrypted.
  unfoldable pub open_body : Bytes → Bytes → Bytes → Result ErrorKind Bytes
  open_body aes_key mac_key body = do
    verified ←
        required (l.verify mac_key (take (length body - 32) body) (drop (length body - 32) body))
    _ ← accept_tag verified
    decryptor ← required (l.decryptor aes_key (take 16 (drop 1 body)))
    required (l.decrypt_padded decryptor (drop 17 (take (length body - 32) body)))

  abbrev pub encoded : Bytes → IdentityKey
  encoded b = record { key = l.encode b }

  abbrev pub encode_option : Option Bytes → Option Bytes
  encode_option none = none
  encode_option (some b) = some (l.encode b)

  unfoldable pub message_of : ProvisionMessageProto → Result ErrorKind ProvisionMessage
  message_of msg = do
    aci_pub ← required msg.aci_identity_key_public
    aci_priv ← required msg.aci_identity_key_private
    ok (record {
      number = unwrap_or msg.number [];
      aci = record {
        service_id = unwrap_or msg.aci [];
        djb_identity_key = encoded aci_pub;
        djb_private_key = encoded aci_priv;
      };
      pni = record {
        service_id = unwrap_or msg.pni [];
        djb_identity_key = encoded (unwrap_or msg.pni_identity_key_public []);
        djb_private_key = encoded (unwrap_or msg.pni_identity_key_private []);
      };
      master_key = [];
      profile_key = encode_option msg.profile_key;
      provisioning_code = msg.provisioning_code;
      account_entropy_pool = msg.account_entropy_pool;
    })

  unfoldable pub decrypt : IdentityKeyPair → Bytes → Result ErrorKind ProvisionMessage
  decrypt temp_identity bytes = do
    parts ← envelope_parts bytes
    keys ← derive_keys temp_identity parts.0
    plaintext ← open_body keys.0 keys.1 parts.1
    msg ← required (l.decode_provision_message plaintext)
    message_of msg

  -- `ProvisionMessage::decode`
  unfoldable pub decode_message : IdentityKeyPair → Bytes → Result ErrorKind ProvisionMessage
  decode_message temp_identity bytes = do
    ws ← required (l.decode_web_socket_message bytes)
    body ← required (request_body ws.request)
    decrypt temp_identity body

  -- `ProvisioningUuid::decode`
  unfoldable pub decode_uuid : Bytes → Result ErrorKind ProvisioningUuid
  decode_uuid bytes = do
    ws ← required (l.decode_web_socket_message bytes)
    body ← required (request_body ws.request)
    proto ← required (l.decode_address body)
    address ← required proto.address
    ok (record { id = address })

  unfoldable pub generate_identity_key_pair : k.Rng → IdentityKeyPair × k.Rng
  generate_identity_key_pair rng =
      let (kp, rng') = k.generate rng in
      (
        record {
          service_id = [];
          djb_identity_key = encoded (k.serialized_public kp);
          djb_private_key = encoded (l.serialize_private (l.private_half kp));
        },
        rng',
      )
