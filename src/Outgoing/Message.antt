-- ===== src/Outgoing/Message.antt =====
-- `build_encrypted_message_with_stores` and `build_encrypted_message` of src/manager/outgoing.rs. The
-- stores and the encryption are libsignal's traits and functions, and the protobuf encoding is prost's.
use sigchat.Base.{
  ℕ, ◌%◌, ◌≡◌, Option, none, some, Result, ok, err, ok_or, arith, Exec, pure, lift, map_err,
  map_error, ◌>>=◌, length,
}
use sigchat.Text.{Bytes}
use sigchat.Pddb.{Pddb}
use sigchat.Signal.{Addresses, SignalProtocolError}
use sigchat.MainWs.Proto.{Content, envelope_ciphertext, envelope_prekey_bundle}
use sigchat.Outgoing.Error.{
  OutgoingError, session_load, no_session, registration_id, encrypt, unsupported_ciphertext_type,
}
use sigchat.Outgoing.Padding.{signal_pad, length-signal_pad}
use sigchat.Outgoing.Peer.{local_protocol_address}

-- `CiphertextMessage`: the two variants that are sent, with their serialized form, and the others by
-- the number of their type.
pub data CiphertextMessage : Type 0 where
  signal_message pre_key_signal_message : Bytes → CiphertextMessage
  other : ℕ → CiphertextMessage

pub record EncryptedMessage : Type 0 where
  pub ciphertext_bytes : Bytes
  pub ciphertext_type : ℕ
  pub destination_device_id : ℕ
  pub destination_registration_id : ℕ
  pub timestamp_ms : ℕ

-- The session store and the identity store, whose states are one `Store`, and the encryption over them.
pub record Sender (Store : Type 0) (ad : Addresses) : Type 1 where
  pub SessionRecord : Type 0
  pub load_session : ad.ProtocolAddress → Exec SignalProtocolError Store (Option SessionRecord)
  pub remote_registration_id : SessionRecord → Result SignalProtocolError ℕ
  pub message_encrypt :
      Bytes
      → ad.ProtocolAddress
      → ad.ProtocolAddress
      → Exec SignalProtocolError Store CiphertextMessage
  -- `content.encode_to_vec()`
  pub encode_to_vec : Content → Bytes

-- (1)
abbrev pub text_content : Bytes → ℕ → Content
text_content plaintext_body timestamp_ms = record {
  data_message = some (record { body = some plaintext_body; timestamp = some timestamp_ms });
  sync_message = none;
}

-- (5)
unfoldable pub envelope_type : CiphertextMessage → Result OutgoingError (Bytes × ℕ)
envelope_type (signal_message msg) = ok (msg, envelope_ciphertext)
envelope_type (pre_key_signal_message msg) = ok (msg, envelope_prekey_bundle)
envelope_type (other message_type) = err (unsupported_ciphertext_type message_type)

module _ {Store : Type 0} (ad : Addresses) (sender : Sender Store ad) where
  open ad use {ProtocolAddress, device_id, device_u32}

  unfoldable pub build_encrypted_message_with_stores :
      Bytes → ℕ → ProtocolAddress → ProtocolAddress → Exec OutgoingError Store EncryptedMessage
  build_encrypted_message_with_stores plaintext_body timestamp_ms recipient_addr local_addr = do
    found ← map_error session_load (sender.load_session recipient_addr)
    session_record ← lift (ok_or found no_session)
    dest_reg_id ← lift (map_err registration_id (sender.remote_registration_id session_record))
    ciphertext_message ← map_error encrypt (
        sender.message_encrypt
          (signal_pad (sender.encode_to_vec (text_content plaintext_body timestamp_ms)))
          recipient_addr local_addr)
    typed ← lift (envelope_type ciphertext_message)
    pure (record {
      ciphertext_bytes = typed.0;
      ciphertext_type = typed.1;
      destination_device_id = device_u32 (device_id recipient_addr);
      destination_registration_id = dest_reg_id;
      timestamp_ms = timestamp_ms;
    })

  -- Without a session nothing is encrypted: the call fails with `no_session`, and the stores are as
  -- the load left them.
  build_encrypted_message_with_stores-no_session :
      (body : Bytes) (ts : ℕ) (recipient_addr local_addr : ProtocolAddress) (s s' : Store)
      → sender.load_session recipient_addr s ≡ (ok none, s')
      → build_encrypted_message_with_stores body ts recipient_addr local_addr s
        ≡ (err no_session, s')
  unfolding build_encrypted_message_with_stores
  build_encrypted_message_with_stores-no_session body ts recipient_addr local_addr s s' e =
      ground (arith, e)

  -- With a session, what is encrypted is the padded Content of the body and the time, a multiple of 160
  -- bytes long, and the message carries the ciphertext with the recipient's device, the registration id
  -- of the session and the time.
  pub build_encrypted_message_with_stores-session :
      (body : Bytes) (ts : ℕ) (recipient_addr local_addr : ProtocolAddress) (s s1 s2 : Store)
      (session_record : sender.SessionRecord) (dest_reg_id : ℕ) (c : CiphertextMessage)
      (bytes : Bytes) (type_code : ℕ)
      → sender.load_session recipient_addr s ≡ (ok (some session_record), s1)
      → sender.remote_registration_id session_record ≡ ok dest_reg_id
      → sender.message_encrypt
          (signal_pad (sender.encode_to_vec (text_content body ts)))
          recipient_addr
          local_addr
          s1
        ≡ (ok c, s2)
      → envelope_type c ≡ ok (bytes, type_code)
      → (build_encrypted_message_with_stores body ts recipient_addr local_addr s ≡ (
        ok (record {
          ciphertext_bytes = bytes;
          ciphertext_type = type_code;
          destination_device_id = device_u32 (device_id recipient_addr);
          destination_registration_id = dest_reg_id;
          timestamp_ms = ts;
        }),
        s2,
      ))
        × (length (signal_pad (sender.encode_to_vec (text_content body ts))) % 160 ≡ 0)
  unfolding build_encrypted_message_with_stores
  build_encrypted_message_with_stores-session body ts recipient_addr local_addr s s1 s2 r n c bytes
        type_code load reg enc typed =
      (ground (arith, load, reg, enc, typed), (length-signal_pad _).0)

module _ (p : Pddb) (ad : Addresses) (sender : Sender p.Store ad) where
  open ad use {ProtocolAddress}

  unfoldable pub build_encrypted_message :
      Bytes → ℕ → ProtocolAddress → Exec OutgoingError p.Store EncryptedMessage
  build_encrypted_message plaintext_body timestamp_ms recipient_addr = do
    local_addr ← local_protocol_address p ad
    build_encrypted_message_with_stores ad sender plaintext_body timestamp_ms recipient_addr
        local_addr
