-- ===== src/MainWs/Envelope.antt =====
-- `dispatch_envelope` of src/manager/main_ws.rs. What it calls in libsignal is an interface: the
-- decryptions work on the stores, that is on the database.
pub mod Trust
use sigchat.Base.{
  ℕ, ◌^◌, ◌%◌, Bool, true, false, ◌||◌, List, [], ◌∷◌, Option, none, some, Result, ok, err, map_err,
  unwrap_or, Exec, pure, raise, lift, map_error, ◌>>=◌, ◌>>◌, ltb, ◌==◌, if◌then◌else◌,
}
use sigchat.Text.{Bytes, codes}
use sigchat.Pddb.{Pddb}
use sigchat.Signal.{Addresses, SignalProtocolError}
use sigchat.MainWs.Proto.{
  Envelope, Decoder, envelope_ciphertext, envelope_prekey_bundle, envelope_unidentified_sender,
}
use sigchat.MainWs.World.{Run, on_db}
use sigchat.MainWs.Deliver.{deliver_content}

-- `CiphertextMessageType`: the two variants that the program handles, and the others by number.
pub data MessageType : Type 0 where
  pre_key whisper : MessageType
  unsupported : ℕ → MessageType

pub record Protocol (p : Pddb) (ad : Addresses) : Type 1 where
  pub Usmc : Type 0
  pub SenderCert : Type 0
  pub PublicKey : Type 0
  pub PreKeyMessage : Type 0
  pub SignalMessage : Type 0
  -- `BASE64.decode(b64).ok()` and `PublicKey::deserialize(&raw).ok()`
  pub base64_decode : Bytes → Option Bytes
  pub deserialize_key : Bytes → Option PublicKey
  pub sealed_sender_decrypt_to_usmc : Bytes → Exec SignalProtocolError p.Store Usmc
  pub sender : Usmc → Result SignalProtocolError SenderCert
  pub validate_with_trust_roots : SenderCert → List PublicKey → ℕ → Result SignalProtocolError Bool
  pub sender_uuid : SenderCert → Result SignalProtocolError Bytes
  pub sender_device_id : SenderCert → Result SignalProtocolError ad.DeviceId
  pub msg_type : Usmc → Result SignalProtocolError MessageType
  pub contents : Usmc → Result SignalProtocolError Bytes
  pub pre_key_message : Bytes → Result SignalProtocolError PreKeyMessage
  pub signal_message : Bytes → Result SignalProtocolError SignalMessage
  pub message_decrypt_prekey :
      PreKeyMessage
      → ad.ProtocolAddress
      → ad.ProtocolAddress
      → Exec SignalProtocolError p.Store Bytes
  pub message_decrypt_signal :
      SignalMessage → ad.ProtocolAddress → Exec SignalProtocolError p.Store Bytes

-- Where an envelope is given up; the reason is only logged.
pub data Dropped : Type 0 where
  undecodable no_content bad_usmc bad_sender untrusted_sender bad_sender_id : Dropped
  unsupported_inner bad_message decrypt_failed bad_device unhandled_type : Dropped

abbrev pub sealed_sender_trust_roots : List Bytes
sealed_sender_trust_roots =
    codes "BXu6QIKVz5MA8gstzfOgRQGqyLqOwNKHL6INkv3IHWMF"
    ∷ codes "BUkY0I+9+oPgDCn4+Ac6Iu813yvqkDr/ga8DzLxFxuk6"
    ∷ []

abbrev filter_map : {A B : Type 0} → (A → Option B) → List A → List B
filter_map f [] = []
filter_map f (x ∷ xs) = elim (f x) [ none ↦ filter_map f xs | some y ↦ y ∷ filter_map f xs ]

module _ (p : Pddb) (ad : Addresses) (proto : Protocol p ad) where
  open p use {Store}
  open ad use {ProtocolAddress, DeviceId, device_new, address_new}
  open proto use {Usmc, SenderCert, PublicKey}

  unfoldable pub trust_roots : List PublicKey
  trust_roots =
      filter_map proto.deserialize_key (filter_map proto.base64_decode sealed_sender_trust_roots)

  -- The rest of a pre-key message and of an ordinary one, sealed or not.
  unfoldable pub decrypt_prekey :
      Bytes → ProtocolAddress → ProtocolAddress → Exec Dropped Store Bytes
  decrypt_prekey bytes remote_addr local_addr = do
    msg ← lift (map_err (λ _. Dropped.bad_message) (proto.pre_key_message bytes))
    map_error (λ _. Dropped.decrypt_failed)
        (proto.message_decrypt_prekey msg remote_addr local_addr)

  unfoldable pub decrypt_signal : Bytes → ProtocolAddress → Exec Dropped Store Bytes
  decrypt_signal bytes remote_addr = do
    msg ← lift (map_err (λ _. Dropped.bad_message) (proto.signal_message bytes))
    map_error (λ _. Dropped.decrypt_failed) (proto.message_decrypt_signal msg remote_addr)

  abbrev pub accepted : Result SignalProtocolError Bool → Result Dropped (Unit {0})
  accepted (ok true) = ok tt
  accepted (ok false) = err Dropped.untrusted_sender
  accepted (err e) = err Dropped.untrusted_sender

  -- `usmc.contents().unwrap_or(&[])`
  abbrev inner_bytes : Result SignalProtocolError Bytes → Bytes
  inner_bytes (ok b) = b
  inner_bytes (err e) = []

  abbrev pub decrypt_inner :
      Usmc
      → ProtocolAddress
      → ProtocolAddress
      → Result SignalProtocolError MessageType
      → Exec Dropped Store Bytes
  decrypt_inner usmc remote_addr local_addr (ok pre_key) =
      decrypt_prekey (inner_bytes (proto.contents usmc)) remote_addr local_addr
  decrypt_inner usmc remote_addr local_addr (ok whisper) =
      decrypt_signal (inner_bytes (proto.contents usmc)) remote_addr
  decrypt_inner usmc remote_addr local_addr (ok (unsupported n)) = raise Dropped.unsupported_inner
  decrypt_inner usmc remote_addr local_addr (err e) = raise Dropped.unsupported_inner

  -- Sealed sender: the sender comes out of the certificate, which must be valid first.
  unfoldable pub open_sealed :
      Bytes → ProtocolAddress → ℕ → Exec Dropped Store (ProtocolAddress × Bytes)
  open_sealed content local_addr ts = do
    usmc ← map_error (λ _. Dropped.bad_usmc) (proto.sealed_sender_decrypt_to_usmc content)
    sender_cert ← lift (map_err (λ _. Dropped.bad_sender) (proto.sender usmc))
    lift (accepted (proto.validate_with_trust_roots sender_cert trust_roots ts))
    sender_uuid ← lift (map_err (λ _. Dropped.bad_sender_id) (proto.sender_uuid sender_cert))
    sender_dev_id ← lift (map_err (λ _. Dropped.bad_sender_id) (proto.sender_device_id sender_cert))
    plaintext ←
        decrypt_inner usmc (address_new sender_uuid sender_dev_id) local_addr (proto.msg_type usmc)
    pure (address_new sender_uuid sender_dev_id, plaintext)

  -- `source_dev == 0 || source_dev > 127`, then `DeviceId::new(source_dev as u8)`
  unfoldable pub source_device_id : ℕ → Result Dropped DeviceId
  source_device_id source_dev =
      if source_dev == 0 || ltb 127 source_dev
      then err Dropped.bad_device
      else map_err (λ _. Dropped.bad_device) (device_new (source_dev % 2 ^ 8))

  abbrev decrypt_outer : ℕ → Bytes → ProtocolAddress → ProtocolAddress → Exec Dropped Store Bytes
  decrypt_outer env_type content remote_addr local_addr =
      if env_type == envelope_prekey_bundle
      then decrypt_prekey content remote_addr local_addr
      else if env_type == envelope_ciphertext
      then decrypt_signal content remote_addr
      else raise Dropped.unhandled_type

  -- Otherwise the sender stands on the envelope.
  unfoldable pub open_plain :
      ℕ → Bytes → Bytes → ℕ → ProtocolAddress → Exec Dropped Store (ProtocolAddress × Bytes)
  open_plain env_type source_id content source_dev local_addr = do
    sender_device ← lift (source_device_id source_dev)
    plaintext ← decrypt_outer env_type content (address_new source_id sender_device) local_addr
    pure (address_new source_id sender_device, plaintext)

  abbrev open_content :
      Envelope → Option Bytes → ProtocolAddress → Exec Dropped Store (ProtocolAddress × Bytes)
  open_content envelope none local_addr = raise Dropped.no_content
  open_content envelope (some content) local_addr =
      let env_type = unwrap_or envelope.type_code 0 in
      if env_type == envelope_unidentified_sender
      then open_sealed content local_addr (unwrap_or envelope.server_timestamp 0)
      else open_plain env_type (unwrap_or envelope.source_service_id []) content
          (unwrap_or envelope.source_device 1) local_addr

  -- The sender and the plaintext of an envelope, or the point at which it is dropped.
  unfoldable pub open_envelope :
      Envelope → ProtocolAddress → Exec Dropped Store (ProtocolAddress × Bytes)
  open_envelope envelope local_addr = open_content envelope envelope.content local_addr

  abbrev pub deliver_opened :
      Decoder → ℕ → Result Dropped (ProtocolAddress × Bytes) → Run p (Unit {0})
  deliver_opened decoder ts (err reason) = pure tt
  deliver_opened decoder ts (ok (remote_addr, plaintext)) =
      deliver_content p ad decoder plaintext remote_addr ts

  abbrev pub dispatch_decoded : Decoder → Option Envelope → ProtocolAddress → Run p (Unit {0})
  dispatch_decoded decoder none local_addr = pure tt
  dispatch_decoded decoder (some envelope) local_addr = do
    opened ← on_db p (open_envelope envelope local_addr)
    deliver_opened decoder (unwrap_or envelope.server_timestamp 0) opened

  unfoldable pub dispatch_envelope : Decoder → Bytes → ProtocolAddress → Run p (Unit {0})
  dispatch_envelope decoder body local_addr =
      dispatch_decoded decoder (decoder.envelope body) local_addr
