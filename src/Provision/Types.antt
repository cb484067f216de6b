-- ===== src/Provision/Types.antt =====
-- The messages of the provisioning flow in src/manager/libsignal.rs, and the libraries that it calls.
use sigchat.Base.{ℕ, Bool, Option, Result}
use sigchat.Text.{Bytes}
use sigchat.Signal.{SignalProtocolError}
use sigchat.PreKeys.Generate.{KeyLibrary}

pub record WebSocketRequestMessage : Type 0 where
  pub verb : Option Bytes
  pub path : Option Bytes
  pub body : Option Bytes
  pub id : Option ℕ

pub record WebSocketMessage : Type 0 where
  pub type : Option ℕ
  pub request : Option WebSocketRequestMessage

pub record ProvisioningAddress : Type 0 where
  pub address : Option Bytes

pub record ProvisionEnvelope : Type 0 where
  pub public_key : Option Bytes
  pub body : Option Bytes

pub record DeviceName : Type 0 where
  pub ephemeral_public : Option Bytes
  pub synthetic_iv : Option Bytes
  pub ciphertext : Option Bytes

pub record ProvisionMessageProto : Type 0 where
  pub aci_identity_key_public : Option Bytes
  pub aci_identity_key_private : Option Bytes
  pub number : Option Bytes
  pub provisioning_code : Option Bytes
  pub profile_key : Option Bytes
  pub read_receipts : Option Bool
  pub aci : Option Bytes
  pub pni : Option Bytes
  pub pni_identity_key_public : Option Bytes
  pub pni_identity_key_private : Option Bytes
  pub account_entropy_pool : Option Bytes

pub record IdentityKey : Type 0 where
  pub key : Bytes

pub record IdentityKeyPair : Type 0 where
  pub service_id : Bytes
  pub djb_identity_key : IdentityKey
  pub djb_private_key : IdentityKey

pub record ProvisionMessage : Type 0 where
  pub number : Bytes
  pub aci : IdentityKeyPair
  pub pni : IdentityKeyPair
  pub master_key : Bytes
  pub profile_key : Option Bytes
  pub provisioning_code : Option Bytes
  pub account_entropy_pool : Option Bytes

pub record ProvisioningUuid : Type 0 where
  pub id : Bytes

-- The libraries that the flow calls beside those of the pre-keys; an error of `none` is only logged.
pub record Ciphers (k : KeyLibrary) : Type 1 where
  -- `URL_SAFE_NO_PAD.decode`, `URL_SAFE_NO_PAD.encode` and `STANDARD.encode` of base64
  pub decode : Bytes → Option Bytes
  pub encode : Bytes → Bytes
  pub encode_standard : Bytes → Bytes
  -- `PrivateKey::deserialize`, `PublicKey::deserialize`, `PublicKey::serialize`
  pub private_key : Bytes → Result SignalProtocolError k.PrivateKey
  pub public_key : Bytes → Result SignalProtocolError k.PublicKey
  pub serialize_public : k.PublicKey → Bytes
  -- `PrivateKey::serialize` and the two halves of a key pair
  pub serialize_private : k.PrivateKey → Bytes
  pub private_half : k.KeyPair → k.PrivateKey
  pub public_half : k.KeyPair → k.PublicKey
  -- `calculate_agreement`
  pub agree : k.PrivateKey → k.PublicKey → Result SignalProtocolError Bytes
  -- HMAC-SHA256 of a key and a message; `none` is a key that it does not take
  pub hmac : Bytes → Bytes → Option Bytes
  -- `verify_slice` of the HMAC of a key and a message against a tag
  pub verify : Bytes → Bytes → Bytes → Option Bool
  -- HKDF-SHA256 without a salt, of a secret, an info and a length
  pub hkdf : Bytes → Bytes → ℕ → Option Bytes
  -- `Aes256CbcDec::new_from_slices`, and `decrypt_padded_vec_mut::<Pkcs7>`
  pub Decryptor : Type 0
  pub decryptor : Bytes → Bytes → Option Decryptor
  pub decrypt_padded : Decryptor → Bytes → Option Bytes
  -- `encrypt_block` of AES-256 under a key
  pub encrypt_block : Bytes → Bytes → Bytes
  -- the decoders and encoders of prost
  pub decode_web_socket_message : Bytes → Option WebSocketMessage
  pub decode_address : Bytes → Option ProvisioningAddress
  pub decode_envelope : Bytes → Option ProvisionEnvelope
  pub decode_provision_message : Bytes → Option ProvisionMessageProto
  pub encode_device_name : DeviceName → Bytes
