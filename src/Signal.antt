-- ===== src/Signal.antt =====
-- What the program uses of libsignal, as interfaces: addresses, and records with their encodings.
use sigchat.Base.{ℕ, ◌≤◌, ◌<◌, ◌≡◌, Result, ok}
use sigchat.Text.{Bytes}

-- `libsignal_protocol::SignalProtocolError`: the variants that the program builds, with the fixed
-- text of a message and not the cause that it interpolates; `library` stands for every other one.
pub data SignalProtocolError : Type 0 where
  invalid_state : Bytes → Bytes → SignalProtocolError
  invalid_pre_key_id invalid_signed_pre_key_id invalid_kyber_pre_key_id : SignalProtocolError
  library : ℕ → SignalProtocolError

-- `DeviceId` and `ProtocolAddress`.
pub record Addresses : Type 1 where
  pub DeviceId : Type 0
  pub ProtocolAddress : Type 0
  -- `DeviceId::new(u8)` and `u32::from(device)`
  pub device_new : ℕ → Result SignalProtocolError DeviceId
  pub device_u32 : DeviceId → ℕ
  pub address_new : Bytes → DeviceId → ProtocolAddress
  pub name : ProtocolAddress → Bytes
  pub device_id : ProtocolAddress → DeviceId

-- A device id is a number from 1 to 127, and an address is a name with a device id.
pub record AddressesLaws (a : Addresses) : Type 0 where
  pub device_new_in_range :
      (n : ℕ) → 1 ≤ n → n ≤ 127 → (d : a.DeviceId) × (a.device_new n ≡ ok d) × (a.device_u32 d ≡ n)
  pub device_ext : (d e : a.DeviceId) → a.device_u32 d ≡ a.device_u32 e → d ≡ e
  pub device_lt : (d : a.DeviceId) → a.device_u32 d < 256
  pub name_new : (n : Bytes) (d : a.DeviceId) → a.name (a.address_new n d) ≡ n
  pub device_id_new : (n : Bytes) (d : a.DeviceId) → a.device_id (a.address_new n d) ≡ d
  pub address_eta : (x : a.ProtocolAddress) → a.address_new (a.name x) (a.device_id x) ≡ x

-- A record type of the library with its serialized form.
pub record Codec : Type 1 where
  pub Item : Type 0
  pub serialize : Item → Result SignalProtocolError Bytes
  pub deserialize : Bytes → Result SignalProtocolError Item

-- What was serialized is read back.
pub record CodecLaws (c : Codec) : Type 0 where
  pub deserialize_serialize :
      (x : c.Item) (b : Bytes) → c.serialize x ≡ ok b → c.deserialize b ≡ ok x
