-- ===== src/Examples/Library.antt =====
-- Instances of what the program uses of libsignal and of prost.
use sigchat.Base.{
  ℕ, ◌≤◌, ◌<◌, ◌≡◌, ◌⊎◌, refl, sym, true, false, Result, ok, err, arith, ltb, Bool, inl, inr,
}
use mathlib.Core.HLevel.{Σ_prop_path}
use sigchat.Text.{Bytes, codes, Lacks, bytes_eq, bytes_eq_iff}
use sigchat.Text.Utf8.{is_utf8}
use sigchat.Signal.{Addresses, AddressesLaws, Codec, CodecLaws, SignalProtocolError, library}
use sigchat.Stores.Identity.{IdentityKeys, IdentityKeysLaws}

-- A device id: a number below 128.
abbrev pub Device : Type 0
Device = (n : ℕ) × (ltb n 128 ≡ true)

abbrev tested : (b : Bool) → (b ≡ true) ⊎ (b ≡ false)
tested true = inl refl
tested false = inr refl

abbrev device_if :
    (n : ℕ) → (ltb n 128 ≡ true) ⊎ (ltb n 128 ≡ false) → Result SignalProtocolError Device
device_if n (inl small) = ok (n, small)
device_if n (inr large) = err (library 0)

abbrev pub addresses : Addresses
addresses = record {
  DeviceId = Device;
  ProtocolAddress = Bytes × Device;
  device_new = λ n. device_if n (tested (ltb n 128));
  device_u32 = λ d. d.0;
  address_new = λ n d. (n, d);
  name = λ a. a.0;
  device_id = λ a. a.1;
}

device_ok :
    (n : ℕ) (c : (ltb n 128 ≡ true) ⊎ (ltb n 128 ≡ false))
    → n ≤ 127
    → (d : Device) × (device_if n c ≡ ok d) × (d.0 ≡ n)
device_ok n (inl small) h = ((n, small), refl, refl)
device_ok n (inr large) h = absurd (ground arith)

device_lt_256 : (n : ℕ) → ltb n 128 ≡ true → n < 256
device_lt_256 n small = ground arith

pub addresses_laws : AddressesLaws addresses
addresses_laws = record {
  device_new_in_range = λ n l h. device_ok n (tested (ltb n 128)) h;
  device_ext = λ d e h. Σ_prop_path (λ n. hlevel) h;
  device_lt = λ d. device_lt_256 d.0 d.1;
  name_new = λ n d. refl;
  device_id_new = λ n d. refl;
  address_eta = λ x. refl;
}

-- A record that is its own serialized form.
abbrev pub bytes_codec : Codec
bytes_codec = record { Item = Bytes; serialize = λ x. ok x; deserialize = λ b. ok b }

pub bytes_codec_laws : CodecLaws bytes_codec
bytes_codec_laws = record { deserialize_serialize = λ x b h. sym h }

abbrev pub identity_keys : IdentityKeys
identity_keys = record {
  IdentityKey = Bytes;
  serialize = λ x. x;
  decode = λ b. ok b;
  eq = bytes_eq;
}

pub identity_keys_laws : IdentityKeysLaws identity_keys
identity_keys_laws = record { decode_serialize = λ x. refl; eq_iff = bytes_eq_iff }

abbrev pub bob : Bytes × Device
bob = (codes "bob", (1, refl))

abbrev pub alice : Bytes × Device
alice = (codes "alice", (2, refl))

pub bob_plain : Lacks b'"' (codes "bob")
bob_plain = (omega arith, (omega arith, (omega arith, tt)))

pub bob_utf8 : is_utf8 (codes "bob") ≡ true
unfolding is_utf8
bob_utf8 = refl
