-- ===== src/AccountAttrs.antt =====
-- src/manager/account_attrs.rs: the password of a link, the unidentified access key, and the account
-- attributes. `generate_registration_id` stands with the pre-keys.
use sigchat.Base.{
  ℕ, Bool, true, false, Option, none, some, Result, ok, err, Exec, ok_or, ◌==◌, if◌then◌else◌,
  length, take, replicate,
}
use sigchat.Base.Try.{◌>>=◌}
use sigchat.Text.{Bytes}
use sigchat.Io.{ErrorKind}
use sigchat.PreKeys.Generate.{KeyLibrary}
use sigchat.Provision.Types.{Ciphers}

-- What is used of the generator, and of AES-256-GCM.
pub record Sealing (k : KeyLibrary) : Type 1 where
  -- `OsRng.try_fill_bytes` of a buffer of that size
  pub fill_bytes : ℕ → k.Rng → Option Bytes × k.Rng
  -- `encrypt` of a key, a nonce and a message
  pub gcm_encrypt : Bytes → Bytes → Bytes → Option Bytes

pub record Capabilities : Type 0 where
  pub storage : Bool
  pub versioned_expiration_timer : Bool
  pub attachment_backfill : Bool
  pub ssre2 : Bool
  pub spqr : Bool

pub record AccountAttributes : Type 0 where
  pub signaling_key : Option Bytes
  pub registration_id : ℕ
  pub voice : Bool
  pub video : Bool
  pub fetches_messages : Bool
  pub registration_lock : Option Bytes
  pub unidentified_access_key : Bytes
  pub unrestricted_unidentified_access : Bool
  pub discoverable_by_phone_number : Bool
  pub capabilities : Capabilities
  pub name : Bytes
  pub pni_registration_id : ℕ
  pub recovery_password : Option Bytes

abbrev all_capabilities : Capabilities
all_capabilities = record {
  storage = true;
  versioned_expiration_timer = true;
  attachment_backfill = true;
  ssre2 = true;
  spqr = true;
}

module _ (k : KeyLibrary) (l : Ciphers k) (g : Sealing k) where
  abbrev password_of : Option Bytes → Result ErrorKind Bytes
  password_of none = err ErrorKind.other
  password_of (some bytes) = ok (l.encode_standard bytes)

  unfoldable pub generate_link_password : Exec ErrorKind k.Rng Bytes
  generate_link_password rng =
      let (filled, rng') = g.fill_bytes 18 rng in (password_of filled, rng')

  abbrev pub checked_length : Bytes → Result ErrorKind (Unit {0})
  checked_length profile_key =
      if length profile_key == 32 then ok tt else err ErrorKind.invalid_input

  -- The ciphertext without its tag, of 16 zero bytes under a nonce of zeros.
  unfoldable pub derive_unidentified_access_key : Bytes → Result ErrorKind Bytes
  derive_unidentified_access_key profile_key = do
    _ ← checked_length profile_key
    encrypted ← ok_or (g.gcm_encrypt profile_key (replicate 12 0) (replicate 16 0)) ErrorKind.other
    ok (take 16 encrypted)

  unfoldable pub build_account_attributes :
      Bytes → Bytes → ℕ → ℕ → Result ErrorKind AccountAttributes
  build_account_attributes encrypted_device_name_b64 profile_key registration_id
        pni_registration_id =
      do
        uak ← derive_unidentified_access_key profile_key
        ok (record {
          signaling_key = none;
          registration_id = registration_id;
          voice = true;
          video = true;
          fetches_messages = true;
          registration_lock = none;
          unidentified_access_key = l.encode_standard uak;
          unrestricted_unidentified_access = false;
          discoverable_by_phone_number = false;
          capabilities = all_capabilities;
          name = encrypted_device_name_b64;
          pni_registration_id = pni_registration_id;
          recovery_password = none;
        })
