-- ===== src/Provision/DeviceNameUtil.antt =====
-- `DeviceNameUtil::encrypt_device_name` of src/manager/libsignal.rs.
use sigchat.Base.{some, Exec, pure, lift, ◌>>=◌, take}
use sigchat.Text.{Bytes, codes}
use sigchat.Io.{ErrorKind}
use sigchat.PreKeys.Generate.{KeyLibrary, other, drawn}
use sigchat.Provision.Types.{IdentityKey, Ciphers}
use sigchat.Provision.Ctr.{aes256_ctr_encrypt}
use sigchat.Provision.Cipher.{required, invalid}

module _ (k : KeyLibrary) (l : Ciphers k) where
  open k use {Rng, KeyPair}

  -- From the shared secret on.
  unfoldable pub conceal : Bytes → KeyPair → Bytes → Exec ErrorKind Rng Bytes
  conceal device_name ephemeral master_secret = do
    synthetic_iv_key ← lift (required (l.hmac master_secret (codes "auth")))
    synthetic_iv_full ← lift (required (l.hmac synthetic_iv_key device_name))
    cipher_key_key ← lift (required (l.hmac master_secret (codes "cipher")))
    cipher_key ← lift (required (l.hmac cipher_key_key (take 16 synthetic_iv_full)))
    ciphertext ← lift (aes256_ctr_encrypt l.encrypt_block cipher_key device_name)
    pure (
        l.encode_standard (
          l.encode_device_name (record {
            ephemeral_public = some (k.serialized_public ephemeral);
            synthetic_iv = some (take 16 synthetic_iv_full);
            ciphertext = some ciphertext;
          })))

  unfoldable pub encrypt_device_name : Bytes → IdentityKey → Exec ErrorKind Rng Bytes
  encrypt_device_name device_name aci_identity_priv = do
    priv_bytes ← lift (required (l.decode aci_identity_priv.key))
    identity_private ← lift (invalid (l.private_key priv_bytes))
    identity_public ← lift (other k (k.public_key identity_private))
    ephemeral ← drawn k
    master_secret ← lift (other k (l.agree (l.private_half ephemeral) identity_public))
    conceal device_name ephemeral master_secret
