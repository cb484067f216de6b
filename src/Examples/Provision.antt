-- ===== src/Examples/Provision.antt =====
-- The theorems on provisioning at concrete inputs.
use sigchat.Base.{
  ◌≤◌, ◌≡◌, refl, true, [], ◌∷◌, ◌++◌, none, some, ok, err, length, if◌then◌else◌, ◌==◌,
}
use sigchat.Text.{Bytes, codes}
use sigchat.Io.{ErrorKind}
use sigchat.Provision.Types.{ProvisionMessageProto, ProvisionMessage}
use sigchat.Provision.Ctr.{aes256_ctr_encrypt, masked, keystream}
use sigchat.Provision.Ctr.Stream.{aes256_ctr_encrypt-masked}
use sigchat.Provision.Cipher.{derive_keys, message_of, decrypt, generate_identity_key_pair}
use sigchat.Provision.Sealed.{decrypt_sound}
use sigchat.Provision.Primary.{seal, ciphertext_of, decrypt-seal}
use sigchat.Provision.DeviceNameUtil.{conceal, encrypt_device_name}
use sigchat.Provision.Name.{decrypt_device_name, decrypt_device_name-encrypt_device_name}
use sigchat.Examples.PreKeys.{counting}
use sigchat.Examples.Wire.{zeros, plain, plain_laws, plain_names}

abbrev pub name_text : Bytes
name_text = 2 ∷ 3 ∷ 17 ∷ (zeros 16 ++ 5 ∷ codes "desk")

abbrev same : Bytes → Bytes → Bytes
same key b = b

-- Byte 31 of the output is the last byte of the block of the counter 1; byte 32 is of the block of 2.
ctr_second_block : aes256_ctr_encrypt same (zeros 32) (zeros 33) ≡ ok (zeros 31 ++ 1 ∷ 0 ∷ [])
unfolding aes256_ctr_encrypt
ctr_second_block = refl

aes256_ctr_encrypt-masked_example :
    aes256_ctr_encrypt same (zeros 32) (codes "0123456789abcdefgh") ≡ (
      if length (zeros 32) == 32
      then ok (masked (keystream (same (zeros 32))) 0 (codes "0123456789abcdefgh"))
      else err ErrorKind.invalid_data)
aes256_ctr_encrypt-masked_example =
    aes256_ctr_encrypt-masked same (λ key b h. h) (zeros 32) (codes "0123456789abcdefgh")

abbrev msg : ProvisionMessageProto
msg = record {
  aci_identity_key_public = some (codes "A");
  aci_identity_key_private = some (codes "a");
  number = some (codes "+1");
  provisioning_code = some (codes "c");
  profile_key = some (zeros 32);
  read_receipts = some true;
  aci = some (codes "aci");
  pni = none;
  pni_identity_key_public = none;
  pni_identity_key_private = some (codes "p");
  account_entropy_pool = none;
}

abbrev pub message : ProvisionMessage
message = record {
  number = codes "+1";
  aci = record {
    service_id = codes "aci";
    djb_identity_key = record { key = codes "A" };
    djb_private_key = record { key = codes "a" };
  };
  pni = record {
    service_id = [];
    djb_identity_key = record { key = [] };
    djb_private_key = record { key = codes "p" };
  };
  master_key = [];
  profile_key = some (zeros 32);
  provisioning_code = some (codes "c");
  account_entropy_pool = none;
}

abbrev envelope : Bytes
envelope =
    seal counting plain plain_laws 5 (zeros 16)
      (ciphertext_of counting plain plain_laws (zeros 64) (zeros 16) msg) (zeros 32)

decrypt-seal_example :
    decrypt counting plain (generate_identity_key_pair counting plain 3).0 envelope
    ≡ message_of counting plain msg
unfolding plain
decrypt-seal_example =
    decrypt-seal counting plain plain_laws 3 5 (codes "secret") (zeros 64) (zeros 16) (zeros 32) msg
      refl refl refl refl

opened :
    decrypt counting plain (generate_identity_key_pair counting plain 3).0 envelope ≡ ok message
unfolding message_of plain
opened =
    decrypt-seal counting plain plain_laws 3 5 (codes "secret") (zeros 64) (zeros 16) (zeros 32) msg
      refl refl refl refl

decrypt_sound_example :
    (ephemeral aes_key mac_key iv ciphertext tag plaintext : Bytes) × (msg' : ProvisionMessageProto)
    × (plain.decode_envelope envelope
        ≡ some
            (record { public_key = some ephemeral; body = some (1 ∷ (iv ++ (ciphertext ++ tag))) }))
    × (length iv ≡ 16)
    × (16 ≤ length ciphertext)
    × (length tag ≡ 32)
    × (derive_keys counting plain (generate_identity_key_pair counting plain 3).0 ephemeral
        ≡ ok (aes_key, mac_key))
    × (plain.verify mac_key (1 ∷ (iv ++ ciphertext)) tag ≡ some true)
    × (decryptor : plain.Decryptor) × (plain.decryptor aes_key iv ≡ some decryptor)
    × (plain.decrypt_padded decryptor ciphertext ≡ some plaintext)
    × (plain.decode_provision_message plaintext ≡ some msg')
    × (message_of counting plain msg' ≡ ok message)
decrypt_sound_example =
    decrypt_sound counting plain (generate_identity_key_pair counting plain 3).0 envelope message
      opened

encrypted :
    (encrypt_device_name counting plain (codes "desk") (record { key = codes "k" }) 3).0
    ≡ ok name_text
unfolding encrypt_device_name conceal plain aes256_ctr_encrypt
encrypted = refl

decrypt_device_name-encrypt_device_name_example :
    decrypt_device_name counting plain plain_names (codes "k") name_text ≡ some (codes "desk")
unfolding plain
decrypt_device_name-encrypt_device_name_example =
    decrypt_device_name-encrypt_device_name counting plain plain_names (codes "desk")
      (record { key = codes "k" }) (codes "k") (codes "k") 3 name_text refl refl encrypted
