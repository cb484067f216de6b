-- ===== src/Provision/Primary.antt =====
-- The primary device's side of the provisioning flow, which src/manager/libsignal.rs describes: how it
-- seals a provision message, and that `decrypt` opens it.
use sigchat.Base.{
  ℕ, ◌+◌, ◌≤◌, ◌≡◌, refl, ◌∙◌, ◌∷◌, ◌++◌, some, ok, length, take, drop, arith, length-append,
  length-take, ltb, true, false,
}
use sigchat.Text.{Bytes}
use sigchat.PreKeys.Generate.{KeyLibrary}
use sigchat.Provision.Types.{ProvisionEnvelope, ProvisionMessageProto, Ciphers}
use sigchat.Provision.Cipher.{
  checked_body, hkdf_info, envelope_parts, derive_keys, message_of, decrypt,
  generate_identity_key_pair,
}
use sigchat.Provision.Sealed.{open_body-parts}

-- The encryptions that undo the libraries' decryptions, and what both sides rely on.
pub record PrimaryLaws (k : KeyLibrary) (l : Ciphers k) : Type 0 where
  pub cbc_encrypt : Bytes → Bytes → Bytes → Bytes
  pub encode_envelope : ProvisionEnvelope → Bytes
  pub encode_provision_message : ProvisionMessageProto → Bytes
  pub decode_encode : (b : Bytes) → l.decode (l.encode b) ≡ some b
  pub decode_envelope_encode :
      (e : ProvisionEnvelope) → l.decode_envelope (encode_envelope e) ≡ some e
  pub decode_provision_message_encode :
      (m : ProvisionMessageProto) → l.decode_provision_message (encode_provision_message m) ≡ some m
  pub private_key_serialize : (p : k.PrivateKey) → l.private_key (l.serialize_private p) ≡ ok p
  pub public_key_serialize :
      (pair : k.KeyPair) → l.public_key (k.serialized_public pair) ≡ ok (l.public_half pair)
  pub agree_comm :
      (a b : k.KeyPair)
      → l.agree (l.private_half a) (l.public_half b) ≡ l.agree (l.private_half b) (l.public_half a)
  pub verify_hmac : (key m tag : Bytes) → l.hmac key m ≡ some tag → l.verify key m tag ≡ some true
  pub length_hmac : (key m tag : Bytes) → l.hmac key m ≡ some tag → length tag ≡ 32
  pub length_hkdf :
      (secret info derived : Bytes) (n : ℕ)
      → l.hkdf secret info n ≡ some derived
      → length derived ≡ n
  pub length_cbc_encrypt : (key iv p : Bytes) → 16 ≤ length (cbc_encrypt key iv p)
  pub decrypt_encrypt :
      (key iv p : Bytes)
      → length key ≡ 32
      → length iv ≡ 16
      → (d : l.Decryptor) × (l.decryptor key iv ≡ some d)
        × (l.decrypt_padded d (cbc_encrypt key iv p) ≡ some p)

module _ (k : KeyLibrary) (l : Ciphers k) (laws : PrimaryLaws k l) where
  open k use {Rng, KeyPair}
  open laws use {cbc_encrypt, encode_envelope, encode_provision_message}

  -- The ciphertext of a message, and the envelope with its tag.
  abbrev pub ciphertext_of : Bytes → Bytes → ProvisionMessageProto → Bytes
  ciphertext_of derived iv msg = cbc_encrypt (take 32 derived) iv (encode_provision_message msg)

  abbrev pub seal : KeyPair → Bytes → Bytes → Bytes → Bytes
  seal ephemeral iv ciphertext tag = encode_envelope (record {
    public_key = some (k.serialized_public ephemeral);
    body = some (1 ∷ (iv ++ (ciphertext ++ tag)));
  })

  envelope_parts-seal :
      (ephemeral : KeyPair) (iv ciphertext tag : Bytes)
      → 64 ≤ length iv + (length ciphertext + length tag)
      → envelope_parts k l (seal ephemeral iv ciphertext tag)
        ≡ ok (k.serialized_public ephemeral, 1 ∷ (iv ++ (ciphertext ++ tag)))
  unfolding envelope_parts checked_body
  envelope_parts-seal ephemeral iv ciphertext tag long =
      let n = length-append iv (ciphertext ++ tag) in
      let m = length-append ciphertext tag in
      let enough : ltb (length (1 ∷ (iv ++ (ciphertext ++ tag)))) 65 ≡ false =
        ground (arith, n, m, long) in
      rw (laws.decode_envelope_encode, enough) refl

  derive_keys-generate_identity_key_pair :
      (rng : Rng) (ephemeral : KeyPair) (secret derived : Bytes)
      → l.agree (l.private_half ephemeral) (l.public_half (k.generate rng).0) ≡ ok secret
      → l.hkdf secret hkdf_info 64 ≡ some derived
      → derive_keys k l (generate_identity_key_pair k l rng).0 (k.serialized_public ephemeral)
        ≡ ok (take 32 derived, drop 32 derived)
  unfolding derive_keys generate_identity_key_pair
  derive_keys-generate_identity_key_pair rng ephemeral secret derived agreed expanded =
      let shared = laws.agree_comm (k.generate rng).0 ephemeral ∙ agreed in
      rw
        (
          laws.decode_encode, laws.private_key_serialize, laws.public_key_serialize, shared,
          expanded,
        )
        refl

  -- What the primary device seals for the public half of a temporary key pair, `decrypt` opens with the
  -- pair that was generated: the secret is agreed on, the keys are derived from it, the message is
  -- encrypted under an IV of 16 bytes, and the tag covers the version, the IV and the ciphertext.
  pub decrypt-seal :
      (rng : Rng) (ephemeral : KeyPair) (secret derived iv tag : Bytes)
      (msg : ProvisionMessageProto)
      → l.agree (l.private_half ephemeral) (l.public_half (k.generate rng).0) ≡ ok secret
      → l.hkdf secret hkdf_info 64 ≡ some derived
      → length iv ≡ 16
      → l.hmac (drop 32 derived) (1 ∷ (iv ++ ciphertext_of derived iv msg)) ≡ some tag
      → decrypt k l
          (generate_identity_key_pair k l rng).0
          (seal ephemeral iv (ciphertext_of derived iv msg) tag)
        ≡ message_of k l msg
  unfolding decrypt
  decrypt-seal rng ephemeral secret derived iv tag msg agreed expanded n tagged =
      let ciphertext = ciphertext_of derived iv msg in
      let (d, made, opened) =
        laws.decrypt_encrypt (take 32 derived) iv (encode_provision_message msg)
          (length-take 32 derived (omega (arith, laws.length_hkdf _ _ _ _ expanded))) n in
      let t = laws.length_hmac _ _ _ tagged in
      let c = laws.length_cbc_encrypt (take 32 derived) iv (encode_provision_message msg) in
      rw
        (
          envelope_parts-seal ephemeral iv ciphertext tag (omega (arith, n, t, c)),
          derive_keys-generate_identity_key_pair rng ephemeral secret derived agreed expanded,
          open_body-parts k l (take 32 derived) (drop 32 derived) iv ciphertext tag n t,
          laws.verify_hmac _ _ _ tagged,
          made,
          opened,
          laws.decode_provision_message_encode msg,
        )
        refl
