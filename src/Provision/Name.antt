-- ===== src/Provision/Name.antt =====
-- The primary device reads the name that `encrypt_device_name` encrypts.
use sigchat.Base.{
  ◌≡◌, refl, ap, ◌∙◌, sym, Option, none, some, Result, ok, take, length, to_option, if◌then◌else◌,
  continue_ok, with_ok, map_err_ok,
}
use sigchat.Base.Try.{ok_or_ok}
use sigchat.Text.{Bytes, codes, bytes_eq, bytes_eq_refl}
use sigchat.Io.{ErrorKind}
use sigchat.PreKeys.Generate.{KeyLibrary, other}
use sigchat.Provision.Types.{IdentityKey, DeviceName, Ciphers}
use sigchat.Provision.Ctr.{aes256_ctr_encrypt}
use sigchat.Provision.Ctr.Stream.{aes256_ctr_encrypt_twice}
use sigchat.Provision.Cipher.{required, invalid}
use sigchat.Provision.DeviceNameUtil.{conceal, encrypt_device_name}

-- `o.and_then(f)`
abbrev pub and_then : {A B : Type 0} → Option A → (A → Option B) → Option B
and_then none f = none
and_then (some a) f = f a

-- What the primary device relies on.
pub record NameLaws (k : KeyLibrary) (l : Ciphers k) : Type 0 where
  pub decode_standard : Bytes → Option Bytes
  pub decode_device_name : Bytes → Option DeviceName
  pub decode_standard_encode : (b : Bytes) → decode_standard (l.encode_standard b) ≡ some b
  pub decode_device_name_encode :
      (n : DeviceName) → decode_device_name (l.encode_device_name n) ≡ some n
  pub public_key_serialize :
      (pair : k.KeyPair) → l.public_key (k.serialized_public pair) ≡ ok (l.public_half pair)
  pub agree_public :
      (a : k.KeyPair) (b : k.PrivateKey) (p : k.PublicKey)
      → k.public_key b ≡ ok p
      → l.agree (l.private_half a) p ≡ l.agree b (l.public_half a)
  pub length_block : (key b : Bytes) → length b ≡ 16 → length (l.encrypt_block key b) ≡ 16

module _ (k : KeyLibrary) (l : Ciphers k) (laws : NameLaws k l) where
  open k use {Rng}

  -- The primary device's steps from the secret on: the key of the cipher from the synthetic IV, the name,
  -- and the comparison of the synthetic IV with that of the name.
  unfoldable pub reveal : Bytes → Bytes → Bytes → Option Bytes
  reveal secret synthetic_iv ciphertext =
      and_then (l.hmac secret (codes "cipher")) λ cipher_key_key.
        and_then (l.hmac cipher_key_key synthetic_iv) λ cipher_key.
          and_then (to_option (aes256_ctr_encrypt l.encrypt_block cipher_key ciphertext)) λ name.
            and_then (l.hmac secret (codes "auth")) λ synthetic_iv_key.
              and_then (l.hmac synthetic_iv_key name)
                λ full. if bytes_eq (take 16 full) synthetic_iv then some name else none

  unfoldable pub decrypt_device_name : k.PrivateKey → Bytes → Option Bytes
  unfolding reveal
  decrypt_device_name identity_private text = and_then (laws.decode_standard text) λ bytes.
      and_then (laws.decode_device_name bytes) λ proto. and_then proto.ephemeral_public λ ephemeral.
        and_then proto.synthetic_iv λ synthetic_iv. and_then proto.ciphertext λ ciphertext.
          and_then (to_option (l.public_key ephemeral)) λ public.
            and_then (to_option (l.agree identity_private public))
              λ secret. reveal secret synthetic_iv ciphertext

  abbrev pub packed : k.KeyPair → Bytes → Bytes → Bytes
  packed ephemeral synthetic_iv ciphertext = l.encode_standard (
      l.encode_device_name (record {
        ephemeral_public = some (k.serialized_public ephemeral);
        synthetic_iv = some synthetic_iv;
        ciphertext = some ciphertext;
      }))

  reveal_encrypted :
      (secret device_name iv_key full key_key key ciphertext : Bytes)
      → l.hmac secret (codes "auth") ≡ some iv_key
      → l.hmac iv_key device_name ≡ some full
      → l.hmac secret (codes "cipher") ≡ some key_key
      → l.hmac key_key (take 16 full) ≡ some key
      → aes256_ctr_encrypt l.encrypt_block key device_name ≡ ok ciphertext
      → reveal secret (take 16 full) ciphertext ≡ some device_name
  unfolding reveal
  reveal_encrypted secret device_name iv_key full key_key key ciphertext h1 h2 h3 h4 h5 =
      let back =
        aes256_ctr_encrypt_twice l.encrypt_block laws.length_block key device_name ciphertext h5 in
      rw (h3, h4, back, h1, h2, bytes_eq_refl (take 16 full)) refl

  decrypt_device_name-packed :
      (ephemeral : k.KeyPair) (identity_private : k.PrivateKey) (public : k.PublicKey)
      (secret synthetic_iv ciphertext : Bytes)
      → k.public_key identity_private ≡ ok public
      → l.agree (l.private_half ephemeral) public ≡ ok secret
      → decrypt_device_name identity_private (packed ephemeral synthetic_iv ciphertext)
        ≡ reveal secret synthetic_iv ciphertext
  unfolding decrypt_device_name
  decrypt_device_name-packed ephemeral identity_private public secret synthetic_iv ciphertext hp
        ha =
      let shared = sym (laws.agree_public ephemeral identity_private public hp) ∙ ha in
      rw
        (
          laws.decode_standard_encode, laws.decode_device_name_encode, laws.public_key_serialize,
          shared,
        )
        refl

  some_same : {A : Type 0} (o : Option A) (a b : A) → o ≡ some a → o ≡ some b → b ≡ a
  some_same o a b h g = cc

  ok_same : {E A : Type 0} (r : Result E A) (a b : A) → r ≡ ok a → r ≡ ok b → b ≡ a
  ok_same r a b h g = cc

  ok_text : (a b : Bytes) → Path (Result ErrorKind Bytes) (ok a) (ok b) → a ≡ b
  ok_text a b h = cc

  decrypt_concealed :
      (device_name : Bytes) (ephemeral : k.KeyPair) (identity_private : k.PrivateKey)
      (public : k.PublicKey) (secret : Bytes) (rng : Rng) (text : Bytes)
      → k.public_key identity_private ≡ ok public
      → l.agree (l.private_half ephemeral) public ≡ ok secret
      → (conceal k l device_name ephemeral secret rng).0 ≡ ok text
      → decrypt_device_name identity_private text ≡ some device_name
  unfolding conceal
  decrypt_concealed device_name ephemeral identity_private public secret rng text hp ha h =
      with_ok (continue_ok {S = Rng} (required (l.hmac secret (codes "auth"))) _ _ _ h)
        λ iv_key e1 h1.
          with_ok (continue_ok {S = Rng} (required (l.hmac iv_key device_name)) _ _ _ h1)
            λ full e2 h2.
              with_ok (continue_ok {S = Rng} (required (l.hmac secret (codes "cipher"))) _ _ _ h2)
                λ key_key e3 h3.
                  with_ok
                    (continue_ok {S = Rng} (required (l.hmac key_key (take 16 full))) _ _ _ h3)
                    λ key e4 h4.
                      with_ok
                        (continue_ok {S = Rng} (aes256_ctr_encrypt l.encrypt_block key device_name)
                          _ _ _ h4)
                        λ ciphertext e5 h5.
                          ap (decrypt_device_name identity_private) (sym (ok_text _ _ h5))
                          ∙ decrypt_device_name-packed ephemeral identity_private public secret
                              (take 16 full) ciphertext hp ha
                          ∙ reveal_encrypted secret device_name iv_key full key_key key ciphertext
                              (ok_or_ok _ _ _ e1) (ok_or_ok _ _ _ e2) (ok_or_ok _ _ _ e3)
                              (ok_or_ok _ _ _ e4) e5

  -- The name that was encrypted for an identity key comes back to its holder.
  pub decrypt_device_name-encrypt_device_name :
      (device_name : Bytes) (key : IdentityKey) (raw : Bytes) (identity_private : k.PrivateKey)
      (rng : Rng) (text : Bytes)
      → l.decode key.key ≡ some raw
      → l.private_key raw ≡ ok identity_private
      → (encrypt_device_name k l device_name key rng).0 ≡ ok text
      → decrypt_device_name identity_private text ≡ some device_name
  unfolding encrypt_device_name decrypt_device_name
  decrypt_device_name-encrypt_device_name device_name key raw identity_private rng text hd hp h =
      let ephemeral = (k.generate rng).0 in
      with_ok (continue_ok {S = Rng} (required (l.decode key.key)) _ _ _ h) λ raw' e1 h1.
        with_ok (continue_ok {S = Rng} (invalid (l.private_key raw')) _ _ _ h1) λ private e2 h2.
          with_ok (continue_ok {S = Rng} (other k (k.public_key private)) _ _ _ h2) λ public e3 h3.
            with_ok
              (continue_ok {S = Rng} (other k (l.agree (l.private_half ephemeral) public)) _ _ _ h3)
              λ secret e4 h4.
                let same_raw = some_same _ raw raw' hd (ok_or_ok _ _ _ e1) in
                let same_key =
                  ok_same _ identity_private private hp
                    (ap l.private_key (sym same_raw) ∙ map_err_ok _ _ _ e2) in
                decrypt_concealed device_name ephemeral identity_private public secret _ text
                  (ap k.public_key (sym same_key) ∙ map_err_ok _ _ _ e3) (map_err_ok _ _ _ e4) h4
