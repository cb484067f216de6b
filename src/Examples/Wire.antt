-- ===== src/Examples/Wire.antt =====
-- Concrete ciphers and a concrete wire format for the theorems on provisioning.
use sigchat.Base.{
  ℕ, zero, suc, ◌≡◌, refl, ap, ◌∙◌, Bool, true, false, [], ◌∷◌, ◌++◌, Option, none, some, ok,
  length, take, drop, replicate, take-append_length, drop-append_length, length-append, arith,
}
use sigchat.Text.{Bytes, codes, bytes_eq, bytes_eq_refl}
use sigchat.Provision.Types.{DeviceName, ProvisionEnvelope, ProvisionMessageProto, Ciphers}
use sigchat.Provision.Primary.{PrimaryLaws}
use sigchat.Provision.Name.{NameLaws}
use sigchat.Examples.PreKeys.{counting}

abbrev put : Option Bytes → Bytes → Bytes
put none rest = 0 ∷ rest
put (some b) rest = suc (length b) ∷ (b ++ rest)

abbrev got : Bytes → Option Bytes
got [] = none
got (zero ∷ rest) = none
got (suc n ∷ rest) = some (take n rest)

abbrev left : Bytes → Bytes
left [] = []
left (zero ∷ rest) = rest
left (suc n ∷ rest) = drop n rest

got-put : (o : Option Bytes) (rest : Bytes) → got (put o rest) ≡ o
got-put none rest = refl
got-put (some b) rest = ap some (take-append_length b rest)

left-put : (o : Option Bytes) (rest : Bytes) → left (put o rest) ≡ rest
left-put none rest = refl
left-put (some b) rest = drop-append_length b rest

abbrev bool_bytes : Option Bool → Option Bytes
bool_bytes none = none
bool_bytes (some true) = some (1 ∷ [])
bool_bytes (some false) = some []

abbrev bytes_bool : Option Bytes → Option Bool
bytes_bool none = none
bytes_bool (some []) = some false
bytes_bool (some (b ∷ rest)) = some true

bytes_bool-bool_bytes : (o : Option Bool) → bytes_bool (bool_bytes o) ≡ o
bytes_bool-bool_bytes none = refl
bytes_bool-bool_bytes (some true) = refl
bytes_bool-bool_bytes (some false) = refl

unfoldable pub encode_envelope : ProvisionEnvelope → Bytes
encode_envelope e = put e.public_key (put e.body [])

unfoldable pub decode_envelope : Bytes → Option ProvisionEnvelope
decode_envelope s = some (record { public_key = got s; body = got (left s) })

unfoldable pub encode_device_name : DeviceName → Bytes
encode_device_name n = put n.ephemeral_public (put n.synthetic_iv (put n.ciphertext []))

unfoldable pub decode_device_name : Bytes → Option DeviceName
decode_device_name s = some (record {
  ephemeral_public = got s;
  synthetic_iv = got (left s);
  ciphertext = got (left (left s));
})

unfoldable pub encode_message : ProvisionMessageProto → Bytes
encode_message m = put m.aci_identity_key_public (
    put m.aci_identity_key_private (
      put m.number (
        put m.provisioning_code (
          put m.profile_key (
            put (bool_bytes m.read_receipts) (
              put m.aci (
                put m.pni (
                  put m.pni_identity_key_public
                    (put m.pni_identity_key_private (put m.account_entropy_pool []))))))))))

unfoldable pub decode_message : Bytes → Option ProvisionMessageProto
decode_message s =
    let s1 = left s in
    let s2 = left s1 in
    let s3 = left s2 in
    let s4 = left s3 in
    let s5 = left s4 in
    let s6 = left s5 in
    let s7 = left s6 in
    let s8 = left s7 in
    let s9 = left s8 in
    let s10 = left s9 in
    some (record {
      aci_identity_key_public = got s;
      aci_identity_key_private = got s1;
      number = got s2;
      provisioning_code = got s3;
      profile_key = got s4;
      read_receipts = bytes_bool (got s5);
      aci = got s6;
      pni = got s7;
      pni_identity_key_public = got s8;
      pni_identity_key_private = got s9;
      account_entropy_pool = got s10;
    })

abbrev pub zeros : ℕ → Bytes
zeros n = replicate n 0

-- Agreed secrets, derived keys and tags are constants, the blocks of the cipher are their own images,
-- and a ciphertext is the plaintext behind one block.
unfoldable pub plain : Ciphers counting
unfolding decode_envelope decode_message encode_device_name
plain = record {
  decode = some;
  encode = λ b. b;
  encode_standard = λ b. b;
  private_key = ok;
  public_key = ok;
  serialize_public = λ b. b;
  serialize_private = λ b. b;
  private_half = λ n. n ∷ [];
  public_half = λ n. n ∷ [];
  agree = λ a b. ok (codes "secret");
  hmac = λ key m. some (zeros 32);
  verify = λ key m tag. some (bytes_eq tag (zeros 32));
  hkdf = λ secret info n. some (zeros n);
  Decryptor = Unit;
  decryptor = λ key iv. some tt;
  decrypt_padded = λ d c. some (drop 16 c);
  encrypt_block = λ key b. b;
  decode_web_socket_message = λ b. none;
  decode_address = λ b. none;
  decode_envelope = decode_envelope;
  decode_provision_message = decode_message;
  encode_device_name = encode_device_name;
}

pub length-zeros : (n : ℕ) → length (zeros n) ≡ n
length-zeros zero = refl
length-zeros (suc n) = omega (arith, length-zeros n)

pub some_eq : (a b : Bytes) → some a ≡ some b → b ≡ a
some_eq a b h = cc

pub decode_envelope-encode_envelope :
    (e : ProvisionEnvelope) → decode_envelope (encode_envelope e) ≡ some e
unfolding decode_envelope encode_envelope
decode_envelope-encode_envelope e =
    rw
      (
        got-put e.public_key (put e.body []),
        left-put e.public_key (put e.body []),
        got-put e.body [],
      )
      refl

pub decode_device_name-encode_device_name :
    (n : DeviceName) → decode_device_name (encode_device_name n) ≡ some n
unfolding decode_device_name encode_device_name
decode_device_name-encode_device_name n = simp (got-put, left-put) refl

pub decode_message-encode_message :
    (m : ProvisionMessageProto) → decode_message (encode_message m) ≡ some m
unfolding decode_message encode_message
decode_message-encode_message m = simp (got-put, left-put, bytes_bool-bool_bytes) refl

unfoldable pub plain_laws : PrimaryLaws counting plain
unfolding plain
plain_laws = record {
  cbc_encrypt = λ key iv p. zeros 16 ++ p;
  encode_envelope = encode_envelope;
  encode_provision_message = encode_message;
  decode_encode = λ b. refl;
  decode_envelope_encode = decode_envelope-encode_envelope;
  decode_provision_message_encode = decode_message-encode_message;
  private_key_serialize = λ p. refl;
  public_key_serialize = λ pair. refl;
  agree_comm = λ a b. refl;
  verify_hmac = λ key m tag h.
      ap some (ap (λ t. bytes_eq t (zeros 32)) (some_eq _ _ h) ∙ bytes_eq_refl (zeros 32));
  length_hmac = λ key m tag h. ap (λ t. length t) (some_eq _ _ h) ∙ length-zeros 32;
  length_hkdf = λ secret info derived n h. ap (λ t. length t) (some_eq _ _ h) ∙ length-zeros n;
  length_cbc_encrypt = λ key iv p. omega (arith, length-append (zeros 16) p, length-zeros 16);
  decrypt_encrypt = λ key iv p h g. (tt, refl, refl);
}

unfoldable pub plain_names : NameLaws counting plain
unfolding plain
plain_names = record {
  decode_standard = some;
  decode_device_name = decode_device_name;
  decode_standard_encode = λ b. refl;
  decode_device_name_encode = decode_device_name-encode_device_name;
  public_key_serialize = λ pair. refl;
  agree_public = λ a b p h. refl;
  length_block = λ key b h. h;
}
