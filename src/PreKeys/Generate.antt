-- ===== src/PreKeys/Generate.antt =====
-- `random_prekey_id`, `generate_signed_prekey`, `generate_kyber_last_resort` and `generate_prekeys` of
-- src/manager/prekeys.rs, and `generate_registration_id` of src/manager/account_attrs.rs. The keys and
-- the random numbers are libraries'.
use sigchat.Base.{
  ℕ, ◌+◌, ◌%◌, ◌^◌, ◌≤◌, ◌<◌, ◌≡◌, refl, sym, ap, ◌∙◌, Bool, true, false, Result, ok, err, arith,
  Exec, pure, lift, map_err, map_error, continue_ok, with_ok, map_err_ok, ◌>>=◌, ◌>>◌,
}
use sigchat.Text.{Bytes}
use sigchat.Io.{ErrorKind}
use sigchat.Signal.{SignalProtocolError}

abbrev pub medium_max : ℕ
medium_max = 0x00ffffff

-- What is used of libsignal and of the generator, whose state is `Rng`.
pub record KeyLibrary : Type 1 where
  pub Rng : Type 0
  pub PrivateKey : Type 0
  pub PublicKey : Type 0
  pub KeyPair : Type 0
  pub SignedPreKeyRecord : Type 0
  pub KyberPreKeyRecord : Type 0
  pub next_u32 : Rng → ℕ × Rng
  pub generate : Rng → KeyPair × Rng
  pub serialized_public : KeyPair → Bytes
  pub calculate_signature : PrivateKey → Bytes → Exec SignalProtocolError Rng Bytes
  pub public_key : PrivateKey → Result SignalProtocolError PublicKey
  pub verify_signature : PublicKey → Bytes → Bytes → Bool
  pub signed_record : ℕ → KeyPair → Bytes → SignedPreKeyRecord
  pub kyber_generate : ℕ → PrivateKey → Exec SignalProtocolError Rng KyberPreKeyRecord
  pub kyber_public : KyberPreKeyRecord → Result SignalProtocolError Bytes
  pub kyber_signature : KyberPreKeyRecord → Result SignalProtocolError Bytes
  -- `STANDARD_NO_PAD.encode`
  pub encode : Bytes → Bytes

-- `SignedPreKeyJson` and `KyberPreKeyJson`, which have the same fields.
pub record PreKeyJson : Type 0 where
  pub key_id : ℕ
  pub public_key_b64url : Bytes
  pub signature_b64url : Bytes

ok_pair :
    {A B : Type 0} (a a' : A) (b b' : B)
    → Path (Result ErrorKind (A × B)) (ok (a, b)) (ok (a', b'))
    → (a' ≡ a) × (b' ≡ b)
ok_pair a a' b b' h = (cc, cc)

abbrev pub verified : Bool → Result ErrorKind (Unit {0})
verified true = ok tt
verified false = err ErrorKind.invalid_data

module _ (k : KeyLibrary) where
  open k use {Rng, PrivateKey, KeyPair, SignedPreKeyRecord, KyberPreKeyRecord}

  pub record Prekeys : Type 0 where
    pub aci_signed : PreKeyJson
    pub pni_signed : PreKeyJson
    pub aci_kyber_last_resort : PreKeyJson
    pub pni_kyber_last_resort : PreKeyJson
    pub aci_signed_record : SignedPreKeyRecord
    pub pni_signed_record : SignedPreKeyRecord
    pub aci_kyber_record : KyberPreKeyRecord
    pub pni_kyber_record : KyberPreKeyRecord

  abbrev pub other : {A : Type 0} → Result SignalProtocolError A → Result ErrorKind A
  other r = map_err (λ _. ErrorKind.other) r

  unfoldable pub random_prekey_id : Exec ErrorKind Rng ℕ
  random_prekey_id rng = let (x, rng') = k.next_u32 rng in (ok (x % medium_max + 1), rng')

  -- The sum as u16.
  unfoldable pub generate_registration_id : Exec ErrorKind Rng ℕ
  generate_registration_id rng =
      let (x, rng') = k.next_u32 rng in (ok ((x % 16380 + 1) % 2 ^ 16), rng')

  abbrev pub drawn : Exec ErrorKind Rng KeyPair
  drawn rng = let (keypair, rng') = k.generate rng in (ok keypair, rng')

  abbrev json_of : ℕ → Bytes → Bytes → PreKeyJson
  json_of key_id public_serialized signature = record {
    key_id = key_id;
    public_key_b64url = k.encode public_serialized;
    signature_b64url = k.encode signature;
  }

  unfoldable pub generate_signed_prekey :
      PrivateKey → Exec ErrorKind Rng (PreKeyJson × SignedPreKeyRecord)
  generate_signed_prekey identity_private = do
    key_id ← random_prekey_id
    keypair ← drawn
    signature ←
        map_error (λ _. ErrorKind.other)
          (k.calculate_signature identity_private (k.serialized_public keypair))
    identity_public ← lift (other (k.public_key identity_private))
    lift (verified (k.verify_signature identity_public (k.serialized_public keypair) signature))
    pure (
      json_of key_id (k.serialized_public keypair) signature,
      k.signed_record key_id keypair signature,
    )

  unfoldable pub generate_kyber_last_resort :
      PrivateKey → Exec ErrorKind Rng (PreKeyJson × KyberPreKeyRecord)
  generate_kyber_last_resort identity_private = do
    key_id ← random_prekey_id
    kyber ← map_error (λ _. ErrorKind.other) (k.kyber_generate key_id identity_private)
    public_serialized ← lift (other (k.kyber_public kyber))
    signature ← lift (other (k.kyber_signature kyber))
    identity_public ← lift (other (k.public_key identity_private))
    lift (verified (k.verify_signature identity_public public_serialized signature))
    pure (json_of key_id public_serialized signature, kyber)

  unfoldable pub generate_prekeys : PrivateKey → PrivateKey → Exec ErrorKind Rng Prekeys
  generate_prekeys aci_identity_private pni_identity_private = do
    aci_signed ← generate_signed_prekey aci_identity_private
    pni_signed ← generate_signed_prekey pni_identity_private
    aci_kyber ← generate_kyber_last_resort aci_identity_private
    pni_kyber ← generate_kyber_last_resort pni_identity_private
    pure (record {
      aci_signed = aci_signed.0;
      pni_signed = pni_signed.0;
      aci_kyber_last_resort = aci_kyber.0;
      pni_kyber_last_resort = pni_kyber.0;
      aci_signed_record = aci_signed.1;
      pni_signed_record = pni_signed.1;
      aci_kyber_record = aci_kyber.1;
      pni_kyber_record = pni_kyber.1;
    })

  -- Whatever the generator draws, a pre-key id is from 1 to 2^24 - 1, and a registration id from 1 to
  -- 16380: the conversion to u16 cuts nothing off.
  pub random_prekey_id-generate_registration_id :
      (rng : Rng)
      → ((id : ℕ) × ((random_prekey_id rng).0 ≡ ok id) × (1 ≤ id) × (id < 2 ^ 24))
        × ((id : ℕ) × ((generate_registration_id rng).0 ≡ ok id) × (1 ≤ id) × (id ≤ 16380))
  unfolding random_prekey_id generate_registration_id
  random_prekey_id-generate_registration_id rng =
      ((_, refl, omega arith, omega arith), (_, refl, omega arith, omega arith))

  verified_ok : (b : Bool) → verified b ≡ ok tt → b ≡ true
  verified_ok true h = refl
  verified_ok false h = cc

  -- A signed pre-key that is handed out carries a signature that the identity's own public key verifies
  -- over its public key, under an id from 1 to 2^24 - 1; the record holds the same id, key pair and
  -- signature as the JSON.
  pub generate_signed_prekey_sound :
      (identity_private : PrivateKey) (rng : Rng) (json : PreKeyJson) (r : SignedPreKeyRecord)
      → (generate_signed_prekey identity_private rng).0 ≡ ok (json, r)
      → (keypair : KeyPair) × (signature : Bytes) × (identity_public : k.PublicKey) × (k.public_key
            identity_private
          ≡ ok identity_public)
        × (k.verify_signature identity_public (k.serialized_public keypair) signature ≡ true)
        × (json ≡ json_of json.key_id (k.serialized_public keypair) signature)
        × (r ≡ k.signed_record json.key_id keypair signature)
        × (1 ≤ json.key_id)
        × (json.key_id < 2 ^ 24)
  unfolding generate_signed_prekey random_prekey_id
  generate_signed_prekey_sound identity_private rng json r h =
      let id = (k.next_u32 rng).0 % medium_max + 1 in
      let rng1 = (k.next_u32 rng).1 in
      let kp = (k.generate rng1).0 in
      with_ok
        (continue_ok {S = Rng}
          (map_err (λ _. ErrorKind.other)
            (k.calculate_signature identity_private (k.serialized_public kp) (k.generate rng1).1).0)
          _ _ _ h)
        λ signature e1 h1.
          with_ok (continue_ok {S = Rng} (other (k.public_key identity_private)) _ _ _ h1)
            λ public e2 h2.
              with_ok
                (continue_ok {S = Rng}
                  (verified (k.verify_signature public (k.serialized_public kp) signature)) _ _ _
                  h2)
                λ u e3 h3.
                  let (ej, er) = ok_pair _ _ _ _ h3 in
                  let same_id : json.key_id ≡ id = ap (λ (j : PreKeyJson). j.key_id) ej in
                  (
                    kp,
                    signature,
                    public,
                    map_err_ok _ _ _ e2,
                    verified_ok _ e3,
                    ej ∙ ap (λ i. json_of i (k.serialized_public kp) signature) (sym same_id),
                    er ∙ ap (λ i. k.signed_record i kp signature) (sym same_id),
                    omega (arith, same_id),
                    omega (arith, same_id),
                  )
