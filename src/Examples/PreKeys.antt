-- ===== src/Examples/PreKeys.antt =====
-- The theorems on pre-keys at concrete inputs.
use sigchat.Base.{ℕ, suc, ◌≡◌, ◌≤◌, ◌<◌, ◌^◌, refl, true, [], ◌∷◌, Result, ok, arith}
use sigchat.Text.{Bytes, codes}
use sigchat.Signal.{SignalProtocolError}
use sigchat.Stores.PreKey.{get_signed_pre_key}
use sigchat.Stores.Kyber.{get_kyber_pre_key}
use sigchat.PreKeys.Generate.{
  KeyLibrary, PreKeyJson, random_prekey_id, generate_signed_prekey, generate_signed_prekey_sound,
}
use sigchat.PreKeys.Save.{signed_prekey_dict, kyber_prekey_dict, save_to_pddb, save_to_pddb-get}
use sigchat.Examples.Database.{database, database_laws, empty}
use sigchat.Examples.Library.{bytes_codec, bytes_codec_laws}

-- A generator that counts, and signatures that are the signed text.
abbrev pub counting : KeyLibrary
counting = record {
  Rng = ℕ;
  PrivateKey = Bytes;
  PublicKey = Bytes;
  KeyPair = ℕ;
  SignedPreKeyRecord = ℕ;
  KyberPreKeyRecord = ℕ;
  next_u32 = λ n. (n, suc n);
  generate = λ n. (n, suc n);
  serialized_public = λ n. n ∷ [];
  calculate_signature = λ i b n. (ok b, n);
  public_key = λ i. ok i;
  verify_signature = λ i b s. true;
  signed_record = λ id pair s. id;
  kyber_generate = λ id i n. (ok id, n);
  kyber_public = λ r. ok (r ∷ []);
  kyber_signature = λ r. ok (r ∷ []);
  encode = λ b. b;
}

abbrev json : PreKeyJson
json = record { key_id = 8; public_key_b64url = 8 ∷ []; signature_b64url = 8 ∷ [] }

made : (generate_signed_prekey counting (codes "k") 7).0 ≡ ok (json, 8)
unfolding generate_signed_prekey random_prekey_id
made = refl

generate_signed_prekey_sound_example :
    (keypair : ℕ) × (signature : Bytes) × (identity_public : Bytes) × (counting.public_key
        (codes "k")
      ≡ ok identity_public)
    × (counting.verify_signature identity_public (counting.serialized_public keypair) signature
        ≡ true)
    × (json ≡ record { key_id = 8; public_key_b64url = keypair ∷ []; signature_b64url = signature })
    × (8 ≡ counting.signed_record 8 keypair signature)
    × (1 ≤ 8)
    × (8 < 2 ^ 24)
generate_signed_prekey_sound_example =
    generate_signed_prekey_sound counting (codes "k") 7 json 8 made

abbrev named : ℕ → Bytes
named n = n ∷ []

-- A record's id is its first byte.
abbrev id_of : Bytes → Result SignalProtocolError ℕ
id_of [] = ok 0
id_of (c ∷ s) = ok c

save_to_pddb-get_example :
    ((save_to_pddb database bytes_codec bytes_codec id_of id_of
        (named 1)
        (named 2)
        (named 3)
        (named 4)
        empty).0
      ≡ ok tt)
    × ((get_signed_pre_key database signed_prekey_dict bytes_codec 1
          (save_to_pddb database bytes_codec bytes_codec id_of id_of
            (named 1)
            (named 2)
            (named 3)
            (named 4)
            empty).1).0
        ≡ ok (named 1))
    × ((get_signed_pre_key database signed_prekey_dict bytes_codec 2
          (save_to_pddb database bytes_codec bytes_codec id_of id_of
            (named 1)
            (named 2)
            (named 3)
            (named 4)
            empty).1).0
        ≡ ok (named 2))
    × ((get_kyber_pre_key database kyber_prekey_dict bytes_codec 3
          (save_to_pddb database bytes_codec bytes_codec id_of id_of
            (named 1)
            (named 2)
            (named 3)
            (named 4)
            empty).1).0
        ≡ ok (named 3))
    × ((get_kyber_pre_key database kyber_prekey_dict bytes_codec 4
          (save_to_pddb database bytes_codec bytes_codec id_of id_of
            (named 1)
            (named 2)
            (named 3)
            (named 4)
            empty).1).0
        ≡ ok (named 4))
save_to_pddb-get_example =
    save_to_pddb-get database bytes_codec bytes_codec id_of id_of database_laws bytes_codec_laws
      bytes_codec_laws empty (named 1) (named 2) (named 3) (named 4) 1 2 3 4 (named 1) (named 2)
      (named 3) (named 4) (refl, refl, refl, refl)
      (omega arith, omega arith, omega arith, omega arith) (refl, refl, refl, refl) (omega arith)
      (omega arith)
