-- ===== src/PreKeys/Save.antt =====
-- `save_to_pddb` of src/manager/prekeys.rs: the private halves go into the stores of the receive
-- worker.
use sigchat.Base.{
  ℕ, ◌<◌, ◌^◌, ◌≡◌, ◌≢◌, refl, ap, ◌∙◌, false, some, if◌then◌else◌, ok, err, Result, arith, Exec,
  lift, map_err, map_error, ◌>>=◌, ◌>>◌,
}
use sigchat.Text.{Bytes, codes, bytes_eq, bytes_eq_refl}
use sigchat.Text.Decimal.{show}
use sigchat.Io.{ErrorKind}
use sigchat.Pddb.{Pddb, PddbLaws, same_key}
use sigchat.Signal.{
  Codec, CodecLaws, SignalProtocolError, invalid_signed_pre_key_id, invalid_kyber_pre_key_id,
}
use sigchat.Stores.Keys.{show_eq}
use sigchat.Stores.Entry.{persist, load-seen, contents-persist, persist-ok}
use sigchat.Stores.PreKey.{get_signed_pre_key, save_signed_pre_key}
use sigchat.Stores.Kyber.{get_kyber_pre_key, save_kyber_pre_key}

abbrev pub signed_prekey_dict : Bytes
signed_prekey_dict = codes "sigchat.signed_prekey"

abbrev pub kyber_prekey_dict : Bytes
kyber_prekey_dict = codes "sigchat.kyber_prekey"

-- The two kinds of record: their `id()` and their encodings.
module _ (p : Pddb) (signed kyber : Codec) (signed_id : signed.Item → Result SignalProtocolError ℕ)
    (kyber_id : kyber.Item → Result SignalProtocolError ℕ) where
  open p use {Store}

  abbrev pub save_signed : signed.Item → Exec ErrorKind Store (Unit {0})
  save_signed record' = do
    id ← lift (map_err (λ _. ErrorKind.other) (signed_id record'))
    map_error (λ _. ErrorKind.other) (save_signed_pre_key p signed_prekey_dict signed id record')

  abbrev pub save_kyber : kyber.Item → Exec ErrorKind Store (Unit {0})
  save_kyber record' = do
    id ← lift (map_err (λ _. ErrorKind.other) (kyber_id record'))
    map_error (λ _. ErrorKind.other) (save_kyber_pre_key p kyber_prekey_dict kyber id record')

  -- The four records of `Prekeys`, in the order in which they are saved.
  unfoldable pub save_to_pddb :
      signed.Item → signed.Item → kyber.Item → kyber.Item → Exec ErrorKind Store (Unit {0})
  save_to_pddb aci_signed_record pni_signed_record aci_kyber_record pni_kyber_record = do
    save_signed aci_signed_record
    save_signed pni_signed_record
    save_kyber aci_kyber_record
    save_kyber pni_kyber_record

  -- The database behind the four writes.
  abbrev behind : ℕ → ℕ → ℕ → ℕ → Bytes → Bytes → Bytes → Bytes → Store → Store
  behind i j m n a b c d s =
      let s1 = (persist p signed_prekey_dict (show i) a s).1 in
      let s2 = (persist p signed_prekey_dict (show j) b s1).1 in
      let s3 = (persist p kyber_prekey_dict (show m) c s2).1 in
      (persist p kyber_prekey_dict (show n) d s3).1

  module _ (l : PddbLaws p) (sl : CodecLaws signed) (kl : CodecLaws kyber) where
    open l use {contents}

    contents-behind :
        (i j m n : ℕ) (a b c d : Bytes) (s : Store) (d' k' : Bytes)
        → contents (behind i j m n a b c d s) d' k' ≡ (
            if same_key kyber_prekey_dict (show n) d' k'
            then some d
            else if same_key kyber_prekey_dict (show m) d' k'
            then some c
            else if same_key signed_prekey_dict (show j) d' k'
            then some b
            else if same_key signed_prekey_dict (show i) d' k'
            then some a
            else contents s d' k')
    contents-behind i j m n a b c d s d' k' =
        let s1 = (persist p signed_prekey_dict (show i) a s).1 in
        let s2 = (persist p signed_prekey_dict (show j) b s1).1 in
        let s3 = (persist p kyber_prekey_dict (show m) c s2).1 in
        ground (
          arith,
          contents-persist p l signed_prekey_dict (show i) a s d' k',
          contents-persist p l signed_prekey_dict (show j) b s1 d' k',
          contents-persist p l kyber_prekey_dict (show m) c s2 d' k',
          contents-persist p l kyber_prekey_dict (show n) d s3 d' k',
        )

    other_dict : bytes_eq kyber_prekey_dict signed_prekey_dict ≡ false
    unfolding bytes_eq
    other_dict = refl

    -- Each of the four keys holds its own record.
    behind-holds :
        (i j m n : ℕ) (a b c d : Bytes) (s : Store)
        → (i < 2 ^ 32) × (j < 2 ^ 32) × (m < 2 ^ 32) × (n < 2 ^ 32)
        → i ≢ j
        → m ≢ n
        → (contents (behind i j m n a b c d s) signed_prekey_dict (show i) ≡ some a)
          × (contents (behind i j m n a b c d s) signed_prekey_dict (show j) ≡ some b)
          × (contents (behind i j m n a b c d s) kyber_prekey_dict (show m) ≡ some c)
          × (contents (behind i j m n a b c d s) kyber_prekey_dict (show n) ≡ some d)
    behind-holds i j m n a b c d s small ij mn =
        let at = contents-behind i j m n a b c d s in
        (
          ground (
            arith,
            at signed_prekey_dict (show i),
            other_dict,
            bytes_eq_refl signed_prekey_dict,
            bytes_eq_refl (show i),
            show_eq j i small.1 small.0,
            ij,
          ),
          ground (
            arith,
            at signed_prekey_dict (show j),
            other_dict,
            bytes_eq_refl signed_prekey_dict,
            bytes_eq_refl (show j),
          ),
          ground (
            arith,
            at kyber_prekey_dict (show m),
            bytes_eq_refl kyber_prekey_dict,
            bytes_eq_refl (show m),
            show_eq n m small.3 small.2,
            mn,
          ),
          ground (
            arith,
            at kyber_prekey_dict (show n),
            bytes_eq_refl kyber_prekey_dict,
            bytes_eq_refl (show n),
          ),
        )

    save_signed_eq :
        (r : signed.Item) (i : ℕ) (v : Bytes) (s : Store)
        → signed_id r ≡ ok i
        → signed.serialize r ≡ ok v
        → save_signed r s ≡ (ok tt, (persist p signed_prekey_dict (show i) v s).1)
    unfolding save_signed_pre_key
    save_signed_eq r i v s id text =
        ground (arith, id, text, persist-ok p l signed_prekey_dict (show i) v s)

    save_kyber_eq :
        (r : kyber.Item) (i : ℕ) (v : Bytes) (s : Store)
        → kyber_id r ≡ ok i
        → kyber.serialize r ≡ ok v
        → save_kyber r s ≡ (ok tt, (persist p kyber_prekey_dict (show i) v s).1)
    unfolding save_kyber_pre_key
    save_kyber_eq r i v s id text =
        ground (arith, id, text, persist-ok p l kyber_prekey_dict (show i) v s)

    get_signed_from :
        (s : Store) (i : ℕ) (v : Bytes) (r : signed.Item)
        → contents s signed_prekey_dict (show i) ≡ some v
        → signed.serialize r ≡ ok v
        → (get_signed_pre_key p signed_prekey_dict signed i s).0 ≡ ok r
    unfolding get_signed_pre_key
    get_signed_from s i v r held text = ground (
      arith,
      held,
      load-seen p l signed.deserialize (err invalid_signed_pre_key_id) signed_prekey_dict (show i)
          s,
      sl.deserialize_serialize r v text,
    )

    get_kyber_from :
        (s : Store) (i : ℕ) (v : Bytes) (r : kyber.Item)
        → contents s kyber_prekey_dict (show i) ≡ some v
        → kyber.serialize r ≡ ok v
        → (get_kyber_pre_key p kyber_prekey_dict kyber i s).0 ≡ ok r
    unfolding get_kyber_pre_key
    get_kyber_from s i v r held text = ground (
      arith,
      held,
      load-seen p l kyber.deserialize (err invalid_kyber_pre_key_id) kyber_prekey_dict (show i) s,
      kl.deserialize_serialize r v text,
    )

    -- With records that serialize, under u32 ids, the save succeeds; where the two signed ids differ and
    -- the two Kyber ids differ, all four records are read back under their ids.
    pub save_to_pddb-get :
        (s : Store) (aci pni : signed.Item) (aci_k pni_k : kyber.Item) (i j m n : ℕ)
        (a b c d : Bytes)
        → (signed_id aci ≡ ok i)
          × (signed_id pni ≡ ok j)
          × (kyber_id aci_k ≡ ok m)
          × (kyber_id pni_k ≡ ok n)
        → (i < 2 ^ 32) × (j < 2 ^ 32) × (m < 2 ^ 32) × (n < 2 ^ 32)
        → (signed.serialize aci ≡ ok a)
          × (signed.serialize pni ≡ ok b)
          × (kyber.serialize aci_k ≡ ok c)
          × (kyber.serialize pni_k ≡ ok d)
        → i ≢ j
        → m ≢ n
        → ((save_to_pddb aci pni aci_k pni_k s).0 ≡ ok tt)
          × ((get_signed_pre_key p signed_prekey_dict signed i
                (save_to_pddb aci pni aci_k pni_k s).1).0
              ≡ ok aci)
          × ((get_signed_pre_key p signed_prekey_dict signed j
                (save_to_pddb aci pni aci_k pni_k s).1).0
              ≡ ok pni)
          × ((get_kyber_pre_key p kyber_prekey_dict kyber m
                (save_to_pddb aci pni aci_k pni_k s).1).0
              ≡ ok aci_k)
          × ((get_kyber_pre_key p kyber_prekey_dict kyber n
                (save_to_pddb aci pni aci_k pni_k s).1).0
              ≡ ok pni_k)
    unfolding save_to_pddb
    save_to_pddb-get s aci pni aci_k pni_k i j m n a b c d ids small texts ij mn =
        let s' = behind i j m n a b c d s in
        let (at_i, at_j, at_m, at_n) = behind-holds i j m n a b c d s small ij mn in
        let s1 = (persist p signed_prekey_dict (show i) a s).1 in
        let s2 = (persist p signed_prekey_dict (show j) b s1).1 in
        let s3 = (persist p kyber_prekey_dict (show m) c s2).1 in
        let done : save_to_pddb aci pni aci_k pni_k s ≡ (ok tt, s') = ground (
          arith,
          save_signed_eq aci i a s ids.0 texts.0,
          save_signed_eq pni j b s1 ids.1 texts.1,
          save_kyber_eq aci_k m c s2 ids.2 texts.2,
          save_kyber_eq pni_k n d s3 ids.3 texts.3,
        ) in
        (
          ap (λ t. t.0) done,
          ap (λ t. (get_signed_pre_key p signed_prekey_dict signed i t.1).0) done
              ∙ get_signed_from s' i a aci at_i texts.0,
          ap (λ t. (get_signed_pre_key p signed_prekey_dict signed j t.1).0) done
              ∙ get_signed_from s' j b pni at_j texts.1,
          ap (λ t. (get_kyber_pre_key p kyber_prekey_dict kyber m t.1).0) done
              ∙ get_kyber_from s' m c aci_k at_m texts.2,
          ap (λ t. (get_kyber_pre_key p kyber_prekey_dict kyber n t.1).0) done
              ∙ get_kyber_from s' n d pni_k at_n texts.3,
        )
