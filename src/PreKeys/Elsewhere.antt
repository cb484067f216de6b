-- ===== src/PreKeys/Elsewhere.antt =====
-- `save_to_pddb` of src/manager/prekeys.rs writes nothing outside its two dictionaries.
use sigchat.Base.{
  ◌≡◌, refl, ap, ◌∙◌, ◌&&◌, false, some, Result, ok, err, Exec, lift, map_err, map_error, continue,
  ◌>>=◌, if◌then◌else◌, ℕ,
}
use sigchat.Text.{Bytes, bytes_eq}
use sigchat.Text.Decimal.{show}
use sigchat.Io.{ErrorKind}
use sigchat.Pddb.{Pddb, PddbLaws}
use sigchat.Signal.{Codec, SignalProtocolError}
use sigchat.Stores.Entry.{persist, contents-persist}
use sigchat.Stores.PreKey.{save_signed_pre_key}
use sigchat.Stores.Kyber.{save_kyber_pre_key}
use sigchat.PreKeys.Save.{
  signed_prekey_dict, kyber_prekey_dict, save_signed, save_kyber, save_to_pddb,
}

module _ (p : Pddb) (l : PddbLaws p) (d' k' : Bytes) where
  open l use {contents}

  -- A step that leaves this value alone.
  record Keeps {E A : Type 0} (m : Exec E p.Store A) : Type 0 where
    kept : (s : p.Store) → contents (m s).1 d' k' ≡ contents s d' k'

  Keeps-continue :
      {E A B : Type 0} (r : Result E A) (f : A → Exec E p.Store B) (s : p.Store)
      → ((a : A) → Keeps (f a))
      → contents (continue r f s).1 d' k' ≡ contents s d' k'
  Keeps-continue (ok a) f s h = (h a).kept s
  Keeps-continue (err e) f s h = refl

  Keeps-bind :
      {E A B : Type 0} (m : Exec E p.Store A) (f : A → Exec E p.Store B)
      → Keeps m
      → ((a : A) → Keeps (f a))
      → Keeps (m >>= f)
  Keeps-bind m f hm hf = record { kept = λ s. Keeps-continue (m s).0 f (m s).1 hf ∙ hm.kept s }

  Keeps-lift : {E A : Type 0} (r : Result E A) → Keeps (lift r)
  Keeps-lift r = record { kept = λ s. refl }

  Keeps-map_error :
      {E F A : Type 0} (f : E → F) (m : Exec E p.Store A) → Keeps m → Keeps (map_error f m)
  Keeps-map_error f m h = record { kept = h.kept }

  Keeps-persist : (dict key v : Bytes) → bytes_eq dict d' ≡ false → Keeps (persist p dict key v)
  Keeps-persist dict key v other = record {
    kept = λ s.
        contents-persist p l dict key v s d' k'
        ∙ ap (λ b. if b && bytes_eq key k' then some v else contents s d' k') other;
  }

  module _ (signed kyber : Codec) (signed_id : signed.Item → Result SignalProtocolError ℕ)
      (kyber_id : kyber.Item → Result SignalProtocolError ℕ)
      (not_signed : bytes_eq signed_prekey_dict d' ≡ false)
      (not_kyber : bytes_eq kyber_prekey_dict d' ≡ false) where
    Keeps-save_signed : (i : signed.Item) → Keeps (save_signed p signed kyber signed_id kyber_id i)
    unfolding save_signed_pre_key
    Keeps-save_signed i =
        Keeps-bind (lift (map_err (λ _. ErrorKind.other) (signed_id i))) _ (Keeps-lift _) λ id.
          Keeps-map_error (λ _. ErrorKind.other)
            (save_signed_pre_key p signed_prekey_dict signed id i)
            (Keeps-bind (lift (signed.serialize i)) _ (Keeps-lift _)
              λ buf. Keeps-persist signed_prekey_dict (show id) buf not_signed)

    Keeps-save_kyber : (i : kyber.Item) → Keeps (save_kyber p signed kyber signed_id kyber_id i)
    unfolding save_kyber_pre_key
    Keeps-save_kyber i =
        Keeps-bind (lift (map_err (λ _. ErrorKind.other) (kyber_id i))) _ (Keeps-lift _) λ id.
          Keeps-map_error (λ _. ErrorKind.other) (save_kyber_pre_key p kyber_prekey_dict kyber id i)
            (Keeps-bind (lift (kyber.serialize i)) _ (Keeps-lift _)
              λ buf. Keeps-persist kyber_prekey_dict (show id) buf not_kyber)

    pub contents-save_to_pddb :
        (i j : signed.Item) (m n : kyber.Item) (s : p.Store)
        → contents (save_to_pddb p signed kyber signed_id kyber_id i j m n s).1 d' k'
          ≡ contents s d' k'
    unfolding save_to_pddb
    contents-save_to_pddb i j m n s =
        (Keeps-bind (save_signed p signed kyber signed_id kyber_id i) _ (Keeps-save_signed i) λ _.
            Keeps-bind (save_signed p signed kyber signed_id kyber_id j) _ (Keeps-save_signed j)
              λ _.
                Keeps-bind (save_kyber p signed kyber signed_id kyber_id m) _ (Keeps-save_kyber m)
                  λ _. Keeps-save_kyber n).kept
          s
