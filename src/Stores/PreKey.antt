-- ===== src/Stores/PreKey.antt =====
-- `PddbPreKeyStore` and `PddbSignedPreKeyStore` of src/manager/stores.rs. `codec` stands for the
-- record type of the library with its `serialize` and `deserialize`.
use sigchat.Base.{
  ℕ, ◌^◌, ◌<◌, ◌≡◌, Result, ok, err, none, some, ◌⊎◌, arith, Exec, lift, map_err, ◌>>=◌, ◌==◌,
  if◌then◌else◌, Option-cases, inl, inr,
}
use sigchat.Text.{Bytes, codes, bytes_eq_refl}
use sigchat.Text.Decimal.{show}
use sigchat.Io.{ErrorKind, is_not_found}
use sigchat.Pddb.{Pddb, PddbLaws}
use sigchat.Signal.{
  Codec, CodecLaws, SignalProtocolError, invalid_state, invalid_pre_key_id,
  invalid_signed_pre_key_id,
}
use sigchat.Stores.Keys.{show_eq}
use sigchat.Stores.Entry.{io_err_to_signal, load, persist, load-seen, load-persist, persist-ok}

module _ (p : Pddb) (dict : Bytes) (codec : Codec) where
  open p use {Store}
  open codec use {Item}

  unfoldable pub get_pre_key : ℕ → Exec SignalProtocolError Store Item
  get_pre_key prekey_id = load p codec.deserialize (err invalid_pre_key_id) dict (show prekey_id)

  unfoldable pub save_pre_key : ℕ → Item → Exec SignalProtocolError Store (Unit {0})
  save_pre_key prekey_id item = do
    buf ← lift (
        map_err (λ _. invalid_state (codes "pddb") (codes "serialize failed"))
          (codec.serialize item))
    persist p dict (show prekey_id) buf

  abbrev removed : Result ErrorKind (Unit {0}) → Result SignalProtocolError (Unit {0})
  removed (ok _) = ok tt
  removed (err e) =
      if is_not_found e then ok tt else err (io_err_to_signal (codes "delete failed") e)

  -- A key that is not there counts as removed.
  unfoldable pub remove_pre_key : ℕ → Exec SignalProtocolError Store (Unit {0})
  remove_pre_key prekey_id s = let (r, s') = p.delete_key dict (show prekey_id) s in (removed r, s')

  unfoldable pub get_signed_pre_key : ℕ → Exec SignalProtocolError Store Item
  get_signed_pre_key signed_prekey_id =
      load p codec.deserialize (err invalid_signed_pre_key_id) dict (show signed_prekey_id)

  unfoldable pub save_signed_pre_key : ℕ → Item → Exec SignalProtocolError Store (Unit {0})
  save_signed_pre_key signed_prekey_id item = do
    buf ← lift (codec.serialize item)
    persist p dict (show signed_prekey_id) buf

module _ (p : Pddb) (l : PddbLaws p) (dict : Bytes) (codec : Codec) (cl : CodecLaws codec) where
  open p use {Store}
  open codec use {Item}

  -- A saved one-time pre-key is what a later get of its id returns, and the gets of all other ids
  -- are as before; ids are u32 and the key serializes.
  pub get_pre_key-save_pre_key :
      (s : Store) (id other : ℕ) (item : Item) (buf : Bytes)
      → id < 2 ^ 32
      → other < 2 ^ 32
      → codec.serialize item ≡ ok buf
      → ((save_pre_key p dict codec id item s).0 ≡ ok tt)
        × ((get_pre_key p dict codec other (save_pre_key p dict codec id item s).1).0
            ≡ (if id == other then ok item else (get_pre_key p dict codec other s).0))
  unfolding get_pre_key save_pre_key
  get_pre_key-save_pre_key s id other item buf lid lother h = ground (
    arith,
    h,
    persist-ok p l dict (show id) buf s,
    load-persist p l codec.deserialize (err invalid_pre_key_id) dict (show id) buf dict (show other)
        s,
    show_eq id other lid lother,
    bytes_eq_refl dict,
    cl.deserialize_serialize item buf h,
  )

  -- A saved signed pre-key is what a later get of its id returns, and the gets of all other ids are
  -- as before; ids are u32 and the key serializes.
  pub get_signed_pre_key-save_signed_pre_key :
      (s : Store) (id other : ℕ) (item : Item) (buf : Bytes)
      → id < 2 ^ 32
      → other < 2 ^ 32
      → codec.serialize item ≡ ok buf
      → ((save_signed_pre_key p dict codec id item s).0 ≡ ok tt)
        × ((get_signed_pre_key p dict codec other (save_signed_pre_key p dict codec id item s).1).0
            ≡ (if id == other then ok item else (get_signed_pre_key p dict codec other s).0))
  unfolding get_signed_pre_key save_signed_pre_key
  get_signed_pre_key-save_signed_pre_key s id other item buf lid lother h = ground (
    arith,
    h,
    persist-ok p l dict (show id) buf s,
    load-persist p l codec.deserialize (err invalid_signed_pre_key_id) dict (show id) buf dict
        (show other) s,
    show_eq id other lid lother,
    bytes_eq_refl dict,
    cl.deserialize_serialize item buf h,
  )

  -- Removing a one-time pre-key succeeds whether or not it is there; afterwards a get of its id
  -- fails with InvalidPreKeyId, and the gets of all other ids are as before.
  pub get_pre_key-remove_pre_key :
      (s : Store) (id other : ℕ)
      → id < 2 ^ 32
      → other < 2 ^ 32
      → ((remove_pre_key p dict codec id s).0 ≡ ok tt)
        × ((get_pre_key p dict codec other (remove_pre_key p dict codec id s).1).0 ≡ (
            if id == other then err invalid_pre_key_id else (get_pre_key p dict codec other s).0))
  unfolding get_pre_key remove_pre_key
  get_pre_key-remove_pre_key s id other lid lother =
      (removes (Option-cases (l.contents s dict (show id))), gone)
    where
      removes :
          (l.contents s dict (show id) ≡ none)
            ⊎ ((v : Bytes) × (l.contents s dict (show id) ≡ some v))
          → (remove_pre_key p dict codec id s).0 ≡ ok tt
      removes (inl missing) = ground (arith, l.delete_missing s dict (show id) missing)
      removes (inr (v, there)) = ground (arith, l.delete_found s dict (show id) v there)

      after : Store
      after = (p.delete_key dict (show id) s).1

      gone :
          (get_pre_key p dict codec other after).0
          ≡ (if id == other then err invalid_pre_key_id else (get_pre_key p dict codec other s).0)
      gone = ground (
        arith,
        load-seen p l codec.deserialize (err invalid_pre_key_id) dict (show other) after,
        load-seen p l codec.deserialize (err invalid_pre_key_id) dict (show other) s,
        l.contents_delete s dict (show id) dict (show other),
        show_eq id other lid lother,
        bytes_eq_refl dict,
      )
