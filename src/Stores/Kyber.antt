-- ===== src/Stores/Kyber.antt =====
-- `PddbKyberPreKeyStore` of src/manager/stores.rs.
use sigchat.Base.{
  ℕ, ◌^◌, ◌<◌, ◌≡◌, refl, false, ◌&&◌, Bool, [], ◌∷◌, ◌++◌, Result, ok, err, none, some, arith,
  Exec, raise, lift, map_error, ◌>>=◌, ◌==◌, if◌then◌else◌, Option, unwrap_or, Option-cases, inl,
  inr, All,
}
use sigchat.Text.{Bytes, codes, bytes_eq, bytes_eq_refl, bytes_eq_iff, Lacks}
use sigchat.Text.Decimal.{show, IsDigit, All-show, show-injective}
use sigchat.Io.{ErrorKind, is_not_found}
use sigchat.Pddb.{Pddb, PddbLaws}
use sigchat.Signal.{Codec, CodecLaws, SignalProtocolError, invalid_kyber_pre_key_id}
use sigchat.Stores.Binary.{
  pddb_read_binary, pddb_write_binary, read-found, read-missing, contents-read, write-ok,
  contents-write,
}
use sigchat.Stores.Keys.{show_eq}
use sigchat.Stores.Entry.{io_err_to_signal, load, persist, load-seen, load-persist, persist-ok}

module _ (p : Pddb) (dict : Bytes) (codec : Codec) where
  open p use {Store}
  open codec use {Item}

  unfoldable pub get_kyber_pre_key : ℕ → Exec SignalProtocolError Store Item
  get_kyber_pre_key id = load p codec.deserialize (err invalid_kyber_pre_key_id) dict (show id)

  unfoldable pub save_kyber_pre_key : ℕ → Item → Exec SignalProtocolError Store (Unit {0})
  save_kyber_pre_key id item = do buf ← lift (codec.serialize item); persist p dict (show id) buf

-- `format!("used:{}:{}:{}", kyber_prekey_id, ec_prekey_id, base_pk_b64)`
dedup_key : ℕ → ℕ → Bytes → Bytes
dedup_key kyber_id ec_id base_pk_b64 =
    codes "used:" ++ (show kyber_id ++ b':' ∷ (show ec_id ++ b':' ∷ base_pk_b64))

-- `text` is `URL_SAFE_NO_PAD.encode(base_key.serialize())`.
module _ (p : Pddb) (dict : Bytes) {Key : Type 0} (text : Key → Bytes) where
  open p use {Store}

  -- What the read of the dedup key decides.
  mark_over : Bytes → Result ErrorKind Bytes → Exec SignalProtocolError Store (Unit {0})
  mark_over key (ok _) = raise invalid_kyber_pre_key_id
  mark_over key (err e) =
      if is_not_found e
      then map_error (io_err_to_signal (codes "mark used: write failed"))
          (pddb_write_binary p dict key (1 ∷ []))
      else raise (io_err_to_signal (codes "mark used: read failed") e)

  unfoldable pub mark_kyber_pre_key_used : ℕ → ℕ → Key → Exec SignalProtocolError Store (Unit {0})
  unfolding mark_over dedup_key
  mark_kyber_pre_key_used kyber_id ec_id base_key s =
      let key = dedup_key kyber_id ec_id (text base_key) in
      let (r, s') = pddb_read_binary p dict key s in mark_over key r s'

colon_after : (s : Bytes) → All IsDigit s → Lacks b':' s
colon_after [] _ = tt
colon_after (c ∷ s) (hc, hs) = (omega arith, colon_after s hs)

-- The first separator cuts a text in one way.
split_at_first :
    (s t : Bytes) (b : ℕ) (x y : Bytes)
    → Lacks b s
    → Lacks b t
    → s ++ b ∷ x ≡ t ++ b ∷ y
    → (s ≡ t) × (x ≡ y)
split_at_first [] [] b x y ls lt e = (refl, ground arith)
split_at_first [] (c ∷ t) b x y ls (ne, lt) e = absurd (ground arith)
split_at_first (c ∷ s) [] b x y (ne, ls) lt e = absurd (ground arith)
split_at_first (c ∷ s) (d ∷ t) b x y (_, ls) (_, lt) e =
    let (p, q) = split_at_first s t b x y ls lt (ground arith) in (ground arith, q)

show_colon :
    (a b : ℕ) (x y : Bytes)
    → a < 2 ^ 32
    → b < 2 ^ 32
    → show a ++ b':' ∷ x ≡ show b ++ b':' ∷ y
    → (a ≡ b) × (x ≡ y)
show_colon a b x y la lb e =
    let cut =
      split_at_first (show a) (show b) b':' x y (colon_after (show a) (All-show a))
        (colon_after (show b) (All-show b)) e in
    (show-injective a b la lb cut.0, cut.1)

-- Two tuples share a dedup key only if they are equal.
dedup_key-injective :
    (k e k' e' : ℕ) (x y : Bytes)
    → k < 2 ^ 32
    → e < 2 ^ 32
    → k' < 2 ^ 32
    → e' < 2 ^ 32
    → dedup_key k e x ≡ dedup_key k' e' y
    → (k ≡ k') × (e ≡ e') × (x ≡ y)
unfolding dedup_key
dedup_key-injective k e k' e' x y lk le lk' le' h =
    let outer = show_colon k k' _ _ lk lk' (ground arith) in
    let inner = show_colon e e' x y le le' outer.1 in (outer.0, inner.0, inner.1)

-- No dedup key is the key of a record.
dedup_key-ne : (k e : ℕ) (x s : Bytes) → All IsDigit s → bytes_eq (dedup_key k e x) s ≡ false
unfolding bytes_eq dedup_key
dedup_key-ne k e x [] h = refl
dedup_key-ne k e x (c ∷ s) (hc, hs) = ground arith

-- The dedup keys of two tuples are equal exactly where the tuples are.
abbrev same_use : ℕ → ℕ → Bytes → ℕ → ℕ → Bytes → Bool
same_use k e x k' e' y = k == k' && e == e' && bytes_eq x y

dedup_key_eq :
    (k e k' e' : ℕ) (x y : Bytes)
    → k < 2 ^ 32
    → e < 2 ^ 32
    → k' < 2 ^ 32
    → e' < 2 ^ 32
    → bytes_eq (dedup_key k e x) (dedup_key k' e' y) ≡ same_use k e x k' e' y
dedup_key_eq k e k' e' x y lk le lk' le' = ground (
  arith,
  bytes_eq_iff (dedup_key k e x) (dedup_key k' e' y),
  bytes_eq_iff x y,
  dedup_key-injective k e k' e' x y lk le lk' le',
)

module _ (p : Pddb) (l : PddbLaws p) (dict : Bytes) {Key : Type 0} (text : Key → Bytes) where
  open p use {Store}
  open l use {contents}

  abbrev verdict : Option Bytes → Result SignalProtocolError (Unit {0})
  verdict none = ok tt
  verdict (some _) = err invalid_kyber_pre_key_id

  mark_result :
      (s : Store) (k e : ℕ) (x : Key)
      → (mark_kyber_pre_key_used p dict text k e x s).0
        ≡ verdict (contents s dict (dedup_key k e (text x)))
  unfolding mark_kyber_pre_key_used
  mark_result s k e x =
      let key = dedup_key k e (text x) in
      let wrote = write-ok p l (pddb_read_binary p dict key s).1 dict key (1 ∷ []) in
      elim (Option-cases (contents s dict key)) [
        | inl gone ↦ ground (arith, read-missing p l s dict key gone, gone, wrote)
        | inr (v, there) ↦ ground (arith, read-found p l s dict key v there, there)
      ]

  -- A mark writes under its dedup key alone, and something stands there afterwards.
  contents-mark :
      (s : Store) (k e : ℕ) (x : Key) (j : Bytes)
      → contents (mark_kyber_pre_key_used p dict text k e x s).1 dict j ≡ (
          if bytes_eq (dedup_key k e (text x)) j
          then some (unwrap_or (contents s dict (dedup_key k e (text x))) (1 ∷ []))
          else contents s dict j)
  unfolding mark_kyber_pre_key_used
  contents-mark s k e x j =
      let key = dedup_key k e (text x) in
      let read = (pddb_read_binary p dict key s).1 in
      let same = contents-read p l s dict key dict j in
      let wrote = contents-write p l read dict key (1 ∷ []) dict j in
      elim (Option-cases (contents s dict key)) [
        | inl gone ↦
            ground (arith, read-missing p l s dict key gone, gone, wrote, same, bytes_eq_refl dict)
        | inr (v, there) ↦
            ground (arith, read-found p l s dict key v there, there, same, bytes_eq_iff key j)
      ]

  -- Behind a mark, the same (kyber id, signed pre-key id, base key) is rejected with
  -- InvalidKyberPreKeyId, and every other tuple is answered as before; ids are u32.
  pub mark_kyber_pre_key_used_again :
      (s : Store) (k e k' e' : ℕ) (x y : Key)
      → k < 2 ^ 32
      → e < 2 ^ 32
      → k' < 2 ^ 32
      → e' < 2 ^ 32
      → (mark_kyber_pre_key_used p dict text k' e' y
          (mark_kyber_pre_key_used p dict text k e x s).1).0
        ≡ (if same_use k e (text x) k' e' (text y)
            then err invalid_kyber_pre_key_id
            else (mark_kyber_pre_key_used p dict text k' e' y s).0)
  mark_kyber_pre_key_used_again s k e k' e' x y lk le lk' le' = ground (
    arith,
    mark_result (mark_kyber_pre_key_used p dict text k e x s).1 k' e' y,
    mark_result s k' e' y,
    contents-mark s k e x (dedup_key k' e' (text y)),
    dedup_key_eq k e k' e' (text x) (text y) lk le lk' le',
  )

module _ (p : Pddb) (l : PddbLaws p) (dict : Bytes) (codec : Codec) (cl : CodecLaws codec) where
  open p use {Store}
  open codec use {Item}

  -- A saved Kyber pre-key is what a later get of its id returns, and the gets of all other ids are as
  -- before; ids are u32 and the key serializes.
  pub get_kyber_pre_key-save_kyber_pre_key :
      (s : Store) (id other : ℕ) (item : Item) (buf : Bytes)
      → id < 2 ^ 32
      → other < 2 ^ 32
      → codec.serialize item ≡ ok buf
      → ((save_kyber_pre_key p dict codec id item s).0 ≡ ok tt)
        × ((get_kyber_pre_key p dict codec other (save_kyber_pre_key p dict codec id item s).1).0
            ≡ (if id == other then ok item else (get_kyber_pre_key p dict codec other s).0))
  unfolding get_kyber_pre_key save_kyber_pre_key
  get_kyber_pre_key-save_kyber_pre_key s id other item buf lid lother h = ground (
    arith,
    h,
    persist-ok p l dict (show id) buf s,
    load-persist p l codec.deserialize (err invalid_kyber_pre_key_id) dict (show id) buf dict
        (show other) s,
    show_eq id other lid lother,
    bytes_eq_refl dict,
    cl.deserialize_serialize item buf h,
  )

  -- Marking a last-resort key used deletes no record: every get is answered as before the mark.
  pub get_kyber_pre_key-mark_kyber_pre_key_used :
      {Key : Type 0} (text : Key → Bytes) (s : Store) (k e id : ℕ) (x : Key)
      → (get_kyber_pre_key p dict codec id (mark_kyber_pre_key_used p dict text k e x s).1).0
        ≡ (get_kyber_pre_key p dict codec id s).0
  unfolding get_kyber_pre_key
  get_kyber_pre_key-mark_kyber_pre_key_used text s k e id x = ground (
    arith,
    load-seen p l codec.deserialize (err invalid_kyber_pre_key_id) dict (show id)
        (mark_kyber_pre_key_used p dict text k e x s).1,
    load-seen p l codec.deserialize (err invalid_kyber_pre_key_id) dict (show id) s,
    contents-mark p l dict text s k e x (show id),
    dedup_key-ne k e (text x) (show id) (All-show id),
  )
