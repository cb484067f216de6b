-- ===== src/Stores/Replay.antt =====
-- The one-time pre-key store of src/manager/stores.rs against a finite map: the answers of any sequence
-- of operations on the database are those of the same sequence on a function of the ids.
use sigchat.Base.{
  ℕ, ◌^◌, ◌<◌, ◌≡◌, refl, ap, ◌∙◌, sym, List, [], ◌∷◌, Option, none, some, Result, ok, err, ◌==◌,
  if◌then◌else◌, All, Bool, true, false,
}
use sigchat.Text.{Bytes}
use sigchat.Text.Decimal.{show}
use sigchat.Pddb.{Pddb, PddbLaws}
use sigchat.Signal.{Codec, CodecLaws, SignalProtocolError, invalid_pre_key_id}
use sigchat.Stores.Entry.{seen, load-seen, contents-load}
use sigchat.Stores.PreKey.{
  get_pre_key, save_pre_key, remove_pre_key, get_pre_key-save_pre_key, get_pre_key-remove_pre_key,
}

pub data Op (Item : Type 0) : Type 0 where
  get : ℕ → Op Item
  save : ℕ → Item → Op Item
  remove : ℕ → Op Item

pub data Answer (Item : Type 0) : Type 0 where
  got : Result SignalProtocolError Item → Answer Item
  done : Result SignalProtocolError (Unit {0}) → Answer Item

-- The answers of a map.
abbrev pub answer : {Item : Type 0} → Option Item → Result SignalProtocolError Item
answer none = err invalid_pre_key_id
answer (some item) = ok item

unfoldable pub replay : {Item : Type 0} → List (Op Item) → (ℕ → Option Item) → List (Answer Item)
replay [] f = []
replay (get id ∷ ops) f = got (answer (f id)) ∷ replay ops f
replay (save id item ∷ ops) f = done (ok tt) ∷ replay ops (λ k. if id == k then some item else f k)
replay (remove id ∷ ops) f = done (ok tt) ∷ replay ops (λ k. if id == k then none else f k)

module _ (p : Pddb) (dict : Bytes) (codec : Codec) where
  open p use {Store}
  open codec use {Item}

  -- The answers of the database.
  unfoldable pub run : List (Op Item) → Store → List (Answer Item)
  run [] s = []
  run (get id ∷ ops) s = let (r, s') = get_pre_key p dict codec id s in got r ∷ run ops s'
  run (save id item ∷ ops) s =
      let (r, s') = save_pre_key p dict codec id item s in done r ∷ run ops s'
  run (remove id ∷ ops) s = let (r, s') = remove_pre_key p dict codec id s in done r ∷ run ops s'

  -- The ids are u32, and the keys serialize.
  abbrev pub IsValid : Op Item → Type 0
  IsValid (get id) = id < 2 ^ 32
  IsValid (save id item) = (id < 2 ^ 32) × ((buf : Bytes) × (codec.serialize item ≡ ok buf))
  IsValid (remove id) = id < 2 ^ 32

  -- The database holds what the map holds.
  abbrev pub Shows : Store → (ℕ → Option Item) → Type 0
  Shows s f = (id : ℕ) → id < 2 ^ 32 → (get_pre_key p dict codec id s).0 ≡ answer (f id)

answer_if :
    {Item : Type 0} (b : Bool) (x y : Option Item)
    → answer (if b then x else y) ≡ (if b then answer x else answer y)
answer_if true x y = refl
answer_if false x y = refl

module _ (p : Pddb) (l : PddbLaws p) (dict : Bytes) (codec : Codec) (cl : CodecLaws codec) where
  open p use {Store}
  open codec use {Item}

  get_pre_key_again :
      (s : Store) (id other : ℕ)
      → (get_pre_key p dict codec other (get_pre_key p dict codec id s).1).0
        ≡ (get_pre_key p dict codec other s).0
  unfolding get_pre_key
  get_pre_key_again s id other =
      load-seen p l codec.deserialize (err invalid_pre_key_id) dict (show other) _
      ∙ ap (seen codec.deserialize (err invalid_pre_key_id)) (
          contents-load p l codec.deserialize (err invalid_pre_key_id) dict (show id) s dict
            (show other))
      ∙ sym (load-seen p l codec.deserialize (err invalid_pre_key_id) dict (show other) s)

  if_else :
      {A : Type 0} (b : Bool) (x y z : A) → y ≡ z → (if b then x else y) ≡ (if b then x else z)
  if_else b x y z h = ap (λ t. if b then x else t) h

  -- Any sequence of gets, saves and removals of u32 ids answers on the database what it answers on the map
  -- that the database shows at its start, for keys that serialize; each save and each removal succeeds.
  pub run-replay :
      (ops : List (Op Item)) (s : Store) (f : ℕ → Option Item)
      → All (IsValid p dict codec) ops
      → Shows p dict codec s f
      → run p dict codec ops s ≡ replay ops f
  unfolding run replay
  run-replay [] s f valid shows = refl
  run-replay (get id ∷ ops) s f (lt, valid) shows = rw (shows id lt) (
      ap (λ rest. got (answer (f id)) ∷ rest)
        (run-replay ops _ f valid λ other lo. get_pre_key_again s id other ∙ shows other lo))
  run-replay (save id item ∷ ops) s f ((lt, (buf, e)), valid) shows =
      let s' = (save_pre_key p dict codec id item s).1 in
      let saved = λ (other : ℕ) (lo : other < 2 ^ 32).
        get_pre_key-save_pre_key p l dict codec cl s id other item buf lt lo e in
      rw (saved id lt).0 (
        ap (λ rest. done (ok tt) ∷ rest)
          (run-replay ops s' _ valid λ other lo.
            (saved other lo).1
            ∙ if_else (id == other) (ok item) _ _ (shows other lo)
            ∙ sym (answer_if (id == other) (some item) (f other))))
  run-replay (remove id ∷ ops) s f (lt, valid) shows =
      let s' = (remove_pre_key p dict codec id s).1 in
      let gone = λ (other : ℕ) (lo : other < 2 ^ 32).
        get_pre_key-remove_pre_key p l dict codec cl s id other lt lo in
      rw (gone id lt).0 (
        ap (λ rest. done (ok tt) ∷ rest)
          (run-replay ops s' _ valid λ other lo.
            (gone other lo).1
            ∙ if_else (id == other) (err invalid_pre_key_id) _ _ (shows other lo)
            ∙ sym (answer_if (id == other) none (f other))))
