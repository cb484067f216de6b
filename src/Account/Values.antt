-- ===== src/Account/Values.antt =====
-- The free functions `get` and `set` of src/account.rs.
use sigchat.Base.{
  ℕ, ◌≡◌, refl, true, false, [], Option, none, some, Result, ok, err, arith, Exec, pure, attempt,
  ◌>>=◌, ◌>>◌, if◌then◌else◌, Option-cases, inl, inr, take,
}
use sigchat.Text.{Bytes}
use sigchat.Text.Utf8.{from_utf8}
use sigchat.Io.{ErrorKind}
use sigchat.Pddb.{Pddb, PddbLaws, same_key}
use sigchat.Stores.Binary.{emptied, contents-emptied, emptied_self, overlay-nil}

-- One read into a buffer of this many bytes.
abbrev pub buffer_size : ℕ
buffer_size = 256

abbrev pub string_of : Result ErrorKind Bytes → Option Bytes
string_of (ok buffer) = from_utf8 buffer
string_of (err e) = none

module _ (p : Pddb) where
  open p use {Store, Handle}

  abbrev pub read_value : Result ErrorKind Handle → Exec ErrorKind Store (Option Bytes)
  read_value (ok pddb_key) s = let (r, s') = p.read pddb_key buffer_size s in (ok (string_of r), s')
  read_value (err e) s = (ok none, s)

  unfoldable pub get : Bytes → Bytes → Exec ErrorKind Store (Option Bytes)
  get dict key s = let (r, s') = p.get dict key false s in read_value r s'

  -- Each failure is only logged; the sync follows a write that succeeded.
  abbrev write_value : Bytes → Bytes → Bytes → Exec ErrorKind Store (Unit {0})
  write_value dict key value = do
    pddb_key ← p.get dict key true
    p.write pddb_key value
    attempt p.sync
    pure tt

  unfoldable pub set : Bytes → Bytes → Option Bytes → Exec ErrorKind Store (Unit {0})
  set dict key none = do attempt (p.delete_key dict key); pure tt
  set dict key (some value) = do
    attempt (p.delete_key dict key)
    attempt (write_value dict key value)
    pure tt

  pub set_ok :
      (dict key : Bytes) (value : Option Bytes) (s : Store) → (set dict key value s).0 ≡ ok tt
  unfolding set
  set_ok dict key none s = refl
  set_ok dict key (some value) s = refl

  read_value_ok :
      (r : Result ErrorKind Handle) (s : Store)
      → (found : Option Bytes) × ((read_value r s).0 ≡ ok found)
  read_value_ok (ok h) s = (_, refl)
  read_value_ok (err e) s = (_, refl)

  -- Neither function returns an error, whatever the database answers: a value that could not be
  -- written is reported as written, and one that could not be read as absent.
  pub get-set_ok :
      (dict key : Bytes) (value : Option Bytes) (s : Store)
      → ((set dict key value s).0 ≡ ok tt)
        × ((found : Option Bytes) × ((get dict key s).0 ≡ ok found))
  unfolding get
  get-set_ok dict key value s =
      (set_ok dict key value s, read_value_ok (p.get dict key false s).0 (p.get dict key false s).1)

-- What a value reads back as: its first 256 bytes, if these are a text.
abbrev pub read_back : Option Bytes → Option Bytes
read_back none = none
read_back (some value) = from_utf8 (take buffer_size value)

module _ (p : Pddb) (l : PddbLaws p) where
  open p use {Store}
  open l use {contents}

  -- A key holds what it was set to, no part of a longer old value behind it, and no other key changes.
  pub contents-set :
      (s : Store) (d k : Bytes) (value : Option Bytes) (d' k' : Bytes)
      → contents (set p d k value s).1 d' k'
        ≡ (if same_key d k d' k' then value else contents s d' k')
  unfolding set emptied
  contents-set s d k none d' k' = l.contents_delete s d k d' k'
  contents-set s d k (some value) d' k' =
      let wrote =
        l.contents_write (emptied p l d k s) d k [] value d' k' (emptied_self p l s d k) in
      ground (
        arith,
        l.get_create (p.delete_key d k s).1 d k,
        l.write_at (emptied p l d k s) d k [] value (emptied_self p l s d k),
        l.contents_sync (p.write (l.key_at d k) value (emptied p l d k s)).1 d' k',
        wrote,
        contents-emptied p l s d k d' k',
        overlay-nil value,
      )

  pub get_found :
      (s : Store) (d k : Bytes) (value : Option Bytes)
      → contents s d k ≡ value
      → (get p d k s).0 ≡ ok (read_back value)
  unfolding get
  get_found s d k none h = ground (arith, l.get_missing s d k h)
  get_found s d k (some v) h = ground (
    arith,
    l.get_found s d k v false h,
    l.read_at (p.get d k false s).1 d k v 256,
    l.contents_get s d k d k,
  )

  pub get-set :
      (s : Store) (d k : Bytes) (value : Option Bytes) (d' k' : Bytes)
      → (get p d' k' (set p d k value s).1).0
        ≡ (if same_key d k d' k' then ok (read_back value) else (get p d' k' s).0)
  get-set s d k value d' k' = ground (
    arith,
    get_found (set p d k value s).1 d' k' _ (contents-set s d k value d' k'),
    get_found s d' k' (contents s d' k') refl,
  )

  -- Reading changes no value.
  pub contents-get :
      (s : Store) (d k d' k' : Bytes) → contents (get p d k s).1 d' k' ≡ contents s d' k'
  unfolding get
  contents-get s d k d' k' = elim (Option-cases (contents s d k)) [
    | inl missing ↦ ground (arith, l.get_missing s d k missing, l.contents_get s d k d' k')
    | inr (v, found) ↦ ground (
      arith,
      l.get_found s d k v false found,
      l.contents_get s d k d' k',
      l.contents_read (p.get d k false s).1 (l.key_at d k) 256 d' k',
    )
  ]
