-- ===== src/Pddb.antt =====
-- The plausibly deniable database of Xous, a service outside the repository, as an interface: the
-- calls that the program makes, and what they do while the database is mounted and has room.
use sigchat.Base.{
  ℕ, ◌≡◌, Bool, true, false, ◌&&◌, ◌++◌, [], Option, none, some, ok, err, Exec, unwrap_or,
  if◌then◌else◌, length, take, drop,
}
use sigchat.Text.{Bytes, bytes_eq}
use sigchat.Io.{ErrorKind}

-- Each call takes the state of the service and returns the new one.
pub record Pddb : Type 1 where
  pub Store : Type 0
  pub Handle : Type 0
  -- `pddb.get(dict, key, None, true, create_key, None, None)`
  pub get : Bytes → Bytes → Bool → Exec ErrorKind Store Handle
  -- `handle.read_to_end(&mut buf)`, what is appended to the buffer
  pub read_to_end : Handle → Exec ErrorKind Store Bytes
  -- `handle.read(&mut buf)`, what is put into a buffer of that size
  pub read : Handle → ℕ → Exec ErrorKind Store Bytes
  -- `handle.write_all(bytes)` and `handle.write(bytes)`
  pub write_all : Handle → Bytes → Exec ErrorKind Store (Unit {0})
  pub write : Handle → Bytes → Exec ErrorKind Store ℕ
  -- `pddb.delete_key(dict, key, None)` and `pddb.delete_dict(dict, None)`
  pub delete_key : Bytes → Bytes → Exec ErrorKind Store (Unit {0})
  pub delete_dict : Bytes → Exec ErrorKind Store (Unit {0})
  -- `pddb.sync()`
  pub sync : Exec ErrorKind Store (Unit {0})

-- The two names of one key.
abbrev pub same_key : Bytes → Bytes → Bytes → Bytes → Bool
same_key d k d' k' = bytes_eq d d' && bytes_eq k k'

-- A write at the start of a value: what is longer in the old value stays behind the new bytes.
abbrev pub overlay : Bytes → Bytes → Bytes
overlay new old = new ++ drop (length new) old

-- The documented behaviour of the calls over the values of the keys. A handle that `get` returns
-- stands at the start of its value, and each handle is used for one call.
pub record PddbLaws (p : Pddb) : Type 0 where
  pub contents : p.Store → Bytes → Bytes → Option Bytes
  pub key_at : Bytes → Bytes → p.Handle
  pub get_found :
      (s : p.Store) (d k v : Bytes) (c : Bool)
      → contents s d k ≡ some v
      → (p.get d k c s).0 ≡ ok (key_at d k)
  pub get_missing :
      (s : p.Store) (d k : Bytes)
      → contents s d k ≡ none
      → (p.get d k false s).0 ≡ err ErrorKind.not_found
  pub get_create : (s : p.Store) (d k : Bytes) → (p.get d k true s).0 ≡ ok (key_at d k)
  pub contents_get :
      (s : p.Store) (d k d' k' : Bytes) → contents (p.get d k false s).1 d' k' ≡ contents s d' k'
  pub contents_create :
      (s : p.Store) (d k d' k' : Bytes)
      → contents (p.get d k true s).1 d' k'
        ≡ (if same_key d k d' k' then some (unwrap_or (contents s d k) []) else contents s d' k')
  pub read_to_end_at :
      (s : p.Store) (d k v : Bytes)
      → contents s d k ≡ some v
      → (p.read_to_end (key_at d k) s).0 ≡ ok v
  pub contents_read_to_end :
      (s : p.Store) (h : p.Handle) (d' k' : Bytes)
      → contents (p.read_to_end h s).1 d' k' ≡ contents s d' k'
  pub read_at :
      (s : p.Store) (d k v : Bytes) (n : ℕ)
      → contents s d k ≡ some v
      → (p.read (key_at d k) n s).0 ≡ ok (take n v)
  pub contents_read :
      (s : p.Store) (h : p.Handle) (n : ℕ) (d' k' : Bytes)
      → contents (p.read h n s).1 d' k' ≡ contents s d' k'
  pub write_all_at :
      (s : p.Store) (d k v new : Bytes)
      → contents s d k ≡ some v
      → (p.write_all (key_at d k) new s).0 ≡ ok tt
  pub contents_write_all :
      (s : p.Store) (d k v new d' k' : Bytes)
      → contents s d k ≡ some v
      → contents (p.write_all (key_at d k) new s).1 d' k'
        ≡ (if same_key d k d' k' then some (overlay new v) else contents s d' k')
  pub write_at :
      (s : p.Store) (d k v new : Bytes)
      → contents s d k ≡ some v
      → (p.write (key_at d k) new s).0 ≡ ok (length new)
  pub contents_write :
      (s : p.Store) (d k v new d' k' : Bytes)
      → contents s d k ≡ some v
      → contents (p.write (key_at d k) new s).1 d' k'
        ≡ (if same_key d k d' k' then some (overlay new v) else contents s d' k')
  pub delete_found :
      (s : p.Store) (d k v : Bytes) → contents s d k ≡ some v → (p.delete_key d k s).0 ≡ ok tt
  pub delete_missing :
      (s : p.Store) (d k : Bytes)
      → contents s d k ≡ none
      → (p.delete_key d k s).0 ≡ err ErrorKind.not_found
  pub contents_delete :
      (s : p.Store) (d k d' k' : Bytes)
      → contents (p.delete_key d k s).1 d' k'
        ≡ (if same_key d k d' k' then none else contents s d' k')
  pub contents_sync : (s : p.Store) (d' k' : Bytes) → contents (p.sync s).1 d' k' ≡ contents s d' k'
