-- ===== src/Stores/Binary.antt =====
-- `pddb_read_binary` and `pddb_write_binary` of src/manager/stores.rs.
use sigchat.Base.{
  ◌≡◌, refl, true, false, [], ◌∷◌, append-nil, none, some, ok, err, arith, Exec, pure, attempt,
  ◌>>=◌, ◌>>◌, if◌then◌else◌, Option-cases, inl, inr,
}
use sigchat.Text.{Bytes, bytes_eq_refl}
use sigchat.Io.{ErrorKind}
use sigchat.Pddb.{Pddb, PddbLaws, same_key, overlay}

module _ (p : Pddb) where
  open p use {Store}

  unfoldable pub pddb_read_binary : Bytes → Bytes → Exec ErrorKind Store Bytes
  pddb_read_binary dict key = do handle ← p.get dict key false; p.read_to_end handle

  -- The results of the deletion and of the sync are dropped.
  unfoldable pub pddb_write_binary : Bytes → Bytes → Bytes → Exec ErrorKind Store (Unit {0})
  pddb_write_binary dict key bytes = do
    attempt (p.delete_key dict key)
    handle ← p.get dict key true
    p.write_all handle bytes
    attempt p.sync
    pure tt

pub overlay-nil : (v : Bytes) → overlay v [] ≡ v
overlay-nil [] = refl
overlay-nil (b ∷ v) = append-nil (b ∷ v)

module _ (p : Pddb) (l : PddbLaws p) where
  open p use {Store}
  open l use {contents}

  pub read-found :
      (s : Store) (d k v : Bytes) → contents s d k ≡ some v → (pddb_read_binary p d k s).0 ≡ ok v
  unfolding pddb_read_binary
  read-found s d k v h = ground (
    arith,
    l.get_found s d k v false h,
    l.read_to_end_at (p.get d k false s).1 d k v,
    l.contents_get s d k d k,
  )

  pub read-missing :
      (s : Store) (d k : Bytes)
      → contents s d k ≡ none
      → (pddb_read_binary p d k s).0 ≡ err ErrorKind.not_found
  unfolding pddb_read_binary
  read-missing s d k h = ground (arith, l.get_missing s d k h)

  -- Reading changes no value.
  pub contents-read :
      (s : Store) (d k d' k' : Bytes)
      → contents (pddb_read_binary p d k s).1 d' k' ≡ contents s d' k'
  unfolding pddb_read_binary
  contents-read s d k d' k' = elim (Option-cases (contents s d k)) [
    | inl missing ↦ ground (arith, l.get_missing s d k missing, l.contents_get s d k d' k')
    | inr (v, found) ↦ ground (
      arith,
      l.get_found s d k v false found,
      l.contents_get s d k d' k',
      l.contents_read_to_end (p.get d k false s).1 (l.key_at d k) d' k',
    )
  ]

  -- The key anew, with no bytes yet.
  unfoldable pub emptied : Bytes → Bytes → Store → Store
  emptied d k s = (p.get d k true (p.delete_key d k s).1).1

  pub contents-emptied :
      (s : Store) (d k d' k' : Bytes)
      → contents (emptied d k s) d' k' ≡ (if same_key d k d' k' then some [] else contents s d' k')
  unfolding emptied
  contents-emptied s d k d' k' = ground (
    arith,
    l.contents_create (p.delete_key d k s).1 d k d' k',
    l.contents_delete s d k d' k',
    l.contents_delete s d k d k,
    bytes_eq_refl d,
    bytes_eq_refl k,
  )

  pub emptied_self : (s : Store) (d k : Bytes) → contents (emptied d k s) d k ≡ some []
  emptied_self s d k = ground (arith, contents-emptied s d k d k, bytes_eq_refl d, bytes_eq_refl k)

  -- The write succeeds.
  pub write-ok : (s : Store) (d k v : Bytes) → (pddb_write_binary p d k v s).0 ≡ ok tt
  unfolding pddb_write_binary emptied
  write-ok s d k v = ground (
    arith,
    l.get_create (p.delete_key d k s).1 d k,
    l.write_all_at (emptied d k s) d k [] v (emptied_self s d k),
  )

  -- It leaves exactly the new bytes under its key, whatever was there, and every other value alone.
  pub contents-write :
      (s : Store) (d k v d' k' : Bytes)
      → contents (pddb_write_binary p d k v s).1 d' k'
        ≡ (if same_key d k d' k' then some v else contents s d' k')
  unfolding pddb_write_binary emptied
  contents-write s d k v d' k' =
      let wrote = l.contents_write_all (emptied d k s) d k [] v d' k' (emptied_self s d k) in
      ground (
        arith,
        l.get_create (p.delete_key d k s).1 d k,
        l.write_all_at (emptied d k s) d k [] v (emptied_self s d k),
        l.contents_sync (p.write_all (l.key_at d k) v (emptied d k s)).1 d' k',
        wrote,
        contents-emptied s d k d' k',
        overlay-nil v,
      )
