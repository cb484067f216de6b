-- ===== src/Stores/Entry.antt =====
-- A value of a dictionary with its encoding: what each `get` and `save` of src/manager/stores.rs does
-- around `pddb_read_binary` and `pddb_write_binary`.
use sigchat.Base.{
  ◌≡◌, Option, none, some, Result, ok, err, arith, Exec, map_error, if◌then◌else◌, Option-cases,
  inl, inr,
}
use sigchat.Text.{Bytes, codes}
use sigchat.Io.{ErrorKind, is_not_found}
use sigchat.Pddb.{Pddb, PddbLaws, same_key}
use sigchat.Signal.{SignalProtocolError, invalid_state}
use sigchat.Stores.Binary.{
  pddb_read_binary, pddb_write_binary, read-found, read-missing, contents-read, write-ok,
  contents-write,
}

-- The context stays; the cause that is interpolated behind it does not.
abbrev pub io_err_to_signal : Bytes → ErrorKind → SignalProtocolError
io_err_to_signal context e = invalid_state (codes "pddb") context

-- `Ok(buf) => decode(&buf)`, `Err(e) if e.kind() == NotFound => missing`, `Err(e) => Err(…)`
abbrev pub decode :
    {A : Type 0}
    → (Bytes → Result SignalProtocolError A)
    → Result SignalProtocolError A
    → Result ErrorKind Bytes
    → Result SignalProtocolError A
decode f missing (ok buf) = f buf
decode f missing (err e) =
    if is_not_found e then missing else err (io_err_to_signal (codes "read failed") e)

-- The same over the value itself, where reads do not fail.
abbrev pub seen :
    {A : Type 0}
    → (Bytes → Result SignalProtocolError A)
    → Result SignalProtocolError A
    → Option Bytes
    → Result SignalProtocolError A
seen f missing none = missing
seen f missing (some v) = f v

-- `.map(Some)`
abbrev pub map_some :
    {A : Type 0} → Result SignalProtocolError A → Result SignalProtocolError (Option A)
map_some (ok a) = ok (some a)
map_some (err e) = err e

module _ (p : Pddb) where
  unfoldable pub load :
      {A : Type 0}
      → (Bytes → Result SignalProtocolError A)
      → Result SignalProtocolError A
      → Bytes
      → Bytes
      → Exec SignalProtocolError p.Store A
  load f missing dict key s =
      let (r, s') = pddb_read_binary p dict key s in (decode f missing r, s')

  unfoldable pub persist : Bytes → Bytes → Bytes → Exec SignalProtocolError p.Store (Unit {0})
  persist dict key buf =
      map_error (io_err_to_signal (codes "write failed")) (pddb_write_binary p dict key buf)

module _ (p : Pddb) (l : PddbLaws p) where
  open l use {contents}

  -- A load shows the value of its key.
  pub load-seen :
      {A : Type 0} (f : Bytes → Result SignalProtocolError A)
      (missing : Result SignalProtocolError A) (d k : Bytes) (s : p.Store)
      → (load p f missing d k s).0 ≡ seen f missing (contents s d k)
  unfolding load
  load-seen f missing d k s = elim (Option-cases (contents s d k)) [
    | inl gone ↦ ground (arith, read-missing p l s d k gone)
    | inr (v, there) ↦ ground (arith, read-found p l s d k v there)
  ]

  pub contents-load :
      {A : Type 0} (f : Bytes → Result SignalProtocolError A)
      (missing : Result SignalProtocolError A) (d k : Bytes) (s : p.Store) (d' k' : Bytes)
      → contents (load p f missing d k s).1 d' k' ≡ contents s d' k'
  unfolding load
  contents-load f missing d k s d' k' = contents-read p l s d k d' k'

  pub persist-ok : (d k v : Bytes) (s : p.Store) → (persist p d k v s).0 ≡ ok tt
  unfolding persist
  persist-ok d k v s = ground (arith, write-ok p l s d k v)

  pub contents-persist :
      (d k v : Bytes) (s : p.Store) (d' k' : Bytes)
      → contents (persist p d k v s).1 d' k'
        ≡ (if same_key d k d' k' then some v else contents s d' k')
  unfolding persist
  contents-persist d k v s d' k' = contents-write p l s d k v d' k'

  -- What is read back, under any key of any dictionary, behind a write.
  pub load-persist :
      {A : Type 0} (f : Bytes → Result SignalProtocolError A)
      (missing : Result SignalProtocolError A) (d k v d' k' : Bytes) (s : p.Store)
      → (load p f missing d' k' (persist p d k v s).1).0
        ≡ (if same_key d k d' k' then f v else (load p f missing d' k' s).0)
  load-persist f missing d k v d' k' s = ground (
    arith,
    load-seen f missing d' k' (persist p d k v s).1,
    load-seen f missing d' k' s,
    contents-persist d k v s d' k',
  )
