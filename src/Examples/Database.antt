-- ===== src/Examples/Database.antt =====
-- A database that answers every call, as an instance of the interface and its laws.
use sigchat.Base.{
  ◌≡◌, refl, Bool, true, false, [], Option, none, some, Result, ok, err, unwrap_or, arith,
  if◌then◌else◌, length, take,
}
use sigchat.Text.{Bytes, bytes_eq}
use sigchat.Io.{ErrorKind}
use sigchat.Pddb.{Pddb, PddbLaws, same_key, overlay}

abbrev pub Table : Type 0
Table = Bytes → Bytes → Option Bytes

abbrev put : Bytes → Bytes → Option Bytes → Table → Table
put d k v s d' k' = if same_key d k d' k' then v else s d' k'

abbrev open_found : Bytes × Bytes → Option Bytes → Result ErrorKind (Bytes × Bytes)
open_found h none = err ErrorKind.not_found
open_found h (some v) = ok h

abbrev pub database : Pddb
database = record {
  Store = Table;
  Handle = Bytes × Bytes;
  get = λ d k create s.
      if create
      then (ok (d, k), put d k (some (unwrap_or (s d k) [])) s)
      else (open_found (d, k) (s d k), s);
  read_to_end = λ h s. elim (s h.0 h.1) [ none ↦ (err ErrorKind.other, s) | some v ↦ (ok v, s) ];
  read =
      λ h n s. elim (s h.0 h.1) [ none ↦ (err ErrorKind.other, s) | some v ↦ (ok (take n v), s) ];
  write_all = λ h new s. elim (s h.0 h.1) [
    | none ↦ (err ErrorKind.other, s)
    | some v ↦ (ok tt, put h.0 h.1 (some (overlay new v)) s)
  ];
  write = λ h new s. elim (s h.0 h.1) [
    | none ↦ (err ErrorKind.other, s)
    | some v ↦ (ok (length new), put h.0 h.1 (some (overlay new v)) s)
  ];
  delete_key = λ d k s. elim (s d k) [
    | none ↦ (err ErrorKind.not_found, put d k none s)
    | some v ↦ (ok tt, put d k none s)
  ];
  delete_dict = λ d s. (ok tt, λ d' k'. if bytes_eq d d' then none else s d' k');
  sync = λ s. (ok tt, s);
}

found :
    (c : Bool) (s : Table) (d k v : Bytes) → s d k ≡ some v → (database.get d k c s).0 ≡ ok (d, k)
found true s d k v h = refl
found false s d k v h = ground (arith, h)

pub database_laws : PddbLaws database
database_laws = record {
  contents = λ s. s;
  key_at = λ d k. (d, k);
  get_found = λ s d k v c h. found c s d k v h;
  get_missing = λ s d k h. ground (arith, h);
  get_create = λ s d k. refl;
  contents_get = λ s d k d' k'. refl;
  contents_create = λ s d k d' k'. refl;
  read_to_end_at = λ s d k v h. ground (arith, h);
  contents_read_to_end = λ s h d' k'. ground arith;
  read_at = λ s d k v n h. ground (arith, h);
  contents_read = λ s h n d' k'. ground arith;
  write_all_at = λ s d k v new h. ground (arith, h);
  contents_write_all = λ s d k v new d' k' h. ground (arith, h);
  write_at = λ s d k v new h. ground (arith, h);
  contents_write = λ s d k v new d' k' h. ground (arith, h);
  delete_found = λ s d k v h. ground (arith, h);
  delete_missing = λ s d k h. ground (arith, h);
  contents_delete = λ s d k d' k'. ground arith;
  contents_sync = λ s d' k'. refl;
}

abbrev pub empty : Table
empty d k = none

pub empty_contents : (d k : Bytes) → database_laws.contents empty d k ≡ none
unfolding database_laws
empty_contents d k = refl
