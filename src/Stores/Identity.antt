-- ===== src/Stores/Identity.antt =====
-- `save_identity`, `is_trusted_identity` and `get_identity` of `PddbIdentityStore` in
-- src/manager/stores.rs: trust on first use.
use sigchat.Base.{
  ◌≡◌, ◌↔◌, ap, Bool, true, false, Option, none, some, Result, ok, err, arith, Exec, pure, raise,
  ◌>>◌, if◌then◌else◌, Option-cases, inl, inr,
}
use sigchat.Text.{Bytes, codes, bytes_eq_refl, bytes_eq_iff}
use sigchat.Io.{ErrorKind, is_not_found}
use sigchat.Pddb.{Pddb, PddbLaws}
use sigchat.Signal.{Addresses, AddressesLaws, SignalProtocolError}
use sigchat.Stores.Binary.{pddb_read_binary, read-found, read-missing, contents-read}
use sigchat.Stores.Keys.{address_key, same_address, address_key_eq}
use sigchat.Stores.Entry.{
  io_err_to_signal, map_some, load, persist, load-seen, load-persist, persist-ok,
}

-- `IdentityKey` of libsignal, with its `==`.
pub record IdentityKeys : Type 1 where
  pub IdentityKey : Type 0
  pub serialize : IdentityKey → Bytes
  pub decode : Bytes → Result SignalProtocolError IdentityKey
  pub eq : IdentityKey → IdentityKey → Bool

pub record IdentityKeysLaws (k : IdentityKeys) : Type 0 where
  pub decode_serialize : (x : k.IdentityKey) → k.decode (k.serialize x) ≡ ok x
  pub eq_iff : (x y : k.IdentityKey) → (k.eq x y ≡ true) ↔ (x ≡ y)

pub data IdentityChange : Type 0 where
  new_or_unchanged replaced_existing : IdentityChange

module _ (ik : IdentityKeys) where
  -- `Ok(existing) if existing == *identity`
  abbrev is_same : ik.IdentityKey → Result SignalProtocolError ik.IdentityKey → Bool
  is_same identity (ok existing) = ik.eq existing identity
  is_same identity (err e) = false

  abbrev trust :
      ik.IdentityKey → Result SignalProtocolError ik.IdentityKey → Result SignalProtocolError Bool
  trust identity (ok existing) = ok (ik.eq existing identity)
  trust identity (err e) = err e

module _ (p : Pddb) (dict : Bytes) (ad : Addresses) (ik : IdentityKeys) where
  open p use {Store}
  open ad use {ProtocolAddress}
  open ik use {IdentityKey}

  overwrite :
      ProtocolAddress → IdentityKey → IdentityChange → Exec SignalProtocolError Store IdentityChange
  overwrite address identity change = do
    persist p dict (address_key ad address) (ik.serialize identity)
    pure change

  save_over :
      ProtocolAddress
      → IdentityKey
      → Result ErrorKind Bytes
      → Exec SignalProtocolError Store IdentityChange
  save_over address identity (ok existing_bytes) =
      if is_same ik identity (ik.decode existing_bytes)
      then pure IdentityChange.new_or_unchanged
      else overwrite address identity IdentityChange.replaced_existing
  save_over address identity (err e) =
      if is_not_found e
      then overwrite address identity IdentityChange.new_or_unchanged
      else raise (io_err_to_signal (codes "read failed") e)

  unfoldable pub save_identity :
      ProtocolAddress → IdentityKey → Exec SignalProtocolError Store IdentityChange
  unfolding save_over overwrite
  save_identity address identity s =
      let (r, s') = pddb_read_binary p dict (address_key ad address) s in
      save_over address identity r s'

  -- An address that has no key yet trusts any.
  unfoldable pub is_trusted_identity :
      ProtocolAddress → IdentityKey → Exec SignalProtocolError Store Bool
  is_trusted_identity address identity =
      load p (λ buf. trust ik identity (ik.decode buf)) (ok true) dict (address_key ad address)

  unfoldable pub get_identity :
      ProtocolAddress → Exec SignalProtocolError Store (Option IdentityKey)
  get_identity address =
      load p (λ buf. map_some (ik.decode buf)) (ok none) dict (address_key ad address)

module _ (ik : IdentityKeys) (il : IdentityKeysLaws ik) where
  is_same-eq :
      (identity : ik.IdentityKey) (r : Result SignalProtocolError ik.IdentityKey)
      → is_same ik identity r ≡ true
      → r ≡ ok identity
  is_same-eq identity (ok existing) h = ap ok ((il.eq_iff existing identity).0 h)
  is_same-eq identity (err e) h = cc

-- The answer of `is_trusted_identity` is yes.
abbrev pub says_yes : Result SignalProtocolError Bool → Bool
says_yes (ok b) = b
says_yes (err e) = false

module _ (p : Pddb) (l : PddbLaws p) (dict : Bytes) (ad : Addresses) (al : AddressesLaws ad)
    (ik : IdentityKeys) (il : IdentityKeysLaws ik) where
  open p use {Store}
  open ad use {ProtocolAddress}
  open ik use {IdentityKey}

  -- Saving an identity reports a replacement exactly where the identity was not trusted before.
  pub save_identity-is_trusted_identity :
      (s : Store) (address : ProtocolAddress) (identity : IdentityKey)
      → (save_identity p dict ad ik address identity s).0
        ≡ ok (
            if says_yes (is_trusted_identity p dict ad ik address identity s).0
            then IdentityChange.new_or_unchanged
            else IdentityChange.replaced_existing)
  unfolding save_identity is_trusted_identity
  save_identity-is_trusted_identity s address identity =
      let k = address_key ad address in
      let read = (pddb_read_binary p dict k s).1 in
      let wrote = persist-ok p l dict k (ik.serialize identity) read in
      let trusts = load-seen p l (λ buf. trust ik identity (ik.decode buf)) (ok true) dict k s in
      elim (Option-cases (l.contents s dict k)) [
        | inl gone ↦ ground (arith, read-missing p l s dict k gone, wrote, trusts, gone)
        | inr (v, there) ↦ ground (arith, read-found p l s dict k v there, wrote, trusts, there)
      ]

  -- After a save, the identity of its address is the saved one, and that of every other address, another
  -- device of the same name included, is as before.
  pub get_identity-save_identity :
      (s : Store) (address : ProtocolAddress) (identity : IdentityKey) (other : ProtocolAddress)
      → (get_identity p dict ad ik other (save_identity p dict ad ik address identity s).1).0 ≡ (
          if same_address ad address other
          then ok (some identity)
          else (get_identity p dict ad ik other s).0)
  unfolding save_identity get_identity
  get_identity-save_identity s address identity other =
      let k = address_key ad address in
      let read = (pddb_read_binary p dict k s).1 in
      let decoded = λ (buf : Bytes). map_some (ik.decode buf) in
      let j = address_key ad other in
      let before = load-seen p l decoded (ok none) dict j s in
      let kept = load-seen p l decoded (ok none) dict j read in
      let wrote = load-persist p l decoded (ok none) dict k (ik.serialize identity) dict j read in
      let okay = persist-ok p l dict k (ik.serialize identity) read in
      let same = contents-read p l s dict k dict j in
      elim (Option-cases (l.contents s dict k)) [
        | inl gone ↦ ground (
          arith,
          read-missing p l s dict k gone,
          before,
          kept,
          wrote,
          okay,
          same,
          gone,
          address_key_eq ad al address other,
          bytes_eq_refl dict,
          il.decode_serialize identity,
        )
        | inr (v, there) ↦ ground (
          arith,
          read-found p l s dict k v there,
          before,
          kept,
          wrote,
          okay,
          same,
          there,
          address_key_eq ad al address other,
          bytes_eq_refl dict,
          il.decode_serialize identity,
          bytes_eq_iff k j,
          is_same-eq ik il identity (ik.decode v),
        )
      ]

  -- What `is_trusted_identity` makes of the identity that `get_identity` finds.
  abbrev judged :
      IdentityKey
      → Result SignalProtocolError (Option IdentityKey)
      → Result SignalProtocolError Bool
  judged identity (ok none) = ok true
  judged identity (ok (some known)) = ok (ik.eq known identity)
  judged identity (err e) = err e

  is_trusted_identity-get_identity :
      (s : Store) (address : ProtocolAddress) (identity : IdentityKey)
      → (is_trusted_identity p dict ad ik address identity s).0
        ≡ judged identity (get_identity p dict ad ik address s).0
  unfolding is_trusted_identity get_identity
  is_trusted_identity-get_identity s address identity =
      let k = address_key ad address in
      ground (
        arith,
        load-seen p l (λ buf. trust ik identity (ik.decode buf)) (ok true) dict k s,
        load-seen p l (λ buf. map_some (ik.decode buf)) (ok none) dict k s,
      )

  -- After a save, its address trusts exactly the saved identity, and every other address trusts what it
  -- trusted before.
  pub is_trusted_identity-save_identity :
      (s : Store) (address other : ProtocolAddress) (identity offered : IdentityKey)
      → (is_trusted_identity p dict ad ik other offered
          (save_identity p dict ad ik address identity s).1).0
        ≡ (if same_address ad address other
            then ok (ik.eq identity offered)
            else (is_trusted_identity p dict ad ik other offered s).0)
  is_trusted_identity-save_identity s address other identity offered = ground (
    arith,
    is_trusted_identity-get_identity s other offered,
    is_trusted_identity-get_identity (save_identity p dict ad ik address identity s).1 other
        offered,
    get_identity-save_identity s address identity other,
  )
