-- ===== src/Stores/Session.antt =====
-- `PddbSessionStore` of src/manager/stores.rs.
use sigchat.Base.{◌≡◌, Option, none, some, ok, arith, Exec, lift, ◌>>=◌, if◌then◌else◌}
use sigchat.Text.{Bytes, bytes_eq_refl}
use sigchat.Pddb.{Pddb, PddbLaws}
use sigchat.Signal.{Addresses, AddressesLaws, Codec, CodecLaws, SignalProtocolError}
use sigchat.Stores.Keys.{address_key, same_address, address_key_eq}
use sigchat.Stores.Entry.{map_some, load, persist, load-persist, persist-ok}

module _ (p : Pddb) (dict : Bytes) (ad : Addresses) (codec : Codec) where
  open p use {Store}
  open codec use {Item}
  open ad use {ProtocolAddress}

  -- No session is no error.
  unfoldable pub load_session : ProtocolAddress → Exec SignalProtocolError Store (Option Item)
  load_session address =
      load p (λ buf. map_some (codec.deserialize buf)) (ok none) dict (address_key ad address)

  unfoldable pub store_session : ProtocolAddress → Item → Exec SignalProtocolError Store (Unit {0})
  store_session address item = do
    buf ← lift (codec.serialize item)
    persist p dict (address_key ad address) buf

module _ (p : Pddb) (l : PddbLaws p) (dict : Bytes) (ad : Addresses) (al : AddressesLaws ad)
    (codec : Codec) (cl : CodecLaws codec) where
  open p use {Store}
  open codec use {Item}
  open ad use {ProtocolAddress}

  -- A stored session is what is loaded for its address, and what is loaded for any other address,
  -- another device of the same name included, is as before; the session serializes.
  pub load_session-store_session :
      (s : Store) (address other : ProtocolAddress) (item : Item) (buf : Bytes)
      → codec.serialize item ≡ ok buf
      → ((store_session p dict ad codec address item s).0 ≡ ok tt)
        × ((load_session p dict ad codec other (store_session p dict ad codec address item s).1).0
            ≡ (if same_address ad address other
                then ok (some item)
                else (load_session p dict ad codec other s).0))
  unfolding load_session store_session
  load_session-store_session s address other item buf h = ground (
    arith,
    h,
    persist-ok p l dict (address_key ad address) buf s,
    load-persist p l (λ b. map_some (codec.deserialize b)) (ok none) dict (address_key ad address)
        buf dict (address_key ad other) s,
    address_key_eq ad al address other,
    bytes_eq_refl dict,
    cl.deserialize_serialize item buf h,
  )
