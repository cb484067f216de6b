-- ===== src/Outgoing/Peer.antt =====
-- The current recipient and the local address of src/manager/outgoing.rs, over the database.
use sigchat.Base.{
  ℕ, ◌≡◌, ◌≤◌, refl, ltb, [], ◌∷◌, ◌++◌, All, true, false, Option, none, some, Result, ok, err,
  ok_or, arith, Exec, pure, lift, attempt, map_error, ◌>>=◌, ◌>>◌,
}
use sigchat.Text.{Bytes, codes, Lacks, bytes_eq_refl}
use sigchat.Text.Decimal.{show, parse_u32, IsDigit, All-show}
use sigchat.Text.Utf8.{is_utf8, from_utf8, is_utf8-append, is_utf8-ascii}
use sigchat.Io.{ErrorKind}
use sigchat.Pddb.{Pddb, PddbLaws}
use sigchat.Signal.{Addresses, AddressesLaws}
use sigchat.Stores.Binary.{pddb_write_binary, contents-write, write-ok}
use sigchat.Outgoing.Error.{OutgoingError, pddb, no_recipient, no_local_account}
use sigchat.Outgoing.Payload.{
  checked_device, parse_peer_json, peer_payload, parse_peer_json-peer_payload,
}

abbrev pub account_dict : Bytes
account_dict = codes "sigchat.account"

abbrev pub dialogue_dict : Bytes
dialogue_dict = codes "sigchat.dialogue"

abbrev pub default_peer_key : Bytes
default_peer_key = codes "default.peer"

abbrev utf8_of : Result ErrorKind Bytes → Option Bytes
utf8_of (ok buf) = from_utf8 buf
utf8_of (err e) = none

module _ (p : Pddb) where
  open p use {Store, Handle}

  abbrev read_all : Result ErrorKind Handle → Store → Option Bytes × Store
  read_all (ok handle) s = let (r, s') = p.read_to_end handle s in (utf8_of r, s')
  read_all (err e) s = (none, s)

  unfoldable pub pddb_get_string : Bytes → Bytes → Store → Option Bytes × Store
  pddb_get_string dict key s = let (r, s') = p.get dict key false s in read_all r s'

  module _ (ad : Addresses) where
    open ad use {ProtocolAddress, address_new}

    unfoldable pub set_current_recipient : ProtocolAddress → Exec OutgoingError Store (Unit {0})
    set_current_recipient remote_addr = do
      attempt (p.delete_key dialogue_dict default_peer_key)
      h ← map_error (λ _. pddb (codes "get")) (p.get dialogue_dict default_peer_key true)
      map_error (λ _. pddb (codes "write")) (p.write_all h (peer_payload ad remote_addr))
      attempt p.sync
      pure tt

    abbrev recipient_of : Option Bytes → Result OutgoingError ProtocolAddress
    recipient_of none = err no_recipient
    recipient_of (some raw) = parse_peer_json ad raw

    unfoldable pub current_recipient : Exec OutgoingError Store ProtocolAddress
    current_recipient s =
        let (raw, s') = pddb_get_string dialogue_dict default_peer_key s in (recipient_of raw, s')

    -- `Option` in the place of an error, `key` read from the account
    abbrev account_value : Bytes → Bytes → Exec OutgoingError Store Bytes
    account_value key missing s =
        let (v, s') = pddb_get_string account_dict key s in (ok_or v (no_local_account missing), s')

    unfoldable pub local_protocol_address : Exec OutgoingError Store ProtocolAddress
    local_protocol_address = do
      aci ← account_value (codes "aci.service_id") (codes "aci.service_id missing")
      dev_str ← account_value (codes "device_id") (codes "device_id missing")
      dev_id ← lift (ok_or (parse_u32 dev_str) (no_local_account (codes "device_id parse")))
      dev ← lift (checked_device ad no_local_account dev_id)
      pure (address_new aci dev)

ascii_digits : (s : Bytes) → All IsDigit s → All (λ c. ltb c 0x80 ≡ true) s
ascii_digits [] _ = tt
ascii_digits (c ∷ s) (hc, hs) = (ground arith, ascii_digits s hs)

is_utf8-show : (n : ℕ) → is_utf8 (show n) ≡ true
is_utf8-show n = is_utf8-ascii (show n) (ascii_digits (show n) (All-show n))

module _ (p : Pddb) (l : PddbLaws p) (ad : Addresses) (al : AddressesLaws ad) where
  open p use {Store}
  open ad use {ProtocolAddress, name, device_id, device_u32}

  -- The same calls as `pddb_write_binary`, so the same state behind them.
  set_current_recipient-state :
      (a : ProtocolAddress) (s : Store)
      → (set_current_recipient p ad a s).1
        ≡ (pddb_write_binary p dialogue_dict default_peer_key (peer_payload ad a) s).1
  unfolding set_current_recipient pddb_write_binary
  set_current_recipient-state a s = ground arith

  pub set_current_recipient-ok :
      (a : ProtocolAddress) (s : Store) → (set_current_recipient p ad a s).0 ≡ ok tt
  unfolding set_current_recipient pddb_write_binary
  set_current_recipient-ok a s =
      ground (arith, write-ok p l s dialogue_dict default_peer_key (peer_payload ad a))

  pub contents-set_current_recipient :
      (a : ProtocolAddress) (s : Store)
      → l.contents (set_current_recipient p ad a s).1 dialogue_dict default_peer_key
        ≡ some (peer_payload ad a)
  contents-set_current_recipient a s = rw (set_current_recipient-state a s) (
      ground (
        arith,
        contents-write p l s dialogue_dict default_peer_key (peer_payload ad a) dialogue_dict
            default_peer_key,
        bytes_eq_refl dialogue_dict,
        bytes_eq_refl default_peer_key,
      ))

  is_utf8-peer_payload :
      (a : ProtocolAddress) → is_utf8 (name a) ≡ true → is_utf8 (peer_payload ad a) ≡ true
  unfolding peer_payload
  is_utf8-peer_payload a h =
      let n = device_u32 (device_id a) in
      let middle = codes "\",\"device_id\":" in
      is_utf8-append (codes "{\"uuid\":\"") (name a ++ (middle ++ (show n ++ codes "}")))
        (unfold is_utf8 in refl)
        (is_utf8-append (name a) (middle ++ (show n ++ codes "}")) h (
          is_utf8-append middle (show n ++ codes "}") (unfold is_utf8 in refl)
            (is_utf8-append (show n) (codes "}") (is_utf8-show n) (unfold is_utf8 in refl))))

  get_string-found :
      (s : Store) (d k v : Bytes)
      → l.contents s d k ≡ some v
      → is_utf8 v ≡ true
      → (pddb_get_string p d k s).0 ≡ some v
  unfolding pddb_get_string from_utf8
  get_string-found s d k v h u = ground (
    arith,
    l.get_found s d k v false h,
    l.contents_get s d k d k,
    l.read_to_end_at (p.get d k false s).1 d k v,
    u,
  )

  -- The recipient that was set is the current recipient: its name is a text without quotes, its device
  -- from 1 to 127.
  pub current_recipient-set_current_recipient :
      (a : ProtocolAddress) (s : Store)
      → is_utf8 (name a) ≡ true
      → Lacks b'"' (name a)
      → 1 ≤ device_u32 (device_id a)
      → device_u32 (device_id a) ≤ 127
      → ((set_current_recipient p ad a s).0 ≡ ok tt)
        × ((current_recipient p ad (set_current_recipient p ad a s).1).0 ≡ ok a)
  unfolding current_recipient
  current_recipient-set_current_recipient a s u lacks lo hi =
      let after = (set_current_recipient p ad a s).1 in
      ground (
        arith,
        set_current_recipient-ok a s,
        get_string-found after dialogue_dict default_peer_key (peer_payload ad a)
            (contents-set_current_recipient a s) (is_utf8-peer_payload a u),
        parse_peer_json-peer_payload ad al a lacks lo hi,
      )
