-- ===== src/MainWs/Deliver/Effects.antt =====
-- What delivering a decrypted message changes.
use sigchat.Base.{
  ℕ, ◌≤◌, ◌≡◌, [], ◌∷◌, ◌++◌, append_assoc, true, false, none, some, ok, unwrap_or, arith,
}
use sigchat.Text.{Bytes, Lacks}
use sigchat.Text.Utf8.{is_utf8}
use sigchat.Pddb.{Pddb, PddbLaws}
use sigchat.Signal.{Addresses, AddressesLaws}
use sigchat.Outgoing.Padding.{signal_pad, strip_signal_padding, strip_signal_padding-signal_pad}
use sigchat.Outgoing.Peer.{current_recipient, current_recipient-set_current_recipient}
use sigchat.MainWs.Proto.{DataMessage, Content, Decoder}
use sigchat.MainWs.World.{World, post_add, redraw}
use sigchat.MainWs.Deliver.{is_empty, deliver_data_message, deliver_sync_message, deliver_content}

module _ (p : Pddb) (ad : Addresses) (decoder : Decoder) where
  open ad use {ProtocolAddress, name, device_id, device_u32}

  -- Delivery hands nothing to the websocket.
  pub sent-deliver_content :
      (plaintext : Bytes) (a : ProtocolAddress) (ts : ℕ) (w : World p)
      → (deliver_content p ad decoder plaintext a ts w).1.sent ≡ w.sent
  unfolding deliver_content deliver_data_message deliver_sync_message
  sent-deliver_content plaintext a ts w = ground arith

  -- A message that was sent from another device of the account, or has no part to show, leaves the
  -- database as it is; so the recipient of replies too.
  pub db-deliver_content :
      (plaintext : Bytes) (a : ProtocolAddress) (ts : ℕ) (w : World p) (content : Content)
      → decoder.content (strip_signal_padding plaintext) ≡ some content
      → content.data_message ≡ none
      → (deliver_content p ad decoder plaintext a ts w).1.db ≡ w.db
  unfolding deliver_content deliver_sync_message
  db-deliver_content plaintext a ts w content decoded sync = ground arith

module _ (p : Pddb) (l : PddbLaws p) (ad : Addresses) (al : AddressesLaws ad)
    (decoder : Decoder) where
  open ad use {ProtocolAddress, name, device_id, device_u32}

  -- The encoding of a DataMessage with a body, padded as the sender pads it, is shown once under the
  -- sender's name with its own timestamp (or the server's), followed by one redraw; nothing is sent,
  -- and the sender becomes the current recipient.
  pub deliver_content-signal_pad :
      (encoded body : Bytes) (content : Content) (dm : DataMessage) (a : ProtocolAddress) (ts : ℕ)
      (w : World p)
      → decoder.content encoded ≡ some content
      → content.data_message ≡ some dm
      → dm.body ≡ some body
      → is_empty body ≡ false
      → is_utf8 (name a) ≡ true
      → Lacks b'"' (name a)
      → 1 ≤ device_u32 (device_id a)
      → device_u32 (device_id a) ≤ 127
      → ((deliver_content p ad decoder (signal_pad encoded) a ts w).0 ≡ ok tt)
        × ((deliver_content p ad decoder (signal_pad encoded) a ts w).1.chat
            ≡ w.chat ++ post_add (name a) (unwrap_or dm.timestamp ts) body ∷ redraw ∷ [])
        × ((current_recipient p ad
              (deliver_content p ad decoder (signal_pad encoded) a ts w).1.db).0
            ≡ ok a)
  unfolding deliver_content deliver_data_message
  deliver_content-signal_pad encoded body content dm a ts w decoded data_part has_body full u q lo
        hi =
      ground (
        arith,
        strip_signal_padding-signal_pad encoded,
        current_recipient-set_current_recipient p l ad al a w.db u q lo hi,
        append_assoc w.chat (post_add (name a) (unwrap_or dm.timestamp ts) body ∷ []) (redraw ∷ []),
      )
