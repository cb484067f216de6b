-- ===== src/MainWs/Deliver.antt =====
-- `deliver_content`, `deliver_data_message` and `deliver_sync_message` of src/manager/main_ws.rs.
pub mod Effects
pub mod Panics
use sigchat.Base.{
  ℕ, min, Bool, true, false, [], ◌∷◌, ◌++◌, Option, none, some, unwrap_or, pure, raise, ◌>>=◌, ◌>>◌,
  if◌then◌else◌, length,
}
use sigchat.Text.{Bytes}
use sigchat.Text.Utf8.{slice_to}
use sigchat.Pddb.{Pddb}
use sigchat.Signal.{Addresses}
use sigchat.Outgoing.Padding.{strip_signal_padding}
use sigchat.Outgoing.Peer.{set_current_recipient}
use sigchat.MainWs.Proto.{DataMessage, SentMessage, SyncMessage, Content, Decoder}
use sigchat.MainWs.World.{Run, post_add, redraw, not_char_boundary, call_chat, on_db}

abbrev pub is_empty : Bytes → Bool
is_empty [] = true
is_empty (c ∷ s) = false

-- The three bytes of U+2192.
abbrev pub arrow : Bytes
arrow = 0xe2 ∷ 0x86 ∷ 0x92 ∷ []

module _ (p : Pddb) where
  unfoldable pub deliver_data_message : DataMessage → Bytes → ℕ → Run p Bool
  deliver_data_message dm author server_ts =
      let body = unwrap_or dm.body [] in
      if is_empty body
      then pure false
      else do call_chat p (post_add author (unwrap_or dm.timestamp server_ts) body); pure true

  -- `&dest[..dest.len().min(8)]`
  abbrev prefix : Option Bytes → Run p Bytes
  prefix none = raise not_char_boundary
  prefix (some s) = pure s

  abbrev sync_body : SentMessage → DataMessage → ℕ → Run p Bool
  sync_body sent dm server_ts =
      let dest = unwrap_or sent.destination_service_id [] in
      let body = unwrap_or dm.body [] in
      let ts = unwrap_or dm.timestamp (unwrap_or sent.timestamp server_ts) in
      if is_empty body then pure false else do
        shown ← prefix (slice_to dest (min (length dest) 8))
        call_chat p (post_add (arrow ++ shown) ts body)
        pure true

  abbrev sync_message : SentMessage → Option DataMessage → ℕ → Run p Bool
  sync_message sent none server_ts = pure false
  sync_message sent (some dm) server_ts = sync_body sent dm server_ts

  abbrev sync_sent : Option SentMessage → ℕ → Run p Bool
  sync_sent none server_ts = pure false
  sync_sent (some sent) server_ts = sync_message sent sent.message server_ts

  unfoldable pub deliver_sync_message : SyncMessage → ℕ → Run p Bool
  deliver_sync_message sync server_ts = sync_sent sync.sent server_ts

  module _ (ad : Addresses) where
    open ad use {ProtocolAddress, name}

    -- A peer whose message was shown becomes the recipient of replies; failing to save it is logged.
    abbrev remember : ProtocolAddress → Bool → Run p Bool
    remember remote_addr true = do on_db p (set_current_recipient p ad remote_addr); pure true
    remember remote_addr false = pure false

    abbrev deliver_parts :
        Option DataMessage → Option SyncMessage → ProtocolAddress → ℕ → Run p Bool
    deliver_parts (some dm) sync remote_addr server_ts = do
      was_delivered ← deliver_data_message dm (name remote_addr) server_ts
      remember remote_addr was_delivered
    deliver_parts none (some sync) remote_addr server_ts = deliver_sync_message sync server_ts
    deliver_parts none none remote_addr server_ts = pure false

    abbrev redraw_if : Bool → Run p (Unit {0})
    redraw_if true = call_chat p redraw
    redraw_if false = pure tt

    abbrev deliver_decoded : Option Content → ProtocolAddress → ℕ → Run p (Unit {0})
    deliver_decoded none remote_addr server_ts = pure tt
    deliver_decoded (some content) remote_addr server_ts = do
      delivered ← deliver_parts content.data_message content.sync_message remote_addr server_ts
      redraw_if delivered

    unfoldable pub deliver_content : Decoder → Bytes → ProtocolAddress → ℕ → Run p (Unit {0})
    deliver_content decoder plaintext remote_addr server_ts =
        deliver_decoded (decoder.content (strip_signal_padding plaintext)) remote_addr server_ts
