-- ===== src/Examples/Receive.antt =====
-- The theorems on the receive worker at concrete inputs.
use sigchat.Base.{◌≡◌, refl, Bool, true, false, [], ◌∷◌, Option, none, some, ok, arith}
use sigchat.Text.{Bytes, codes}
use sigchat.Outgoing.Padding.{signal_pad}
use sigchat.Outgoing.Peer.{current_recipient}
use sigchat.MainWs.Proto.{
  WsRequest, Envelope, Content, DataMessage, SentMessage, SyncMessage, Decoder,
}
use sigchat.MainWs.World.{World, post_add, redraw}
use sigchat.MainWs.Deliver.{deliver_content, deliver_sync_message}
use sigchat.MainWs.Deliver.Effects.{deliver_content-signal_pad}
use sigchat.MainWs.Deliver.Panics.{panic_of, deliver_sync_message-panics}
use sigchat.MainWs.Envelope.{
  Protocol, MessageType, trust_roots, open_sealed, dispatch_envelope, decrypt_signal,
}
use sigchat.MainWs.Envelope.Trust.{open_sealed_sound, dispatch_envelope-untrusted}
use sigchat.MainWs.Request.{handle_request}
use sigchat.MainWs.Request.Acks.{answer, sent-handle_request}
use sigchat.Examples.Database.{database, database_laws, empty}
use sigchat.Examples.Library.{Device, addresses, addresses_laws, bob, alice, bob_plain, bob_utf8}

abbrev data_message : Bytes → DataMessage
data_message body = record { body = some body; timestamp = none }

abbrev text : Bytes → Content
text body = record { data_message = some (data_message body); sync_message = none }

abbrev nothing : Content
nothing = record { data_message = none; sync_message = none }

abbrev sealed : Bytes → Envelope
sealed content = record {
  type_code = some 6;
  source_service_id = none;
  source_device = none;
  server_timestamp = some 9;
  content = some content;
}

abbrev plain : Envelope
plain = record {
  type_code = some 1;
  source_service_id = some (codes "bob");
  source_device = some 200;
  server_timestamp = some 9;
  content = some [];
}

-- A text is its own encoding; the empty one is a Content with nothing in it.
abbrev content_of : Bytes → Option Content
content_of [] = some nothing
content_of (c ∷ s) = some (text (c ∷ s))

abbrev pub decoder : Decoder
decoder = record { ws_message = λ b. none; envelope = λ b. some (sealed b); content = content_of }

abbrev plain_decoder : Decoder
plain_decoder = record { ws_message = λ b. none; envelope = λ b. some plain; content = content_of }

-- A seal that is open to read: a certificate is good or not, and the contents are as they stand.
abbrev pub protocol : Bool → Protocol database addresses
protocol good = record {
  Usmc = Bytes;
  SenderCert = Bytes;
  PublicKey = Bytes;
  PreKeyMessage = Bytes;
  SignalMessage = Bytes;
  base64_decode = λ b. some b;
  deserialize_key = λ b. some b;
  sealed_sender_decrypt_to_usmc = λ b s. (ok b, s);
  sender = λ u. ok u;
  validate_with_trust_roots = λ c roots ts. ok good;
  sender_uuid = λ c. ok (codes "bob");
  sender_device_id = λ c. ok (1, refl);
  msg_type = λ u. ok MessageType.whisper;
  contents = λ u. ok u;
  pre_key_message = λ b. ok b;
  signal_message = λ b. ok b;
  message_decrypt_prekey = λ m remote own s. (ok m, s);
  message_decrypt_signal = λ m remote s. (ok m, s);
}

abbrev pub world : World database
world = record { db = empty; chat = []; sent = [] }

abbrev hi : Bytes
hi = codes "hi"

deliver_content-signal_pad_example :
    ((deliver_content database addresses decoder (signal_pad hi) bob 5 world).0 ≡ ok tt)
    × ((deliver_content database addresses decoder (signal_pad hi) bob 5 world).1.chat
        ≡ post_add (codes "bob") 5 hi ∷ redraw ∷ [])
    × ((current_recipient database addresses
          (deliver_content database addresses decoder (signal_pad hi) bob 5 world).1.db).0
        ≡ ok bob)
deliver_content-signal_pad_example =
    deliver_content-signal_pad database database_laws addresses addresses_laws decoder hi hi
      (text hi) (data_message hi) bob 5 world refl refl refl refl bob_utf8 bob_plain (omega arith)
      (omega arith)

abbrev to : Bytes → SentMessage
to dest = record {
  destination_service_id = some dest;
  timestamp = some 7;
  message = some (data_message hi);
}

abbrev sync : Bytes → SyncMessage
sync dest = record { sent = some (to dest) }

-- Seven letters, then a letter of two bytes.
abbrev umlaut : Bytes
umlaut = 97 ∷ 97 ∷ 97 ∷ 97 ∷ 97 ∷ 97 ∷ 97 ∷ 0xc3 ∷ 0xa4 ∷ []

deliver_sync_message-panics_example :
    panic_of database (deliver_sync_message database (sync umlaut) 5 world) ≡ some world
deliver_sync_message-panics_example = deliver_sync_message-panics database (sync umlaut) 5 world

dispatch_envelope-untrusted_example :
    dispatch_envelope database addresses (protocol false) decoder hi alice world ≡ (ok tt, world)
dispatch_envelope-untrusted_example =
    dispatch_envelope-untrusted database addresses (protocol false) decoder hi hi (sealed hi) alice
      world hi hi empty refl refl refl refl refl (λ e. cc)

abbrev request : WsRequest
request = record {
  verb = some (codes "PUT");
  path = some (codes "/api/v1/message");
  body = some hi;
  id = some 12;
  headers = [];
}

open_sealed_sound_example :
    (usmc : Bytes) × (cert : Bytes) × (uuid : Bytes) × (device : Device) × (((protocol
          true).sealed_sender_decrypt_to_usmc
        hi empty).0
      ≡ ok usmc)
    × ((protocol true).sender usmc ≡ ok cert)
    × ((protocol true).validate_with_trust_roots cert
          (trust_roots database addresses (protocol true))
          9
        ≡ ok true)
    × ((protocol true).sender_uuid cert ≡ ok uuid)
    × ((protocol true).sender_device_id cert ≡ ok device)
    × (bob ≡ addresses.address_new uuid device)
unfolding open_sealed decrypt_signal
open_sealed_sound_example =
    open_sealed_sound database addresses (protocol true) hi alice 9 empty bob hi refl

sent-handle_request_example :
    (handle_request database addresses (protocol false) decoder request alice world).1.sent
    ≡ answer database addresses
        (protocol false)
        decoder
        (handle_request database addresses (protocol false) decoder request alice world).0
        (some 12)
sent-handle_request_example =
    sent-handle_request database addresses (protocol false) decoder request alice world
