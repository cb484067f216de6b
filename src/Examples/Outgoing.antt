-- ===== src/Examples/Outgoing.antt =====
-- The theorems on outgoing messages at concrete inputs.
use sigchat.Base.{true, false, ℕ, ◌≡◌, [], ◌∷◌, Option, none, some, ok, arith}
use sigchat.Text.{Bytes, codes}
use sigchat.Outgoing.Padding.{signal_pad, strip_signal_padding, strip_signal_padding-signal_pad}
use sigchat.Outgoing.Peer.{
  set_current_recipient, current_recipient, current_recipient-set_current_recipient,
}
use sigchat.Outgoing.Message.{Sender, signal_message, build_encrypted_message}
use sigchat.MainWs.Proto.{Content}
use sigchat.MainWs.World.{post_add, redraw}
use sigchat.Shell.Post.{
  set_busy_state, set_status_text, chat, timestamp, post, post-set_current_recipient,
}
use sigchat.Examples.Database.{Table, database, database_laws, empty}
use sigchat.Examples.Library.{addresses, addresses_laws, bob, bob_plain, bob_utf8}

abbrev text_of : Option Bytes → Bytes
text_of none = []
text_of (some b) = b

abbrev body_of : Content → Bytes
body_of c = elim c.data_message [ none ↦ [] | some dm ↦ text_of dm.body ]

-- A state that says whether there is a session, and an encryption that changes nothing.
abbrev sender : Sender Table addresses
sender = record {
  SessionRecord = ℕ;
  load_session = λ a s. (ok (elim (s (codes "session") a.0) [ none ↦ none | some b ↦ some 42 ]), s);
  remote_registration_id = λ r. ok r;
  message_encrypt = λ b remote own s. (ok (signal_message b), s);
  encode_to_vec = body_of;
}

abbrev with_session : Table
with_session d k = some []

strip_signal_padding-signal_pad_example :
    strip_signal_padding (signal_pad (1 ∷ 0x80 ∷ 0 ∷ [])) ≡ 1 ∷ 0x80 ∷ 0 ∷ []
strip_signal_padding-signal_pad_example = strip_signal_padding-signal_pad (1 ∷ 0x80 ∷ 0 ∷ [])

current_recipient-set_current_recipient_example :
    ((set_current_recipient database addresses bob empty).0 ≡ ok tt)
    × ((current_recipient database addresses
          (set_current_recipient database addresses bob empty).1).0
        ≡ ok bob)
current_recipient-set_current_recipient_example =
    current_recipient-set_current_recipient database database_laws addresses addresses_laws bob
      empty bob_utf8 bob_plain (omega arith) (omega arith)

-- Every key holds a one: the account has an id and a device, and there is a session.
abbrev ones : Table
ones d k = some (codes "1")

post-set_current_recipient_example :
    (let s1 = (set_current_recipient database addresses bob ones).1 in
      post database addresses sender (some 7) (codes "hi") (record { db = s1; calls = [] }) ≡ (
        ok tt,
        record {
          db =
              (build_encrypted_message database addresses sender
                (codes "hi")
                7
                bob
                (current_recipient database addresses s1).1).1;
          calls =
              set_busy_state true
              ∷ set_status_text (codes "sending...")
              ∷ chat (post_add (codes "me") 7 (codes "hi"))
              ∷ chat redraw
              ∷ set_busy_state false
              ∷ [];
        },
      ))
unfolding timestamp
post-set_current_recipient_example =
    post-set_current_recipient database addresses sender database_laws addresses_laws (some 7)
      (codes "hi") bob ones [] bob_utf8 bob_plain (omega arith) (omega arith)
