-- ===== src/Shell/Post.antt =====
-- `post` and `start_receive` of src/lib.rs. The clock's answer is an argument of `post`; the chat window
-- is the list of the calls on it.
use sigchat.Base.{
  ℕ, append_assoc, ◌%◌, ◌^◌, ◌≡◌, ◌≤◌, refl, ap, ◌∙◌, Bool, true, false, List, [], ◌∷◌, ◌++◌,
  Option, none, some, ok, Exec, pure, attempt, map_error, unwrap_or, ◌>>=◌, ◌>>◌, continue,
}
use sigchat.Text.{Bytes, codes, Lacks}
use sigchat.Text.Utf8.{is_utf8}
use sigchat.Io.{ErrorKind}
use sigchat.Pddb.{Pddb, PddbLaws}
use sigchat.Signal.{Addresses, AddressesLaws}
use sigchat.MainWs.World.{ChatCall, post_add, redraw}
use sigchat.Manager.Config.{Manager}
use sigchat.Manager.Config
use sigchat.Outgoing.Error.{OutgoingError}
use sigchat.Outgoing.Message.{Sender, EncryptedMessage, build_encrypted_message}
use sigchat.Outgoing.Peer.{
  current_recipient, set_current_recipient, current_recipient-set_current_recipient,
}

pub data WindowCall : Type 0 where
  set_busy_state : Bool → WindowCall
  set_status_text : Bytes → WindowCall
  chat : ChatCall → WindowCall

pub record Window (Store : Type 0) : Type 0 where
  pub db : Store
  pub calls : List WindowCall

-- The milliseconds since the epoch as a u64; `none` is a clock before the epoch.
unfoldable pub timestamp : Option ℕ → ℕ
timestamp now = unwrap_or now 0 % 2 ^ 64

module _ (p : Pddb) (ad : Addresses) (sender : Sender p.Store ad) where
  open p use {Store}

  abbrev pub call : WindowCall → Exec OutgoingError (Window Store) (Unit {0})
  call c w = (ok tt, record w { calls = w.calls ++ c ∷ [] })

  abbrev pub on_db : {A : Type 0} → Exec OutgoingError Store A → Exec OutgoingError (Window Store) A
  on_db m w = let (r, s) = m w.db in (r, record w { db = s })

  -- The two nested matches; each error is logged only.
  unfoldable pub encrypt_post : Bytes → ℕ → Exec OutgoingError Store EncryptedMessage
  encrypt_post text ts = do
    recipient ← current_recipient p ad
    build_encrypted_message p ad sender text ts recipient

  unfoldable pub post : Option ℕ → Bytes → Exec OutgoingError (Window Store) (Unit {0})
  post now text = do
    call (set_busy_state true)
    call (set_status_text (codes "sending..."))
    call (chat (post_add (codes "me") (timestamp now) text))
    call (chat redraw)
    attempt (on_db (encrypt_post text (timestamp now)))
    call (set_busy_state false)

-- `start_receive` of the shell; `none` is the window before it is connected.
module _ {Host Url S : Type 0} (host_text : Host → Bytes)
    (spawn : Bytes → ℕ → Bytes → Bytes → ℕ → Exec ErrorKind S (Unit {0})) where
  unfoldable pub start_receive : Option (Manager Host Url) → ℕ → Exec ErrorKind S Bool
  start_receive none chat_cid = pure false
  start_receive (some mgr) chat_cid = do
    map_error (λ _. ErrorKind.other) (Config.start_receive host_text spawn mgr chat_cid)
    pure true

module _ (p : Pddb) (ad : Addresses) (sender : Sender p.Store ad) where
  open p use {Store}
  open ad use {ProtocolAddress, name, device_id, device_u32}

  -- What the chat window is asked, in order.
  abbrev pub echoed : Option ℕ → Bytes → List WindowCall
  echoed now text =
      set_busy_state true
      ∷ set_status_text (codes "sending...")
      ∷ chat (post_add (codes "me") (timestamp now) text)
      ∷ chat redraw
      ∷ set_busy_state false
      ∷ []

  -- A post echoes the text locally, once, and leaves the window idle, whether or not it can be encrypted.
  post-echoed :
      (now : Option ℕ) (text : Bytes) (w : Window Store)
      → post p ad sender now text w ≡ (
        ok tt,
        record {
          db = (encrypt_post p ad sender text (timestamp now) w.db).1;
          calls = w.calls ++ echoed now text;
        },
      )
  unfolding post
  post-echoed now text w = simp (append_assoc) refl

  -- A post behind the setting of a recipient encrypts the text for that recipient, at the time of the
  -- clock, on the database as the reading of the recipient leaves it; the window gets the text once
  -- and ends idle, whatever the encryption returns. The recipient's name is a text without quotes, its
  -- device from 1 to 127.
  pub post-set_current_recipient :
      (l : PddbLaws p) (al : AddressesLaws ad) (now : Option ℕ) (text : Bytes) (a : ProtocolAddress)
      (s : Store) (calls : List WindowCall)
      → is_utf8 (name a) ≡ true
      → Lacks b'"' (name a)
      → 1 ≤ device_u32 (device_id a)
      → device_u32 (device_id a) ≤ 127
      → (let s1 = (set_current_recipient p ad a s).1 in
          post p ad sender now text (record { db = s1; calls = calls }) ≡ (
            ok tt,
            record {
              db =
                  (build_encrypted_message p ad sender text
                    (timestamp now)
                    a
                    (current_recipient p ad s1).1).1;
              calls = calls ++ echoed now text;
            },
          ))
  unfolding encrypt_post
  post-set_current_recipient l al now text a s calls u lacks lo hi =
      let s1 = (set_current_recipient p ad a s).1 in
      let read = (current_recipient-set_current_recipient p l ad al a s u lacks lo hi).1 in
      post-echoed now text (record { db = s1; calls = calls })
      ∙ ap
          (λ r. (
            ok tt,
            record {
              db =
                  (continue r (build_encrypted_message p ad sender text (timestamp now))
                    (current_recipient p ad s1).1).1;
              calls = calls ++ echoed now text;
            },
          ))
          read
