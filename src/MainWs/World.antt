-- ===== src/MainWs/World.antt =====
-- What the receive worker changes: the database, the chat window and the websocket.
use sigchat.Base.{ℕ, List, [], ◌∷◌, ◌++◌, ok, Result, Exec}
use sigchat.Text.{Bytes}
use sigchat.Pddb.{Pddb}
use sigchat.MainWs.Proto.{WsMessage}

-- The calls on the chat server: `cf_post_add(author, ts, body)` and `cf_redraw`.
pub data ChatCall : Type 0 where
  post_add : Bytes → ℕ → Bytes → ChatCall
  redraw : ChatCall

-- What is handed to `ws.send`; a Binary frame is kept as the message that it encodes.
pub data Frame : Type 0 where
  ping : Frame
  binary : WsMessage → Frame

-- A slice of a text at a byte inside a character.
pub data Panic : Type 0 where
  not_char_boundary : Panic

pub record World (p : Pddb) : Type 0 where
  pub db : p.Store
  pub chat : List ChatCall
  pub sent : List Frame

module _ (p : Pddb) where
  -- Code of the worker: it changes the world, and panics or returns.
  abbrev pub Run : Type 0 → Type 0
  Run A = Exec Panic (World p) A

  abbrev pub call_chat : ChatCall → Run (Unit {0})
  call_chat c w = (ok tt, record w { chat = w.chat ++ c ∷ [] })

  abbrev pub send : Frame → Run (Unit {0})
  send f w = (ok tt, record w { sent = w.sent ++ f ∷ [] })

  -- Code over the database alone, its result handed on.
  abbrev pub on_db : {E A : Type 0} → Exec E p.Store A → Run (Result E A)
  on_db m w = let (r, s) = m w.db in (ok r, record w { db = s })
