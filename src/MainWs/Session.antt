-- ===== src/MainWs/Session.antt =====
-- `run_session` of src/manager/main_ws.rs: one connection, round after round. What the clock, the
-- socket and the server answer in a round is the round's input.
pub mod Keepalive
pub mod Counted
pub mod Ids
use sigchat.Base.{
  ℕ, ◌+◌, ◌-◌, ◌%◌, ◌^◌, Bool, true, false, List, [], ◌∷◌, ◌++◌, Option, none, some, Result, ok,
  err, leb, ◌==◌, if◌then◌else◌,
}
use sigchat.Text.{Bytes, codes}
use sigchat.Io.{ErrorKind}
use sigchat.Pddb.{Pddb}
use sigchat.Signal.{Addresses}
use sigchat.MainWs.Proto.{WsRequest, WsMessage, Decoder, ws_type_request}
use sigchat.MainWs.World.{World, Panic, Frame, ping, binary}
use sigchat.MainWs.Envelope.{Protocol}
use sigchat.MainWs.Request.{handle_request}

abbrev pub keepalive_ms : ℕ
keepalive_ms = 25000

abbrev pub app_keepalive_ms : ℕ
app_keepalive_ms = 55000

-- `tungstenite::Error`: an io error, or another.
pub data WsError : Type 0 where
  io : ErrorKind → WsError
  protocol : WsError

unfoldable pub is_timeout : WsError → Bool
is_timeout (io ErrorKind.would_block) = true
is_timeout (io ErrorKind.timed_out) = true
is_timeout _ = false

-- What `ws.read()` returns; the frames that carry nothing for the program are one case.
pub data Read : Type 0 where
  binary_frame : Bytes → Read
  ignored_frame : Read
  close_frame : Read
  read_error : WsError → Read

-- What `ws.send(…)` returns, with the clock's next reading behind a success.
pub data Sent : Type 0 where
  sent_at : ℕ → Sent
  send_failed : Sent

-- One round: the clock at each of the two tests, what the sends return, and what is read.
pub record Round : Type 0 where
  pub ping_check : ℕ
  pub ping_sent : Sent
  pub app_check : ℕ
  pub app_sent : Sent
  pub read : Read

-- The local variables of the loop.
pub record Timers : Type 0 where
  pub last_ping_ms : ℕ
  pub next_request_id : ℕ
  pub last_app_keepalive_ms : ℕ

-- The two clock readings on entry.
unfoldable pub enter : ℕ → ℕ → Timers
enter now later = record {
  last_ping_ms = now;
  next_request_id = 1;
  last_app_keepalive_ms = later - app_keepalive_ms;
}

-- The request that the app keepalive sends.
abbrev pub app_keepalive : ℕ → WsMessage
app_keepalive id = record {
  type_code = some ws_type_request;
  request = some (record {
    verb = some (codes "GET");
    path = some (codes "/v1/keepalive");
    body = none;
    id = some id;
    headers = [];
  });
  response = none;
}

-- A part of a round goes on with the new timers, or leaves the loop.
pub data Flow : Type 0 where
  go_on : Timers → Flow
  leave : Flow

-- (1a) and what is handed to `ws.send`.
unfoldable pub ws_keepalive : Timers → Round → Flow × List Frame
ws_keepalive t r =
    if leb keepalive_ms (r.ping_check - t.last_ping_ms)
    then (
      elim r.ping_sent [
        | sent_at now ↦ go_on (record t { last_ping_ms = now })
        | send_failed ↦ leave
      ],
      ping ∷ [],
    )
    else (go_on t, [])

-- (1b), its id wrapping at 2^64.
unfoldable pub app_keepalive_step : Timers → Round → Flow × List Frame
app_keepalive_step t r =
    if leb app_keepalive_ms (r.app_check - t.last_app_keepalive_ms)
    then (
      elim r.app_sent [
        | sent_at now ↦ go_on (record t {
          last_app_keepalive_ms = now;
          next_request_id = (t.next_request_id + 1) % 2 ^ 64;
        })
        | send_failed ↦ leave
      ],
      binary (app_keepalive t.next_request_id) ∷ [],
    )
    else (go_on t, [])

abbrev pub keepalives_after : Flow × List Frame → Round → Flow × List Frame
keepalives_after (leave, frames) r = (leave, frames)
keepalives_after (go_on t, frames) r =
    let (flow, more) = app_keepalive_step t r in (flow, frames ++ more)

-- (1a) and (1b) of one round.
unfoldable pub keepalives : Timers → Round → Flow × List Frame
keepalives t r = keepalives_after (ws_keepalive t r) r

module _ (p : Pddb) (ad : Addresses) (proto : Protocol p ad) (decoder : Decoder) where
  open ad use {ProtocolAddress}

  -- The loop goes on, has left, or its thread has panicked.
  pub data State : Type 0 where
    looping : Timers → World p → State
    left : World p → State
    panicked : World p → State

  abbrev pub after_request : Timers → Result Panic (Unit {0}) × World p → State
  after_request t (ok _, w) = looping t w
  after_request t (err _, w) = panicked w

  abbrev pub handle_requested : Timers → Option WsRequest → ProtocolAddress → World p → State
  handle_requested t none local_addr w = looping t w
  handle_requested t (some req) local_addr w =
      after_request t (handle_request p ad proto decoder req local_addr w)

  abbrev pub handle_typed : Timers → Option ℕ → Option WsRequest → ProtocolAddress → World p → State
  handle_typed t none request local_addr w = looping t w
  handle_typed t (some type_code) request local_addr w =
      if type_code == ws_type_request then handle_requested t request local_addr w else looping t w

  abbrev pub handle_decoded : Timers → Option WsMessage → ProtocolAddress → World p → State
  handle_decoded t none local_addr w = looping t w
  handle_decoded t (some message) local_addr w =
      handle_typed t message.type_code message.request local_addr w

  -- (2) and (3).
  unfoldable pub handle_read : Timers → Read → ProtocolAddress → World p → State
  handle_read t (binary_frame raw) local_addr w =
      handle_decoded t (decoder.ws_message raw) local_addr w
  handle_read t ignored_frame local_addr w = looping t w
  handle_read t close_frame local_addr w = left w
  handle_read t (read_error e) local_addr w = if is_timeout e then looping t w else left w

  abbrev pub after_keepalives : Flow → Read → ProtocolAddress → World p → State
  after_keepalives (go_on t) read local_addr w = handle_read t read local_addr w
  after_keepalives leave read local_addr w = left w

  -- One turn of the loop.
  unfoldable pub round : Timers → World p → Round → ProtocolAddress → State
  round t w r local_addr =
      let (flow, frames) = keepalives t r in
      after_keepalives flow r.read local_addr (record w { sent = w.sent ++ frames })

  turn : State → Round → ProtocolAddress → State
  turn (looping t w) r local_addr = round t w r local_addr
  turn (left w) r local_addr = left w
  turn (panicked w) r local_addr = panicked w

  -- The rounds that the environment provides, as far as the loop takes them.
  unfoldable pub run_session : State → List Round → ProtocolAddress → State
  unfolding turn
  run_session state [] local_addr = state
  run_session state (r ∷ rounds) local_addr =
      run_session (turn state r local_addr) rounds local_addr
