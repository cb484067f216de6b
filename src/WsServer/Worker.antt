-- ===== src/WsServer/Worker.antt =====
-- `worker_loop` of src/manager/ws_server.rs. What the kernel, the clock and the socket answer in a turn
-- of the loop is the turn's input; what the worker does to others is a list of events.
pub mod Safe
pub mod Cancel
pub mod Deadline
pub mod Answered
pub mod Outcome
use sigchat.Base.{
  ℕ, ◌+◌, ◌-◌, ◌*◌, ◌%◌, ◌^◌, min, Bool, true, false, ◌&&◌, List, [], ◌∷◌, ◌++◌, Option, none, some,
  is_some, not, ltb, leb, ◌==◌, if◌then◌else◌, length,
}
use sigchat.MainWs.Session.{
  Read, binary_frame, ignored_frame, close_frame, read_error, Sent, sent_at, send_failed,
  is_timeout,
}
use sigchat.WsServer.Buffer.{WsResultBuf, PendingResult, fill, ws_provision_max}

abbrev pub keepalive_ms : ℕ
keepalive_ms = 25000

-- The body of a message: no memory, memory that is not a `WsResultBuf`, or one, with whether it can
-- be written back.
pub data Page : Type 0 where
  no_memory unreadable : Page
  buffer : WsResultBuf → Bool → Page

-- `xous::MessageEnvelope`.
pub record MessageEnvelope : Type 0 where
  pub sender : ℕ
  pub id : ℕ
  pub body : Page

pub data Event : Type 0 where
  -- a message is dropped, and its page returns to the sender as it is now
  returned : ℕ → Page → Event
  -- `return_scalar(sender, 1)`
  scalar_returned : ℕ → Event
  -- `set_read_timeout` of 500 ms, whose failure is only logged
  limit_set : Event
  ping_sent closed destroyed : Event

pub record Worker : Type 0 where
  pub last_send_at : ℕ
  pub pending : Option PendingResult
  pub waiter : Option MessageEnvelope

pub data State : Type 0 where
  running : Worker → List Event → State
  -- behind the loop
  stopped : List Event → State
  panicked : State

-- What `try_receive_message` returns.
pub data Received : Type 0 where
  message : MessageEnvelope → Received
  nothing receive_error : Received

pub record Turn : Type 0 where
  pub received : Received
  pub deadline_check : ℕ
  pub ping_check : ℕ
  pub ping_result : Sent
  pub read : Read

pub data Opcode : Type 0 where
  wait_and_take_binary cancel : Opcode

unfoldable pub from_usize : ℕ → Option Opcode
from_usize id = if id == 0 then some wait_and_take_binary else if id == 1 then some cancel else none

abbrev pub written : Page → Option WsResultBuf → Bool → Option Page
written page none writable = none
written page (some payload) true = some (buffer payload true)
written page (some payload) false = some page

-- The page as `fill_buf` returns it; `none` is its panic.
unfoldable pub fill_page : Page → PendingResult → Option Page
fill_page no_memory result = some no_memory
fill_page unreadable result = some unreadable
fill_page (buffer payload writable) result =
    written (buffer payload writable) (fill payload result) writable

abbrev pub filled : Worker → List Event → ℕ → Option Page → State
filled w log sender none = panicked
filled w log sender (some page) = running w (log ++ returned sender page ∷ [])

-- `fill_buf(msg, result)`, and on with `w`.
unfoldable pub fill_buf : Worker → List Event → MessageEnvelope → PendingResult → State
fill_buf w log msg result = filled w log msg.sender (fill_page msg.body result)

abbrev pub drop_waiter : Option MessageEnvelope → List Event
drop_waiter none = []
drop_waiter (some msg) = returned msg.sender msg.body ∷ []

-- Behind the loop: the socket is closed, the server destroyed, and what is still parked is dropped.
abbrev pub leave : Worker → List Event → State
leave w log = stopped (log ++ closed ∷ destroyed ∷ drop_waiter w.waiter)

-- The `Cancel` handshake.
abbrev pub acknowledge : ℕ → State → State
acknowledge sender (running w log) = leave w (log ++ scalar_returned sender ∷ [])
acknowledge sender (stopped log) = stopped log
acknowledge sender panicked = panicked

abbrev pub wait_for : Option PendingResult → Worker → List Event → MessageEnvelope → State
wait_for (some result) w log msg = fill_buf (record w { pending = none }) log msg result
wait_for none w log msg = running (record w { waiter = some msg }) (log ++ drop_waiter w.waiter)

abbrev pub cancelled_by : Option MessageEnvelope → Worker → List Event → ℕ → State
cancelled_by (some parked) w log sender =
    acknowledge sender (fill_buf (record w { waiter = none }) log parked PendingResult.cancelled)
cancelled_by none w log sender = acknowledge sender (running w log)

abbrev pub handle_opcode : Option Opcode → Worker → List Event → MessageEnvelope → State
handle_opcode (some wait_and_take_binary) w log msg = wait_for w.pending w log msg
handle_opcode (some cancel) w log msg = cancelled_by w.waiter w log msg.sender
handle_opcode none w log msg = running w (log ++ returned msg.sender msg.body ∷ [])

-- (1)
unfoldable pub service : Worker → List Event → Received → State
service w log (message msg) = handle_opcode (from_usize msg.id) w log msg
service w log nothing = running w log
service w log receive_error = leave w log

-- (2)
unfoldable pub check_deadline : ℕ → ℕ → Worker → Worker
check_deadline deadline_ms now w =
    if not (is_some w.pending) && leb deadline_ms now
    then record w { pending = some PendingResult.timed_out }
    else w

abbrev pub pinged : Sent → Worker → Worker
pinged (sent_at later) w = record w { last_send_at = later }
pinged send_failed w = record w { pending = some PendingResult.error }

-- (3)
unfoldable pub keepalive : ℕ → Sent → Worker → Worker × List Event
keepalive now result w =
    if not (is_some w.pending) && leb keepalive_ms (now - w.last_send_at)
    then (pinged result w, ping_sent ∷ [])
    else (w, [])

-- What a read leaves pending.
unfoldable pub read_result : Read → Option PendingResult
read_result (binary_frame b) =
    if ltb ws_provision_max (length b)
    then some PendingResult.error
    else some (PendingResult.binary b)
read_result ignored_frame = none
read_result close_frame = some PendingResult.closed
read_result (read_error e) = if is_timeout e then none else some PendingResult.error

-- (4)
unfoldable pub drive : Read → Worker → Worker
drive read w = if is_some w.pending then w else record w { pending = read_result read }

abbrev pub deliver_to : Option PendingResult → Option MessageEnvelope → Worker → List Event → State
deliver_to (some result) (some msg) w log =
    fill_buf (record w { pending = none; waiter = none }) log msg result
deliver_to (some result) none w log = running w log
deliver_to none waiter w log = running w log

-- (5)
unfoldable pub deliver : Worker → List Event → State
deliver w log = deliver_to w.pending w.waiter w log

-- (2) to (5), if the loop was not left before.
unfoldable pub after_service : ℕ → Turn → State → State
after_service deadline_ms t (running w log) =
    let (w', pings) =
      keepalive t.ping_check t.ping_result (check_deadline deadline_ms t.deadline_check w) in
    deliver (drive t.read w') (log ++ pings)
after_service deadline_ms t (stopped log) = stopped log
after_service deadline_ms t panicked = panicked

-- One turn of the loop.
unfoldable pub turn : ℕ → State → Turn → State
turn deadline_ms (running w log) t = after_service deadline_ms t (service w log t.received)
turn deadline_ms (stopped log) t = stopped log
turn deadline_ms panicked t = panicked

-- The read limit and the local variables before the loop, and the deadline in u64.
unfoldable pub start : ℕ → State
start now = running (record { last_send_at = now; pending = none; waiter = none }) (limit_set ∷ [])

unfoldable pub deadline : ℕ → ℕ → ℕ
deadline now deadline_secs = (now + min (deadline_secs * 1000) (2 ^ 64 - 1)) % 2 ^ 64

-- The loop, over the turns that the environment provides.
unfoldable pub worker_loop : ℕ → State → List Turn → State
worker_loop deadline_ms state [] = state
worker_loop deadline_ms state (t ∷ turns) = worker_loop deadline_ms (turn deadline_ms state t) turns

-- The whole thread, from the ticktimer, with its two clock readings, and the limit in seconds: without a
-- ticktimer it returns at once, and neither closes the socket nor destroys its server.
unfoldable pub worker_thread : Option (ℕ × ℕ) → ℕ → List Turn → State
worker_thread none deadline_secs turns = stopped (limit_set ∷ [])
worker_thread (some (now, later)) deadline_secs turns =
    worker_loop (deadline now deadline_secs) (start later) turns
