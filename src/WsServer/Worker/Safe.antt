-- ===== src/WsServer/Worker/Safe.antt =====
-- The worker never panics and never keeps a result from a caller that waits for it.
use sigchat.Base.{
  ℕ, ◌≡◌, refl, ap, sym, subst, ◌⊎◌, inl, inr, true, false, List, [], ◌∷◌, Option, none, some, All,
  arith, length, ltb, if_cases,
}
use sigchat.MainWs.Session.{
  Read, binary_frame, ignored_frame, close_frame, read_error, Sent, sent_at, send_failed,
  is_timeout,
}
use sigchat.WsServer.Buffer.{
  WsResultBuf, IsArray, PendingResult, Fits, fill, fill_fits, ws_provision_max,
}
use sigchat.WsServer.Worker.{
  Page, no_memory, unreadable, buffer, MessageEnvelope, Event, Worker, State, running, stopped,
  panicked, Received, message, nothing, receive_error, Turn, fill_page, fill_buf, written, filled,
  acknowledge, wait_for, cancelled_by, handle_opcode, service, from_usize, Opcode,
  wait_and_take_binary, cancel, check_deadline, keepalive, pinged, read_result, drive, deliver,
  deliver_to, after_service, turn, start, deadline, worker_loop, worker_thread,
}

-- A page that is a buffer is as large as its type says.
abbrev pub PageFits : Page → Type 0
PageFits (buffer b writable) = IsArray b
PageFits _ = Unit

abbrev pub MessageFits : Received → Type 0
MessageFits (message msg) = PageFits msg.body
MessageFits _ = Unit

abbrev pub PendingFits : Option PendingResult → Type 0
PendingFits (some result) = Fits result
PendingFits none = Unit

abbrev pub WaiterFits : Option MessageEnvelope → Type 0
WaiterFits (some msg) = PageFits msg.body
WaiterFits none = Unit

-- No panic, and whatever is pending or parked fits.
abbrev pub IsSafe : State → Type 0
IsSafe (running w log) = PendingFits w.pending × WaiterFits w.waiter
IsSafe (stopped log) = Unit
IsSafe panicked = ⊥

-- Not both a result and a caller that waits for one.
abbrev pub IsSettled : State → Type 0
IsSettled (running w log) = (w.pending ≡ none) ⊎ (w.waiter ≡ none)
IsSettled (stopped log) = Unit
IsSettled panicked = Unit

fill-some :
    (payload : WsResultBuf) (result : PendingResult)
    → IsArray payload
    → Fits result
    → (b : WsResultBuf) × (fill payload result ≡ some b)
unfolding fill
fill-some payload (PendingResult.binary b) array fits = (_, fill_fits payload b array fits)
fill-some payload PendingResult.closed array fits = (_, refl)
fill-some payload PendingResult.timed_out array fits = (_, refl)
fill-some payload PendingResult.cancelled array fits = (_, refl)
fill-some payload PendingResult.error array fits = (_, refl)

pub fill_page-some :
    (page : Page) (result : PendingResult)
    → PageFits page
    → Fits result
    → (back : Page) × (fill_page page result ≡ some back)
unfolding fill_page
fill_page-some no_memory result p f = (no_memory, refl)
fill_page-some unreadable result p f = (unreadable, refl)
fill_page-some (buffer b true) result p f =
    let (b', e) = fill-some b result p f in
    (buffer b' true, ap (λ o. written (buffer b true) o true) e)
fill_page-some (buffer b false) result p f =
    let (b', e) = fill-some b result p f in
    (buffer b false, ap (λ o. written (buffer b false) o false) e)

-- Filling the page of a fitting message goes on with the worker that was given.
fill_buf_running :
    (w : Worker) (log : List Event) (msg : MessageEnvelope) (result : PendingResult)
    → PageFits msg.body
    → Fits result
    → (log' : List Event) × (fill_buf w log msg result ≡ running w log')
unfolding fill_buf
fill_buf_running w log msg result p f =
    let (back, e) = fill_page-some msg.body result p f in (_, ap (filled w log msg.sender) e)

wait_for-IsSafe :
    (pending : Option PendingResult) (w : Worker) (log : List Event) (msg : MessageEnvelope)
    → PendingFits pending
    → PageFits msg.body
    → IsSafe (running w log)
    → IsSafe (wait_for pending w log msg)
wait_for-IsSafe none w log msg pf p (safe, parked) = (safe, p)
wait_for-IsSafe (some result) w log msg pf p (safe, parked) =
    let (log', e) = fill_buf_running (record w { pending = none }) log msg result p pf in
    subst IsSafe (sym e) (tt, parked)

cancelled_by-IsSafe :
    (waiter : Option MessageEnvelope) (w : Worker) (log : List Event) (sender : ℕ)
    → WaiterFits waiter
    → IsSafe (cancelled_by waiter w log sender)
cancelled_by-IsSafe none w log sender p = tt
cancelled_by-IsSafe (some parked) w log sender p =
    let (log', e) =
      fill_buf_running (record w { waiter = none }) log parked PendingResult.cancelled p tt in
    subst (λ s. IsSafe (acknowledge sender s)) (sym e) tt

handle_opcode-IsSafe :
    (opcode : Option Opcode) (w : Worker) (log : List Event) (msg : MessageEnvelope)
    → PageFits msg.body
    → IsSafe (running w log)
    → IsSafe (handle_opcode opcode w log msg)
handle_opcode-IsSafe (some wait_and_take_binary) w log msg p (safe, parked) =
    wait_for-IsSafe w.pending w log msg safe p (safe, parked)
handle_opcode-IsSafe (some cancel) w log msg p (safe, parked) =
    cancelled_by-IsSafe w.waiter w log msg.sender parked
handle_opcode-IsSafe none w log msg p safe = safe

service-IsSafe :
    (w : Worker) (log : List Event) (r : Received)
    → MessageFits r
    → IsSafe (running w log)
    → IsSafe (service w log r)
unfolding service
service-IsSafe w log (message msg) p safe =
    handle_opcode-IsSafe (from_usize msg.id) w log msg p safe
service-IsSafe w log nothing p safe = safe
service-IsSafe w log receive_error p safe = tt

read_result-PendingFits : (read : Read) → PendingFits (read_result read)
unfolding read_result
read_result-PendingFits (binary_frame b) =
    if_cases PendingFits (ltb ws_provision_max (length b)) {x = some PendingResult.error}
      {y = some (PendingResult.binary b)} (λ e. tt) (λ e. ground arith)
read_result-PendingFits ignored_frame = tt
read_result-PendingFits close_frame = tt
read_result-PendingFits (read_error e) =
    if_cases PendingFits (is_timeout e) {x = none} {y = some PendingResult.error} (λ e. tt)
      (λ e. tt)

-- The two parts of a worker between its messages and its delivery keep what is parked.
check_deadline-IsSafe :
    (deadline_ms now : ℕ) (w : Worker) (log : List Event)
    → IsSafe (running w log)
    → IsSafe (running (check_deadline deadline_ms now w) log)
unfolding check_deadline
check_deadline-IsSafe deadline_ms now w log safe =
    if_cases (λ v. IsSafe (running v log)) _ (λ e. (tt, safe.1)) (λ e. safe)

pinged-IsSafe :
    (result : Sent) (w : Worker) (log : List Event)
    → IsSafe (running w log)
    → IsSafe (running (pinged result w) log)
pinged-IsSafe (sent_at later) w log safe = safe
pinged-IsSafe send_failed w log safe = (tt, safe.1)

keepalive-IsSafe :
    (now : ℕ) (result : Sent) (w : Worker) (log : List Event)
    → IsSafe (running w log)
    → IsSafe (running (keepalive now result w).0 log)
unfolding keepalive
keepalive-IsSafe now result w log safe =
    if_cases (λ (v : Worker × List Event). IsSafe (running v.0 log)) _
      (λ e. pinged-IsSafe result w log safe) (λ e. safe)

drive-IsSafe :
    (read : Read) (w : Worker) (log : List Event)
    → IsSafe (running w log)
    → IsSafe (running (drive read w) log)
unfolding drive
drive-IsSafe read w log safe =
    if_cases (λ v. IsSafe (running v log)) _ (λ e. safe)
      (λ e. (read_result-PendingFits read, safe.1))

deliver_to-IsSafe :
    (pending : Option PendingResult) (waiter : Option MessageEnvelope) (w : Worker)
    (log : List Event)
    → w.pending ≡ pending
    → w.waiter ≡ waiter
    → PendingFits pending
    → WaiterFits waiter
    → IsSafe (running w log)
    → IsSafe (deliver_to pending waiter w log) × IsSettled (deliver_to pending waiter w log)
deliver_to-IsSafe none waiter w log ep ew pf wf safe = (safe, inl ep)
deliver_to-IsSafe (some result) none w log ep ew pf wf safe = (safe, inr ew)
deliver_to-IsSafe (some result) (some msg) w log ep ew pf wf safe =
    let (log', e) =
      fill_buf_running (record w { pending = none; waiter = none }) log msg result wf pf in
    subst (λ s. IsSafe s × IsSettled s) (sym e) ((tt, tt), inl refl)

after_service-IsSafe :
    (deadline_ms : ℕ) (t : Turn) (s : State)
    → IsSafe s
    → IsSafe (after_service deadline_ms t s) × IsSettled (after_service deadline_ms t s)
unfolding after_service deliver
after_service-IsSafe deadline_ms t (running w log) safe =
    let w1 = check_deadline deadline_ms t.deadline_check w in
    let w2 = (keepalive t.ping_check t.ping_result w1).0 in
    let safe3 : IsSafe (running (drive t.read w2) log) = drive-IsSafe t.read w2 log (
      keepalive-IsSafe t.ping_check t.ping_result w1 log
        (check_deadline-IsSafe deadline_ms t.deadline_check w log safe)) in
    deliver_to-IsSafe _ _ (drive t.read w2) _ refl refl safe3.0 safe3.1 safe3
after_service-IsSafe deadline_ms t (stopped log) safe = (tt, tt)
after_service-IsSafe deadline_ms t panicked safe = elim safe [ ]

pub turn-IsSafe :
    (deadline_ms : ℕ) (s : State) (t : Turn)
    → MessageFits t.received
    → IsSafe s
    → IsSafe (turn deadline_ms s t) × IsSettled (turn deadline_ms s t)
unfolding turn
turn-IsSafe deadline_ms (running w log) t fits safe =
    after_service-IsSafe deadline_ms t _ (service-IsSafe w log t.received fits safe)
turn-IsSafe deadline_ms (stopped log) t fits safe = (tt, tt)
turn-IsSafe deadline_ms panicked t fits safe = elim safe [ ]

worker_loop_from :
    (deadline_ms : ℕ) (s : State) (turns : List Turn)
    → All (λ t. MessageFits t.received) turns
    → IsSafe s × IsSettled s
    → IsSafe (worker_loop deadline_ms s turns) × IsSettled (worker_loop deadline_ms s turns)
unfolding worker_loop
worker_loop_from deadline_ms s [] all safe = safe
worker_loop_from deadline_ms s (t ∷ turns) all safe =
    worker_loop_from deadline_ms (turn deadline_ms s t) turns all.1
      (turn-IsSafe deadline_ms s t all.0 safe.0)

worker_loop-IsSafe :
    (now deadline_ms : ℕ) (turns : List Turn)
    → All (λ t. MessageFits t.received) turns
    → IsSafe (worker_loop deadline_ms (start now) turns)
      × IsSettled (worker_loop deadline_ms (start now) turns)
unfolding start
worker_loop-IsSafe now deadline_ms turns all =
    worker_loop_from deadline_ms (start now) turns all ((tt, tt), inl refl)

-- The worker's thread never panics, whatever the kernel, the clock and the socket do, with a ticktimer or
-- without, as long as the buffers that callers lend are full-sized; and behind each turn no result is held
-- back from a parked caller.
pub worker_thread-IsSafe :
    (ticktimer : Option (ℕ × ℕ)) (deadline_secs : ℕ) (turns : List Turn)
    → All (λ t. MessageFits t.received) turns
    → IsSafe (worker_thread ticktimer deadline_secs turns)
      × IsSettled (worker_thread ticktimer deadline_secs turns)
unfolding worker_thread
worker_thread-IsSafe none deadline_secs turns all = (tt, tt)
worker_thread-IsSafe (some (now, later)) deadline_secs turns all =
    worker_loop-IsSafe later (deadline now deadline_secs) turns all
