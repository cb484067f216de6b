-- ===== src/WsServer/Worker/Outcome.antt =====
-- What becomes of a caller that is parked in the provisioning worker, over a whole run of it.
use sigchat.Base.{
  ℕ, ◌≡◌, ◌⊎◌, inl, inr, refl, ap, sym, subst, ◌∙◌, List, [], ◌∷◌, ◌++◌, append_assoc, Option, none,
  some, if_cases,
}
use sigchat.MainWs.Session.{Read, Sent, sent_at, send_failed}
use sigchat.WsServer.Buffer.{PendingResult}
use sigchat.WsServer.Worker.{
  Page, MessageEnvelope, Event, returned, scalar_returned, closed, destroyed, Worker, State,
  running, stopped, panicked, Received, message, nothing, receive_error, Turn, Opcode,
  wait_and_take_binary, cancel, from_usize, fill_page, fill_buf, filled, drop_waiter, leave,
  acknowledge, wait_for, cancelled_by, handle_opcode, service, check_deadline, pinged, keepalive,
  drive, deliver, deliver_to, after_service, turn, worker_loop,
}

-- The caller's page went back, within these events.
abbrev pub GotBack : ℕ → List Event → Type 0
GotBack sender log =
    (before : List Event) × (page : Page) × (after : List Event) × (log
      ≡ before ++ returned sender page ∷ after)

-- The caller still waits, where `C` lets it.
abbrev Waits : Type 0 → MessageEnvelope → Worker → Type 0
Waits C parked w = C × (w.waiter ≡ some parked)

-- What has become of a parked caller.
abbrev pub Outcome : Type 0 → MessageEnvelope → State → Type 0
Outcome C parked (running w log) = GotBack parked.sender log ⊎ Waits C parked w
Outcome C parked (stopped log) = GotBack parked.sender log
Outcome C parked panicked = Unit

GotBack-append :
    (sender : ℕ) (log more : List Event) → GotBack sender log → GotBack sender (log ++ more)
GotBack-append sender log more (before, page, after, e) = (
  before,
  page,
  after ++ more,
  ap (λ l. l ++ more) e ∙ append_assoc before (returned sender page ∷ after) more,
)

last :
    (sender : ℕ) (log : List Event) (page : Page)
    → GotBack sender (log ++ returned sender page ∷ [])
last sender log page = (log, page, [], refl)

some_eq : {a b : MessageEnvelope} → Path (Option MessageEnvelope) (some a) (some b) → a ≡ b
some_eq e = cc

module _ (C : Type 0) (parked : MessageEnvelope) where
  -- Filling a page only adds to the events, and fills the caller's own page if it is the one.
  fill_buf-keeps :
      (w : Worker) (log : List Event) (msg : MessageEnvelope) (result : PendingResult)
      → GotBack parked.sender log ⊎ Waits C parked w
      → Outcome C parked (fill_buf w log msg result)
  unfolding fill_buf
  fill_buf-keeps w log msg result h = filled_keeps (fill_page msg.body result)
    where
      filled_keeps : (o : Option Page) → Outcome C parked (filled w log msg.sender o)
      filled_keeps none = tt
      filled_keeps (some page) = elim h [
        | inl b ↦ inl (GotBack-append parked.sender log (returned msg.sender page ∷ []) b)
        | inr e ↦ inr e
      ]

  fill_own :
      (w : Worker) (log : List Event) (result : PendingResult)
      → Outcome C parked (fill_buf w log parked result)
  unfolding fill_buf
  fill_own w log result = own (fill_page parked.body result)
    where
      own : (o : Option Page) → Outcome C parked (filled w log parked.sender o)
      own none = tt
      own (some page) = inl (last parked.sender log page)

  leave-Back :
      (w : Worker) (log : List Event)
      → GotBack parked.sender log ⊎ Waits C parked w
      → Outcome C parked (leave w log)
  leave-Back w log (inl b) =
      GotBack-append parked.sender log (closed ∷ destroyed ∷ drop_waiter w.waiter) b
  leave-Back w log (inr e) = (
    log ++ closed ∷ destroyed ∷ [],
    parked.body,
    [],
    ap (λ o. log ++ closed ∷ destroyed ∷ drop_waiter o) e.1
        ∙ sym
            (append_assoc log (closed ∷ destroyed ∷ []) (returned parked.sender parked.body ∷ [])),
  )

  -- More events behind keep what has become of the caller.
  later :
      (w : Worker) (log more : List Event)
      → GotBack parked.sender log ⊎ Waits C parked w
      → GotBack parked.sender (log ++ more) ⊎ Waits C parked w
  later w log more (inl b) = inl (GotBack-append parked.sender log more b)
  later w log more (inr e) = inr e

  acknowledge-Outcome :
      (sender : ℕ) (s : State) → Outcome C parked s → Outcome C parked (acknowledge sender s)
  acknowledge-Outcome sender (running w log) h =
      leave-Back w (log ++ scalar_returned sender ∷ [])
        (later w log (scalar_returned sender ∷ []) h)
  acknowledge-Outcome sender (stopped log) h = h
  acknowledge-Outcome sender panicked h = tt

  -- A page that is filled for the caller that waits, or for another one once it has its page.
  filled-Outcome :
      (w w' : Worker) (log : List Event) (msg : MessageEnvelope) (result : PendingResult)
      → w.waiter ≡ some msg
      → GotBack parked.sender log ⊎ Waits C parked w
      → Outcome C parked (fill_buf w' log msg result)
  filled-Outcome w w' log msg result held (inl b) = fill_buf-keeps w' log msg result (inl b)
  filled-Outcome w w' log msg result held (inr e) =
      subst (λ m. Outcome C parked (fill_buf w' log m result)) (some_eq (sym e.1 ∙ held))
        (fill_own w' log result)

  wait_for-Outcome :
      (pending : Option PendingResult) (w : Worker) (log : List Event) (msg : MessageEnvelope)
      → GotBack parked.sender log ⊎ Waits C parked w
      → Outcome C parked (wait_for pending w log msg)
  wait_for-Outcome (some result) w log msg h =
      fill_buf-keeps (record w { pending = none }) log msg result h
  wait_for-Outcome none w log msg (inl b) =
      inl (GotBack-append parked.sender log (drop_waiter w.waiter) b)
  wait_for-Outcome none w log msg (inr e) =
      inl (log, parked.body, [], ap (λ o. log ++ drop_waiter o) e.1)

  cancelled_by-Outcome :
      (waiter : Option MessageEnvelope) (w : Worker) (log : List Event) (sender : ℕ)
      → w.waiter ≡ waiter
      → GotBack parked.sender log ⊎ Waits C parked w
      → Outcome C parked (cancelled_by waiter w log sender)
  cancelled_by-Outcome (some p) w log sender held h =
      acknowledge-Outcome sender
        (fill_buf (record w { waiter = none }) log p PendingResult.cancelled)
        (filled-Outcome w (record w { waiter = none }) log p PendingResult.cancelled held h)
  cancelled_by-Outcome none w log sender held h = acknowledge-Outcome sender (running w log) h

  handle_opcode-Outcome :
      (opcode : Option Opcode) (w : Worker) (log : List Event) (msg : MessageEnvelope)
      → GotBack parked.sender log ⊎ Waits C parked w
      → Outcome C parked (handle_opcode opcode w log msg)
  handle_opcode-Outcome (some wait_and_take_binary) w log msg h =
      wait_for-Outcome w.pending w log msg h
  handle_opcode-Outcome (some cancel) w log msg h =
      cancelled_by-Outcome w.waiter w log msg.sender refl h
  handle_opcode-Outcome none w log msg h = later w log (returned msg.sender msg.body ∷ []) h

  service-Outcome :
      (w : Worker) (log : List Event) (r : Received)
      → GotBack parked.sender log ⊎ Waits C parked w
      → Outcome C parked (service w log r)
  unfolding service
  service-Outcome w log (message msg) h = handle_opcode-Outcome (from_usize msg.id) w log msg h
  service-Outcome w log nothing h = h
  service-Outcome w log receive_error h = leave-Back w log h

  pinged-waiter : (sent : Sent) (w : Worker) → (pinged sent w).waiter ≡ w.waiter
  pinged-waiter (sent_at now) w = refl
  pinged-waiter send_failed w = refl

  -- Between the messages and the delivery nobody is parked.
  check_deadline-waiter :
      (deadline_ms now : ℕ) (w : Worker) → (check_deadline deadline_ms now w).waiter ≡ w.waiter
  unfolding check_deadline
  check_deadline-waiter deadline_ms now w =
      if_cases (λ (v : Worker). v.waiter ≡ w.waiter) _ (λ e. refl) (λ e. refl)

  keepalive-waiter :
      (now : ℕ) (sent : Sent) (w : Worker) → (keepalive now sent w).0.waiter ≡ w.waiter
  unfolding keepalive
  keepalive-waiter now sent w =
      if_cases (λ (v : Worker × List Event). v.0.waiter ≡ w.waiter) _ (λ e. pinged-waiter sent w)
        (λ e. refl)

  drive-waiter : (read : Read) (w : Worker) → (drive read w).waiter ≡ w.waiter
  unfolding drive
  drive-waiter read w = if_cases (λ (v : Worker). v.waiter ≡ w.waiter) _ (λ e. refl) (λ e. refl)

  moved :
      (w v : Worker) (log : List Event)
      → v.waiter ≡ w.waiter
      → GotBack parked.sender log ⊎ Waits C parked w
      → GotBack parked.sender log ⊎ Waits C parked v
  moved w v log e (inl b) = inl b
  moved w v log e (inr h) = inr (h.0, e ∙ h.1)

  deliver_to-Outcome :
      (pending : Option PendingResult) (waiter : Option MessageEnvelope) (w : Worker)
      (log : List Event)
      → w.waiter ≡ waiter
      → GotBack parked.sender log ⊎ Waits C parked w
      → Outcome C parked (deliver_to pending waiter w log)
  deliver_to-Outcome (some result) (some msg) w log held h =
      filled-Outcome w (record w { pending = none; waiter = none }) log msg result held h
  deliver_to-Outcome (some result) none w log held h = h
  deliver_to-Outcome none waiter w log held h = h

  after_service-Outcome :
      (deadline_ms : ℕ) (t : Turn) (s : State)
      → Outcome C parked s
      → Outcome C parked (after_service deadline_ms t s)
  unfolding after_service deliver
  after_service-Outcome deadline_ms t (running w log) h =
      let w1 = check_deadline deadline_ms t.deadline_check w in
      let (w2, pings) = keepalive t.ping_check t.ping_result w1 in
      let same =
        drive-waiter t.read w2
        ∙ (keepalive-waiter t.ping_check t.ping_result w1
            ∙ check_deadline-waiter deadline_ms t.deadline_check w) in
      deliver_to-Outcome _ _ (drive t.read w2) (log ++ pings) refl
        (later (drive t.read w2) log pings (moved w (drive t.read w2) log same h))
  after_service-Outcome deadline_ms t (stopped log) h = h
  after_service-Outcome deadline_ms t panicked h = tt

  pub turn-Outcome :
      (deadline_ms : ℕ) (s : State) (t : Turn)
      → Outcome C parked s
      → Outcome C parked (turn deadline_ms s t)
  unfolding turn
  turn-Outcome deadline_ms (running w log) t h =
      after_service-Outcome deadline_ms t (service w log t.received)
        (service-Outcome w log t.received h)
  turn-Outcome deadline_ms (stopped log) t h = h
  turn-Outcome deadline_ms panicked t h = tt

  pub worker_loop-Outcome :
      (deadline_ms : ℕ) (s : State) (turns : List Turn)
      → Outcome C parked s
      → Outcome C parked (worker_loop deadline_ms s turns)
  unfolding worker_loop
  worker_loop-Outcome deadline_ms s [] h = h
  worker_loop-Outcome deadline_ms s (t ∷ turns) h =
      worker_loop-Outcome deadline_ms (turn deadline_ms s t) turns (turn-Outcome deadline_ms s t h)
