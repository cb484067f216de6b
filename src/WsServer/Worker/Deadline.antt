-- ===== src/WsServer/Worker/Deadline.antt =====
-- The deadline of the provisioning worker.
use sigchat.Base.{
  ℕ, Bool, subst, ◌≡◌, ◌≤◌, refl, ap, ◌∙◌, true, List, [], ◌∷◌, ◌++◌, append-nil, Option, none,
  some, is_some, unwrap_or, leb, not, ◌&&◌, if◌then◌else◌, arith,
}
use sigchat.WsServer.Buffer.{PendingResult, Fits}
use sigchat.WsServer.Worker.{
  Page, MessageEnvelope, Event, returned, Worker, State, running, nothing, Turn, fill_page, filled,
  fill_buf, service, check_deadline, keepalive, drive, deliver, deliver_to, after_service, turn,
}
use sigchat.WsServer.Worker.Safe.{IsSafe, PendingFits, WaiterFits, fill_page-some}

-- What a caller that is parked when the deadline has passed is told.
abbrev pub told : Option PendingResult → PendingResult
told pending = unwrap_or pending PendingResult.timed_out

told-Fits : (pending : Option PendingResult) → PendingFits pending → Fits (told pending)
told-Fits (some result) fits = fits
told-Fits none fits = tt

check_deadline-passed :
    (pending : Option PendingResult) (deadline_ms now : ℕ) (w : Worker)
    → w.pending ≡ pending
    → deadline_ms ≤ now
    → check_deadline deadline_ms now w ≡ record w { pending = some (told pending) }
unfolding check_deadline
check_deadline-passed (some result) deadline_ms now w e late =
    ap
      (λ (o : Option PendingResult).
        if not (is_some o) && leb deadline_ms now
        then record w { pending = some PendingResult.timed_out }
        else record w { pending = o })
      e
check_deadline-passed none deadline_ms now w e late =
    let passed : leb deadline_ms now ≡ true = ground (arith, late) in
    ap
      (λ (o : Option PendingResult).
        if not (is_some o) && leb deadline_ms now
        then record w { pending = some PendingResult.timed_out }
        else record w { pending = o })
      e
    ∙ ap
        (λ (b : Bool).
          if b
          then record w { pending = some PendingResult.timed_out }
          else record w { pending = none })
        passed

-- The answer to a parked caller.
abbrev pub Answered : Worker → List Event → MessageEnvelope → State → Type 0
Answered w log parked s =
    (page : Page) × (fill_page parked.body (told w.pending) ≡ some page)
    × (s
        ≡ running (record w { pending = none; waiter = none })
            (log ++ returned parked.sender page ∷ []))

-- A parked caller does not wait past the deadline: the first turn at or behind it that brings no message
-- gives the caller its page back, with the pending result or else TimedOut, as long as the pages that
-- were lent are full-sized; nothing is sent or read before, and the worker goes on.
pub turn-deadline :
    (deadline_ms : ℕ) (w : Worker) (log : List Event) (t : Turn) (parked : MessageEnvelope)
    → t.received ≡ nothing
    → deadline_ms ≤ t.deadline_check
    → w.waiter ≡ some parked
    → IsSafe (running w log)
    → Answered w log parked (turn deadline_ms (running w log) t)
unfolding turn service after_service keepalive drive deliver fill_buf
turn-deadline deadline_ms w log t parked received late waiting safe =
    let fits = subst WaiterFits waiting safe.1 in
    let (page, given) =
      fill_page-some parked.body (told w.pending) fits (told-Fits w.pending safe.0) in
    (
      page,
      given,
      ap (λ r. after_service deadline_ms t (service w log r)) received
          ∙ ap
              (λ (v : Worker).
                let (v', pings) = keepalive t.ping_check t.ping_result v in
                deliver (drive t.read v') (log ++ pings))
              (check_deadline-passed w.pending deadline_ms t.deadline_check w refl late)
          ∙ ap
              (λ o.
                deliver_to (some (told w.pending)) o (record w { pending = some (told w.pending) })
                  (log ++ []))
              waiting
          ∙ ap (filled (record w { pending = none; waiter = none }) (log ++ []) parked.sender) given
          ∙ ap
              (λ l.
                running (record w { pending = none; waiter = none })
                  (l ++ returned parked.sender page ∷ []))
              (append-nil log),
    )
