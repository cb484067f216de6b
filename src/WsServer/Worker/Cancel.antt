-- ===== src/WsServer/Worker/Cancel.antt =====
-- The `Cancel` handshake of the provisioning worker.
use sigchat.Base.{ℕ, ◌≡◌, refl, ap, ◌∙◌, append_assoc, List, [], ◌∷◌, ◌++◌, Option, none, some}
use sigchat.WsServer.Buffer.{PendingResult}
use sigchat.WsServer.Worker.{
  Page, MessageEnvelope, Event, returned, scalar_returned, closed, destroyed, Worker, running,
  stopped, message, Turn, cancel, from_usize, fill_page, fill_buf, filled, acknowledge,
  cancelled_by, handle_opcode, service, after_service, turn, drop_waiter,
}
use sigchat.WsServer.Worker.Safe.{IsSafe, WaiterFits, fill_page-some}

-- What a cancellation does to others, in order: the parked caller, if there is one, gets its page back
-- with the result Cancelled; then the caller that cancels is answered, and the worker shuts down.
abbrev pub Answers : Option MessageEnvelope → ℕ → List Event → Type 0
Answers none sender events = events ≡ scalar_returned sender ∷ closed ∷ destroyed ∷ []
Answers (some parked) sender events =
    (page : Page) × (fill_page parked.body PendingResult.cancelled ≡ some page)
    × (events ≡ returned parked.sender page ∷ scalar_returned sender ∷ closed ∷ destroyed ∷ [])

cancelled_by-Answers :
    (waiter : Option MessageEnvelope) (w : Worker) (log : List Event) (sender : ℕ)
    → w.waiter ≡ waiter
    → WaiterFits waiter
    → (events : List Event) × (cancelled_by waiter w log sender ≡ stopped (log ++ events))
      × Answers waiter sender events
unfolding fill_buf
cancelled_by-Answers none w log sender e fits = (
  scalar_returned sender ∷ closed ∷ destroyed ∷ [],
  ap (λ o. stopped ((log ++ scalar_returned sender ∷ []) ++ closed ∷ destroyed ∷ drop_waiter o)) e
      ∙ ap (λ l. stopped l)
          (append_assoc log (scalar_returned sender ∷ []) (closed ∷ destroyed ∷ [])),
  refl,
)
cancelled_by-Answers (some parked) w log sender e fits =
    let (page, filled_page) = fill_page-some parked.body PendingResult.cancelled fits tt in
    (
      returned parked.sender page ∷ scalar_returned sender ∷ closed ∷ destroyed ∷ [],
      ap (λ o. acknowledge sender (filled (record w { waiter = none }) log parked.sender o))
            filled_page
          ∙ ap (λ l. stopped l)
              (append_assoc (log ++ returned parked.sender page ∷ []) (scalar_returned sender ∷ [])
                  (closed ∷ destroyed ∷ [])
                ∙ append_assoc log (returned parked.sender page ∷ [])
                    (scalar_returned sender ∷ closed ∷ destroyed ∷ [])),
      (page, filled_page, refl),
    )

-- A Cancel message ends the worker in the same turn: nothing is sent or read any more, a parked
-- caller gets Cancelled, and the caller that cancels gets its answer, as long as the pages that were
-- lent are full-sized.
pub turn-cancel :
    (deadline_ms : ℕ) (w : Worker) (log : List Event) (t : Turn) (msg : MessageEnvelope)
    → t.received ≡ message msg
    → from_usize msg.id ≡ some cancel
    → IsSafe (running w log)
    → (events : List Event) × (turn deadline_ms (running w log) t ≡ stopped (log ++ events))
      × Answers w.waiter msg.sender events
unfolding turn service after_service
turn-cancel deadline_ms w log t msg received opcode safe =
    let (events, e, answers) = cancelled_by-Answers w.waiter w log msg.sender refl safe.1 in
    (
      events,
      ap (after_service deadline_ms t)
          (ap (λ r. service w log r) received ∙ (ap (λ o. handle_opcode o w log msg) opcode ∙ e)),
      answers,
    )
