-- ===== src/WsServer/Worker/Answered.antt =====
-- A caller that waits gets its page back, over a whole run of the provisioning worker.
use sigchat.Base.{ℕ, ◌≡◌, ◌≤◌, inl, inr, refl, sym, subst, List, [], ◌∷◌, ◌++◌, some, All}
use sigchat.WsServer.Worker.{
  MessageEnvelope, Event, Worker, State, running, stopped, panicked, nothing, Turn, turn,
  worker_loop,
}
use sigchat.WsServer.Worker.Safe.{IsSafe, MessageFits, turn-IsSafe}
use sigchat.WsServer.Worker.Deadline.{turn-deadline}
use sigchat.WsServer.Worker.Outcome.{GotBack, Outcome, turn-Outcome, worker_loop-Outcome}

-- The caller's page went back, in a worker that has not panicked.
abbrev pub IsAnswered : MessageEnvelope → State → Type 0
IsAnswered parked (running w log) = GotBack parked.sender log
IsAnswered parked (stopped log) = GotBack parked.sender log
IsAnswered parked panicked = ⊥

answered_for_good :
    (parked : MessageEnvelope) (s : State) → IsAnswered parked s → Outcome ⊥ parked s
answered_for_good parked (running w log) h = inl h
answered_for_good parked (stopped log) h = h
answered_for_good parked panicked h = tt

Outcome-IsAnswered :
    (parked : MessageEnvelope) (s : State) → IsSafe s → Outcome ⊥ parked s → IsAnswered parked s
Outcome-IsAnswered parked (running w log) safe (inl h) = h
Outcome-IsAnswered parked (running w log) safe (inr h) = absurd h.0
Outcome-IsAnswered parked (stopped log) safe h = h
Outcome-IsAnswered parked panicked safe h = safe

module _ (deadline_ms : ℕ) (parked : MessageEnvelope) where
  -- The first late turn that brings no message answers a caller that still waits.
  turn-IsAnswered :
      (s : State) (t : Turn)
      → t.received ≡ nothing
      → deadline_ms ≤ t.deadline_check
      → IsSafe s
      → Outcome (Unit {0}) parked s
      → IsSafe (turn deadline_ms s t)
      → IsAnswered parked (turn deadline_ms s t)
  unfolding turn
  turn-IsAnswered (running w log) t quiet late safe (inl back) safe' =
      Outcome-IsAnswered parked _ safe'
        (turn-Outcome ⊥ parked deadline_ms (running w log) t (inl back))
  turn-IsAnswered (running w log) t quiet late safe (inr waits) safe' =
      let (page, given, e) = turn-deadline deadline_ms w log t parked quiet late waits.1 safe in
      subst (IsAnswered parked) (sym e) (log, page, [], refl)
  turn-IsAnswered (stopped log) t quiet late safe h safe' = h
  turn-IsAnswered panicked t quiet late safe h safe' = absurd safe

  turns-IsSafe :
      (s : State) (turns : List Turn)
      → All (λ t. MessageFits t.received) turns
      → IsSafe s
      → IsSafe (worker_loop deadline_ms s turns)
  unfolding worker_loop
  turns-IsSafe s [] all safe = safe
  turns-IsSafe s (t ∷ turns) all safe =
      turns-IsSafe (turn deadline_ms s t) turns all.1 (turn-IsSafe deadline_ms s t all.0 safe).0

  worker_loop-append :
      (s : State) (turns more : List Turn)
      → worker_loop deadline_ms s (turns ++ more)
        ≡ worker_loop deadline_ms (worker_loop deadline_ms s turns) more
  unfolding worker_loop
  worker_loop-append s [] more = refl
  worker_loop-append s (t ∷ turns) more = worker_loop-append (turn deadline_ms s t) turns more

  -- A caller that is parked gets its page back and the worker does not panic, whatever comes before and
  -- behind, as soon as one turn at or behind the deadline brings no message: by a result, by the deadline,
  -- by another caller that takes its place, or by the end of the worker; as long as the pages that are lent
  -- are full-sized.
  pub worker_loop-IsAnswered :
      (w : Worker) (log : List Event) (before after : List Turn) (t : Turn)
      → w.waiter ≡ some parked
      → IsSafe (running w log)
      → All (λ u. MessageFits u.received) before
      → t.received ≡ nothing
      → deadline_ms ≤ t.deadline_check
      → All (λ u. MessageFits u.received) after
      → IsAnswered parked (worker_loop deadline_ms (running w log) (before ++ t ∷ after))
  unfolding worker_loop
  worker_loop-IsAnswered w log before after t waits safe fits quiet late fits' =
      let s = worker_loop deadline_ms (running w log) before in
      let s' = turn deadline_ms s t in
      let safe_before = turns-IsSafe (running w log) before fits safe in
      let safe_turn =
        (turn-IsSafe deadline_ms s t (subst MessageFits (sym quiet) tt) safe_before).0 in
      let answered =
        turn-IsAnswered s t quiet late safe_before
          (worker_loop-Outcome (Unit {0}) parked deadline_ms (running w log) before
            (inr (tt, waits)))
          safe_turn in
      subst (IsAnswered parked) (sym (worker_loop-append (running w log) before (t ∷ after))) (
        Outcome-IsAnswered parked _ (turns-IsSafe s' after fits' safe_turn) (
          worker_loop-Outcome ⊥ parked deadline_ms s' after (answered_for_good parked s' answered)))
