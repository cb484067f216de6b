-- ===== src/MainWs/Session/Ids.antt =====
-- The ids of the requests that a session sends.
use sigchat.Base.{
  ℕ, ◌≡◌, refl, ◌∙◌, ap, sym, subst, List, [], ◌∷◌, ◌++◌, append-nil, Option, none, some, Result,
  ok, err, arith, ◌==◌, if_cases,
}
use sigchat.Pddb.{Pddb}
use sigchat.Signal.{Addresses}
use sigchat.MainWs.Proto.{WsRequest, WsMessage, Decoder, ws_type_request}
use sigchat.MainWs.World.{World, Panic}
use sigchat.MainWs.Envelope.{Protocol}
use sigchat.MainWs.Request.{handle_request}
use sigchat.MainWs.Request.Acks.{answer, sent-handle_request}
use sigchat.MainWs.Session.{
  Round, Timers, Flow, go_on, leave, State, looping, left, panicked, Read, binary_frame,
  ignored_frame, close_frame, read_error, enter, keepalives, handle_read, handle_decoded,
  handle_requested, handle_typed, after_request, after_keepalives, round, turn, run_session,
  is_timeout,
}
use sigchat.MainWs.Session.Counted.{
  request_ids, request_ids-append, Counted, CountedTo, FlowCounted, keepalives-Behind,
}

module _ (p : Pddb) (ad : Addresses) (proto : Protocol p ad) (decoder : Decoder) where
  open ad use {ProtocolAddress}

  -- The requests that the session sent so far are counted from 1, and while it goes on its next id is
  -- the one behind them.
  abbrev pub IsCounted : State p ad proto decoder → Type 0
  IsCounted (looping t w) = CountedTo (request_ids w.sent) t.next_request_id
  IsCounted (left w) = Counted (request_ids w.sent)
  IsCounted (panicked w) = Counted (request_ids w.sent)

  answer_ids :
      (r : Result Panic (Unit {0})) (id : Option ℕ)
      → request_ids (answer p ad proto decoder r id) ≡ []
  answer_ids (ok _) id = refl
  answer_ids (err e) id = refl

  after_request-IsCounted :
      (t : Timers) (r : Result Panic (Unit {0})) (w : World p)
      → CountedTo (request_ids w.sent) t.next_request_id
      → IsCounted (after_request p ad proto decoder t (r, w))
  after_request-IsCounted t (ok _) w c = c
  after_request-IsCounted t (err e) w (k, e1, n) = (k, e1)

  handle_request-CountedTo :
      (t : Timers) (req : WsRequest) (a : ProtocolAddress) (w : World p)
      → CountedTo (request_ids w.sent) t.next_request_id
      → CountedTo (request_ids (handle_request p ad proto decoder req a w).1.sent) t.next_request_id
  handle_request-CountedTo t req a w c =
      let r = (handle_request p ad proto decoder req a w).0 in
      let same : request_ids w.sent
          ≡ request_ids (handle_request p ad proto decoder req a w).1.sent =
        sym (
          ap request_ids (sent-handle_request p ad proto decoder req a w)
          ∙ (request_ids-append w.sent (answer p ad proto decoder r req.id)
              ∙ (ap (λ l. request_ids w.sent ++ l) (answer_ids r req.id)
                  ∙ append-nil (request_ids w.sent)))) in
      subst (λ l. CountedTo l t.next_request_id) same c

  handle_requested-IsCounted :
      (t : Timers) (request : Option WsRequest) (a : ProtocolAddress) (w : World p)
      → CountedTo (request_ids w.sent) t.next_request_id
      → IsCounted (handle_requested p ad proto decoder t request a w)
  handle_requested-IsCounted t none a w c = c
  handle_requested-IsCounted t (some req) a w c =
      let (r, w') = handle_request p ad proto decoder req a w in
      after_request-IsCounted t r w' (handle_request-CountedTo t req a w c)

  handle_typed-IsCounted :
      (t : Timers) (type_code : Option ℕ) (request : Option WsRequest) (a : ProtocolAddress)
      (w : World p)
      → CountedTo (request_ids w.sent) t.next_request_id
      → IsCounted (handle_typed p ad proto decoder t type_code request a w)
  handle_typed-IsCounted t none request a w c = c
  handle_typed-IsCounted t (some type_code) request a w c =
      if_cases IsCounted (type_code == ws_type_request)
        (λ e. handle_requested-IsCounted t request a w c) (λ e. c)

  handle_decoded-IsCounted :
      (t : Timers) (message : Option WsMessage) (a : ProtocolAddress) (w : World p)
      → CountedTo (request_ids w.sent) t.next_request_id
      → IsCounted (handle_decoded p ad proto decoder t message a w)
  handle_decoded-IsCounted t none a w c = c
  handle_decoded-IsCounted t (some m) a w c = handle_typed-IsCounted t m.type_code m.request a w c

  handle_read-IsCounted :
      (t : Timers) (read : Read) (a : ProtocolAddress) (w : World p)
      → CountedTo (request_ids w.sent) t.next_request_id
      → IsCounted (handle_read p ad proto decoder t read a w)
  unfolding handle_read
  handle_read-IsCounted t (binary_frame raw) a w c =
      handle_decoded-IsCounted t (decoder.ws_message raw) a w c
  handle_read-IsCounted t ignored_frame a w c = c
  handle_read-IsCounted t close_frame a w (k, e, n) = (k, e)
  handle_read-IsCounted t (read_error e) a w (k, ids, n) =
      if_cases IsCounted (is_timeout e) (λ h. (k, ids, n)) (λ h. (k, ids))

  after_keepalives-IsCounted :
      (flow : Flow) (read : Read) (a : ProtocolAddress) (w : World p)
      → FlowCounted (request_ids w.sent) flow
      → IsCounted (after_keepalives p ad proto decoder flow read a w)
  after_keepalives-IsCounted (go_on t) read a w c = handle_read-IsCounted t read a w c
  after_keepalives-IsCounted leave read a w c = c

  round-IsCounted :
      (t : Timers) (w : World p) (r : Round) (a : ProtocolAddress)
      → CountedTo (request_ids w.sent) t.next_request_id
      → IsCounted (round p ad proto decoder t w r a)
  unfolding round
  round-IsCounted t w r a c =
      let (flow, frames) = keepalives t r in
      after_keepalives-IsCounted flow r.read a (record w { sent = w.sent ++ frames })
        (subst (λ l. FlowCounted l flow) (sym (request_ids-append w.sent frames))
          (keepalives-Behind t r (request_ids w.sent) c))

  run_session_from :
      (state : State p ad proto decoder) (rounds : List Round) (a : ProtocolAddress)
      → IsCounted state
      → IsCounted (run_session p ad proto decoder state rounds a)
  unfolding run_session turn
  run_session_from state [] a c = c
  run_session_from (looping t w) (r ∷ rounds) a c =
      run_session_from (round p ad proto decoder t w r a) rounds a (round-IsCounted t w r a c)
  run_session_from (left w) (r ∷ rounds) a c = run_session_from (left w) rounds a c
  run_session_from (panicked w) (r ∷ rounds) a c = run_session_from (panicked w) rounds a c

  -- However the clock, the socket and the server behave, the requests that a session sends are numbered
  -- 1, 2, 3 and so on, wrapping at 2^64, with no id skipped or used twice in between; its
  -- acknowledgements and pings carry no request.
  pub run_session-IsCounted :
      (now later : ℕ) (w : World p) (rounds : List Round) (a : ProtocolAddress)
      → request_ids w.sent ≡ []
      → IsCounted (run_session p ad proto decoder (looping (enter now later) w) rounds a)
  unfolding enter
  run_session-IsCounted now later w rounds a none_sent =
      run_session_from (looping (enter now later) w) rounds a (0, none_sent, omega arith)
