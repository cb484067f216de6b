-- ===== src/Examples/Reconnect.antt =====
-- The theorems on the whole receive worker at concrete inputs.
use sigchat.Base.{List, [], ◌∷◌, ◌≡◌, refl, true, false, arith}
use sigchat.Text.{codes}
use sigchat.MainWs.Session.{
  Round, close_frame, sent_at, app_keepalive, run_session, round, keepalives, ws_keepalive,
  app_keepalive_step, handle_read, enter,
}
use sigchat.MainWs.Backoff.{next_backoff}
use sigchat.MainWs.World.{ping, binary}
use sigchat.MainWs.Reconnect.{
  Connection, Loop, Worker, waiting, refused, session, turn, turns, worker_loop,
}
use sigchat.MainWs.Reconnect.Counted.{WorkerCounted, worker_loop-WorkerCounted}
use sigchat.MainWs.Reconnect.Sleeps.{Slept, refusals, worker_loop_backoff}
use sigchat.Examples.Library.{addresses, addresses_laws}
use sigchat.Examples.Receive.{protocol, decoder, world}
use sigchat.Examples.Database.{database}

-- A round that sends both keepalives and is closed by the server.
abbrev closing : Round
closing = record {
  ping_check = 90000;
  ping_sent = sent_at 90001;
  app_check = 90001;
  app_sent = sent_at 90002;
  read = close_frame;
}

abbrev refused_turn : Connection
refused_turn = record { outcome = refused; sleeps = true }

abbrev closed_turn : Connection
closed_turn = record { outcome = session 56000 56000 (closing ∷ []); sleeps = false }

abbrev run : List Connection → Worker database addresses (protocol true) decoder
run cs = worker_loop database addresses (protocol true) decoder (codes "aci") 3 world cs

worker_loop-WorkerCounted_example :
    WorkerCounted database addresses
      (protocol true)
      decoder
      (run (refused_turn ∷ closed_turn ∷ refused_turn ∷ []))
worker_loop-WorkerCounted_example =
    worker_loop-WorkerCounted database addresses (protocol true) decoder (codes "aci") 3 world
      (refused_turn ∷ closed_turn ∷ refused_turn ∷ [])

-- The worker behind a refused connection, and behind a session that the server closed.
abbrev once_refused : Loop database addresses (protocol true) decoder
once_refused = record { backoff_ms = 4000; world = world; closed = []; slept = 2000 ∷ [] }

abbrev once_closed : Loop database addresses (protocol true) decoder
once_closed = record {
  backoff_ms = 4000;
  world = record world { sent = ping ∷ binary (app_keepalive 1) ∷ [] };
  closed = (ping ∷ binary (app_keepalive 1) ∷ []) ∷ [];
  slept = 2000 ∷ [];
}

run-refused : run (refused_turn ∷ []) ≡ waiting once_refused
unfolding worker_loop turns turn next_backoff
run-refused = refl

run-closed : run (refused_turn ∷ closed_turn ∷ []) ≡ waiting once_closed
unfolding worker_loop turns turn next_backoff run_session round keepalives ws_keepalive
    app_keepalive_step handle_read enter
run-closed = refl

worker_loop_backoff_example :
    Slept database addresses
      (protocol true)
      decoder
      (run (refusals (true ∷ true ∷ [])))
      (2000 ∷ 4000 ∷ [])
    × Slept database addresses
        (protocol true)
        decoder
        (run (refused_turn ∷ closed_turn ∷ refusals (true ∷ true ∷ [])))
        (2000 ∷ 4000 ∷ 8000 ∷ [])
worker_loop_backoff_example =
    worker_loop_backoff database addresses (protocol true) decoder addresses_laws (codes "aci") 3
      world (refused_turn ∷ []) closed_turn (true ∷ true ∷ []) once_refused once_closed
      (omega arith) (omega arith) run-refused refl run-closed
