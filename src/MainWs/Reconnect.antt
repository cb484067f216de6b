-- ===== src/MainWs/Reconnect.antt =====
-- `worker_loop` of src/manager/main_ws.rs with the sessions that it runs: a connection, its session, a
-- sleep, again. What the server and the clock answer to one connection is the turn's input.
pub mod Counted
pub mod Sleeps
use sigchat.Base.{
  ℕ, Bool, true, false, List, [], ◌∷◌, ◌++◌, ◌||◌, Result, ok, err, ltb, ◌==◌, if◌then◌else◌, ◌%◌,
}
use sigchat.Text.{Bytes}
use sigchat.Pddb.{Pddb}
use sigchat.Signal.{Addresses, SignalProtocolError}
use sigchat.MainWs.Proto.{Decoder}
use sigchat.MainWs.World.{World, Frame}
use sigchat.MainWs.Envelope.{Protocol}
use sigchat.MainWs.Session.{Round, Timers, State, looping, left, panicked, enter, run_session}
use sigchat.MainWs.Backoff.{backoff_initial_ms, next_backoff}

-- The connection is refused, or its session finds no ticktimer, or it has its two clock readings on entry
-- and its rounds.
pub data Outcome : Type 0 where
  refused no_ticktimer : Outcome
  session : ℕ → ℕ → List Round → Outcome

-- A turn, with whether there is a ticktimer to sleep with at its end.
pub record Connection : Type 0 where
  pub outcome : Outcome
  pub sleeps : Bool

abbrev pub nap : Bool → ℕ → List ℕ
nap true ms = ms ∷ []
nap false ms = []

module _ (p : Pddb) (ad : Addresses) (proto : Protocol p ad) (decoder : Decoder) where
  open ad use {ProtocolAddress, DeviceId}

  -- What was sent over the sockets that are closed, and the sleeps so far; the world has what was sent over
  -- the socket that is open.
  pub record Loop : Type 0 where
    pub backoff_ms : ℕ
    pub world : World p
    pub closed : List (List Frame)
    pub slept : List ℕ

  -- The worker has not started, is between two connections, is in a session, or its thread has panicked.
  pub data Worker : Type 0 where
    unstarted : Worker
    waiting : Loop → Worker
    serving : Timers → Loop → Worker
    died : Loop → Worker

  -- The sleep at the end of a turn.
  abbrev pub rest : Bool → Loop → Worker
  rest sleeps l = waiting (record l {
    backoff_ms = next_backoff l.backoff_ms;
    slept = l.slept ++ nap sleeps l.backoff_ms;
  })

  -- Behind a session; the socket of one that has left is dropped.
  abbrev pub after_session : Bool → Loop → State p ad proto decoder → Worker
  after_session sleeps l (looping t w) = serving t (record l { world = w })
  after_session sleeps l (left w) =
      rest sleeps (record l { world = w; closed = l.closed ++ w.sent ∷ [] })
  after_session sleeps l (panicked w) = died (record l { world = w })

  abbrev pub connect : Outcome → Bool → ProtocolAddress → Loop → Worker
  connect refused sleeps local_addr l = rest sleeps l
  connect no_ticktimer sleeps local_addr l =
      rest sleeps (record l { backoff_ms = backoff_initial_ms; closed = l.closed ++ [] ∷ [] })
  connect (session now later rounds) sleeps local_addr l =
      after_session sleeps (record l { backoff_ms = backoff_initial_ms })
        (run_session p ad proto decoder (looping (enter now later) (record l.world { sent = [] }))
          rounds local_addr)

  unfoldable pub turn : Worker → Connection → ProtocolAddress → Worker
  turn (waiting l) c local_addr = connect c.outcome c.sleeps local_addr l
  turn unstarted c local_addr = unstarted
  turn (serving t l) c local_addr = serving t l
  turn (died l) c local_addr = died l

  -- The turns that the environment provides, as far as the worker takes them.
  unfoldable pub turns : Worker → List Connection → ProtocolAddress → Worker
  turns w [] local_addr = w
  turns w (c ∷ cs) local_addr = turns (turn w c local_addr) cs local_addr

  abbrev pub begun : World p → Loop
  begun w = record { backoff_ms = backoff_initial_ms; world = w; closed = []; slept = [] }

  abbrev pub on_device :
      Bytes → Result SignalProtocolError DeviceId → World p → List Connection → Worker
  on_device aci_service_id (err e) w cs = unstarted
  on_device aci_service_id (ok local_device) w cs =
      turns (waiting (begun w)) cs (ad.address_new aci_service_id local_device)

  unfoldable pub worker_loop : Bytes → ℕ → World p → List Connection → Worker
  worker_loop aci_service_id device_id w cs =
      if device_id == 0 || ltb 127 device_id
      then unstarted
      else on_device aci_service_id (ad.device_new (device_id % 256)) w cs
