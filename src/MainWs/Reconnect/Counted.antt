-- ===== src/MainWs/Reconnect/Counted.antt =====
-- The requests and the sleeps of the whole receive worker.
use sigchat.Base.{
  ℕ, ◌≤◌, ◌%◌, append-nil, refl, subst, sym, Bool, true, false, List, [], ◌∷◌, ◌++◌, Result, ok,
  err, All, arith, if◌then◌else◌, ◌||◌, ◌==◌, ltb,
}
use sigchat.Text.{Bytes}
use sigchat.Pddb.{Pddb}
use sigchat.Signal.{Addresses, SignalProtocolError}
use sigchat.MainWs.Proto.{Decoder}
use sigchat.MainWs.World.{World, Frame}
use sigchat.MainWs.Envelope.{Protocol}
use sigchat.MainWs.Session.{State, looping, left, panicked}
use sigchat.MainWs.Session.Counted.{request_ids, Counted, CountedTo}
use sigchat.MainWs.Session.Ids.{IsCounted, run_session-IsCounted}
use sigchat.MainWs.Backoff.{backoff_initial_ms, backoff_max_ms, next_backoff}
use sigchat.MainWs.Reconnect.{
  Outcome, refused, no_ticktimer, session, Connection, Loop, Worker, unstarted, waiting, serving,
  died, nap, rest, after_session, connect, turn, turns, on_device, worker_loop,
}

abbrev pub InRange : ℕ → Type 0
InRange ms = (backoff_initial_ms ≤ ms) × (ms ≤ backoff_max_ms)

-- The requests sent over one socket are numbered from 1.
abbrev pub SentCounted : List Frame → Type 0
SentCounted frames = Counted (request_ids frames)

All-append :
    {A : Type 0} (P : A → Type 0) (xs : List A) (x : A) → All P xs → P x → All P (xs ++ x ∷ [])
All-append P [] x all px = (px, tt)
All-append P (y ∷ xs) x all px = (all.0, All-append P xs x all.1 px)

nap-InRange :
    (b : Bool) (slept : List ℕ) (ms : ℕ)
    → All InRange slept
    → InRange ms
    → All InRange (slept ++ nap b ms)
nap-InRange true slept ms all h = All-append InRange slept ms all h
nap-InRange false slept ms all h = subst (All InRange) (sym (append-nil slept)) all

next_backoff-InRange : (ms : ℕ) → InRange ms → InRange (next_backoff ms)
unfolding next_backoff
next_backoff-InRange ms h = ground arith

module _ (p : Pddb) (ad : Addresses) (proto : Protocol p ad) (decoder : Decoder) where
  open ad use {ProtocolAddress, DeviceId}

  -- Each closed socket is counted, and each sleep, the next one too, lasts from 2 to 64 seconds.
  abbrev pub LoopCounted : Loop p ad proto decoder → Type 0
  LoopCounted l = All SentCounted l.closed × All InRange l.slept × InRange l.backoff_ms

  abbrev pub WorkerCounted : Worker p ad proto decoder → Type 0
  WorkerCounted unstarted = Unit
  WorkerCounted (waiting l) = LoopCounted l
  WorkerCounted (serving t l) =
      LoopCounted l × CountedTo (request_ids l.world.sent) t.next_request_id
  WorkerCounted (died l) = LoopCounted l × SentCounted l.world.sent

  rest-WorkerCounted :
      (b : Bool) (l : Loop p ad proto decoder)
      → LoopCounted l
      → WorkerCounted (rest p ad proto decoder b l)
  rest-WorkerCounted b l (closed, slept, backoff) = (
    closed,
    nap-InRange b l.slept l.backoff_ms slept backoff,
    next_backoff-InRange l.backoff_ms backoff,
  )

  after_session-WorkerCounted :
      (b : Bool) (l : Loop p ad proto decoder) (s : State p ad proto decoder)
      → LoopCounted l
      → IsCounted p ad proto decoder s
      → WorkerCounted (after_session p ad proto decoder b l s)
  after_session-WorkerCounted b l (looping t w) h c = (h, c)
  after_session-WorkerCounted b l (left w) (closed, slept, backoff) c =
      rest-WorkerCounted b (record l { world = w; closed = l.closed ++ w.sent ∷ [] })
        (All-append SentCounted l.closed w.sent closed c, slept, backoff)
  after_session-WorkerCounted b l (panicked w) h c = (h, c)

  connect-WorkerCounted :
      (o : Outcome) (b : Bool) (a : ProtocolAddress) (l : Loop p ad proto decoder)
      → LoopCounted l
      → WorkerCounted (connect p ad proto decoder o b a l)
  connect-WorkerCounted refused b a l h = rest-WorkerCounted b l h
  connect-WorkerCounted no_ticktimer b a l (closed, slept, backoff) =
      rest-WorkerCounted b
        (record l { backoff_ms = backoff_initial_ms; closed = l.closed ++ [] ∷ [] })
        (All-append SentCounted l.closed [] closed (0, refl), slept, (omega arith, omega arith))
  connect-WorkerCounted (session now later rounds) b a l (closed, slept, backoff) =
      after_session-WorkerCounted b (record l { backoff_ms = backoff_initial_ms }) _
        (closed, slept, (omega arith, omega arith))
        (run_session-IsCounted p ad proto decoder now later (record l.world { sent = [] }) rounds a
          refl)

  turns-WorkerCounted :
      (w : Worker p ad proto decoder) (cs : List Connection) (a : ProtocolAddress)
      → WorkerCounted w
      → WorkerCounted (turns p ad proto decoder w cs a)
  unfolding turns turn
  turns-WorkerCounted w [] a h = h
  turns-WorkerCounted (waiting l) (c ∷ cs) a h =
      turns-WorkerCounted (connect p ad proto decoder c.outcome c.sleeps a l) cs a
        (connect-WorkerCounted c.outcome c.sleeps a l h)
  turns-WorkerCounted unstarted (c ∷ cs) a h = turns-WorkerCounted unstarted cs a h
  turns-WorkerCounted (serving t l) (c ∷ cs) a h = turns-WorkerCounted (serving t l) cs a h
  turns-WorkerCounted (died l) (c ∷ cs) a h = turns-WorkerCounted (died l) cs a h

  on_device-WorkerCounted :
      (aci : Bytes) (d : Result SignalProtocolError DeviceId) (w : World p) (cs : List Connection)
      → WorkerCounted (on_device p ad proto decoder aci d w cs)
  on_device-WorkerCounted aci (ok d) w cs =
      turns-WorkerCounted _ cs (ad.address_new aci d) (tt, tt, (omega arith, omega arith))
  on_device-WorkerCounted aci (err e) w cs = tt

  in_range-WorkerCounted :
      (outside : Bool) (w : Worker p ad proto decoder)
      → WorkerCounted w
      → WorkerCounted (if outside then unstarted else w)
  in_range-WorkerCounted true w h = tt
  in_range-WorkerCounted false w h = h

  -- In every run of the receive worker, over however many connections and sessions: the requests that were
  -- sent over each socket are numbered 1, 2, 3 and so on, wrapping at 2^64, with each new socket starting
  -- again at 1, and each sleep between two connections lasts from 2 to 64 seconds.
  pub worker_loop-WorkerCounted :
      (aci : Bytes) (device_id : ℕ) (w : World p) (cs : List Connection)
      → WorkerCounted (worker_loop p ad proto decoder aci device_id w cs)
  unfolding worker_loop
  worker_loop-WorkerCounted aci device_id w cs =
      in_range-WorkerCounted (device_id == 0 || ltb 127 device_id) _
        (on_device-WorkerCounted aci (ad.device_new (device_id % 256)) w cs)
