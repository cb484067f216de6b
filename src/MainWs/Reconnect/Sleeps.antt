-- ===== src/MainWs/Reconnect/Sleeps.antt =====
-- How long the receive worker sleeps between its connections.
use sigchat.Base.{
  ℕ, suc, ◌*◌, ◌^◌, ◌%◌, ◌≤◌, ◌≡◌, refl, ap, sym, subst, ◌∙◌, Bool, true, false, List, [], ◌∷◌,
  ◌++◌, append_assoc, append-nil, Result, ok, err, min, arith, ltb, ◌==◌, ◌||◌, if◌then◌else◌,
}
use native.Mathlib.Nat.{pow-suc}
use sigchat.Text.{Bytes}
use sigchat.Pddb.{Pddb}
use sigchat.Signal.{Addresses, AddressesLaws, SignalProtocolError}
use sigchat.MainWs.Proto.{Decoder}
use sigchat.MainWs.World.{World}
use sigchat.MainWs.Envelope.{Protocol}
use sigchat.MainWs.Session.{State, looping, left, panicked}
use sigchat.MainWs.Backoff.{backoff_initial_ms, next_backoff}
use sigchat.MainWs.Reconnect.{
  Outcome, refused, no_ticktimer, session, Connection, Loop, Worker, unstarted, waiting, serving,
  died, nap, after_session, connect, turn, turns, on_device, worker_loop, begun,
}

-- Turns that are refused, with whether there is a ticktimer to sleep with.
abbrev pub refusals : List Bool → List Connection
refusals [] = []
refusals (b ∷ bs) = record { outcome = refused; sleeps = b } ∷ refusals bs

-- Whether the connection was made.
abbrev pub made : Outcome → Bool
made refused = false
made _ = true

-- From the i-th turn on: 2 s times 2 to the i, at most 64 s, where there is a ticktimer.
abbrev pub naps : ℕ → List Bool → List ℕ
naps i [] = []
naps i (b ∷ bs) = nap b (min (2000 * 2 ^ i) 64000) ++ naps (suc i) bs

next_backoff-pow :
    (ms i : ℕ) → ms ≡ min (2000 * 2 ^ i) 64000 → next_backoff ms ≡ min (2000 * 2 ^ suc i) 64000
unfolding next_backoff
next_backoff-pow ms i e = omega (arith, pow-suc 2 i)

module _ (p : Pddb) (ad : Addresses) (proto : Protocol p ad) (decoder : Decoder) where
  open ad use {ProtocolAddress, DeviceId}

  -- The worker is between two connections and has slept this.
  abbrev pub Slept : Worker p ad proto decoder → List ℕ → Type 0
  Slept (waiting l) ms = l.slept ≡ ms
  Slept unstarted ms = ⊥
  Slept (serving t l) ms = ⊥
  Slept (died l) ms = ⊥

  -- What a turn that ends has slept, and the backoff behind it.
  abbrev Rested : List ℕ → ℕ → Worker p ad proto decoder → Type 0
  Rested slept ms (waiting l) = (l.slept ≡ slept) × (l.backoff_ms ≡ ms)
  Rested slept ms _ = Unit

  after_session-Rested :
      (b : Bool) (l : Loop p ad proto decoder) (s : State p ad proto decoder)
      → Rested
          (l.slept ++ nap b l.backoff_ms)
          (next_backoff l.backoff_ms)
          (after_session p ad proto decoder b l s)
  after_session-Rested b l (looping t w) = tt
  after_session-Rested b l (left w) = (refl, refl)
  after_session-Rested b l (panicked w) = tt

  connect-Rested :
      (o : Outcome) (b : Bool) (a : ProtocolAddress) (l : Loop p ad proto decoder)
      → made o ≡ true
      → Rested
          (l.slept ++ nap b backoff_initial_ms)
          (next_backoff backoff_initial_ms)
          (connect p ad proto decoder o b a l)
  connect-Rested refused b a l h = cc
  connect-Rested no_ticktimer b a l h = (refl, refl)
  connect-Rested (session now later rounds) b a l h =
      after_session-Rested b (record l { backoff_ms = backoff_initial_ms }) _

  refusals-Slept :
      (bs : List Bool) (i : ℕ) (a : ProtocolAddress) (l : Loop p ad proto decoder)
      → l.backoff_ms ≡ min (2000 * 2 ^ i) 64000
      → Slept (turns p ad proto decoder (waiting l) (refusals bs) a) (l.slept ++ naps i bs)
  unfolding turns turn
  refusals-Slept [] i a l e = sym (append-nil l.slept)
  refusals-Slept (b ∷ bs) i a l e =
      let l' : Loop p ad proto decoder = record l {
        backoff_ms = next_backoff l.backoff_ms;
        slept = l.slept ++ nap b l.backoff_ms;
      } in
      subst (Slept (turns p ad proto decoder (waiting l') (refusals bs) a))
        (append_assoc l.slept (nap b l.backoff_ms) (naps (suc i) bs)
          ∙ ap (λ ms. l.slept ++ (nap b ms ++ naps (suc i) bs)) e)
        (refusals-Slept bs (suc i) a l' (next_backoff-pow l.backoff_ms i e))

  -- Behind a turn that connected and has ended.
  connected-Slept :
      (slept : List ℕ) (b : Bool) (bs : List Bool) (a : ProtocolAddress)
      (l : Loop p ad proto decoder)
      → Rested (slept ++ nap b backoff_initial_ms) (next_backoff backoff_initial_ms) (waiting l)
      → Slept (turns p ad proto decoder (waiting l) (refusals bs) a) (slept ++ naps 0 (b ∷ bs))
  connected-Slept slept b bs a l (e, backoff) =
      subst (Slept (turns p ad proto decoder (waiting l) (refusals bs) a))
        (ap (λ xs. xs ++ naps 1 bs) e ∙ append_assoc slept (nap b backoff_initial_ms) (naps 1 bs))
        (refusals-Slept bs 1 a l (backoff ∙ next_backoff-pow backoff_initial_ms 0 refl))

  turns-append :
      (w : Worker p ad proto decoder) (cs more : List Connection) (a : ProtocolAddress)
      → turns p ad proto decoder w (cs ++ more) a
        ≡ turns p ad proto decoder (turns p ad proto decoder w cs a) more a
  unfolding turns
  turns-append w [] more a = refl
  turns-append w (c ∷ cs) more a = turns-append (turn p ad proto decoder w c a) cs more a

  -- What the worker does behind turns that it has ended, over one address.
  abbrev Resumes : (List Connection → Worker p ad proto decoder) → List Connection → Type 0
  Resumes run before =
      (l : Loop p ad proto decoder)
      → run before ≡ waiting l
      → (a : ProtocolAddress) × ((more : List Connection)
          → run (before ++ more) ≡ turns p ad proto decoder (waiting l) more a)

  Resumes-on_device :
      (aci : Bytes) (outside : Bool) (d : Result SignalProtocolError DeviceId) (w : World p)
      (before : List Connection)
      → Resumes
          (λ cs. if outside then unstarted else on_device p ad proto decoder aci d w cs)
          before
  Resumes-on_device aci true d w before l e = cc
  Resumes-on_device aci false (err error) w before l e = cc
  Resumes-on_device aci false (ok d) w before l e = (
    ad.address_new aci d,
    λ more.
        turns-append (waiting (begun p ad proto decoder w)) before more (ad.address_new aci d)
        ∙ ap (λ v. turns p ad proto decoder v more (ad.address_new aci d)) e,
  )

  Resumes-worker_loop :
      (aci : Bytes) (device_id : ℕ) (w : World p) (before : List Connection)
      → Resumes (worker_loop p ad proto decoder aci device_id w) before
  unfolding worker_loop
  Resumes-worker_loop aci device_id w before =
      Resumes-on_device aci (device_id == 0 || ltb 127 device_id) (ad.device_new (device_id % 256))
        w before

  -- A device id from 1 to 127 starts the worker.
  worker_loop_begins :
      (al : AddressesLaws ad) (aci : Bytes) (device_id : ℕ) (w : World p)
      → 1 ≤ device_id
      → device_id ≤ 127
      → worker_loop p ad proto decoder aci device_id w [] ≡ waiting (begun p ad proto decoder w)
  unfolding worker_loop turns
  worker_loop_begins al aci device_id w lo hi =
      let same : device_id % 256 ≡ device_id = omega arith in
      let (d, new, n) = al.device_new_in_range device_id lo hi in
      let inside : (device_id == 0 || ltb 127 device_id) ≡ false = ground arith in
      rw (inside, same, new) refl

  behind_turn :
      (m m' : Loop p ad proto decoder) (c : Connection) (bs : List Bool) (a : ProtocolAddress)
      → made c.outcome ≡ true
      → turns p ad proto decoder (waiting m) (c ∷ []) a ≡ waiting m'
      → Slept
          (turns p ad proto decoder (waiting m) (c ∷ refusals bs) a)
          (m.slept ++ naps 0 (c.sleeps ∷ bs))
  unfolding turns turn
  behind_turn m m' c bs a connected ended =
      subst
        (λ w.
          Slept (turns p ad proto decoder w (refusals bs) a) (m.slept ++ naps 0 (c.sleeps ∷ bs)))
        (sym ended)
        (connected-Slept m.slept c.sleeps bs a m' (
          subst
            (Rested (m.slept ++ nap c.sleeps backoff_initial_ms) (next_backoff backoff_initial_ms))
            ended (connect-Rested c.outcome c.sleeps a m connected)))

  -- For a device id from 1 to 127: refused connections, from the start of the worker or behind a turn that
  -- connected, leave the worker waiting for the next one. From the start it has slept 2 s times 2 to the
  -- i, at most 64 s, in the i-th turn; behind a turn that connected it has slept 2 s in that turn, and in
  -- the i-th refused one behind it 2 s times 2 to the i, at most 64 s, whatever came before. A turn without
  -- a ticktimer does not sleep, and doubles all the same.
  pub worker_loop_backoff :
      (al : AddressesLaws ad) (aci : Bytes) (device_id : ℕ) (w : World p) (before : List Connection)
      (c : Connection) (bs : List Bool) (m m' : Loop p ad proto decoder)
      → 1 ≤ device_id
      → device_id ≤ 127
      → worker_loop p ad proto decoder aci device_id w before ≡ waiting m
      → made c.outcome ≡ true
      → worker_loop p ad proto decoder aci device_id w (before ++ c ∷ []) ≡ waiting m'
      → Slept (worker_loop p ad proto decoder aci device_id w (refusals bs)) (naps 0 bs)
        × Slept
            (worker_loop p ad proto decoder aci device_id w (before ++ c ∷ refusals bs))
            (m.slept ++ naps 0 (c.sleeps ∷ bs))
  worker_loop_backoff al aci device_id w before c bs m m' lo hi came connected ended =
      let first = begun p ad proto decoder w in
      let (a0, from_start) =
        Resumes-worker_loop aci device_id w [] first
          (worker_loop_begins al aci device_id w lo hi) in
      let (a, resumed) = Resumes-worker_loop aci device_id w before m came in
      (
        subst (λ v. Slept v (naps 0 bs)) (sym (from_start (refusals bs)))
            (refusals-Slept bs 0 a0 first refl),
        subst (λ v. Slept v (m.slept ++ naps 0 (c.sleeps ∷ bs))) (sym (resumed (c ∷ refusals bs)))
            (behind_turn m m' c bs a connected (sym (resumed (c ∷ [])) ∙ ended)),
      )
