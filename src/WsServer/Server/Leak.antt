-- ===== src/WsServer/Server/Leak.antt =====
-- What the caller's side of the provisioning worker asks of the kernel to set it up and to end it.
use sigchat.Base.{
  ℕ, ◌≡◌, ◌⊎◌, inl, inr, refl, ap, ◌∙◌, Bool, true, false, List, [], ◌∷◌, ◌++◌, Option, none, some,
  Result, ok, err, Exec, continue, ok_or, subst,
}
use sigchat.Account.Fields.{Failure, failed, panicked}
use sigchat.WsServer.Server.{Kernel, SignalWsServer, spawn, cancel, expect, threaded}

module _ (k : Kernel) where
  open k use {State, Ws, Sid, Cid}

  pub data Call : Type 0 where
    created : Sid → Call
    connected : Cid → Call
    -- a blocking scalar with its opcode
    asked : Cid → ℕ → Call
    disconnected : Cid → Call

  abbrev answered : {A : Type 0} → (A → Call) → Option A → List Call
  answered call none = []
  answered call (some a) = call a ∷ []

  -- The kernel with a list of its calls beside its state.
  abbrev pub watched : Kernel
  watched = record k {
    State = State × List Call;
    create_server = λ w. let (o, s) = k.create_server w.0 in (o, (s, w.1 ++ answered created o));
    connect = λ sid w. let (o, s) = k.connect sid w.0 in (o, (s, w.1 ++ answered connected o));
    start_thread = λ sid ws secs w. let (b, s) = k.start_thread sid ws secs w.0 in (b, (s, w.1));
    lend_mut = λ ipc c id w. let (o, s) = k.lend_mut ipc c id w.0 in (o, (s, w.1));
    blocking_scalar =
        λ c id w. let (b, s) = k.blocking_scalar c id w.0 in (b, (s, w.1 ++ asked c id ∷ []));
    disconnect = λ c w. (k.disconnect c w.0, w.1 ++ disconnected c ∷ []);
  }

  abbrev Spawned : Type 0
  Spawned = Result Failure (SignalWsServer watched)

  -- The calls behind a spawn, by what it answers.
  abbrev pub Calls : Spawned → List Call → Type 0
  Calls (ok server) log = (sid : Sid) × (log ≡ created sid ∷ connected server.cid ∷ [])
  Calls (err (failed e)) log = (sid : Sid) × (c : Cid) × (log ≡ created sid ∷ connected c ∷ [])
  Calls (err panicked) log = (log ≡ []) ⊎ ((sid : Sid) × (log ≡ created sid ∷ []))

  threaded-Calls :
      (sid : Sid) (c : Cid) (started : Bool)
      → Calls (threaded watched c started) (created sid ∷ connected c ∷ [])
  threaded-Calls sid c true = (sid, refl)
  threaded-Calls sid c false = (sid, c, refl)

  abbrev starts : Sid → Ws → ℕ → Cid → Exec Failure (State × List Call) (SignalWsServer watched)
  starts sid ws secs c w =
      let (started, w') = watched.start_thread sid ws secs w in (threaded watched c started, w')

  connects-Calls :
      (ws : Ws) (secs : ℕ) (sid : Sid) (o : Option Cid) (s : State)
      → (let (r, w) =
            continue
              (ok_or o panicked)
              (starts sid ws secs)
              (s, created sid ∷ answered connected o) in
          Calls r w.1)
  connects-Calls ws secs sid none s = inr (sid, refl)
  connects-Calls ws secs sid (some c) s = threaded-Calls sid c (k.start_thread sid ws secs s).0

  creates-Calls :
      (ws : Ws) (secs : ℕ) (o : Option Sid) (s : State)
      → (let (r, w) =
            continue
              (ok_or o panicked)
              (λ sid v.
                let (c, v') = expect watched (watched.connect sid) v in
                continue c (starts sid ws secs) v')
              (s, answered created o) in
          Calls r w.1)
  creates-Calls ws secs none s = inl refl
  creates-Calls ws secs (some sid) s =
      connects-Calls ws secs sid (k.connect sid s).0 (k.connect sid s).1

  -- A spawn that succeeds has created one server and one connection to it. One that fails without a panic
  -- has done so too, and has ended neither.
  pub spawn-Calls :
      (ws : Ws) (secs : ℕ) (s : State) → (let (r, w) = spawn watched ws secs (s, []) in Calls r w.1)
  unfolding spawn
  spawn-Calls ws secs s = creates-Calls ws secs (k.create_server s).0 (k.create_server s).1

  -- A cancel asks once with the opcode 1 and then disconnects, whatever was answered.
  pub cancel_calls :
      (server : SignalWsServer watched) (s : State) (log : List Call)
      → (cancel watched server (s, log)).1.1
        ≡ (log ++ asked server.cid 1 ∷ []) ++ disconnected server.cid ∷ []
  unfolding cancel
  cancel_calls server s log = refl

  -- A server that was spawned and is then cancelled, with whatever answer, has had one connection, which
  -- was asked to stop once and is disconnected at the end.
  pub cancel-spawn :
      (ws : Ws) (secs : ℕ) (s : State) (server : SignalWsServer watched)
      → (spawn watched ws secs (s, [])).0 ≡ ok server
      → (sid : Sid) × ((cancel watched server (spawn watched ws secs (s, [])).1).1.1
          ≡ created sid ∷ connected server.cid ∷ asked server.cid 1 ∷ disconnected server.cid ∷ [])
  cancel-spawn ws secs s server h =
      let w = (spawn watched ws secs (s, [])).1 in
      let (sid, e) = subst (λ r. Calls r w.1) h (spawn-Calls ws secs s) in
      (
        sid,
        cancel_calls server w.0 w.1
            ∙ ap (λ log. (log ++ asked server.cid 1 ∷ []) ++ disconnected server.cid ∷ []) e,
      )
