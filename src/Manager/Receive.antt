-- ===== src/Manager/Receive.antt =====
-- `Manager::start_receive` of src/manager.rs over the receive worker of src/manager/main_ws.rs.
use sigchat.Base.{
  ℕ, ◌≡◌, refl, Option, none, some, Result, ok, err, Exec, pure, ◌>>=◌, ◌>>◌, map_error, ap, sym,
  ◌∙◌,
}
use sigchat.Text.{Bytes}
use sigchat.Io.{ErrorKind}
use sigchat.Account.Fields.{Account, chat_host}
use sigchat.MainWs.Worker.{Threads, MainWsWorker, spawn}
use sigchat.Manager.Config.{Manager, start_receive, started}

module _ (t : Threads) {Host : Type 0} (host_text : Host → Bytes) where
  -- `spawn` with its worker dropped, which leaves the thread running.
  abbrev pub spawn_detached : Bytes → ℕ → Bytes → Bytes → ℕ → Exec ErrorKind t.State (Unit {0})
  spawn_detached aci device password host chat_cid =
      spawn t aci device password host chat_cid >> pure tt

  -- The account's thread was started from the state `s`, with its own credentials, and left `s'`.
  abbrev pub Receiving : Account Host → ℕ → t.State → t.State → Type 0
  Receiving a chat_cid s s' =
      (aci : Bytes) × (password : Bytes) × (thread : t.Handle) × (a.aci_service_id ≡ some aci)
      × (a.password ≡ some password)
      × (t.start aci a.device_id password (chat_host (host_text a.host) a) chat_cid s
          ≡ (ok thread, s'))

  abbrev as_worker : t.Handle → MainWsWorker t
  as_worker thread = record { thread = thread }

  abbrev detached : Exec ErrorKind t.State t.Handle → Exec ErrorKind t.State (Unit {0})
  detached start =
      map_error (λ _. ErrorKind.other)
        ((map_error (λ _. ErrorKind.other) start >>= λ thread. pure (as_worker thread)) >> pure tt)

  thread_of :
      (start : Exec ErrorKind t.State t.Handle) (s : t.State)
      (answer : Result ErrorKind t.Handle × t.State)
      → start s ≡ answer
      → (detached (λ _. answer) s).0 ≡ ok tt
      → (thread : t.Handle) × (start s ≡ (ok thread, (detached start s).1))
  thread_of start s (ok thread, s') ran h =
      (thread, ran ∙ ap (λ w. (ok thread, w)) (ap (λ r. (detached (λ _. r) s).1) (sym ran)))
  thread_of start s (err e, s') ran h = cc

  started-Receiving :
      (a : Account Host) (chat_cid : ℕ) (s : t.State) (aci password : Option Bytes)
      → a.aci_service_id ≡ aci
      → a.password ≡ password
      → (started host_text spawn_detached a chat_cid aci password s).0 ≡ ok tt
      → Receiving a chat_cid s (started host_text spawn_detached a chat_cid aci password s).1
  unfolding spawn
  started-Receiving a chat_cid s (some aci) (some password) has_aci has_password h =
      let start = t.start aci a.device_id password (chat_host (host_text a.host) a) chat_cid in
      let (thread, ran) = thread_of start s (start s) refl h in
      (aci, password, thread, has_aci, has_password, ran)
  started-Receiving a chat_cid s none password has_aci has_password h = cc
  started-Receiving a chat_cid s (some aci) none has_aci has_password h = cc

  -- Where receiving has started, the account has a service id and a password, and one thread was started
  -- with them, the account's device and its chat host.
  pub start_receive-Receiving :
      {Url : Type 0} (m : Manager Host Url) (chat_cid : ℕ) (s : t.State)
      → (start_receive host_text spawn_detached m chat_cid s).0 ≡ ok tt
      → Receiving m.account chat_cid s (start_receive host_text spawn_detached m chat_cid s).1
  unfolding start_receive
  start_receive-Receiving m chat_cid s h =
      started-Receiving m.account chat_cid s m.account.aci_service_id m.account.password refl refl h
