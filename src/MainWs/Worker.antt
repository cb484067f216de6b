-- ===== src/MainWs/Worker.antt =====
-- `MainWsWorker` of src/manager/main_ws.rs: the thread of the receive worker. Threads are an interface.
use sigchat.Base.{ℕ, Exec, pure, map_error, attempt, ◌>>=◌, ◌>>◌}
use sigchat.Text.{Bytes}
use sigchat.Io.{ErrorKind}

pub record Threads : Type 1 where
  pub State : Type 0
  pub Handle : Type 0
  -- `thread::Builder::spawn` of `worker_loop` with the service id, the device, the password, the host and
  -- the chat window
  pub start : Bytes → ℕ → Bytes → Bytes → ℕ → Exec ErrorKind State Handle
  pub join : Handle → Exec ErrorKind State (Unit {0})

module _ (t : Threads) where
  pub record MainWsWorker : Type 0 where
    pub thread : t.Handle

  unfoldable pub spawn : Bytes → ℕ → Bytes → Bytes → ℕ → Exec ErrorKind t.State MainWsWorker
  spawn aci_service_id device_id password host chat_cid = do
    thread ←
        map_error (λ _. ErrorKind.other) (t.start aci_service_id device_id password host chat_cid)
    pure (record { thread = thread })

  unfoldable pub join : MainWsWorker → Exec ErrorKind t.State (Unit {0})
  join worker = do attempt (t.join worker.thread); pure tt
