-- ===== src/WsServer/Server.antt =====
-- `SignalWsServer` of src/manager/ws_server.rs: the caller's side of the worker. The kernel and its
-- buffers are an interface.
pub mod Leak
use sigchat.Base.{
  ℕ, zero, suc, ◌+◌, ◌≤◌, ◌≡◌, refl, ap, ◌∙◌, Bool, true, false, [], Option, none, some, Result, ok,
  err, Exec, pure, raise, lift, ◌>>=◌, ok_or, arith, length, replicate,
}
use sigchat.Io.{ErrorKind}
use sigchat.Account.Fields.{Failure, failed, panicked}
use sigchat.WsServer.Buffer.{
  WsResultBuf, WsResult, PendingResult, Fits, IsArray, fill, take_result, as_result,
  ws_provision_max, take_result-fill,
}

pub record Kernel : Type 1 where
  pub State : Type 0
  pub Ws : Type 0
  pub Sid : Type 0
  pub Cid : Type 0
  pub Buf : Type 0
  pub create_server : State → Option Sid × State
  pub connect : Sid → State → Option Cid × State
  -- `thread::Builder::spawn` of `worker_loop`, with its limit in seconds
  pub start_thread : Sid → Ws → ℕ → State → Bool × State
  -- `Buffer::into_buf`, `lend_mut` with the opcode, and `to_original`
  pub into_buf : WsResultBuf → Option Buf
  pub lend_mut : Buf → Cid → ℕ → State → Option Buf × State
  pub to_original : Buf → Option WsResultBuf
  -- `send_message` of a `new_blocking_scalar` with the opcode
  pub blocking_scalar : Cid → ℕ → State → Bool × State
  pub disconnect : Cid → State → State

-- `WsResultBuf::empty`.
unfoldable pub empty : WsResultBuf
empty = record { status = 255; len = 0; bytes = replicate ws_provision_max 0 }

module _ (k : Kernel) where
  open k use {State, Ws, Sid, Cid, Buf}

  pub record SignalWsServer : Type 0 where
    pub cid : Cid

  -- `expect` of what the kernel answers.
  abbrev pub expect : {A : Type 0} → (State → Option A × State) → Exec Failure State A
  expect call s = let (a, s') = call s in (ok_or a panicked, s')

  abbrev pub threaded : Cid → Bool → Result Failure SignalWsServer
  threaded c true = ok (record { cid = c })
  threaded c false = err (failed ErrorKind.other)

  unfoldable pub spawn : Ws → ℕ → Exec Failure State SignalWsServer
  spawn ws deadline_secs = do
    sid ← expect k.create_server
    c ← expect (k.connect sid)
    λ s. let (started, s') = k.start_thread sid ws deadline_secs s in (threaded c started, s')

  -- What is made of a page that came back.
  abbrev pub of_page : Option WsResultBuf → WsResult
  of_page none = WsResult.other_error
  of_page (some result) = take_result result

  abbrev pub original : Option Buf → WsResult
  original none = WsResult.other_error
  original (some ipc) = of_page (k.to_original ipc)

  abbrev pub lend : Option Buf → Cid → State → WsResult × State
  lend none c s = (WsResult.other_error, s)
  lend (some ipc) c s = let (back, s') = k.lend_mut ipc c 0 s in (original back, s')

  unfoldable pub wait_and_take_binary : SignalWsServer → State → WsResult × State
  wait_and_take_binary server s = lend (k.into_buf empty) server.cid s

  abbrev pub cancelled : Bool → Result ErrorKind (Unit {0})
  cancelled true = ok tt
  cancelled false = err ErrorKind.other

  unfoldable pub cancel : SignalWsServer → Exec ErrorKind State (Unit {0})
  cancel server s =
      let (replied, s') = k.blocking_scalar server.cid 1 s in
      (cancelled replied, k.disconnect server.cid s')

length-replicate : (n x : ℕ) → length (replicate n x) ≡ n
length-replicate zero x = refl
length-replicate (suc n) x = omega (arith, length-replicate n x)

empty-IsArray : IsArray empty
unfolding empty
empty-IsArray = length-replicate ws_provision_max 0

-- Where the page of a wait is lent, filled by the worker with a result whose bytes fit, and handed back as
-- it was written, the wait answers that result.
pub wait_and_take_binary-fill :
    (k : Kernel) (server : SignalWsServer k) (s s' : k.State) (lent back : k.Buf)
    (result : PendingResult)
    → Fits result
    → k.into_buf empty ≡ some lent
    → k.lend_mut lent server.cid 0 s ≡ (some back, s')
    → k.to_original back ≡ fill empty result
    → wait_and_take_binary k server s ≡ (as_result result, s')
unfolding wait_and_take_binary
wait_and_take_binary-fill k server s s' lent back result fits into lends written =
    let (filled, fills, reads) = take_result-fill empty result empty-IsArray fits in
    ap (λ b. lend k b server.cid s) into
    ∙ (ap (λ (r : Option k.Buf × k.State). (original k r.0, r.1)) lends
        ∙ (ap (λ o. (of_page k o, s')) (written ∙ fills) ∙ ap (λ r. (r, s')) reads))
