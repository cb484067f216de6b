-- ===== src/App.antt =====
-- src/main.rs and src/api.rs: the process of the application. What `SigChat` of src/lib.rs does, the kernel
-- and the name server are an interface; a message of the loop is what the kernel returned.
pub mod Calls
pub mod Does
pub mod Turns
pub mod Whole
pub mod Worker
pub mod Offline
pub mod Posts
use sigchat.Base.{
  ℕ, Bool, true, false, List, [], ◌∷◌, Option, none, some, Result, ok, err, Exec, pure, raise,
  ◌>>=◌, ◌>>◌, ◌==◌, if◌then◌else◌,
}
use sigchat.Text.{Bytes}
use sigchat.Account.Fields.{Failure, failed, panicked}

pub data SigchatOp : Type 0 where
  event menu post rawkeys quit : SigchatOp

unfoldable pub from_usize : ℕ → Option SigchatOp
from_usize id =
    if id == 0
    then some event
    else if id == 1
    then some menu
    else if id == 2
    then some post
    else if id == 3
    then some rawkeys
    else if id == 4
    then some quit
    else none

-- A message: the identifier, the first word that `msg_scalar_unpack!` binds, where it enters its block,
-- and the page of a memory message with the text that it holds, where it holds one.
pub record Message : Type 0 where
  pub id : ℕ
  pub scalar : Option ℕ
  pub memory : Option (Option Bytes)

-- What a system call on the limits answers.
pub data Answer : Type 0 where
  scalar2 : ℕ → ℕ → Answer
  other_answer refused : Answer

abbrev pub heap_larger_limit : ℕ
heap_larger_limit = 2097152

-- What `wrapped_main` calls. A `Bool` result is false where the call fails.
pub record Process : Type 1 where
  pub State : Type 0
  -- `AdjustProcessLimit(HeapMaximum, current, new)`
  pub adjust_heap : ℕ → ℕ → State → Answer × State
  -- `init_wait`, `XousNames::new`, `register_name` with the connections and the chat window, `menu_add`
  pub init_log : State → Bool × State
  pub register : State → Bool × State
  pub menu_add : State → Bool × State
  -- `SigChat::new`, and its methods
  pub new : Exec Failure State (Unit {0})
  pub is_ready : State → Bool
  pub connect : Exec Failure State Bool
  pub dialogue_set : Exec Failure State (Unit {0})
  pub start_receive : Exec Failure State Bool
  pub redraw : State → State
  pub post : Bytes → Exec Failure State (Unit {0})
  -- the chat crate's number for `Event::Focus`
  pub is_focus : ℕ → Bool
  -- `unregister_server` and `destroy_server`
  pub unregister_server : State → Bool × State
  pub destroy_server : State → Bool × State

-- Whether the loop goes on.
pub data Next : Type 0 where
  again leave : Next

module _ (o : Process) where
  open o use {State}

  -- The local variables of the loop with the rest of the state.
  pub record App : Type 0 where
    pub first_focus : Bool
    pub user_post : Option Bytes
    pub state : State

  abbrev pub Run : Type 0 → Type 0
  Run A = Exec Failure App A

  abbrev pub on_state : {A : Type 0} → Exec Failure State A → Run A
  on_state m w = let (r, s) = m w.state in (r, record w { state = s })

  -- `.unwrap()` or `.expect(…)` of a call
  abbrev pub expect : Bool → Run (Unit {0})
  expect true = pure tt
  expect false = raise panicked

  abbrev pub call : (State → Bool × State) → Run (Unit {0})
  call f w = let (b, s) = f w.state in expect b (record w { state = s })

  -- A result of which an error is only logged.
  abbrev pub logged : {A : Type 0} → Result Failure A → Result Failure (Option A)
  logged (ok a) = ok (some a)
  logged (err (failed e)) = ok none
  logged (err panicked) = err panicked

  abbrev pub log_error : {A : Type 0} → Exec Failure State A → Run (Option A)
  log_error m w = let (r, s) = m w.state in (logged r, record w { state = s })

  abbrev pub focused : Run (Unit {0})
  focused w = (ok tt, record w { first_focus = false })

  -- Behind a connection: the room's dialogue, and the receive worker, whose result is only logged.
  unfoldable pub receive : Run (Unit {0})
  receive = do on_state o.dialogue_set; log_error o.start_receive; pure tt

  -- The result of `connect` at the start, where `first_focus` was reset before.
  abbrev pub started : Option Bool → Run (Unit {0})
  started (some true) = receive
  started (some false) = pure tt
  started none = pure tt

  -- The connection of an account that is registered already.
  unfoldable pub auto_connect : Bool → Run (Unit {0})
  auto_connect true = do focused; connected ← log_error o.connect; started connected
  auto_connect false = pure tt

  abbrev pub focus_connected : Option Bool → Run (Unit {0})
  focus_connected (some true) = focused >> receive
  focus_connected (some false) = pure tt
  focus_connected none = pure tt

  unfoldable pub first_connect : Bool → Run (Unit {0})
  first_connect true = do connected ← log_error o.connect; focus_connected connected
  first_connect false = pure tt

  -- `Event::Focus`
  unfoldable pub focus : Run (Unit {0})
  focus = do
    first ← λ w. (ok w.first_focus, w)
    first_connect first
    λ w. (ok tt, record w { state = o.redraw w.state })

  abbrev pub chat_event : Option ℕ → Run (Unit {0})
  chat_event none = pure tt
  chat_event (some event_code) = if o.is_focus event_code then focus else pure tt

  abbrev pub keep : Bytes → Run (Unit {0})
  keep text w = (ok tt, record w { user_post = some text })

  -- A text that is not empty is kept, and posted behind the match.
  abbrev pub captured : Option (Option Bytes) → Run (Unit {0})
  captured none = raise panicked
  captured (some none) = raise panicked
  captured (some (some [])) = pure tt
  captured (some (some (c ∷ s))) = keep (c ∷ s)

  -- The match on the opcode.
  unfoldable pub handle : Option SigchatOp → Message → Run Next
  handle (some event) msg = chat_event msg.scalar >> pure again
  handle (some menu) msg = pure again
  handle (some post) msg = captured msg.memory >> pure again
  handle (some rawkeys) msg = pure again
  handle (some quit) msg = pure leave
  handle none msg = pure again

  abbrev pub posted : Option Bytes → Run (Unit {0})
  posted none = pure tt
  posted (some text) = do on_state (o.post text); λ w. (ok tt, record w { user_post = none })

  abbrev pub flush : Next → Run Next
  flush leave = pure leave
  flush again = do kept ← λ w. (ok w.user_post, w); posted kept; pure again

  -- One turn of the loop; `none` is a `receive_message` that fails.
  unfoldable pub turn : Option Message → Run Next
  turn none = raise panicked
  turn (some msg) = handle (from_usize msg.id) msg >>= flush

  abbrev pub unless_left : Run Next → Next → Run Next
  unless_left rest again = rest
  unless_left rest leave = pure leave

  -- The loop over the messages that came so far; `again` is a loop that waits for the next one.
  unfoldable pub main_loop : List (Option Message) → Run Next
  main_loop [] = pure again
  main_loop (msg ∷ msgs) = turn msg >>= unless_left (main_loop msgs)

  abbrev pub adjust : ℕ → Run Answer
  adjust current w =
      let (a, s) = o.adjust_heap current heap_larger_limit w.state in (ok a, record w { state = s })

  -- `.unwrap()` of the second call
  abbrev pub enlarged : Answer → Run (Unit {0})
  enlarged refused = raise panicked
  enlarged other_answer = pure tt
  enlarged (scalar2 n m) = pure tt

  abbrev pub enlarge : Answer → Run (Unit {0})
  enlarge (scalar2 n current_limit) =
      if n == 1 then adjust current_limit >>= enlarged else raise panicked
  enlarge other_answer = raise panicked
  enlarge refused = raise panicked

  -- Up to the loop.
  unfoldable pub set_up : Run (Unit {0})
  set_up = do
    call o.init_log
    answer ← adjust 0
    enlarge answer
    call o.register
    call o.menu_add
    on_state o.new
    ready ← λ w. (ok (o.is_ready w.state), w)
    auto_connect ready

  -- Behind the loop; then the process ends.
  abbrev pub clean_up : Next → Run Next
  clean_up again = pure again
  clean_up leave = do call o.unregister_server; call o.destroy_server; pure leave

  -- The process, with the messages that came; `again` is one that still runs.
  unfoldable pub wrapped_main : List (Option Message) → State → Result Failure Next × App
  wrapped_main msgs s =
      (set_up >> main_loop msgs >>= clean_up)
        (record { first_focus = true; user_post = none; state = s })
