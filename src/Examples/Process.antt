-- ===== src/Examples/Process.antt =====
-- The theorems on the process at concrete inputs.
use sigchat.Base.{◌≡◌, refl, Bool, true, false, List, [], ◌∷◌, Option, none, some, ok, ◌==◌, ◌>>◌}
use sigchat.Text.{Bytes, codes}
use sigchat.App.{
  Process, Message, again, scalar2, from_usize, auto_connect, main_loop, wrapped_main, set_up, turn,
  handle, focus, first_connect, receive,
}
use sigchat.App.Calls.{recorded}
use sigchat.App.Does.{Recorded, view}
use sigchat.App.Worker.{IsOnce, connections, workers, wrapped_main-AtMostOnce}
use sigchat.App.Offline.{auto_connect-offline}
use sigchat.App.Posts.{texts, wrapped_main-posts_of}

-- A process whose calls succeed, with or without a registered account, on or off the network.
abbrev process : Bool → Bool → Process
process registered online = record {
  State = Unit {0};
  adjust_heap = λ c n s. (scalar2 1 4096, s);
  init_log = λ s. (true, s);
  register = λ s. (true, s);
  menu_add = λ s. (true, s);
  new = λ s. (ok tt, s);
  is_ready = λ s. registered;
  connect = λ s. (ok online, s);
  dialogue_set = λ s. (ok tt, s);
  start_receive = λ s. (ok true, s);
  redraw = λ s. s;
  post = λ text s. (ok tt, s);
  is_focus = λ code. code == 0;
  unregister_server = λ s. (true, s);
  destroy_server = λ s. (true, s);
}

abbrev focusing : Message
focusing = record { id = 0; scalar = some 0; memory = none }

abbrev posting : Bytes → Message
posting text = record { id = 2; scalar = none; memory = some (some text) }

abbrev messages : List (Option Message)
messages =
    some focusing
    ∷ some (posting (codes "hi"))
    ∷ some focusing
    ∷ some (posting [])
    ∷ some (posting (codes "you"))
    ∷ []

wrapped_main-AtMostOnce_example :
    IsOnce
      (view (process false true) (wrapped_main (recorded (process false true)) messages (tt, [])).1)
wrapped_main-AtMostOnce_example = wrapped_main-AtMostOnce (process false true) messages tt

still_running : (wrapped_main (recorded (process false true)) messages (tt, [])).0 ≡ ok again
unfolding wrapped_main set_up auto_connect main_loop turn handle from_usize focus first_connect
    receive
still_running = refl

wrapped_main-posts_of_example :
    texts
      (view (process false true) (wrapped_main (recorded (process false true)) messages (tt, [])).1)
    ≡ codes "hi" ∷ codes "you" ∷ []
unfolding from_usize
wrapped_main-posts_of_example =
    wrapped_main-posts_of (process false true) messages tt again still_running

abbrev at_start : Recorded (process true false)
at_start = record { first_focus = true; user_post = none; state = (tt, []) }

auto_connect-offline_example :
    (let o = process true false in
      let w' = ((auto_connect (recorded o) true >> main_loop (recorded o) messages) at_start).1 in
      (connections (view o w') ≡ false ∷ []) × (workers (view o w') ≡ []))
auto_connect-offline_example = auto_connect-offline (process true false) messages at_start refl
