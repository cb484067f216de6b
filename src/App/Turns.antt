-- ===== src/App/Turns.antt =====
-- What a whole run keeps that a focus and a post keep.
use sigchat.Base.{ℕ, raise, List, [], ◌∷◌, ◌++◌, Option, none, some, ok, if_cases}
use sigchat.Text.{Bytes}
use sigchat.Account.Fields.{panicked}
use sigchat.App.{
  Process, Run, SigchatOp, event, menu, post, rawkeys, quit, from_usize, Message, Next, again,
  leave, on_state, focus, chat_event, captured, handle, posted, flush, turn, unless_left, main_loop,
}
use sigchat.App.Calls.{Call, recorded}
use sigchat.App.Does.{View, Does, Does-bind, Does-pure, After-ok}

module _ (o : Process) (P failed : View → Type 0) (weak : (v : View) → P v → failed v)
    (focuses : Does o P failed (focus (recorded o)) (λ _. P))
    (keeps_text : (v : View) (t : Option Bytes) → P v → P (record v { user_post = t }))
    (keeps_post : (v : View) (t : Bytes)
      → P v
      → P (record v { calls = v.calls ++ Call.posted t ∷ [] })) where
  Does-chat_event : (e : Option ℕ) → Does o P failed (chat_event (recorded o) e) (λ _. P)
  Does-chat_event none = Does-pure o tt (λ v h. h)
  Does-chat_event (some code) =
      if_cases (λ m. Does o P failed m (λ _. P)) (o.is_focus code) (λ e. focuses)
        (λ e. Does-pure o tt (λ v h. h))

  Does-raise : {A : Type 0} → Does o P failed (raise {A = A} panicked) (λ _. P)
  Does-raise = record { did = λ w h. weak _ h }

  Does-captured : (m : Option (Option Bytes)) → Does o P failed (captured (recorded o) m) (λ _. P)
  Does-captured none = Does-raise
  Does-captured (some none) = Does-raise
  Does-captured (some (some [])) = Does-pure o tt (λ v h. h)
  Does-captured (some (some (c ∷ s))) = record { did = λ w h. keeps_text _ _ h }

  Does-handle :
      (op : Option SigchatOp) (msg : Message)
      → Does o P failed (handle (recorded o) op msg) (λ _. P)
  unfolding handle
  Does-handle (some event) msg =
      Does-bind o (chat_event (recorded o) msg.scalar) _ (Does-chat_event msg.scalar)
        λ _. Does-pure o again (λ v h. h)
  Does-handle (some menu) msg = Does-pure o again (λ v h. h)
  Does-handle (some post) msg =
      Does-bind o (captured (recorded o) msg.memory) _ (Does-captured msg.memory)
        λ _. Does-pure o again (λ v h. h)
  Does-handle (some rawkeys) msg = Does-pure o again (λ v h. h)
  Does-handle (some quit) msg = Does-pure o leave (λ v h. h)
  Does-handle none msg = Does-pure o again (λ v h. h)

  Does-posted : (t : Option Bytes) → Does o P failed (posted (recorded o) t) (λ _. P)
  Does-posted none = Does-pure o tt (λ v h. h)
  Does-posted (some text) =
      Does-bind o (on_state (recorded o) ((recorded o).post text)) _
        (record {
          did = λ w h. After-ok failed P (o.post text w.state.0).0 _ (weak _) (keeps_post _ text h);
        })
        λ _. record { did = λ w h. keeps_text _ none h }

  Does-flush : (n : Next) → Does o P failed (flush (recorded o) n) (λ _. P)
  Does-flush leave = Does-pure o leave (λ v h. h)
  Does-flush again =
      Does-bind o (λ w. (ok w.user_post, w)) _ (record { did = λ w h. h })
        λ t. Does-bind o (posted (recorded o) t) _ (Does-posted t) λ _. Does-pure o again (λ v h. h)

  Does-turn : (m : Option Message) → Does o P failed (turn (recorded o) m) (λ _. P)
  unfolding turn
  Does-turn none = Does-raise
  Does-turn (some msg) =
      Does-bind o (handle (recorded o) (from_usize msg.id) msg) _
        (Does-handle (from_usize msg.id) msg) Does-flush

  Does-unless_left :
      (rest : Run (recorded o) Next) (n : Next)
      → Does o P failed rest (λ _. P)
      → Does o P failed (unless_left (recorded o) rest n) (λ _. P)
  Does-unless_left rest again h = h
  Does-unless_left rest leave h = Does-pure o leave (λ v h. h)

  pub Does-main_loop :
      (msgs : List (Option Message)) → Does o P failed (main_loop (recorded o) msgs) (λ _. P)
  unfolding main_loop
  Does-main_loop [] = Does-pure o again (λ v h. h)
  Does-main_loop (m ∷ msgs) =
      Does-bind o (turn (recorded o) m) _ (Does-turn m)
        λ n. Does-unless_left (main_loop (recorded o) msgs) n (Does-main_loop msgs)
