-- ===== src/App/Posts.antt =====
-- The posts of src/main.rs.
use sigchat.Base.{
  ℕ, ◌≡◌, ◌≢◌, refl, ap, sym, subst, ◌∙◌, Bool, true, false, List, [], ◌∷◌, ◌++◌, append_assoc,
  append-nil, Option, none, some, Result, ok, err, ◌>>=◌, ◌>>◌, pure, if_cases,
}
use sigchat.Text.{Bytes}
use sigchat.Account.Fields.{Failure}
use sigchat.App.{
  Process, Run, SigchatOp, event, menu, post, rawkeys, quit, from_usize, Message, Next, again,
  leave, on_state, logged, log_error, focused, receive, started, auto_connect, focus_connected,
  first_connect, focus, chat_event, captured, handle, posted, flush, turn, unless_left, main_loop,
  set_up, clean_up, wrapped_main,
}
use sigchat.App.Calls.{Call, connected, received, recorded, select, select-snoc, text_of, succeeded}
use sigchat.App.Does.{View, view, After, After-ok, Does, Does-bind, Does-pure, Does-keeps}
use sigchat.App.Whole.{Does-set_up, Does-clean_up}

abbrev kept : Option (Option Bytes) → List Bytes
kept (some (some (c ∷ s))) = (c ∷ s) ∷ []
kept (some (some [])) = []
kept (some none) = []
kept none = []

-- What a message adds in front of what the later ones do: a quit ends it.
abbrev in_front : Option SigchatOp → Message → List Bytes → List Bytes
in_front (some post) msg rest = kept msg.memory ++ rest
in_front (some quit) msg rest = []
in_front (some event) msg rest = rest
in_front (some menu) msg rest = rest
in_front (some rawkeys) msg rest = rest
in_front none msg rest = rest

-- The texts of the Post messages that are not empty, in order, up to the first Quit.
abbrev pub posts_of : List (Option Message) → List Bytes
posts_of [] = []
posts_of (none ∷ msgs) = []
posts_of (some msg ∷ msgs) = in_front (from_usize msg.id) msg (posts_of msgs)

abbrev pub texts : View → List Bytes
texts v = select text_of v.calls

-- These texts were posted, and none is kept.
abbrev Posted : List Bytes → View → Type 0
Posted ts v = (texts v ≡ ts) × (v.user_post ≡ none)

abbrev Any : View → Type 0
Any v = Unit

abbrev listed : Option Bytes → List Bytes
listed none = []
listed (some t) = t ∷ []

-- What a message leaves to the end of its turn, and what the turn leaves.
abbrev Handled : Option SigchatOp → Message → List Bytes → Next → View → Type 0
Handled op msg ts again v =
    (texts v ≡ ts) × (listed v.user_post ≡ in_front op msg []) × (op ≢ some quit)
Handled op msg ts leave v = Posted ts v × (op ≡ some quit)

abbrev Turned : Option SigchatOp → Message → List Bytes → Next → View → Type 0
Turned op msg ts again v = Posted (ts ++ in_front op msg []) v × (op ≢ some quit)
Turned op msg ts leave v = Posted ts v × (op ≡ some quit)

in_front-append :
    (op : Option SigchatOp) (msg : Message) (rest : List Bytes)
    → op ≢ some quit
    → in_front op msg [] ++ rest ≡ in_front op msg rest
in_front-append (some post) msg rest h = append_assoc (kept msg.memory) [] rest
in_front-append (some quit) msg rest h = absurd (h refl)
in_front-append (some event) msg rest h = refl
in_front-append (some menu) msg rest h = refl
in_front-append (some rawkeys) msg rest h = refl
in_front-append none msg rest h = refl

module _ (o : Process) (ts : List Bytes) where
  quiet :
      (v : View) (c : Call)
      → text_of c ≡ []
      → Posted ts v
      → Posted ts (record v { calls = v.calls ++ c ∷ [] })
  quiet v c e (h, n) =
      (select-snoc text_of v.calls c ∙ (ap (λ l. texts v ++ l) e ∙ (append-nil _ ∙ h)), n)

  abbrev Quiet : {A : Type 0} → Run (recorded o) A → Type 0
  Quiet m = Does o (Posted ts) Any m (λ _. Posted ts)

  Quiet-connect : Quiet (log_error (recorded o) ((recorded o).connect))
  Quiet-connect = record {
    did = λ w h.
        After-ok Any (Posted ts) (logged (recorded o) (o.connect w.state.0).0) _ (λ _. tt)
          (quiet (view o w) (connected (succeeded (o.connect w.state.0).0)) refl h);
  }

  Quiet-receive : Quiet (receive (recorded o))
  unfolding receive
  Quiet-receive =
      Does-bind o (on_state (recorded o) (recorded o).dialogue_set) _
        (Does-keeps o _ (λ w. refl) (λ _ _. tt))
        λ _.
          Does-bind o (log_error (recorded o) (recorded o).start_receive) _
            (record {
              did = λ w h.
                  After-ok Any (Posted ts) (logged (recorded o) (o.start_receive w.state.0).0) _
                    (λ _. tt) (quiet (view o w) received refl h);
            })
            λ _. Does-pure o tt (λ v h. h)

  Quiet-focused : Quiet (focused (recorded o))
  Quiet-focused = record { did = λ w h. h }

  Quiet-focus_connected : (b : Option Bool) → Quiet (focus_connected (recorded o) b)
  Quiet-focus_connected (some true) =
      Does-bind o (focused (recorded o)) _ Quiet-focused (λ _. Quiet-receive)
  Quiet-focus_connected (some false) = Does-pure o tt (λ v h. h)
  Quiet-focus_connected none = Does-pure o tt (λ v h. h)

  Quiet-first_connect : (b : Bool) → Quiet (first_connect (recorded o) b)
  unfolding first_connect
  Quiet-first_connect true =
      Does-bind o (log_error (recorded o) (recorded o).connect) _ Quiet-connect
        Quiet-focus_connected
  Quiet-first_connect false = Does-pure o tt (λ v h. h)

  Quiet-focus : Quiet (focus (recorded o))
  unfolding focus
  Quiet-focus =
      Does-bind o (λ w. (ok w.first_focus, w)) _ (record { did = λ w h. h })
        λ b.
          Does-bind o (first_connect (recorded o) b) _ (Quiet-first_connect b)
            λ _. Does-keeps o _ (λ w. refl) (λ _ _. tt)

  Quiet-chat_event : (e : Option ℕ) → Quiet (chat_event (recorded o) e)
  Quiet-chat_event none = Does-pure o tt (λ v h. h)
  Quiet-chat_event (some code) =
      if_cases Quiet (o.is_focus code) (λ e. Quiet-focus) (λ e. Does-pure o tt (λ v h. h))

  Quiet-started : (b : Option Bool) → Quiet (started (recorded o) b)
  Quiet-started (some true) = Quiet-receive
  Quiet-started (some false) = Does-pure o tt (λ v h. h)
  Quiet-started none = Does-pure o tt (λ v h. h)

  Quiet-auto_connect : (b : Bool) → Quiet (auto_connect (recorded o) b)
  unfolding auto_connect
  Quiet-auto_connect true =
      Does-bind o (focused (recorded o)) _ Quiet-focused
        λ _. Does-bind o (log_error (recorded o) (recorded o).connect) _ Quiet-connect Quiet-started
  Quiet-auto_connect false = Does-pure o tt (λ v h. h)

  Does-captured :
      (m : Option (Option Bytes))
      → Does o
          (Posted ts)
          Any
          (captured (recorded o) m)
          (λ _ v. (texts v ≡ ts) × (listed v.user_post ≡ kept m))
  Does-captured none = record { did = λ w h. tt }
  Does-captured (some none) = record { did = λ w h. tt }
  Does-captured (some (some [])) = Does-pure o tt (λ v (h, n). (h, ap listed n))
  Does-captured (some (some (c ∷ s))) = record { did = λ w (h, n). (h, refl) }

  -- A message that keeps no text.
  Does-again :
      (op : Option SigchatOp) (msg : Message)
      → in_front op msg [] ≡ []
      → op ≢ some quit
      → Does o (Posted ts) Any (pure again) (Handled op msg ts)
  Does-again op msg e q = Does-pure o again (λ v (h, n). (h, ap listed n ∙ sym e, q))

  Does-handle :
      (op : Option SigchatOp) (msg : Message)
      → Does o (Posted ts) Any (handle (recorded o) op msg) (Handled op msg ts)
  unfolding handle
  Does-handle (some event) msg =
      Does-bind o (chat_event (recorded o) msg.scalar) _ (Quiet-chat_event msg.scalar)
        λ _. Does-again (some event) msg refl (λ e. cc)
  Does-handle (some menu) msg = Does-again (some menu) msg refl (λ e. cc)
  Does-handle (some post) msg =
      Does-bind o (captured (recorded o) msg.memory) _ (Does-captured msg.memory)
        λ _. Does-pure o again (λ v (h, n). (h, n ∙ sym (append-nil (kept msg.memory)), λ e. cc))
  Does-handle (some rawkeys) msg = Does-again (some rawkeys) msg refl (λ e. cc)
  Does-handle (some quit) msg = Does-pure o leave (λ v h. (h, refl))
  Does-handle none msg = Does-again none msg refl (λ e. cc)

  module _ (op : Option SigchatOp) (msg : Message) where
    -- With the kept text that was read.
    abbrev Read : Option Bytes → View → Type 0
    Read t v = Handled op msg ts again v × (v.user_post ≡ t)

    posted_after :
        (t : Bytes) (v : View)
        → Read (some t) v
        → texts (record v { calls = v.calls ++ Call.posted t ∷ [] }) ≡ ts ++ in_front op msg []
    posted_after t v ((h, l, q), u) =
        select-snoc text_of v.calls (Call.posted t)
        ∙ (ap (λ ys. ys ++ t ∷ []) h ∙ ap (λ ys. ts ++ ys) (sym (ap listed u) ∙ l))

    Does-posted :
        (t : Option Bytes)
        → Does o (Read t) Any (posted (recorded o) t) (λ _. Turned op msg ts again)
    Does-posted none = Does-pure o tt (λ v ((h, l, q), u).
        ((h ∙ (sym (append-nil ts) ∙ ap (λ ys. ts ++ ys) (sym (ap listed u) ∙ l)), u), q))
    Does-posted (some t) =
        Does-bind o {middle = λ _ v. (texts v ≡ ts ++ in_front op msg []) × (op ≢ some quit)}
          (on_state (recorded o) ((recorded o).post t)) _
          (record {
            did = λ w h.
                After-ok Any (λ v. (texts v ≡ ts ++ in_front op msg []) × (op ≢ some quit))
                  (o.post t w.state.0).0 _ (λ _. tt) (posted_after t (view o w) h, h.0.2);
          })
          λ _. record { did = λ w (h, q). ((h, refl), q) }

    Does-flush :
        (n : Next) → Does o (Handled op msg ts n) Any (flush (recorded o) n) (Turned op msg ts)
    Does-flush leave = Does-pure o leave (λ v h. h)
    Does-flush again =
        Does-bind o {middle = Read} (λ w. (ok w.user_post, w)) _ (record { did = λ w h. (h, refl) })
          λ t.
            Does-bind o (posted (recorded o) t) _ (Does-posted t) λ _. Does-pure o again (λ v h. h)

module _ (o : Process) where
  Does-turn :
      (msg : Message) (ts : List Bytes)
      → Does o (Posted ts) Any (turn (recorded o) (some msg)) (Turned (from_usize msg.id) msg ts)
  unfolding turn
  Does-turn msg ts =
      Does-bind o (handle (recorded o) (from_usize msg.id) msg) _
        (Does-handle o ts (from_usize msg.id) msg) (Does-flush o ts (from_usize msg.id) msg)

  abbrev Ends : List Bytes → Next → View → Type 0
  Ends ts n v = texts v ≡ ts

  Does-rest :
      (op : Option SigchatOp) (msg : Message) (ts rest : List Bytes) (m : Run (recorded o) Next)
      (n : Next)
      → Does o (Posted (ts ++ in_front op msg [])) Any m (Ends ((ts ++ in_front op msg []) ++ rest))
      → Does o
          (Turned op msg ts n)
          Any
          (unless_left (recorded o) m n)
          (Ends (ts ++ in_front op msg rest))
  Does-rest op msg ts rest m again d = record {
    did = λ w (h, q).
        subst (λ l. After Any (Ends l) (m w).0 (view o (m w).1))
          (append_assoc ts (in_front op msg []) rest
            ∙ ap (λ l. ts ++ l) (in_front-append op msg rest q))
          (d.did w h);
  }
  Does-rest op msg ts rest m leave d =
      Does-pure o leave
        (λ v ((h, n), q). h ∙ (sym (append-nil ts) ∙ ap (λ p. ts ++ in_front p msg rest) (sym q)))

  Does-main_loop :
      (msgs : List (Option Message)) (ts : List Bytes)
      → Does o (Posted ts) Any (main_loop (recorded o) msgs) (Ends (ts ++ posts_of msgs))
  unfolding main_loop turn
  Does-main_loop [] ts = Does-pure o again (λ v (h, n). h ∙ sym (append-nil ts))
  Does-main_loop (none ∷ msgs) ts = record { did = λ w h. tt }
  Does-main_loop (some msg ∷ msgs) ts =
      let op = from_usize msg.id in
      Does-bind o (turn (recorded o) (some msg)) _ (Does-turn msg ts) λ n.
        Does-rest op msg ts (posts_of msgs) (main_loop (recorded o) msgs) n
          (Does-main_loop msgs (ts ++ in_front op msg []))

  Does-wrapped_main :
      (msgs : List (Option Message))
      → Does o
          (Posted [])
          Any
          (set_up (recorded o) >> main_loop (recorded o) msgs >>= clean_up (recorded o))
          (Ends (posts_of msgs))
  Does-wrapped_main msgs =
      Does-bind o (set_up (recorded o) >> main_loop (recorded o) msgs) _
        (Does-bind o (set_up (recorded o)) _
          (Does-set_up o (Posted []) Any (λ _ _. tt) (Posted []) (Quiet-auto_connect o []))
          λ _. Does-main_loop msgs [])
        (Does-clean_up o (λ v. texts v ≡ posts_of msgs) Any (λ _ _. tt))

  ended :
      (ts : List Bytes) (r : Result Failure Next) (v : View) (n : Next)
      → r ≡ ok n
      → After Any (Ends ts) r v
      → texts v ≡ ts
  ended ts (ok m) v n e h = h
  ended ts (err f) v n e h = cc

  -- A process that runs without a panic has posted exactly the texts of the Post messages that are not
  -- empty, each once and in the order in which they came, up to the first Quit.
  pub wrapped_main-posts_of :
      (msgs : List (Option Message)) (s : o.State) (n : Next)
      → (wrapped_main (recorded o) msgs (s, [])).0 ≡ ok n
      → texts (view o (wrapped_main (recorded o) msgs (s, [])).1) ≡ posts_of msgs
  unfolding wrapped_main
  wrapped_main-posts_of msgs s n e = ended (posts_of msgs) _ _ n e (
      (Does-wrapped_main msgs).did
        (record { first_focus = true; user_post = none; state = (s, []) }) (refl, refl))
