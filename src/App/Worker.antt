-- ===== src/App/Worker.antt =====
-- The connections and the receive worker of src/main.rs.
use sigchat.Base.{
  ◌≡◌, ◌⊎◌, inl, inr, refl, ap, sym, subst, ◌∙◌, Bool, true, false, List, [], ◌∷◌, ◌++◌, append-nil,
  Option, none, some, Result, ok, err, All, ◌>>=◌, ◌>>◌,
}
use sigchat.Text.{Bytes}
use sigchat.Account.Fields.{Failure, failed, panicked}
use sigchat.App.{
  Process, Run, Message, on_state, logged, log_error, focused, receive, started, auto_connect,
  focus_connected, first_connect, focus, main_loop, clean_up, set_up, wrapped_main,
}
use sigchat.App.Calls.{
  Call, connected, received, recorded, select, select-snoc, connection_of, worker_of, succeeded,
}
use sigchat.App.Turns.{Does-main_loop}
use sigchat.App.Whole.{Does-set_up, Does-clean_up}
use sigchat.App.Does.{View, view, After, Does, Does-bind, Does-pure, Does-keeps}

abbrev pub AllFailed : List Bool → Type 0
AllFailed cs = All (λ b. b ≡ false) cs

-- Connections that all failed, and no receive worker.
abbrev pub Trying : List Bool → List (Unit {0}) → Type 0
Trying cs ws = AllFailed cs × (ws ≡ [])

-- Connections of which exactly the last succeeded.
abbrev pub Reached : List Bool → Type 0
Reached cs = (fs : List Bool) × AllFailed fs × (cs ≡ fs ++ true ∷ [])

-- At most one receive worker, and none before a connection; none is made behind the one that succeeds.
abbrev pub AtMostOnce : List Bool → List (Unit {0}) → Type 0
AtMostOnce cs ws = Trying cs ws ⊎ (Reached cs × ((ws ≡ []) ⊎ (ws ≡ tt ∷ [])))

snoc-AllFailed : (cs : List Bool) → AllFailed cs → AllFailed (cs ++ false ∷ [])
snoc-AllFailed [] h = (refl, tt)
snoc-AllFailed (c ∷ cs) (hc, hs) = (hc, snoc-AllFailed cs hs)

abbrev pub connections : View → List Bool
connections v = select connection_of v.calls

abbrev pub workers : View → List (Unit {0})
workers v = select worker_of v.calls

abbrev IsTrying : View → Type 0
IsTrying v = Trying (connections v) (workers v)

-- A connection that has just succeeded.
abbrev IsLinked : View → Type 0
IsLinked v = Reached (connections v) × (workers v ≡ [])

abbrev IsEntered : View → Type 0
IsEntered v = IsLinked v × (v.first_focus ≡ false)

abbrev pub IsOnce : View → Type 0
IsOnce v = AtMostOnce (connections v) (workers v)

-- Between two steps: the first focus stands out only while every connection failed.
abbrev Inv : View → Type 0
Inv v = IsOnce v × ((v.first_focus ≡ true) → IsTrying v)

trying-Inv : (v : View) → IsTrying v → Inv v
trying-Inv v h = (inl h, λ _. h)

entered-Inv : (v : View) → IsEntered v → Inv v
entered-Inv v ((r, ws), f) = (inr (r, inl ws), λ e. cc)

connected-Trying :
    (l : List Call)
    → Trying (select connection_of l) (select worker_of l)
    → Trying
        (select connection_of (l ++ connected false ∷ []))
        (select worker_of (l ++ connected false ∷ []))
connected-Trying l (hc, hw) = (
  subst AllFailed (sym (select-snoc connection_of l (connected false))) (snoc-AllFailed _ hc),
  select-snoc worker_of l (connected false) ∙ (append-nil _ ∙ hw),
)

connected-Reached :
    (l : List Call)
    → Trying (select connection_of l) (select worker_of l)
    → Reached (select connection_of (l ++ connected true ∷ []))
      × (select worker_of (l ++ connected true ∷ []) ≡ [])
connected-Reached l (hc, hw) = (
  (select connection_of l, hc, select-snoc connection_of l (connected true)),
  select-snoc worker_of l (connected true) ∙ (append-nil _ ∙ hw),
)

-- The receive worker that is started behind a connection.
received-Inv : (v : View) → IsEntered v → Inv (record v { calls = v.calls ++ received ∷ [] })
received-Inv v ((reached, none_yet), f) = (
  inr (
    subst Reached (sym (select-snoc connection_of v.calls received ∙ append-nil _)) reached,
    inr (select-snoc worker_of v.calls received ∙ ap (λ ws. ws ++ tt ∷ []) none_yet),
  ),
  λ e. cc,
)

abbrev Connected : Option Bool → View → Type 0
Connected (some true) v = IsLinked v
Connected (some false) v = IsTrying v
Connected none v = IsTrying v

module _ (o : Process) where
  logged-Connected :
      (r : Result Failure Bool) (v : View)
      → IsTrying v
      → After Inv Connected
          (logged (recorded o) r)
          (record v { calls = v.calls ++ connected (succeeded r) ∷ [] })
  logged-Connected (ok true) v h = connected-Reached v.calls h
  logged-Connected (ok false) v h = connected-Trying v.calls h
  logged-Connected (err (failed e)) v h = connected-Trying v.calls h
  logged-Connected (err panicked) v h =
      trying-Inv (record v { calls = v.calls ++ connected false ∷ [] }) (connected-Trying v.calls h)

  abbrev connect_step : Run (recorded o) (Option Bool)
  connect_step = log_error (recorded o) ((recorded o).connect)

  Does-connect : Does o IsTrying Inv connect_step Connected
  Does-connect = record { did = λ w h. logged-Connected (o.connect w.state.0).0 (view o w) h }

  logged-Inv :
      (r : Result Failure Bool) (v : View) → Inv v → After Inv (λ _. Inv) (logged (recorded o) r) v
  logged-Inv (ok b) v h = h
  logged-Inv (err (failed e)) v h = h
  logged-Inv (err panicked) v h = h

  Does-receive : Does o IsEntered Inv (receive (recorded o)) (λ _. Inv)
  unfolding receive
  Does-receive =
      Does-bind o (on_state (recorded o) (recorded o).dialogue_set) _
        (Does-keeps o _ (λ w. refl) entered-Inv)
        λ _.
          Does-bind o (log_error (recorded o) (recorded o).start_receive) _
            (record {
              did = λ w h. logged-Inv (o.start_receive w.state.0).0 _ (received-Inv (view o w) h);
            })
            λ _. Does-pure o tt (λ v h. h)

  Does-focused : Does o IsLinked Inv (focused (recorded o)) (λ _. IsEntered)
  Does-focused = record { did = λ w h. (h, refl) }

  Does-focus_connected :
      (b : Option Bool) → Does o (Connected b) Inv (focus_connected (recorded o) b) (λ _. Inv)
  Does-focus_connected (some true) =
      Does-bind o (focused (recorded o)) _ Does-focused (λ _. Does-receive)
  Does-focus_connected (some false) = Does-pure o tt trying-Inv
  Does-focus_connected none = Does-pure o tt trying-Inv

  -- With the value of `first_focus` that was read.
  Does-first_connect :
      (b : Bool)
      → Does o (λ v. Inv v × (v.first_focus ≡ b)) Inv (first_connect (recorded o) b) (λ _. Inv)
  unfolding first_connect
  Does-first_connect true =
      Does-bind o connect_step _ (record { did = λ w h. Does-connect.did w (h.0.1 h.1) })
        Does-focus_connected
  Does-first_connect false = Does-pure o tt (λ v h. h.0)

  Does-focus : Does o Inv Inv (focus (recorded o)) (λ _. Inv)
  unfolding focus
  Does-focus =
      Does-bind o {middle = λ b v. Inv v × (v.first_focus ≡ b)} (λ w. (ok w.first_focus, w)) _
        (record { did = λ w h. (h, refl) })
        λ b.
          Does-bind o (first_connect (recorded o) b) _ (Does-first_connect b)
            λ _. Does-keeps o _ (λ w. refl) (λ v h. h)

  keeps_posted :
      (v : View) (t : Bytes) → Inv v → Inv (record v { calls = v.calls ++ Call.posted t ∷ [] })
  keeps_posted v t h =
      let same : connections (record v { calls = v.calls ++ Call.posted t ∷ [] }) ≡ connections v =
        select-snoc connection_of v.calls (Call.posted t) ∙ append-nil _ in
      let unmoved : workers (record v { calls = v.calls ++ Call.posted t ∷ [] }) ≡ workers v =
        select-snoc worker_of v.calls (Call.posted t) ∙ append-nil _ in
      rw (same, unmoved) h

  abbrev StartConnected : Option Bool → View → Type 0
  StartConnected b v = Connected b v × (v.first_focus ≡ false)

  with_focus :
      (r : Result Failure (Option Bool)) (v : View)
      → v.first_focus ≡ false
      → After Inv Connected r v
      → After Inv StartConnected r v
  with_focus (ok b) v f h = (h, f)
  with_focus (err e) v f h = h

  Does-started :
      (b : Option Bool) → Does o (StartConnected b) Inv (started (recorded o) b) (λ _. Inv)
  Does-started (some true) = Does-receive
  Does-started (some false) = Does-pure o tt (λ v h. trying-Inv v h.0)
  Does-started none = Does-pure o tt (λ v h. trying-Inv v h.0)

  Does-auto_connect : (b : Bool) → Does o IsTrying Inv (auto_connect (recorded o) b) (λ _. Inv)
  unfolding auto_connect
  Does-auto_connect true =
      Does-bind o {middle = λ _ v. IsTrying v × (v.first_focus ≡ false)} (focused (recorded o)) _
        (record { did = λ w h. (h, refl) })
        λ _.
          Does-bind o {middle = StartConnected} connect_step _
            (record { did = λ w h. with_focus _ _ h.1 (Does-connect.did w h.0) }) Does-started
  Does-auto_connect false = Does-pure o tt trying-Inv

  Does-wrapped_main :
      (msgs : List (Option Message))
      → Does o IsTrying Inv
          (set_up (recorded o) >> main_loop (recorded o) msgs >>= clean_up (recorded o))
          (λ _. Inv)
  Does-wrapped_main msgs =
      Does-bind o (set_up (recorded o) >> main_loop (recorded o) msgs) _
        (Does-bind o (set_up (recorded o)) _
          (Does-set_up o IsTrying Inv trying-Inv Inv Does-auto_connect)
          λ _. Does-main_loop o Inv Inv (λ v h. h) Does-focus (λ v t h. h) keeps_posted msgs)
        (Does-clean_up o Inv Inv (λ v h. h))

  Inv-ended : {A : Type 0} (r : Result Failure A) (v : View) → After Inv (λ _. Inv) r v → Inv v
  Inv-ended (ok a) v h = h
  Inv-ended (err e) v h = h

  -- In a whole run of the process, however it goes and ends: at most the last connection succeeds, and
  -- at most one receive worker is started, behind a connection that succeeded.
  pub wrapped_main-AtMostOnce :
      (msgs : List (Option Message)) (s : o.State)
      → IsOnce (view o (wrapped_main (recorded o) msgs (s, [])).1)
  unfolding wrapped_main
  wrapped_main-AtMostOnce msgs s =
      (Inv-ended (wrapped_main (recorded o) msgs (s, [])).0 _ (
        (Does-wrapped_main msgs).did
          (record { first_focus = true; user_post = none; state = (s, []) }) (tt, refl))).0
