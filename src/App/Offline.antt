-- ===== src/App/Offline.antt =====
-- A process that starts with a registered account and cannot connect.
use sigchat.Base.{
  ◌≡◌, ◌≢◌, refl, ap, ◌∙◌, Bool, true, false, List, [], ◌∷◌, ◌++◌, append-nil, Option, none, some,
  Result, ok, err, ◌>>◌,
}
use sigchat.Text.{Bytes}
use sigchat.Account.Fields.{Failure, failed, panicked}
use sigchat.App.{Process, Message, logged, started, auto_connect, first_connect, focus, main_loop}
use sigchat.App.Calls.{Call, recorded, select-snoc, connection_of, worker_of, succeeded}
use sigchat.App.Does.{
  Recorded, View, view, After, Does, Does-bind, Does-pure, Does-keeps, After-continue,
}
use sigchat.App.Turns.{Does-main_loop}
use sigchat.App.Worker.{connections, workers}

-- Behind the first focus, with these connections and workers.
abbrev Stays : List Bool → List (Unit {0}) → View → Type 0
Stays cs ws v = (v.first_focus ≡ false) × (connections v ≡ cs) × (workers v ≡ ws)

not_both : {b : Bool} → b ≡ true → b ≡ false → ⊥
not_both p q = cc

module _ (o : Process) (cs : List Bool) (ws : List (Unit {0})) where
  Does-not_first :
      (b : Bool)
      → Does o
          (λ v. Stays cs ws v × (v.first_focus ≡ b))
          (Stays cs ws)
          (first_connect (recorded o) b)
          (λ _. Stays cs ws)
  unfolding first_connect
  Does-not_first true = record { did = λ w h. elim (not_both h.1 h.0.0) [ ] }
  Does-not_first false = Does-pure o tt (λ v h. h.0)

  Does-later_focus : Does o (Stays cs ws) (Stays cs ws) (focus (recorded o)) (λ _. Stays cs ws)
  unfolding focus
  Does-later_focus =
      Does-bind o {middle = λ b v. Stays cs ws v × (v.first_focus ≡ b)} (λ w. (ok w.first_focus, w))
        _ (record { did = λ w h. (h, refl) })
        λ b.
          Does-bind o (first_connect (recorded o) b) _ (Does-not_first b)
            λ _. Does-keeps o _ (λ w. refl) (λ v h. h)

  posted-Stays :
      (v : View) (t : Bytes)
      → Stays cs ws v
      → Stays cs ws (record v { calls = v.calls ++ Call.posted t ∷ [] })
  posted-Stays v t (f, c, k) = (
    f,
    select-snoc connection_of v.calls (Call.posted t) ∙ (append-nil _ ∙ c),
    select-snoc worker_of v.calls (Call.posted t) ∙ (append-nil _ ∙ k),
  )

  Does-later_loop :
      (msgs : List (Option Message))
      → Does o (Stays cs ws) (Stays cs ws) (main_loop (recorded o) msgs) (λ _. Stays cs ws)
  Does-later_loop msgs =
      Does-main_loop o (Stays cs ws) (Stays cs ws) (λ v h. h) Does-later_focus (λ v t h. h)
        posted-Stays msgs

  Does-not_started :
      (b : Option Bool)
      → b ≢ some true
      → Does o (Stays cs ws) (Stays cs ws) (started (recorded o) b) (λ _. Stays cs ws)
  Does-not_started (some true) h = absurd (h refl)
  Does-not_started (some false) h = Does-pure o tt (λ v h. h)
  Does-not_started none h = Does-pure o tt (λ v h. h)

module _ (o : Process) where
  abbrev Offline : View → Option Bool → View → Type 0
  Offline v b v' = (b ≢ some true) × Stays (connections v ++ false ∷ []) (workers v) v'

  logged-Offline :
      (r : Result Failure Bool) (v v' : View)
      → succeeded r ≡ false
      → Stays (connections v ++ false ∷ []) (workers v) v'
      → After
          (Stays (connections v ++ false ∷ []) (workers v))
          (Offline v)
          (logged (recorded o) r)
          v'
  logged-Offline (ok true) v v' e h = absurd (cc)
  logged-Offline (ok false) v v' e h = ((λ q. cc), h)
  logged-Offline (err (failed k)) v v' e h = ((λ q. cc), h)
  logged-Offline (err panicked) v v' e h = h

  Stays-ended :
      {A : Type 0} (cs : List Bool) (ws : List (Unit {0})) (r : Result Failure A) (v : View)
      → After (Stays cs ws) (λ _. Stays cs ws) r v
      → Stays cs ws v
  Stays-ended cs ws (ok a) v h = h
  Stays-ended cs ws (err e) v h = h

  -- With an account that is registered, a connection that fails at the start is the only one of the
  -- process: whatever messages follow, the focus included, nothing connects any more, and no receive
  -- worker is started.
  pub auto_connect-offline :
      (msgs : List (Option Message)) (w : Recorded o)
      → succeeded (o.connect w.state.0).0 ≡ false
      → (let w' = ((auto_connect (recorded o) true >> main_loop (recorded o) msgs) w).1 in
          (connections (view o w') ≡ connections (view o w) ++ false ∷ [])
          × (workers (view o w') ≡ workers (view o w)))
  unfolding auto_connect
  auto_connect-offline msgs w e =
      let (r, s) = o.connect w.state.0 in
      let cs = connections (view o w) ++ false ∷ [] in
      let ws = workers (view o w) in
      let stays : After (Stays cs ws) (λ _. Stays cs ws) (auto_connect (recorded o) true w).0
          (view o (auto_connect (recorded o) true w).1) =
        After-continue o {middle = Offline (view o w)} {done = λ _. Stays cs ws}
          (logged (recorded o) r) (started (recorded o)) _
          (logged-Offline r (view o w) _ e (
            refl,
            select-snoc connection_of w.state.1 _ ∙ ap (λ b. connections (view o w) ++ b ∷ []) e,
            select-snoc worker_of w.state.1 _ ∙ append-nil _,
          ))
          (λ b. record { did = λ v h. (Does-not_started o cs ws b h.0).did v h.1 }) in
      let rest : Stays cs ws
          (view o ((auto_connect (recorded o) true >> main_loop (recorded o) msgs) w).1) =
        Stays-ended cs ws _ _ (
          After-continue o {middle = λ _. Stays cs ws} {done = λ _. Stays cs ws} _
            (λ _. main_loop (recorded o) msgs) _ stays (λ _. Does-later_loop o cs ws msgs)) in
      (rest.1, rest.2)
