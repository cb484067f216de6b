-- ===== src/App/Whole.antt =====
-- What the whole process keeps: its set-up, its loop and its end.
use sigchat.Base.{refl, ok, Bool, true, false, ℕ, ◌==◌, if_cases, raise}
use sigchat.Account.Fields.{panicked}
use sigchat.App.{
  Process, App, Next, again, leave, Answer, scalar2, other_answer, refused, on_state, call, expect,
  adjust, enlarged, enlarge, auto_connect, set_up, clean_up,
}
use sigchat.App.Calls.{recorded}
use sigchat.App.Does.{View, view, After, Does, Does-bind, Does-pure, Does-keeps}

module _ (o : Process) (P failed : View → Type 0) (weak : (v : View) → P v → failed v) where
  After-expect :
      (b : Bool) (w : App (recorded o))
      → P (view o w)
      → After failed (λ _. P) (expect (recorded o) b w).0 (view o (expect (recorded o) b w).1)
  After-expect true w h = h
  After-expect false w h = weak _ h

  Does-init_log : Does o P failed (call (recorded o) (recorded o).init_log) (λ _. P)
  Does-init_log = record { did = λ w h. After-expect _ _ h }

  Does-register : Does o P failed (call (recorded o) (recorded o).register) (λ _. P)
  Does-register = record { did = λ w h. After-expect _ _ h }

  Does-menu_add : Does o P failed (call (recorded o) (recorded o).menu_add) (λ _. P)
  Does-menu_add = record { did = λ w h. After-expect _ _ h }

  Does-adjust : (n : ℕ) → Does o P failed (adjust (recorded o) n) (λ _. P)
  Does-adjust n = record { did = λ w h. h }

  Does-panic : {A : Type 0} → Does o P failed (raise {A = A} panicked) (λ _. P)
  Does-panic = record { did = λ w h. weak _ h }

  Does-enlarged : (a : Answer) → Does o P failed (enlarged (recorded o) a) (λ _. P)
  Does-enlarged refused = Does-panic
  Does-enlarged other_answer = Does-pure o tt (λ v h. h)
  Does-enlarged (scalar2 n m) = Does-pure o tt (λ v h. h)

  Does-enlarge : (a : Answer) → Does o P failed (enlarge (recorded o) a) (λ _. P)
  Does-enlarge (scalar2 n m) =
      if_cases (λ r. Does o P failed r (λ _. P)) (n == 1)
        (λ e. Does-bind o (adjust (recorded o) m) _ (Does-adjust m) Does-enlarged) (λ e. Does-panic)
  Does-enlarge other_answer = Does-panic
  Does-enlarge refused = Does-panic

  pub Does-set_up :
      (Q : View → Type 0)
      → ((b : Bool) → Does o P failed (auto_connect (recorded o) b) (λ _. Q))
      → Does o P failed (set_up (recorded o)) (λ _. Q)
  unfolding set_up
  Does-set_up Q auto = Does-bind o (call (recorded o) (recorded o).init_log) _ Does-init_log λ _.
      Does-bind o (adjust (recorded o) 0) _ (Does-adjust 0) λ a.
        Does-bind o (enlarge (recorded o) a) _ (Does-enlarge a) λ _.
          Does-bind o (call (recorded o) (recorded o).register) _ Does-register λ _.
            Does-bind o (call (recorded o) (recorded o).menu_add) _ Does-menu_add λ _.
              Does-bind o (on_state (recorded o) (recorded o).new) _
                (Does-keeps o _ (λ w. refl) weak)
                λ _.
                  Does-bind o (λ w. (ok (o.is_ready w.state.0), w)) _ (record { did = λ w h. h })
                    auto

  pub Does-clean_up : (n : Next) → Does o P failed (clean_up (recorded o) n) (λ _. P)
  Does-clean_up again = Does-pure o again (λ v h. h)
  Does-clean_up leave =
      Does-bind o (call (recorded o) (recorded o).unregister_server) _
        (record { did = λ w h. After-expect _ _ h })
        λ _.
          Does-bind o (call (recorded o) (recorded o).destroy_server) _
            (record { did = λ w h. After-expect _ _ h }) λ _. Does-pure o leave (λ v h. h)
