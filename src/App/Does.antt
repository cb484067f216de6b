-- ===== src/App/Does.antt =====
-- Conditions before and behind a step of the application that is recorded.
use sigchat.Base.{◌≡◌, subst, sym, Bool, List, Option, Result, ok, err, continue, ◌>>=◌, pure}
use sigchat.Text.{Bytes}
use sigchat.Account.Fields.{Failure}
use sigchat.App.{Process, App, Run}
use sigchat.App.Calls.{Call, recorded}

-- What of the application the conditions read.
pub record View : Type 0 where
  pub calls : List Call
  pub first_focus : Bool
  pub user_post : Option Bytes

abbrev pub After :
    {A : Type 0} → (View → Type 0) → (A → View → Type 0) → Result Failure A → View → Type 0
After failed done (ok a) v = done a v
After failed done (err e) v = failed v

pub After-ok :
    {A : Type 0} (failed done : View → Type 0) (r : Result Failure A) (v : View)
    → (done v → failed v)
    → done v
    → After failed (λ _. done) r v
After-ok failed done (ok a) v f h = h
After-ok failed done (err e) v f h = f h

module _ (o : Process) where
  abbrev pub Recorded : Type 0
  Recorded = App (recorded o)

  abbrev pub view : Recorded → View
  view w = record { calls = w.state.1; first_focus = w.first_focus; user_post = w.user_post }

  -- A step that starts where `before` holds ends with `done` of its result, or in a panic or an error
  -- with `failed`.
  pub record Does {A : Type 0} (before failed : View → Type 0) (m : Run (recorded o) A)
      (done : A → View → Type 0) : Type 0 where
    pub did : (w : Recorded) → before (view w) → After failed done (m w).0 (view (m w).1)

  pub After-continue :
      {A B : Type 0} {failed : View → Type 0} {middle : A → View → Type 0}
      {done : B → View → Type 0} (r : Result Failure A) (f : A → Run (recorded o) B) (w : Recorded)
      → After failed middle r (view w)
      → ((a : A) → Does (middle a) failed (f a) done)
      → After failed done (continue r f w).0 (view (continue r f w).1)
  After-continue (ok a) f w h g = (g a).did w h
  After-continue (err e) f w h g = h

  pub Does-bind :
      {A B : Type 0} {before failed : View → Type 0} {middle : A → View → Type 0}
      {done : B → View → Type 0} (m : Run (recorded o) A) (f : A → Run (recorded o) B)
      → Does before failed m middle
      → ((a : A) → Does (middle a) failed (f a) done)
      → Does before failed (m >>= f) done
  Does-bind {middle = middle} m f hm hf = record {
    did = λ w h. After-continue {middle = middle} (m w).0 f (m w).1 (hm.did w h) hf;
  }

  pub Does-pure :
      {A : Type 0} {before failed : View → Type 0} {done : A → View → Type 0} (a : A)
      → ((v : View) → before v → done a v)
      → Does before failed (pure a) done
  Does-pure a h = record { did = λ w. h (view w) }

  -- A step that changes nothing that the conditions read.
  pub Does-keeps :
      {A : Type 0} {before failed : View → Type 0} (m : Run (recorded o) A)
      → ((w : Recorded) → view (m w).1 ≡ view w)
      → ((v : View) → before v → failed v)
      → Does before failed m (λ _. before)
  Does-keeps {before = before} {failed = failed} m kept weak = record {
    did = λ w h.
        After-ok failed before (m w).0 (view (m w).1) (weak _) (subst before (sym (kept w)) h);
  }
