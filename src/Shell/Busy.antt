-- ===== src/Shell/Busy.antt =====
-- The busy state of the chat window after `account_link` of src/lib.rs.
use sigchat.Base.{
  ◌≡◌, ◌≢◌, refl, ◌∙◌, Bool, true, false, [], Option, none, some, Result, ok, err, Exec, continue,
  ◌>>◌,
}
use sigchat.Text.{Bytes, codes}
use sigchat.Account.Fields.{Account, Failure, failed, panicked}
use sigchat.Account.Storage
use sigchat.Account.Link.{Linking}
use sigchat.Manager.{Outside}
use sigchat.Manager.Settings.{on_first_use}
use sigchat.Manager.Config.{Config, manager_new}
use sigchat.Shell.{
  Ui, Shell, sigchat_account, unwrap, expect, notify, other, name_modal, after_link, link_new,
  account_link,
}

-- Only `set_busy_state` changes whether the chat window is busy.
pub record UiLaws {Url : Type 0} (u : Ui Url) : Type 0 where
  pub is_busy : u.State → Bool
  pub busy_set : (b : Bool) (s : u.State) → is_busy (u.set_busy_state b s) ≡ b
  pub busy_status : (t : Bytes) (s : u.State) → is_busy (u.set_status_text t s) ≡ is_busy s
  pub busy_notification :
      (t : Bytes) (s : u.State) → is_busy (u.show_notification t s).1 ≡ is_busy s

abbrev pub fails : {A : Type 0} → Result Failure A → Bool
fails (ok a) = false
fails (err e) = true

module _ {Host : Type 0} (x : Linking Host) (o : Outside) (u : Ui x.http.Url) (laws : UiLaws u)
    (parse_host : Bytes → Option Host) (signal_org : Host) where
  open laws use {is_busy}

  abbrev Window : Type 0
  Window = Shell x o u parse_host signal_org

  abbrev Run : Type 0 → Type 0
  Run A = Exec Failure Window A

  -- A result that is no panic comes with the busy state `b`.
  abbrev Leaves : {A : Type 0} → Bool → Result Failure A → Window → Type 0
  Leaves b (ok a) w = is_busy w.ui ≡ b
  Leaves b (err (failed e)) w = is_busy w.ui ≡ b
  Leaves b (err panicked) w = Unit

  any_result :
      {A : Type 0} {b : Bool} (r : Result Failure A) (w : Window) → is_busy w.ui ≡ b → Leaves b r w
  any_result (ok a) w h = h
  any_result (err (failed e)) w h = h
  any_result (err panicked) w h = tt

  -- A result that is an error is a panic.
  abbrev Smooth : {A : Type 0} → Result Failure A → Type 0
  Smooth (ok a) = Unit
  Smooth (err (failed e)) = ⊥
  Smooth (err panicked) = Unit

  Leaves-continue :
      {A B : Type 0} (b : Bool) (r : Result Failure A) (f : A → Run B) (w : Window)
      → Smooth r
      → ((a : A) (v : Window) → Leaves b (f a v).0 (f a v).1)
      → Leaves b (continue r f w).0 (continue r f w).1
  Leaves-continue b (ok a) f w h g = g a w
  Leaves-continue b (err (failed e)) f w h g = elim h [ ]
  Leaves-continue b (err panicked) f w h g = tt

  Smooth-unwrap :
      {A : Type 0} (a : Option A) (w : Window) → Smooth (unwrap x o u parse_host signal_org a w).0
  Smooth-unwrap none w = tt
  Smooth-unwrap (some a) w = tt

  expect-other :
      (b shown : Bool) (w : Window)
      → is_busy w.ui ≡ b
      → let out =
          (expect x o u parse_host signal_org shown
              >> other x o u parse_host signal_org {A = Account Host})
            w in
        Leaves b out.0 out.1
  expect-other b true w h = h
  expect-other b false w h = tt

  notify-other :
      (b : Bool) (text : Bytes) (w : Window)
      → is_busy w.ui ≡ b
      → let out =
          (notify x o u parse_host signal_org text
              >> other x o u parse_host signal_org {A = Account Host})
            w in
        Leaves b out.0 out.1
  notify-other b text w h =
      expect-other b (u.show_notification text w.ui).0
        (record w { ui = (u.show_notification text w.ui).1 }) (laws.busy_notification text w.ui ∙ h)

  after_link_clear :
      (r : Result Failure Bool) (w : Window)
      → Leaves false
          (after_link x o u parse_host signal_org r w).0
          (after_link x o u parse_host signal_org r w).1
  after_link_clear (ok true) w = any_result _ _ (laws.busy_set false w.ui)
  after_link_clear (ok false) w = laws.busy_set false w.ui
  after_link_clear (err (failed e)) w =
      notify-other false []
        (record w {
          store = (Storage.delete x.pddb sigchat_account w.store).1;
          ui = u.set_busy_state false w.ui;
        })
        (laws.busy_set false w.ui)
  after_link_clear (err panicked) w = tt

  -- A link that got as far as its new account.
  link_new_clear :
      (account : Account Host) (w : Window)
      → let out = link_new x o u parse_host signal_org (ok account) w in Leaves false out.0 out.1
  unfolding name_modal
  link_new_clear account w =
      Leaves-continue false _ _ _
        (Smooth-unwrap (manager_new x.host_text x.http.parse_url account on_first_use) w)
        λ manager v. after_link_clear _ _

  -- `Account::new` on the account's dictionary, as `account_link` calls it.
  abbrev pub created : Config Host x.http.Url → Window → Result Failure (Account Host)
  created config w =
      (Storage.new x.pddb parse_host sigchat_account (x.host_text config.host)
        config.service_environment w.store).0

  busy_start :
      (t : Bytes) (s : u.State) → is_busy (u.set_busy_state true (u.set_status_text t s)) ≡ true
  busy_start t s = laws.busy_set true (u.set_status_text t s)

  Leaves-link_new :
      (c : Result Failure (Account Host)) (w : Window)
      → is_busy w.ui ≡ true
      → let out = link_new x o u parse_host signal_org c w in Leaves (fails c) out.0 out.1
  Leaves-link_new (ok account) w h = link_new_clear account w
  Leaves-link_new (err (failed e)) w h = notify-other true (codes "sigchat.account.failed") w h
  Leaves-link_new (err panicked) w h = tt

  without_panic :
      {A : Type 0} (b : Bool) (r : Result Failure A) (w : Window)
      → Leaves b r w
      → r ≢ err panicked
      → is_busy w.ui ≡ b
  without_panic b (ok a) w h ne = h
  without_panic b (err (failed e)) w h ne = h
  without_panic b (err panicked) w h ne = absurd (ne refl)

  -- Unless it panics, a link that created its account leaves the chat window not busy, however the link
  -- ended; where the account could not be created, the chat window stays busy.
  pub account_link-busy :
      (config : Config Host x.http.Url) (w : Window)
      → (account_link x o u parse_host signal_org config w).0 ≢ err panicked
      → is_busy (account_link x o u parse_host signal_org config w).1.ui ≡ fails (created config w)
  unfolding account_link
  account_link-busy config w ne =
      without_panic _ _ _ (Leaves-link_new (created config w) _ (busy_start _ w.ui)) ne
