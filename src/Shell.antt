-- ===== src/Shell.antt =====
-- src/lib.rs: `new`, `connect`, `account_setup`, `probe_host`, `account_link`, `account_register`, the name
-- dialog and `wifi` of `SigChat`.
pub mod Busy
pub mod Post
use sigchat.Base.{
  ℕ, zero, suc, ◌-◌, Bool, true, false, [], Option, none, some, is_some, Result, ok, err, Exec,
  pure, raise, map_err, map_error, attempt, ◌>>=◌, ◌>>◌, if◌then◌else◌,
}
use sigchat.Text.{Bytes, codes}
use sigchat.Io.{ErrorKind}
use sigchat.Pddb.{Pddb}
use sigchat.Account.Environment.{live}
use sigchat.Account.Fields.{Account, Failure, failed, panicked, is_registered, set_number}
use sigchat.Account.Storage
use sigchat.Account.Link.{Linking, World}
use sigchat.Manager.{Outside, Linker}
use sigchat.Manager
use sigchat.Manager.Settings.{TrustMode, on_first_use}
use sigchat.Manager.Config.{Config, config_new, manager_new}
use sigchat.Manager.Config

-- The chat window, the dialogs, the network and the probing of a host. A `Bool` result is false where
-- the call fails.
pub record Ui (Url : Type 0) : Type 1 where
  pub State : Type 0
  pub set_status_text : Bytes → State → State
  pub set_busy_state : Bool → State → State
  pub show_notification : Bytes → State → Bool × State
  -- the first field of a dialog
  pub alert : Bytes → State → Option Bytes × State
  -- `add_list_item` of some items and `get_radiobutton`, then `get_radio_index`
  pub show_radio : State → Bool × State
  pub get_radio_index : State → Option ℕ × State
  -- `tls.accessible` of the host of a URL
  pub accessible : Url → State → Bool × State
  -- whether `get_ipv4_config` has an address that DHCP bound
  pub is_bound : State → Bool × State
  -- `connection_manager_wifi_on_and_run`, `start_progress`, `sleep_ms`, `update_progress` and
  -- `finish_progress`
  pub wifi_on_and_run : State → Bool × State
  pub start_progress : State → Bool × State
  pub sleep_ms : ℕ → State → State
  pub update_progress : ℕ → State → Bool × State
  pub finish_progress : State → Bool × State

abbrev pub wifi_timeout : ℕ
wifi_timeout = 10

abbrev pub sigchat_account : Bytes
sigchat_account = codes "sigchat.account"

module _ {Host : Type 0} (x : Linking Host) (o : Outside) (u : Ui x.http.Url)
    (parse_host : Bytes → Option Host) (signal_org : Host) where
  open x use {pddb, keys, http}
  open u use {State}

  abbrev pub ManagerOf : Type 0
  ManagerOf = Config.Manager Host http.Url

  pub record Shell : Type 0 where
    pub manager : Option ManagerOf
    pub store : pddb.Store
    pub rng : keys.Rng
    pub net : http.Net
    pub outside : o.State
    pub ui : State

  abbrev pub on_ui : {A : Type 0} → (State → A × State) → Exec Failure Shell A
  on_ui f w = let (a, s) = f w.ui in (ok a, record w { ui = s })

  abbrev pub change_ui : (State → State) → Exec Failure Shell (Unit {0})
  change_ui f w = (ok tt, record w { ui = f w.ui })

  abbrev pub on_store : {A : Type 0} → Exec Failure pddb.Store A → Exec Failure Shell A
  on_store m w = let (r, s) = m w.store in (r, record w { store = s })

  abbrev pub expect : Bool → Exec Failure Shell (Unit {0})
  expect true = pure tt
  expect false = raise panicked

  -- `.unwrap()`
  abbrev pub unwrap : {A : Type 0} → Option A → Exec Failure Shell A
  unwrap none = raise panicked
  unwrap (some a) = pure a

  -- `.show_notification(…).expect(…)`
  abbrev pub notify : Bytes → Exec Failure Shell (Unit {0})
  notify text = do shown ← on_ui (u.show_notification text); expect shown

  abbrev pub busy : Bool → Exec Failure Shell (Unit {0})
  busy b = change_ui (u.set_busy_state b)

  abbrev pub status : Bytes → Exec Failure Shell (Unit {0})
  status text = change_ui (u.set_status_text text)

  abbrev pub other : {A : Type 0} → Exec Failure Shell A
  other = raise (failed ErrorKind.other)

  abbrev pub name_or : Bytes → Option Bytes → Bytes
  name_or default_name none = default_name
  name_or default_name (some name) = name

  unfoldable pub name_modal : Bytes → Bytes → Exec Failure Shell Bytes
  name_modal default_name prompt = do
    answer ← on_ui (u.alert prompt)
    pure (name_or default_name answer)

  abbrev pub read_account : Exec Failure Shell (Account Host)
  read_account = on_store (Storage.read pddb parse_host sigchat_account)

  -- `Manager::link` of a manager over the account; its own copy of the account goes with it.
  unfoldable pub manager_link : Account Host → Bytes → Exec Failure Shell Bool
  manager_link account name w =
      let (r, l) = Manager.link x o name (record {
        world = record { account = account; store = w.store; rng = w.rng; net = w.net };
        outside = w.outside;
      }) in
      (
        r,
        record w {
          store = l.world.store;
          rng = l.world.rng;
          net = l.world.net;
          outside = l.outside;
        },
      )

  abbrev pub after_link : Result Failure Bool → Exec Failure Shell (Account Host)
  after_link (ok true) = busy false >> read_account
  after_link (ok false) = busy false >> other
  after_link (err (failed e)) = do
    attempt (on_store (map_error failed (Storage.delete pddb sigchat_account)))
    busy false
    notify []
    other
  after_link (err panicked) = raise panicked

  abbrev pub link_new : Result Failure (Account Host) → Exec Failure Shell (Account Host)
  link_new (ok account) = do
    manager ← unwrap (manager_new x.host_text http.parse_url account on_first_use)
    name ← name_modal (codes "xous") (codes "sigchat.account.link.name")
    status (codes "sigchat.status.connecting")
    busy true
    linked ← attempt (manager_link manager.account name)
    after_link linked
  link_new (err (failed e)) = notify (codes "sigchat.account.failed") >> other
  link_new (err panicked) = raise panicked

  unfoldable pub account_link : Config Host http.Url → Exec Failure Shell (Account Host)
  account_link config = do
    status (codes "sigchat.status.initializing")
    busy true
    created ← attempt (
        on_store (
          Storage.new pddb parse_host sigchat_account (x.host_text config.host)
            config.service_environment))
    link_new created

  abbrev pub probed : Bool → Exec Failure Shell Bool
  probed true = busy false >> pure true
  probed false = do notify (codes "sigchat.account.abort"); busy false; pure false

  unfoldable pub probe_host : http.Url → Exec Failure Shell Bool
  probe_host url = do
    status (codes "sigchat.status.probing")
    busy true
    trusted ← on_ui (u.accessible url)
    probed trusted

  -- `signal_config`, and the phone number that is registered: registration is not implemented, and the
  -- result is an error.
  abbrev pub signal_config : Exec Failure Shell (Config Host http.Url)
  signal_config = unwrap (config_new x.host_text http.parse_url signal_org live)

  abbrev pub set_manager : Account Host → Exec Failure Shell (Unit {0})
  set_manager account = do
    manager ← unwrap (manager_new x.host_text http.parse_url account on_first_use)
    λ w. (ok tt, record w { manager = some manager })

  abbrev pub numbered : Result Failure (Unit {0}) → Account Host → Exec Failure Shell (Unit {0})
  numbered (ok _) account = set_manager account
  numbered (err (failed e)) account = pure tt
  numbered (err panicked) account = raise panicked

  abbrev pub register_account :
      Bytes → Result Failure (Account Host) → Exec Failure Shell (Unit {0})
  register_account number (ok account) w =
      let (r, state) = set_number pddb number (account, w.store) in
      numbered r state.0 (record w { store = state.1 })
  register_account number (err (failed e)) w = (ok tt, w)
  register_account number (err panicked) w = (err panicked, w)

  abbrev pub with_number : Config Host http.Url → Option Bytes → Exec Failure Shell (Unit {0})
  with_number config none = pure tt
  with_number config (some number) = do
    created ← attempt (
        on_store (
          Storage.new pddb parse_host sigchat_account (x.host_text config.host)
            config.service_environment))
    register_account number created

  unfoldable pub account_register : Config Host http.Url → Exec Failure Shell (Account Host)
  account_register config = do
    notify (codes "sorry - registration is not implemented yet")
    number ← on_ui (u.alert (codes "sigchat.number.title"))
    with_number config number
    other

  -- The choices in order: link, register, stay offline.
  abbrev pub chosen : Option ℕ → Exec Failure Shell (Account Host)
  chosen (some zero) = do
    config ← signal_config
    trusted ← probe_host config.url
    if trusted then account_link config else other
  chosen (some (suc zero)) = do
    config ← signal_config
    trusted ← probe_host config.url
    if trusted then account_register config else other
  chosen _ = other

  unfoldable pub account_setup : Exec Failure Shell (Account Host)
  account_setup = do
    shown ← on_ui u.show_radio
    expect shown
    index ← on_ui u.get_radio_index
    chosen index

  -- `Account::read(…)` of a registered account.
  abbrev pub registered : Result Failure (Account Host) → Result Failure (Option (Account Host))
  registered (ok account) = ok (if is_registered account then some account else none)
  registered (err (failed e)) = ok none
  registered (err panicked) = err panicked

  abbrev pub registered_account : Exec Failure Shell (Option (Account Host))
  registered_account w = let (r, w') = read_account w in (registered r, w')

  abbrev pub set_up : Result Failure (Account Host) → Exec Failure Shell (Account Host)
  set_up (ok account) = pure account
  set_up (err (failed e)) = status (codes "sigchat.status.offline") >> raise (failed e)
  set_up (err panicked) = raise panicked

  abbrev pub or_set_up : Option (Account Host) → Exec Failure Shell (Account Host)
  or_set_up (some account) = pure account
  or_set_up none = attempt account_setup >>= set_up

  abbrev pub connect_manager : Option ManagerOf → Exec Failure Shell (Unit {0})
  connect_manager (some m) = pure tt
  connect_manager none = do
    found ← registered_account
    account ← or_set_up found
    status (codes "sigchat.status.connecting")
    busy true
    set_manager account
    busy false

  -- Behind the set-up there is a manager, so the offline branch is not taken; it is kept as written.
  abbrev pub report : Bool → Exec Failure Shell Bool
  report true = status (codes "sigchat.status.online") >> pure true
  report false = status (codes "sigchat.status.offline") >> pure false

  -- One second of the wait, until an address is bound.
  abbrev pub waited : Exec Failure Shell Bool → Bool → Exec Failure Shell Bool
  waited again true = do finished ← on_ui u.finish_progress; expect finished; pure true
  waited again false = again

  -- `for wait in 0..WIFI_TIMEOUT`, from the number of seconds that are left.
  unfoldable pub wait_bound : ℕ → Exec Failure Shell Bool
  wait_bound zero = pure false
  wait_bound (suc left) = do
    change_ui (u.sleep_ms 1000)
    updated ← on_ui (u.update_progress (wifi_timeout - suc left))
    expect updated
    bound ← on_ui u.is_bound
    waited (wait_bound left) bound

  abbrev pub or_again : Exec Failure Shell Bool → Bool → Exec Failure Shell Bool
  or_again again true = pure true
  or_again again false = again

  -- The loop of `wifi` over the dialogs that the user answers with yes, before one with another answer.
  unfoldable pub try_wifi : ℕ → Exec Failure Shell Bool
  try_wifi zero = do shown ← on_ui u.show_radio; expect shown; pure false
  try_wifi (suc yeses) = do
    shown ← on_ui u.show_radio
    expect shown
    on ← on_ui u.wifi_on_and_run
    expect on
    progress ← on_ui u.start_progress
    expect progress
    bound ← wait_bound wifi_timeout
    or_again (try_wifi yeses) bound

  -- On the device; a hosted build returns true.
  unfoldable pub wifi : ℕ → Exec Failure Shell Bool
  wifi yeses = do bound ← on_ui u.is_bound; or_again (try_wifi yeses) bound

  abbrev pub connected : Bool → Exec Failure Shell Bool
  connected true = do
    held ← λ w. (ok w.manager, w)
    connect_manager held
    held' ← λ w. (ok (is_some w.manager), w)
    report held'
  connected false = notify (codes "sigchat.wifi.warning") >> pure false

  unfoldable pub connect : ℕ → Exec Failure Shell Bool
  connect yeses = do online ← wifi yeses; connected online

  unfoldable pub is_ready : Shell → Bool
  is_ready w = is_some w.manager

  -- `SigChat::new`, from a window without a manager.
  abbrev pub loaded : Option (Account Host) → Exec Failure Shell (Unit {0})
  loaded none = pure tt
  loaded (some account) = set_manager account

  unfoldable pub new : Exec Failure Shell (Unit {0})
  new = do found ← registered_account; loaded found
