-- ===== src/Examples/App.antt =====
-- The theorems on the link flow and on the application at concrete inputs.
use sigchat.Account.Stored.{build}
use sigchat.Account.Values.{set, get}
use sigchat.Account.Storage.{read, new, set_all, get_all}
use sigchat.Base.{
  ℕ, suc, ◌≡◌, ◌≢◌, refl, Bool, true, false, [], Option, none, some, ok, err, length,
}
use sigchat.Text.{Bytes, codes}
use sigchat.Io.{ErrorKind}
use sigchat.Pddb.{Pddb}
use sigchat.WsServer.Buffer.{WsResult}
use sigchat.Account.Environment.{live}
use sigchat.Account.Fields.{failed, panicked}
use sigchat.Account.Link.{Linking}
use sigchat.Manager.{Outside, read_failed, link}
use sigchat.Manager.Settled.{watched, IsSettled, link-IsSettled}
use sigchat.Manager.Config.{Config}
use sigchat.Trng.{TrngServer, getrandom, getrandom_lem}
use sigchat.Shell.{Ui, Shell, account_link}
use sigchat.Shell.Busy.{UiLaws, created, fails, account_link-busy}
use sigchat.Examples.LinkDevice.{linking, world}

-- A server that sends no uuid.
abbrev silent : Outside
silent = record {
  State = ℕ;
  Ws = Unit {0};
  Server = Unit {0};
  new_provision = λ n. (ok tt, suc n);
  read_once = λ ws ms n. (read_failed, n);
  close = λ ws n. n;
  link_uri = λ uuid key. some uuid;
  encode_no_pad = λ b. b;
  new_modals = λ n. (true, n);
  show_uri = λ uri n. (true, n);
  spawn = λ ws secs n. (ok tt, n);
  wait_and_take_binary = λ server n. (WsResult.timed_out, n);
  cancel = λ server n. n;
}

link-IsSettled_example :
    IsSettled
      (link linking
        (watched silent)
        (codes "desk")
        (record { world = world; outside = (0, []) })).1.outside.1
link-IsSettled_example = link-IsSettled linking silent (codes "desk") world 0

-- A database that answers nothing.
abbrev broken : Pddb
broken = record {
  Store = Unit {0};
  Handle = Unit {0};
  get = λ d k c s. (err ErrorKind.not_found, s);
  read_to_end = λ h s. (ok [], s);
  read = λ h n s. (ok [], s);
  write_all = λ h b s. (ok tt, s);
  write = λ h b s. (ok 0, s);
  delete_key = λ d k s. (err ErrorKind.not_found, s);
  delete_dict = λ d s. (ok tt, s);
  sync = λ s. (ok tt, s);
}

abbrev offline : Linking (Unit {0})
offline = record linking { pddb = broken }

-- A chat window that is busy or not.
abbrev window : Ui Bytes
window = record {
  State = Bool;
  set_status_text = λ t b. b;
  set_busy_state = λ b old. b;
  show_notification = λ t b. (true, b);
  alert = λ t b. (none, b);
  show_radio = λ b. (true, b);
  get_radio_index = λ b. (none, b);
  accessible = λ url b. (true, b);
  is_bound = λ b. (true, b);
  wifi_on_and_run = λ b. (true, b);
  start_progress = λ b. (true, b);
  sleep_ms = λ ms b. b;
  update_progress = λ n b. (true, b);
  finish_progress = λ b. (true, b);
}

window_laws : UiLaws window
window_laws = record {
  is_busy = λ b. b;
  busy_set = λ b s. refl;
  busy_status = λ t s. refl;
  busy_notification = λ t s. refl;
}

abbrev parse_host : Bytes → Option (Unit {0})
parse_host b = some tt

abbrev config : Config (Unit {0}) Bytes
config = record { host = tt; service_environment = live; url = [] }

abbrev shell : Shell offline silent window parse_host tt
shell = record { manager = none; store = tt; rng = 0; net = 0; outside = 0; ui = false }

refused :
    (account_link offline silent window parse_host tt config shell).0 ≡ err (failed ErrorKind.other)
unfolding account_link new set_all set read get_all get build
refused = refl

not_panicked : (account_link offline silent window parse_host tt config shell).0 ≢ err panicked
not_panicked h = cc refused

account_link-busy_example :
    (account_link offline silent window parse_host tt config shell).1.ui
    ≡ fails (created offline silent window window_laws parse_host tt config shell)
unfolding window_laws
account_link-busy_example =
    account_link-busy offline silent window window_laws parse_host tt config shell not_panicked

-- A server that counts what it was asked.
abbrev counter : TrngServer
counter = record {
  State = ℕ;
  connect = λ n. (ok tt, n);
  get_trng = λ words n. (some (n, n), suc n);
}

getrandom_lem_example : (b : Bytes) × ((getrandom counter 13 0).0 ≡ ok b) × (length b ≡ 13)
getrandom_lem_example = getrandom_lem counter (λ s. refl) (λ n s. ((s, s), refl)) 13 0
