-- ===== src/Examples/Upgrade.antt =====
-- The theorems on the websocket connection at concrete inputs.
use sigchat.Base.{◌≡◌, refl, [], ◌++◌, some, ok, arith}
use sigchat.Text.{Bytes, codes}
use sigchat.Text.Decimal.{show}
use sigchat.SignalWs.{Sockets, connection_closed, connect, new_message, read_once}
use sigchat.SignalWs.Timeout.{Outcome, timed, read_once_limited}
use sigchat.SignalWs.Login.{sent, Carries, new_message-login_of}

-- Sockets that answer every call; base64 changes nothing.
abbrev sockets : Sockets
sockets = record {
  State = Unit;
  Url = Bytes;
  Tcp = Unit;
  Tls = Unit;
  Request = Unit;
  Ws = Unit;
  Frame = Bytes;
  parse_url = some;
  set_wss = some;
  extend_path = λ url path. some url;
  host_str = λ url. some (codes "chat.signal.org");
  url_text = λ url. url;
  encode = λ b. b;
  tcp_connect = λ host port s. (ok tt, s);
  stream_owned = λ host tcp s. (ok tt, s);
  generate_key = λ s. (codes "key", s);
  build = λ u. some tt;
  client = λ q tls s. (some tt, s);
  set_read_timeout = λ ws limit s. (ok tt, s);
  read = λ ws s. (ok (codes "uuid"), s);
  send = λ ws frame s. (ok tt, s);
  close = λ ws s. s;
  flush = λ ws s. (connection_closed, s);
}

made :
    (new_message (sent sockets) (codes "chat.signal.org") (codes "aci") 2 (codes "a:b") (tt, [])).0
    ≡ ok tt
unfolding new_message connect
made = refl

new_message-login_of_example :
    Carries sockets some
      (some (codes "aci" ++ codes "." ++ show 2, codes "a:b"))
      (new_message
        (sent sockets)
        (codes "chat.signal.org")
        (codes "aci")
        2
        (codes "a:b")
        (tt, [])).1.1
new_message-login_of_example =
    new_message-login_of sockets some (codes "chat.signal.org") (codes "aci") 2 (codes "a:b") tt tt
      (λ b. refl) (omega arith) made

read_once_limited_example :
    let (r, s') = read_once (timed sockets) tt 5000 (tt, []) in Outcome sockets tt 5000 tt [] r s'.1
read_once_limited_example = read_once_limited sockets tt 5000 tt []
