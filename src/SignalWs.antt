-- ===== src/SignalWs.antt =====
-- src/manager/signal_ws.rs: the websocket to the server. The sockets, TLS, tungstenite, the url crate and
-- base64 are libraries, an interface over one state.
pub mod Timeout
pub mod Close
pub mod Reading
pub mod Login
use sigchat.Base.{
  ℕ, zero, suc, Bool, true, false, List, [], ◌∷◌, ◌++◌, Option, none, some, Result, ok, err, Exec,
  pure, raise, lift, map_error, ok_or, attempt, ◌>>=◌, ◌>>◌, if◌then◌else◌,
}
use sigchat.Text.{Bytes, codes}
use sigchat.Text.Decimal.{show}
use sigchat.Io.{ErrorKind}
use sigchat.Account.Fields.{Failure, failed, panicked}
use sigchat.MainWs.Session.{WsError, is_timeout}

abbrev pub provisioning_path : List Bytes
provisioning_path = codes "v1" ∷ codes "websocket" ∷ codes "provisioning" ∷ [] ∷ []

abbrev pub registration_path : List Bytes
registration_path = codes "v1" ∷ codes "registration" ∷ [] ∷ []

-- A header's name and value, and an upgrade request before it is built.
pub record Upgrade : Type 0 where
  pub uri : Bytes
  pub headers : List (Bytes × Bytes)

-- What a flush answers behind a close: the connection goes on, is closed, or fails.
pub data Flush : Type 0 where
  flushed connection_closed flush_failed : Flush

pub record Sockets : Type 1 where
  pub State : Type 0
  pub Url : Type 0
  pub Tcp : Type 0
  pub Tls : Type 0
  pub Request : Type 0
  pub Ws : Type 0
  pub Frame : Type 0
  -- `Url::parse`, `set_scheme("wss")`, `path_segments_mut().extend`, `host_str`, `as_str`
  pub parse_url : Bytes → Option Url
  pub set_wss : Url → Option Url
  pub extend_path : Url → List Bytes → Option Url
  pub host_str : Url → Option Bytes
  pub url_text : Url → Bytes
  -- `BASE64.encode`
  pub encode : Bytes → Bytes
  -- `TcpStream::connect`, `Tls::stream_owned`, `generate_key`, `body(())` and `client`
  pub tcp_connect : Bytes → ℕ → Exec ErrorKind State Tcp
  pub stream_owned : Bytes → Tcp → Exec ErrorKind State Tls
  pub generate_key : State → Bytes × State
  pub build : Upgrade → Option Request
  pub client : Request → Tls → State → Option Ws × State
  -- `set_read_timeout` in milliseconds, `read`, `send`, `close(None)` and `flush`
  pub set_read_timeout : Ws → Option ℕ → Exec ErrorKind State (Unit {0})
  pub read : Ws → Exec WsError State Frame
  pub send : Ws → Frame → Exec WsError State (Unit {0})
  pub close : Ws → State → State
  pub flush : Ws → State → Flush × State

module _ (o : Sockets) where
  open o use {State, Url, Ws, Frame}

  -- Code that may also panic.
  abbrev pub Run : Type 0 → Type 0
  Run A = Exec Failure State A

  abbrev pub expect : {A : Type 0} → Option A → Run A
  expect none = raise panicked
  expect (some a) = pure a

  abbrev pub authorization : Option Bytes → List (Bytes × Bytes)
  authorization none = []
  authorization (some credentials) = (codes "Authorization", codes "Basic " ++ credentials) ∷ []

  -- The upgrade request, the last header for a login only.
  unfoldable pub upgrade : Url → Bytes → Bytes → Option Bytes → Upgrade
  upgrade url host key auth = record {
    uri = o.url_text url;
    headers =
        (codes "Host", host)
        ∷ (codes "Connection", codes "Upgrade")
        ∷ (codes "Upgrade", codes "websocket")
        ∷ (codes "Sec-WebSocket-Version", codes "13")
        ∷ (codes "Sec-WebSocket-Key", key)
        ∷ (codes "X-Signal-Receive-Stories", codes "true")
        ∷ authorization auth;
  }

  unfoldable pub connect : Url → Option Bytes → Run Ws
  connect url auth = do
    host ← expect (o.host_str url)
    sock ← map_error failed (o.tcp_connect host 443)
    tls_stream ← map_error failed (o.stream_owned host sock)
    key ← λ s. let (k, s') = o.generate_key s in (ok k, s')
    request ← lift (ok_or (o.build (upgrade url host key auth)) (failed ErrorKind.invalid_input))
    λ s.
        let (ws, s') = o.client request tls_stream s in
        (ok_or ws (failed ErrorKind.connection_refused), s')

  -- The base64 of the login and the password.
  unfoldable pub credentials : Bytes → ℕ → Bytes → Bytes
  credentials aci_service_id device_id password =
      o.encode ((aci_service_id ++ codes "." ++ show device_id) ++ codes ":" ++ password)

  unfoldable pub new_message : Bytes → Bytes → ℕ → Bytes → Run Ws
  new_message host aci_service_id device_id password = do
    url ← lift (
        ok_or (o.parse_url (codes "wss://" ++ host ++ codes "/v1/websocket/"))
          (failed ErrorKind.invalid_input))
    connect url (some (credentials aci_service_id device_id password))

  -- The address that a connection without a login goes to; it is written back into the argument.
  unfoldable pub addressed : Url → List Bytes → Run Url
  addressed url path = do wss ← expect (o.set_wss url); expect (o.extend_path wss path)

  unfoldable pub new_provision : Url → Run Ws
  new_provision url = do address ← addressed url provisioning_path; connect address none

  unfoldable pub new_register : Url → Run Ws
  new_register url = do address ← addressed url registration_path; connect address none

  -- The error of a read, by its kind.
  abbrev pub read_result : Result WsError Frame → Result ErrorKind Frame
  read_result (ok msg) = ok msg
  read_result (err e) = if is_timeout e then err ErrorKind.timed_out else err ErrorKind.other

  unfoldable pub read_once : Ws → ℕ → Exec ErrorKind State Frame
  read_once ws timeout = do
    o.set_read_timeout ws (some timeout)
    result ← attempt (o.read ws)
    attempt (o.set_read_timeout ws none)
    lift (read_result result)

  -- The loop of `close`, on fuel: `false` is a loop that still goes on.
  unfoldable pub flush_loop : ℕ → Ws → State → Bool × State
  flush_loop zero ws s = (false, s)
  flush_loop (suc fuel) ws s =
      let (answer, s') = o.flush ws s in
      let rest = flush_loop fuel ws s' in
      elim answer [ flushed ↦ rest | connection_closed ↦ (true, s') | flush_failed ↦ (true, s') ]

  unfoldable pub close : ℕ → Ws → State → Bool × State
  close fuel ws s = flush_loop fuel ws (o.close ws s)
