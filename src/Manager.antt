-- ===== src/Manager.antt =====
-- src/manager.rs: linking this device, and starting to receive. The other methods of the file are
-- `todo!()` stubs.
pub mod Config
pub mod Settings
pub mod Settled
pub mod Receive
use sigchat.Base.{
  ℕ, ◌++◌, Bool, true, false, [], Option, none, some, Result, ok, err, Exec, pure, raise, to_option,
  unwrap_or, map_err, ok_or, ◌>>=◌, ◌>>◌, ◌==◌, if◌then◌else◌, length,
}
use sigchat.Text.{Bytes, codes}
use sigchat.Io.{ErrorKind}
use sigchat.WsServer.Buffer.{WsResult, binary}
use sigchat.Provision.Types.{IdentityKeyPair, ProvisionMessage, ProvisioningUuid}
use sigchat.Provision.Cipher.{decode_message, decode_uuid, generate_identity_key_pair}
use sigchat.Account.Fields.{Account, Failure, failed, panicked, chat_host}
use sigchat.Account.Link
use sigchat.Account.Link.{Linking, World}

-- What one read of the provisioning websocket brings.
pub data Read : Type 0 where
  read_binary : Bytes → Read
  read_other read_failed : Read

-- What `link` calls outside the repository, or of a thread: the websocket, the dialogs and the server
-- that holds the websocket, over their state.
pub record Outside : Type 1 where
  pub State : Type 0
  pub Ws : Type 0
  pub Server : Type 0
  -- `SignalWS::new_provision`, `read_once` with a limit in milliseconds, `close`
  pub new_provision : Exec ErrorKind State Ws
  pub read_once : Ws → ℕ → State → Read × State
  pub close : Ws → State → State
  -- `Url::parse_with_params` of the uuid and the public key, and `STANDARD_NO_PAD.encode`
  pub link_uri : Bytes → Bytes → Option Bytes
  pub encode_no_pad : Bytes → Bytes
  -- `XousNames::new` and `Modals::new`, and the dialog with the QR code
  pub new_modals : State → Bool × State
  pub show_uri : Bytes → State → Bool × State
  -- `SignalWsServer::spawn` with a limit in seconds, which may panic, `wait_and_take_binary`, `cancel`
  pub spawn : Ws → ℕ → Exec Failure State Server
  pub wait_and_take_binary : Server → State → WsResult × State
  pub cancel : Server → State → State

module _ {Host : Type 0} (x : Linking Host) (o : Outside) where
  open x use {keys, ciphers}
  open o use {State, Ws, Server}

  pub record Linker : Type 0 where
    pub world : World x
    pub outside : State

  abbrev pub outside_step : {A : Type 0} → (State → A × State) → Exec Failure Linker A
  outside_step f w = let (a, s) = f w.outside in (ok a, record w { outside = s })

  abbrev pub outside_change : (State → State) → Exec Failure Linker (Unit {0})
  outside_change f w = (ok tt, record w { outside = f w.outside })

  abbrev pub connect : Exec Failure Linker Ws
  connect w = let (r, s) = o.new_provision w.outside in (map_err failed r, record w { outside = s })

  abbrev pub link_err : {A : Type 0} → Exec Failure Linker A
  link_err = raise (failed ErrorKind.other)

  -- `ws.close(); return Err(link_err)` where there is no value.
  abbrev pub or_close : {A : Type 0} → Ws → Option A → Exec Failure Linker A
  or_close ws none = outside_change (o.close ws) >> link_err
  or_close ws (some a) = pure a

  abbrev uuid_text : Option ProvisioningUuid → Option Bytes
  uuid_text none = none
  uuid_text (some pu) = some pu.id

  abbrev pub uuid_of : Read → Option Bytes
  uuid_of (read_binary b) = uuid_text (to_option (decode_uuid keys ciphers b))
  uuid_of read_other = none
  uuid_of read_failed = none

  -- The public key for the URI, of 33 bytes.
  abbrev pub pub_key_of : IdentityKeyPair → Option Bytes
  pub_key_of pair =
      let b = unwrap_or (ciphers.decode pair.djb_identity_key.key) [] in
      if length b == 33 then some (o.encode_no_pad b) else none

  abbrev pub when : Bool → Option (Unit {0})
  when true = some tt
  when false = none

  abbrev pub generated : Exec Failure Linker IdentityKeyPair
  generated w =
      let (pair, rng) = generate_identity_key_pair keys ciphers w.world.rng in
      (ok pair, record w { world = record w.world { rng = rng } })

  -- An error of the start is `link_err`; a panic of it stays one.
  abbrev pub served : Result Failure Server → Result Failure Server
  served (ok server) = ok server
  served (err (failed e)) = err (failed ErrorKind.other)
  served (err panicked) = err panicked

  abbrev pub serve : Ws → Exec Failure Linker Server
  serve ws w = let (r, s) = o.spawn ws 180 w.outside in (served r, record w { outside = s })

  -- The dialog failed: the server is cancelled.
  abbrev pub or_cancel : Server → Bool → Exec Failure Linker (Unit {0})
  or_cancel server true = pure tt
  or_cancel server false = outside_change (o.cancel server) >> link_err

  -- An error of `account.link` is `Ok(false)`; a panic of it stays one.
  abbrev pub linked : Result Failure Bool × World x → State → Result Failure Bool × Linker
  linked (ok r, world) s = (ok r, record { world = world; outside = s })
  linked (err (failed e), world) s = (ok false, record { world = world; outside = s })
  linked (err panicked, world) s = (err panicked, record { world = world; outside = s })

  abbrev pub register : Bytes → Result ErrorKind ProvisionMessage → Exec Failure Linker Bool
  register name (ok m) w = linked (Link.link x name m w.world) w.outside
  register name (err e) w = link_err w

  abbrev pub registration : Bytes → IdentityKeyPair → WsResult → Exec Failure Linker Bool
  registration name pair (binary b) = register name (decode_message keys ciphers pair b)
  registration name pair _ = link_err

  -- From the websocket to the server that holds it.
  unfoldable pub hand_over : Ws → Exec Failure Linker (IdentityKeyPair × Server × Bytes)
  hand_over ws = do
    first ← outside_step (o.read_once ws 5000)
    uuid ← or_close ws (uuid_of first)
    identity_key_pair ← generated
    pub_key ← or_close ws (pub_key_of identity_key_pair)
    device_link_uri ← or_close ws (o.link_uri uuid pub_key)
    modals ← outside_step o.new_modals
    or_close ws (when modals)
    server ← serve ws
    pure (identity_key_pair, server, device_link_uri)

  -- The server is cancelled whatever came of the wait.
  unfoldable pub await : Bytes → IdentityKeyPair → Server → Bytes → Exec Failure Linker Bool
  await name identity_key_pair server device_link_uri = do
    shown ← outside_step (o.show_uri device_link_uri)
    or_cancel server shown
    result ← outside_step (o.wait_and_take_binary server)
    outside_change (o.cancel server)
    registration name identity_key_pair result

  unfoldable pub link : Bytes → Exec Failure Linker Bool
  link name = do ws ← connect; held ← hand_over ws; await name held.0 held.1 held.2
