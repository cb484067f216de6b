-- ===== src/MainWs/Request.antt =====
-- `handle_request` and `send_ack` of src/manager/main_ws.rs.
pub mod Acks
use sigchat.Base.{ℕ, ◌&&◌, [], Option, none, some, unwrap_or, pure, ◌>>◌, if◌then◌else◌}
use sigchat.Text.{Bytes, codes, bytes_eq}
use sigchat.Pddb.{Pddb}
use sigchat.Signal.{Addresses}
use sigchat.MainWs.Proto.{WsRequest, WsMessage, Decoder, ws_type_response}
use sigchat.MainWs.World.{Run, binary, send}
use sigchat.MainWs.Envelope.{Protocol, dispatch_envelope}

abbrev pub ack : ℕ → ℕ → WsMessage
ack id status = record {
  type_code = some ws_type_response;
  request = none;
  response = some (record {
    id = some id;
    status = some status;
    message = some (codes "OK");
    body = none;
    headers = [];
  });
}

module _ (p : Pddb) where
  -- A failed send is only logged.
  unfoldable pub send_ack : ℕ → ℕ → Run p (Unit {0})
  send_ack id status = send p (binary (ack id status))

  module _ (ad : Addresses) (proto : Protocol p ad) (decoder : Decoder) where
    open ad use {ProtocolAddress}

    abbrev dispatch_body : Option Bytes → ProtocolAddress → Run p (Unit {0})
    dispatch_body none local_addr = pure tt
    dispatch_body (some body) local_addr = dispatch_envelope p ad proto decoder body local_addr

    unfoldable pub handle_request : WsRequest → ProtocolAddress → Run p (Unit {0})
    unfolding send_ack
    handle_request req local_addr =
        let id = unwrap_or req.id 0 in
        let verb = unwrap_or req.verb [] in
        let path = unwrap_or req.path [] in
        if bytes_eq verb (codes "PUT") && bytes_eq path (codes "/api/v1/message")
        then (do dispatch_body req.body local_addr; send_ack id 200)
        else if bytes_eq verb (codes "PUT") && bytes_eq path (codes "/api/v1/queue/empty")
        then send_ack id 200
        else send_ack id 200
