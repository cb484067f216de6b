-- ===== src/MainWs/Proto.antt =====
-- The protobuf messages of src/manager/main_ws.rs. Their encoding is prost's, so it is an interface.
-- An i32 or u64 is the number of its bit pattern.
use sigchat.Base.{ℕ, List, Option}
use sigchat.Text.{Bytes}

pub record WsRequest : Type 0 where
  pub verb : Option Bytes
  pub path : Option Bytes
  pub body : Option Bytes
  pub id : Option ℕ
  pub headers : List Bytes

pub record WsResponse : Type 0 where
  pub id : Option ℕ
  pub status : Option ℕ
  pub message : Option Bytes
  pub body : Option Bytes
  pub headers : List Bytes

-- `type_code` is the field `type`.
pub record WsMessage : Type 0 where
  pub type_code : Option ℕ
  pub request : Option WsRequest
  pub response : Option WsResponse

pub record Envelope : Type 0 where
  pub type_code : Option ℕ
  pub source_service_id : Option Bytes
  pub source_device : Option ℕ
  pub server_timestamp : Option ℕ
  pub content : Option Bytes

pub record DataMessage : Type 0 where
  pub body : Option Bytes
  pub timestamp : Option ℕ

pub record SentMessage : Type 0 where
  pub destination_service_id : Option Bytes
  pub timestamp : Option ℕ
  pub message : Option DataMessage

pub record SyncMessage : Type 0 where
  pub sent : Option SentMessage

pub record Content : Type 0 where
  pub data_message : Option DataMessage
  pub sync_message : Option SyncMessage

-- `T::decode(bytes)`; `none` is a decoding error, which is only logged.
pub record Decoder : Type 0 where
  pub ws_message : Bytes → Option WsMessage
  pub envelope : Bytes → Option Envelope
  pub content : Bytes → Option Content

abbrev pub ws_type_request : ℕ
ws_type_request = 1

abbrev pub ws_type_response : ℕ
ws_type_response = 2

abbrev pub envelope_ciphertext : ℕ
envelope_ciphertext = 1

abbrev pub envelope_prekey_bundle : ℕ
envelope_prekey_bundle = 3

abbrev pub envelope_unidentified_sender : ℕ
envelope_unidentified_sender = 6
