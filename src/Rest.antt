-- ===== src/Rest.antt =====
-- src/manager/rest.rs: the request that links a device. The HTTP client, the encodings of JSON and URLs
-- are libraries'.
pub mod Redact
pub mod Requests
use sigchat.Base.{
  ℕ, ◌++◌, Bool, true, false, Option, none, some, Result, ok, err, Exec, lift, ok_or, ◌>>=◌, ◌==◌,
  ◌^◌, ltb, if◌then◌else◌,
}
use sigchat.Text.{Bytes, codes}
use sigchat.Text.Decimal.{parse_u32}
use sigchat.Io.{ErrorKind}
use sigchat.PreKeys.Generate.{KeyLibrary, PreKeyJson, Prekeys}
use sigchat.AccountAttrs.{AccountAttributes}

-- `SignedPreKeyEntity` and `KyberPreKeyEntity`, which have the same fields.
pub record PreKeyEntity : Type 0 where
  pub key_id : ℕ
  pub public_key : Bytes
  pub signature : Bytes

pub record LinkDeviceRequestBody : Type 0 where
  pub verification_code : Bytes
  pub account_attributes : AccountAttributes
  pub aci_signed_pre_key : PreKeyEntity
  pub pni_signed_pre_key : PreKeyEntity
  pub aci_pq_last_resort_pre_key : PreKeyEntity
  pub pni_pq_last_resort_pre_key : PreKeyEntity
  pub gcm_token : Option (Unit {0})

pub record LinkDeviceResponse : Type 0 where
  pub uuid : Bytes
  pub pni : Bytes
  pub device_id : ℕ

-- The `deviceId` of a response: a JSON number, a string, or another value.
pub data DeviceId : Type 0 where
  json_number : ℕ → DeviceId
  json_string : Bytes → DeviceId
  json_other : DeviceId

-- `de_u32_from_str_or_num`
unfoldable pub de_u32_from_str_or_num : DeviceId → Option ℕ
de_u32_from_str_or_num (json_number v) = if ltb v (2 ^ 32) then some v else none
de_u32_from_str_or_num (json_string v) = parse_u32 v
de_u32_from_str_or_num json_other = none

-- The response with its number as it stands in the JSON text.
pub record ResponseJson : Type 0 where
  pub uuid : Bytes
  pub pni : Bytes
  pub device_id : DeviceId

abbrev pub with_number : ResponseJson → Option ℕ → Option LinkDeviceResponse
with_number j none = none
with_number j (some n) = some (record { uuid = j.uuid; pni = j.pni; device_id = n })

-- The derived decoder of `LinkDeviceResponse`, behind the parser of JSON.
abbrev pub decoded_response : Option ResponseJson → Option LinkDeviceResponse
decoded_response none = none
decoded_response (some j) = with_number j (de_u32_from_str_or_num j.device_id)

abbrev entity : PreKeyJson → PreKeyEntity
entity k = record {
  key_id = k.key_id;
  public_key = k.public_key_b64url;
  signature = k.signature_b64url;
}

-- `LinkDeviceRequestBody::from_parts`
abbrev pub from_parts :
    (k : KeyLibrary) → Bytes → AccountAttributes → Prekeys k → LinkDeviceRequestBody
from_parts k verification_code account_attributes prekeys = record {
  verification_code = verification_code;
  account_attributes = account_attributes;
  aci_signed_pre_key = entity prekeys.aci_signed;
  pni_signed_pre_key = entity prekeys.pni_signed;
  aci_pq_last_resort_pre_key = entity prekeys.aci_kyber_last_resort;
  pni_pq_last_resort_pre_key = entity prekeys.pni_kyber_last_resort;
  gcm_token = none;
}

-- What the client returns: a response whose text may be unreadable, a status that is an error, or no
-- answer.
pub data Reply : Type 0 where
  response : Option Bytes → Reply
  status : ℕ → Reply
  transport : Reply

-- `agent.put(url)` with the headers and a body, on the state of the network; the JSON encodings, and
-- the URLs.
pub record Http : Type 1 where
  pub Net : Type 0
  pub put : Bytes → Bytes → Bytes → Net → Reply × Net
  pub body_json : LinkDeviceRequestBody → Option Bytes
  pub parse_json : Bytes → Option ResponseJson
  -- `STANDARD.encode`
  pub encode : Bytes → Bytes
  pub Url : Type 0
  -- `Url::parse`, and the text of a URL whose path is set
  pub parse_url : Bytes → Option Url
  pub text_at : Url → Bytes → Bytes

-- The kind of the error for a status.
abbrev pub kind_of_status : ℕ → ErrorKind
kind_of_status code =
    if code == 403
    then ErrorKind.permission_denied
    else if code == 422
    then ErrorKind.invalid_data
    else ErrorKind.other

abbrev pub is_permission_denied : ErrorKind → Bool
is_permission_denied ErrorKind.permission_denied = true
is_permission_denied _ = false

module _ (h : Http) where
  open h use {Net, Url}

  unfoldable pub basic_auth_header : Bytes → Bytes → Bytes
  basic_auth_header identifier password =
      codes "Basic " ++ h.encode (identifier ++ codes ":" ++ password)

  abbrev pub parsed_reply : Reply → Result ErrorKind LinkDeviceResponse
  parsed_reply (response none) = err ErrorKind.invalid_data
  parsed_reply (response (some text)) =
      ok_or (decoded_response (h.parse_json text)) ErrorKind.invalid_data
  parsed_reply (status code) = err (kind_of_status code)
  parsed_reply transport = err ErrorKind.other

  abbrev pub sent : Bytes → Bytes → Bytes → Exec ErrorKind Net LinkDeviceResponse
  sent url auth_value json net =
      let (reply, net') = h.put url auth_value json net in (parsed_reply reply, net')

  -- The log of the redacted body is not part of the result.
  unfoldable pub try_put :
      Bytes → Bytes → LinkDeviceRequestBody → Exec ErrorKind Net LinkDeviceResponse
  try_put url auth_value body = do
    json ← lift (ok_or (h.body_json body) ErrorKind.other)
    sent url auth_value json

  abbrev pub retried :
      Result ErrorKind LinkDeviceResponse
      → Exec ErrorKind Net LinkDeviceResponse
      → Exec ErrorKind Net LinkDeviceResponse
  retried (ok r) again net = (ok r, net)
  retried (err e) again net = if is_permission_denied e then again net else (err e, net)

  unfoldable pub put_devices_link :
      Url → Bytes → Bytes → LinkDeviceRequestBody → Exec ErrorKind Net LinkDeviceResponse
  put_devices_link base_url phone_number password body net =
      let link_url = h.text_at base_url (codes "/v1/devices/link") in
      let identifier = phone_number ++ codes ".-1" in
      let (first, net') = try_put link_url (basic_auth_header identifier password) body net in
      retried first (try_put link_url (basic_auth_header phone_number password) body) net'
