-- ===== src/Rest/Requests.antt =====
-- Which requests `put_devices_link` of src/manager/rest.rs sends.
use sigchat.Base.{
  ℕ, ◌^◌, ◌<◌, ◌≡◌, ◌≢◌, ◌⊎◌, Exec, inl, inr, refl, ap, [], ◌∷◌, ◌++◌, List, Option, none, some,
  Result, ok, err, arith, Option-cases, continue_ok, with_ok, false, Bool-cases, ◌==◌, ok_or,
}
use sigchat.Text.{Bytes, codes}
use mathlib.Core.Option
use sigchat.Base.Try.{ok_or_ok}
use sigchat.Text.Decimal.{parse_u32_lt}
use sigchat.Io.{ErrorKind}
use sigchat.Rest.{
  Http, Reply, decoded_response, de_u32_from_str_or_num, with_number, json_number, json_string,
  json_other, DeviceId, ResponseJson, LinkDeviceRequestBody, LinkDeviceResponse, basic_auth_header,
  parsed_reply, retried, try_put, put_devices_link, kind_of_status, response, status, transport,
}

-- A request: its URL, its header and its body.
pub record Request : Type 0 where
  pub url : Bytes
  pub authorization : Bytes
  pub body : Bytes

abbrev pub request : Bytes → Bytes → Bytes → Request
request url authorization body = record { url = url; authorization = authorization; body = body }

module _ (h : Http) where
  open h use {Net, Url}

  -- The client with a record of what was sent, the last request first.
  abbrev pub recorded : Http
  recorded = record h {
    Net = Net × List Request;
    put = λ url auth_value json net.
        let (reply, net') = h.put url auth_value json net.0 in
        (reply, (net', request url auth_value json ∷ net.1));
  }

  abbrev Again : Type 0
  Again = Exec ErrorKind (Net × List Request) LinkDeviceResponse

  parsed-retried :
      (o : Option LinkDeviceResponse) (again : Again) (net : Net × List Request)
      → retried recorded (ok_or o ErrorKind.invalid_data) again net
        ≡ (ok_or o ErrorKind.invalid_data, net)
  parsed-retried none again net = refl
  parsed-retried (some r) again net = refl

  status-retried :
      (code : ℕ) (again : Again) (net : Net × List Request)
      → (code == 403) ≡ false
      → retried recorded (err (kind_of_status code)) again net ≡ (err (kind_of_status code), net)
  status-retried code again net ne = ground (arith, ne)

  status_number : Reply → ℕ
  status_number (status code) = code
  status_number _ = 0

  status-ne : (code : ℕ) → (code == 403) ≡ false → status code ≢ status 403
  unfolding status_number
  status-ne code ne e = let same : code ≡ 403 = ap status_number e in ground (arith, same, ne)

  -- A reply is the status 403, or its result stands.
  reply-cases :
      (r : Reply)
      → (r ≡ status 403)
        ⊎ ((r ≢ status 403)
            × ((again : Again) (net : Net × List Request)
                → retried recorded (parsed_reply recorded r) again net
                  ≡ (parsed_reply recorded r, net)))
  reply-cases (response none) = inr (λ e. cc, λ again net. refl)
  reply-cases (response (some text)) =
      inr (λ e. cc, parsed-retried (decoded_response (h.parse_json text)))
  reply-cases (status code) = elim (Bool-cases (code == 403)) [
    | inl e ↦ inl (ap status (ground (arith, e)))
    | inr ne ↦ inr (status-ne code ne, λ again net. status-retried code again net ne)
  ]
  reply-cases transport = inr (λ e. cc, λ again net. refl)

  -- The text of the URL, the two identifiers and the body of each request. Nothing is sent where the body
  -- has no JSON; else one request under the number with `.-1`, whose reply is the result unless it is
  -- the status 403; then one more with the same URL and body under the bare number, and its reply is the
  -- result, another 403 too.
  pub put_devices_link_requests :
      (base_url : Url) (phone_number password : Bytes) (body : LinkDeviceRequestBody) (net : Net)
      → let url = h.text_at base_url (codes "/v1/devices/link") in
        let suffixed = basic_auth_header h (phone_number ++ codes ".-1") password in
        let bare = basic_auth_header h phone_number password in
        let outcome = put_devices_link recorded base_url phone_number password body (net, []) in
        ((h.body_json body ≡ none) × (outcome ≡ (err ErrorKind.other, (net, []))))
        ⊎ ((json : Bytes) × (h.body_json body ≡ some json)
            × (let (reply, net1) = h.put url suffixed json net in
                let (reply2, net2) = h.put url bare json net1 in
                let first = request url suffixed json in
                let second = request url bare json in
                ((reply ≢ status 403) × (outcome ≡ (parsed_reply h reply, (net1, first ∷ []))))
                ⊎ ((reply ≡ status 403)
                    × (outcome ≡ (parsed_reply h reply2, (net2, second ∷ first ∷ []))))))
  unfolding put_devices_link try_put basic_auth_header
  put_devices_link_requests base_url phone_number password body net =
      elim (Option-cases (h.body_json body)) [
        | inl e ↦ inl (e, rw e refl)
        | inr (json, e) ↦ inr (
          json,
          e,
          elim (reply-cases
              (h.put (h.text_at base_url (codes "/v1/devices/link"))
                (basic_auth_header h (phone_number ++ codes ".-1") password) json net).0) [
                  | inl denied ↦ inr (denied, rw (e, denied) refl)
                  | inr (ne, stays) ↦ inl (ne, rw e (stays _ _))
                ],
        )
      ]

  device_id_lt : (d : DeviceId) (n : ℕ) → de_u32_from_str_or_num d ≡ some n → n < 2 ^ 32
  unfolding de_u32_from_str_or_num
  device_id_lt (json_number v) n e = ground arith
  device_id_lt (json_string v) n e = parse_u32_lt v n e
  device_id_lt json_other n e = cc

  with_number-some :
      (j : ResponseJson) (o : Option ℕ) (r : LinkDeviceResponse)
      → with_number j o ≡ some r
      → o ≡ some r.device_id
  with_number-some j none r e = cc
  with_number-some j (some n) r e = ap (Option.map (λ (x : LinkDeviceResponse). x.device_id)) e

  decoded_response_lt :
      (o : Option ResponseJson) (r : LinkDeviceResponse)
      → decoded_response o ≡ some r
      → r.device_id < 2 ^ 32
  decoded_response_lt none r e = cc
  decoded_response_lt (some j) r e = device_id_lt j.device_id r.device_id (with_number-some j _ r e)

  parsed_reply_lt :
      (reply : Reply) (r : LinkDeviceResponse) → parsed_reply h reply ≡ ok r → r.device_id < 2 ^ 32
  parsed_reply_lt (response none) r e = cc
  parsed_reply_lt (response (some body)) r e = decoded_response_lt _ r (ok_or_ok _ _ _ e)
  parsed_reply_lt (status code) r e = cc
  parsed_reply_lt transport r e = cc

  try_put_lt :
      (url auth_value : Bytes) (body : LinkDeviceRequestBody) (net : Net) (r : LinkDeviceResponse)
      → (try_put h url auth_value body net).0 ≡ ok r
      → r.device_id < 2 ^ 32
  unfolding try_put
  try_put_lt url auth_value body net r e =
      with_ok (continue_ok {S = Net} (ok_or (h.body_json body) ErrorKind.other) _ _ _ e)
        λ json _ e'. parsed_reply_lt (h.put url auth_value json net).0 r e'

  retried_lt :
      (first : Result ErrorKind LinkDeviceResponse) (again : Exec ErrorKind Net LinkDeviceResponse)
      (net : Net) (r : LinkDeviceResponse)
      → (first ≡ ok r → r.device_id < 2 ^ 32)
      → ((again net).0 ≡ ok r → r.device_id < 2 ^ 32)
      → (retried h first again net).0 ≡ ok r
      → r.device_id < 2 ^ 32
  retried_lt (ok r') again net r f g e = f e
  retried_lt (err ErrorKind.permission_denied) again net r f g e = g e
  retried_lt (err _) again net r f g e = cc

  -- The device id of a response that is accepted has 32 bits, whether the server wrote it as a number or
  -- as a string.
  pub put_devices_link_lt :
      (base_url : Url) (phone_number password : Bytes) (body : LinkDeviceRequestBody) (net : Net)
      (r : LinkDeviceResponse)
      → (put_devices_link h base_url phone_number password body net).0 ≡ ok r
      → r.device_id < 2 ^ 32
  unfolding put_devices_link
  put_devices_link_lt base_url phone_number password body net r e =
      retried_lt _ _ _ r (try_put_lt _ _ body net r) (try_put_lt _ _ body _ r) e
