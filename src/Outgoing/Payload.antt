-- ===== src/Outgoing/Payload.antt =====
-- The text under which src/manager/outgoing.rs keeps the current peer: how it is written, and how
-- `parse_peer_json` reads it.
use sigchat.Base.{
  ℕ, ◌+◌, ◌%◌, ◌^◌, ◌≤◌, ◌≡◌, refl, ap, ◌∙◌, false, not, ◌||◌, [], ◌∷◌, ◌++◌, append_assoc, Option,
  none, some, Result, ok, err, ok_or, unwrap_or, map_err, arith, ltb, ◌==◌, if◌then◌else◌, length,
  take, drop, take-append_length, drop-append_length, length-append, All,
}
use sigchat.Base.Try.{◌>>=◌}
use sigchat.Text.{Bytes, codes, Lacks}
use sigchat.Text.Decimal.{show, parse_u32, parse_u32-show, is_ascii_digit, All-show, IsDigit}
use sigchat.Text.Search.{
  find, find_where, starts_with, shift, find-append, find-skip, find-cons, find_where-append,
}
use sigchat.Signal.{Addresses, AddressesLaws}
use sigchat.Outgoing.Error.{OutgoingError, pddb, bad_device_id}

abbrev quote : ℕ
quote = b'"'

-- `format!("\"{key}\":\"")` and `format!("\"{key}\":")`
abbrev string_needle : Bytes → Bytes
string_needle key = quote ∷ (key ++ quote ∷ b':' ∷ quote ∷ [])

abbrev number_needle : Bytes → Bytes
number_needle key = quote ∷ (key ++ quote ∷ b':' ∷ [])

abbrev upto : Bytes → Option ℕ → Option Bytes
upto rest none = none
upto rest (some end) = some (take end rest)

-- What stands behind the needle, up to the next quote.
abbrev string_at : Bytes → Bytes → Option ℕ → Option Bytes
string_at s needle none = none
string_at s needle (some at) =
    let rest = drop (at + length needle) s in upto rest (find_where (λ c. c == quote) rest)

unfoldable pub extract_string_field : Bytes → Bytes → Option Bytes
extract_string_field s key = string_at s (string_needle key) (find s (string_needle key))

-- What stands behind the needle, up to the first character that is no digit, or to the end.
abbrev number_at : Bytes → Bytes → Option ℕ → Option Bytes
number_at s needle none = none
number_at s needle (some at) =
    let rest = drop (at + length needle) s in
    some (take (unwrap_or (find_where (λ c. not (is_ascii_digit c)) rest) (length rest)) rest)

unfoldable pub extract_number_field : Bytes → Bytes → Option Bytes
extract_number_field s key = number_at s (number_needle key) (find s (number_needle key))

module _ (ad : Addresses) where
  open ad use {ProtocolAddress, DeviceId, device_new, device_u32, address_new, name, device_id}

  -- `DeviceId::new(dev_id as u8)` behind the range test
  unfoldable pub checked_device : (Bytes → OutgoingError) → ℕ → Result OutgoingError DeviceId
  checked_device wrap dev_id =
      if dev_id == 0 || ltb 127 dev_id
      then err (bad_device_id dev_id)
      else map_err (λ _. wrap (codes "DeviceId")) (device_new (dev_id % 2 ^ 8))

  unfoldable pub parse_peer_json : Bytes → Result OutgoingError ProtocolAddress
  parse_peer_json s = do
    uuid ← ok_or (extract_string_field s (codes "uuid")) (pddb (codes "peer json: uuid missing"))
    dev_str ←
        ok_or (extract_number_field s (codes "device_id"))
          (pddb (codes "peer json: device_id missing"))
    dev_id ← ok_or (parse_u32 dev_str) (pddb (codes "peer json: device_id parse"))
    dev ← checked_device pddb dev_id
    ok (address_new uuid dev)

  -- `format!("{{\"uuid\":\"{}\",\"device_id\":{}}}", name, device_id)`
  unfoldable pub peer_payload : ProtocolAddress → Bytes
  peer_payload remote_addr =
      codes "{\"uuid\":\""
      ++ (name remote_addr
          ++ (codes "\",\"device_id\":"
              ++ (show (device_u32 (device_id remote_addr)) ++ codes "}")))

-- The payload over its two values.
abbrev written : Bytes → ℕ → Bytes
written uuid n =
    codes "{\"uuid\":\"" ++ (uuid ++ (codes "\",\"device_id\":" ++ (show n ++ codes "}")))

find_uuid : (uuid : Bytes) (n : ℕ) → find (written uuid n) (string_needle (codes "uuid")) ≡ some 1
find_uuid uuid n =
    let rest = uuid ++ (codes "\",\"device_id\":" ++ (show n ++ codes "}")) in
    ground (
      arith,
      find-skip (codes "{") (string_needle (codes "uuid") ++ rest) quote (codes "uuid\":\"")
          (omega arith),
      find-append (string_needle (codes "uuid")) rest,
    )

no_quote : (s : Bytes) → Lacks quote s → All (λ b. (b == quote) ≡ false) s
no_quote [] _ = tt
no_quote (c ∷ s) (ne, lacks) = (ground arith, no_quote s lacks)

All-digits : (s : Bytes) → All IsDigit s → All (λ b. not (is_ascii_digit b) ≡ false) s
unfolding is_ascii_digit
All-digits [] _ = tt
All-digits (c ∷ s) (hc, hs) = (ground arith, All-digits s hs)

extract_uuid :
    (uuid : Bytes) (n : ℕ)
    → Lacks quote uuid
    → extract_string_field (written uuid n) (codes "uuid") ≡ some uuid
unfolding extract_string_field
extract_uuid uuid n lacks =
    let tail = codes ",\"device_id\":" ++ (show n ++ codes "}") in
    rw
      (
        find_uuid uuid n,
        find_where-append (λ c. c == quote) uuid quote tail (no_quote uuid lacks) refl,
      )
      (ap some (take-append_length uuid (quote ∷ tail)))

-- A name without quotes, closed before a comma, does not begin the second needle.
no_match :
    (uuid key rest : Bytes)
    → Lacks quote uuid
    → Lacks quote key
    → starts_with (uuid ++ quote ∷ b',' ∷ rest) (key ++ quote ∷ b':' ∷ []) ≡ false
unfolding starts_with
no_match [] [] rest _ _ = refl
no_match [] (k ∷ key) rest _ (ne, lk) = ground arith
no_match (c ∷ uuid) [] rest (ne, lu) _ = ground arith
no_match (c ∷ uuid) (k ∷ key) rest (_, lu) (_, lk) = ground (arith, no_match uuid key rest lu lk)

abbrev device_needle : Bytes
device_needle = number_needle (codes "device_id")

abbrev tail : Bytes
tail = codes "device_id\":"

shift_eight :
    (o : Option ℕ)
    → shift 1 (shift 1 (shift 1 (shift 1 (shift 1 (shift 1 (shift 1 (shift 1 o))))))) ≡ shift 8 o
shift_eight none = refl
shift_eight (some n) = ap some (omega arith)

-- The bytes in front of the name's opening quote.
find_before :
    (t : Bytes) → find (codes "{\"uuid\":" ++ t) (quote ∷ tail) ≡ shift 8 (find t (quote ∷ tail))
unfolding find starts_with
find_before t = shift_eight (find t (quote ∷ tail))

find_opened :
    (uuid rest : Bytes)
    → Lacks quote uuid
    → find (quote ∷ (uuid ++ quote ∷ b',' ∷ rest)) (quote ∷ tail)
      ≡ shift 1 (find (uuid ++ quote ∷ b',' ∷ rest) (quote ∷ tail))
unfolding starts_with
find_opened uuid rest lacks =
    find-cons quote quote (uuid ++ quote ∷ b',' ∷ rest) tail
      (no_match uuid (codes "device_id") rest lacks (omega arith))

find_closed : (t : Bytes) → find (quote ∷ b',' ∷ ((quote ∷ tail) ++ t)) (quote ∷ tail) ≡ some 2
find_closed t =
    find-cons quote quote (b',' ∷ ((quote ∷ tail) ++ t)) tail (unfold starts_with in refl)
    ∙ ap (shift 1) (find-cons b',' quote ((quote ∷ tail) ++ t) tail (unfold starts_with in refl))
    ∙ ap (λ o. shift 1 (shift 1 o)) (find-append (quote ∷ tail) t)

find_device :
    (uuid rest : Bytes)
    → Lacks quote uuid
    → find
        (codes "{\"uuid\":\"" ++ (uuid ++ (codes "\"," ++ ((quote ∷ tail) ++ rest))))
        (quote ∷ tail)
      ≡ some (11 + length uuid)
find_device uuid rest lacks =
    find_before (quote ∷ (uuid ++ (codes "\"," ++ ((quote ∷ tail) ++ rest))))
    ∙ ap (shift 8) (find_opened uuid ((quote ∷ tail) ++ rest) lacks)
    ∙ ap (λ o. shift 8 (shift 1 o))
        (find-skip uuid (codes "\"," ++ ((quote ∷ tail) ++ rest)) quote tail lacks)
    ∙ ap (λ o. shift 8 (shift 1 (shift (length uuid) o))) (find_closed rest)
    ∙ ap some (omega arith)

-- What stands in front of the device number.
front : Bytes → Bytes
front uuid = codes "{\"uuid\":\"" ++ (uuid ++ (codes "\"," ++ (quote ∷ tail)))

front-append :
    (uuid rest : Bytes)
    → codes "{\"uuid\":\"" ++ (uuid ++ (codes "\"," ++ ((quote ∷ tail) ++ rest)))
      ≡ front uuid ++ rest
unfolding front
front-append uuid rest = rw (append_assoc uuid (codes "\"," ++ (quote ∷ tail)) rest)

length-front : (uuid : Bytes) → length (front uuid) ≡ 11 + length uuid + length (quote ∷ tail)
unfolding front
length-front uuid = omega (arith, length-append uuid (codes "\"," ++ (quote ∷ tail)))

drop_front :
    (uuid rest : Bytes)
    → drop
        (11 + length uuid + length (quote ∷ tail))
        (codes "{\"uuid\":\"" ++ (uuid ++ (codes "\"," ++ ((quote ∷ tail) ++ rest))))
      ≡ rest
drop_front uuid rest =
    rw (front-append uuid rest, ← length-front uuid) (drop-append_length (front uuid) rest)

extract_device :
    (uuid : Bytes) (n : ℕ)
    → Lacks quote uuid
    → extract_number_field (written uuid n) (codes "device_id") ≡ some (show n)
unfolding extract_number_field
extract_device uuid n lacks =
    let rest = show n ++ codes "}" in
    let stop =
      find_where-append (λ c. not (is_ascii_digit c)) (show n) b'}' []
        (All-digits (show n) (All-show n)) (unfold is_ascii_digit in refl) in
    rw (find_device uuid rest lacks, drop_front uuid rest, stop)
      (ap some (take-append_length (show n) (codes "}")))

module _ (ad : Addresses) (al : AddressesLaws ad) where
  open ad use {ProtocolAddress, device_u32, name, device_id}

  pub checked_device-in_range :
      (wrap : Bytes → OutgoingError) (d : ad.DeviceId)
      → 1 ≤ device_u32 d
      → device_u32 d ≤ 127
      → checked_device ad wrap (device_u32 d) ≡ ok d
  unfolding checked_device
  checked_device-in_range wrap d lo hi =
      let (d', made, same) = al.device_new_in_range (device_u32 d) lo hi in
      let small : device_u32 d % 2 ^ 8 ≡ device_u32 d = omega arith in
      ground (arith, small, made, al.device_ext d' d same)

  -- The persisted peer is read back: a name without quotes, and a device from 1 to 127.
  pub parse_peer_json-peer_payload :
      (remote_addr : ProtocolAddress)
      → Lacks quote (name remote_addr)
      → 1 ≤ device_u32 (device_id remote_addr)
      → device_u32 (device_id remote_addr) ≤ 127
      → parse_peer_json ad (peer_payload ad remote_addr) ≡ ok remote_addr
  unfolding parse_peer_json peer_payload
  parse_peer_json-peer_payload a lacks lo hi =
      let n = device_u32 (device_id a) in
      rw
        (
          extract_uuid (name a) n lacks,
          extract_device (name a) n lacks,
          parse_u32-show n (omega arith),
          checked_device-in_range pddb (device_id a) lo hi,
        )
        (ap ok (al.address_eta a))
