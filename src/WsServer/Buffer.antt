-- ===== src/WsServer/Buffer.antt =====
-- `WsResultBuf`, `fill_buf` and the reading side of `wait_and_take_binary` in src/manager/ws_server.rs.
use sigchat.Base.{
  ℕ, ◌*◌, ◌%◌, ◌^◌, ◌≤◌, ◌≡◌, refl, ap, ◌++◌, [], ◌∷◌, Option, none, some, ltb, leb, ◌==◌,
  if◌then◌else◌, length, take, drop, arith,
}
use sigchat.Text.{Bytes}

-- 64 KiB; unfolded where its value matters.
unfoldable pub ws_provision_max : ℕ
ws_provision_max = 64 * 1024

pub record WsResultBuf : Type 0 where
  pub status : ℕ
  pub len : ℕ
  pub bytes : Bytes

-- What the array type says: it is as long as it is declared.
abbrev pub IsArray : WsResultBuf → Type 0
IsArray b = length b.bytes ≡ ws_provision_max

pub data PendingResult : Type 0 where
  binary : Bytes → PendingResult
  closed timed_out cancelled error : PendingResult

-- `WsResult`; of an error only its kind is kept.
pub data WsResult : Type 0 where
  binary : Bytes → WsResult
  closed timed_out cancelled invalid_data other_error : WsResult

-- The payload after the match of `fill_buf`; `none` is the panic of a slice beyond the array.
unfoldable pub fill : WsResultBuf → PendingResult → Option WsResultBuf
fill payload (PendingResult.binary b) =
    if leb (length b) (length payload.bytes)
    then some
        (record { status = 0; len = length b % 2 ^ 32; bytes = b ++ drop (length b) payload.bytes })
    else none
fill payload PendingResult.closed = some (record payload { status = 1 })
fill payload PendingResult.timed_out = some (record payload { status = 2 })
fill payload PendingResult.cancelled = some (record payload { status = 3 })
fill payload PendingResult.error = some (record payload { status = 4 })

-- What `wait_and_take_binary` makes of the buffer that came back.
unfoldable pub take_result : WsResultBuf → WsResult
take_result result =
    if result.status == 0
    then (if ltb ws_provision_max result.len
        then WsResult.invalid_data
        else WsResult.binary (take result.len result.bytes))
    else if result.status == 1
    then WsResult.closed
    else if result.status == 2
    then WsResult.timed_out
    else if result.status == 3
    then WsResult.cancelled
    else WsResult.other_error

-- The result that a pending one is read back as.
unfoldable pub as_result : PendingResult → WsResult
as_result (PendingResult.binary b) = WsResult.binary b
as_result PendingResult.closed = WsResult.closed
as_result PendingResult.timed_out = WsResult.timed_out
as_result PendingResult.cancelled = WsResult.cancelled
as_result PendingResult.error = WsResult.other_error

-- A result whose bytes fit the array.
abbrev pub Fits : PendingResult → Type 0
Fits (PendingResult.binary b) = length b ≤ ws_provision_max
Fits _ = Unit

take-length_append : (xs ys : Bytes) → take (length xs) (xs ++ ys) ≡ xs
take-length_append [] ys = refl
take-length_append (x ∷ xs) ys = ap (λ r. x ∷ r) (take-length_append xs ys)

pub fill_fits :
    (payload : WsResultBuf) (b : Bytes)
    → IsArray payload
    → length b ≤ ws_provision_max
    → fill payload (PendingResult.binary b)
      ≡ some (record {
        status = 0;
        len = length b % 2 ^ 32;
        bytes = b ++ drop (length b) payload.bytes;
      })
unfolding fill
fill_fits payload b array fits = ground arith

take_result_binary :
    (b rest : Bytes)
    → length b ≤ ws_provision_max
    → take_result (record { status = 0; len = length b % 2 ^ 32; bytes = b ++ rest })
      ≡ WsResult.binary b
unfolding take_result ws_provision_max
take_result_binary b rest fits =
    let small : length b % 2 ^ 32 ≡ length b = omega arith in
    let whole : take (length b) (b ++ rest) ≡ b = take-length_append b rest in grind arith

-- The buffer hands over what the worker put in: whatever a full-sized page held before, a result whose
-- bytes fit is written without a panic and read back as itself.
pub take_result-fill :
    (payload : WsResultBuf) (result : PendingResult)
    → IsArray payload
    → Fits result
    → (filled : WsResultBuf) × (fill payload result ≡ some filled)
      × (take_result filled ≡ as_result result)
unfolding fill as_result take_result
take_result-fill payload (PendingResult.binary b) array fits = (
  record { status = 0; len = length b % 2 ^ 32; bytes = b ++ drop (length b) payload.bytes },
  fill_fits payload b array fits,
  take_result_binary b (drop (length b) payload.bytes) fits,
)
take_result-fill payload PendingResult.closed array fits =
    (record payload { status = 1 }, refl, refl)
take_result-fill payload PendingResult.timed_out array fits =
    (record payload { status = 2 }, refl, refl)
take_result-fill payload PendingResult.cancelled array fits =
    (record payload { status = 3 }, refl, refl)
take_result-fill payload PendingResult.error array fits =
    (record payload { status = 4 }, refl, refl)
