-- ===== src/Account/Environment.antt =====
-- src/account/service_environment.rs, and the texts of the other values that an account keeps.
use sigchat.Base.{
  ℕ, ◌+◌, ◌*◌, ◌-◌, ◌^◌, ◌≡◌, refl, Bool, true, false, [], ◌∷◌, Option, none, some, ltb, ◌==◌,
  if◌then◌else◌,
}
use sigchat.Text.{Bytes, codes, bytes_eq}
use sigchat.Text.Decimal.{is_ascii_digit}

pub data ServiceEnvironment : Type 0 where
  live staging : ServiceEnvironment

-- `to_string()`
unfoldable pub environment_text : ServiceEnvironment → Bytes
environment_text live = codes "Live"
environment_text staging = codes "Staging"

-- `ServiceEnvironment::from_str`
unfoldable pub from_str : Bytes → Option ServiceEnvironment
from_str input =
    if bytes_eq input (codes "Live")
    then some live
    else if bytes_eq input (codes "Staging")
    then some staging
    else none

-- Each environment is read back from its text.
pub from_str-environment_text : (e : ServiceEnvironment) → from_str (environment_text e) ≡ some e
unfolding from_str environment_text bytes_eq
from_str-environment_text live = refl
from_str-environment_text staging = refl

-- `b.to_string()` and `str::parse::<bool>()`
unfoldable pub bool_text : Bool → Bytes
bool_text true = codes "true"
bool_text false = codes "false"

unfoldable pub parse_bool : Bytes → Option Bool
parse_bool s =
    if bytes_eq s (codes "true")
    then some true
    else if bytes_eq s (codes "false")
    then some false
    else none

-- An `i64` as its sign and its distance from zero.
pub data I64 : Type 0 where
  plus minus : ℕ → I64

digits : ℕ → Bytes → Option ℕ
unfolding is_ascii_digit
digits n [] = some n
digits n (c ∷ s) =
    let rest = digits (n * 10 + (c - b'0')) s in if is_ascii_digit c then rest else none

some_digits : Bytes → Option ℕ
some_digits [] = none
some_digits (c ∷ s) = digits 0 (c ∷ s)

abbrev below : ℕ → (ℕ → I64) → Option ℕ → Option I64
below bound sign none = none
below bound sign (some n) = if ltb n bound then some (sign n) else none

-- `str::parse::<i64>()`: a sign or none, and at least one digit; out of range is an error.
unfoldable pub parse_i64 : Bytes → Option I64
unfolding digits some_digits
parse_i64 [] = none
parse_i64 (c ∷ s) =
    if c == b'-'
    then below (2 ^ 63 + 1) minus (some_digits s)
    else if c == b'+'
    then below (2 ^ 63) plus (some_digits s)
    else below (2 ^ 63) plus (some_digits (c ∷ s))

pub parse_i64_zero : parse_i64 (codes "0") ≡ some (plus 0)
unfolding parse_i64 some_digits digits is_ascii_digit
parse_i64_zero = refl

pub parse_i64_minus_one : parse_i64 (codes "-1") ≡ some (minus 1)
unfolding parse_i64 some_digits digits is_ascii_digit
parse_i64_minus_one = refl
