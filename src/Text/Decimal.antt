-- ===== src/Text/Decimal.antt =====
-- `format!("{n}")` and `str::parse::<u32>()`.
use sigchat.Base.{
  ℕ, zero, suc, ◌+◌, ◌-◌, ◌*◌, ◌/◌, ◌%◌, ◌^◌, ◌≤◌, ◌<◌, ◌≡◌, ◌≢◌, refl, Bool, ◌&&◌, [], ◌∷◌, Option,
  none, some, arith, ltb, leb, ◌==◌, if◌then◌else◌, length, All,
}
use sigchat.Text.{Bytes, codes}

-- The digits of `n` in front of `out`; more fuel than `n` is enough.
show_loop : ℕ → ℕ → Bytes → Bytes
show_loop zero n out = out
show_loop (suc fuel) n out =
    let digits = (b'0' + n % 10) ∷ out in
    let rest = show_loop fuel (n / 10) digits in if n / 10 == 0 then digits else rest

unfoldable pub show : ℕ → Bytes
unfolding show_loop
show n = show_loop (suc n) n []

unfoldable pub is_ascii_digit : ℕ → Bool
is_ascii_digit c = leb b'0' c && leb c b'9'

-- An overflow of u32 is an error, as is a byte that is no digit.
parse_digits : ℕ → Bytes → Option ℕ
unfolding is_ascii_digit
parse_digits n [] = some n
parse_digits n (c ∷ s) =
    if is_ascii_digit c && ltb (n * 10 + (c - b'0')) (2 ^ 32)
    then parse_digits (n * 10 + (c - b'0')) s
    else none

after_plus : Bytes → Option ℕ
after_plus [] = none
after_plus (c ∷ s) = parse_digits 0 (c ∷ s)

-- One leading `+` is accepted.
unfoldable pub parse_u32 : Bytes → Option ℕ
unfolding parse_digits after_plus
parse_u32 [] = none
parse_u32 (c ∷ s) = if c == b'+' then after_plus s else parse_digits 0 (c ∷ s)

abbrev pub IsDigit : ℕ → Type 0
IsDigit c = (b'0' ≤ c) × (c ≤ b'9')

parse_digits-show_loop :
    (fuel n : ℕ) (out : Bytes)
    → n < fuel
    → n < 2 ^ 32
    → parse_digits 0 (show_loop fuel n out) ≡ parse_digits n out
unfolding parse_digits show_loop
parse_digits-show_loop zero n out h lt = elim h [ ]
parse_digits-show_loop (suc fuel) n out h lt =
    ground (arith, parse_digits-show_loop fuel (n / 10) ((b'0' + n % 10) ∷ out))

All-show_loop : (fuel n : ℕ) (out : Bytes) → All IsDigit out → All IsDigit (show_loop fuel n out)
unfolding show_loop
All-show_loop zero n out h = h
All-show_loop (suc fuel) n out h =
    ground (arith, All-show_loop fuel (n / 10) ((b'0' + n % 10) ∷ out))

show_loop-ne-nil : (fuel n c : ℕ) (out : Bytes) → show_loop fuel n (c ∷ out) ≢ []
unfolding show_loop
show_loop-ne-nil zero n c out = ground arith
show_loop-ne-nil (suc fuel) n c out =
    ground (arith, show_loop-ne-nil fuel (n / 10) (b'0' + n % 10) (c ∷ out))

pub All-show : (n : ℕ) → All IsDigit (show n)
unfolding show
All-show n = All-show_loop (suc n) n [] tt

pub show-ne-nil : (n : ℕ) → show n ≢ []
unfolding show
show-ne-nil n = ground (arith, show_loop-ne-nil n (n / 10) (b'0' + n % 10) [])

parse_u32-digits : (s : Bytes) → All IsDigit s → s ≢ [] → parse_u32 s ≡ parse_digits 0 s
unfolding parse_u32
parse_u32-digits [] h ne = absurd (ne refl)
parse_u32-digits (c ∷ s) h ne = ground arith

-- Every u32 is read back from its print.
pub parse_u32-show : (n : ℕ) → n < 2 ^ 32 → parse_u32 (show n) ≡ some n
unfolding show parse_digits
parse_u32-show n lt =
    rw (parse_u32-digits (show n) (All-show n) (show-ne-nil n))
      (parse_digits-show_loop (suc n) n [] (omega arith) lt)

parse_digits_lt : (n : ℕ) (s : Bytes) (m : ℕ) → n < 2 ^ 32 → parse_digits n s ≡ some m → m < 2 ^ 32
unfolding parse_digits
parse_digits_lt n [] m lt e = ground arith
parse_digits_lt n (c ∷ s) m lt e = ground (arith, parse_digits_lt (n * 10 + (c - b'0')) s m)

-- Only numbers of 32 bits are read.
pub parse_u32_lt : (s : Bytes) (m : ℕ) → parse_u32 s ≡ some m → m < 2 ^ 32
unfolding parse_u32 after_plus
parse_u32_lt [] m e = cc
parse_u32_lt (c ∷ []) m e = ground (arith, parse_digits_lt 0 (c ∷ []) m)
parse_u32_lt (c ∷ d ∷ s) m e =
    ground (arith, parse_digits_lt 0 (c ∷ d ∷ s) m, parse_digits_lt 0 (d ∷ s) m)

-- A number below 10 ^ k has at most k digits, for k > 0.
pow10 : ℕ → ℕ
pow10 zero = 1
pow10 (suc k) = 10 * pow10 k

length-show_loop :
    (k fuel n : ℕ) (out : Bytes)
    → n < pow10 (suc k)
    → length (show_loop fuel n out) ≤ suc k + length out
unfolding show_loop pow10
length-show_loop k zero n out h = omega arith
length-show_loop zero (suc fuel) n out h = ground arith
length-show_loop (suc k) (suc fuel) n out h =
    ground (arith, length-show_loop k fuel (n / 10) ((b'0' + n % 10) ∷ out))

pub length-show : (n : ℕ) → n < 2 ^ 32 → length (show n) ≤ 10
unfolding show pow10
length-show n lt = omega (arith, length-show_loop 9 (suc n) n [] (omega arith))

pub show-injective : (a b : ℕ) → a < 2 ^ 32 → b < 2 ^ 32 → show a ≡ show b → a ≡ b
show-injective a b la lb e = cc (parse_u32-show a la, parse_u32-show b lb)

pub parse_u32_zero : parse_u32 (codes "0") ≡ some 0
unfolding parse_u32 parse_digits is_ascii_digit
parse_u32_zero = refl
