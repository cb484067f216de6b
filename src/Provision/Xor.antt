-- ===== src/Provision/Xor.antt =====
-- `p ^ b` on native numbers: a second exclusive or with the same number undoes the first.
use Prim.Native.Nat.{bit_xor, digits, differ, bit_xor-bitwise}
use sigchat.Base.{ℕ, zero, suc, ◌+◌, ◌*◌, ◌/◌, ◌%◌, ◌≤◌, ◌<◌, ◌≡◌, refl, arith}

abbrev xor_digits : ℕ → ℕ → ℕ → ℕ
xor_digits n a b = digits (λ b. b) differ n a b

xor_digits_fuel : (n m a b : ℕ) → a ≤ n → a ≤ m → xor_digits n a b ≡ xor_digits m a b
xor_digits_fuel zero zero a b p q = refl
xor_digits_fuel zero (suc m) zero b p q = refl
xor_digits_fuel zero (suc m) (suc a) b p q = absurd (omega arith)
xor_digits_fuel (suc n) zero zero b p q = refl
xor_digits_fuel (suc n) zero (suc a) b p q = absurd (omega arith)
xor_digits_fuel (suc n) (suc m) zero b p q = refl
xor_digits_fuel (suc n) (suc m) (suc a) b p q =
    omega (arith, xor_digits_fuel n m (suc a / 2) (b / 2) (omega arith) (omega arith))

zero-bit_xor : (b : ℕ) → bit_xor 0 b ≡ b
zero-bit_xor b = bit_xor-bitwise 0 b

zero-differ : (b : ℕ) → differ 0 b ≡ b
zero-differ b = refl

differ_bound : (x y : ℕ) → x < 2 → y < 2 → differ x y < 2
differ_bound zero y p q = q
differ_bound (suc zero) zero p q = omega arith
differ_bound (suc zero) (suc y) p q = omega (arith, zero-differ y)
differ_bound (suc (suc x)) y p q = absurd (omega arith)

differ_twice : (x y : ℕ) → x < 2 → y < 2 → differ (differ x y) y ≡ x
differ_twice zero zero p q = refl
differ_twice zero (suc zero) p q = refl
differ_twice (suc zero) zero p q = refl
differ_twice (suc zero) (suc zero) p q = refl
differ_twice x (suc (suc y)) p q = absurd (omega arith)
differ_twice (suc (suc x)) y p q = absurd (omega arith)

bit_xor_step : (a b : ℕ) → bit_xor a b ≡ bit_xor (a / 2) (b / 2) * 2 + differ (a % 2) (b % 2)
bit_xor_step zero b = omega (arith, zero-bit_xor b, zero-bit_xor (b / 2), zero-differ (b % 2))
bit_xor_step (suc a) b = omega (
  arith,
  bit_xor-bitwise (suc a) b,
  bit_xor-bitwise (suc a / 2) (b / 2),
  xor_digits_fuel a (suc a / 2) (suc a / 2) (b / 2) (omega arith) (omega arith),
)

half-bit_xor : (a b : ℕ) → bit_xor a b / 2 ≡ bit_xor (a / 2) (b / 2)
half-bit_xor a b =
    omega (arith, bit_xor_step a b, differ_bound (a % 2) (b % 2) (omega arith) (omega arith))

rest-bit_xor : (a b : ℕ) → bit_xor a b % 2 ≡ differ (a % 2) (b % 2)
rest-bit_xor a b =
    omega (arith, bit_xor_step a b, differ_bound (a % 2) (b % 2) (omega arith) (omega arith))

bit_xor_twice_fuel : (n a b : ℕ) → a ≤ n → b ≤ n → bit_xor (bit_xor a b) b ≡ a
bit_xor_twice_fuel zero zero zero p q = refl
bit_xor_twice_fuel zero (suc a) b p q = absurd (omega arith)
bit_xor_twice_fuel zero a (suc b) p q = absurd (omega arith)
bit_xor_twice_fuel (suc n) a b p q =
    let step = bit_xor_step (bit_xor a b) b in
    let ih = bit_xor_twice_fuel n (a / 2) (b / 2) (omega arith) (omega arith) in
    let twice = differ_twice (a % 2) (b % 2) (omega arith) (omega arith) in
    let high : bit_xor (bit_xor a b / 2) (b / 2) ≡ a / 2 = rw (half-bit_xor a b) ih in
    let low : differ (bit_xor a b % 2) (b % 2) ≡ a % 2 = rw (rest-bit_xor a b) twice in
    omega (arith, step, high, low)

pub bit_xor_twice : (a b : ℕ) → bit_xor (bit_xor a b) b ≡ a
bit_xor_twice a b = bit_xor_twice_fuel (a + b) a b (omega arith) (omega arith)
