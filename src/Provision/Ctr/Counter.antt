-- ===== src/Provision/Ctr/Counter.antt =====
-- The counter of the loop counts, and one chunk of its output.
use Prim.Native.Nat.{bit_xor}
use sigchat.Base.{
  ℕ, zero, suc, ◌+◌, ◌-◌, ◌/◌, ◌%◌, ◌≤◌, ◌<◌, ◌≡◌, ◌⊎◌, inl, inr, refl, ap, ◌∙◌, Bool, true, false,
  [], ◌∷◌, ◌++◌, some, arith, ltb, Bool-cases, length, get_elem?, take, replicate, length-append,
  length-take, get_elem?-take, get_elem?-append_left, get_elem?-append_right, subst,
}
use sigchat.Text.{Bytes}
use sigchat.Provision.Ctr.{carried, bump, xor_chunk, big_endian}

carried-append :
    (b : Bool) (d : ℕ) (xs ys : Bytes)
    → carried b d (xs ++ ys) ≡ ((carried b d xs).0, (carried b d xs).1 ++ ys)
carried-append true d xs ys = refl
carried-append false d xs ys = refl

bump-snoc_wrap :
    (cs : Bytes) (c : ℕ)
    → (c + 1) % 256 ≡ 0
    → bump (cs ++ c ∷ []) ≡ ((bump cs).0, (bump cs).1 ++ 0 ∷ [])
unfolding bump
bump-snoc_wrap [] c h = rw h refl
bump-snoc_wrap (d ∷ cs) c h =
    rw (bump-snoc_wrap cs c h) (carried-append (bump cs).0 d (bump cs).1 (0 ∷ []))

bump-snoc_stop :
    (cs : Bytes) (c v : ℕ) → (c + 1) % 256 ≡ suc v → bump (cs ++ c ∷ []) ≡ (false, cs ++ suc v ∷ [])
unfolding bump
bump-snoc_stop [] c v h = ground arith
bump-snoc_stop (d ∷ cs) c v h = rw (bump-snoc_stop cs c v h) refl

last-ext : (k m n c d : ℕ) → m ≡ n → c ≡ d → big_endian k m ++ c ∷ [] ≡ big_endian k n ++ d ∷ []
last-ext k m n c d h e = rw (h, e) refl

number-cases : (v : ℕ) → (v ≡ 0) ⊎ ((w : ℕ) × (v ≡ suc w))
number-cases zero = inl refl
number-cases (suc w) = inr (w, refl)

-- The loop counts.
pub bump-big_endian : (k n : ℕ) → (bump (big_endian k n)).1 ≡ big_endian k (n + 1)
unfolding bump big_endian
bump-big_endian zero n = refl
bump-big_endian (suc k) n = elim (number-cases ((n % 256 + 1) % 256)) [
  | inl wrap ↦
      rw (bump-snoc_wrap (big_endian k (n / 256)) (n % 256) wrap, bump-big_endian k (n / 256))
        (last-ext k _ _ _ _ (omega (arith, wrap)) (omega (arith, wrap)))
  | inr (v, stop) ↦
      rw (bump-snoc_stop (big_endian k (n / 256)) (n % 256) v stop)
        (last-ext k _ _ _ _ (omega (arith, stop)) (omega (arith, stop)))
]

pub length-big_endian : (k n : ℕ) → length (big_endian k n) ≡ k
unfolding big_endian
length-big_endian zero n = refl
length-big_endian (suc k) n =
    omega
      (arith, length-append (big_endian k (n / 256)) (n % 256 ∷ []), length-big_endian k (n / 256))

zeros-append : (k : ℕ) → Path Bytes (replicate k 0 ++ 0 ∷ []) (replicate (suc k) 0)
zeros-append zero = refl
zeros-append (suc k) = ap (λ xs. 0 ∷ xs) (zeros-append k)

pub big_endian-zero : (k : ℕ) → big_endian k 0 ≡ replicate k 0
unfolding big_endian
big_endian-zero zero = refl
big_endian-zero (suc k) = rw (big_endian-zero k) (zeros-append k)

pub length-xor_chunk : (p b : Bytes) → length p ≤ length b → length (xor_chunk p b) ≡ length p
unfolding xor_chunk
length-xor_chunk [] b h = refl
length-xor_chunk (x ∷ p) [] h = absurd (omega arith)
length-xor_chunk (x ∷ p) (y ∷ b) h = omega (arith, length-xor_chunk p b (omega arith))

get_elem?-xor_chunk :
    (p b : Bytes) (i x y : ℕ)
    → get_elem? p i ≡ some x
    → get_elem? b i ≡ some y
    → get_elem? (xor_chunk p b) i ≡ some (bit_xor x y)
unfolding xor_chunk
get_elem?-xor_chunk [] b i x y h e = cc
get_elem?-xor_chunk (c ∷ p) [] i x y h e = cc
get_elem?-xor_chunk (c ∷ p) (d ∷ b) zero x y h e = cc
get_elem?-xor_chunk (c ∷ p) (d ∷ b) (suc i) x y h e = get_elem?-xor_chunk p b i x y h e

pub split_16 : (i : ℕ) → (i < 16) ⊎ ((j : ℕ) × (i ≡ 16 + j))
split_16 i = elim (Bool-cases (ltb i 16)) [
  | inl e ↦ inl (ground arith)
  | inr e ↦ inr (i - 16, ground arith)
]

-- One chunk in front of the rest: its bytes, and the bytes behind it.
pub chunk_first :
    (p block rest : Bytes) (i x y : ℕ)
    → i < 16
    → get_elem? p i ≡ some x
    → get_elem? block i ≡ some y
    → get_elem? (xor_chunk (take 16 p) block ++ rest) i ≡ some (bit_xor x y)
chunk_first p block rest i x y lt hx hy =
    let e = get_elem?-xor_chunk (take 16 p) block i x y (get_elem?-take 16 p i lt ∙ hx) hy in
    get_elem?-append_left (xor_chunk (take 16 p) block) rest i _ e

pub chunk_later :
    (p block rest : Bytes) (j : ℕ)
    → 16 ≤ length p
    → length block ≡ 16
    → get_elem? (xor_chunk (take 16 p) block ++ rest) (16 + j) ≡ get_elem? rest j
chunk_later p block rest j le hb =
    let n = length-take 16 p le in
    let m = length-xor_chunk (take 16 p) block (omega (arith, n, hb)) in
    subst (λ k. get_elem? (xor_chunk (take 16 p) block ++ rest) (k + j) ≡ get_elem? rest j) (m ∙ n)
      (get_elem?-append_right (xor_chunk (take 16 p) block) rest j)
