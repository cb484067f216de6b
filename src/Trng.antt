-- ===== src/Trng.antt =====
-- src/getrandom_xous.rs: random bytes from the TRNG server. The target is riscv32: a `usize` has 32 bits
-- and the native byte order is the little-endian one.
use sigchat.Base.{
  ℕ, zero, suc, ◌+◌, ◌-◌, ◌*◌, ◌/◌, ◌%◌, ◌^◌, ◌≤◌, ◌<◌, ◌≡◌, refl, ap, ◌∙◌, continue, [], ◌∷◌, ◌++◌,
  Option, none, some, Result, ok, err, Exec, pure, ◌>>=◌, ◌>>◌, ltb, ◌==◌, if◌then◌else◌, length,
  take, arith, length-append, length-take, if_cases,
}
use sigchat.Text.{Bytes}

-- The server: its connection, and the two words that `GetTrng` of one or two words returns, or no answer.
-- An error is a panic.
pub record TrngServer : Type 1 where
  pub State : Type 0
  pub connect : Exec (Unit {0}) State (Unit {0})
  pub get_trng : ℕ → State → Option (ℕ × ℕ) × State

-- `to_ne_bytes` of a number of `k` bytes.
unfoldable pub to_ne_bytes : ℕ → ℕ → Bytes
to_ne_bytes zero n = []
to_ne_bytes (suc k) n = n % 256 ∷ to_ne_bytes k (n / 256)

module _ (t : TrngServer) where
  open t use {State}

  abbrev pub answered : Option (ℕ × ℕ) → Result (Unit {0}) (ℕ × ℕ)
  answered none = err tt
  answered (some words) = ok words

  abbrev asked : ℕ → Exec (Unit {0}) State (ℕ × ℕ)
  asked n s = let (r, s') = t.get_trng n s in (answered r, s')

  unfoldable pub next_u32 : Exec (Unit {0}) State ℕ
  next_u32 = do words ← asked 1; pure (words.0 % 2 ^ 32)

  unfoldable pub next_u64 : Exec (Unit {0}) State ℕ
  next_u64 = do words ← asked 2; pure (words.0 % 2 ^ 32 + words.1 % 2 ^ 32 * 2 ^ 32)

  -- The last bytes, fewer than 8.
  abbrev pub fill_rest : ℕ → Exec (Unit {0}) State Bytes
  fill_rest n =
      if ltb 4 n
      then (do word ← next_u64; pure (take n (to_ne_bytes 8 word)))
      else if ltb 0 n
      then (do word ← next_u32; pure (take n (to_ne_bytes 4 word)))
      else pure []

  -- `fill_from_trng` of a buffer of `left` bytes, which is enough fuel.
  unfoldable pub fill_from_trng : ℕ → ℕ → Exec (Unit {0}) State Bytes
  fill_from_trng zero left = fill_rest left
  fill_from_trng (suc fuel) left = if ltb left 8 then fill_rest left else (do
    word ← next_u64
    rest ← fill_from_trng fuel (left - 8)
    pure (to_ne_bytes 8 word ++ rest))

  -- `__getrandom_v03_custom`
  unfoldable pub getrandom : ℕ → Exec (Unit {0}) State Bytes
  getrandom len = if len == 0 then pure [] else t.connect >> fill_from_trng len len

length-to_ne_bytes : (k n : ℕ) → length (to_ne_bytes k n) ≡ k
unfolding to_ne_bytes
length-to_ne_bytes zero n = refl
length-to_ne_bytes (suc k) n = omega (arith, length-to_ne_bytes k (n / 256))

module _ (t : TrngServer) where
  open t use {State}

  -- A step that returns a buffer of that length.
  abbrev Fills : ℕ → Exec (Unit {0}) State Bytes → Type 0
  Fills n m = (s : State) → (b : Bytes) × ((m s).0 ≡ ok b) × (length b ≡ n)

  Fills-pure : (n : ℕ) (b : Bytes) → length b ≡ n → Fills n (pure b)
  Fills-pure n b h s = (b, refl, h)

  -- A step that returns a value is followed by what fills.
  Fills-bind :
      {A : Type 0} (P : A → Type 0) (n : ℕ) (m : Exec (Unit {0}) State A)
      (f : A → Exec (Unit {0}) State Bytes)
      → ((s : State) → (a : A) × ((m s).0 ≡ ok a) × P a)
      → ((a : A) → P a → Fills n (f a))
      → Fills n (m >>= f)
  Fills-bind P n m f hm hf s =
      let (a, e, pa) = hm s in
      let (b, e', h) = hf a pa (m s).1 in (b, ap (λ r. (continue r f (m s).1).0) e ∙ e', h)

  module _ (connects : (s : State) → (t.connect s).0 ≡ ok tt)
      (answers : (n : ℕ) (s : State) → (words : ℕ × ℕ) × ((t.get_trng n s).0 ≡ some words)) where
    abbrev Any : {A : Type 0} → A → Type 0
    Any a = Unit

    next_u32_ok : (s : State) → (n : ℕ) × ((next_u32 t s).0 ≡ ok n) × Any n
    unfolding next_u32
    next_u32_ok s =
        let (words, e) = answers 1 s in
        (
          words.0 % 2 ^ 32,
          ap (λ r. (continue (answered t r) (λ w. pure (w.0 % 2 ^ 32)) (t.get_trng 1 s).1).0) e,
          tt,
        )

    next_u64_ok : (s : State) → (n : ℕ) × ((next_u64 t s).0 ≡ ok n) × Any n
    unfolding next_u64
    next_u64_ok s =
        let (words, e) = answers 2 s in
        (
          words.0 % 2 ^ 32 + words.1 % 2 ^ 32 * 2 ^ 32,
          ap
              (λ r.
                (continue (answered t r) (λ w. pure (w.0 % 2 ^ 32 + w.1 % 2 ^ 32 * 2 ^ 32))
                  (t.get_trng 2 s).1).0)
              e,
          tt,
        )

    cut : (k n word : ℕ) → n ≤ k → Fills n (pure (take n (to_ne_bytes k word)))
    cut k n word le =
        Fills-pure n _
          (length-take n (to_ne_bytes k word) (omega (arith, le, length-to_ne_bytes k word)))

    Fills-fill_rest : (n : ℕ) → n < 8 → Fills n (fill_rest t n)
    Fills-fill_rest n lt =
        if_cases (Fills n) (ltb 4 n)
          (λ e.
            Fills-bind Any n (next_u64 t) _ next_u64_ok λ word _. cut 8 n word (omega (arith, lt)))
          (λ e.
            if_cases (Fills n) (ltb 0 n)
              (λ e'.
                Fills-bind Any n (next_u32 t) _ next_u32_ok
                  λ word _. cut 4 n word (ground (arith, e)))
              (λ e'. Fills-pure n [] (ground (arith, e'))))

    Fills-fill_from_trng : (fuel n : ℕ) → n ≤ fuel → Fills n (fill_from_trng t fuel n)
    unfolding fill_from_trng
    Fills-fill_from_trng zero n le = Fills-fill_rest n (omega arith)
    Fills-fill_from_trng (suc fuel) n le =
        if_cases (Fills n) (ltb n 8) (λ e. Fills-fill_rest n (ground (arith, e)))
          (λ e. Fills-bind Any n (next_u64 t) _ next_u64_ok λ word _.
            Fills-bind (λ (b : Bytes). length b ≡ n - 8) n (fill_from_trng t fuel (n - 8)) _
              (Fills-fill_from_trng fuel (n - 8) (omega (arith, le)))
              λ rest h. Fills-pure n _ (
                ground (
                  arith,
                  e,
                  h,
                  length-append (to_ne_bytes 8 word) rest,
                  length-to_ne_bytes 8 word,
                )))

    -- Where the server is found and answers, a request for any number of bytes ends, without a panic, with
    -- exactly that many bytes.
    pub getrandom_lem :
        (len : ℕ) (s : State) → (b : Bytes) × ((getrandom t len s).0 ≡ ok b) × (length b ≡ len)
    unfolding getrandom
    getrandom_lem len =
        if_cases (Fills len) (len == 0) (λ e. Fills-pure len [] (ground (arith, e)))
          (λ e.
            Fills-bind Any len t.connect _ (λ s. (tt, connects s, tt))
              λ u _. Fills-fill_from_trng len len (omega arith))
