-- ===== src/Provision/Ctr/Stream.antt =====
-- The loop against the keystream.
use Prim.Native.Nat.{bit_xor}
use sigchat.Base.{
  ℕ, zero, suc, ◌+◌, ◌/◌, ◌%◌, ◌≤◌, ◌<◌, ◌≡◌, inl, inr, refl, ap, ◌∙◌, [], ◌∷◌, ◌++◌, some, ok, err,
  unwrap_or, arith, ◌==◌, if◌then◌else◌, length, get_elem?, take, drop, replicate, length-append,
  get_elem?-drop, get_elem?-in_range, in_range-get_elem?, subst, sym, length-drop, length-take_le,
  append-take-drop, ext_get_elem?,
}
use sigchat.Text.{Bytes}
use sigchat.Io.{ErrorKind}
use sigchat.Provision.Xor.{bit_xor_twice}
use sigchat.Provision.Ctr.{
  bump, xor_chunk, ctr_loop, aes256_ctr_encrypt, big_endian, keystream, masked,
}
use sigchat.Provision.Ctr.Counter.{
  bump-big_endian, length-big_endian, big_endian-zero, length-xor_chunk, split_16, chunk_first,
  chunk_later,
}

module _ (encrypt_block : Bytes → Bytes)
    (wide : (b : Bytes) → length b ≡ 16 → length (encrypt_block b) ≡ 16) where
  abbrev stream_byte : ℕ → ℕ → ℕ
  stream_byte n i = unwrap_or (get_elem? (encrypt_block (big_endian 16 (n + i / 16))) (i % 16)) 0

  block_byte :
      (n i : ℕ) → i < 16 → get_elem? (encrypt_block (big_endian 16 n)) i ≡ some (stream_byte n i)
  block_byte n i lt =
      let (y, e) =
        get_elem?-in_range (encrypt_block (big_endian 16 n)) i
          (omega (arith, wide (big_endian 16 n) (length-big_endian 16 n))) in
      let here : n + i / 16 ≡ n = omega arith in
      let inside : i % 16 ≡ i = omega arith in rw (here, inside, e) refl

  stream_byte-later : (n j : ℕ) → stream_byte (n + 1) j ≡ stream_byte n (16 + j)
  stream_byte-later n j =
      let block : n + 1 + j / 16 ≡ n + (16 + j) / 16 = omega arith in
      let inside : j % 16 ≡ (16 + j) % 16 = omega arith in rw (block, inside) refl

  ctr_loop-later :
      (fuel n : ℕ) (p : Bytes) (j x : ℕ)
      → get_elem? p (16 + j) ≡ some x
      → get_elem? (ctr_loop encrypt_block fuel (big_endian 16 (n + 1)) (drop 16 p)) j
        ≡ some (bit_xor x (stream_byte (n + 1) j))
      → get_elem?
          (xor_chunk (take 16 p) (encrypt_block (big_endian 16 n))
            ++ ctr_loop encrypt_block fuel (bump (big_endian 16 n)).1 (drop 16 p))
          (16 + j)
        ≡ some (bit_xor x (stream_byte n (16 + j)))
  ctr_loop-later fuel n p j x h ih =
      let inside = in_range-get_elem? p (16 + j) x h in
      chunk_later p (encrypt_block (big_endian 16 n)) _ j (omega (arith, inside))
        (wide (big_endian 16 n) (length-big_endian 16 n))
      ∙ ap (λ c. get_elem? (ctr_loop encrypt_block fuel c (drop 16 p)) j) (bump-big_endian 16 n)
      ∙ ih
      ∙ ap (λ b. some (bit_xor x b)) (stream_byte-later n j)

  get_elem?-ctr_loop :
      (fuel n : ℕ) (p : Bytes) (i x : ℕ)
      → length p ≤ fuel
      → get_elem? p i ≡ some x
      → get_elem? (ctr_loop encrypt_block fuel (big_endian 16 n) p) i
        ≡ some (bit_xor x (stream_byte n i))
  unfolding ctr_loop
  get_elem?-ctr_loop fuel n [] i x le h = cc
  get_elem?-ctr_loop zero n (c ∷ p) i x le h = absurd (omega arith)
  get_elem?-ctr_loop (suc fuel) n (c ∷ p) i x le h = elim (split_16 i) [
    | inl lt ↦ chunk_first (c ∷ p) _ _ i x _ lt h (block_byte n i lt)
    | inr (j, e) ↦
        let h' = subst (λ k. get_elem? (c ∷ p) k ≡ some x) e h in
        let ih =
          get_elem?-ctr_loop fuel (n + 1) (drop 15 p) j x (omega (arith, le, length-drop 15 p))
            (get_elem?-drop 16 (c ∷ p) j ∙ h') in
        subst
          (λ k.
            get_elem? (ctr_loop encrypt_block (suc fuel) (big_endian 16 n) (c ∷ p)) k
            ≡ some (bit_xor x (stream_byte n k)))
          (sym e) (ctr_loop-later fuel n (c ∷ p) j x h' ih)
  ]

  length-ctr_loop :
      (fuel n : ℕ) (p : Bytes)
      → length p ≤ fuel
      → length (ctr_loop encrypt_block fuel (big_endian 16 n) p) ≡ length p
  unfolding ctr_loop
  length-ctr_loop zero n [] le = refl
  length-ctr_loop (suc fuel) n [] le = refl
  length-ctr_loop zero n (c ∷ p) le = absurd (omega arith)
  length-ctr_loop (suc fuel) n (c ∷ p) le =
      let block = encrypt_block (big_endian 16 n) in
      let chunk = take 16 (c ∷ p) in
      let rest = ctr_loop encrypt_block fuel (bump (big_endian 16 n)).1 (drop 15 p) in
      let ih = length-ctr_loop fuel (n + 1) (drop 15 p) (omega (arith, le, length-drop 15 p)) in
      let counted : length rest ≡ length (drop 15 p) =
        ap (λ b. length (ctr_loop encrypt_block fuel b (drop 15 p))) (bump-big_endian 16 n) ∙ ih in
      let w = wide (big_endian 16 n) (length-big_endian 16 n) in
      let parts = length-append chunk (drop 16 (c ∷ p)) in
      let whole = ap (λ xs. length xs) (append-take-drop 16 (c ∷ p)) in
      let short = length-take_le 16 (c ∷ p) in
      let chunked = length-xor_chunk chunk block (omega (arith, w, short)) in
      omega (arith, length-append (xor_chunk chunk block) rest, chunked, counted, parts, whole)

get_elem?-masked :
    (stream : ℕ → ℕ) (k : ℕ) (p : Bytes) (i x : ℕ)
    → get_elem? p i ≡ some x
    → get_elem? (masked stream k p) i ≡ some (bit_xor x (stream (k + i)))
unfolding masked
get_elem?-masked stream k [] i x h = cc
get_elem?-masked stream k (c ∷ p) zero x h = let here : k + 0 ≡ k = omega arith in rw here cc
get_elem?-masked stream k (c ∷ p) (suc i) x h =
    let there : k + suc i ≡ suc k + i = omega arith in
    rw there (get_elem?-masked stream (suc k) p i x h)

length-masked : (stream : ℕ → ℕ) (k : ℕ) (p : Bytes) → length (masked stream k p) ≡ length p
unfolding masked
length-masked stream k [] = refl
length-masked stream k (c ∷ p) = omega (arith, length-masked stream (suc k) p)

masked_twice : (stream : ℕ → ℕ) (k : ℕ) (p : Bytes) → masked stream k (masked stream k p) ≡ p
unfolding masked
masked_twice stream k [] = refl
masked_twice stream k (c ∷ p) = rw (bit_xor_twice c (stream k), masked_twice stream (suc k) p) refl

ctr_loop-masked :
    (encrypt_block : Bytes → Bytes)
    → ((b : Bytes) → length b ≡ 16 → length (encrypt_block b) ≡ 16)
    → (p : Bytes)
    → masked (keystream encrypt_block) 0 p ≡ ctr_loop encrypt_block (length p) (replicate 16 0) p
unfolding keystream
ctr_loop-masked encrypt_block wide p =
    let out = ctr_loop encrypt_block (length p) (big_endian 16 0) p in
    let stream = keystream encrypt_block in
    let n = length-masked stream 0 p in
    let m = length-ctr_loop encrypt_block wide (length p) 0 p (omega arith) in
    subst (λ c. masked stream 0 p ≡ ctr_loop encrypt_block (length p) c p) (big_endian-zero 16)
      (ext_get_elem? (masked stream 0 p) out (n ∙ sym m) λ i a h.
        let inside = in_range-get_elem? (masked stream 0 p) i a h in
        let (x, e) = get_elem?-in_range p i (omega (arith, inside, n)) in
        let at : 0 + i ≡ i = omega arith in
        let block : 0 + i / 16 ≡ i / 16 = omega arith in
        let left : get_elem? (masked stream 0 p) i ≡ some (bit_xor x (stream i)) =
          get_elem?-masked stream 0 p i x e ∙ ap (λ k. some (bit_xor x (stream k))) at in
        let right = get_elem?-ctr_loop encrypt_block wide (length p) 0 p i x (omega arith) e in
        let same : stream_byte encrypt_block wide 0 i ≡ stream i = rw block refl in
        right ∙ ap (λ b. some (bit_xor x b)) same ∙ sym left ∙ h)

module _ (encrypt_block : Bytes → Bytes → Bytes)
    (wide : (key b : Bytes) → length b ≡ 16 → length (encrypt_block key b) ≡ 16) where
  -- Under a key of 32 bytes the ciphertext is the plaintext under the keystream of counter mode, whose
  -- byte `i` is byte `i % 16` of the block cipher's image of the number `i / 16` in 16 big-endian bytes;
  -- under any other key it is an error. The block cipher makes blocks of 16 bytes of such blocks.
  pub aes256_ctr_encrypt-masked :
      (key p : Bytes)
      → aes256_ctr_encrypt encrypt_block key p ≡ (
          if length key == 32
          then ok (masked (keystream (encrypt_block key)) 0 p)
          else err ErrorKind.invalid_data)
  unfolding aes256_ctr_encrypt
  aes256_ctr_encrypt-masked key p = rw (ctr_loop-masked (encrypt_block key) (wide key) p) refl

  -- What was encrypted is decrypted by encrypting it again.
  pub aes256_ctr_encrypt_twice :
      (key p c : Bytes)
      → aes256_ctr_encrypt encrypt_block key p ≡ ok c
      → aes256_ctr_encrypt encrypt_block key c ≡ ok p
  aes256_ctr_encrypt_twice key p c h =
      let stream = keystream (encrypt_block key) in
      let first = aes256_ctr_encrypt-masked key p in
      let again = aes256_ctr_encrypt-masked key c in
      ground (arith, first, again, h, masked_twice stream 0 p)
