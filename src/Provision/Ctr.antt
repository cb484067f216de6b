-- ===== src/Provision/Ctr.antt =====
-- `aes256_ctr_encrypt` of src/manager/libsignal.rs, and the keystream of counter mode to compare it with.
mod Counter
pub mod Stream
use Prim.Native.Nat.{bit_xor}
use sigchat.Base.{
  ℕ, zero, suc, ◌+◌, ◌-◌, ◌*◌, ◌/◌, ◌%◌, ◌≤◌, ◌<◌, ◌≡◌, ◌⊎◌, inl, inr, refl, ap, ◌∙◌, Bool, true,
  false, [], ◌∷◌, ◌++◌, Option, none, some, Result, ok, err, unwrap_or, arith, ltb, Bool-cases,
  ◌==◌, if◌then◌else◌, length, get_elem?, take, drop, replicate, length-append, length-take,
  get_elem?-take, get_elem?-drop, get_elem?-append_left, get_elem?-append_right, get_elem?-in_range,
  in_range-get_elem?, subst, sym, length-drop, length-take_le, append-take-drop, ext_get_elem?,
}
use sigchat.Text.{Bytes}
use sigchat.Io.{ErrorKind}
use sigchat.Provision.Xor.{bit_xor_twice}

-- The counter with one added, and whether the carry went past its first byte: the loop runs from the
-- last byte to the first, and breaks where a byte did not wrap.
abbrev pub carried : Bool → ℕ → Bytes → Bool × Bytes
carried true c cs = ((c + 1) % 256 == 0, (c + 1) % 256 ∷ cs)
carried false c cs = (false, c ∷ cs)

unfoldable pub bump : Bytes → Bool × Bytes
bump [] = (true, [])
bump (c ∷ cs) = let (carry, cs') = bump cs in carried carry c cs'

-- The bytes of a chunk against those of the block.
unfoldable pub xor_chunk : Bytes → Bytes → Bytes
xor_chunk [] block = []
xor_chunk (p ∷ ps) [] = []
xor_chunk (p ∷ ps) (b ∷ bs) = bit_xor p b ∷ xor_chunk ps bs

-- `plaintext.chunks(16)`: no chunk for an empty text; the length of the text is enough fuel.
unfoldable pub ctr_loop : (Bytes → Bytes) → ℕ → Bytes → Bytes → Bytes
unfolding bump xor_chunk
ctr_loop encrypt_block zero counter plaintext = []
ctr_loop encrypt_block (suc fuel) counter [] = []
ctr_loop encrypt_block (suc fuel) counter (p ∷ plaintext) =
    xor_chunk (take 16 (p ∷ plaintext)) (encrypt_block counter)
    ++ ctr_loop encrypt_block fuel (bump counter).1 (drop 16 (p ∷ plaintext))

-- `encrypt_block` of a key is the block cipher, a library's.
unfoldable pub aes256_ctr_encrypt : (Bytes → Bytes → Bytes) → Bytes → Bytes → Result ErrorKind Bytes
unfolding ctr_loop
aes256_ctr_encrypt encrypt_block key plaintext =
    if length key == 32
    then ok (ctr_loop (encrypt_block key) (length plaintext) (replicate 16 0) plaintext)
    else err ErrorKind.invalid_data

-- A number in `k` bytes, the highest first, modulo 256 ^ k.
unfoldable pub big_endian : ℕ → ℕ → Bytes
big_endian zero n = []
big_endian (suc k) n = big_endian k (n / 256) ++ (n % 256) ∷ []

-- Byte `i` of the keystream of a block cipher in counter mode.
unfoldable pub keystream : (Bytes → Bytes) → ℕ → ℕ
unfolding big_endian
keystream encrypt_block i =
    unwrap_or (get_elem? (encrypt_block (big_endian 16 (i / 16))) (i % 16)) 0

-- The text under a keystream, from byte `i` of the keystream on.
unfoldable pub masked : (ℕ → ℕ) → ℕ → Bytes → Bytes
masked stream i [] = []
masked stream i (p ∷ ps) = bit_xor p (stream i) ∷ masked stream (suc i) ps
