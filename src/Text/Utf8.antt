-- ===== src/Text/Utf8.antt =====
-- `String::from_utf8`, and slices of a `&str`, which must cut between characters.
use sigchat.Base.{
  ℕ, zero, suc, ◌≡◌, refl, Bool, true, false, ◌&&◌, ◌||◌, [], ◌∷◌, ◌++◌, Option, none, some, arith,
  ltb, leb, ◌==◌, if◌then◌else◌, length, get_elem?, take, All,
}
use sigchat.Text.{Bytes}

-- What the next byte may be: a first byte, or one of `n` more bytes, the next between `lo` and `hi`.
pub data Expect : Type 0 where
  start : Expect
  more : ℕ → ℕ → ℕ → Expect

-- The well-formed first bytes of the Unicode standard's table 3-7.
lead : ℕ → Option Expect
lead c =
    if ltb c 0x80
    then some start
    else if ltb c 0xc2
    then none
    else if ltb c 0xe0
    then some (more 1 0x80 0xbf)
    else if c == 0xe0
    then some (more 2 0xa0 0xbf)
    else if c == 0xed
    then some (more 2 0x80 0x9f)
    else if ltb c 0xf0
    then some (more 2 0x80 0xbf)
    else if c == 0xf0
    then some (more 3 0x90 0xbf)
    else if ltb c 0xf4
    then some (more 3 0x80 0xbf)
    else if c == 0xf4
    then some (more 3 0x80 0x8f)
    else none

follow : ℕ → ℕ → ℕ → ℕ → Option Expect
follow zero lo hi c = none
follow (suc zero) lo hi c = if leb lo c && leb c hi then some start else none
follow (suc (suc n)) lo hi c = if leb lo c && leb c hi then some (more (suc n) 0x80 0xbf) else none

expect : Expect → ℕ → Option Expect
unfolding lead follow
expect start c = lead c
expect (more n lo hi) c = follow n lo hi c

run : Option Expect → Bytes → Bool
unfolding expect
run none s = false
run (some start) [] = true
run (some (more n lo hi)) [] = false
run (some e) (c ∷ s) = run (expect e c) s

unfoldable pub is_utf8 : Bytes → Bool
unfolding run
is_utf8 s = run (some start) s

-- `String::from_utf8(v).ok()`
unfoldable pub from_utf8 : Bytes → Option Bytes
from_utf8 v = if is_utf8 v then some v else none

run-append :
    (o : Option Expect) (s t : Bytes) → run o s ≡ true → run o (s ++ t) ≡ run (some start) t
unfolding run
run-append none s t h = cc
run-append (some start) [] t h = refl
run-append (some (more n lo hi)) [] t h = cc
run-append (some start) (c ∷ s) t h = run-append (lead c) s t h
run-append (some (more n lo hi)) (c ∷ s) t h = run-append (follow n lo hi c) s t h

-- Two well-formed texts are well-formed end to end.
pub is_utf8-append : (s t : Bytes) → is_utf8 s ≡ true → is_utf8 t ≡ true → is_utf8 (s ++ t) ≡ true
unfolding is_utf8
is_utf8-append s t hs ht = rw (run-append (some start) s t hs) ht

-- ASCII is well-formed.
pub is_utf8-ascii : (s : Bytes) → All (λ c. ltb c 0x80 ≡ true) s → is_utf8 s ≡ true
unfolding is_utf8
is_utf8-ascii [] h = refl
is_utf8-ascii (c ∷ s) (hc, hs) = ground (arith, is_utf8-ascii s hs)

-- `s.is_char_boundary(i)`: the end, or a byte that continues no character.
unfoldable pub is_char_boundary : Bytes → ℕ → Bool
is_char_boundary s i = elim (get_elem? s i) [
  | none ↦ i == length s
  | some c ↦ i == 0 || ltb c 0x80 || leb 0xc0 c
]

-- `&s[..i]`; `none` is the panic of a slice inside a character or past the end.
unfoldable pub slice_to : Bytes → ℕ → Option Bytes
unfolding is_char_boundary
slice_to s i = if is_char_boundary s i then some (take i s) else none
