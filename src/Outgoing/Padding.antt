-- ===== src/Outgoing/Padding.antt =====
-- `signal_pad` of src/manager/outgoing.rs and `strip_signal_padding` of src/manager/main_ws.rs: the
-- application-layer padding that a sender puts behind a Content and a receiver takes off.
use sigchat.Base.{
  ℕ, zero, suc, ◌+◌, ◌-◌, ◌%◌, ◌≤◌, ◌<◌, ◌≡◌, refl, ap, Bool, true, false, [], ◌∷◌, ◌++◌,
  append_assoc, append-nil, Option, none, some, arith, ◌==◌, if◌then◌else◌, length, replicate,
  length-append,
}
use sigchat.Text.{Bytes}

abbrev pub block : ℕ
block = 160

abbrev pub marker : ℕ
marker = 0x80

-- `v.push(b)`
abbrev push : Bytes → ℕ → Bytes
push v b = v ++ b ∷ []

-- `while content.len() % 160 != 0 { content.push(0x00) }`
pad_loop : ℕ → Bytes → Bytes
pad_loop zero content = content
pad_loop (suc fuel) content = elim (length content % block == 0) [
  | true ↦ content
  | false ↦ pad_loop fuel (push content 0)
]

-- Fewer than 160 rounds are made: `length-signal_pad` has the loop's test false at the end.
pub signal_pad : Bytes → Bytes
unfolding pad_loop
signal_pad content = pad_loop block (push content marker)

-- `v.last()`
last : Bytes → Option ℕ
last [] = none
last (c ∷ []) = some c
last (c ∷ d ∷ s) = last (d ∷ s)

-- `v.pop()`, the vector that is left
pop : Bytes → Bytes
pop [] = []
pop (c ∷ []) = []
pop (c ∷ d ∷ s) = c ∷ pop (d ∷ s)

-- `v.last() == Some(&b)`
abbrev is_byte : Option ℕ → ℕ → Bool
is_byte none b = false
is_byte (some c) b = c == b

-- `while plaintext.last() == Some(&0x00) { plaintext.pop(); }`
strip_loop : ℕ → Bytes → Bytes
unfolding last pop
strip_loop zero plaintext = plaintext
strip_loop (suc fuel) plaintext = elim (is_byte (last plaintext) 0) [
  | true ↦ strip_loop fuel (pop plaintext)
  | false ↦ plaintext
]

strip_marker : Bytes → Bytes
unfolding last pop
strip_marker plaintext = if is_byte (last plaintext) marker then pop plaintext else plaintext

-- A round takes one byte off, so the length is enough fuel.
pub strip_signal_padding : Bytes → Bytes
unfolding strip_loop strip_marker
strip_signal_padding plaintext = strip_marker (strip_loop (length plaintext) plaintext)

-- How many zeros the loop appends.
abbrev gap : ℕ → ℕ
gap n = (block - n % block) % block

abbrev zeros : ℕ → Bytes
zeros n = replicate n 0

zeros_snoc : (n : ℕ) (s : Bytes) → push s 0 ++ zeros n ≡ s ++ zeros (suc n)
zeros_snoc n s = append_assoc s (0 ∷ []) (zeros n)

length-zeros : (n : ℕ) → length (zeros n) ≡ n
length-zeros zero = refl
length-zeros (suc n) = ap suc (length-zeros n)

pad_loop-eq :
    (fuel k : ℕ) (s : Bytes) → k < fuel → k ≡ gap (length s) → pad_loop fuel s ≡ s ++ zeros k
unfolding pad_loop
pad_loop-eq zero k s lt e = elim lt [ ]
pad_loop-eq (suc fuel) zero s lt e = ground (arith, append-nil s)
pad_loop-eq (suc fuel) (suc k) s lt e =
    ground (arith, pad_loop-eq fuel k (push s 0), zeros_snoc k s, length-append s (0 ∷ []))

-- Padding is the marker and the zeros up to the next multiple of the block.
pub signal_pad-eq :
    (s : Bytes) → signal_pad s ≡ push s marker ++ zeros (gap (length (push s marker)))
unfolding signal_pad
signal_pad-eq s = pad_loop-eq block _ (push s marker) (omega arith) refl

-- The padded length is a multiple of 160, longer than the content by at least 1 and at most 160.
pub length-signal_pad :
    (s : Bytes)
    → (length (signal_pad s) % block ≡ 0)
      × (length s < length (signal_pad s))
      × (length (signal_pad s) ≤ length s + block)
length-signal_pad s = rw (signal_pad-eq s) (
    omega (
      arith,
      length-append (push s marker) (zeros (gap (length (push s marker)))),
      length-append s (marker ∷ []),
      length-zeros (gap (length (push s marker))),
    ))

last-push : (s : Bytes) (b : ℕ) → last (push s b) ≡ some b
unfolding last
last-push [] b = refl
last-push (c ∷ []) b = refl
last-push (c ∷ d ∷ s) b = last-push (d ∷ s) b

pop-push : (s : Bytes) (b : ℕ) → pop (push s b) ≡ s
unfolding pop
pop-push [] b = refl
pop-push (c ∷ []) b = refl
pop-push (c ∷ d ∷ s) b = ap (λ t. c ∷ t) (pop-push (d ∷ s) b)

zeros-push : (n : ℕ) → zeros (suc n) ≡ push (zeros n) 0
zeros-push zero = refl
zeros-push (suc n) = ap (λ t. 0 ∷ t) (zeros-push n)

strip_loop_zero : (fuel : ℕ) (s : Bytes) → strip_loop (suc fuel) (push s 0) ≡ strip_loop fuel s
unfolding strip_loop
strip_loop_zero fuel s = ground (arith, last-push s 0, pop-push s 0)

strip_loop-marker : (fuel : ℕ) (s : Bytes) → strip_loop fuel (push s marker) ≡ push s marker
unfolding strip_loop
strip_loop-marker zero s = refl
strip_loop-marker (suc fuel) s = ground (arith, last-push s marker)

strip_loop-zeros :
    (n fuel : ℕ) (s : Bytes) → n ≤ fuel → strip_loop fuel (push s marker ++ zeros n) ≡ push s marker
strip_loop-zeros zero fuel s h = rw append-nil (strip_loop-marker fuel s)
strip_loop-zeros (suc n) zero s h = elim h [ ]
strip_loop-zeros (suc n) (suc fuel) s h =
    rw (zeros-push n, ← append_assoc (push s marker) (zeros n) (0 ∷ []), strip_loop_zero)
      (strip_loop-zeros n fuel s (omega arith))

-- Stripping the padding of any content gives the content back, whatever bytes it ends with.
pub strip_signal_padding-signal_pad : (s : Bytes) → strip_signal_padding (signal_pad s) ≡ s
unfolding strip_signal_padding strip_marker
strip_signal_padding-signal_pad s = rw (signal_pad-eq s) (
    rw (strip_loop-zeros (gap (length (push s marker))) _ s (fits s), last-push s marker)
      (pop-push s marker))
  where
    fits :
        (t : Bytes)
        → gap (length (push t marker))
          ≤ length (push t marker ++ zeros (gap (length (push t marker))))
    fits t = omega (
      arith,
      length-append (push t marker) (zeros (gap (length (push t marker)))),
      length-zeros (gap (length (push t marker))),
    )
