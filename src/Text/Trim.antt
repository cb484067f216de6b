-- ===== src/Text/Trim.antt =====
-- `str::trim`: no white space of Unicode at either end. A white space is one byte, or two or three.
use mathlib.Core.List.{reverse, reverse-reverse, reverse-cons}
use sigchat.Base.{
  ℕ, zero, suc, ◌<◌, ◌≡◌, refl, Bool, ◌&&◌, ◌||◌, [], ◌∷◌, ◌++◌, arith, leb, ◌==◌, if◌then◌else◌,
  length, drop, All,
}
use sigchat.Text.{Bytes}

-- U+0009 to U+000D and U+0020; U+0085 and U+00A0; U+1680, U+2000 to U+200A, U+2028, U+2029, U+202F, U+205F
-- and U+3000; each by its bytes.
abbrev white1 : ℕ → Bool
white1 c = (leb 0x09 c && leb c 0x0d) || c == 0x20

abbrev white2 : ℕ → ℕ → Bool
white2 c d = c == 0xc2 && (d == 0x85 || d == 0xa0)

abbrev white3 : ℕ → ℕ → ℕ → Bool
white3 c d e =
    (c == 0xe1 && (d == 0x9a && e == 0x80))
    || ((c == 0xe2
          && ((d == 0x80 && ((leb 0x80 e && leb e 0x8a) || (e == 0xa8 || (e == 0xa9 || e == 0xaf))))
              || (d == 0x81 && e == 0x9f)))
        || (c == 0xe3 && (d == 0x80 && e == 0x80)))

-- How many bytes of white space stand at the start of a text; of a reversed text, at its end.
white_len : Bytes → ℕ
white_len [] = 0
white_len (c ∷ []) = if white1 c then 1 else 0
white_len (c ∷ d ∷ []) = if white1 c then 1 else if white2 c d then 2 else 0
white_len (c ∷ d ∷ e ∷ s) =
    if white1 c then 1 else if white2 c d then 2 else if white3 c d e then 3 else 0

white_len_reversed : Bytes → ℕ
white_len_reversed [] = 0
white_len_reversed (c ∷ []) = if white1 c then 1 else 0
white_len_reversed (d ∷ c ∷ []) = if white1 d then 1 else if white2 c d then 2 else 0
white_len_reversed (e ∷ d ∷ c ∷ s) =
    if white1 e then 1 else if white2 d e then 2 else if white3 c d e then 3 else 0

-- Each round drops a white space; the length of the text is enough fuel.
strip : (Bytes → ℕ) → ℕ → Bytes → Bytes
strip len zero s = s
strip len (suc fuel) s =
    let rest = strip len fuel (drop (len s) s) in if len s == 0 then s else rest

unfoldable pub trim_start : Bytes → Bytes
unfolding strip white_len
trim_start s = strip white_len (length s) s

unfoldable pub trim_end : Bytes → Bytes
unfolding strip white_len_reversed
trim_end s = reverse (strip white_len_reversed (length s) (reverse s))

unfoldable pub trim : Bytes → Bytes
trim s = trim_end (trim_start s)

-- A printed ASCII character that is no space.
abbrev pub IsPlain : ℕ → Type 0
IsPlain c = (0x20 < c) × (c < 0x80)

white_len-plain : (s : Bytes) → All IsPlain s → white_len s ≡ 0
unfolding white_len
white_len-plain [] h = refl
white_len-plain (c ∷ []) h = ground arith
white_len-plain (c ∷ d ∷ []) h = ground arith
white_len-plain (c ∷ d ∷ e ∷ s) h = ground arith

white_len_reversed-plain : (s : Bytes) → All IsPlain s → white_len_reversed s ≡ 0
unfolding white_len_reversed
white_len_reversed-plain [] h = refl
white_len_reversed-plain (c ∷ []) h = ground arith
white_len_reversed-plain (c ∷ d ∷ []) h = ground arith
white_len_reversed-plain (c ∷ d ∷ e ∷ s) h = ground arith

strip-none : (len : Bytes → ℕ) (fuel : ℕ) (s : Bytes) → len s ≡ 0 → strip len fuel s ≡ s
unfolding strip
strip-none len zero s h = refl
strip-none len (suc fuel) s h = ground (arith, h)

All-snoc : (s : Bytes) (c : ℕ) → All IsPlain s → IsPlain c → All IsPlain (s ++ c ∷ [])
All-snoc [] c h hc = (hc, tt)
All-snoc (d ∷ s) c (hd, hs) hc = (hd, All-snoc s c hs hc)

All-reverse : (s : Bytes) → All IsPlain s → All IsPlain (reverse s)
All-reverse [] h = tt
All-reverse (c ∷ s) (hc, hs) = rw (reverse-cons c s) (All-snoc (reverse s) c (All-reverse s hs) hc)

-- A text of such characters alone has nothing to trim.
pub trim-plain : (s : Bytes) → All IsPlain s → trim s ≡ s
unfolding trim trim_start trim_end
trim-plain s h =
    let start = strip-none white_len (length s) s (white_len-plain s h) in
    let end =
      strip-none white_len_reversed (length s) (reverse s)
        (white_len_reversed-plain (reverse s) (All-reverse s h)) in
    rw start (rw end (reverse-reverse s))
