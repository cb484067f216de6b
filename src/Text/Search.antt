-- ===== src/Text/Search.antt =====
-- `str::find` and the prefix test, over bytes: a needle of ASCII characters is found at the same
-- offset among the bytes as among the characters.
use sigchat.Base.{
  ℕ, ◌+◌, ◌≡◌, refl, ap, Bool, true, false, ◌&&◌, [], ◌∷◌, ◌++◌, Option, none, some, arith, ◌==◌,
  if◌then◌else◌, length, All,
}
use sigchat.Text.{Bytes, Lacks}

unfoldable pub starts_with : Bytes → Bytes → Bool
starts_with s [] = true
starts_with [] (p ∷ ps) = false
starts_with (c ∷ s) (p ∷ ps) = c == p && starts_with s ps

abbrev pub shift : ℕ → Option ℕ → Option ℕ
shift k none = none
shift k (some n) = some (k + n)

-- `s.find(needle)`
unfoldable pub find : Bytes → Bytes → Option ℕ
unfolding starts_with
find [] needle = if starts_with [] needle then some 0 else none
find (c ∷ s) needle = if starts_with (c ∷ s) needle then some 0 else shift 1 (find s needle)

-- `s.find(|c| test(c))`
unfoldable pub find_where : (ℕ → Bool) → Bytes → Option ℕ
find_where test [] = none
find_where test (c ∷ s) = if test c then some 0 else shift 1 (find_where test s)

pub starts_with-append : (p s : Bytes) → starts_with (p ++ s) p ≡ true
unfolding starts_with
starts_with-append [] [] = refl
starts_with-append [] (c ∷ s) = refl
starts_with-append (c ∷ p) s = ground (arith, starts_with-append p s)

find-of_starts_with : (s needle : Bytes) → starts_with s needle ≡ true → find s needle ≡ some 0
unfolding find
find-of_starts_with [] needle h = rw h
find-of_starts_with (c ∷ s) needle h = rw h

-- A text that begins with the needle is found at 0.
pub find-append : (needle s : Bytes) → find (needle ++ s) needle ≡ some 0
find-append needle s = find-of_starts_with (needle ++ s) needle (starts_with-append needle s)

shift-shift : (a b : ℕ) (o : Option ℕ) → shift a (shift b o) ≡ shift (a + b) o
shift-shift a b none = refl
shift-shift a b (some n) = ap some (omega arith)

-- One byte that the needle does not begin with is passed over.
pub find-cons :
    (c h : ℕ) (s t : Bytes)
    → starts_with (c ∷ s) (h ∷ t) ≡ false
    → find (c ∷ s) (h ∷ t) ≡ shift 1 (find s (h ∷ t))
unfolding find
find-cons c h s t e = rw e

-- A stretch without the needle's first byte is passed over.
pub find-skip :
    (pre rest : Bytes) (h : ℕ) (t : Bytes)
    → Lacks h pre
    → find (pre ++ rest) (h ∷ t) ≡ shift (length pre) (find rest (h ∷ t))
unfolding find starts_with
find-skip [] rest h t _ = ground arith
find-skip (c ∷ pre) rest h t (ne, lacks) =
    ground (arith, find-skip pre rest h t lacks, shift-shift 1 (length pre) (find rest (h ∷ t)))

-- The first byte that passes the test, behind a stretch where none does.
pub find_where-append :
    (test : ℕ → Bool) (pre : Bytes) (c : ℕ) (rest : Bytes)
    → All (λ b. test b ≡ false) pre
    → test c ≡ true
    → find_where test (pre ++ c ∷ rest) ≡ some (length pre)
unfolding find_where
find_where-append test [] c rest _ hit = rw hit
find_where-append test (b ∷ pre) c rest (miss, misses) hit =
    rw (miss, find_where-append test pre c rest misses hit) (ap some (omega arith))
