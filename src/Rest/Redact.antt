-- ===== src/Rest/Redact.antt =====
-- `redact_verification_code` of src/manager/rest.rs.
use sigchat.Base.{
  ℕ, ◌+◌, ◌≡◌, refl, ap, ◌∙◌, sym, [], ◌∷◌, ◌++◌, Option, none, some, arith, length, take, drop,
  length-append, take_front, drop_front, append_assoc,
}
use sigchat.Text.{Bytes, codes, Lacks}
use sigchat.Text.Search.{find, shift, find-skip, find-append}

abbrev pub code_key : Bytes
code_key = codes "\"verificationCode\":\""

abbrev pub quotation_mark : ℕ
quotation_mark = b'"'

-- The value begins at `vstart` and its closing quotation mark stands `rel_end` behind that.
abbrev from_value : Bytes → ℕ → Option ℕ → Bytes
from_value json vstart none = json
from_value json vstart (some rel_end) =
    take vstart json ++ codes "<redacted>" ++ drop (vstart + rel_end) json

abbrev from_key : Bytes → Option ℕ → Bytes
from_key json none = json
from_key json (some start) =
    let vstart = start + length code_key in
    from_value json vstart (find (drop vstart json) (quotation_mark ∷ []))

unfoldable pub redact_verification_code : Bytes → Bytes
redact_verification_code json = from_key json (find json code_key)

redact_at :
    (front code rest : Bytes)
    → Lacks quotation_mark code
    → from_value (front ++ (code ++ quotation_mark ∷ rest)) (length front) (
        find (drop (length front) (front ++ (code ++ quotation_mark ∷ rest))) (quotation_mark ∷ []))
      ≡ front ++ codes "<redacted>" ++ quotation_mark ∷ rest
redact_at front code rest lacks =
    let tail = quotation_mark ∷ rest in
    let json = front ++ (code ++ tail) in
    let value = drop_front (length front) front (code ++ tail) refl in
    let found =
      find-skip code tail quotation_mark [] lacks
      ∙ ap (shift (length code)) (find-append (quotation_mark ∷ []) rest) in
    let kept = take_front (length front) front (code ++ tail) refl in
    let n : length (front ++ code) ≡ length front + (length code + 0) =
      omega (arith, length-append front code) in
    let behind =
      ap (drop (length front + (length code + 0))) (sym (append_assoc front code tail))
      ∙ drop_front _ (front ++ code) tail n in
    rw (value, found, kept, behind) refl

-- The first value of the key, which nothing before it quotes and which has no quotation mark of its own,
-- is replaced; all else stays. So two texts that differ in the code alone give the same text, and what
-- serde writes as \" in a code ends the value early.
pub redact_verification_code_lem :
    (pre code rest : Bytes)
    → Lacks quotation_mark pre
    → Lacks quotation_mark code
    → redact_verification_code (pre ++ code_key ++ (code ++ quotation_mark ∷ rest))
      ≡ pre ++ code_key ++ codes "<redacted>" ++ quotation_mark ∷ rest
unfolding redact_verification_code
redact_verification_code_lem pre code rest lp lc =
    let tail = code ++ quotation_mark ∷ rest in
    let json = pre ++ code_key ++ tail in
    let found : find json code_key ≡ some (length pre + 0) =
      ap (λ j. find j code_key) (append_assoc pre code_key tail)
      ∙ find-skip pre (code_key ++ tail) _ _ lp
      ∙ ap (shift (length pre)) (find-append code_key tail) in
    let n : length (pre ++ code_key) ≡ length pre + 0 + length code_key =
      omega (arith, length-append pre code_key) in
    ap (from_key json) found
    ∙ ap (λ v. from_value json v (find (drop v json) (quotation_mark ∷ []))) (sym n)
    ∙ redact_at (pre ++ code_key) code rest lc
