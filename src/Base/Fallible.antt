-- ===== src/Base/Fallible.antt =====
-- Rust's `Result`, and code that changes a state and may fail: what was written before an error
-- stays written, so the state comes back beside the error too.
use mathlib.Core.Bool.{Bool, true, false}
use mathlib.Core.Option.{Option, none, some}
use mathlib.Core.Path.{◌≡◌, refl}
use mathlib.Core.Logic.{◌⊎◌, inl, inr}

pub data Result {ℓ κ} (E : Type ℓ) (A : Type κ) : Type (ℓ ⊔ κ) where
  ok : A → Result E A
  err : E → Result E A

-- `e.map_err(f)`
abbrev pub map_err {ℓ κ μ} :
    {E : Type ℓ} {F : Type κ} {A : Type μ} → (E → F) → Result E A → Result F A
map_err f (ok a) = ok a
map_err f (err e) = err (f e)

-- `o.ok_or(e)`
abbrev pub ok_or {ℓ κ} : {E : Type ℓ} {A : Type κ} → Option A → E → Result E A
ok_or none e = err e
ok_or (some a) e = ok a

-- `r.ok()`
abbrev pub to_option {ℓ κ} : {E : Type ℓ} {A : Type κ} → Result E A → Option A
to_option (ok a) = some a
to_option (err e) = none

-- `o.unwrap_or(d)`
abbrev pub unwrap_or {ℓ} : {A : Type ℓ} → Option A → A → A
unwrap_or none d = d
unwrap_or (some a) d = a

abbrev pub is_some {ℓ} : {A : Type ℓ} → Option A → Bool
is_some none = false
is_some (some a) = true

abbrev pub Exec {ℓ} : Type ℓ → Type ℓ → Type ℓ → Type ℓ
Exec E S A = S → Result E A × S

module _ {ℓ} {E S A : Type ℓ} where
  abbrev pub pure : A → Exec E S A
  pure a s = (ok a, s)

  abbrev pub raise : E → Exec E S A
  raise e s = (err e, s)

  abbrev pub lift : Result E A → Exec E S A
  lift r s = (r, s)

module _ {ℓ} {E S A B : Type ℓ} where
  abbrev pub continue : Result E A → (A → Exec E S B) → Exec E S B
  continue (ok a) f s = f a s
  continue (err e) f s = (err e, s)

  infixl 5 ◌>>=◌ ◌>>◌
  abbrev pub ◌>>=◌ : Exec E S A → (A → Exec E S B) → Exec E S B
  ◌>>=◌ m f s = let (r, s') = m s in continue r f s'

  abbrev pub ◌>>◌ : Exec E S A → Exec E S B → Exec E S B
  m >> n = m >>= λ _. n

module _ {ℓ} {E F S A : Type ℓ} where
  abbrev pub map_error : (E → F) → Exec E S A → Exec F S A
  map_error f m s = (map_err f (m s).0, (m s).1)

module _ {ℓ} {E F S A : Type ℓ} where
  -- `m.ok()` in statement position: the result is dropped
  abbrev pub attempt : Exec E S A → Exec F S (Result E A)
  attempt m s = (ok (m s).0, (m s).1)

module _ {ℓ} {E S A B : Type ℓ} where
  -- A chain that succeeds ran its first step with success, and its rest from there.
  pub continue_ok :
      (r : Result E A) (f : A → Exec E S B) (s : S) (b : B)
      → (continue r f s).0 ≡ ok b
      → (a : A) × (r ≡ ok a) × ((f a s).0 ≡ ok b)
  continue_ok (ok a) f s b h = (a, refl, h)
  continue_ok (err e) f s b h = cc

module _ {ℓ} {E F A : Type ℓ} where
  pub map_err_ok : (f : E → F) (r : Result E A) (a : A) → map_err f r ≡ ok a → r ≡ ok a
  map_err_ok f (ok x) a h = cc
  map_err_ok f (err e) a h = cc

module _ {ℓ} {E A : Type ℓ} where
  pub Result-cases : (r : Result E A) → ((a : A) × (r ≡ ok a)) ⊎ ((e : E) × (r ≡ err e))
  Result-cases (ok a) = inl (a, refl)
  Result-cases (err e) = inr (e, refl)

-- The parts of such a result under names that do not compute.
pub with_ok {ℓ κ} :
    {A : Type ℓ} {P Q : A → Type ℓ} {C : Type κ}
    → ((a : A) × P a × Q a)
    → ((a : A) → P a → Q a → C)
    → C
with_ok (a, p, q) k = k a p q
