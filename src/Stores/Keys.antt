-- ===== src/Stores/Keys.antt =====
-- The keys of the stores: `format!("{}", id)` and `format!("{}.{}", name, device_id)`.
use sigchat.Base.{
  ℕ, ◌^◌, ◌<◌, ◌≡◌, refl, Bool, ◌&&◌, [], ◌∷◌, ◌++◌, arith, ◌==◌, Bool-cases, inl, inr, All,
}
use sigchat.Text.{Bytes, bytes_eq, bytes_eq_iff, Lacks}
use sigchat.Text.Decimal.{show, IsDigit, All-show, show-injective}
use sigchat.Signal.{Addresses, AddressesLaws}

-- Two u32 have one print only if they are equal.
pub show_eq : (a b : ℕ) → a < 2 ^ 32 → b < 2 ^ 32 → bytes_eq (show a) (show b) ≡ (a == b)
show_eq a b la lb = ground (arith, bytes_eq_iff (show a) (show b), show-injective a b la lb)

digits-Lacks : (s : Bytes) (b : ℕ) → b < b'0' → All IsDigit s → Lacks b s
digits-Lacks [] b h _ = tt
digits-Lacks (c ∷ s) b h (hc, hs) = (omega arith, digits-Lacks s b h hs)

-- The print of a number holds no byte below the digits, such as a dot.
pub show-Lacks : (n b : ℕ) → b < b'0' → Lacks b (show n)
show-Lacks n b h = digits-Lacks (show n) b h (All-show n)

not_in_the_middle : (s t : Bytes) (b : ℕ) (x : Bytes) → Lacks b x → x ≡ s ++ b ∷ t → ⊥
not_in_the_middle [] t b [] lacks e = cc
not_in_the_middle [] t b (c ∷ x) (ne, lacks) e = ground arith
not_in_the_middle (a ∷ s) t b [] lacks e = cc
not_in_the_middle (a ∷ s) t b (c ∷ x) (ne, lacks) e = not_in_the_middle s t b x lacks (ground arith)

-- The last separator cuts a text in one way.
pub split_at_last :
    (s t : Bytes) (b : ℕ) (x y : Bytes)
    → Lacks b x
    → Lacks b y
    → s ++ b ∷ x ≡ t ++ b ∷ y
    → (s ≡ t) × (x ≡ y)
split_at_last [] [] b x y lx ly e = (refl, ground arith)
split_at_last [] (c ∷ t) b x y lx ly e = absurd (not_in_the_middle t y b x lx (ground arith))
split_at_last (c ∷ s) [] b x y lx ly e = absurd (not_in_the_middle s x b y ly (ground arith))
split_at_last (c ∷ s) (d ∷ t) b x y lx ly e =
    let (p, q) = split_at_last s t b x y lx ly (ground arith) in (ground arith, q)

module _ (ad : Addresses) where
  open ad use {ProtocolAddress, name, device_id, device_u32}

  -- `format!("{}.{}", address.name(), address.device_id())`
  unfoldable pub address_key : ProtocolAddress → Bytes
  address_key address = name address ++ b'.' ∷ show (device_u32 (device_id address))

  -- The same name and the same device.
  abbrev pub same_address : ProtocolAddress → ProtocolAddress → Bool
  same_address a b =
      bytes_eq (name a) (name b) && device_u32 (device_id a) == device_u32 (device_id b)

module _ (ad : Addresses) (al : AddressesLaws ad) where
  open ad use {ProtocolAddress, name, device_id, device_u32}

  device-show :
      (a b : ProtocolAddress)
      → show (device_u32 (device_id a)) ≡ show (device_u32 (device_id b))
      → device_u32 (device_id a) ≡ device_u32 (device_id b)
  device-show a b =
      show-injective _ _ (omega (arith, al.device_lt (device_id a)))
        (omega (arith, al.device_lt (device_id b)))

  -- Two addresses share a key only if they share name and device, whatever the names hold.
  pub address_key_eq :
      (a b : ProtocolAddress) → bytes_eq (address_key ad a) (address_key ad b) ≡ same_address ad a b
  unfolding address_key
  address_key_eq a b = elim (Bool-cases (bytes_eq (address_key ad a) (address_key ad b))) [
    | inl same ↦
        let cut =
          split_at_last (name a) (name b) b'.' (show (device_u32 (device_id a)))
            (show (device_u32 (device_id b))) (show-Lacks _ b'.' (omega arith))
            (show-Lacks _ b'.' (omega arith)) ((bytes_eq_iff _ _).0 same) in
        ground (arith, bytes_eq_iff (name a) (name b), cut, device-show a b cut.1, same)
    | inr other ↦ ground (
      arith,
      bytes_eq_iff (name a) (name b),
      bytes_eq_iff (address_key ad a) (address_key ad b),
      other,
    )
  ]
