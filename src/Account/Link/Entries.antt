-- ===== src/Account/Link/Entries.antt =====
-- What the sets of a link leave in the database.
use sigchat.Base.{
  ◌≡◌, refl, ap, ◌∙◌, ◌&&◌, Bool, true, false, [], ◌∷◌, ◌++◌, List, Option, none, some, ok, ◌⊎◌,
  inl, inr, arith, if◌then◌else◌, continue, continue_ok, subst, with_ok,
}
use sigchat.Text.{Bytes, bytes_eq, bytes_eq_refl}
use sigchat.Pddb.{Pddb, PddbLaws}
use sigchat.Account.Values
use sigchat.Account.Fields.{Account, Assigned, updated, invalid_key, unwrap_failed, assign, set}
use sigchat.Text.Decimal.{show}
use sigchat.Provision.Types.{ProvisionMessage}
use sigchat.Account.Keys.{
  account_entropy_pool_key, registration_id_key, aci_identity_private_key, aci_identity_public_key,
}
use sigchat.PreKeys.Generate.{KeyLibrary}
use sigchat.Account.Link.{Linking, Linked, set_all, link_entries, last_entries, optional_entry}

module _ {Host : Type 0} (a : Account Host) where
  -- No assignment moves an account to another dictionary.
  assign-pddb_dict :
      (key : Bytes) (value : Option Bytes) (a' : Account Host)
      → assign a key value ≡ updated a'
      → a'.pddb_dict ≡ a.pddb_dict
  unfolding assign
  assign-pddb_dict key value a' e = ground arith

  Assigned-cases :
      (r : Assigned Host)
      → ((a' : Account Host) × (r ≡ updated a')) ⊎ ((r ≡ invalid_key) ⊎ (r ≡ unwrap_failed))
  Assigned-cases (updated a') = inl (a', refl)
  Assigned-cases invalid_key = inr (inl refl)
  Assigned-cases unwrap_failed = inr (inr refl)

module _ {Host : Type 0} (p : Pddb) where
  -- What a set that succeeds makes of the database and the dictionary.
  set_state :
      (key : Bytes) (value : Option Bytes) (a : Account Host) (s : p.Store)
      → (set p key value (a, s)).0 ≡ ok tt
      → ((set p key value (a, s)).1.1 ≡ (Values.set p a.pddb_dict key value s).1)
        × ((set p key value (a, s)).1.0.pddb_dict ≡ a.pddb_dict)
  unfolding set
  set_state key value a s e =
      let written = (Values.get-set_ok p a.pddb_dict key value s).0 in
      elim (Assigned-cases a (assign a key value)) [
        | inl (a', h) ↦
            let same = assign-pddb_dict a key value a' h in ground (arith, written, h, same)
        | inr (inl h) ↦ ground (arith, written, h, e)
        | inr (inr h) ↦ ground (arith, written, h, e)
      ]

-- The value that the last entry of a key sets.
abbrev pub or_later : Option (Option Bytes) → Option (Option Bytes) → Option (Option Bytes)
or_later earlier (some value) = some value
or_later earlier none = earlier

unfoldable pub last_value : Bytes → List (Bytes × Option Bytes) → Option (Option Bytes)
last_value key [] = none
last_value key ((k, value) ∷ entries) =
    or_later (if bytes_eq k key then some value else none) (last_value key entries)

abbrev pub or_held : Option (Option Bytes) → Option Bytes → Option Bytes
or_held none held = held
or_held (some value) held = value

module _ {Host : Type 0} (x : Linking Host) (l : PddbLaws x.pddb) where
  open x use {pddb}
  open l use {contents}

  or_held-later :
      (b : Bool) (value held : Option Bytes) (later : Option (Option Bytes))
      → or_held later (if b then value else held)
        ≡ or_held (or_later (if b then some value else none) later) held
  or_held-later true value held none = refl
  or_held-later false value held none = refl
  or_held-later true value held (some v) = refl
  or_held-later false value held (some v) = refl

  -- Sets that all succeed leave each key of the account's dictionary with the value that it was last set
  -- to, and every key that they do not name as it was.
  pub contents-set_all :
      (entries : List (Bytes × Option Bytes)) (a : Account Host) (s : pddb.Store) (key : Bytes)
      → (set_all x entries (a, s)).0 ≡ ok tt
      → contents (set_all x entries (a, s)).1.1 a.pddb_dict key
        ≡ or_held (last_value key entries) (contents s a.pddb_dict key)
  unfolding set_all last_value
  contents-set_all [] a s key e = refl
  contents-set_all ((k, value) ∷ entries) a s key e =
      with_ok (continue_ok (set pddb k value (a, s)).0 (λ _. set_all x entries) _ _ e)
        λ u done rest.
          let next = (set pddb k value (a, s)).1 in
          let (stored, same) = set_state pddb k value a s done in
          let now =
            ap (λ st. contents st a.pddb_dict key) stored
            ∙ Values.contents-set pddb l s a.pddb_dict k value a.pddb_dict key in
          let later =
            subst
              (λ d.
                contents (set_all x entries next).1.1 d key
                ≡ or_held (last_value key entries) (contents next.1 d key))
              same (contents-set_all entries next.0 next.1 key rest) in
          ap (λ r. contents (continue r (λ _. set_all x entries) next).1.1 a.pddb_dict key) done
          ∙ (later
              ∙ (ap (or_held (last_value key entries)) now
                  ∙ (ap
                        (λ b.
                          or_held (last_value key entries)
                            (if b && bytes_eq k key then value else contents s a.pddb_dict key))
                        (bytes_eq_refl a.pddb_dict)
                      ∙ or_held-later (bytes_eq k key) value (contents s a.pddb_dict key)
                          (last_value key entries))))

or_later-none : (o : Option (Option Bytes)) → or_later none o ≡ o
or_later-none none = refl
or_later-none (some v) = refl

last_value-optional :
    (key other : Bytes) (o : Option Bytes) (rest : List (Bytes × Option Bytes))
    → bytes_eq other key ≡ false
    → last_value key (optional_entry other o ++ rest) ≡ last_value key rest
unfolding last_value
last_value-optional key other none rest h = refl
last_value-optional key other (some v) rest h = rw h (or_later-none (last_value key rest))

module _ {k : KeyLibrary} (m : ProvisionMessage) (r : Linked k) where
  -- The entries of a link that the stores read.
  pub link_registration_id :
      last_value registration_id_key (link_entries m r) ≡ some (some (show r.registration_id))
  unfolding last_value link_entries bytes_eq
  link_registration_id =
      rw
        (last_value-optional registration_id_key account_entropy_pool_key m.account_entropy_pool
          (last_entries r) refl)
        refl

  pub link_private_key :
      last_value aci_identity_private_key (link_entries m r) ≡ some (some m.aci.djb_private_key.key)
  unfolding last_value link_entries bytes_eq
  link_private_key =
      rw
        (last_value-optional aci_identity_private_key account_entropy_pool_key
          m.account_entropy_pool (last_entries r) refl)
        refl

  pub link_public_key :
      last_value aci_identity_public_key (link_entries m r) ≡ some (some m.aci.djb_identity_key.key)
  unfolding last_value link_entries bytes_eq
  link_public_key =
      rw
        (last_value-optional aci_identity_public_key account_entropy_pool_key m.account_entropy_pool
          (last_entries r) refl)
        refl
