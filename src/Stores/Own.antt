-- ===== src/Stores/Own.antt =====
-- `get_identity_key_pair` and `get_local_registration_id` of `PddbIdentityStore` in
-- src/manager/stores.rs: what the device itself is, as the account holds it.
use sigchat.Base.{
  ℕ, ◌<◌, ◌^◌, ◌≡◌, refl, ap, sym, ◌∙◌, false, Option, none, some, Result, ok, err, ok_or, arith,
  Exec, pure, lift, ◌>>=◌, take_all, length, ltb, true, ◌≤◌, [], ◌∷◌, if◌then◌else◌, All,
}
use sigchat.Text.{Bytes, codes}
use sigchat.Text.Decimal.{parse_u32, show, IsDigit, All-show, length-show}
use sigchat.Text.Trim.{trim, IsPlain, trim-plain}
use sigchat.Text.Utf8.{from_utf8, is_utf8-ascii}
use sigchat.Io.{ErrorKind}
use sigchat.Pddb.{Pddb, PddbLaws}
use sigchat.Signal.{SignalProtocolError, invalid_state}
use sigchat.Account.Values

-- The keys of libsignal, and the base64 crate's `URL_SAFE_NO_PAD`.
pub record OwnKeys : Type 1 where
  pub PrivateKey : Type 0
  pub IdentityKey : Type 0
  pub url_safe_decode : Bytes → Option Bytes
  pub private_deserialize : Bytes → Result SignalProtocolError PrivateKey
  pub identity_decode : Bytes → Result SignalProtocolError IdentityKey

module _ (p : Pddb) where
  open p use {Store, Handle}

  abbrev read_string : Result ErrorKind Handle → Store → Option Bytes × Store
  read_string (ok handle) s = let (r, s') = p.read handle 256 s in (Values.string_of r, s')
  read_string (err e) s = (none, s)

  unfoldable pub read_account_string : Bytes → Bytes → Store → Option Bytes × Store
  read_account_string dict key s = let (r, s') = p.get dict key false s in read_string r s'

  -- A value, or the error of its absence.
  abbrev required_string : Bytes → Bytes → Bytes → Exec SignalProtocolError Store Bytes
  required_string missing dict key s =
      let (v, s') = read_account_string dict key s in
      (ok_or v (invalid_state (codes "pddb") missing), s')

  abbrev invalid_base64 : Bytes → Option Bytes → Result SignalProtocolError Bytes
  invalid_base64 context o = ok_or o (invalid_state (codes "pddb") context)

  unfoldable pub get_identity_key_pair :
      (k : OwnKeys) → Bytes → Exec SignalProtocolError Store (k.IdentityKey × k.PrivateKey)
  get_identity_key_pair k account_dict = do
    priv_b64 ←
        required_string (codes "aci identity key not found") account_dict
          (codes "aci.identity.private")
    pub_b64 ←
        required_string (codes "aci identity key not found") account_dict
          (codes "aci.identity.public")
    priv_bytes ← lift (invalid_base64 (codes "priv base64") (k.url_safe_decode (trim priv_b64)))
    pub_bytes ← lift (invalid_base64 (codes "pub base64") (k.url_safe_decode (trim pub_b64)))
    private_key ← lift (k.private_deserialize priv_bytes)
    identity_key ← lift (k.identity_decode pub_bytes)
    pure (identity_key, private_key)

  abbrev parse_trimmed : Option Bytes → Option ℕ
  parse_trimmed none = none
  parse_trimmed (some s) = parse_u32 (trim s)

  unfoldable pub get_local_registration_id : Bytes → Exec SignalProtocolError Store ℕ
  get_local_registration_id account_dict s =
      let (v, s') = read_account_string account_dict (codes "registration_id") s in
      (
        ok_or (parse_trimmed v) (invalid_state (codes "pddb") (codes "registration_id not found")),
        s',
      )

  read_string-read_value :
      (r : Result ErrorKind Handle) (s : Store)
      → Values.read_value p r s ≡ (ok (read_string r s).0, (read_string r s).1)
  read_string-read_value (ok handle) s = refl
  read_string-read_value (err e) s = refl

  -- The stores read a value of the account as the account itself does.
  pub read_account_string-get :
      (dict key : Bytes) (s : Store)
      → Values.get p dict key s
        ≡ (ok (read_account_string dict key s).0, (read_account_string dict key s).1)
  unfolding read_account_string Values.get
  read_account_string-get dict key s =
      read_string-read_value (p.get dict key false s).0 (p.get dict key false s).1

-- What such a read shows of a value: all of it, for a plain text that fits.
abbrev pub IsShort : Bytes → Type 0
IsShort v = (Values.read_back (some v) ≡ some v) × All IsPlain v

ascii-IsPlain : (v : Bytes) → All IsPlain v → All (λ c. ltb c 0x80 ≡ true) v
ascii-IsPlain [] h = tt
ascii-IsPlain (c ∷ v) (hc, hs) = (ground arith, ascii-IsPlain v hs)

pub plain-IsShort : (v : Bytes) → All IsPlain v → length v ≤ 256 → IsShort v
unfolding from_utf8
plain-IsShort v plain le = (
  ap from_utf8 (take_all 256 v le)
      ∙ ap (λ b. if b then some v else none) (is_utf8-ascii v (ascii-IsPlain v plain)),
  plain,
)

digits-IsPlain : (v : Bytes) → All IsDigit v → All IsPlain v
digits-IsPlain [] h = tt
digits-IsPlain (c ∷ v) (hc, hs) = (omega (arith, hc), digits-IsPlain v hs)

pub show-IsShort : (n : ℕ) → n < 2 ^ 32 → IsShort (show n)
show-IsShort n lt =
    plain-IsShort (show n) (digits-IsPlain (show n) (All-show n)) (omega (arith, length-show n lt))

module _ (p : Pddb) (l : PddbLaws p) where
  open p use {Store}
  open l use {contents}

  read_found :
      (dict key v : Bytes) (s : Store)
      → contents s dict key ≡ some v
      → IsShort v
      → (read_account_string p dict key s).0 ≡ some v
  read_found dict key v s h short =
      let e = Values.get_found p l s dict key (some v) h in
      cc (e, read_account_string-get p dict key s, short.0)

  contents-read_account_string :
      (dict key : Bytes) (s : Store) (d' k' : Bytes)
      → contents (read_account_string p dict key s).1 d' k' ≡ contents s d' k'
  contents-read_account_string dict key s d' k' =
      ap (λ (r : Result ErrorKind (Option Bytes) × Store). contents r.1 d' k')
        (sym (read_account_string-get p dict key s))
      ∙ Values.contents-get p l s dict key d' k'

  -- The registration id that the account holds as a decimal text is the one that the store answers.
  pub get_local_registration_id-contents :
      (dict v : Bytes) (n : ℕ) (s : Store)
      → contents s dict (codes "registration_id") ≡ some v
      → IsShort v
      → parse_u32 v ≡ some n
      → (get_local_registration_id p dict s).0 ≡ ok n
  unfolding get_local_registration_id
  get_local_registration_id-contents dict v n s h short e =
      rw (read_found dict (codes "registration_id") v s h short)
        (rw (trim-plain v short.1) (rw e refl))

  -- The key pair whose base64 the account holds is the one that the store answers.
  pub get_identity_key_pair-contents :
      (k : OwnKeys) (dict v w vb wb : Bytes) (sk : k.PrivateKey) (ik : k.IdentityKey) (s : Store)
      → contents s dict (codes "aci.identity.private") ≡ some v
      → contents s dict (codes "aci.identity.public") ≡ some w
      → IsShort v
      → IsShort w
      → k.url_safe_decode v ≡ some vb
      → k.url_safe_decode w ≡ some wb
      → k.private_deserialize vb ≡ ok sk
      → k.identity_decode wb ≡ ok ik
      → (get_identity_key_pair p k dict s).0 ≡ ok (ik, sk)
  unfolding get_identity_key_pair
  get_identity_key_pair-contents k dict v w vb wb sk ik s hv hw sv sw ev ew esk eik =
      let s1 = (read_account_string p dict (codes "aci.identity.private") s).1 in
      let there =
        contents-read_account_string dict (codes "aci.identity.private") s dict
          (codes "aci.identity.public")
        ∙ hw in
      rw (read_found dict (codes "aci.identity.private") v s hv sv) (
        rw (read_found dict (codes "aci.identity.public") w s1 there sw)
          (rw (trim-plain v sv.1, trim-plain w sw.1) (rw (ev, ew, esk, eik) refl)))
