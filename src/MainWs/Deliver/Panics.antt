-- ===== src/MainWs/Deliver/Panics.antt =====
-- Where delivering a sync message panics: it cuts the recipient's service id behind its eighth byte.
use sigchat.Base.{
  ℕ, zero, suc, ◌≤◌, min, ◌≡◌, ◌≢◌, refl, [], ◌∷◌, true, false, Option, none, some, err, unwrap_or,
  arith, ap, sym, ◌∙◌, ltb, leb, not, ◌&&◌, Bool, Result, ok, if◌then◌else◌, length, get_elem?, All,
}
use native.Mathlib.Decide.{dec_le}
use sigchat.Text.{Bytes}
use sigchat.Text.Utf8.{is_char_boundary, slice_to}
use sigchat.Pddb.{Pddb}
use sigchat.MainWs.Proto.{DataMessage, SentMessage, SyncMessage}
use sigchat.MainWs.World.{World, Panic, not_char_boundary}
use sigchat.MainWs.Deliver.{is_empty, sync_body, sync_message, sync_sent, deliver_sync_message}

abbrev IsAscii : Bytes → Type 0
IsAscii s = All (λ c. ltb c 0x80 ≡ true) s

get_elem?-IsAscii : (s : Bytes) (i c : ℕ) → IsAscii s → get_elem? s i ≡ some c → ltb c 0x80 ≡ true
get_elem?-IsAscii [] i c h e = cc
get_elem?-IsAscii (b ∷ s) zero c (hb, hs) e = ground arith
get_elem?-IsAscii (b ∷ s) (suc i) c (hb, hs) e = get_elem?-IsAscii s i c hs e

get_elem?-none : (s : Bytes) (i : ℕ) → i ≤ length s → get_elem? s i ≡ none → i ≡ length s
get_elem?-none [] i le e = omega arith
get_elem?-none (b ∷ s) zero le e = cc
get_elem?-none (b ∷ s) (suc i) le e = omega (arith, get_elem?-none s i (omega arith) e)

boundary_in_ascii : (s : Bytes) (i : ℕ) → IsAscii s → i ≤ length s → is_char_boundary s i ≡ true
unfolding is_char_boundary
boundary_in_ascii s i h le = go (get_elem? s i) refl
  where
    go : (o : Option ℕ) → get_elem? s i ≡ o → is_char_boundary s i ≡ true
    go none e = ground (arith, get_elem?-none s i le e)
    go (some c) e = ground (arith, get_elem?-IsAscii s i c h e)

get_elem?-past : (s : Bytes) (i : ℕ) → length s ≤ i → get_elem? s i ≡ none
get_elem?-past [] i le = refl
get_elem?-past (b ∷ s) zero le = elim le [ ]
get_elem?-past (b ∷ s) (suc i) le = get_elem?-past s i (omega arith)

-- A byte that is there and continues a character: 0x80 to 0xbf.
abbrev pub continues : Option ℕ → Bool
continues none = false
continues (some c) = leb 0x80 c && ltb c 0xc0

boundary_at_end : (s : Bytes) → is_char_boundary s (length s) ≡ true
unfolding is_char_boundary
boundary_at_end s = ground (arith, get_elem?-past s (length s) (omega arith))

boundary_at_byte :
    (s : Bytes) (o : Option ℕ)
    → get_elem? s 8 ≡ o
    → (length s ≤ 8 → ⊥)
    → is_char_boundary s 8 ≡ not (continues (get_elem? s 8))
unfolding is_char_boundary
boundary_at_byte s none e long = absurd (long (omega (arith, get_elem?-none s 8 (omega arith) e)))
boundary_at_byte s (some c) e long = ground (arith, e)

-- Cut at eight bytes, a text is cut inside a character where its ninth byte continues one.
boundary_at_eight :
    (s : Bytes) → is_char_boundary s (min (length s) 8) ≡ not (continues (get_elem? s 8))
boundary_at_eight s = elim (dec_le (length s) 8) [
  | yes short ↦
      let at : min (length s) 8 ≡ length s = omega arith in
      ap (is_char_boundary s) at
      ∙ (boundary_at_end s ∙ sym (ap (λ o. not (continues o)) (get_elem?-past s 8 short)))
  | no long ↦
      let at : min (length s) 8 ≡ 8 = omega arith in
      ap (is_char_boundary s) at ∙ boundary_at_byte s (get_elem? s 8) refl long
]

module _ (p : Pddb) where
  -- A sync message whose recipient is ASCII, as every service id is, is delivered without a panic.
  pub deliver_sync_message-ascii :
      (sync : SyncMessage) (sent : SentMessage) (ts : ℕ) (w : World p)
      → sync.sent ≡ some sent
      → IsAscii (unwrap_or sent.destination_service_id [])
      → (deliver_sync_message p sync ts w).0 ≢ err not_char_boundary
  unfolding deliver_sync_message slice_to
  deliver_sync_message-ascii sync sent ts w e h =
      let dest = unwrap_or sent.destination_service_id [] in
      ground (arith, boundary_in_ascii dest (min (length dest) 8) h (omega arith))

  -- Where a delivery panics, the world that it leaves.
  abbrev pub panic_of : {A : Type 0} → Result Panic A × World p → Option (World p)
  panic_of (ok a, w) = none
  panic_of (err e, w) = some w

  abbrev cuts_in : SentMessage → DataMessage → Bool
  cuts_in sent dm =
      not (is_empty (unwrap_or dm.body []))
      && continues (get_elem? (unwrap_or sent.destination_service_id []) 8)

  abbrev cuts_sent : SentMessage → Option DataMessage → Bool
  cuts_sent sent none = false
  cuts_sent sent (some dm) = cuts_in sent dm

  -- A message with a body was sent, to a recipient whose ninth byte continues a character.
  abbrev pub cuts_character : Option SentMessage → Bool
  cuts_character none = false
  cuts_character (some sent) = cuts_sent sent sent.message

  sync_body-panics :
      (sent : SentMessage) (dm : DataMessage) (ts : ℕ) (w : World p)
      → panic_of (sync_body p sent dm ts w) ≡ (if cuts_in sent dm then some w else none)
  unfolding slice_to
  sync_body-panics sent dm ts w =
      ground (arith, boundary_at_eight (unwrap_or sent.destination_service_id []))

  sync_message-panics :
      (sent : SentMessage) (m : Option DataMessage) (ts : ℕ) (w : World p)
      → panic_of (sync_message p sent m ts w) ≡ (if cuts_sent sent m then some w else none)
  sync_message-panics sent none ts w = refl
  sync_message-panics sent (some dm) ts w = sync_body-panics sent dm ts w

  sync_sent-panics :
      (o : Option SentMessage) (ts : ℕ) (w : World p)
      → panic_of (sync_sent p o ts w) ≡ (if cuts_character o then some w else none)
  sync_sent-panics none ts w = refl
  sync_sent-panics (some sent) ts w = sync_message-panics sent sent.message ts w

  -- The delivery of a sync message panics exactly where it carries a sent message with a body that is not
  -- empty, to a recipient whose ninth byte continues a character; nothing was posted then. Every other
  -- sync message is delivered or passed over without a panic.
  pub deliver_sync_message-panics :
      (sync : SyncMessage) (ts : ℕ) (w : World p)
      → panic_of (deliver_sync_message p sync ts w)
        ≡ (if cuts_character sync.sent then some w else none)
  unfolding deliver_sync_message
  deliver_sync_message-panics sync ts w = sync_sent-panics sync.sent ts w
