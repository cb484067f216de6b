-- ===== src/Examples/Stores.antt =====
-- The theorems on the stores at concrete keys.
use sigchat.Stores.Entry.{seen, load-seen}
use sigchat.Base.{ℕ, ◌≡◌, refl, true, List, [], ◌∷◌, none, some, ap, ◌∙◌, ok, err, arith, ltb}
use sigchat.Text.{Bytes, codes, bytes_eq}
use sigchat.Signal.{invalid_pre_key_id, invalid_kyber_pre_key_id}
use sigchat.Stores.PreKey.{get_pre_key}
use sigchat.Text.Decimal.{show}
use sigchat.Stores.Replay.{Op, replay, run, Shows, run-replay}
use sigchat.Stores.Kyber.{mark_kyber_pre_key_used, mark_kyber_pre_key_used_again}
use sigchat.Stores.Session.{load_session, store_session, load_session-store_session}
use sigchat.Stores.Identity.{save_identity, is_trusted_identity, is_trusted_identity-save_identity}
use sigchat.Examples.Database.{database, database_laws, empty, empty_contents}
use sigchat.Examples.Library.{
  addresses, addresses_laws, bytes_codec, bytes_codec_laws, identity_keys, identity_keys_laws,
}

abbrev dict : Bytes
dict = codes "sigchat.prekey"

abbrev key : Bytes
key = 5 ∷ 9 ∷ []

abbrev bob : Bytes × ((n : ℕ) × (ltb n 128 ≡ true))
bob = (codes "bob", (1, refl))

abbrev bobs_tablet : Bytes × ((n : ℕ) × (ltb n 128 ≡ true))
bobs_tablet = (codes "bob", (2, refl))

load_session-store_session_example :
    ((store_session database dict addresses bytes_codec bob key empty).0 ≡ ok tt)
    × ((load_session database dict addresses bytes_codec bob
          (store_session database dict addresses bytes_codec bob key empty).1).0
        ≡ ok (some key))
unfolding bytes_eq
load_session-store_session_example =
    load_session-store_session database database_laws dict addresses addresses_laws bytes_codec
      bytes_codec_laws empty bob bob key key refl

is_trusted_identity-save_identity_example :
    (is_trusted_identity database dict addresses identity_keys bobs_tablet key
      (save_identity database dict addresses identity_keys bob key empty).1).0
    ≡ (is_trusted_identity database dict addresses identity_keys bobs_tablet key empty).0
unfolding is_trusted_identity bytes_eq
is_trusted_identity-save_identity_example =
    is_trusted_identity-save_identity database database_laws dict addresses addresses_laws
      identity_keys identity_keys_laws empty bob bobs_tablet key key

mark_kyber_pre_key_used_again_example :
    (mark_kyber_pre_key_used database dict
      (λ (x : Bytes). x)
      7
      3
      key
      (mark_kyber_pre_key_used database dict (λ (x : Bytes). x) 7 3 key empty).1).0
    ≡ err invalid_kyber_pre_key_id
unfolding bytes_eq
mark_kyber_pre_key_used_again_example =
    mark_kyber_pre_key_used_again database database_laws dict (λ (x : Bytes). x) empty 7 3 7 3 key
      key (omega arith) (omega arith) (omega arith) (omega arith)

abbrev ops : List (Op Bytes)
ops = Op.save 1 key ∷ Op.get 1 ∷ Op.remove 1 ∷ Op.get 1 ∷ Op.get 2 ∷ []

empty-Shows : Shows database dict bytes_codec empty (λ id. none)
unfolding get_pre_key
empty-Shows id lt =
    load-seen database database_laws (λ b. ok b) (err invalid_pre_key_id) dict (show id) empty
    ∙ ap (seen (λ b. ok b) (err invalid_pre_key_id)) (empty_contents dict (show id))

run-replay_example : run database dict bytes_codec ops empty ≡ replay ops (λ id. none)
run-replay_example =
    run-replay database database_laws dict bytes_codec bytes_codec_laws ops empty (λ id. none)
      ((omega arith, (key, refl)), (omega arith, (omega arith, (omega arith, (omega arith, tt)))))
      empty-Shows
