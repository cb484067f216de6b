-- ===== src/MainWs/Envelope/Trust.antt =====
-- Which envelopes are opened, and whose they are.
use sigchat.Base.{
  map_err, continue, Bool, pure, ℕ, ◌<◌, ◌≡◌, ◌≢◌, ◌⊎◌, refl, true, false, some, Result, ok, err,
  unwrap_or, arith, continue_ok, with_ok, map_err_ok,
}
use sigchat.Text.{Bytes}
use sigchat.Pddb.{Pddb}
use sigchat.Signal.{Addresses, SignalProtocolError}
use sigchat.MainWs.Proto.{
  Envelope, Decoder, envelope_ciphertext, envelope_prekey_bundle, envelope_unidentified_sender,
}
use sigchat.MainWs.World.{World}
use sigchat.MainWs.Envelope.{
  Protocol, Dropped, trust_roots, open_sealed, open_plain, source_device_id, open_envelope,
  dispatch_envelope, accepted, decrypt_inner,
}

module _ (p : Pddb) (ad : Addresses) (proto : Protocol p ad) where
  open ad use {ProtocolAddress, DeviceId, address_new}
  open proto use {Usmc, SenderCert}

  accepted_ok : (r : Result SignalProtocolError Bool) → accepted p ad proto r ≡ ok tt → r ≡ ok true
  accepted_ok (ok true) h = refl
  accepted_ok (ok false) h = cc
  accepted_ok (err e) h = cc

  opened_from :
      {from remote_addr : ProtocolAddress} {plaintext : Bytes} (r : Result Dropped Bytes)
      (s : p.Store)
      → (continue {B = ProtocolAddress × Bytes} r (λ plain. pure (remote_addr, plain)) s).0
        ≡ ok (from, plaintext)
      → from ≡ remote_addr
  opened_from (ok plain) s h = cc
  opened_from (err e) s h = cc

  -- A sealed envelope is opened only under a certificate that the trust roots accept at the server's
  -- time, and its sender is the one that this certificate names.
  pub open_sealed_sound :
      (content : Bytes) (local_addr : ProtocolAddress) (ts : ℕ) (s : p.Store)
      (from : ProtocolAddress) (plaintext : Bytes)
      → (open_sealed p ad proto content local_addr ts s).0 ≡ ok (from, plaintext)
      → (usmc : Usmc) × (cert : SenderCert) × (uuid : Bytes) × (device : DeviceId)
        × ((proto.sealed_sender_decrypt_to_usmc content s).0 ≡ ok usmc)
        × (proto.sender usmc ≡ ok cert)
        × (proto.validate_with_trust_roots cert (trust_roots p ad proto) ts ≡ ok true)
        × (proto.sender_uuid cert ≡ ok uuid)
        × (proto.sender_device_id cert ≡ ok device)
        × (from ≡ address_new uuid device)
  unfolding open_sealed
  open_sealed_sound content local_addr ts s from plaintext h =
      with_ok
        (continue_ok {S = p.Store}
          (map_err (λ _. Dropped.bad_usmc) (proto.sealed_sender_decrypt_to_usmc content s).0) _ _ _
          h)
        λ usmc e1 h1.
          with_ok
            (continue_ok {S = p.Store} (map_err (λ _. Dropped.bad_sender) (proto.sender usmc)) _ _ _
              h1)
            λ cert e2 h2.
              with_ok
                (continue_ok {S = p.Store}
                  (accepted p ad proto
                    (proto.validate_with_trust_roots cert (trust_roots p ad proto) ts))
                  _ _ _ h2)
                λ u e3 h3.
                  with_ok
                    (continue_ok {S = p.Store}
                      (map_err (λ _. Dropped.bad_sender_id) (proto.sender_uuid cert)) _ _ _ h3)
                    λ uuid e4 h4.
                      with_ok
                        (continue_ok {S = p.Store}
                          (map_err (λ _. Dropped.bad_sender_id) (proto.sender_device_id cert)) _ _ _
                          h4)
                        λ device e5 h5. (
                          usmc,
                          cert,
                          uuid,
                          device,
                          map_err_ok _ _ _ e1,
                          map_err_ok _ _ _ e2,
                          accepted_ok _ e3,
                          map_err_ok _ _ _ e4,
                          map_err_ok _ _ _ e5,
                          opened_from
                              (decrypt_inner p ad proto usmc (address_new uuid device) local_addr
                                (proto.msg_type usmc)
                                (proto.sealed_sender_decrypt_to_usmc content s).1).0
                              _ h5,
                        )

  module _ (decoder : Decoder) where
    -- A sealed envelope whose certificate is not accepted shows nothing and sends nothing; the database
    -- is as opening the seal left it, so no message of it was decrypted.
    pub dispatch_envelope-untrusted :
        (body content : Bytes) (envelope : Envelope) (local_addr : ProtocolAddress) (w : World p)
        (usmc : Usmc) (cert : SenderCert) (s : p.Store)
        → decoder.envelope body ≡ some envelope
        → envelope.content ≡ some content
        → envelope.type_code ≡ some envelope_unidentified_sender
        → proto.sealed_sender_decrypt_to_usmc content w.db ≡ (ok usmc, s)
        → proto.sender usmc ≡ ok cert
        → proto.validate_with_trust_roots cert
            (trust_roots p ad proto)
            (unwrap_or envelope.server_timestamp 0)
          ≢ ok true
        → dispatch_envelope p ad proto decoder body local_addr w ≡ (ok tt, record w { db = s })
    unfolding dispatch_envelope open_envelope open_sealed
    dispatch_envelope-untrusted body content envelope local_addr w usmc cert s de co ty us ce bad =
        ground arith

    -- An envelope that is not sealed and is neither a ciphertext nor a pre-key bundle, or whose device is
    -- not a number from 1 to 127 (1 if none is given), changes nothing at all.
    pub dispatch_envelope-unhandled :
        (body : Bytes) (envelope : Envelope) (local_addr : ProtocolAddress) (w : World p)
        (env_type : ℕ)
        → decoder.envelope body ≡ some envelope
        → unwrap_or envelope.type_code 0 ≡ env_type
        → env_type ≢ envelope_unidentified_sender
        → ((env_type ≢ envelope_ciphertext) × (env_type ≢ envelope_prekey_bundle))
          ⊎ ((unwrap_or envelope.source_device 1 ≡ 0) ⊎ (127 < unwrap_or envelope.source_device 1))
        → dispatch_envelope p ad proto decoder body local_addr w ≡ (ok tt, w)
    unfolding dispatch_envelope open_envelope open_plain source_device_id
    dispatch_envelope-unhandled body envelope local_addr w env_type de ty plain why = ground arith
