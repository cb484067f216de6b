-- ===== src/Provision/Sealed.antt =====
-- What a provision envelope must hold to be opened, and that the primary device's envelopes are.
use sigchat.Base.{
  ◌-◌, ◌≤◌, ◌≡◌, refl, ap, ◌∙◌, sym, subst, Bool, true, false, [], ◌∷◌, ◌++◌, Option, none, some,
  Result, ok, with_ok, length, take, drop, arith, append-take-drop, length-take, length-drop,
  length-append, take_front, drop_front, append_assoc,
}
use sigchat.Base.Try.{◌>>=◌, bind_ok, ok_or_ok}
use sigchat.Text.{Bytes}
use sigchat.Io.{ErrorKind}
use sigchat.PreKeys.Generate.{KeyLibrary}
use sigchat.Provision.Types.{
  ProvisionEnvelope, ProvisionMessageProto, IdentityKeyPair, ProvisionMessage, Ciphers,
}
use sigchat.Provision.Cipher.{
  required, checked_body, accept_tag, envelope_parts, derive_keys, open_body, message_of, decrypt,
}

checked_body_ok :
    (body body' : Bytes)
    → checked_body body ≡ ok body'
    → (rest : Bytes) × (body' ≡ 1 ∷ rest) × (65 ≤ length body') × (body ≡ body')
unfolding checked_body
checked_body_ok [] body' h = cc
checked_body_ok (v ∷ rest) body' h = (rest, ground arith, ground arith, ground arith)

required_ok {ℓ κ} :
    {A : Type ℓ} {B : Type κ} (o : Option A) (f : A → Result ErrorKind B) (b : B)
    → (required o >>= f) ≡ ok b
    → (a : A) × (o ≡ some a) × (f a ≡ ok b)
required_ok none f b h = cc
required_ok (some a) f b h = (a, refl, h)

ok_parts :
    (a b x y : Bytes)
    → Path (Result ErrorKind (Bytes × Bytes)) (ok (x, y)) (ok (a, b))
    → (a ≡ x) × (b ≡ y)
ok_parts a b x y h = (cc, cc)

accept_tag_ok : (b : Bool) → accept_tag b ≡ ok tt → b ≡ true
accept_tag_ok true h = refl
accept_tag_ok false h = cc

-- A body of at least 65 bytes: its version and rest, cut into IV, ciphertext and tag.
cut_body :
    (rest : Bytes)
    → 65 ≤ length (1 ∷ rest)
    → (iv : Bytes) × (ciphertext : Bytes) × (tag : Bytes) × (rest ≡ iv ++ (ciphertext ++ tag))
      × (length iv ≡ 16)
      × (16 ≤ length ciphertext)
      × (length tag ≡ 32)
cut_body rest h =
    let n = length rest - 48 in
    let behind = drop 16 rest in
    (
      take 16 rest,
      take n behind,
      drop n behind,
      sym (ap (λ xs. take 16 rest ++ xs) (append-take-drop n behind) ∙ append-take-drop 16 rest),
      length-take 16 rest (omega (arith, h)),
      omega (arith, h, length-take n behind (omega (arith, length-drop 16 rest, h))),
      omega (arith, h, length-drop n behind, length-drop 16 rest),
    )

module _ (k : KeyLibrary) (l : Ciphers k) where
  -- What `open_body` does with the parts of a body.
  abbrev pub open_parts : Bytes → Bytes → Bytes → Bytes → Bytes → Result ErrorKind Bytes
  open_parts aes_key mac_key iv ciphertext tag = do
    verified ← required (l.verify mac_key (1 ∷ (iv ++ ciphertext)) tag)
    _ ← accept_tag verified
    decryptor ← required (l.decryptor aes_key iv)
    required (l.decrypt_padded decryptor ciphertext)

  pub open_body-parts :
      (aes_key mac_key iv ciphertext tag : Bytes)
      → length iv ≡ 16
      → length tag ≡ 32
      → open_body k l aes_key mac_key (1 ∷ (iv ++ (ciphertext ++ tag)))
        ≡ open_parts aes_key mac_key iv ciphertext tag
  unfolding open_body
  open_body-parts aes_key mac_key iv ciphertext tag h16 h32 =
      let front = 1 ∷ (iv ++ ciphertext) in
      let body = 1 ∷ (iv ++ (ciphertext ++ tag)) in
      let whole : body ≡ front ++ tag = ap (λ xs. 1 ∷ xs) (sym (append_assoc iv ciphertext tag)) in
      let n : length front ≡ length body - 32 =
        omega (arith, h32, length-append front tag, ap (λ xs. length xs) whole) in
      let signed = ap (take (length body - 32)) whole ∙ take_front _ front tag n in
      let tagged = ap (drop (length body - 32)) whole ∙ drop_front _ front tag n in
      let vector = take_front 16 iv (ciphertext ++ tag) h16 in
      let inner = drop_front 16 iv ciphertext h16 in rw (signed, tagged, vector, inner) refl

  open_parts_ok :
      (aes_key mac_key iv ciphertext tag plaintext : Bytes)
      → open_parts aes_key mac_key iv ciphertext tag ≡ ok plaintext
      → (decryptor : l.Decryptor) × (l.verify mac_key (1 ∷ (iv ++ ciphertext)) tag ≡ some true)
        × (l.decryptor aes_key iv ≡ some decryptor)
        × (l.decrypt_padded decryptor ciphertext ≡ some plaintext)
  open_parts_ok aes_key mac_key iv ciphertext tag plaintext h =
      with_ok (required_ok (l.verify mac_key (1 ∷ (iv ++ ciphertext)) tag) _ _ h) λ verified e1 h1.
        with_ok (bind_ok (accept_tag verified) _ _ h1) λ u e2 h2.
          with_ok (required_ok (l.decryptor aes_key iv) _ _ h2) λ decryptor e3 h3. (
            decryptor,
            e1 ∙ ap some (accept_tag_ok verified e2),
            e3,
            ok_or_ok (l.decrypt_padded decryptor ciphertext) _ _ h3,
          )

  envelope_ext :
      (e : ProvisionEnvelope) (a b : Bytes)
      → e.public_key ≡ some a
      → e.body ≡ some b
      → e ≡ record { public_key = some a; body = some b }
  envelope_ext e a b h g = rw (sym h, sym g) refl

  envelope_parts_ok :
      (bytes ephemeral body : Bytes)
      → envelope_parts k l bytes ≡ ok (ephemeral, body)
      → (rest : Bytes) × (body ≡ 1 ∷ rest)
        × (65 ≤ length body)
        × (l.decode_envelope bytes
            ≡ some (record { public_key = some ephemeral; body = some body }))
  unfolding envelope_parts
  envelope_parts_ok bytes ephemeral body h =
      with_ok (required_ok (l.decode_envelope bytes) _ _ h) λ envelope e1 h1.
        with_ok (required_ok envelope.public_key _ _ h1) λ public e2 h2.
          with_ok (required_ok envelope.body _ _ h2) λ body' e3 h3.
            with_ok (bind_ok (checked_body body') _ _ h3) λ body'' e4 h4.
              let (same_public, same_body) = ok_parts _ _ _ _ h4 in
              let (rest, one, long, same) = checked_body_ok body' body'' e4 in
              (
                rest,
                same_body ∙ one,
                subst (λ b. 65 ≤ length b) (sym same_body) long,
                e1
                    ∙ ap some (
                        envelope_ext envelope ephemeral body (e2 ∙ ap some (sym same_public))
                          (e3 ∙ ap some (same ∙ sym same_body))),
              )

  -- An envelope is opened to a message only where its body is the version byte 1, an IV of 16 bytes, a
  -- ciphertext of at least 16 and a tag of 32 bytes, and the tag verifies, under the MAC key that is
  -- derived from the temporary private key and the envelope's public key, the version, the IV and the
  -- ciphertext; the message is what the decrypted ciphertext decodes to, and it names an ACI key pair.
  pub decrypt_sound :
      (temp_identity : IdentityKeyPair) (bytes : Bytes) (m : ProvisionMessage)
      → decrypt k l temp_identity bytes ≡ ok m
      → (ephemeral aes_key mac_key iv ciphertext tag plaintext : Bytes)
        × (msg : ProvisionMessageProto) × (l.decode_envelope bytes
            ≡ some (record {
              public_key = some ephemeral;
              body = some (1 ∷ (iv ++ (ciphertext ++ tag)));
            }))
        × (length iv ≡ 16)
        × (16 ≤ length ciphertext)
        × (length tag ≡ 32)
        × (derive_keys k l temp_identity ephemeral ≡ ok (aes_key, mac_key))
        × (l.verify mac_key (1 ∷ (iv ++ ciphertext)) tag ≡ some true)
        × (decryptor : l.Decryptor) × (l.decryptor aes_key iv ≡ some decryptor)
        × (l.decrypt_padded decryptor ciphertext ≡ some plaintext)
        × (l.decode_provision_message plaintext ≡ some msg)
        × (message_of k l msg ≡ ok m)
  unfolding decrypt
  decrypt_sound temp_identity bytes m h =
      with_ok (bind_ok (envelope_parts k l bytes) _ _ h) λ parts e1 h1.
        with_ok (bind_ok (derive_keys k l temp_identity parts.0) _ _ h1) λ keys e2 h2.
          with_ok (bind_ok (open_body k l keys.0 keys.1 parts.1) _ _ h2) λ plaintext e3 h3.
            with_ok (required_ok (l.decode_provision_message plaintext) _ _ h3) λ msg e4 h4.
              let (rest, one, long, decoded) = envelope_parts_ok bytes parts.0 parts.1 e1 in
              let (iv, ciphertext, tag, cut, n, c, t) =
                cut_body rest (subst (λ b. 65 ≤ length b) one long) in
              let whole = one ∙ ap (λ r. 1 ∷ r) cut in
              let opened =
                sym (open_body-parts keys.0 keys.1 iv ciphertext tag n t)
                ∙ ap (open_body k l keys.0 keys.1) (sym whole)
                ∙ e3 in
              let (decryptor, v, d, p) =
                open_parts_ok keys.0 keys.1 iv ciphertext tag plaintext opened in
              (
                parts.0,
                keys.0,
                keys.1,
                iv,
                ciphertext,
                tag,
                plaintext,
                msg,
                decoded
                    ∙ ap (λ b. some (record { public_key = some parts.0; body = some b })) whole,
                n,
                c,
                t,
                e2,
                v,
                decryptor,
                d,
                p,
                e4,
                h4,
              )
