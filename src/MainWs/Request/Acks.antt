-- ===== src/MainWs/Request/Acks.antt =====
-- Every request of the server is answered.
use sigchat.Base.{
  ℕ, ◌≡◌, inl, inr, refl, [], ◌∷◌, ◌++◌, append-nil, List, Option, none, some, Result, ok, err,
  unwrap_or, arith, Option-cases,
}
use sigchat.Text.{Bytes}
use sigchat.Pddb.{Pddb}
use sigchat.Signal.{Addresses}
use sigchat.MainWs.Proto.{WsRequest, Envelope, Decoder}
use sigchat.MainWs.World.{World, Frame, Panic, binary}
use sigchat.MainWs.Deliver.Effects.{sent-deliver_content}
use sigchat.MainWs.Envelope.{
  Protocol, Dropped, open_envelope, deliver_opened, dispatch_decoded, dispatch_envelope,
}
use sigchat.MainWs.Request.{ack, handle_request}

module _ (p : Pddb) (ad : Addresses) (proto : Protocol p ad) (decoder : Decoder) where
  open ad use {ProtocolAddress}

  sent-deliver_opened :
      (ts : ℕ) (r : Result Dropped (ProtocolAddress × Bytes)) (w : World p)
      → (deliver_opened p ad proto decoder ts r w).1.sent ≡ w.sent
  sent-deliver_opened ts (ok (a, plaintext)) w = sent-deliver_content p ad decoder plaintext a ts w
  sent-deliver_opened ts (err reason) w = refl

  sent-dispatch_decoded :
      (o : Option Envelope) (a : ProtocolAddress) (w : World p)
      → (dispatch_decoded p ad proto decoder o a w).1.sent ≡ w.sent
  sent-dispatch_decoded none a w = refl
  sent-dispatch_decoded (some envelope) a w =
      let (r, s) = open_envelope p ad proto envelope a w.db in
      sent-deliver_opened (unwrap_or envelope.server_timestamp 0) r (record w { db = s })

  sent-dispatch_envelope :
      (body : Bytes) (a : ProtocolAddress) (w : World p)
      → (dispatch_envelope p ad proto decoder body a w).1.sent ≡ w.sent
  unfolding dispatch_envelope
  sent-dispatch_envelope body a w = sent-dispatch_decoded (decoder.envelope body) a w

  -- What a request adds to what was sent: one acknowledgement, or nothing where delivery panicked.
  abbrev pub answer : Result Panic (Unit {0}) → Option ℕ → List Frame
  answer (ok _) id = binary (ack (unwrap_or id 0) 200) ∷ []
  answer (err _) id = []

  -- Every request, of any verb, path and body, gets exactly one acknowledgement, with its id (0 if it has
  -- none) and status 200, whether or not its envelope could be opened; a panic of the
  -- delivery leaves it without one.
  pub sent-handle_request :
      (req : WsRequest) (a : ProtocolAddress) (w : World p)
      → (handle_request p ad proto decoder req a w).1.sent
        ≡ w.sent ++ answer (handle_request p ad proto decoder req a w).0 req.id
  unfolding handle_request
  sent-handle_request req a w = elim (Option-cases req.body) [
    | inl none_there ↦ ground (arith, none_there)
    | inr (body, there) ↦ ground (arith, there, sent-dispatch_envelope body a w, append-nil w.sent)
  ]
