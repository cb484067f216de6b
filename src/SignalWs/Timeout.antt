-- ===== src/SignalWs/Timeout.antt =====
-- The read timeout of `read_once` in src/manager/signal_ws.rs.
use sigchat.Base.{
  ℕ, ◌≡◌, ◌⊎◌, inl, inr, refl, List, [], ◌∷◌, ◌++◌, append_assoc, Option, none, some, Result, ok,
  err, Result-cases,
}
use sigchat.Io.{ErrorKind}
use sigchat.SignalWs.{Sockets, read_once, read_result}

-- What is done to a socket: a limit that is set, or none, and a read.
pub data Call : Type 0 where
  limited : Option ℕ → Call
  was_read : Call

-- The sockets with a record of the two calls, in order.
abbrev pub timed : Sockets → Sockets
timed o = record o {
  State = o.State × List Call;
  tcp_connect = λ host port s. let (r, s') = o.tcp_connect host port s.0 in (r, (s', s.1));
  stream_owned = λ host tcp s. let (r, s') = o.stream_owned host tcp s.0 in (r, (s', s.1));
  generate_key = λ s. let (r, s') = o.generate_key s.0 in (r, (s', s.1));
  client = λ q tls s. let (r, s') = o.client q tls s.0 in (r, (s', s.1));
  set_read_timeout = λ ws limit s.
      let (r, s') = o.set_read_timeout ws limit s.0 in (r, (s', s.1 ++ limited limit ∷ []));
  read = λ ws s. let (r, s') = o.read ws s.0 in (r, (s', s.1 ++ was_read ∷ []));
  send = λ ws frame s. let (r, s') = o.send ws frame s.0 in (r, (s', s.1));
  close = λ ws s. (o.close ws s.0, s.1);
  flush = λ ws s. let (r, s') = o.flush ws s.0 in (r, (s', s.1));
}

module _ (o : Sockets) (ws : o.Ws) (timeout : ℕ) where
  -- What a single read comes to, with the calls it makes.
  abbrev pub Outcome : o.State → List Call → Result ErrorKind o.Frame → List Call → Type 0
  Outcome s calls r after =
      ((e : ErrorKind) × ((o.set_read_timeout ws (some timeout) s).0 ≡ err e)
        × (r ≡ err e)
        × (after ≡ calls ++ limited (some timeout) ∷ []))
      ⊎ (((o.set_read_timeout ws (some timeout) s).0 ≡ ok tt)
          × (r ≡ read_result o (o.read ws (o.set_read_timeout ws (some timeout) s).1).0)
          × (after ≡ calls ++ limited (some timeout) ∷ was_read ∷ limited none ∷ []))

  -- A single read sets its limit, reads once, and takes the limit off again, whatever the read returned;
  -- where the limit cannot be set, it reads nothing and fails with that error.
  pub read_once_limited :
      (s : o.State) (calls : List Call)
      → let (r, s') = read_once (timed o) ws timeout (s, calls) in Outcome s calls r s'.1
  unfolding read_once
  read_once_limited s calls = elim (Result-cases (o.set_read_timeout ws (some timeout) s).0) [
    | inl (u, e) ↦ inr (e, rw e refl, rw e (simp (append_assoc) refl))
    | inr (k, e) ↦ inl (k, e, rw e refl, rw e refl)
  ]
