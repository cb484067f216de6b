-- ===== src/SignalWs/Login.antt =====
-- The login that the upgrade requests of src/manager/signal_ws.rs carry.
use sigchat.Base.{
  ℕ, ◌≡◌, refl, ap, ◌∙◌, List, [], ◌∷◌, ◌++◌, Option, none, some, Result, ok, err, Exec, continue,
  ◌>>=◌, lift, map_error, ok_or,
}
use sigchat.Text.{Bytes, codes, Lacks}
use sigchat.Text.Decimal.{show}
use sigchat.Io.{ErrorKind}
use sigchat.Account.Fields.{Failure, failed}
use sigchat.SignalWs.{Sockets, Upgrade, upgrade, expect, connect, credentials, new_message}
use sigchat.SignalWs.Reading.{login_of, login_of-upgrade}

-- The sockets with a record of the upgrade requests that the client sends, in order.
abbrev pub sent : Sockets → Sockets
sent o = record o {
  State = o.State × List Upgrade;
  Request = Upgrade × o.Request;
  build = λ u. elim (o.build u) [ none ↦ none | some q ↦ some (u, q) ];
  tcp_connect = λ host port s. let (r, s') = o.tcp_connect host port s.0 in (r, (s', s.1));
  stream_owned = λ host tcp s. let (r, s') = o.stream_owned host tcp s.0 in (r, (s', s.1));
  generate_key = λ s. let (r, s') = o.generate_key s.0 in (r, (s', s.1));
  client = λ q tls s. let (r, s') = o.client q.1 tls s.0 in (r, (s', s.1 ++ q.0 ∷ []));
  set_read_timeout = λ ws limit s. let (r, s') = o.set_read_timeout ws limit s.0 in (r, (s', s.1));
  read = λ ws s. let (r, s') = o.read ws s.0 in (r, (s', s.1));
  send = λ ws frame s. let (r, s') = o.send ws frame s.0 in (r, (s', s.1));
  close = λ ws s. (o.close ws s.0, s.1);
  flush = λ ws s. let (r, s') = o.flush ws s.0 in (r, (s', s.1));
}

module _ (o : Sockets) where
  -- A connection sends one upgrade request, for its address and login.
  abbrev Sends : o.Url → Option Bytes → List Upgrade → Type 0
  Sends url auth us = (host : Bytes) × (key : Bytes) × (us ≡ upgrade o url host key auth ∷ [])

  abbrev Logged : Type 0
  Logged = o.State × List Upgrade

  abbrev Good : o.Url → Option Bytes → Result Failure o.Ws → List Upgrade → Type 0
  Good url auth (ok ws) us = Sends url auth us
  Good url auth (err e) us = Unit

  -- A rest of a connection that, where it succeeds, sends this request.
  record Leads (url : o.Url) (auth : Option Bytes) (m : Exec Failure Logged o.Ws) : Type 0 where
    led : (st : Logged) → st.1 ≡ [] → Good url auth (m st).0 (m st).1.1

  -- A step that sends nothing.
  record IsQuiet {A : Type 0} (m : Exec Failure Logged A) : Type 0 where
    quiet : (st : Logged) → (m st).1.1 ≡ st.1

  Good-continue :
      {A : Type 0} (url : o.Url) (auth : Option Bytes) (r : Result Failure A)
      (f : A → Exec Failure Logged o.Ws) (st : Logged)
      → st.1 ≡ []
      → ((a : A) → Leads url auth (f a))
      → Good url auth (continue r f st).0 (continue r f st).1.1
  Good-continue url auth (ok a) f st h hf = (hf a).led st h
  Good-continue url auth (err e) f st h hf = tt

  Leads-bind :
      {A : Type 0} (url : o.Url) (auth : Option Bytes) (m : Exec Failure Logged A)
      (f : A → Exec Failure Logged o.Ws)
      → IsQuiet m
      → ((a : A) → Leads url auth (f a))
      → Leads url auth (m >>= f)
  Leads-bind url auth m f q hf = record {
    led = λ st h. Good-continue url auth (m st).0 f (m st).1 (q.quiet st ∙ h) hf;
  }

  expect-IsQuiet : {A : Type 0} (a : Option A) → IsQuiet (expect (sent o) a)
  expect-IsQuiet none = record { quiet = λ st. refl }
  expect-IsQuiet (some a) = record { quiet = λ st. refl }

  Good-client :
      (url : o.Url) (auth : Option Bytes) (ws : Option o.Ws) (us : List Upgrade)
      → Sends url auth us
      → Good url auth (ok_or ws (failed ErrorKind.connection_refused)) us
  Good-client url auth none us h = tt
  Good-client url auth (some ws) us h = h

  abbrev requested : Upgrade → o.Tls → Option (Upgrade × o.Request) → Exec Failure Logged o.Ws
  requested u tls_stream b = lift (ok_or b (failed ErrorKind.invalid_input)) >>= λ request s.
      let (ws, s') = (sent o).client request tls_stream s in
      (ok_or ws (failed ErrorKind.connection_refused), s')

  Leads-requested :
      (url : o.Url) (auth : Option Bytes) (host key : Bytes) (tls_stream : o.Tls)
      (b : Option o.Request)
      → let u = upgrade o url host key auth in
        Leads url auth (requested u tls_stream (elim b [ none ↦ none | some q ↦ some (u, q) ]))
  Leads-requested url auth host key tls_stream none = record { led = λ st h. tt }
  Leads-requested url auth host key tls_stream (some q) = record {
    led = λ st h.
        Good-client url auth _ _ (host, key, ap (λ us. us ++ upgrade o url host key auth ∷ []) h);
  }

  Leads-connect : (url : o.Url) (auth : Option Bytes) → Leads url auth (connect (sent o) url auth)
  unfolding connect upgrade
  Leads-connect url auth =
      Leads-bind url auth (expect (sent o) (o.host_str url)) _ (expect-IsQuiet (o.host_str url))
        λ host.
          Leads-bind url auth (map_error failed ((sent o).tcp_connect host 443)) _
            (record { quiet = λ st. refl })
            λ sock.
              Leads-bind url auth (map_error failed ((sent o).stream_owned host sock)) _
                (record { quiet = λ st. refl })
                λ tls_stream.
                  Leads-bind url auth (λ s. let (k, s') = (sent o).generate_key s in (ok k, s')) _
                    (record { quiet = λ st. refl })
                    λ key.
                      Leads-requested url auth host key tls_stream
                        (o.build (upgrade o url host key auth))

  -- The login that one request carried.
  abbrev pub Carries : (Bytes → Option Bytes) → Option (Bytes × Bytes) → List Upgrade → Type 0
  Carries decode login us = (u : Upgrade) × (us ≡ u ∷ []) × (login_of decode u ≡ login)

  of_ok :
      (url : o.Url) (auth : Option Bytes) (r : Result Failure o.Ws) (us : List Upgrade) (ws : o.Ws)
      → r ≡ ok ws
      → Good url auth r us
      → Sends url auth us
  of_ok url auth (ok x) us ws e h = h
  of_ok url auth (err f) us ws e h = cc

  no_ok : {f : Failure} {ws : o.Ws} → Path (Result Failure o.Ws) (err f) (ok ws) → ⊥
  no_ok e = cc

  message-Carries :
      (decode : Bytes → Option Bytes) (aci_service_id : Bytes) (device_id : ℕ) (password : Bytes)
      (u : Option o.Url) (s : o.State) (ws : o.Ws)
      → ((b : Bytes) → decode (o.encode b) ≡ some b)
      → Lacks b':' aci_service_id
      → let auth = some (credentials (sent o) aci_service_id device_id password) in
        let run =
          (lift (ok_or u (failed ErrorKind.invalid_input)) >>= λ url. connect (sent o) url auth)
            (s, []) in
        run.0 ≡ ok ws
        → Carries decode (some (aci_service_id ++ codes "." ++ show device_id, password)) run.1.1
  unfolding credentials
  message-Carries decode aci_service_id device_id password none s ws back lacks e = absurd (no_ok e)
  message-Carries decode aci_service_id device_id password (some url) s ws back lacks e =
      let auth = some (credentials (sent o) aci_service_id device_id password) in
      let (host, key, one) = of_ok url auth _ _ ws e ((Leads-connect url auth).led (s, []) refl) in
      (
        upgrade o url host key auth,
        one,
        login_of-upgrade o decode url host key aci_service_id device_id password back lacks,
      )

  -- A message connection that is made has sent one upgrade request, and a server reads from it the service
  -- id with the device, and the password. The service id has no colon, and base64 decodes what it
  -- encodes.
  pub new_message-login_of :
      (decode : Bytes → Option Bytes) (host aci_service_id : Bytes) (device_id : ℕ)
      (password : Bytes) (s : o.State) (ws : o.Ws)
      → ((b : Bytes) → decode (o.encode b) ≡ some b)
      → Lacks b':' aci_service_id
      → (new_message (sent o) host aci_service_id device_id password (s, [])).0 ≡ ok ws
      → Carries decode
          (some (aci_service_id ++ codes "." ++ show device_id, password))
          (new_message (sent o) host aci_service_id device_id password (s, [])).1.1
  unfolding new_message
  new_message-login_of decode host aci_service_id device_id password s ws back lacks e =
      message-Carries decode aci_service_id device_id password
        (o.parse_url (codes "wss://" ++ host ++ codes "/v1/websocket/")) s ws back lacks e
