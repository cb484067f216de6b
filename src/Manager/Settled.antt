-- ===== src/Manager/Settled.antt =====
-- What a link does with the websocket that it opens and the server that it starts.
use sigchat.Base.{
  ◌≡◌, refl, ap, sym, subst, Bool, true, false, List, [], ◌∷◌, Option, none, some, Result, ok, err,
  Exec, ◌>>=◌, pure, continue, map_err,
}
use sigchat.Text.{Bytes}
use sigchat.Io.{ErrorKind}
use sigchat.Provision.Types.{IdentityKeyPair, ProvisionMessage}
use sigchat.WsServer.Buffer.{WsResult, binary}
use sigchat.Account.Fields.{Failure, failed, panicked}
use sigchat.Account.Link
use sigchat.Account.Link.{Linking, World}
use sigchat.Manager.{
  Outside, Linker, link, hand_over, await, connect, outside_step, outside_change, or_close,
  or_cancel, generated, serve, served, registration, register, linked, uuid_of, pub_key_of, when,
}

-- What happened to a websocket and its server, and to whom it went.
pub data Event : Type 0 where
  opened was_closed handed_over was_dropped was_cancelled : Event

-- Nothing was opened; or the websocket was closed, or was lost with the server that did not start, or
-- went to a server that was cancelled, once. The last event stands first.
pub data IsSettled : List Event → Type 0 where
  untouched : IsSettled []
  closed_once : IsSettled (was_closed ∷ opened ∷ [])
  dropped_once : IsSettled (was_dropped ∷ opened ∷ [])
  cancelled_once : IsSettled (was_cancelled ∷ handed_over ∷ opened ∷ [])

abbrev opening : {A : Type 0} → Result ErrorKind A → List Event → List Event
opening (ok ws) es = opened ∷ es
opening (err e) es = es

abbrev spawning : {A : Type 0} → Result Failure A → List Event → List Event
spawning (err e) es = was_dropped ∷ es
spawning (ok server) es = handed_over ∷ es

-- The outside with a record of what happens to the websocket and the server.
abbrev pub watched : Outside → Outside
watched o = record o {
  State = o.State × List Event;
  new_provision = λ s. let (r, s') = o.new_provision s.0 in (r, (s', opening r s.1));
  read_once = λ ws ms s. let (r, s') = o.read_once ws ms s.0 in (r, (s', s.1));
  close = λ ws s. (o.close ws s.0, was_closed ∷ s.1);
  new_modals = λ s. let (r, s') = o.new_modals s.0 in (r, (s', s.1));
  show_uri = λ uri s. let (r, s') = o.show_uri uri s.0 in (r, (s', s.1));
  spawn = λ ws secs s. let (r, s') = o.spawn ws secs s.0 in (r, (s', spawning r s.1));
  wait_and_take_binary =
      λ server s. let (r, s') = o.wait_and_take_binary server s.0 in (r, (s', s.1));
  cancel = λ server s. (o.cancel server s.0, was_cancelled ∷ s.1);
}

module _ {Host : Type 0} (x : Linking Host) (o : Outside) where
  abbrev events : Linker x (watched o) → List Event
  events w = w.outside.1

  -- From the events `before` a step that succeeds comes to the events `after`; a step that fails settles
  -- them.
  abbrev Outcome : {A : Type 0} → List Event → Result Failure A → List Event → Type 0
  Outcome after (ok a) es = es ≡ after
  Outcome after (err e) es = IsSettled es

  record Steps {A : Type 0} (before after : List Event) (m : Exec Failure (Linker x (watched o)) A)
      : Type 0 where
    stepped :
        (w : Linker x (watched o)) → events w ≡ before → Outcome after (m w).0 (events (m w).1)

  steps_continue :
      {A B : Type 0} (middle after : List Event) (r : Result Failure A)
      (f : A → Exec Failure (Linker x (watched o)) B) (w : Linker x (watched o))
      → Outcome middle r (events w)
      → ((a : A) → Steps middle after (f a))
      → Outcome after (continue r f w).0 (events (continue r f w).1)
  steps_continue middle after (ok a) f w h g = (g a).stepped w h
  steps_continue middle after (err e) f w h g = h

  Steps-bind :
      {A B : Type 0} {before middle after : List Event} (m : Exec Failure (Linker x (watched o)) A)
      {f : A → Exec Failure (Linker x (watched o)) B}
      → Steps before middle m
      → ((a : A) → Steps middle after (f a))
      → Steps before after (m >>= f)
  Steps-bind {middle = middle} {after = after} m {f} hm hf = record {
    stepped = λ w h. steps_continue middle after (m w).0 f (m w).1 (hm.stepped w h) hf;
  }

  settle : {es fs : List Event} → es ≡ fs → IsSettled fs → IsSettled es
  settle e h = subst IsSettled (sym e) h

  abbrev on_ws : List Event
  on_ws = opened ∷ []

  abbrev on_server : List Event
  on_server = handed_over ∷ opened ∷ []

  abbrev done : List Event
  done = was_cancelled ∷ handed_over ∷ opened ∷ []

  connected :
      {A : Type 0} (r : Result ErrorKind A) (es : List Event)
      → es ≡ []
      → Outcome on_ws (map_err failed r) (opening r es)
  connected (ok ws) es h = rw h refl
  connected (err e) es h = settle h IsSettled.untouched

  serving :
      (r : Result Failure o.Server) (es : List Event)
      → es ≡ on_ws
      → Outcome on_server (served x (watched o) r) (spawning r es)
  serving (ok server) es h = rw h refl
  serving (err (failed e)) es h = rw h IsSettled.dropped_once
  serving (err panicked) es h = rw h IsSettled.dropped_once

  Steps-pure : {A : Type 0} {es : List Event} (a : A) → Steps es es (pure a)
  Steps-pure a = record { stepped = λ w h. h }

  Steps-or_close :
      {A : Type 0} (ws : o.Ws) (a : Option A) → Steps on_ws on_ws (or_close x (watched o) ws a)
  Steps-or_close ws none = record { stepped = λ w h. rw h IsSettled.closed_once }
  Steps-or_close ws (some a) = record { stepped = λ w h. h }

  Steps-hand_over : (ws : o.Ws) → Steps on_ws on_server (hand_over x (watched o) ws)
  unfolding hand_over
  Steps-hand_over ws =
      Steps-bind (outside_step x (watched o) ((watched o).read_once ws 5000))
        (record { stepped = λ w h. h })
        λ first.
          Steps-bind (or_close x (watched o) ws (uuid_of x (watched o) first)) (Steps-or_close ws _)
            λ uuid.
              Steps-bind (generated x (watched o)) (record { stepped = λ w h. h })
                λ pair.
                  Steps-bind (or_close x (watched o) ws (pub_key_of x (watched o) pair))
                    (Steps-or_close ws _)
                    λ pub_key.
                      Steps-bind (or_close x (watched o) ws (o.link_uri uuid pub_key))
                        (Steps-or_close ws _)
                        λ uri.
                          Steps-bind (outside_step x (watched o) (watched o).new_modals)
                            (record { stepped = λ w h. h })
                            λ modals.
                              Steps-bind (or_close x (watched o) ws (when x (watched o) modals))
                                (Steps-or_close ws _)
                                λ shown.
                                  Steps-bind (serve x (watched o) ws)
                                    (record {
                                      stepped = λ w h.
                                          serving (o.spawn ws 180 w.outside.0).0 (events w) h;
                                    })
                                    λ server. Steps-pure (pair, server, uri)

  Steps-or_cancel :
      (server : o.Server) (shown : Bool)
      → Steps on_server on_server (or_cancel x (watched o) server shown)
  Steps-or_cancel server true = record { stepped = λ w h. h }
  Steps-or_cancel server false = record { stepped = λ w h. rw h IsSettled.cancelled_once }

  linked_outcome :
      (r : Result Failure Bool × World x) (s : o.State × List Event)
      → s.1 ≡ done
      → Outcome done (linked x (watched o) r s).0 (events (linked x (watched o) r s).1)
  linked_outcome (ok b, world) s h = h
  linked_outcome (err (failed e), world) s h = h
  linked_outcome (err panicked, world) s h = settle h IsSettled.cancelled_once

  Steps-register :
      (name : Bytes) (m : Result ErrorKind ProvisionMessage)
      → Steps done done (register x (watched o) name m)
  Steps-register name (ok m) = record {
    stepped = λ w h. linked_outcome (Link.link x name m w.world) w.outside h;
  }
  Steps-register name (err e) = record { stepped = λ w h. settle h IsSettled.cancelled_once }

  Steps-registration :
      (name : Bytes) (pair : IdentityKeyPair) (r : WsResult)
      → Steps done done (registration x (watched o) name pair r)
  Steps-registration name pair (binary b) = Steps-register name _
  Steps-registration name pair _ = record { stepped = λ w h. settle h IsSettled.cancelled_once }

  Steps-await :
      (name : Bytes) (pair : IdentityKeyPair) (server : o.Server) (uri : Bytes)
      → Steps on_server done (await x (watched o) name pair server uri)
  unfolding await
  Steps-await name pair server uri =
      Steps-bind (outside_step x (watched o) ((watched o).show_uri uri))
        (record { stepped = λ w h. h })
        λ shown.
          Steps-bind (or_cancel x (watched o) server shown) (Steps-or_cancel server shown) λ u.
            Steps-bind (outside_step x (watched o) ((watched o).wait_and_take_binary server))
              (record { stepped = λ w h. h })
              λ result.
                Steps-bind (outside_change x (watched o) ((watched o).cancel server))
                  (record { stepped = λ w h. ap (λ es. was_cancelled ∷ es) h })
                  λ u'. Steps-registration name pair result

  Steps-link : (name : Bytes) → Steps [] done (link x (watched o) name)
  unfolding link
  Steps-link name =
      Steps-bind (connect x (watched o))
        (record { stepped = λ w h. connected (o.new_provision w.outside.0).0 (events w) h })
        λ ws.
          Steps-bind (hand_over x (watched o) ws) (Steps-hand_over ws)
            λ held. Steps-await name held.0 held.1 held.2

  settled : (r : Result Failure Bool) (es : List Event) → Outcome done r es → IsSettled es
  settled (ok b) es h = settle h IsSettled.cancelled_once
  settled (err e) es h = h

  -- However a link ends, also where starting the server or linking the account panics, it opened at most one websocket, and that
  -- one was closed by the link, was lost where the server did not start, or went to the server, which was
  -- cancelled exactly once; nothing is left open.
  pub link-IsSettled :
      (name : Bytes) (world : World x) (s : o.State)
      → IsSettled
          (link x (watched o) name (record { world = world; outside = (s, []) })).1.outside.1
  link-IsSettled name world s = settled _ _ ((Steps-link name).stepped _ refl)
