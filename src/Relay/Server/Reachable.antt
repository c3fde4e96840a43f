-- ===== src/Relay/Server/Reachable.antt =====
-- Whatever sockets do, and in whatever order.
use cliprelay.Base.{
  sym, ◌+◌, false, ◌<◌, ok, ==_refl, ◌>>=◌, =?_refl, ◌∙◌, ℕ, ◌≡◌, ◌≢◌, arith, refl, none, some,
  Option-cases, List, [], ◌∷◌, Result-cases, inl, inr,
}
use cliprelay.Core.{Hello, Codec}
use cliprelay.Relay.Bucket.{new, Floats}
use cliprelay.Relay.Room.{Sends, register_client, Connection, RelayState}
use cliprelay.Relay.Room.Invariant.{IsRelay, register_client-IsRelay, unregister_client-IsRelay}
use cliprelay.Relay.Room.Membership.{
  lookup_device-register_client, register_client-ok, is_full, lookup_device,
  lookup_device-unregister_client,
}
use cliprelay.Relay.Session.{
  parse_hello_message, first_message, Session, Received, ended, open_session, on_received,
}
use cliprelay.Relay.Server.{
  Server, Event, connects, receives, find_session, remove_session, connect, leave, receive, step,
  run,
}

module _ {F : Type 0} (floats : Floats F) (codec : Codec) where
  open_session-IsRelay :
      (state : RelayState) (tx now : ℕ) (received : Received)
      → IsRelay state
      → IsRelay (open_session floats codec state tx now received).0
  unfolding open_session
  open_session-IsRelay state tx now received v =
      elim (Result-cases (first_message received >>= parse_hello_message codec)) [
        | inl (h, e) ↦
            rw (e, open_session)
              (register_client-IsRelay codec state h.room_id (record { peer = h.peer; tx = tx }) v)
        | inr (inl (x, e)) ↦ rw (e, open_session) v
        | inr (inr e) ↦ rw (e, open_session) v
      ]

  relay-connect :
      (server : Server F) (now : ℕ) (received : Received)
      → (connect floats codec server now received).0.relay
        ≡ (open_session floats codec server.relay server.next_tx now received).0
  unfolding connect
  relay-connect server now received = ground arith

  leave-IsRelay :
      (server : Server F) (s : Session F)
      → IsRelay server.relay
      → IsRelay (leave floats codec server s).0.relay
  unfolding leave
  leave-IsRelay server s v = unregister_client-IsRelay codec server.relay s.room_id s.device_id v

  receive-IsRelay :
      (server : Server F) (s : Session F) (now : ℕ) (received : Received)
      → IsRelay server.relay
      → IsRelay (receive floats codec server s now received).0.relay
  unfolding receive
  receive-IsRelay server s now received v =
      elim (Option-cases (on_received floats codec server.relay s now received).0) [
        | inl e ↦ rw (e, receive) (leave-IsRelay server s v)
        | inr (s', e) ↦ rw (e, receive) v
      ]

  step-IsRelay :
      (server : Server F) (e : Event)
      → IsRelay server.relay
      → IsRelay (step floats codec server e).0.relay
  unfolding step
  step-IsRelay server (connects now received) v =
      rw (relay-connect server now received)
        (open_session-IsRelay server.relay server.next_tx now received v)
  step-IsRelay server (receives tx now received) v =
      elim (Option-cases (find_session tx server.sessions)) [
        | inl e ↦ rw (e, step) v
        | inr (s, e) ↦ rw (e, step) (receive-IsRelay server s now received v)
      ]

  -- From a state in which every room holds between 1 and 10 devices, each once and under its own id,
  -- and no room stands twice: after any events it is still so.
  pub run-IsRelay :
      (server : Server F) (es : List Event)
      → IsRelay server.relay
      → IsRelay (run floats codec server es).relay
  unfolding run
  run-IsRelay server [] v = v
  run-IsRelay server (e ∷ es) v =
      run-IsRelay (step floats codec server e).0 es (step-IsRelay server e v)

  find-remove_ne :
      (tx other : ℕ) (ss : List (Session F))
      → tx ≢ other
      → find_session other (remove_session tx ss) ≡ find_session other ss
  unfolding find_session remove_session
  find-remove_ne tx other [] ne = refl
  find-remove_ne tx other (s ∷ ss) ne = ground (arith, find-remove_ne tx other ss ne)

  ended-lost :
      (server : Server F) (first second : Session F) (now : ℕ)
      → find_session first.tx server.sessions ≡ some first
      → find_session second.tx server.sessions ≡ some second
      → first.tx ≢ second.tx
      → first.room_id ≡ second.room_id
      → first.device_id ≡ second.device_id
      → let after = (step floats codec server (receives first.tx now ended)).0 in
        (find_session second.tx after.sessions ≡ some second)
        × (lookup_device after.relay second.room_id second.device_id ≡ none)
  unfolding step receive leave on_received
  ended-lost server first second now f g ne same_room same_device =
      rw (f, step)
        (
          find-remove_ne first.tx second.tx server.sessions ne ∙ g,
          rw (same_room, same_device)
              (lookup_device-unregister_client codec server.relay second.room_id second.room_id
                  second.device_id second.device_id
                ∙ rw (=?_refl second.room_id, =?_refl second.device_id) refl),
        )

  -- The session of a hello.
  abbrev session_of : Hello → ℕ → ℕ → Session F
  session_of h tx now = record {
    room_id = h.room_id;
    device_id = h.peer.device_id;
    tx = tx;
    rate_limiter = new floats (floats.literal 400) (floats.literal 200) now;
  }

  open_session-ok :
      (state : RelayState) (tx now : ℕ) (received : Received) {h : Hello}
      → (first_message received >>= parse_hello_message codec) ≡ ok h
      → is_full state h.room_id ≡ false
      → (sends : Sends) × ((open_session floats codec state tx now received).0
          ≡ (register_client codec state h.room_id (record { peer = h.peer; tx = tx })).0)
        × ((open_session floats codec state tx now received).1 ≡ ok (session_of h tx now, sends))
  unfolding open_session
  open_session-ok state tx now received {h} parsed room =
      let c : Connection = record { peer = h.peer; tx = tx } in
      let (sends, fine) = register_client-ok codec state h.room_id c room in
      (sends, rw (parsed, open_session) refl, rw (parsed, open_session, fine) refl)

  -- A socket whose hello is let in.
  connect-ok :
      (server : Server F) (now : ℕ) (received : Received) {h : Hello}
      → (first_message received >>= parse_hello_message codec) ≡ ok h
      → is_full server.relay h.room_id ≡ false
      → (connect floats codec server now received).0 ≡ record {
        relay =
            (register_client codec server.relay h.room_id
              (record { peer = h.peer; tx = server.next_tx })).0;
        sessions = session_of h server.next_tx now ∷ server.sessions;
        next_tx = server.next_tx + 1;
      }
  unfolding connect
  connect-ok server now received {h} parsed room =
      let (sends, relay, opened) =
        open_session-ok server.relay server.next_tx now received parsed room in
      rw (opened, connect, relay) refl

  find-first :
      (first second : Session F) (ss : List (Session F))
      → first.tx ≢ second.tx
      → find_session first.tx ss ≡ some first
      → find_session first.tx (second ∷ ss) ≡ some first
  unfolding find_session
  find-first first second ss ne f = ground (arith, ne, f)

  find-second : (s : Session F) (ss : List (Session F)) → find_session s.tx (s ∷ ss) ≡ some s
  unfolding find_session
  find-second s ss = rw (==_refl s.tx) refl

  -- When a device whose first socket is still there connects again, to its room, which is not full: the
  -- room has its new connection; when the first socket then ends, the new session goes on, but the room
  -- has no connection of the device any more.
  pub reconnected_device_lost :
      (server : Server F) (first : Session F) (now later : ℕ) (received : Received) {h : Hello}
      → find_session first.tx server.sessions ≡ some first
      → first.tx < server.next_tx
      → (first_message received >>= parse_hello_message codec) ≡ ok h
      → h.room_id ≡ first.room_id
      → h.peer.device_id ≡ first.device_id
      → is_full server.relay h.room_id ≡ false
      → let connected = (step floats codec server (connects now received)).0 in
        let after = (step floats codec connected (receives first.tx later ended)).0 in
        let second = session_of h server.next_tx now in
        (lookup_device connected.relay first.room_id first.device_id
          ≡ some (record { peer = h.peer; tx = server.next_tx }))
        × (find_session server.next_tx after.sessions ≡ some second)
        × (lookup_device after.relay first.room_id first.device_id ≡ none)
  unfolding step
  reconnected_device_lost server first now later received {h} found old parsed same_room same_device
        room =
      let second = session_of h server.next_tx now in
      let ne : first.tx ≢ second.tx = λ e. absurd (omega (arith, old, e)) in
      let c : Connection = record { peer = h.peer; tx = server.next_tx } in
      let connected : Server F = record {
        relay = (register_client codec server.relay h.room_id c).0;
        sessions = second ∷ server.sessions;
        next_tx = server.next_tx + 1;
      } in
      let lost =
        ended-lost connected first second later (find-first first second server.sessions ne found)
          (find-second second server.sessions) ne (sym same_room) (sym same_device) in
      rw (connect-ok server now received parsed room) (
        lookup_device-register_client codec server.relay h.room_id first.room_id c first.device_id
            ∙ ground (
              arith,
              room,
              same_room,
              same_device,
              =?_refl first.room_id,
              =?_refl first.device_id,
            ),
        lost.0,
        rw (sym same_room, sym same_device) lost.1,
      )
