-- ===== src/Relay/Server.antt =====
-- The sockets of cliprelay-relay/src/lib.rs side by side: each runs `handle_socket` as a task of its
-- own, and tasks interleave between messages, so an execution is a list of events.
pub mod Reachable
use cliprelay.Base.{
  ℕ, ◌+◌, Option, none, some, Result, ok, err, panic, List, [], ◌∷◌, ◌++◌, ◌==◌, if◌then◌else◌,
}
use cliprelay.Core.{Codec}
use cliprelay.Relay.Bucket.{Floats}
use cliprelay.Relay.Room.{RelayState, Sends, unregister_client}
use cliprelay.Relay.Session.{Session, Received, open_session, on_received}

pub record Server (F : Type 0) : Type 0 where
  pub relay : RelayState
  pub sessions : List (Session F)
  pub next_tx : ℕ

-- A socket receives its first message, or a socket that has a session receives another.
pub data Event : Type 0 where
  connects : ℕ → Received → Event
  receives : ℕ → ℕ → Received → Event

module _ {F : Type 0} where
  abbrev pub initial : Server F
  initial = record { relay = record { rooms = [] }; sessions = []; next_tx = 0 }

  unfoldable pub find_session : ℕ → List (Session F) → Option (Session F)
  find_session tx [] = none
  find_session tx (s ∷ ss) = if s.tx == tx then some s else find_session tx ss

  unfoldable pub replace_session : Session F → List (Session F) → List (Session F)
  replace_session s' [] = []
  replace_session s' (s ∷ ss) =
      let rest = replace_session s' ss in if s.tx == s'.tx then s' ∷ ss else s ∷ rest

  unfoldable pub remove_session : ℕ → List (Session F) → List (Session F)
  remove_session tx [] = []
  remove_session tx (s ∷ ss) =
      let rest = remove_session tx ss in if s.tx == tx then rest else s ∷ rest

module _ {F : Type 0} (floats : Floats F) (codec : Codec) where
  -- `handle_socket` up to its loop.
  unfoldable pub connect : Server F → ℕ → Received → Server F × Sends
  connect server now received =
      let (relay, answer) = open_session floats codec server.relay server.next_tx now received in
      let tried : Server F = record server { relay = relay; next_tx = server.next_tx + 1 } in
      elim answer [
        | ok (session, sends) ↦ (record tried { sessions = session ∷ server.sessions }, sends)
        | _ ↦ (tried, [])
      ]

  -- What follows the loop: `unregister_client`, and the task ends.
  unfoldable pub leave : Server F → Session F → Server F × Sends
  leave server s =
      let (relay, sends) = unregister_client codec server.relay s.room_id s.device_id in
      (record server { relay = relay; sessions = remove_session s.tx server.sessions }, sends)

  unfoldable pub receive : Server F → Session F → ℕ → Received → Server F × Sends
  receive server s now received =
      let (next, sends) = on_received floats codec server.relay s now received in
      elim next [
        | some s' ↦ (record server { sessions = replace_session s' server.sessions }, sends)
        | none ↦ let (server', last) = leave server s in (server', sends ++ last)
      ]

  unfoldable pub step : Server F → Event → Server F × Sends
  step server (connects now received) = connect server now received
  step server (receives tx now received) = elim (find_session tx server.sessions) [
    | none ↦ (server, [])
    | some s ↦ receive server s now received
  ]

  unfoldable pub run : Server F → List Event → Server F
  run server [] = server
  run server (e ∷ es) = run (step server e).0 es
