-- ===== src/Client/Runtime.antt =====
-- The sessions of a client one after the other: `run_single_session` and `run_client_runtime` of
-- cliprelay-client/src/main.rs, which connects again and again, so how long the runtime lives is how
-- long the list of its sessions is. The three spawned tasks are not stopped when a session ends: what is
-- left of them goes on in the pause of 5 seconds before the next one, and what they do after that is an
-- `others_do` of a later session.
pub mod Ended
pub mod Counting
use cliprelay.Base.{
  ℕ, zero, suc, ◌+◌, ◌-◌, ◌*◌, ◌^◌, Bool, true, false, Option, none, some, Result, ok, List, [],
  ◌∷◌, ◌++◌, leb, if◌then◌else◌, ◌⊎◌, inl, inr, map,
}
use cliprelay.Base.Map.{Map}
use cliprelay.Text.{Bytes, Text, ascii}
use cliprelay.Core.{PeerInfo, ControlMessage, hello, WireMessage, control, Codec}
use cliprelay.Core.Frame.{encode_frame}
use cliprelay.Core.Cipher.{Primitives}
use cliprelay.Client.{
  ClientConfig, SharedRuntimeState, RuntimeCommand, UiEvent, connection_status, peers,
  room_key_ready, runtime_error, Notice, connect_failed, connect_timed_out, connection_ended,
  invalid_server_url,
}
use cliprelay.Client.Transfer.{Outside, Transfers}
use cliprelay.Client.Outgoing.{Effect, queue, tell, persist, Files, Clock, on_command}
use cliprelay.Client.Incoming.{Incoming, Receiver, Passed, to_presence, to_window, on_incoming}
use cliprelay.Client.Presence.{initial_peers, on_control}
use cliprelay.Client.Connection.{
  spawned, Out, Live, Happening, takes_command, reads, takes_control, takes_message, ticks,
  stream_ends, commands_end, effect, frame, ping, told, new_live, World, run_tasks,
  on_takes_message, on_takes_control, on_reads,
}
use cliprelay.Client.Dialling.{Dial, Dialled, dial_loop, max_connect_attempts}

-- What outlives a session: the shared state, the counter, and the table of transfers, which is a
-- static.
pub record Runtime : Type 0 where
  pub shared : SharedRuntimeState
  pub counter : ℕ
  pub transfers : Transfers

unfoldable pub runtime_of : Live → Runtime
runtime_of live = record {
  shared = live.shared;
  counter = live.counter;
  transfers = live.receiver.transfers;
}

-- The tasks of a session see what the others changed in the meantime.
unfoldable pub on_runtime : Runtime → Live → Live
on_runtime rt live = record live {
  shared = rt.shared;
  counter = rt.counter;
  receiver = record live.receiver { transfers = rt.transfers };
}

-- A session from its first attempt to connect to the next session: the attempts, what happens until
-- the first task ends, and what the tasks that are left over do before and after the key is forgotten.
pub record Round : Type 0 where
  pub dial : ℕ → Dial
  pub happenings : List Happening
  pub before_forgotten : List Happening
  pub after_forgotten : List Happening

abbrev pub reconnecting : Text
reconnecting = ascii "Reconnecting" ++ (0xe2 ∷ 0x80 ∷ 0xa6 ∷ [])

-- What the loop of `run_client_runtime` does after a session: the key is forgotten. The pause of 5
-- seconds changes no state.
unfoldable pub forget_session : Runtime → Runtime × List Out
forget_session rt = (
  record rt { shared = record rt.shared { room_key = none } },
  told (room_key_ready false ∷ peers [] ∷ connection_status reconnecting ∷ []),
)

module _ (world : World) where
  -- A session after a connection was made.
  unfoldable pub connected_session : ClientConfig → Runtime → List Happening → Live × List Out
  connected_session config rt hs =
      let (live, outs) =
        run_tasks world config (new_live config rt.shared rt.counter rt.transfers) hs in
      (
        live,
        told (connection_status (ascii "Connected") ∷ [])
            ++ (outs ++ told (runtime_error connection_ended ∷ [])),
      )

  -- With the tasks that are left over, if a connection was made.
  unfoldable pub run_single_session :
      ClientConfig → Runtime → (ℕ → Dial) → List Happening → Runtime × Option Live × List Out
  run_single_session config rt dial hs =
      let connecting = told (connection_status (ascii "Connecting") ∷ []) in
      elim (dial_loop max_connect_attempts dial 1) [
        | none ↦ (rt, none, connecting)
        | some d ↦ elim d.gives_up [
          | some e ↦ (rt, none, connecting ++ told (runtime_error e ∷ []))
          | none ↦
              let (live, outs) = connected_session config rt hs in
              (runtime_of live, some live, connecting ++ outs)
        ]
      ]

  -- What the spawned tasks do when the session has ended.
  unfoldable pub linger :
      ClientConfig → Runtime → Option Live → List Happening → Runtime × Option Live × List Out
  linger config rt none hs = (rt, none, [])
  linger config rt (some live) [] = (rt, some live, [])
  linger config rt (some live) (h ∷ hs) =
      let (next, goes_on, outs) = spawned world config (on_runtime rt live) h in
      let (last, left, later) = linger config (runtime_of next) (some next) hs in
      (last, left, outs ++ later)

  unfoldable pub one_round : ClientConfig → Runtime → Round → Runtime × List Out
  one_round config rt s =
      let (after, left, outs) = run_single_session config rt s.dial s.happenings in
      let (late, still_left, late_outs) = linger config after left s.before_forgotten in
      let (next, last) = forget_session late in
      let (end, none_left, end_outs) = linger config next still_left s.after_forgotten in
      (end, outs ++ (late_outs ++ (last ++ end_outs)))

  unfoldable pub rounds : ClientConfig → Runtime → List Round → Runtime × List Out
  rounds config rt [] = (rt, [])
  rounds config rt (s ∷ sessions) =
      let (next, outs) = one_round config rt s in
      let (last, later) = rounds config next sessions in (last, outs ++ later)

  -- `Url::parse` first: `url_error` is its error, if it fails.
  unfoldable pub run_client_runtime :
      ClientConfig → Option Text → SharedRuntimeState → List Round → Runtime × List Out
  run_client_runtime config url_error shared sessions =
      let rt : Runtime = record {
        shared = shared;
        counter = config.initial_counter;
        transfers = [];
      } in
      elim url_error [
        | some e ↦ (rt, told (runtime_error (invalid_server_url e) ∷ []))
        | none ↦ rounds config rt sessions
      ]
