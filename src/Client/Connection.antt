-- ===== src/Client/Connection.antt =====
-- A session of cliprelay-client/src/main.rs: `network_send_task`, and the four tasks that
-- `run_single_session` has side by side. The tasks interleave between messages, so a session is the
-- list of what happens in it.
pub mod Queue
use cliprelay.Base.{
  ◌||◌, not, ℕ, zero, suc, ◌+◌, ◌-◌, ◌*◌, ◌^◌, Bool, true, false, Option, none, some, Result, ok,
  List, [], ◌∷◌, ◌++◌, leb, if◌then◌else◌, ◌⊎◌, inl, inr, map,
}
use cliprelay.Base.Map.{Map}
use cliprelay.Text.{Bytes, Text, ascii}
use cliprelay.Core.{PeerInfo, ControlMessage, hello, WireMessage, control, Codec}
use cliprelay.Core.Frame.{encode_frame}
use cliprelay.Core.Cipher.{Primitives}
use cliprelay.Client.{
  ClientConfig, SharedRuntimeState, RuntimeCommand, UiEvent, connection_status, peers,
  room_key_ready, runtime_error, Notice, connect_failed, connect_timed_out, connection_ended,
  invalid_server_url,
}
use cliprelay.Client.Transfer.{Outside, Transfers}
use cliprelay.Client.Outgoing.Sending.{Sending, start_command, send_chunk}
use cliprelay.Client.Outgoing.{Effect, queue, tell, persist, Files, Clock, on_command}
use cliprelay.Client.Incoming.{Incoming, Receiver, Passed, to_presence, to_window, on_incoming}
use cliprelay.Client.Presence.{initial_peers, on_control}

-- What a session does outside: the effects of Outgoing, and what is written to the socket.
pub data Out : Type 0 where
  effect : Effect → Out
  frame : Bytes → Out
  ping : Out

-- What the four tasks of a session hold together: the two channels are their contents, with the message
-- that the send task has at hand. `sending` is the file that the commands' task is at, and the flags say
-- that the send task or the receive task has ended.
pub record Live : Type 0 where
  pub shared : SharedRuntimeState
  pub counter : ℕ
  pub receiver : Receiver
  pub peers : Map PeerInfo
  pub controls : List ControlMessage
  pub outgoing : List WireMessage
  pub sending : Option Sending
  pub writer_over : Bool
  pub reader_over : Bool

-- One thing that happens: a command is taken, the pause after a chunk is over, something is read, the
-- presence task takes a control message, the send task takes a message or its timer ticks (the write
-- succeeds or not), the stream of what is read ends, the window's side of the commands is gone, or
-- `select!` looks at the tasks. The last stands for all that tasks left over from sessions before do:
-- what they make of the shared state and the transfers, and what they tell the window.
pub data Happening : Type 0 where
  takes_command : RuntimeCommand → Clock → Happening
  next_chunk : Happening
  reads : Incoming → ℕ → Happening
  takes_control : Happening
  takes_message ticks : Bool → Happening
  stream_ends commands_end selects : Happening
  others_do : SharedRuntimeState → Transfers → List UiEvent → Happening

abbrev pub told : List UiEvent → List Out
told events = map (λ e. effect (tell e)) events

-- The encrypted messages and others that the effects queue, in order.
unfoldable pub queued : List Effect → List WireMessage
queued [] = []
queued (queue m ∷ es) = m ∷ queued es
queued (tell e ∷ es) = queued es
queued (persist n ∷ es) = queued es

-- What the receive task passes on, split on the two channels.
unfoldable pub for_presence : List Passed → List ControlMessage
for_presence [] = []
for_presence (to_presence m ∷ ps) = m ∷ for_presence ps
for_presence (to_window e ∷ ps) = for_presence ps

unfoldable pub for_window : List Passed → List UiEvent
for_window [] = []
for_window (to_presence m ∷ ps) = for_window ps
for_window (to_window e ∷ ps) = e ∷ for_window ps

module _ (codec : Codec) where
  -- The send task on one message: a frame, or nothing where it does not encode. The task goes on
  -- unless the write fails.
  unfoldable pub send_message : WireMessage → Bool → Bool × List Out
  send_message m writes = elim (encode_frame codec m) [
    | ok bytes ↦ if writes then (true, frame bytes ∷ []) else (false, [])
    | _ ↦ (true, [])
  ]

  -- The send task on a list of messages, with writes that succeed.
  unfoldable pub network_send_task : List WireMessage → List Out
  network_send_task [] = []
  network_send_task (m ∷ ms) = (send_message m true).1 ++ network_send_task ms

abbrev pub hello_of_config : ClientConfig → WireMessage
hello_of_config config = control (
    hello (record {
      room_id = config.room_id;
      peer = record { device_id = config.device_id; device_name = config.device_name };
    }))

-- The tasks of a new session: the hello is queued first.
unfoldable pub new_live : ClientConfig → SharedRuntimeState → ℕ → Transfers → Live
new_live config shared counter transfers = record {
  shared = shared;
  counter = counter;
  receiver = record { replay_map = []; transfers = transfers };
  peers = initial_peers config;
  controls = [];
  outgoing = hello_of_config config ∷ [];
  sending = none;
  writer_over = false;
  reader_over = false;
}

-- What the program is given from outside.
pub record World : Type 0 where
  pub prim : Primitives
  pub outside : Outside
  pub codec : Codec
  pub files : Files
  pub decimal : ℕ → Text

module _ (world : World) where
  -- The send task takes the oldest message, if there is one. One that it cannot write stays, and nothing
  -- takes it any more.
  unfoldable pub on_takes_message : Live → Bool → List WireMessage → Live × Bool × List Out
  on_takes_message live writes [] = (live, true, [])
  on_takes_message live writes (m ∷ ms) =
      let (goes_on, outs) = send_message world.codec m writes in
      if goes_on
      then (record live { outgoing = ms }, true, outs)
      else (record live { writer_over = true }, true, outs)

  unfoldable pub on_ticks : Live → Bool → Live × Bool × List Out
  on_ticks live true = (live, true, ping ∷ [])
  on_ticks live false = (record live { writer_over = true }, true, [])

  unfoldable pub on_takes_control :
      ClientConfig → Live → List ControlMessage → Live × Bool × List Out
  on_takes_control config live [] = (live, true, [])
  on_takes_control config live (m ∷ ms) =
      let (known, shared, events) = on_control world.prim config live.peers live.shared m in
      (record live { peers = known; shared = shared; controls = ms }, true, told events)

  unfoldable pub on_reads : ClientConfig → Live → Incoming → ℕ → Live × Bool × List Out
  on_reads config live incoming now =
      let (next, passed) =
        on_incoming world.prim world.outside world.codec config live.shared live.receiver now
          incoming in
      let after : Live = record live { controls = live.controls ++ for_presence passed } in
      elim next [
        | none ↦ (record after { reader_over = true }, true, told (for_window passed))
        | some r ↦ (record after { receiver = r }, true, told (for_window passed))
      ]

  -- The next command, unless a file is being sent.
  unfoldable pub on_takes_command :
      ClientConfig → Live → RuntimeCommand → Clock → Option Sending → Live × Bool × List Out
  on_takes_command config live command clock (some s) = (live, true, [])
  on_takes_command config live command clock none =
      let (shared, counter, sending, effects) =
        start_command world.prim world.outside world.files world.decimal config live.shared
          live.counter clock command in
      (
        record live {
          shared = shared;
          counter = counter;
          outgoing = live.outgoing ++ queued effects;
          sending = sending;
        },
        true,
        map effect effects,
      )

  -- The next chunk of the file that is being sent.
  unfoldable pub on_next_chunk : ClientConfig → Live → Option Sending → Live × Bool × List Out
  on_next_chunk config live none = (live, true, [])
  on_next_chunk config live (some s) =
      let (counter, sending, effects) = send_chunk world.prim world.outside config live.counter s in
      (
        record live {
          counter = counter;
          outgoing = live.outgoing ++ queued effects;
          sending = sending;
        },
        true,
        map effect effects,
      )

  -- What happens in the three spawned tasks, and in those left over from before. A task that has ended
  -- does nothing.
  unfoldable pub spawned : ClientConfig → Live → Happening → Live × Bool × List Out
  spawned config live (reads incoming now) =
      let one = on_reads config live incoming now in
      if live.reader_over then (live, true, []) else one
  spawned config live takes_control = on_takes_control config live live.controls
  spawned config live (takes_message writes) =
      let one = on_takes_message live writes live.outgoing in
      if live.writer_over then (live, true, []) else one
  spawned config live (ticks writes) =
      let one = on_ticks live writes in if live.writer_over then (live, true, []) else one
  spawned config live stream_ends = (record live { reader_over = true }, true, [])
  spawned config live (others_do shared transfers events) = (
    record live {
      shared = shared;
      receiver = record { replay_map = live.receiver.replay_map; transfers = transfers };
    },
    true,
    told events,
  )
  spawned config live (takes_command command clock) = (live, true, [])
  spawned config live next_chunk = (live, true, [])
  spawned config live commands_end = (live, true, [])
  spawned config live selects = (live, true, [])

  -- One thing that happens, whether the session goes on, and what is done outside.
  unfoldable pub happens : ClientConfig → Live → Happening → Live × Bool × List Out
  happens config live (takes_command command clock) =
      on_takes_command config live command clock live.sending
  happens config live next_chunk = on_next_chunk config live live.sending
  happens config live commands_end = (live, false, [])
  happens config live selects = (live, not (live.writer_over || live.reader_over), [])
  happens config live (reads incoming now) = spawned config live (reads incoming now)
  happens config live takes_control = spawned config live takes_control
  happens config live (takes_message writes) = spawned config live (takes_message writes)
  happens config live (ticks writes) = spawned config live (ticks writes)
  happens config live stream_ends = spawned config live stream_ends
  happens config live (others_do shared transfers events) =
      spawned config live (others_do shared transfers events)

  -- `tokio::select!`: until it sees that one of the tasks has ended. It may see it late: the commands'
  -- task is one that it polls itself, in any order. A file that is being sent then is dropped where it is.
  unfoldable pub run_tasks : ClientConfig → Live → List Happening → Live × List Out
  run_tasks config live [] = (live, [])
  run_tasks config live (h ∷ hs) =
      let (next, goes_on, outs) = happens config live h in
      let (last, later) = run_tasks config next hs in
      if goes_on then (last, outs ++ later) else (next, outs)
