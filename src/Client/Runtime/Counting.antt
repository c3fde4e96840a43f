-- ===== src/Client/Runtime/Counting.antt =====
-- The counters of the encrypted messages over everything that a run of the client does: it may
-- connect again and again.
use cliprelay.Client.Outgoing.Sending.{start_command, send_chunk, Sending}
use cliprelay.Core.{ControlMessage, WireMessage, Codec}
use cliprelay.Core.Frame.{encode_frame}
use cliprelay.Client.Presence.{on_control}
use cliprelay.Client.Incoming.{on_incoming, Incoming}
use cliprelay.Client.Connection.{
  selects, next_chunk, spawned, others_do, on_ticks, on_next_chunk, commands_end, stream_ends,
  takes_control, ticks, takes_message, for_window, reads, takes_command, Happening, new_live, Live,
  run_tasks, on_takes_message, on_takes_control, on_takes_command, on_reads, happens, told,
  send_message, World, Out,
}
use cliprelay.Client.Runtime.{
  on_runtime, runtime_of, linger, Round, reconnecting, forget_session, Runtime, run_single_session,
  run_client_runtime, rounds, one_round, connected_session,
}
use cliprelay.Client.Dialling.{max_connect_attempts, dial_loop, Dial}
use cliprelay.Client.{
  connection_status, peers, connection_ended, runtime_error, room_key_ready, SharedRuntimeState,
  Text, RuntimeCommand, ClientConfig, UiEvent,
}
use cliprelay.Base.{
  if◌then◌else◌, true, refl, none, some, ◌<◌, inr, inl, false, Option-cases, Bool-cases, ◌∷◌,
  Result-cases, [], Option, Bool, ◌≡◌, arith, ◌++◌, List, ℕ,
}
use cliprelay.Client.Outgoing.{Clock}
use cliprelay.Client.Outgoing.Runs.{max_u64, counters, Ascends, Runs, Runs-append, idle-Runs}
use cliprelay.Client.Outgoing.Counters.{start_command-Runs, send_chunk-Runs}
use cliprelay.Client.Connection.Queue.{effects_of, effects_of-append, effects_of-map}

-- What is done outside, from one counter to the next.
abbrev OutRuns : ℕ → List Out → ℕ → Type 0
OutRuns counter outs last = Runs counter (effects_of outs) last

append-OutRuns :
    (a b c : ℕ) (outs later : List Out)
    → OutRuns a outs b
    → OutRuns b later c
    → OutRuns a (outs ++ later) c
append-OutRuns a b c outs later r s =
    rw (effects_of-append outs later) (Runs-append a b c (effects_of outs) (effects_of later) r s)

counters-told : (events : List UiEvent) → counters (effects_of (told events)) ≡ []
counters-told [] = refl
counters-told (e ∷ events) = counters-told events

told-OutRuns : (n : ℕ) (events : List UiEvent) → OutRuns n (told events) n
told-OutRuns n events = (omega arith, λ h. rw (counters-told events) (omega arith))

sent-OutRuns :
    (codec : Codec) (m : WireMessage) (writes : Bool) (n : ℕ)
    → OutRuns n (send_message codec m writes).1 n
unfolding send_message
sent-OutRuns codec m true n = elim (Result-cases (encode_frame codec m)) [
  | inl (bytes, e) ↦ rw (e, send_message) (idle-Runs n)
  | inr (inl (x, e)) ↦ rw (e, send_message) (idle-Runs n)
  | inr (inr e) ↦ rw (e, send_message) (idle-Runs n)
]
sent-OutRuns codec m false n = elim (Result-cases (encode_frame codec m)) [
  | inl (bytes, e) ↦ rw (e, send_message) (idle-Runs n)
  | inr (inl (x, e)) ↦ rw (e, send_message) (idle-Runs n)
  | inr (inr e) ↦ rw (e, send_message) (idle-Runs n)
]

module _ (world : World) (config : ClientConfig) where
  takes_message-OutRuns :
      (live : Live) (writes : Bool) (ms : List WireMessage)
      → let one = on_takes_message world live writes ms in OutRuns live.counter one.2 one.0.counter
  unfolding on_takes_message
  takes_message-OutRuns live writes [] = idle-Runs live.counter
  takes_message-OutRuns live writes (m ∷ ms) =
      let sent = sent-OutRuns world.codec m writes live.counter in
      elim (Bool-cases (send_message world.codec m writes).0) [
        | inl goes_on ↦ rw (goes_on, on_takes_message) sent
        | inr fails ↦ rw (fails, on_takes_message) sent
      ]

  ticks-OutRuns :
      (live : Live) (writes : Bool)
      → let one = on_ticks world live writes in OutRuns live.counter one.2 one.0.counter
  unfolding on_ticks
  ticks-OutRuns live true = idle-Runs live.counter
  ticks-OutRuns live false = idle-Runs live.counter

  takes_control-OutRuns :
      (live : Live) (ms : List ControlMessage)
      → let one = on_takes_control world config live ms in OutRuns live.counter one.2 one.0.counter
  unfolding on_takes_control
  takes_control-OutRuns live [] = idle-Runs live.counter
  takes_control-OutRuns live (m ∷ ms) =
      told-OutRuns live.counter (on_control world.prim config live.peers live.shared m).2

  reads-OutRuns :
      (live : Live) (incoming : Incoming) (now : ℕ)
      → let one = on_reads world config live incoming now in
        OutRuns live.counter one.2 one.0.counter
  unfolding on_reads
  reads-OutRuns live incoming now =
      let one =
        on_incoming world.prim world.outside world.codec config live.shared live.receiver now
          incoming in
      elim (Option-cases one.0) [
        | inl left ↦ rw (left, on_reads) (told-OutRuns live.counter (for_window one.1))
        | inr (r, goes_on) ↦ rw (goes_on, on_reads) (told-OutRuns live.counter (for_window one.1))
      ]

  takes_command-OutRuns :
      (live : Live) (command : RuntimeCommand) (clock : Clock) (sending : Option Sending)
      → let one = on_takes_command world config live command clock sending in
        OutRuns live.counter one.2 one.0.counter
  unfolding on_takes_command
  takes_command-OutRuns live command clock (some s) = idle-Runs live.counter
  takes_command-OutRuns live command clock none =
      let one =
        start_command world.prim world.outside world.files world.decimal config live.shared
          live.counter clock command in
      rw (effects_of-map one.3) (
        start_command-Runs world.prim world.outside world.files world.decimal config live.shared
          live.counter clock command)

  next_chunk-OutRuns :
      (live : Live) (sending : Option Sending)
      → let one = on_next_chunk world config live sending in
        OutRuns live.counter one.2 one.0.counter
  unfolding on_next_chunk
  next_chunk-OutRuns live none = idle-Runs live.counter
  next_chunk-OutRuns live (some s) =
      rw (effects_of-map (send_chunk world.prim world.outside config live.counter s).2)
        (send_chunk-Runs world.prim world.outside config live.counter s)

  unless-OutRuns :
      (live : Live) (is_over : Bool) (one : Live × Bool × List Out)
      → OutRuns live.counter one.2 one.0.counter
      → let done : Live × Bool × List Out = if is_over then (live, true, []) else one in
        OutRuns live.counter done.2 done.0.counter
  unless-OutRuns live true one r = idle-Runs live.counter
  unless-OutRuns live false one r = r

  spawned-OutRuns :
      (live : Live) (h : Happening)
      → let one = spawned world config live h in OutRuns live.counter one.2 one.0.counter
  unfolding spawned
  spawned-OutRuns live (reads incoming now) =
      unless-OutRuns live live.reader_over _ (reads-OutRuns live incoming now)
  spawned-OutRuns live takes_control = takes_control-OutRuns live live.controls
  spawned-OutRuns live (takes_message writes) =
      unless-OutRuns live live.writer_over _ (takes_message-OutRuns live writes live.outgoing)
  spawned-OutRuns live (ticks writes) =
      unless-OutRuns live live.writer_over _ (ticks-OutRuns live writes)
  spawned-OutRuns live stream_ends = idle-Runs live.counter
  spawned-OutRuns live (others_do shared transfers events) = told-OutRuns live.counter events
  spawned-OutRuns live (takes_command command clock) = idle-Runs live.counter
  spawned-OutRuns live next_chunk = idle-Runs live.counter
  spawned-OutRuns live commands_end = idle-Runs live.counter
  spawned-OutRuns live selects = idle-Runs live.counter

  happens-OutRuns :
      (live : Live) (h : Happening)
      → let one = happens world config live h in OutRuns live.counter one.2 one.0.counter
  unfolding happens
  happens-OutRuns live (takes_command command clock) =
      takes_command-OutRuns live command clock live.sending
  happens-OutRuns live next_chunk = next_chunk-OutRuns live live.sending
  happens-OutRuns live commands_end = idle-Runs live.counter
  happens-OutRuns live selects = idle-Runs live.counter
  happens-OutRuns live (reads incoming now) = spawned-OutRuns live (reads incoming now)
  happens-OutRuns live takes_control = spawned-OutRuns live takes_control
  happens-OutRuns live (takes_message writes) = spawned-OutRuns live (takes_message writes)
  happens-OutRuns live (ticks writes) = spawned-OutRuns live (ticks writes)
  happens-OutRuns live stream_ends = spawned-OutRuns live stream_ends
  happens-OutRuns live (others_do shared transfers events) =
      spawned-OutRuns live (others_do shared transfers events)

  run_tasks-OutRuns :
      (live : Live) (hs : List Happening)
      → let (last, outs) = run_tasks world config live hs in OutRuns live.counter outs last.counter
  unfolding run_tasks
  run_tasks-OutRuns live [] = idle-Runs live.counter
  run_tasks-OutRuns live (h ∷ hs) =
      let one = happens world config live h in
      let later = run_tasks world config one.0 hs in
      elim (Bool-cases one.1) [
        | inr stops ↦ rw (stops, run_tasks) (happens-OutRuns live h)
        | inl goes ↦
            rw (goes, run_tasks)
              (append-OutRuns live.counter one.0.counter later.0.counter one.2 later.1
                (happens-OutRuns live h) (run_tasks-OutRuns one.0 hs))
      ]

  connected-OutRuns :
      (rt : Runtime) (hs : List Happening)
      → let (live, outs) = connected_session world config rt hs in
        OutRuns rt.counter outs live.counter
  unfolding connected_session new_live
  connected-OutRuns rt hs =
      let live = new_live config rt.shared rt.counter rt.transfers in
      let ran = run_tasks world config live hs in
      append-OutRuns rt.counter ran.0.counter ran.0.counter ran.1
        (told (runtime_error connection_ended ∷ [])) (run_tasks-OutRuns live hs)
        (told-OutRuns ran.0.counter (runtime_error connection_ended ∷ []))

  session-OutRuns :
      (rt : Runtime) (dial : ℕ → Dial) (hs : List Happening)
      → let (last, left, outs) = run_single_session world config rt dial hs in
        OutRuns rt.counter outs last.counter
  unfolding run_single_session runtime_of
  session-OutRuns rt dial hs = elim (Option-cases (dial_loop max_connect_attempts dial 1)) [
    | inl never ↦ rw (never, run_single_session) (idle-Runs rt.counter)
    | inr (d, dialled) ↦ elim (Option-cases d.gives_up) [
      | inr (e, failed) ↦
          rw (dialled, run_single_session, failed, run_single_session)
            (told-OutRuns rt.counter (runtime_error e ∷ []))
      | inl connected ↦
          rw (dialled, run_single_session, connected, run_single_session) (connected-OutRuns rt hs)
    ]
  ]

  linger-OutRuns :
      (rt : Runtime) (left : Option Live) (hs : List Happening)
      → let one = linger world config rt left hs in OutRuns rt.counter one.2 one.0.counter
  unfolding linger runtime_of on_runtime
  linger-OutRuns rt none hs = idle-Runs rt.counter
  linger-OutRuns rt (some live) [] = idle-Runs rt.counter
  linger-OutRuns rt (some live) (h ∷ hs) =
      let one = spawned world config (on_runtime rt live) h in
      let more = linger world config (runtime_of one.0) (some one.0) hs in
      append-OutRuns rt.counter one.0.counter more.0.counter one.2 more.2
        (spawned-OutRuns (on_runtime rt live) h) (linger-OutRuns (runtime_of one.0) (some one.0) hs)

  one_round-OutRuns :
      (rt : Runtime) (s : Round)
      → let (last, outs) = one_round world config rt s in OutRuns rt.counter outs last.counter
  unfolding one_round forget_session
  one_round-OutRuns rt s =
      let one = run_single_session world config rt s.dial s.happenings in
      let late = linger world config one.0 one.1 s.before_forgotten in
      let next = forget_session late.0 in
      let end = linger world config next.0 late.1 s.after_forgotten in
      let n : ℕ = late.0.counter in
      append-OutRuns rt.counter one.0.counter end.0.counter one.2 (late.2 ++ (next.1 ++ end.2))
        (session-OutRuns rt s.dial s.happenings)
        (append-OutRuns one.0.counter n end.0.counter late.2 (next.1 ++ end.2)
          (linger-OutRuns one.0 one.1 s.before_forgotten)
          (append-OutRuns n n end.0.counter next.1 end.2
            (told-OutRuns n (room_key_ready false ∷ peers [] ∷ connection_status reconnecting ∷ []))
            (linger-OutRuns next.0 late.1 s.after_forgotten)))

  rounds-OutRuns :
      (rt : Runtime) (sessions : List Round)
      → let (last, outs) = rounds world config rt sessions in OutRuns rt.counter outs last.counter
  unfolding rounds
  rounds-OutRuns rt [] = idle-Runs rt.counter
  rounds-OutRuns rt (s ∷ sessions) =
      let one = one_round world config rt s in
      let more = rounds world config one.0 sessions in
      append-OutRuns rt.counter one.0.counter more.0.counter one.1 more.1 (one_round-OutRuns rt s)
        (rounds-OutRuns one.0 sessions)

  -- Whatever happens in however many sessions, each after a new connection, also where a session ends
  -- between two chunks of a file, while the 64-bit counter is not used up: the encrypted messages that the client queues carry strictly increasing counters,
  -- all above the counter of its configuration, also across the connections.
  pub run_client_runtime-Ascends :
      (url_error : Option Text) (shared : SharedRuntimeState) (sessions : List Round)
      → (run_client_runtime world config url_error shared sessions).0.counter < max_u64
      → let (last, outs) = run_client_runtime world config url_error shared sessions in
        Ascends config.initial_counter (counters (effects_of outs)) last.counter
  unfolding run_client_runtime
  run_client_runtime-Ascends (some e) shared sessions h = omega arith
  run_client_runtime-Ascends none shared sessions h =
      (rounds-OutRuns (record { shared = shared; counter = config.initial_counter; transfers = [] })
          sessions).1
        h
