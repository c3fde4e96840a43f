-- ===== src/Client/Dialling.antt =====
-- Connecting to the relay: the loop in `run_single_session` of cliprelay-client/src/main.rs.
pub mod Attempts
use cliprelay.Base.{
  ℕ, zero, suc, ◌+◌, ◌-◌, ◌*◌, ◌^◌, Bool, true, false, Option, none, some, Result, ok, List, [],
  ◌∷◌, ◌++◌, leb, if◌then◌else◌, ◌⊎◌, inl, inr, map,
}
use cliprelay.Base.Map.{Map}
use cliprelay.Text.{Bytes, Text, ascii}
use cliprelay.Core.{PeerInfo, ControlMessage, hello, WireMessage, control, Codec}
use cliprelay.Core.Frame.{encode_frame}
use cliprelay.Core.Cipher.{Primitives}
use cliprelay.Client.{
  ClientConfig, SharedRuntimeState, RuntimeCommand, UiEvent, connection_status, peers,
  room_key_ready, runtime_error, Notice, connect_failed, connect_timed_out, connection_ended,
  invalid_server_url,
}
use cliprelay.Client.Transfer.{Outside, Transfers}
use cliprelay.Client.Outgoing.{Effect, queue, tell, persist, Files, Clock, on_command}
use cliprelay.Client.Incoming.{Incoming, Receiver, Passed, to_presence, to_window, on_incoming}
use cliprelay.Client.Presence.{initial_peers, on_control}

-- How one attempt to connect ends, within its 12 seconds or not.
pub data Dial : Type 0 where
  connects dial_times_out : Dial
  dial_fails : Text → Dial

abbrev pub max_connect_attempts : ℕ
max_connect_attempts = 3

abbrev pub backoff_base_ms : ℕ
backoff_base_ms = 200

-- What the loop that connects comes to: the pauses it made, and the error that it gives up with.
pub record Dialled : Type 0 where
  pub pauses : List ℕ
  pub gives_up : Option Notice

-- The notice of a failed attempt.
unfoldable pub dial_error : Dial → Option Notice
dial_error connects = none
dial_error (dial_fails e) = some (connect_failed e)
dial_error dial_times_out = some connect_timed_out

-- The loop, on fuel: `none` where the fuel is used up.
unfoldable pub dial_loop : ℕ → (ℕ → Dial) → ℕ → Option Dialled
dial_loop zero dial attempt = none
dial_loop (suc fuel) dial attempt =
    let backoff_ms = backoff_base_ms * 2 ^ (attempt - 1) in
    let rest = dial_loop fuel dial (attempt + 1) in
    elim (dial_error (dial attempt)) [
      | none ↦ some (record { pauses = []; gives_up = none })
      | some e ↦
          if leb max_connect_attempts attempt
          then some (record { pauses = []; gives_up = some e })
          else elim rest [
            | none ↦ none
            | some d ↦ some (record { pauses = backoff_ms ∷ d.pauses; gives_up = d.gives_up })
          ]
    ]
