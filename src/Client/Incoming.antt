-- ===== src/Client/Incoming.antt =====
-- What the relay sends to a client: `network_receive_task` of cliprelay-client/src/main.rs. The task
-- keeps the replay map; the table of file transfers is a static of `handle_file_chunk_event`. The
-- room key and the last applied hash are read from the shared state as it is then.
pub mod Delivered
pub mod Replayed
use cliprelay.Base.{
  false, ℕ, Bool, Option, none, some, Result, ok, err, panic, List, [], ◌∷◌, ◌++◌, ◌=?◌,
  if◌then◌else◌, ◌&&◌,
}
use cliprelay.Base.Map.{Map}
use cliprelay.Text.{Bytes, Text}
use cliprelay.Core.{
  ClipboardEventPlaintext, EncryptedPayload, WireMessage, control, encrypted, ControlMessage, Codec,
}
use cliprelay.Core.Frame.{decode_frame}
use cliprelay.Core.Cipher.{Primitives, decrypt_clipboard_event}
use cliprelay.Core.Replay.{validate_counter}
use cliprelay.Client.{
  ClientConfig, SharedRuntimeState, UiEvent, last_received, incoming_clipboard, incoming_file,
  runtime_error, read_failed, mime_text_plain, mime_file_chunk_json_b64,
}
use cliprelay.Client.Transfer.{Outside, Transfers, CompletedFile, handle_file_chunk_event}

-- tungstenite's messages: only the binary ones are looked at.
pub data Incoming : Type 0 where
  binary_message : Bytes → Incoming
  other_message : Incoming
  read_error : Text → Incoming

pub record Receiver : Type 0 where
  pub replay_map : Map ℕ
  pub transfers : Transfers

-- What the task passes on: to the presence task, or to the window.
pub data Passed : Type 0 where
  to_presence : ControlMessage → Passed
  to_window : UiEvent → Passed

-- `last_applied_hash` holds this very hash.
unfoldable pub is_last_applied : SharedRuntimeState → Bytes → Bool
is_last_applied shared content_hash = elim shared.last_applied_hash [
  | none ↦ false
  | some last ↦ last =? content_hash
]

abbrev pub file_arrived : ℕ → CompletedFile → List Passed
file_arrived now file =
    to_window (last_received now)
    ∷ to_window (incoming_file file.sender_device_id file.file_name file.temp_path file.size_bytes)
    ∷ []

module _ (prim : Primitives) (outside : Outside) where
  -- An event that was decrypted; `now` is the clock's reading. `none` where the task panics.
  unfoldable pub on_text : SharedRuntimeState → ℕ → ClipboardEventPlaintext → List Passed
  on_text shared now event =
      let content_hash = prim.sha256 event.text_utf8 in
      if is_last_applied shared content_hash
      then []
      else to_window (last_received now)
        ∷ to_window (incoming_clipboard event.sender_device_id event.text_utf8 content_hash)
        ∷ []

  unfoldable pub on_chunk : Receiver → ℕ → ClipboardEventPlaintext → Option Receiver × List Passed
  on_chunk r now event =
      let (transfers, answer) =
        handle_file_chunk_event outside r.transfers now event.sender_device_id event.text_utf8 in
      let r' : Receiver = record { replay_map = r.replay_map; transfers = transfers } in
      elim answer [
        | ok (some file) ↦ (some r', file_arrived now file)
        | ok none ↦ (some r', [])
        | err e ↦ (some r', [])
        | panic ↦ (none, [])
      ]

  unfoldable pub on_event :
      SharedRuntimeState → Receiver → ℕ → ClipboardEventPlaintext → Option Receiver × List Passed
  on_event shared r now event =
      if event.mime =? mime_text_plain
      then (some r, on_text shared now event)
      else (if event.mime =? mime_file_chunk_json_b64 then on_chunk r now event else (some r, []))

  -- A payload whose counter was accepted.
  unfoldable pub on_fresh :
      SharedRuntimeState → Receiver → ℕ → EncryptedPayload → Option Receiver × List Passed
  on_fresh shared r now payload = elim shared.room_key [
    | none ↦ (some r, [])
    | some key ↦ elim (decrypt_clipboard_event prim key payload) [
      | ok event ↦ on_event shared r now event
      | err e ↦ (some r, [])
      | panic ↦ (none, [])
    ]
  ]

  unfoldable pub on_payload :
      ClientConfig
      → SharedRuntimeState
      → Receiver
      → ℕ
      → EncryptedPayload
      → Option Receiver × List Passed
  on_payload config shared r now payload =
      let (replay_map, answer) =
        validate_counter r.replay_map payload.sender_device_id payload.counter in
      let r' : Receiver = record { replay_map = replay_map; transfers = r.transfers } in
      if payload.sender_device_id =? config.device_id then (some r, []) else elim answer [
        | ok u ↦ on_fresh shared r' now payload
        | err e ↦ (some r', [])
        | panic ↦ (none, [])
      ]

  module _ (codec : Codec) where
    -- One round of the loop: `none` where it is left.
    unfoldable pub on_incoming :
        ClientConfig → SharedRuntimeState → Receiver → ℕ → Incoming → Option Receiver × List Passed
    on_incoming config shared r now (read_error e) =
        (none, to_window (runtime_error (read_failed e)) ∷ [])
    on_incoming config shared r now other_message = (some r, [])
    on_incoming config shared r now (binary_message bytes) = elim (decode_frame codec bytes) [
      | ok (control m) ↦ (some r, to_presence m ∷ [])
      | ok (encrypted payload) ↦ on_payload config shared r now payload
      | err e ↦ (some r, [])
      | panic ↦ (none, [])
    ]

    -- The loop, over what is read, each with the shared state and the clock as they are then.
    unfoldable pub network_receive_task :
        ClientConfig
        → Receiver
        → List (Incoming × SharedRuntimeState × ℕ)
        → Option Receiver × List Passed
    network_receive_task config r [] = (some r, [])
    network_receive_task config r ((incoming, shared, now) ∷ rest) =
        let (next, passed) = on_incoming config shared r now incoming in
        elim next [
          | none ↦ (none, passed)
          | some r' ↦
              let (final, later) = network_receive_task config r' rest in (final, passed ++ later)
        ]
