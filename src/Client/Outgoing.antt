-- ===== src/Client/Outgoing.antt =====
-- What the user sends, cliprelay-client/src/main.rs: `process_runtime_commands`,
-- `handle_runtime_command` and `send_file_v1`. An operation returns the state that it leaves, and
-- what it did outside in order: messages queued for the socket, events for the window, counters
-- written to the configuration. The clock's readings, sha2, hex, base64, serde_json and the file
-- system are parameters; the pause between two chunks changes no state.
pub mod Runs
pub mod Counters
pub mod Sending
pub mod Chunkwise
pub mod Uninterrupted
use cliprelay.Base.{
  ◌%◌, ℕ, zero, suc, ◌+◌, ◌-◌, ◌^◌, Bool, Option, none, some, Result, ok, err, panic, ◌>>=◌, ◌>>◌,
  fail_if, ok_or, map_err, List, [], ◌∷◌, ◌++◌, length, take, ltb, ◌==◌, if◌then◌else◌, ◌⊎◌, inl,
  inr, min,
}
use cliprelay.Text.{Bytes, Text, trim, is_empty, ascii}
use cliprelay.Core.{
  ClipboardEventPlaintext, EncryptedPayload, WireMessage, encrypted, max_clipboard_text_bytes,
}
use cliprelay.Core.Cipher.{Primitives, encrypt_clipboard_event}
use cliprelay.Client.{
  ClientConfig, SharedRuntimeState, RuntimeCommand, set_auto_apply, mark_applied, send_text,
  send_file, UiEvent, last_sent, runtime_error, Notice, input_exceeds_limit, room_key_not_ready,
  encryption_failed_with, send_file_failed, FileError, file_is_empty, file_too_large,
  invalid_file_name, file_key_not_ready, too_many_chunks, no_chunks, chunk_too_large, io_error,
  chunk_serialization, chunk_encryption, default_max_file_bytes, max_total_chunks, mime_text_plain,
  mime_file_chunk_json_b64,
}
use cliprelay.Client.Transfer.{FileChunkEnvelope, Outside, chunk_at, chunk_count}

-- What the runtime does outside: `network_send_tx.send`, `ui_event_tx.send`, and
-- `persist_last_counter` with its counter.
pub data Effect : Type 0 where
  queue : WireMessage → Effect
  tell : UiEvent → Effect
  persist : ℕ → Effect

-- `u64::saturating_add(1)`.
unfoldable pub saturating_suc : ℕ → ℕ
saturating_suc n = min (n + 1) (2 ^ 64 - 1)

unfoldable pub handle_runtime_command : RuntimeCommand → SharedRuntimeState → SharedRuntimeState
handle_runtime_command (set_auto_apply value) shared = record shared { auto_apply = value }
handle_runtime_command (mark_applied hash) shared = record shared { last_applied_hash = some hash }
handle_runtime_command (send_text t) shared = shared
handle_runtime_command (send_file path) shared = shared

-- `std::fs::metadata`, `Path::file_name` as a string, and `std::fs::read`.
pub record Files : Type 0 where
  pub size : Text → Text ⊎ ℕ
  pub file_name : Text → Option Text
  pub read : Text → Text ⊎ Bytes

abbrev pub or_io_error {ℓ} : {A : Type ℓ} → Text ⊎ A → Result FileError A
or_io_error (inl e) = err (io_error e)
or_io_error (inr a) = ok a

abbrev pub or_chunk_serialization : Text ⊎ Bytes → Result FileError Bytes
or_chunk_serialization (inl e) = err (chunk_serialization e)
or_chunk_serialization (inr a) = ok a

-- The blocking part of `send_file_v1`.
unfoldable pub read_file : Files → Text → Result FileError (Text × Bytes)
read_file files path = do
  size ← or_io_error (files.size path)
  fail_if (size == 0) file_is_empty
  fail_if (ltb default_max_file_bytes size) file_too_large
  name ← ok_or (files.file_name path) invalid_file_name
  contents ← or_io_error (files.read path)
  ok (name, contents)

-- `div_ceil(…) as u32` and its two guards.
unfoldable pub checked_chunk_count : Bytes → Result FileError ℕ
checked_chunk_count contents = do
  let total_chunks = chunk_count (length contents) % 2 ^ 32
  fail_if (total_chunks == 0) no_chunks
  fail_if (ltb max_total_chunks total_chunks) too_many_chunks
  ok total_chunks

-- What the loop of `send_file_v1` starts from: the file's name and contents, the room key and the
-- number of chunks.
pub record Prepared : Type 0 where
  pub name : Text
  pub contents : Bytes
  pub key : Bytes
  pub count : ℕ

unfoldable pub prepare : Files → SharedRuntimeState → Text → Result FileError Prepared
prepare files shared path = do
  found ← read_file files path
  key ← ok_or shared.room_key file_key_not_ready
  count ← checked_chunk_count found.1
  ok (record { name = found.0; contents = found.1; key = key; count = count })

-- The clock's readings while one command runs: before the text or the file, before each chunk, after
-- all.
pub record Clock : Type 0 where
  pub start : ℕ
  pub at_chunk : ℕ → ℕ
  pub finish : ℕ

unfoldable pub chunk_event : ClientConfig → Clock → ℕ → ℕ → Text → ClipboardEventPlaintext
chunk_event config clock counter chunk_index text = record {
  sender_device_id = config.device_id;
  counter = counter;
  timestamp_unix_ms = clock.at_chunk chunk_index;
  mime = mime_file_chunk_json_b64;
  text_utf8 = text;
}

unfoldable pub text_event : ClientConfig → Clock → ℕ → Text → ClipboardEventPlaintext
text_event config clock counter text = record {
  sender_device_id = config.device_id;
  counter = counter;
  timestamp_unix_ms = clock.start;
  mime = mime_text_plain;
  text_utf8 = text;
}

module _ (prim : Primitives) (outside : Outside) where
  -- One chunk's envelope, as text within the limit.
  unfoldable pub envelope_text : Text → Text → Bytes → ℕ → ℕ → Result FileError Text
  envelope_text transfer_id file_name contents total_chunks chunk_index = do
    text ← or_chunk_serialization (
        outside.envelope_json.to_vec (record {
          transfer_id = transfer_id;
          file_name = file_name;
          total_size = length contents;
          chunk_index = chunk_index;
          total_chunks = total_chunks;
          chunk_b64 = outside.encode_base64 (chunk_at contents chunk_index);
        }))
    fail_if (ltb max_clipboard_text_bytes (length text)) chunk_too_large
    ok text

  -- The loop of `send_file_v1`, from the chunk `chunk_index` on for `left` chunks: the counter as it
  -- is left, what was queued, and the error that stopped it.
  unfoldable pub send_chunks :
      Bytes
      → ClientConfig
      → Clock
      → (ℕ → Result FileError Text)
      → ℕ
      → ℕ
      → ℕ
      → ℕ × List Effect × Result FileError (Unit {0})
  send_chunks room_key config clock text_of counter chunk_index zero = (counter, [], ok tt)
  send_chunks room_key config clock text_of counter chunk_index (suc left) =
      let counter' = saturating_suc counter in
      let (last, effects, answer) =
        send_chunks room_key config clock text_of counter' (suc chunk_index) left in
      elim (text_of chunk_index) [
        | err e ↦ (counter, [], err e)
        | panic ↦ (counter, [], panic)
        | ok text ↦
            elim (encrypt_clipboard_event prim room_key
              (chunk_event config clock counter' chunk_index text)) [
                | err e ↦ (counter', [], err (chunk_encryption e))
                | panic ↦ (counter', [], panic)
                | ok payload ↦ (last, queue (encrypted payload) ∷ effects, answer)
              ]
      ]

  -- `hex::encode(&digest[..16])` of the device, the time and the name; `show` is the decimal text.
  unfoldable pub transfer_id_of : (ℕ → Text) → ClientConfig → ℕ → Text → Text
  transfer_id_of show config now file_name =
      prim.hex
        (take 16 (prim.sha256 (config.device_id ++ (b':' ∷ (show now ++ (b':' ∷ file_name))))))

  unfoldable pub send_file_v1 :
      Files
      → (ℕ → Text)
      → Text
      → ClientConfig
      → SharedRuntimeState
      → ℕ
      → Clock
      → ℕ × List Effect × Result FileError (Unit {0})
  send_file_v1 files show path config shared counter clock = elim (prepare files shared path) [
    | err e ↦ (counter, [], err e)
    | panic ↦ (counter, [], panic)
    | ok p ↦
        let id = transfer_id_of show config clock.start p.name in
        let (last, effects, answer) =
          send_chunks p.key config clock (envelope_text id p.name p.contents p.count) counter 0
            p.count in
        elim answer [
          | ok u ↦ (last, effects ++ (tell (last_sent clock.finish) ∷ []), ok tt)
          | err e ↦ (last, effects, err e)
          | panic ↦ (last, effects, panic)
        ]
  ]

  -- `RuntimeCommand::SendText`. A blank text is ignored.
  unfoldable pub on_send_text :
      ClientConfig → SharedRuntimeState → ℕ → Clock → Text → ℕ × List Effect
  on_send_text config shared counter clock text =
      let counter' = saturating_suc counter in
      if is_empty (trim text)
      then (counter, [])
      else (if ltb max_clipboard_text_bytes (length text)
          then (counter, tell (runtime_error input_exceeds_limit) ∷ [])
          else elim shared.room_key [
            | none ↦ (counter, tell (runtime_error room_key_not_ready) ∷ [])
            | some key ↦
                elim (encrypt_clipboard_event prim key (text_event config clock counter' text)) [
                  | ok payload ↦ (
                    counter',
                    queue (encrypted payload)
                        ∷ tell (last_sent clock.finish)
                        ∷ persist counter'
                        ∷ [],
                  )
                  | err e ↦ (counter', tell (runtime_error (encryption_failed_with e)) ∷ [])
                  | panic ↦ (counter', [])
                ]
          ])

  -- One round of the loop of `process_runtime_commands`.
  unfoldable pub on_command :
      Files
      → (ℕ → Text)
      → ClientConfig
      → SharedRuntimeState
      → ℕ
      → Clock
      → RuntimeCommand
      → SharedRuntimeState × ℕ × List Effect
  on_command files show config shared counter clock (send_text t) =
      let (counter', effects) = on_send_text config shared counter clock t in
      (shared, counter', effects)
  on_command files show config shared counter clock (send_file path) =
      let (last, effects, answer) = send_file_v1 files show path config shared counter clock in
      (
        shared,
        last,
        elim answer [
          | ok u ↦ effects ++ (persist last ∷ [])
          | err e ↦ effects ++ (tell (runtime_error (send_file_failed e)) ∷ [])
          | panic ↦ effects
        ],
      )
  on_command files show config shared counter clock command =
      (handle_runtime_command command shared, counter, [])

  -- The loop, over the commands that come, each with the clock's readings and with what the other
  -- tasks did to the shared state before it.
  unfoldable pub process_runtime_commands :
      Files
      → (ℕ → Text)
      → ClientConfig
      → SharedRuntimeState
      → ℕ
      → List (RuntimeCommand × (SharedRuntimeState → SharedRuntimeState) × Clock)
      → SharedRuntimeState × ℕ × List Effect
  process_runtime_commands files show config shared counter [] = (shared, counter, [])
  process_runtime_commands files show config shared counter ((command, others, clock) ∷ rest) =
      let (shared', counter', effects) =
        on_command files show config (others shared) counter clock command in
      let (final, last, later) = process_runtime_commands files show config shared' counter' rest in
      (final, last, effects ++ later)
