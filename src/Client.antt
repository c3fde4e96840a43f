-- ===== src/Client.antt =====
-- cliprelay-client/src/main.rs: the types of the Windows client's runtime, and its constants. The
-- children hold its functions: FileName (received names), Downloads (where files are saved), Config
-- (the saved configuration), History (the saved history), Transfer (files in chunks), Outgoing (what the
-- user sends), Incoming (what the relay sends), Presence (who is in the room, and the key), Dialling,
-- Connection and Runtime (connecting, a session, and the sessions one after the other), Phase (the
-- screens), Window and Clicks (what the window makes of events and clicks). UiState is
-- cliprelay-client/src/ui_state.rs, and Autostart cliprelay-client/src/lib.rs.
pub mod Autostart
pub mod Clicks
pub mod Config
pub mod Connection
pub mod Dialling
pub mod Runtime
pub mod Downloads
pub mod FileName
pub mod History
pub mod Incoming
pub mod Outgoing
pub mod Presence
pub mod Transfer
pub mod UiState
pub mod Window
pub mod Phase
use cliprelay.Base.{ℕ, ◌*◌, Bool, Option, List}
use cliprelay.Text.{Bytes, Text, ascii}
use cliprelay.Core.{PeerInfo, CoreError}

abbrev pub max_room_code_len : ℕ
max_room_code_len = 128

abbrev pub max_server_url_len : ℕ
max_server_url_len = 2048

abbrev pub max_device_name_len : ℕ
max_device_name_len = 128

abbrev pub default_max_file_bytes : ℕ
default_max_file_bytes = 200 * 1024 * 1024

abbrev pub max_inflight_transfers : ℕ
max_inflight_transfers = 8

abbrev pub transfer_timeout_ms : ℕ
transfer_timeout_ms = 600000

abbrev pub max_total_chunks : ℕ
max_total_chunks = 4096

abbrev pub file_chunk_raw_bytes : ℕ
file_chunk_raw_bytes = 64 * 1024

abbrev pub max_notifications : ℕ
max_notifications = 20

abbrev pub max_history_entries : ℕ
max_history_entries = 200

abbrev pub mime_text_plain : Text
mime_text_plain = ascii "text/plain"

abbrev pub mime_file_chunk_json_b64 : Text
mime_file_chunk_json_b64 = ascii "application/x-cliprelay-file-chunk+json;base64"

pub record ClientConfig : Type 0 where
  pub server_url : Text
  pub room_code : Text
  pub room_id : Text
  pub device_id : Text
  pub device_name : Text
  pub background : Bool
  pub initial_counter : ℕ

pub record SavedClientConfig : Type 0 where
  pub server_url : Text
  pub room_code : Text
  pub device_name : Text
  pub last_counter : ℕ

-- The reasons for which a file is not sent.
pub data FileError : Type 0 where
  file_is_empty file_too_large invalid_file_name file_key_not_ready : FileError
  too_many_chunks no_chunks chunk_too_large : FileError
  io_error : Text → FileError
  chunk_serialization : Text → FileError
  chunk_encryption : CoreError → FileError

-- The texts that `UiEvent::RuntimeError` carries.
pub data Notice : Type 0 where
  input_exceeds_limit room_key_not_ready : Notice
  encryption_failed_with : CoreError → Notice
  send_file_failed : FileError → Notice
  read_failed : Text → Notice
  relay_error : Text → Notice
  connect_failed invalid_server_url : Text → Notice
  connect_timed_out connection_ended : Notice

pub data UiEvent : Type 0 where
  connection_status : Text → UiEvent
  peers : List PeerInfo → UiEvent
  last_sent last_received : ℕ → UiEvent
  room_key_ready : Bool → UiEvent
  incoming_clipboard : Text → Text → Bytes → UiEvent
  incoming_file : Text → Text → Text → ℕ → UiEvent
  runtime_error : Notice → UiEvent

pub data RuntimeCommand : Type 0 where
  set_auto_apply : Bool → RuntimeCommand
  mark_applied : Bytes → RuntimeCommand
  send_text : Text → RuntimeCommand
  send_file : Text → RuntimeCommand

-- The three mutexes of `SharedRuntimeState`; none of the code that holds one panics, so a lock is
-- never poisoned.
pub record SharedRuntimeState : Type 0 where
  pub room_key : Option Bytes
  pub last_applied_hash : Option Bytes
  pub auto_apply : Bool
